-- ===== src/Live/Normalizer/Order.antt =====
-- The numbers of the subtitles across reconnects.
use yeson_meet.Prelude.{
  ℕ_eq, ℕ, All, List, Option-cases, [], ap, arith, inl, inr, max, some, subst, ◌+◌, ◌<◌, ◌∙◌, ◌∷◌,
  ◌≡◌, ◌≢◌, ◌≤◌,
}
use yeson_meet.Prelude.Dict.{get, get-put}
use yeson_meet.Live.Normalizer.{
  Utterance, AiSequenceNormalizer, assign, enter_segment, new_normalizer, normalize, normalize_all,
}

-- The stored numbers are the offset plus the provider's, and the last number bounds all.
pub record IsValid (n : AiSequenceNormalizer) : Type 0 where
  pub above : n.offset ≤ n.last_assigned_seq
  pub stored : (s a : ℕ) → get s n.provider_to_assigned ≡ some a → a ≡ n.offset + s

enter_segment-IsValid : (n : AiSequenceNormalizer) (g : ℕ) → IsValid n → IsValid (enter_segment n g)
unfolding enter_segment get
enter_segment-IsValid n g v = record {
  above = ground (arith, v.above);
  stored = λ s a h. ground (arith, v.stored s a);
}

-- The number of an utterance is its own plus the offset of its segment.
assign_lem : (n : AiSequenceNormalizer) (s : ℕ) → IsValid n → (assign n s).1 ≡ n.offset + s
unfolding assign
assign_lem n s v = elim (Option-cases (get s n.provider_to_assigned)) [
  | inl new ↦ ground arith
  | inr (a, old) ↦ ground (arith, v.stored s a old)
]

assign-IsValid : (n : AiSequenceNormalizer) (s : ℕ) → IsValid n → IsValid (assign n s).0
unfolding assign
assign-IsValid n s v = record {
  above = ground (arith, v.above);
  stored =
      λ s' a h. ground (arith, v.stored s' a, get-put s s' (n.offset + s) n.provider_to_assigned);
}

assign_last :
    (n : AiSequenceNormalizer) (s : ℕ)
    → (assign n s).0.last_assigned_seq ≡ max n.last_assigned_seq (assign n s).1
unfolding assign
assign_last n s = ground arith

last_segment-assign :
    (n : AiSequenceNormalizer) (s : ℕ) → (assign n s).0.last_segment ≡ n.last_segment
unfolding assign
last_segment-assign n s = ground arith

last_segment-enter : (n : AiSequenceNormalizer) (g : ℕ) → (enter_segment n g).last_segment ≡ g
unfolding enter_segment
last_segment-enter n g = ground arith

offset-assign : (n : AiSequenceNormalizer) (s : ℕ) → (assign n s).0.offset ≡ n.offset
unfolding assign
offset-assign n s = ground arith

last-enter :
    (n : AiSequenceNormalizer) (g : ℕ) → (enter_segment n g).last_assigned_seq ≡ n.last_assigned_seq
unfolding enter_segment
last-enter n g = ground arith

offset-enter_new :
    (n : AiSequenceNormalizer) (g : ℕ)
    → g ≢ n.last_segment
    → (enter_segment n g).offset ≡ n.last_assigned_seq
unfolding enter_segment
offset-enter_new n g h = ground arith

enter_same : (n : AiSequenceNormalizer) → enter_segment n n.last_segment ≡ n
unfolding enter_segment
enter_same n = ground arith

-- What holds after any utterances: all numbers given so far are at most the last one.
record History (initial : ℕ) (n : AiSequenceNormalizer) (out : List ℕ) : Type 0 where
  valid : IsValid n
  from_initial : initial ≤ n.last_assigned_seq
  bounded : All (λ a. a ≤ n.last_assigned_seq) out

All-le_mono : (m k : ℕ) (out : List ℕ) → m ≤ k → All (λ a. a ≤ m) out → All (λ a. a ≤ k) out
All-le_mono m k [] le h = tt
All-le_mono m k (a ∷ out) le h = (omega arith, All-le_mono m k out le h.1)

All-lt : (m k : ℕ) (out : List ℕ) → m < k → All (λ a. a ≤ m) out → All (λ a. a < k) out
All-lt m k [] lt h = tt
All-lt m k (a ∷ out) lt h = (omega arith, All-lt m k out lt h.1)

normalize-History :
    (initial : ℕ) (n : AiSequenceNormalizer) (out : List ℕ) (u : Utterance)
    → History initial n out
    → History initial (normalize n u).0 ((normalize n u).1 ∷ out)
unfolding normalize
normalize-History initial n out u h =
    let entered = enter_segment n u.provider_segment in
    let last = assign_last entered u.seq in
    let same = last-enter n u.provider_segment in
    record {
      valid = assign-IsValid entered u.seq (enter_segment-IsValid n u.provider_segment h.valid);
      from_initial = omega (arith, h.from_initial);
      bounded = (
        omega arith,
        All-le_mono n.last_assigned_seq (assign entered u.seq).0.last_assigned_seq out (omega arith)
            h.bounded,
      );
    }

normalize_all-History :
    (initial : ℕ) (n : AiSequenceNormalizer) (out : List ℕ) (us : List Utterance)
    → History initial n out
    → History initial (normalize_all n out us).0 (normalize_all n out us).1
unfolding normalize_all
normalize_all-History initial n out [] h = h
normalize_all-History initial n out (u ∷ us) h =
    normalize_all-History initial (normalize n u).0 ((normalize n u).1 ∷ out) us
      (normalize-History initial n out u h)

new-History : (initial : ℕ) → History initial (new_normalizer initial) []
unfolding new_normalizer get
new-History initial = record {
  valid = record { above = omega arith; stored = λ s a h. absurd (ground arith) };
  from_initial = omega arith;
  bounded = tt;
}

-- The subtitle numbers of a meeting whose stored subtitles end at `initial`, after any utterances
-- `before`. A first utterance of a new segment, numbered from 1, gets a number above all that were
-- given and above the stored ones, so nothing is overwritten.
pub normalize_fresh :
    (initial : ℕ) (before : List Utterance) (u : Utterance)
    → 1 ≤ u.seq
    → let r = normalize_all (new_normalizer initial) [] before in
      u.provider_segment ≢ r.0.last_segment
      → All (λ a. a < (normalize r.0 u).1) r.1 × (initial < (normalize r.0 u).1)
unfolding normalize
normalize_fresh initial before u pos new =
    let r = normalize_all (new_normalizer initial) [] before in
    let h =
      normalize_all-History initial (new_normalizer initial) [] before (new-History initial) in
    let entered = enter_segment r.0 u.provider_segment in
    let number = assign_lem entered u.seq (enter_segment-IsValid r.0 u.provider_segment h.valid) in
    let start = offset-enter_new r.0 u.provider_segment new in
    (
      All-lt r.0.last_assigned_seq (assign entered u.seq).1 r.1 (omega arith) h.bounded,
      omega (arith, h.from_initial),
    )

-- After any utterances, two more of one segment get numbers with the difference of their own: a
-- repeated utterance keeps its number, a later one gets a later number.
pub normalize_same_segment :
    (initial : ℕ) (before : List Utterance) (u v : Utterance)
    → u.provider_segment ≡ v.provider_segment
    → let n = (normalize_all (new_normalizer initial) [] before).0 in
      let first = normalize n u in first.1 + v.seq ≡ (normalize first.0 v).1 + u.seq
unfolding normalize
normalize_same_segment initial before u v same =
    let n = (normalize_all (new_normalizer initial) [] before).0 in
    let h =
      normalize_all-History initial (new_normalizer initial) [] before (new-History initial) in
    let e = enter_segment n u.provider_segment in
    let ev = enter_segment-IsValid n u.provider_segment h.valid in
    let after = (assign e u.seq).0 in
    let seg : after.last_segment ≡ v.provider_segment =
      last_segment-assign e u.seq ∙ (last_segment-enter n u.provider_segment ∙ same) in
    let stay : enter_segment after v.provider_segment ≡ after =
      subst (λ g. enter_segment after g ≡ after) seg (enter_same after) in
    let number : (assign after v.seq).1 ≡ after.offset + v.seq =
      assign_lem after v.seq (assign-IsValid e u.seq ev) in
    omega (
      arith,
      ap (λ m. (assign m v.seq).1) stay,
      number,
      assign_lem e u.seq ev,
      offset-assign e u.seq,
    )
