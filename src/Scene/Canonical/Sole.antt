-- ===== src/Scene/Canonical/Sole.antt =====
-- apps/server/domain/video_captions/scene_split.py, `_reparse`: the choice among the known texts that a
-- deletion leads to.
use yeson_meet.Prelude.{
  Bool, List, Option, [], ◌∷◌, ◌≡◌, ◌==◌, arith, refl, none, some, true, false, inl, inr,
  Bool-cases, Option-cases, map, keep, any, text_eq, All, subst, ◌⊎◌,
}
use yeson_meet.Prelude.Text.{Str, CharTable}
use yeson_meet.Glossary.{is_one_of}
use yeson_meet.Scene.Canonical.{distinct, only, somes, deletions, fill_template}
use yeson_meet.Scene.Canonical.Reparse.{decided, matched}

same_text : (x m : Str) → some x ≡ some m → x ≡ m
same_text x m h = ground arith

module _ {κ} (P : Str → Type κ) where
  pub All-distinct : (xs : List Str) → All P xs → All P (distinct xs)
  unfolding distinct
  All-distinct [] h = tt
  All-distinct (x ∷ xs) h = elim (Bool-cases (is_one_of x xs)) [
    | inl again ↦ rw (again, distinct) (All-distinct xs h.1)
    | inr new ↦ rw (new, distinct) (h.0, All-distinct xs h.1)
  ]

  pub All-keep : (p : Str → Bool) (xs : List Str) → All P xs → All P (keep p xs)
  All-keep p [] h = tt
  All-keep p (x ∷ xs) h = elim (Bool-cases (p x)) [
    | inl kept ↦ rw (kept, keep) (h.0, All-keep p xs h.1)
    | inr dropped ↦ rw (dropped, keep) (All-keep p xs h.1)
  ]

  pub All-only : (xs : List Str) (m : Str) → only xs ≡ some m → All P xs → P m
  All-only [] m h k = ground arith
  All-only (x ∷ []) m h k = subst P (same_text x m h) k.0
  All-only (x ∷ y ∷ xs) m h k = ground arith

pub keep-All :
    (Q : Str → Type 0) (p : Str → Bool) (xs : List Str)
    → All Q xs
    → All (λ x. Q x × (p x ≡ true)) (keep p xs)
keep-All Q p [] h = tt
keep-All Q p (x ∷ xs) h = elim (Bool-cases (p x)) [
  | inl kept ↦ rw (kept, keep) ((h.0, kept), keep-All Q p xs h.1)
  | inr dropped ↦ rw (dropped, keep) (keep-All Q p xs h.1)
]

pub All-somes :
    (P Q : Str → Type 0) (f : Str → Option Str) (xs : List Str)
    → ((x y : Str) → f x ≡ some y → P x → Q y)
    → All P xs
    → All Q (somes (map f xs))
unfolding somes
All-somes P Q f [] step h = tt
All-somes P Q f (x ∷ xs) step h = elim (Option-cases (f x)) [
  | inl nothing ↦ rw (nothing, somes) (All-somes P Q f xs step h.1)
  | inr (y, found) ↦ rw (found, somes) (step x y found h.0, All-somes P Q f xs step h.1)
]

keep_holds : (p : Str → Bool) (xs : List Str) → All (λ x. p x ≡ true) (keep p xs)
keep_holds p [] = tt
keep_holds p (x ∷ xs) = elim (Bool-cases (p x)) [
  | inl kept ↦ rw (kept, keep) (kept, keep_holds p xs)
  | inr dropped ↦ rw (dropped, keep) (keep_holds p xs)
]

-- The text is that one.
abbrev pub fits : Str → Option Str → Bool
fits k none = false
fits k (some m) = k == m

is_one_of-somes :
    (k : Str) (f : Str → Option Str) (xs : List Str)
    → is_one_of k (somes (map f xs)) ≡ any (λ x. fits k (f x)) xs
unfolding is_one_of somes
is_one_of-somes k f [] = refl
is_one_of-somes k f (x ∷ xs) = elim (Option-cases (f x)) [
  | inl nothing ↦ ground (arith, is_one_of-somes k f xs)
  | inr (m, found) ↦ ground (arith, is_one_of-somes k f xs)
]

is_one_of-keep :
    (k : Str) (p : Str → Bool) (xs : List Str)
    → p k ≡ true
    → is_one_of k (keep p xs) ≡ is_one_of k xs
unfolding is_one_of
is_one_of-keep k p [] h = refl
is_one_of-keep k p (x ∷ xs) h = ground (arith, is_one_of-keep k p xs h, (text_eq.same_iff k x).0)

is_one_of-kept :
    (k : Str) (xs : List Str) → is_one_of k xs ≡ true → is_one_of k (distinct xs) ≡ true
unfolding is_one_of distinct
is_one_of-kept k [] h = h
is_one_of-kept k (x ∷ xs) h = elim (Bool-cases (is_one_of x xs)) [
  | inl again ↦ ground (arith, is_one_of-kept k xs, (text_eq.same_iff k x).0)
  | inr new ↦ ground (arith, is_one_of-kept k xs)
]

only_one : (k r : Str) (xs : List Str) → only xs ≡ some r → is_one_of k xs ≡ true → k ≡ r
unfolding is_one_of
only_one k r [] h m = absurd (ground arith)
only_one k r (x ∷ []) h m = ground (arith, (text_eq.same_iff k x).0)
only_one k r (x ∷ y ∷ xs) h m = absurd (ground arith)

All-members {κ} :
    (P : Str → Type κ) (xs : List Str) → ((k : Str) → is_one_of k xs ≡ true → P k) → All P xs
unfolding is_one_of
All-members P [] f = tt
All-members P (x ∷ xs) f = (
  f x (ground (arith, (text_eq.same_iff x x).1 refl)),
  All-members P xs (λ k m. f k (ground (arith, m))),
)

module _ (t : CharTable) (flat : Str) (template known : List Str) where
  -- The text is what is left of the whole text without one of its characters, cut by the template.
  abbrev pub is_candidate : Str → Bool
  is_candidate k = any (λ s. fits k (fill_template t s template)) (deletions flat)

  -- No other known text is such a text; or none in the neighbourhood is, where this one is.
  abbrev pub IsSole : List Str → Str → Type 0
  IsSole context r =
      All (λ k. (k ≡ r) ⊎ (is_candidate k ≡ false)) known
      ⊎ ((is_one_of r context ≡ true)
          × All (λ k. (k ≡ r) ⊎ ((is_candidate k ≡ false) ⊎ (is_one_of k context ≡ false))) known)

  candidate_found :
      (k : Str)
      → is_one_of k known ≡ true
      → is_candidate k ≡ true
      → is_one_of k (matched t flat template known) ≡ true
  candidate_found k in_known candidate =
      let fills = somes (map (λ s. fill_template t s template) (deletions flat)) in
      let found = is_one_of-somes k (λ s. fill_template t s template) (deletions flat) in
      let kept = is_one_of-keep k (λ c. is_one_of c known) fills in_known in
      is_one_of-kept k (keep (λ c. is_one_of c known) fills)
        (ground (arith, found, kept, candidate))

  sole :
      (r : Str)
      → only (matched t flat template known) ≡ some r
      → All (λ k. (k ≡ r) ⊎ (is_candidate k ≡ false)) known
  sole r one =
      All-members (λ k. (k ≡ r) ⊎ (is_candidate k ≡ false)) known
        (λ k m. elim (Bool-cases (is_candidate k)) [
          | inl hit ↦
              inl (only_one k r (matched t flat template known) one (candidate_found k m hit))
          | inr miss ↦ inr miss
        ])

  near :
      (context : List Str) (r : Str)
      → only (keep (λ c. is_one_of c context) (matched t flat template known)) ≡ some r
      → (is_one_of r context ≡ true)
        × All (λ k. (k ≡ r) ⊎ ((is_candidate k ≡ false) ⊎ (is_one_of k context ≡ false))) known
  near context r one =
      let found = matched t flat template known in
      let close = keep (λ c. is_one_of c context) found in
      (
        All-only (λ c. is_one_of c context ≡ true) close r one
            (keep_holds (λ c. is_one_of c context) found),
        All-members (λ k. (k ≡ r) ⊎ ((is_candidate k ≡ false) ⊎ (is_one_of k context ≡ false)))
            known
            (λ k m. elim (Bool-cases (is_candidate k)) [
              | inr miss ↦ inr (inl miss)
              | inl hit ↦ elim (Bool-cases (is_one_of k context)) [
                | inr far ↦ inr (inr far)
                | inl here ↦
                    let kept = is_one_of-keep k (λ c. is_one_of c context) found here in
                    inl (only_one k r close one (ground (arith, kept, candidate_found k m hit)))
              ]
            ]),
      )

  pub decided-IsSole :
      (context : List Str) (r : Str)
      → decided t (matched t flat template known) context ≡ some r
      → IsSole context r
  unfolding decided
  decided-IsSole context r h = elim (Option-cases (only (matched t flat template known))) [
    | inr (x, one) ↦ inl (sole r (ground arith))
    | inl several ↦ inr (near context r (ground arith))
  ]
