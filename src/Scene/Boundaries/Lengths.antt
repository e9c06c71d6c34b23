-- ===== src/Scene/Boundaries/Lengths.antt =====
-- No short span survives among several.
use yeson_meet.Prelude.{
  ℕ, Bool, Bool-cases, List, [], arith, inl, inr, length, ltb, none, not_ltb→le, refl, ◌+◌, ◌-◌,
  ◌/◌, ◌∷◌, ◌≡◌, ◌≤◌, ◌⊎◌,
}
use yeson_meet.Prelude.Text.{Str}
use yeson_meet.Scene.Keys.{Keyed}
use yeson_meet.Scene.Boundaries.{
  Span, absorb_all, absorb_first, absorb_short, absorb_single_from, absorb_singles, boundary_spans,
  centre, centre_from, find_runs, join_all, join_same, pull_first, to_spans,
}
use yeson_meet.Scene.Boundaries.Tiling.{
  TilesSpans, Ascends, RunsAscend, absorb_singles-Tiles, find_runs-Ascends, join_all-Tiles,
  absorb_first-Tiles, absorb_short-Tiles, to_spans-Tiles,
}

-- Every span lasts `m` at least.
abbrev pub Lasts : ℕ → List Span → Type 0
Lasts m [] = Unit
Lasts m (s ∷ ss) = (s.start_ms + m ≤ s.end_ms) × Lasts m ss

-- One span at most, or every span lasts `m`.
abbrev pub LastsOrSingle : ℕ → List Span → Type 0
LastsOrSingle m ss = (length ss ≤ 1) ⊎ Lasts m ss

-- The span that `absorb_short` begins with reaches at least as far as the span it began from.
abbrev Absorbed : ℕ → Span → List Span → Type 0
Absorbed m cur [] = ⊥
Absorbed m cur (x ∷ rest) = (x.start_ms ≡ cur.start_ms) × (cur.end_ms ≤ x.end_ms) × Lasts m rest

Absorbed→Lasts :
    (m : ℕ) (cur : Span) (out : List Span)
    → Absorbed m cur out
    → cur.start_ms + m ≤ cur.end_ms
    → Lasts m out
Absorbed→Lasts m cur [] h le = tt
Absorbed→Lasts m cur (x ∷ rest) (start, reach, long) le = (omega arith, long)

absorb_short-Absorbed :
    (m a b : ℕ) (cur : Span) (ss : List Span)
    → TilesSpans a b (cur ∷ ss)
    → Absorbed m cur (absorb_short m cur ss)
unfolding absorb_short
absorb_short-Absorbed m a b cur [] h = (refl, omega arith, tt)
absorb_short-Absorbed m a b cur (s ∷ ss) h = elim (Bool-cases (ltb s.end_ms (s.start_ms + m))) [
  | inl short ↦
      rw (short, absorb_short)
        (grow (absorb_short m (record cur { end_ms = s.end_ms }) ss)
          (absorb_short-Absorbed m a b (record cur { end_ms = s.end_ms }) ss (ground arith)))
  | inr long ↦
      rw (long, absorb_short)
        (
          refl,
          omega arith,
          Absorbed→Lasts m s (absorb_short m s ss)
              (absorb_short-Absorbed m cur.end_ms b s ss (ground arith)) (not_ltb→le _ _ long),
        )
]
  where
    grow :
        (out : List Span) → Absorbed m (record cur { end_ms = s.end_ms }) out → Absorbed m cur out
    grow [] h' = absurd h'
    grow (x ∷ rest) (e, r, l) = (e, omega arith, l)

absorb_first-LastsOrSingle :
    (m a b : ℕ) (cur : Span) (out : List Span)
    → Absorbed m cur out
    → TilesSpans a b out
    → LastsOrSingle m (absorb_first m out)
unfolding absorb_first
absorb_first-LastsOrSingle m a b cur [] h t = absurd h
absorb_first-LastsOrSingle m a b cur (x ∷ []) h t = inl (omega arith)
absorb_first-LastsOrSingle m a b cur (x ∷ y ∷ out) h t = inr (ground arith)

-- A pass that only joins spans keeps the bound.
join_same-Lasts :
    (m a b : ℕ) (cur : Span) (ss : List Span)
    → TilesSpans a b (cur ∷ ss)
    → Lasts m (cur ∷ ss)
    → Lasts m (join_same cur ss)
unfolding join_same
join_same-Lasts m a b cur [] t h = h
join_same-Lasts m a b cur (s ∷ ss) t h = ground (
  arith,
  join_same-Lasts m a b (record cur { end_ms = s.end_ms }) ss,
  join_same-Lasts m cur.end_ms b s ss,
)

absorb_single-Lasts :
    (m n a b : ℕ) (cur : Span) (ss : List Span)
    → TilesSpans a b (cur ∷ ss)
    → Lasts m (cur ∷ ss)
    → Lasts m (absorb_single_from n cur ss)
unfolding absorb_single_from
absorb_single-Lasts m n a b cur [] t h = h
absorb_single-Lasts m n a b cur (s ∷ []) t h = h
absorb_single-Lasts m n a b cur (s ∷ r ∷ ss) t h = ground (
  arith,
  absorb_single-Lasts m n a b (record cur { end_ms = s.end_ms }) (r ∷ ss),
  absorb_single-Lasts m n cur.end_ms b s (r ∷ ss),
)

-- Centring costs a span half an interval at most.
centre_from-Lasts :
    (m n a b : ℕ) (cur : Span) (ss : List Span)
    → TilesSpans a b (cur ∷ ss)
    → Lasts m (cur ∷ ss)
    → Lasts (m - n) (centre_from n cur ss)
unfolding centre_from
centre_from-Lasts m n a b cur [] t h = (omega arith, tt)
centre_from-Lasts m n a b cur (s ∷ ss) t h = ground (
  arith,
  centre_from-Lasts m n (s.start_ms - n) b (record s { start_ms = s.start_ms - n }) ss,
  centre_from-Lasts m n cur.end_ms b s ss,
)

length-join_all : (ss : List Span) → length ss ≤ 1 → length (join_all ss) ≤ 1
unfolding join_all
length-join_all [] h = h
length-join_all (s ∷ []) h = h
length-join_all (s ∷ r ∷ ss) h = absurd (omega arith)

length-absorb_singles :
    (absorb : Bool) (n : ℕ) (ss : List Span)
    → length ss ≤ 1
    → length (absorb_singles absorb n ss) ≤ 1
unfolding absorb_singles
length-absorb_singles absorb n [] h = h
length-absorb_singles absorb n (s ∷ []) h = ground arith
length-absorb_singles absorb n (s ∷ r ∷ ss) h = absurd (omega arith)

length-centre : (n : ℕ) (ss : List Span) → length ss ≤ 1 → length (centre n ss) ≤ 1
unfolding centre
length-centre n [] h = h
length-centre n (s ∷ []) h = ground arith
length-centre n (s ∷ r ∷ ss) h = absurd (omega arith)

length-pull_first :
    (n : ℕ) (fs : List Keyed) (ss : List Span) → length ss ≤ 1 → length (pull_first n fs ss) ≤ 1
unfolding pull_first
length-pull_first n [] ss h = h
length-pull_first n (f ∷ fs) [] h = h
length-pull_first n (f ∷ fs) (s ∷ ss) h = ground arith

join_all-Lasts :
    (m a b : ℕ) (ss : List Span) → TilesSpans a b ss → Lasts m ss → Lasts m (join_all ss)
unfolding join_all
join_all-Lasts m a b [] t h = h
join_all-Lasts m a b (s ∷ ss) t h = join_same-Lasts m a b s ss t h

absorb_singles-Lasts :
    (absorb : Bool) (m n a b : ℕ) (ss : List Span)
    → TilesSpans a b ss
    → Lasts m ss
    → Lasts m (absorb_singles absorb n ss)
unfolding absorb_singles
absorb_singles-Lasts absorb m n a b [] t h = h
absorb_singles-Lasts absorb m n a b (s ∷ ss) t h =
    ground (arith, absorb_single-Lasts m n a b s ss t h)

Lasts-mono : (m k : ℕ) (ss : List Span) → k ≤ m → Lasts m ss → Lasts k ss
Lasts-mono m k [] le h = tt
Lasts-mono m k (s ∷ ss) le h = (omega arith, Lasts-mono m k ss le h.1)

centre-Lasts :
    (m n a b : ℕ) (ss : List Span)
    → TilesSpans a b ss
    → Lasts m ss
    → Lasts (m - n / 2) (centre n ss)
unfolding centre
centre-Lasts m n a b [] t h = h
centre-Lasts m n a b (s ∷ ss) t h = ground (
  arith,
  centre_from-Lasts m (n / 2) a b s ss t h,
  Lasts-mono m (m - n / 2) (s ∷ ss) (omega arith) h,
)

pull_first-Lasts :
    (m n : ℕ) (fs : List Keyed) (ss : List Span) → Lasts m ss → Lasts m (pull_first n fs ss)
unfolding pull_first
pull_first-Lasts m n [] ss h = h
pull_first-Lasts m n (f ∷ fs) [] h = h
pull_first-Lasts m n (f ∷ fs) (s ∷ ss) h = ground arith

module _ (keyed : List Keyed) (total min_ms interval : ℕ) (absorb : Bool) where
  -- The passes behind the two absorptions.
  abbrev late_passes : List Span → List Span
  late_passes ss =
      pull_first interval keyed (centre interval (join_all (absorb_singles absorb interval ss)))

  late_passes-LastsOrSingle :
      (a b : ℕ) (ss : List Span)
      → TilesSpans a b ss
      → LastsOrSingle min_ms ss
      → LastsOrSingle (min_ms - interval / 2) (late_passes ss)
  late_passes-LastsOrSingle a b ss t (inl h) = inl (
      length-pull_first interval keyed _
        (length-centre interval _ (length-join_all _ (length-absorb_singles absorb interval ss h))))
  late_passes-LastsOrSingle a b ss t (inr h) =
      let t' = absorb_singles-Tiles absorb interval a b ss t in
      inr (
        pull_first-Lasts _ interval keyed _ (
          centre-Lasts min_ms interval a b _ (join_all-Tiles a b _ t') (
            join_all-Lasts min_ms a b _ t'
              (absorb_singles-Lasts absorb min_ms interval a b ss t h))))

  spans-LastsOrSingle :
      (a b : ℕ) (ss : List Span)
      → TilesSpans a b ss
      → LastsOrSingle
          (min_ms - interval / 2)
          (late_passes (absorb_first min_ms (absorb_all min_ms ss)))
  spans-LastsOrSingle a b [] t =
      unfold absorb_first absorb_singles join_all centre in
      inl (length-pull_first interval keyed [] (omega arith))
  spans-LastsOrSingle a b (s ∷ ss) t =
      let t' = absorb_short-Tiles min_ms a b s ss t in
      late_passes-LastsOrSingle a b _ (absorb_first-Tiles min_ms a b _ t')
        (absorb_first-LastsOrSingle min_ms a b s _ (absorb_short-Absorbed min_ms a b s ss t) t')

  runs-LastsOrSingle :
      (rs : List (Str × Str × ℕ))
      → RunsAscend 0 total rs
      → LastsOrSingle
          (min_ms - interval / 2)
          (late_passes (absorb_first min_ms (absorb_all min_ms (to_spans total rs))))
  runs-LastsOrSingle [] h = unfold to_spans in spans-LastsOrSingle 0 0 [] refl
  runs-LastsOrSingle ((k, l, s) ∷ rs) h =
      spans-LastsOrSingle s total (to_spans total ((k, l, s) ∷ rs))
        (to_spans-Tiles 0 total k l s rs h)

  -- With ascending sample times below `total`, a result of several segments has none that lasts less
  -- than `min_ms - interval / 2`.
  pub boundary_spans-LastsOrSingle :
      Ascends 0 total keyed
      → LastsOrSingle (min_ms - interval / 2) (boundary_spans keyed total min_ms interval absorb)
  unfolding boundary_spans
  boundary_spans-LastsOrSingle h =
      runs-LastsOrSingle (find_runs none keyed) (find_runs-Ascends none 0 total keyed h)
