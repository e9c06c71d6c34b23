-- ===== src/Scene/Boundaries/Tiling.antt =====
-- The segments cover the time line without a gap or an overlap.
use yeson_meet.Prelude.{
  ℕ, List, Option, [], arith, map, ◌+◌, ◌-◌, ◌<◌, ◌∷◌, ◌≡◌, ◌≤◌, Bool, if◌then◌else◌, ltb, max,
  none, some, ◌&&◌, ◌/◌, Option-cases, inl, inr, refl,
}
use yeson_meet.Prelude.Text.{Str}
use yeson_meet.Scene.Keys.{Keyed}
use yeson_meet.Scene.Boundaries.{
  Segment, Span, find_runs, absorb_short, absorb_first, absorb_single_from, join_same, centre_from,
  to_segment, absorb_all, absorb_singles, centre, compute_boundaries, join_all, pull_first,
  same_key, to_spans,
}

-- From `a` to `b`, each segment begins where the one before ends, and none is empty.
abbrev pub Tiles : ℕ → ℕ → List Segment → Type 0
Tiles a b [] = a ≡ b
Tiles a b (s ∷ ss) = (s.start_ms ≡ a) × (a < s.end_ms) × Tiles s.end_ms b ss

abbrev pub TilesSpans : ℕ → ℕ → List Span → Type 0
TilesSpans a b ss = Tiles a b (map to_segment ss)

-- The sample times ascend from `lo` on and stay below `total`.
abbrev pub Ascends : ℕ → ℕ → List Keyed → Type 0
Ascends lo total [] = Unit
Ascends lo total (f ∷ fs) = (lo ≤ f.t_ms) × (f.t_ms < total) × Ascends (f.t_ms + 1) total fs

abbrev pub RunsAscend : ℕ → ℕ → List (Str × Str × ℕ) → Type 0
RunsAscend lo total [] = Unit
RunsAscend lo total ((k, l, s) ∷ rs) = (lo ≤ s) × (s < total) × RunsAscend (s + 1) total rs

RunsAscend-mono :
    (lo hi total : ℕ) (rs : List (Str × Str × ℕ))
    → lo ≤ hi
    → RunsAscend hi total rs
    → RunsAscend lo total rs
RunsAscend-mono lo hi total [] h a = tt
RunsAscend-mono lo hi total ((k, l, s) ∷ rs) h a = (omega arith, a.1, a.2)

next_Ascends :
    (last : Option Str) (lo total : ℕ) (f : Keyed) (fs : List Keyed)
    → Ascends lo total (f ∷ fs)
    → ((k : Option Str) → RunsAscend (f.t_ms + 1) total (find_runs k fs))
    → RunsAscend lo total (find_runs last (f ∷ fs))
unfolding find_runs
next_Ascends last lo total f fs h ih = elim (Option-cases f.key) [
  | inl e ↦
      rw (e, find_runs)
        (RunsAscend-mono lo (f.t_ms + 1) total (find_runs last fs) (omega arith) (ih last))
  | inr (k, e) ↦
      ground
        (arith, RunsAscend-mono lo (f.t_ms + 1) total (find_runs last fs), ih last, ih (some k))
]

pub find_runs-Ascends :
    (last : Option Str) (lo total : ℕ) (fs : List Keyed)
    → Ascends lo total fs
    → RunsAscend lo total (find_runs last fs)
unfolding find_runs
find_runs-Ascends last lo total [] h = tt
find_runs-Ascends last lo total (f ∷ fs) h =
    next_Ascends last lo total f fs h (λ k. find_runs-Ascends k (f.t_ms + 1) total fs h.2)

pub to_spans-Tiles :
    (lo total : ℕ) (k l : Str) (s : ℕ) (rs : List (Str × Str × ℕ))
    → RunsAscend lo total ((k, l, s) ∷ rs)
    → TilesSpans s total (to_spans total ((k, l, s) ∷ rs))
unfolding to_spans
to_spans-Tiles lo total k l s [] h = ground arith
to_spans-Tiles lo total k l s ((k', l', s') ∷ rs) h =
    ground (arith, to_spans-Tiles (s + 1) total k' l' s' rs)

pub absorb_short-Tiles :
    (m a b : ℕ) (cur : Span) (ss : List Span)
    → TilesSpans a b (cur ∷ ss)
    → TilesSpans a b (absorb_short m cur ss)
unfolding absorb_short
absorb_short-Tiles m a b cur [] h = h
absorb_short-Tiles m a b cur (s ∷ ss) h = ground (
  arith,
  absorb_short-Tiles m a b (record cur { end_ms = s.end_ms }) ss,
  absorb_short-Tiles m cur.end_ms b s ss,
)

pub absorb_first-Tiles :
    (m a b : ℕ) (ss : List Span) → TilesSpans a b ss → TilesSpans a b (absorb_first m ss)
unfolding absorb_first
absorb_first-Tiles m a b [] h = h
absorb_first-Tiles m a b (s ∷ []) h = h
absorb_first-Tiles m a b (s ∷ r ∷ ss) h = ground arith

pub absorb_single-Tiles :
    (m a b : ℕ) (cur : Span) (ss : List Span)
    → TilesSpans a b (cur ∷ ss)
    → TilesSpans a b (absorb_single_from m cur ss)
unfolding absorb_single_from
absorb_single-Tiles m a b cur [] h = h
absorb_single-Tiles m a b cur (s ∷ []) h = h
absorb_single-Tiles m a b cur (s ∷ r ∷ ss) h = ground (
  arith,
  absorb_single-Tiles m a b (record cur { end_ms = s.end_ms }) (r ∷ ss),
  absorb_single-Tiles m cur.end_ms b s (r ∷ ss),
)

join_same-Tiles :
    (a b : ℕ) (cur : Span) (ss : List Span)
    → TilesSpans a b (cur ∷ ss)
    → TilesSpans a b (join_same cur ss)
unfolding join_same
join_same-Tiles a b cur [] h = h
join_same-Tiles a b cur (s ∷ ss) h = ground (
  arith,
  join_same-Tiles a b (record cur { end_ms = s.end_ms }) ss,
  join_same-Tiles cur.end_ms b s ss,
)

centre_from-Tiles :
    (m a b : ℕ) (cur : Span) (ss : List Span)
    → TilesSpans a b (cur ∷ ss)
    → TilesSpans a b (centre_from m cur ss)
unfolding centre_from
centre_from-Tiles m a b cur [] h = h
centre_from-Tiles m a b cur (s ∷ ss) h = ground (
  arith,
  centre_from-Tiles m (s.start_ms - m) b (record s { start_ms = s.start_ms - m }) ss,
  centre_from-Tiles m cur.end_ms b s ss,
)

pub absorb_all-Tiles :
    (m a b : ℕ) (ss : List Span) → TilesSpans a b ss → TilesSpans a b (absorb_all m ss)
absorb_all-Tiles m a b [] h = h
absorb_all-Tiles m a b (s ∷ ss) h = absorb_short-Tiles m a b s ss h

pub absorb_singles-Tiles :
    (absorb : Bool) (m a b : ℕ) (ss : List Span)
    → TilesSpans a b ss
    → TilesSpans a b (absorb_singles absorb m ss)
unfolding absorb_singles
absorb_singles-Tiles absorb m a b [] h = h
absorb_singles-Tiles absorb m a b (s ∷ ss) h = ground (arith, absorb_single-Tiles m a b s ss h)

pub join_all-Tiles : (a b : ℕ) (ss : List Span) → TilesSpans a b ss → TilesSpans a b (join_all ss)
unfolding join_all
join_all-Tiles a b [] h = h
join_all-Tiles a b (s ∷ ss) h = join_same-Tiles a b s ss h

centre-Tiles : (m a b : ℕ) (ss : List Span) → TilesSpans a b ss → TilesSpans a b (centre m ss)
unfolding centre
centre-Tiles m a b [] h = h
centre-Tiles m a b (s ∷ ss) h = ground (arith, centre_from-Tiles (m / 2) a b s ss h)

-- Where the cover begins after the last pass.
abbrev pull : ℕ → ℕ → ℕ → ℕ
pull m t a = if ltb 0 m && ltb t a then max t (a - m / 2) else a

pull_first-Tiles :
    (m a b : ℕ) (f : Keyed) (fs : List Keyed) (ss : List Span)
    → a < b
    → TilesSpans a b ss
    → TilesSpans (pull m f.t_ms a) b (pull_first m (f ∷ fs) ss)
unfolding pull_first
pull_first-Tiles m a b f fs [] lt h = absurd (omega arith)
pull_first-Tiles m a b f fs (s ∷ ss) lt h = ground arith

-- The time of the first readable frame.
abbrev pub first_readable : List Keyed → Option ℕ
first_readable [] = none
first_readable (f ∷ fs) = elim f.key [ none ↦ first_readable fs | some k ↦ some f.t_ms ]

-- The cover that a result is to be: nothing where no frame is readable, otherwise a tiling that ends
-- at `total` and begins at the first readable frame, or at most half an interval before it.
abbrev pub Covers : ℕ → ℕ → Option ℕ → List Segment → Type 0
Covers total interval none ss = ss ≡ []
Covers total interval (some t) ss =
    (a : ℕ) × (a ≤ t) × (t ≤ a + interval / 2) × (a < total) × Tiles a total ss

-- Whether some frame is readable decides whether there are runs, and the first run begins there.
abbrev StartsAt : Option ℕ → List (Str × Str × ℕ) → Type 0
StartsAt none rs = rs ≡ []
StartsAt (some t) [] = ⊥
StartsAt (some t) ((k, l, s) ∷ rs) = s ≡ t

find_runs-first : (fs : List Keyed) → StartsAt (first_readable fs) (find_runs none fs)
unfolding find_runs same_key
find_runs-first [] = refl
find_runs-first (f ∷ fs) = elim (Option-cases f.key) [
  | inl e ↦ rw (e, find_runs) (find_runs-first fs)
  | inr (k, e) ↦ rw (e, find_runs) refl
]

first_readable-ge :
    (lo total t : ℕ) (fs : List Keyed) → Ascends lo total fs → first_readable fs ≡ some t → lo ≤ t
first_readable-ge lo total t [] a h = cc
first_readable-ge lo total t (f ∷ fs) a h =
    ground (arith, first_readable-ge (f.t_ms + 1) total t fs a.2)

module _ (total min_ms interval : ℕ) (absorb : Bool) where
  -- The passes between the runs and the last pull.
  abbrev pub passes : List (Str × Str × ℕ) → List Span
  passes rs = centre interval (
      join_all (
        absorb_singles absorb interval
          (absorb_first min_ms (absorb_all min_ms (to_spans total rs)))))

  passes-Tiles :
      (k l : Str) (s : ℕ) (rs : List (Str × Str × ℕ))
      → RunsAscend 0 total ((k, l, s) ∷ rs)
      → TilesSpans s total (passes ((k, l, s) ∷ rs))
  passes-Tiles k l s rs h = centre-Tiles interval s total _ (
      join_all-Tiles s total _ (
        absorb_singles-Tiles absorb interval s total _ (
          absorb_first-Tiles min_ms s total _
            (absorb_all-Tiles min_ms s total _ (to_spans-Tiles 0 total k l s rs h)))))

  passes-nil : passes [] ≡ []
  unfolding to_spans absorb_first absorb_singles join_all centre
  passes-nil = refl

  finish :
      (f : Keyed) (fs : List Keyed) (first : Option ℕ) (rs : List (Str × Str × ℕ))
      → StartsAt first rs
      → RunsAscend 0 total rs
      → ((t : ℕ) → first ≡ some t → f.t_ms ≤ t)
      → Covers total interval first (map to_segment (pull_first interval (f ∷ fs) (passes rs)))
  finish f fs none rs none_read asc late = rw (none_read, passes-nil) (unfold pull_first in refl)
  finish f fs (some t) [] h asc late = absurd h
  finish f fs (some t) ((k, l, s) ∷ rs) at asc late = (
    pull interval f.t_ms s,
    ground (arith, late t refl),
    ground (arith, late t refl),
    ground (arith, late t refl),
    pull_first-Tiles interval s total f fs (passes ((k, l, s) ∷ rs)) asc.1
        (passes-Tiles k l s rs asc),
  )

  -- With ascending sample times below `total`, the segments cover the time from the first readable
  -- frame (or up to half an interval before it) to `total`: each begins where the one before ends,
  -- and none is empty. Where no frame is readable there are no segments.
  pub compute_boundaries-Covers :
      (keyed : List Keyed)
      → Ascends 0 total keyed
      → Covers total interval
          (first_readable keyed)
          (compute_boundaries keyed total min_ms interval absorb)
  unfolding compute_boundaries
  compute_boundaries-Covers [] h = unfold find_runs pull_first in rw passes-nil refl
  compute_boundaries-Covers (f ∷ fs) h =
      finish f fs (first_readable (f ∷ fs)) (find_runs none (f ∷ fs)) (find_runs-first (f ∷ fs))
        (find_runs-Ascends none 0 total (f ∷ fs) h)
        (λ t e. first_readable-ge f.t_ms total t (f ∷ fs) (omega arith, h.1, h.2) e)
