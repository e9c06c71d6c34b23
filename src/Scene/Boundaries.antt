-- ===== src/Scene/Boundaries.antt =====
-- scene_split.py: `compute_boundaries`, pass by pass. A difference of times is compared by moving the
-- subtrahend to the other side, so that nothing is cut off at 0.
pub mod Tiling
pub mod Spacing
pub mod Lengths
use yeson_meet.Prelude.{
  ℕ, Bool, List, Option, [], false, if◌then◌else◌, leb, length, ltb, map, max, none, some, true,
  ◌&&◌, ◌+◌, ◌-◌, ◌/◌, ◌==◌, ◌∷◌, text_eq,
}
use yeson_meet.Prelude.Text.{Str}
use yeson_meet.Scene.Keys.{Keyed}

pub record Segment : Type 0 where
  pub label : Str
  pub start_ms : ℕ
  pub end_ms : ℕ

-- A span while the passes run: the code's list `[key, label, start, end]`.
pub record Span : Type 0 where
  pub key : Str
  pub label : Str
  pub start_ms : ℕ
  pub end_ms : ℕ

abbrev pub label_or_empty : Option Str → Str
label_or_empty none = []
label_or_empty (some l) = l

-- Is the key that of the last run?
unfoldable pub same_key : Option Str → Str → Bool
same_key none k = false
same_key (some j) k = j == k

-- The runs of equal keys (their ends not yet known); the first argument is the key of the last run.
unfoldable pub find_runs : Option Str → List Keyed → List (Str × Str × ℕ)
find_runs last [] = []
find_runs last (f ∷ fs) = elim f.key [
  | none ↦ find_runs last fs
  | some k ↦ elim (same_key last k) [
    | true ↦ find_runs last fs
    | false ↦ (k, label_or_empty f.label, f.t_ms) ∷ find_runs (some k) fs
  ]
]

unfoldable pub to_spans : ℕ → List (Str × Str × ℕ) → List Span
to_spans total [] = []
to_spans total ((k, l, s) ∷ []) = record { key = k; label = l; start_ms = s; end_ms = total } ∷ []
to_spans total ((k, l, s) ∷ (k', l', s') ∷ rs) =
    record { key = k; label = l; start_ms = s; end_ms = s' } ∷ to_spans total ((k', l', s') ∷ rs)

-- Spans under `min_ms` go to the span before; the first argument is the last span kept.
unfoldable pub absorb_short : ℕ → Span → List Span → List Span
absorb_short min_ms cur [] = cur ∷ []
absorb_short min_ms cur (s ∷ ss) = elim (ltb s.end_ms (s.start_ms + min_ms)) [
  | true ↦ absorb_short min_ms (record cur { end_ms = s.end_ms }) ss
  | false ↦ cur ∷ absorb_short min_ms s ss
]

-- A short first span goes to the second.
unfoldable pub absorb_first : ℕ → List Span → List Span
absorb_first min_ms [] = []
absorb_first min_ms (a ∷ []) = a ∷ []
absorb_first min_ms (a ∷ b ∷ ss) =
    if ltb a.end_ms (a.start_ms + min_ms)
    then record b { start_ms = a.start_ms } ∷ ss
    else a ∷ b ∷ ss

-- Inner spans of one sample go to the span before; the last span stays.
unfoldable pub absorb_single_from : ℕ → Span → List Span → List Span
absorb_single_from interval cur [] = cur ∷ []
absorb_single_from interval cur (s ∷ []) = cur ∷ s ∷ []
absorb_single_from interval cur (s ∷ r ∷ ss) = elim (leb s.end_ms (s.start_ms + interval)) [
  | true ↦ absorb_single_from interval (record cur { end_ms = s.end_ms }) (r ∷ ss)
  | false ↦ cur ∷ absorb_single_from interval s (r ∷ ss)
]

unfoldable pub absorb_singles : Bool → ℕ → List Span → List Span
unfolding absorb_single_from
absorb_singles absorb interval [] = []
absorb_singles absorb interval (a ∷ ss) =
    if absorb && (ltb 0 interval && leb 3 (length (a ∷ ss)))
    then absorb_single_from interval a ss
    else a ∷ ss

-- Neighbours with one key are one span.
unfoldable pub join_same : Span → List Span → List Span
join_same cur [] = cur ∷ []
join_same cur (s ∷ ss) = elim (s.key == cur.key) [
  | true ↦ join_same (record cur { end_ms = s.end_ms }) ss
  | false ↦ cur ∷ join_same s ss
]

unfoldable pub join_all : List Span → List Span
unfolding join_same
join_all [] = []
join_all (a ∷ ss) = join_same a ss

-- Each inner boundary moves half an interval to the left, unless its span would turn round.
unfoldable pub centre_from : ℕ → Span → List Span → List Span
centre_from half cur [] = cur ∷ []
centre_from half cur (s ∷ ss) = elim (ltb (cur.start_ms + half) s.start_ms) [
  | true ↦
      record cur { end_ms = s.start_ms - half }
      ∷ centre_from half (record s { start_ms = s.start_ms - half }) ss
  | false ↦ cur ∷ centre_from half s ss
]

unfoldable pub centre : ℕ → List Span → List Span
unfolding centre_from
centre interval [] = []
centre interval (a ∷ ss) =
    if ltb 0 interval && ltb 1 (length (a ∷ ss)) then centre_from (interval / 2) a ss else a ∷ ss

-- The first span starts half an interval earlier, but not before the first sample.
unfoldable pub pull_first : ℕ → List Keyed → List Span → List Span
pull_first interval [] ss = ss
pull_first interval (f ∷ fs) [] = []
pull_first interval (f ∷ fs) (a ∷ ss) =
    if ltb 0 interval && ltb f.t_ms a.start_ms
    then record a { start_ms = max f.t_ms (a.start_ms - interval / 2) } ∷ ss
    else a ∷ ss

abbrev pub to_segment : Span → Segment
to_segment s = record { label = s.label; start_ms = s.start_ms; end_ms = s.end_ms }

abbrev pub absorb_all : ℕ → List Span → List Span
absorb_all min_ms [] = []
absorb_all min_ms (a ∷ ss) = absorb_short min_ms a ss

-- The spans behind the result of `compute_boundaries`.
unfoldable pub boundary_spans : List Keyed → ℕ → ℕ → ℕ → Bool → List Span
boundary_spans keyed total min_ms interval absorb =
    let spans = to_spans total (find_runs none keyed) in
    let merged = absorb_first min_ms (absorb_all min_ms spans) in
    let joined = join_all (absorb_singles absorb interval merged) in
    pull_first interval keyed (centre interval joined)

unfoldable pub compute_boundaries : List Keyed → ℕ → ℕ → ℕ → Bool → List Segment
unfolding boundary_spans
compute_boundaries keyed total min_ms interval absorb =
    map to_segment (boundary_spans keyed total min_ms interval absorb)
