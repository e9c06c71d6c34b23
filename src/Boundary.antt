-- ===== src/Boundary.antt =====
-- apps/server/domain/video_captions/boundary_check.py: whether the first and the last frame of a
-- segment show the slate of its neighbour. What the recogniser reads on a frame is a parameter.
pub mod Verdict
pub mod Run
use yeson_meet.Prelude.{
  ℕ, Bool, false, not, ◌&&◌, ◌||◌, List, [], ◌∷◌, Option, none, some, text_eq, ◌==◌, ◌+◌, leb,
  if◌then◌else◌, length, drop,
}
use yeson_meet.Prelude.Text.{Str, CharTable, to_lower, starts_with}

-- `[0-9a-z]`
unfoldable pub is_plain : ℕ → Bool
is_plain c = (leb 48 c && leb c 57) || (leb 97 c && leb c 122)

-- re.sub(r"[^0-9a-z]", "", s)
unfoldable pub keep_plain : Str → Str
unfolding is_plain
keep_plain [] = []
keep_plain (c ∷ s) = if is_plain c then c ∷ keep_plain s else keep_plain s

-- s in text
unfoldable pub occurs_in : Str → Str → Bool
occurs_in s [] = starts_with [] s
occurs_in s (c ∷ text) = starts_with (c ∷ text) s || occurs_in s text

-- text.replace(s, "", 1)
unfoldable pub remove_first : Str → Str → Str
remove_first s [] = []
remove_first s (c ∷ text) =
    if starts_with (c ∷ text) s then drop (length s) (c ∷ text) else c ∷ remove_first s text

-- `if own: text = text.replace(own, "", 1)`
unfoldable pub without_own : Str → Str → Str
unfolding remove_first
without_own [] text = text
without_own (c ∷ own) text = remove_first (c ∷ own) text

-- The label of a segment that `scenes.json` holds.
pub record SceneSegment : Type 0 where
  pub label : Str
  pub start_ms : ℕ
  pub end_ms : ℕ

pub record Issue : Type 0 where
  pub index : ℕ
  pub label : Str
  pub head : Bool
  pub tail : Bool

module _ (t : CharTable) where
  -- `_sq`
  unfoldable pub sq : Str → Str
  unfolding keep_plain
  sq s = keep_plain (to_lower t s)

  -- `bool(p_sq) and prev != label and p_sq in text`, with `p_sq = _sq(prev) if prev else ""`
  unfoldable pub shows : Str → Option Str → Str → Bool
  unfolding sq occurs_in
  shows label none text = false
  shows label (some neighbour) text =
      not (sq neighbour == []) && (not (neighbour == label) && occurs_in (sq neighbour) text)

  unfoldable pub classify_boundary : Str → Str → Str → Option Str → Option Str → Bool × Bool
  unfolding shows without_own
  classify_boundary head_text tail_text label prev next =
      let own = sq label in
      (
        shows label prev (without_own own (sq head_text)),
        shows label next (without_own own (sq tail_text)),
      )

  module _ (head_text tail_text : SceneSegment → Str) where
    -- `_check_one`, with the label of the segment before and the segments after
    unfoldable pub check_one : ℕ → Option Str → SceneSegment → Option Str → Option Issue
    unfolding classify_boundary
    check_one i prev seg next =
        let verdict = classify_boundary (head_text seg) (tail_text seg) seg.label prev next in
        if verdict.0 || verdict.1
        then some (record { index = i; label = seg.label; head = verdict.0; tail = verdict.1 })
        else none

    unfoldable pub next_label : List SceneSegment → Option Str
    next_label [] = none
    next_label (seg ∷ segs) = some seg.label

    -- `_work` from segment i on: the results that are not None, in the order of the segments
    unfoldable pub issues_from : ℕ → Option Str → List SceneSegment → List Issue
    unfolding check_one next_label
    issues_from i prev [] = []
    issues_from i prev (seg ∷ segs) =
        let rest = issues_from (i + 1) (some seg.label) segs in
        elim (check_one i prev seg (next_label segs)) [ none ↦ rest | some issue ↦ issue ∷ rest ]

    unfoldable pub boundary_issues : List SceneSegment → List Issue
    unfolding issues_from
    boundary_issues segs = issues_from 0 none segs
