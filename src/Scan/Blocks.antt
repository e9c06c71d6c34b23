-- ===== src/Scan/Blocks.antt =====
-- apps/server/domain/video_captions/scene_scan_fp.py, `_resolve_unreadable_blocks`: the frames of a
-- block of unreadable runs between two slates go to the slate in front of it and the one behind it.
pub mod Flips
pub mod Plan
pub mod Tiling
use yeson_meet.Prelude.{
  ℕ, ℕ_eq, Bool, List, Option, [], false, get_elem?, if◌then◌else◌, ltb, max, min, none, some, suc,
  true, zero, ◌++◌, ◌+◌, ◌-◌, ◌==◌, ◌∷◌, text_eq,
}
use yeson_meet.Prelude.Dict.{Dict, get, put}
use yeson_meet.Prelude.Text.{Str, CharTable, strip}
use yeson_meet.Scan.{Run, Side, is_prev, is_next, folded, text_side}

-- A block that was open at this index is the pair of its first and its last run.
abbrev pub closed : Option ℕ → ℕ → List (ℕ × ℕ)
closed none i = []
closed (some s) i = (s, i - 1) ∷ []

abbrev pub opened : Option ℕ → ℕ → ℕ
opened none i = i
opened (some s) i = s

-- The first of so many frames that passes, or the frame after them.
unfoldable pub first_where : (ℕ → Bool) → ℕ → ℕ → ℕ
first_where p zero frame = frame
first_where p (suc n) frame = elim (p frame) [ true ↦ frame | false ↦ first_where p n (frame + 1) ]

-- The bounds of the flip, narrowed by what is read on some frames. The code sorts the frames, which
-- makes no difference to the bounds.
unfoldable pub narrowed : (ℕ → Option Side) → List ℕ → ℕ → ℕ → ℕ × ℕ
narrowed side [] lo hi = (lo, hi)
narrowed side (f ∷ fs) lo hi =
    narrowed side fs (if is_prev (side f) then max lo (f + 1) else lo)
      (if is_next (side f) then min hi f else hi)

-- `min(max(flip, lo), hi)`, if the readings do not contradict each other
abbrev pub capped : ℕ → ℕ × ℕ → Option ℕ
capped flip (lo, hi) = if ltb hi lo then none else some (min (max flip lo) hi)

-- The last run of the output so far, if there is one, as far as a flip extends it.
abbrev pub extended : ℕ → ℕ → Option Run → Option Run
extended flip s none = none
extended flip s (some last) = if ltb s flip then some (record last { end = flip }) else some last

abbrev pub placed : Option ℕ → Run → Run
placed none r = r
placed (some flip) r = record r { start = flip }

abbrev pub emitted : Option Run → List Run
emitted none = []
emitted (some r) = r ∷ []

-- From the first run of a block to the last run of it and the frame of the flip.
abbrev pub Plan : Type 0
Plan = Dict ℕ (ℕ × ℕ)

-- The loop that builds the output: the index, the runs of a block that are still to skip, the start
-- that waits for the next run, the last run of the output, which a flip can still extend, and the runs
-- from here on.
unfoldable pub rebuild : Plan → ℕ → ℕ → Option ℕ → Option Run → List Run → List Run
rebuild plan i skip over last [] = emitted last
rebuild plan i (suc skip) over last (r ∷ rs) = rebuild plan (i + 1) skip over last rs
rebuild plan i zero over last (r ∷ rs) = elim (get i plan) [
  | some (bj, flip) ↦ rebuild plan (i + 1) (bj - i) (some flip) (extended flip r.start last) rs
  | none ↦ emitted last ++ rebuild plan (i + 1) zero none (some (placed over r)) rs
]

module _ {ℓ} {F : Type ℓ} (t : CharTable) (delimiters : List Str) (read_frame : ℕ → Str)
    (fp_at : ℕ → F) (differ : F → F → ℕ) where
  abbrev pub is_unreadable : Run → Bool
  is_unreadable r = elim (strip t r.text) [ [] ↦ true | c ∷ s ↦ false ]

  -- The blocks of unreadable runs, as the pairs of their first and last index.
  unfoldable pub blocks_from : ℕ → Option ℕ → List Run → List (ℕ × ℕ)
  blocks_from i block [] = closed block i
  blocks_from i block (r ∷ rs) = elim (is_unreadable r) [
    | true ↦ blocks_from (i + 1) (some (opened block i)) rs
    | false ↦ closed block i ++ blocks_from (i + 1) none rs
  ]

  -- A frame is nearer to the slate behind the block.
  abbrev pub nearer_next : Run → Run → ℕ → Bool
  nearer_next p q f = ltb (differ (fp_at f) (fp_at q.stable)) (differ (fp_at f) (fp_at p.stable))

  abbrev pub first_flip_in : Run → Run → ℕ → ℕ → ℕ
  first_flip_in p q s e = first_where (nearer_next p q) (e - s) s

  abbrev pub probed : ℕ → ℕ → ℕ → List ℕ
  probed s e flip = s ∷ (e - 1) ∷ max s (flip - 1) ∷ min (e - 1) flip ∷ []

  abbrev pub side_in : Run → Run → ℕ → Option Side
  side_in p q f = text_side t delimiters (read_frame f) p.text q.text

  -- The flip in the frames from `s` to `e` between two runs.
  unfoldable pub flip_between : Run → Run → ℕ → ℕ → Option ℕ
  unfolding first_where narrowed
  flip_between p q s e =
      if folded t delimiters p.text == folded t delimiters q.text
      then none
      else capped (first_flip_in p q s e)
          (narrowed (side_in p q) (probed s e (first_flip_in p q s e)) s e)

  -- The flip of the block from `bi` to `bj`: none without a run in front of it or behind it.
  unfoldable pub flip_of : List Run → ℕ → ℕ → Option ℕ
  unfolding flip_between
  flip_of runs zero bj = none
  flip_of runs (suc a) bj = elim (get_elem? runs a) [
    | none ↦ none
    | some p ↦ elim (get_elem? runs (bj + 1)) [
      | none ↦ none
      | some q ↦ elim (get_elem? runs (suc a)) [
        | none ↦ none
        | some first ↦ elim (get_elem? runs bj) [
          | none ↦ none
          | some last ↦ flip_between p q first.start last.end
        ]
      ]
    ]
  ]

  unfoldable pub resolved : List Run → Plan → List (ℕ × ℕ) → Plan
  unfolding flip_of
  resolved runs plan [] = plan
  resolved runs plan ((bi, bj) ∷ blocks) = elim (flip_of runs bi bj) [
    | none ↦ resolved runs plan blocks
    | some flip ↦ resolved runs (put bi (bj, flip) plan) blocks
  ]

  unfoldable pub resolve_unreadable_blocks : List Run → List Run
  unfolding blocks_from resolved rebuild
  resolve_unreadable_blocks runs =
      let plan = resolved runs [] (blocks_from 0 none runs) in
      elim plan [ [] ↦ runs | entry ∷ more ↦ rebuild (entry ∷ more) 0 0 none none runs ]
