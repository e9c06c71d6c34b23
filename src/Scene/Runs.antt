-- ===== src/Scene/Runs.antt =====
-- scene_split.py: `runs_to_segments`, the segments of the runs between detected cuts. The last group,
-- which the loop still changes, is an argument; its key is the code's `last_key`.
pub mod Tiling
use yeson_meet.Prelude.{
  ℕ, Bool, List, Option, [], any, false, if◌then◌else◌, leb, length, ltb, map, none, not, some, suc,
  true, zero, ◌&&◌, ◌*◌, ◌++◌, ◌+◌, ◌==◌, ◌∷◌, text_eq,
}
use yeson_meet.Prelude.Text.{Str, CharTable}
use yeson_meet.Scene.Tokens.{
  SlateRule, Mode, grouping_key, build_label, is_empty, label_matches, mode_indices, upto_index,
}
use yeson_meet.Scene.Keys.{read_tokens}
use yeson_meet.Scene.Boundaries.{Span, Segment, to_segment}

pub record SceneRun : Type 0 where
  pub start_ms : ℕ
  pub end_ms : ℕ
  pub text : Str
  pub cut_diff : ℕ

-- The block of unreadable runs since the last readable one.
pub record Pending : Type 0 where
  pub start : Option ℕ
  pub cut : ℕ
  pub end_ms : ℕ
  pub texts : List (ℕ × Str)

abbrev pub no_pending : Pending
no_pending = record { start = none; cut = 0; end_ms = 0; texts = [] }

abbrev pub unreadable_move_ratio : ℕ
unreadable_move_ratio = 3

-- An unreadable run joins the block.
unfoldable pub hold : Pending → SceneRun → Pending
hold p r = record {
  start = elim p.start [ none ↦ some r.start_ms | some s ↦ some s ];
  cut = elim p.start [ none ↦ r.cut_diff | some s ↦ p.cut ];
  end_ms = r.end_ms;
  texts = if is_empty r.text then p.texts else p.texts ++ (r.start_ms, r.text) ∷ [];
}

-- The first time that passes the test.
unfoldable pub first_match : (Str → Bool) → List (ℕ × Str) → Option ℕ
first_match test [] = none
first_match test ((st, txt) ∷ ts) = if test txt then some st else first_match test ts

unfoldable pub continues : Option Span → Str → Bool
continues none k = false
continues (some g) k = k == g.key

abbrev pub last_label : Option Span → Str
last_label none = []
last_label (some g) = g.label

abbrev pub has_group : Option Span → Bool
has_group none = false
has_group (some g) = true

abbrev pub extend : Option Span → ℕ → Option Span
extend none e = none
extend (some g) e = some (record g { end_ms = e })

-- The last group ends where the next one starts.
abbrev pub emit : Option Span → ℕ → List Span → List Span
emit none start rest = rest
emit (some g) start rest = record g { end_ms = start } ∷ rest

-- A block at the very end stays with the last group.
unfoldable pub close : Option Span → Pending → List Span
close none p = []
close (some g) p = elim p.start [ none ↦ g ∷ [] | some s ↦ record g { end_ms = p.end_ms } ∷ [] ]

module _ (t : CharTable) (ds : List Str) where
  -- Where the group of a run with a new key starts: a text of the block that fits the new label,
  -- and not the old one, moves the start there; without such a text a much stronger cut does.
  unfoldable pub group_start : Option Span → Pending → SceneRun → Str → ℕ
  group_start cur p r label = elim p.start [
    | none ↦ r.start_ms
    | some s ↦ elim (first_match (λ txt. label_matches t txt label (last_label cur) ds) p.texts) [
      | some m ↦ m
      | none ↦
          if (not (any (λ x. label_matches t x.1 (last_label cur) label ds) p.texts)
              && has_group cur)
            && (ltb 0 p.cut && leb (unreadable_move_ratio * r.cut_diff) p.cut)
          then s
          else r.start_ms
    ]
  ]

  unfoldable pub group_runs : List ℕ → Option Span → Pending → List SceneRun → List Span
  group_runs indices cur p [] = close cur p
  group_runs indices cur p (r ∷ rs) =
      let toks = read_tokens t r.text ds in
      elim (grouping_key t toks indices) [
        | none ↦ group_runs indices cur (hold p r) rs
        | some k ↦ elim (continues cur k) [
          | true ↦
              group_runs indices (extend cur r.end_ms) (record p { start = none; texts = [] }) rs
          | false ↦
              let label = build_label t toks (upto_index indices) in
              let start = group_start cur p r label in
              emit cur start (
                group_runs indices
                  (some (record { key = k; label = label; start_ms = start; end_ms = r.end_ms }))
                  (record p { start = none; texts = [] }) rs)
        ]
      ]

-- The groups up to the first with the key, that group, or `none` if no group has the key.
unfoldable pub find_return : Str → List Span → Option (List Span × Span)
find_return k [] = none
find_return k (s ∷ ss) = elim (s.key == k) [
  | true ↦ some ([], s)
  | false ↦ elim (find_return k ss) [ none ↦ none | some (block, back) ↦ some (s ∷ block, back) ]
]

abbrev pub block_end : Span → List Span → ℕ
block_end s [] = s.end_ms
block_end s (r ∷ rs) = block_end r rs

-- The block between two groups of one key, if it is short enough: its length and the end of the
-- second group.
unfoldable pub flanked : ℕ → Str → List Span → Option (ℕ × ℕ)
unfolding find_return
flanked cap k ss = elim (find_return k ss) [
  | none ↦ none
  | some ([], back) ↦ none
  | some (s ∷ block, back) ↦
      if leb (block_end s block) (s.start_ms + cap)
      then some (length (s ∷ block), back.end_ms)
      else none
]

-- One pass; the first argument after the cap is the last group kept, the number counts the groups of
-- a block that are still to skip.
unfoldable pub sweep : ℕ → Span → ℕ → List Span → List Span × Bool
sweep cap last skip [] = (last ∷ [], false)
sweep cap last (suc n) (s ∷ ss) = sweep cap last n ss
sweep cap last zero (s ∷ ss) = elim (flanked cap last.key (s ∷ ss)) [
  | none ↦ let rest = sweep cap s zero ss in (last ∷ rest.0, rest.1)
  | some (n, e) ↦ let rest = sweep cap (record last { end_ms = e }) n ss in (rest.0, true)
]

unfoldable pub absorb_rounds : ℕ → ℕ → List Span → List Span
absorb_rounds zero cap groups = groups
absorb_rounds (suc n) cap [] = []
absorb_rounds (suc n) cap (g ∷ gs) =
    let swept = sweep cap g zero gs in
    elim swept.1 [ true ↦ absorb_rounds n cap swept.0 | false ↦ swept.0 ]

module _ (t : CharTable) where
  unfoldable pub run_groups : List SceneRun → SlateRule → Mode → ℕ → List Span
  run_groups runs rule mode absorb_flanked_ms =
      let groups = group_runs t rule.delimiters (mode_indices rule mode) none no_pending runs in
      if ltb 0 absorb_flanked_ms then absorb_rounds 8 absorb_flanked_ms groups else groups

  unfoldable pub runs_to_segments : List SceneRun → SlateRule → Mode → ℕ → List Segment
  unfolding run_groups
  runs_to_segments runs rule mode absorb_flanked_ms =
      map to_segment (run_groups runs rule mode absorb_flanked_ms)
