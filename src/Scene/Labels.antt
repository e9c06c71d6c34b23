-- ===== src/Scene/Labels.antt =====
-- scene_split.py: `dedupe_labels`, a suffix for each repeated label.
pub mod Distinct
use yeson_meet.Prelude.{text_eq, ℕ, List, [], if◌then◌else◌, nat_eq, none, some, ◌++◌, ◌+◌, ◌∷◌}
use yeson_meet.Prelude.Dict.{Dict, get, put}
use yeson_meet.Prelude.Text.{Str, decimal_02}

abbrev pub seen_count : Str → Dict Str ℕ → ℕ
seen_count label seen = elim (get label seen) [ none ↦ 0 | some n ↦ n ]

-- The name of the n-th occurrence of a label.
unfoldable pub named : Str → ℕ → Str
unfolding decimal_02
named label n = if nat_eq n 1 then label else label ++ (b'_' ∷ decimal_02 n)

unfoldable pub dedupe_from : Dict Str ℕ → List Str → List Str
dedupe_from seen [] = []
dedupe_from seen (label ∷ labels) =
    let n = seen_count label seen + 1 in named label n ∷ dedupe_from (put label n seen) labels

unfoldable pub dedupe_labels : List Str → List Str
unfolding dedupe_from
dedupe_labels labels = dedupe_from [] labels
