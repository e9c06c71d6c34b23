-- ===== src/Scene/Keys.antt =====
-- scene_split.py: `hold_keys`, the group key and label of each sampled frame.
use yeson_meet.Prelude.{ℕ, List, Option, [], if◌then◌else◌, none, some, ◌∷◌}
use yeson_meet.Prelude.Text.{Str, CharTable}
use yeson_meet.Scene.Tokens.{
  SlateRule, Mode, tokenize, grouping_key, build_label, mode_indices, upto_index, is_empty,
}

pub record FrameSample : Type 0 where
  pub index : ℕ
  pub t_ms : ℕ
  pub text : Str

pub record Keyed : Type 0 where
  pub t_ms : ℕ
  pub key : Option Str
  pub label : Option Str

module _ (t : CharTable) where
  -- The tokens of a read text; an empty text has none.
  unfoldable pub read_tokens : Str → List Str → List Str
  read_tokens text ds = if is_empty text then [] else tokenize t text ds

  -- The loop, with the key and the label of the last readable frame.
  unfoldable pub hold_from :
      List Str → List ℕ → Option Str → Option Str → List FrameSample → List Keyed
  hold_from ds indices last_key last_label [] = []
  hold_from ds indices last_key last_label (s ∷ samples) =
      let toks = read_tokens s.text ds in
      elim (grouping_key t toks indices) [
        | none ↦
            record { t_ms = s.t_ms; key = last_key; label = last_label }
            ∷ hold_from ds indices last_key last_label samples
        | some k ↦
            let label = build_label t toks (upto_index indices) in
            record { t_ms = s.t_ms; key = some k; label = some label }
            ∷ hold_from ds indices (some k) (some label) samples
      ]

  unfoldable pub hold_keys : List FrameSample → SlateRule → Mode → List Keyed
  unfolding hold_from
  hold_keys samples rule mode = hold_from rule.delimiters (mode_indices rule mode) none none samples
