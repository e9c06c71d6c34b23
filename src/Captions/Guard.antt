-- ===== src/Captions/Guard.antt =====
-- apps/server/ai/mlx_live_translate.py and apps/server/domain/video_captions/translate.py: the guard
-- against wrong output of local models, and the tests for captions that are still English.
pub mod Verdicts
use yeson_meet.Prelude.{
  ℕ, Bool, List, Option, [], any, drop, false, if◌then◌else◌, keep, leb, length, ltb, max, nat_eq,
  none, not, some, suc, take, true, zero, ◌&&◌, ◌*◌, ◌++◌, ◌==◌, ◌||◌, ◌∷◌, text_eq,
}
use yeson_meet.Prelude.Text.{Str, CharTable, strip}
use yeson_meet.Glossary.{is_one_of}
use yeson_meet.Prelude.Lines.{partition}

-- Why a translation is rejected.
pub data Reason : Type 0 where
  empty_text : Reason
  foreign_script : Reason
  invented_number : Reason
  length_ratio : Reason
  english_leak : Reason
  repetition : Reason

abbrev pub is_between : ℕ → ℕ → ℕ → Bool
is_between low high c = leb low c && leb c high

-- `_FOREIGN_RE`: Han, Kana, Cyrillic, Thai, or the replacement character.
unfoldable pub is_foreign : ℕ → Bool
is_foreign c =
    is_between 19968 40959 c
    || (is_between 12352 12543 c
        || (is_between 1024 1279 c || (is_between 3584 3711 c || nat_eq c 65533)))

-- `_ASCII_ALPHA_RE`
unfoldable pub is_ascii_alpha : ℕ → Bool
is_ascii_alpha c = is_between 65 90 c || is_between 97 122 c

abbrev pub finished_run : Str → List Str
finished_run [] = []
finished_run (c ∷ s) = (c ∷ s) ∷ []

-- `_DIGIT_RUN_RE.findall`, with the run that is being read. What `\d` matches is an argument.
unfoldable pub digit_runs : (ℕ → Bool) → Str → Str → List Str
digit_runs decimals run [] = finished_run run
digit_runs decimals run (c ∷ s) = elim (decimals c) [
  | true ↦ digit_runs decimals (run ++ c ∷ []) s
  | false ↦ finished_run run ++ digit_runs decimals [] s
]

unfoldable pub is_invented : (ℕ → Bool) → Str → Str → Bool
unfolding digit_runs is_one_of
is_invented decimals en ko =
    any (λ run. not (is_one_of run (digit_runs decimals [] en))) (digit_runs decimals [] ko)

-- The phrase occurs as often as that, without overlap.
unfoldable pub occurs_times : ℕ → Str → Str → Bool
occurs_times zero phrase s = true
occurs_times (suc n) phrase s = elim (partition phrase s) [
  | none ↦ false
  | some (before, after) ↦ occurs_times n phrase after
]

-- `_REPEAT_RE.search`: a phrase of ten characters or more that stands there three times. Ten are
-- enough to look at, since the start of a repeated phrase is repeated.
unfoldable pub repeats : Str → Bool
unfolding occurs_times
repeats [] = false
repeats (c ∷ s) =
    (leb 10 (length (c ∷ s)) && occurs_times 2 (take 10 (c ∷ s)) (drop 10 (c ∷ s))) || repeats s

module _ (t : CharTable) where
  -- The share of Latin letters is over 0.6: for texts of any length that memory holds, the test on
  -- floats is that on integers.
  unfoldable pub is_english_leak : Str → Bool
  unfolding is_ascii_alpha
  is_english_leak text =
      let stripped = strip t text in
      elim stripped [
        | [] ↦ false
        | c ∷ s ↦ ltb (3 * length (c ∷ s)) (5 * length (keep is_ascii_alpha (c ∷ s)))
      ]

  -- The ratio of the lengths is from 0.2 to 3.0.
  unfoldable pub is_length_ok : Str → Str → Bool
  is_length_ok en ko =
      leb (max 1 (length en)) (5 * length ko) && leb (length ko) (3 * max 1 (length en))

  unfoldable pub guard_stripped : (ℕ → Bool) → Str → Str → Option Reason
  unfolding is_foreign is_invented is_length_ok is_english_leak repeats
  guard_stripped decimals en [] = some empty_text
  guard_stripped decimals en (c ∷ ko) =
      if any is_foreign (c ∷ ko)
      then some foreign_script
      else if is_invented decimals en (c ∷ ko)
      then some invented_number
      else if not (is_length_ok (strip t en) (c ∷ ko))
      then some length_ratio
      else if is_english_leak (c ∷ ko)
      then some english_leak
      else if repeats (c ∷ ko)
      then some repetition
      else none

  unfoldable pub guard_mlx_ko : (ℕ → Bool) → Str → Str → Option Reason
  unfolding guard_stripped
  guard_mlx_ko decimals en ko = guard_stripped decimals en (strip t ko)

  -- `apply_ko_guard` on one line, and on all.
  unfoldable pub guarded : (ℕ → Bool) → Str → Str → Str
  unfolding guard_mlx_ko
  guarded decimals en ko = elim (guard_mlx_ko decimals en ko) [ none ↦ ko | some reason ↦ en ]

  unfoldable pub apply_ko_guard : (ℕ → Bool) → List Str → List Str → List Str
  unfolding guarded
  apply_ko_guard decimals [] out = []
  apply_ko_guard decimals (en ∷ texts) [] = []
  apply_ko_guard decimals (en ∷ texts) (ko ∷ out) =
      guarded decimals en ko ∷ apply_ko_guard decimals texts out

  unfoldable pub is_source_copy : Str → Str → Bool
  is_source_copy en ko =
      let stripped = strip t ko in elim stripped [ [] ↦ false | c ∷ s ↦ (c ∷ s) == strip t en ]

  unfoldable pub is_untranslated : Str → Str → Bool
  unfolding is_source_copy is_english_leak
  is_untranslated en ko =
      let stripped = strip t ko in
      elim stripped [
        | [] ↦ false
        | c ∷ s ↦ if is_source_copy en ko then true else is_english_leak (c ∷ s)
      ]
