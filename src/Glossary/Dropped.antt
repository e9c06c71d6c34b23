-- ===== src/Glossary/Dropped.antt =====
-- apps/server/ai/glossary.py: the report of dropped lines reads each line once more through the parser
-- of files; here it is related to what the parser does with the whole file.
use yeson_meet.Prelude.{
  ℕ, All, List, [], ap, append-nil, arith, false, keep, length, map, refl, ◌+◌, ◌∙◌, ◌∷◌, ◌≡◌, ◌⊎◌,
  Bool-cases, Option-cases, inl, inr, none, some,
}
use yeson_meet.Prelude.Text.{Str, CharTable, strip}
use yeson_meet.Prelude.Lines.{splitlines}
use yeson_meet.Prelude.Strip.{strip_idem}
use yeson_meet.Prelude.Split.{IsLine, splitlines_line, splitlines-IsLine, strip-IsLine}
use yeson_meet.Glossary.Lines.{parse_line_pair}
use yeson_meet.Glossary.{
  Term, is_content, invalid_glossary_lines, invalid_lines, parse_glossary_file, parse_line,
  parse_lines, separators, split_entry,
}

module _ (t : CharTable) where
  -- The lines that are neither empty nor a comment, stripped.
  abbrev pub content_lines : List Str → List Str
  content_lines raws = keep (is_content t) (map (strip t) raws)

  parse_glossary_file_stripped :
      (s : Str) → IsLine s → strip t s ≡ s → parse_glossary_file t s ≡ parse_line t s
  unfolding parse_glossary_file parse_lines parse_line is_content splitlines
  parse_glossary_file_stripped [] line h = refl
  parse_glossary_file_stripped (c ∷ s) line h =
      ap (parse_lines t) (splitlines_line c s line)
      ∙ (append-nil (parse_line t (strip t (c ∷ s))) ∙ ap (parse_line t) h)

  parse_glossary_file_line :
      (raw : Str) → IsLine raw → parse_glossary_file t (strip t raw) ≡ parse_line t (strip t raw)
  parse_glossary_file_line raw line =
      parse_glossary_file_stripped (strip t raw) (strip-IsLine t raw line) (strip_idem t raw)

  parse_line_skipped : (s : Str) → is_content t s ≡ false → parse_line t s ≡ []
  unfolding parse_line
  parse_line_skipped s h = ground arith

  -- A line gives one entry at most.
  parse_line-cases : (s : Str) → (parse_line t s ≡ []) ⊎ ((e : Term) × (parse_line t s ≡ e ∷ []))
  parse_line-cases s = elim (Bool-cases (is_content t s)) [
    | inr skipped ↦ inl (parse_line_skipped s skipped)
    | inl filled_line ↦ elim (Option-cases (split_entry t separators s)) [
      | inl none_found ↦ inl (parse_line_pair t s none filled_line none_found)
      | inr (e, found) ↦ inr (e, parse_line_pair t s (some e) filled_line found)
    ]
  ]

  invalid_lines-count :
      (i : ℕ) (raws : List Str)
      → All IsLine raws
      → length (parse_lines t raws) + length (invalid_lines t i raws) ≡ length (content_lines raws)
  unfolding parse_lines invalid_lines
  invalid_lines-count i [] h = refl
  invalid_lines-count i (raw ∷ raws) h = elim (parse_line-cases (strip t raw)) [
    | inl nothing ↦ ground (
      arith,
      parse_glossary_file_line raw h.0,
      parse_line_skipped (strip t raw),
      invalid_lines-count (i + 1) raws h.1,
    )
    | inr (e, one) ↦ ground (
      arith,
      parse_glossary_file_line raw h.0,
      parse_line_skipped (strip t raw),
      invalid_lines-count (i + 1) raws h.1,
    )
  ]

  -- Every line that is neither empty nor a comment is either an entry or reported as dropped: the two
  -- are as many as those lines.
  pub invalid_glossary_lines-count :
      (text : Str)
      → length (parse_glossary_file t text) + length (invalid_glossary_lines t text)
        ≡ length (content_lines (splitlines text))
  unfolding parse_glossary_file invalid_glossary_lines
  invalid_glossary_lines-count text =
      invalid_lines-count 1 (splitlines text) (splitlines-IsLine text)
