-- ===== src/Glossary/Lines.antt =====
-- apps/server/ai/glossary.py: the lines of a glossary file, those that the parser takes and those that
-- the form for them reports as dropped.
use yeson_meet.Prelude.{
  All, List, [], false, nat_eq, some, true, ◌++◌, ◌∷◌, ◌≡◌, All-append, ap, append_assoc, refl, sym,
  ◌∙◌, Bool, Option, ap₂, arith, if◌then◌else◌, none,
}
use yeson_meet.Prelude.Text.{Str, CharTable, codes, strip}
use yeson_meet.Prelude.Lines.{partition, is_line_end, splitlines}
use yeson_meet.Prelude.Strip.{StartsDark, EndsDark, strip_dark, strip_blank_end, strip_blank_front}
use yeson_meet.Prelude.Split.{IsLine, partition-append, splitlines_cons}
use yeson_meet.Glossary.{
  Term, is_content, entry, separators, split_entry, parse_glossary_file, parse_line, parse_lines,
}

-- The form `en => ko` that the documentation of the file shows, one entry to a line.
abbrev pub written_line : Term → Str
written_line e = e.0 ++ (codes " => " ++ e.1)

abbrev pub written : List Term → Str
written [] = []
written (e ∷ es) = written_line e ++ 10 ∷ written es

abbrev pub IsFilled : Str → Type 0
IsFilled [] = ⊥
IsFilled (c ∷ s) = Unit

module _ (t : CharTable) where
  -- What a term must be to stand in a file: both sides stripped, not empty and on one line; no equals
  -- sign on the left, and no number sign in front.
  pub record IsWritable (e : Term) : Type 0 where
    pub content : is_content t e.0 ≡ true
    pub filled : IsFilled e.1
    pub en_line : IsLine e.0
    pub ko_line : IsLine e.1
    pub en_starts : StartsDark t e.0
    pub en_ends : EndsDark t e.0
    pub ko_starts : StartsDark t e.1
    pub ko_ends : EndsDark t e.1
    pub no_sign : All (λ c. nat_eq c 61 ≡ false) e.0

  EndsDark-append : (xs ys : Str) → IsFilled ys → EndsDark t ys → EndsDark t (xs ++ ys)
  EndsDark-append [] ys f h = h
  EndsDark-append (x ∷ []) [] f h = absurd f
  EndsDark-append (x ∷ []) (y ∷ ys) f h = h
  EndsDark-append (x ∷ z ∷ xs) ys f h = EndsDark-append (z ∷ xs) ys f h

  line_dark :
      (en ko : Str) → IsWritable (en, ko) → strip t (written_line (en, ko)) ≡ written_line (en, ko)
  unfolding is_content
  line_dark [] ko w = ground arith
  line_dark (c ∷ en) ko w = strip_dark t (written_line (c ∷ en, ko)) w.en_starts (
      EndsDark-append (c ∷ en) (codes " => " ++ ko) tt
        (EndsDark-append (codes " => ") ko w.filled w.ko_ends))

  entry-filled :
      (en ko : Str) → is_content t en ≡ true → IsFilled ko → entry t en ko ≡ some (en, ko)
  unfolding entry is_content
  entry-filled [] ko h f = ground arith
  entry-filled (c ∷ en) [] h f = absurd f
  entry-filled (c ∷ en) (d ∷ ko) h f = refl

  partition-written :
      (en ko : Str)
      → All (λ c. nat_eq c 61 ≡ false) en
      → partition (codes "=>") (written_line (en, ko)) ≡ some (en ++ 32 ∷ [], 32 ∷ ko)
  partition-written en ko h =
      ap (partition (codes "=>")) (sym (append_assoc en (32 ∷ []) (61 ∷ 62 ∷ 32 ∷ ko)))
      ∙ partition-append (en ++ 32 ∷ []) 61 (62 ∷ []) (32 ∷ ko)
          (All-append (λ c. nat_eq c 61 ≡ false) en (32 ∷ []) h (refl, tt))

  split_entry-written :
      (en ko : Str)
      → t.is_space 32 ≡ true
      → IsWritable (en, ko)
      → split_entry t separators (written_line (en, ko)) ≡ some (en, ko)
  unfolding split_entry
  split_entry-written en ko blank w =
      rw
        (
          partition-written en ko w.no_sign,
          split_entry,
          strip_blank_end t en 32 blank,
          strip_blank_front t 32 ko blank,
          strip_dark t en w.en_starts w.en_ends,
          strip_dark t ko w.ko_starts w.ko_ends,
        )
        (entry-filled en ko w.content w.filled)

  is_content-append : (s r : Str) → is_content t s ≡ true → is_content t (s ++ r) ≡ true
  unfolding is_content
  is_content-append [] r h = ground arith
  is_content-append (c ∷ s) r h = h

  -- What `parse_line` makes of a line with content and of its pair.
  pub parse_line_pair :
      (line : Str) (o : Option Term)
      → is_content t line ≡ true
      → split_entry t separators line ≡ o
      → parse_line t line ≡ elim o [ none ↦ [] | some e ↦ e ∷ [] ]
  unfolding parse_line
  parse_line_pair line o content pair =
      ap₂
        (λ (b : Bool) (p : Option Term).
          if b then elim p as (λ x. List Term) [ none ↦ [] | some e ↦ e ∷ [] ] else [])
        content pair

  parse_line-written :
      (e : Term)
      → t.is_space 32 ≡ true
      → IsWritable e
      → parse_line t (strip t (written_line e)) ≡ e ∷ []
  parse_line-written (en, ko) blank w =
      ap (parse_line t) (line_dark en ko w)
      ∙ parse_line_pair (written_line (en, ko)) (some (en, ko))
          (is_content-append en (codes " => " ++ ko) w.content) (split_entry-written en ko blank w)

  written-IsLine : (e : Term) → IsWritable e → IsLine (written_line e)
  unfolding is_line_end
  written-IsLine e w =
      All-append (λ c. is_line_end c ≡ false) e.0 (codes " => " ++ e.1) w.en_line
        (All-append (λ c. is_line_end c ≡ false) (codes " => ") e.1
          (refl, (refl, (refl, (refl, tt)))) w.ko_line)

  -- Entries written one to a line as `en => ko` are read back as they are, if both sides of each are
  -- stripped, not empty and on one line, the English one has no equals sign and does not start with a
  -- number sign, and the interpreter counts the blank as white space.
  pub parse_glossary_file-written :
      (es : List Term)
      → t.is_space 32 ≡ true
      → All IsWritable es
      → parse_glossary_file t (written es) ≡ es
  unfolding parse_glossary_file parse_lines splitlines
  parse_glossary_file-written [] blank w = refl
  parse_glossary_file-written (e ∷ es) blank w =
      ap (parse_lines t) (splitlines_cons (written_line e) (written es) (written-IsLine e w.0))
      ∙ ap₂ ◌++◌ (parse_line-written e blank w.0) (parse_glossary_file-written es blank w.1)
