-- ===== src/Tests/Glossaries.antt =====
-- A glossary with overrides in two files.
use yeson_meet.Prelude.{ℕ, List, [], map, none, refl, some, ◌++◌, ◌∷◌, ◌≡◌}
use yeson_meet.Prelude.Dict.{get, put}
use yeson_meet.Prelude.Text.{Str, codes, to_lower}
use yeson_meet.Prelude.Lines.{is_line_end}
use yeson_meet.Glossary.{
  set_term, is_content, Term, Files, merge_glossary, parse_glossary_file, read_chain,
}
use yeson_meet.Glossary.Merging.{last_entry, merge_glossary-append, last_entry-merge_glossary}
use yeson_meet.Glossary.Lines.{written, IsWritable, parse_glossary_file-written}
use yeson_meet.Glossary.Loading.{load_all, load-merge}
use yeson_meet.Tests.{ascii}

abbrev terms : List Term
terms = (codes "Cut", codes "컷") ∷ (codes "take", codes "테이크") ∷ []

abbrev changes : List Term
changes = (codes "cut", codes "커트") ∷ (codes "rig", codes "리그") ∷ []

abbrev more_changes : List Term
more_changes = (codes "Rig", codes "뼈대") ∷ []

-- The entry for `cut` takes the place of `Cut`, the new one goes to the end.
merged :
    merge_glossary ascii terms changes
    ≡ (codes "cut", codes "커트") ∷ (codes "take", codes "테이크") ∷ (codes "rig", codes "리그") ∷ []
unfolding merge_glossary to_lower get put set_term
merged = refl

merge_glossary-append_example :
    merge_glossary ascii terms (changes ++ more_changes)
    ≡ merge_glossary ascii (merge_glossary ascii terms changes) more_changes
merge_glossary-append_example = merge_glossary-append ascii terms changes more_changes

last_entry-merge_glossary_example :
    last_entry ascii (codes "rig") (merge_glossary ascii terms (changes ++ more_changes))
    ≡ last_entry ascii (codes "rig") (terms ++ (changes ++ more_changes))
last_entry-merge_glossary_example =
    last_entry-merge_glossary ascii (codes "rig") terms (changes ++ more_changes)

cut_IsWritable : IsWritable ascii (codes "cut", codes "커트")
unfolding is_line_end is_content
cut_IsWritable = record {
  content = refl;
  filled = tt;
  en_line = (refl, (refl, (refl, tt)));
  ko_line = (refl, (refl, tt));
  en_starts = refl;
  en_ends = refl;
  ko_starts = refl;
  ko_ends = refl;
  no_sign = (refl, (refl, (refl, tt)));
}

parse_glossary_file-written_example :
    parse_glossary_file ascii (written ((codes "cut", codes "커트") ∷ []))
    ≡ (codes "cut", codes "커트") ∷ []
parse_glossary_file-written_example =
    parse_glossary_file-written ascii ((codes "cut", codes "커트") ∷ []) refl (cut_IsWritable, tt)

-- A comment, an entry, and a line without a separator.
abbrev text : Str
text = codes "# cuts" ++ 10 ∷ (codes "cut => 커트" ++ 10 ∷ codes "take")

-- The file is not there, then it is, and then it is read again.
abbrev file_at : ℕ → Str → ℕ → Str
file_at n path mtime = text

abbrev history : List Files
history =
    ((codes "g", none) ∷ [])
    ∷ (((codes "g", some (record { mtime = 5; text = text })) ∷ [])
        ∷ (((codes "g", some (record { mtime = 5; text = text })) ∷ []) ∷ []))

load-merge_example :
    load_all ascii terms none history
    ≡ map (λ fs. merge_glossary ascii terms (read_chain ascii fs)) history
load-merge_example =
    load-merge ascii (λ path mtime. text) terms history (tt, ((refl, tt), ((refl, tt), tt)))
