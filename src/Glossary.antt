-- ===== src/Glossary.antt =====
-- apps/server/ai/glossary.py: the translation glossary and the corrections of Korean captions. The
-- built-in tables and the files of the operator are arguments; a file is its modification time and its
-- text. The environment variables that name the paths, and the switch, are outside the model.
pub mod Merging
pub mod Lines
pub mod Dropped
pub mod Loading
use yeson_meet.Prelude.{
  ℕ, Bool, true, false, not, List, [], ◌∷◌, ◌++◌, Option, none, some, text_eq, ℕ_eq, ◌==◌, nat_eq,
  ◌+◌, zero, suc, length, map, if◌then◌else◌, keep, ◌&&◌,
}
use yeson_meet.Prelude.Dict.{Dict, get, put}
use yeson_meet.Prelude.Text.{Str, CharTable, codes, strip, to_lower, join}
use yeson_meet.Prelude.Lines.{splitlines, partition, replace}
use yeson_meet.Boundary.{occurs_in}

-- An English term and its Korean form, or a wrong rendering and the right one.
abbrev pub Term : Type 0
Term = Str × Str

-- `_SEPARATORS`
abbrev pub separators : List Str
separators = codes "=>" ∷ (9 ∷ []) ∷ codes "=" ∷ []

-- `result[i] = e`
unfoldable pub set_term : ℕ → Term → List Term → List Term
set_term i e [] = []
set_term zero e (x ∷ xs) = e ∷ xs
set_term (suc i) e (x ∷ xs) = x ∷ set_term i e xs

module _ (t : CharTable) where
  -- The pair, if neither side is empty.
  unfoldable pub entry : Str → Str → Option Term
  entry [] ko = none
  entry (c ∷ en) [] = none
  entry (c ∷ en) (d ∷ ko) = some (c ∷ en, d ∷ ko)

  -- The loop over the separators: the first that occurs in the line decides.
  unfoldable pub split_entry : List Str → Str → Option Term
  unfolding entry
  split_entry [] line = none
  split_entry (sep ∷ seps) line = elim (partition sep line) [
    | none ↦ split_entry seps line
    | some (en, ko) ↦ entry (strip t en) (strip t ko)
  ]

  -- A line that is empty or a comment is passed over.
  unfoldable pub is_content : Str → Bool
  is_content [] = false
  is_content (c ∷ line) = not (nat_eq c b'#')

  unfoldable pub parse_line : Str → List Term
  unfolding is_content split_entry
  parse_line line =
      if is_content line
      then elim (split_entry separators line) [ none ↦ [] | some e ↦ e ∷ [] ]
      else []

  unfoldable pub parse_lines : List Str → List Term
  unfolding parse_line
  parse_lines [] = []
  parse_lines (raw ∷ raws) = parse_line (strip t raw) ++ parse_lines raws

  unfoldable pub parse_glossary_file : Str → List Term
  unfolding parse_lines
  parse_glossary_file text = parse_lines (splitlines text)

  -- `invalid_glossary_lines`: the numbers and texts of the lines that the parser drops.
  unfoldable pub invalid_lines : ℕ → List Str → List (ℕ × Str)
  unfolding parse_glossary_file is_content
  invalid_lines i [] = []
  invalid_lines i (raw ∷ raws) =
      let rest = invalid_lines (i + 1) raws in
      if is_content (strip t raw)
      then elim (parse_glossary_file (strip t raw)) [ [] ↦ (i, raw) ∷ rest | e ∷ es ↦ rest ]
      else rest

  unfoldable pub invalid_glossary_lines : Str → List (ℕ × Str)
  unfolding invalid_lines
  invalid_glossary_lines text = invalid_lines 1 (splitlines text)

  abbrev pub key_of : Term → Str
  key_of e = to_lower t e.0

  -- `{en.lower(): i for i, (en, _) in enumerate(result)}`
  unfoldable pub index_from : ℕ → Dict Str ℕ → List Term → Dict Str ℕ
  index_from i index [] = index
  index_from i index (e ∷ es) = index_from (i + 1) (put (key_of e) i index) es

  -- The loop over the overrides.
  unfoldable pub merge_from : List Term → Dict Str ℕ → List Term → List Term
  merge_from result index [] = result
  merge_from result index (e ∷ es) = elim (get (key_of e) index) [
    | some i ↦ merge_from (set_term i e result) index es
    | none ↦ merge_from (result ++ e ∷ []) (put (key_of e) (length result) index) es
  ]

  unfoldable pub merge_glossary : List Term → List Term → List Term
  unfolding merge_from index_from
  merge_glossary defaults overrides = merge_from defaults (index_from 0 [] defaults) overrides

-- `_format_block`, with the introduction as an argument
unfoldable pub format_block : Str → List Term → Str
format_block introduction terms =
    introduction
    ++ (join (codes "; ") (map (λ (e : Term). e.0 ++ (codes " → " ++ e.1)) terms) ++ codes ".")

-- `apply_ko_corrections` with the terms that were loaded
unfoldable pub apply_ko_corrections : List Term → Str → Str
apply_ko_corrections [] text = text
apply_ko_corrections (e ∷ es) text =
    apply_ko_corrections es (if occurs_in e.0 text then replace e.0 e.1 text else text)

-- A file: none if it cannot be read.
pub record File : Type 0 where
  pub mtime : ℕ
  pub text : Str

-- The files that a scope reads, in order, each with its path.
abbrev pub Files : Type 0
Files = List (Str × Option File)

-- The key of the cache: every path with the time of its file.
abbrev pub CacheKey : Type 0
CacheKey = List (Str × Option ℕ)

pub record Cache : Type 0 where
  pub key : CacheKey
  pub terms : List Term

unfoldable pub is_one_of : Str → List Str → Bool
is_one_of s [] = false
is_one_of s (x ∷ xs) = if s == x then true else is_one_of s xs

-- The built-in terms of a scope: those that it does not exclude.
unfoldable pub defaults_of : (Str → Str) → List Str → List Term → List Term
unfolding is_one_of
defaults_of fold excluded defaults = keep (λ e. not (is_one_of (fold e.0) excluded)) defaults

-- `_read_chain`: the key, and the entries of all files in order.
unfoldable pub key_of_files : Files → CacheKey
key_of_files [] = []
key_of_files ((path, none) ∷ fs) = (path, none) ∷ key_of_files fs
key_of_files ((path, some f) ∷ fs) = (path, some f.mtime) ∷ key_of_files fs

unfoldable pub same_key : CacheKey → CacheKey → Bool
same_key [] [] = true
same_key ((p, none) ∷ k) ((q, none) ∷ l) = (p == q) && same_key k l
same_key ((p, some m) ∷ k) ((q, some n) ∷ l) = (p == q) && (nat_eq m n && same_key k l)
same_key _ _ = false

module _ (t : CharTable) where
  unfoldable pub read_chain : Files → List Term
  read_chain [] = []
  read_chain ((path, none) ∷ fs) = read_chain fs
  read_chain ((path, some f) ∷ fs) = parse_glossary_file t f.text ++ read_chain fs

  -- `load_glossary` and `load_ko_corrections`, for the scope whose built-in terms are `defaults` and
  -- whose slot of the cache is given: the terms, and the slot afterwards.
  unfoldable pub load : List Term → Option Cache → Files → List Term × Option Cache
  unfolding key_of_files same_key read_chain
  load defaults cache files =
      let key = key_of_files files in
      let terms = merge_glossary t defaults (read_chain files) in
      let fresh : List Term × Option Cache = (terms, some (record { key = key; terms = terms })) in
      elim cache [ none ↦ fresh | some c ↦ if same_key c.key key then (c.terms, some c) else fresh ]
