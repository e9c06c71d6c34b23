-- ===== src/Glossary/Merging.antt =====
-- apps/server/ai/glossary.py: the merge of overrides into the built-in terms, against a reference that
-- looks the key up in the list itself, without the index of positions.
use yeson_meet.Prelude.{
  ℕ, List, Option, [], arith, if◌then◌else◌, length, none, refl, some, suc, ◌++◌, ◌+◌, ◌==◌, ◌∷◌,
  ◌≡◌, text_eq, zero, Option-cases, inl, inr, sym, ◌∙◌, ap,
}
use yeson_meet.Prelude.Text.{Str, CharTable}
use yeson_meet.Prelude.Dict.{get, Dict, get-put, put}
use yeson_meet.Glossary.{Term, index_from, key_of, set_term, merge_from, merge_glossary}

module _ (t : CharTable) where
  -- The last position of a key.
  abbrev pub last_index : Str → List Term → Option ℕ
  last_index k [] = none
  last_index k (x ∷ xs) = elim (last_index k xs) [
    | some i ↦ some (suc i)
    | none ↦ if key_of t x == k then some 0 else none
  ]

  -- The last entry of a key.
  abbrev pub last_entry : Str → List Term → Option Term
  last_entry k [] = none
  last_entry k (x ∷ xs) = elim (last_entry k xs) [
    | some e ↦ some e
    | none ↦ if key_of t x == k then some x else none
  ]

  -- One override: in the place of the last entry of its key, or at the end.
  abbrev pub override : Term → List Term → List Term
  override e xs = elim (last_index (key_of t e) xs) [
    | some i ↦ set_term i e xs
    | none ↦ xs ++ e ∷ []
  ]

  abbrev pub override_all : List Term → List Term → List Term
  override_all xs [] = xs
  override_all xs (e ∷ es) = override_all (override e xs) es

  -- The index holds the last position of every key.
  abbrev Indexes : Dict Str ℕ → List Term → Type 0
  Indexes index xs = (k : Str) → get k index ≡ last_index k xs

  abbrev shifted : ℕ → Option ℕ → Option ℕ → Option ℕ
  shifted n none o = o
  shifted n (some i) o = some (n + i)

  get-index_from :
      (xs : List Term) (n : ℕ) (d : Dict Str ℕ) (k : Str)
      → get k (index_from t n d xs) ≡ shifted n (last_index k xs) (get k d)
  unfolding index_from
  get-index_from [] n d k = refl
  get-index_from (x ∷ xs) n d k =
      ground (arith, get-index_from xs (n + 1) (put (key_of t x) n d) k, get-put (key_of t x) k n d)

  last_index-set_term :
      (e : Term) (xs : List Term) (i : ℕ) (k : Str)
      → last_index (key_of t e) xs ≡ some i
      → last_index k (set_term i e xs) ≡ last_index k xs
  unfolding set_term
  last_index-set_term e [] i k h = cc
  last_index-set_term e (x ∷ xs) zero k h =
      ground (arith, text_eq.same_iff (key_of t x) (key_of t e))
  last_index-set_term e (x ∷ xs) (suc i) k h = ground (arith, last_index-set_term e xs i k)

  last_index-append :
      (e : Term) (xs : List Term) (k : Str)
      → last_index k (xs ++ e ∷ [])
        ≡ (if key_of t e == k then some (length xs) else last_index k xs)
  last_index-append e [] k = refl
  last_index-append e (x ∷ xs) k = ground (arith, last_index-append e xs k)

  put-Indexes :
      (e : Term) (xs : List Term) (index : Dict Str ℕ)
      → Indexes index xs
      → Indexes (put (key_of t e) (length xs) index) (xs ++ e ∷ [])
  put-Indexes e xs index h k =
      ground (arith, h k, get-put (key_of t e) k (length xs) index, last_index-append e xs k)

  set_term-Indexes :
      (e : Term) (xs : List Term) (i : ℕ) (index : Dict Str ℕ)
      → last_index (key_of t e) xs ≡ some i
      → Indexes index xs
      → Indexes index (set_term i e xs)
  set_term-Indexes e xs i index found h k = h k ∙ sym (last_index-set_term e xs i k found)

  override_new :
      (e : Term) (xs : List Term) → last_index (key_of t e) xs ≡ none → override e xs ≡ xs ++ e ∷ []
  override_new e xs new = rw (override, new) refl

  override_old :
      (e : Term) (xs : List Term) (i : ℕ)
      → last_index (key_of t e) xs ≡ some i
      → override e xs ≡ set_term i e xs
  override_old e xs i old = rw (override, old) refl

  merge_from-override_all :
      (xs : List Term) (index : Dict Str ℕ) (es : List Term)
      → Indexes index xs
      → merge_from t xs index es ≡ override_all xs es
  unfolding merge_from
  merge_from-override_all xs index [] h = refl
  merge_from-override_all xs index (e ∷ es) h = elim (Option-cases (last_index (key_of t e) xs)) [
    | inl new ↦
        rw (merge_from, h (key_of t e), new)
          (merge_from-override_all (xs ++ e ∷ []) (put (key_of t e) (length xs) index) es
              (put-Indexes e xs index h)
            ∙ ap (λ ys. override_all ys es) (sym (override_new e xs new)))
    | inr (i, found) ↦
        rw (merge_from, h (key_of t e), found)
          (merge_from-override_all (set_term i e xs) index es
              (set_term-Indexes e xs i index found h)
            ∙ ap (λ ys. override_all ys es) (sym (override_old e xs i found)))
  ]

  index_from-Indexes : (xs : List Term) → Indexes (index_from t 0 [] xs) xs
  unfolding get
  index_from-Indexes xs k = ground (arith, get-index_from xs 0 [] k)

  -- Merging overrides through the index of positions is to apply them one by one, each in the place
  -- of the last entry with its key in lower case, or at the end if there is none.
  pub merge_glossary-override_all :
      (defaults overrides : List Term)
      → merge_glossary t defaults overrides ≡ override_all defaults overrides
  unfolding merge_glossary
  merge_glossary-override_all defaults overrides =
      merge_from-override_all defaults (index_from t 0 [] defaults) overrides
        (index_from-Indexes defaults)

  override_all-append :
      (xs es fs : List Term) → override_all xs (es ++ fs) ≡ override_all (override_all xs es) fs
  override_all-append xs [] fs = refl
  override_all-append xs (e ∷ es) fs = override_all-append (override e xs) es fs

  -- Merging the entries of two files at once is to merge those of the first and then those of the
  -- second.
  pub merge_glossary-append :
      (defaults first second : List Term)
      → merge_glossary t defaults (first ++ second)
        ≡ merge_glossary t (merge_glossary t defaults first) second
  merge_glossary-append defaults first second =
      rw
        (
          merge_glossary-override_all defaults (first ++ second),
          merge_glossary-override_all defaults first,
          merge_glossary-override_all (override_all defaults first) second,
        )
        (override_all-append defaults first second)

  last_entry-append :
      (k : Str) (xs ys : List Term)
      → last_entry k (xs ++ ys)
        ≡ elim (last_entry k ys) [ some e ↦ some e | none ↦ last_entry k xs ]
  last_entry-append k [] ys = ground arith
  last_entry-append k (x ∷ xs) ys = ground (arith, last_entry-append k xs ys)

  last_entry-last_index :
      (k : Str) (xs : List Term) → last_index k xs ≡ none → last_entry k xs ≡ none
  last_entry-last_index k [] h = refl
  last_entry-last_index k (x ∷ xs) h = ground (arith, last_entry-last_index k xs)

  last_entry-set_term :
      (e : Term) (xs : List Term) (i : ℕ) (k : Str)
      → last_index (key_of t e) xs ≡ some i
      → last_entry k (set_term i e xs) ≡ (if key_of t e == k then some e else last_entry k xs)
  unfolding set_term
  last_entry-set_term e [] i k h = cc
  last_entry-set_term e (x ∷ xs) zero k h = ground (
    arith,
    text_eq.same_iff (key_of t x) (key_of t e),
    text_eq.same_iff (key_of t e) k,
    last_entry-last_index (key_of t e) xs,
  )
  last_entry-set_term e (x ∷ xs) (suc i) k h = ground (arith, last_entry-set_term e xs i k)

  last_entry-override :
      (k : Str) (e : Term) (xs : List Term)
      → last_entry k (override e xs) ≡ (if key_of t e == k then some e else last_entry k xs)
  last_entry-override k e xs = elim (Option-cases (last_index (key_of t e) xs)) [
    | inl new ↦ ground (arith, override_new e xs new, last_entry-append k xs (e ∷ []))
    | inr (i, found) ↦ rw (override, found) (last_entry-set_term e xs i k found)
  ]

  last_entry-override_all :
      (k : Str) (xs es : List Term) → last_entry k (override_all xs es) ≡ last_entry k (xs ++ es)
  last_entry-override_all k xs [] = sym (last_entry-append k xs [])
  last_entry-override_all k xs (e ∷ es) = ground (
    arith,
    last_entry-override_all k (override e xs) es,
    last_entry-append k (override e xs) es,
    last_entry-append k xs (e ∷ es),
    last_entry-override k e xs,
  )

  -- What a key stands for afterwards is what its last entry says in the overrides, and what it stood
  -- for before if they have none.
  pub last_entry-merge_glossary :
      (k : Str) (defaults overrides : List Term)
      → last_entry k (merge_glossary t defaults overrides) ≡ last_entry k (defaults ++ overrides)
  last_entry-merge_glossary k defaults overrides =
      rw (merge_glossary-override_all defaults overrides)
        (last_entry-override_all k defaults overrides)
