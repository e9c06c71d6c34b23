-- ===== src/Glossary/Loading.antt =====
-- apps/server/ai/glossary.py: the cache of the loaded terms, keyed by the times of the files.
use yeson_meet.Prelude.{
  text_eq, ℕ, All, Bool-cases, List, Option, [], ap, ap₂, arith, inl, inr, map, nat_eq_iff, none,
  refl, some, true, ◌++◌, ◌∷◌, ◌≡◌, sym, ◌∙◌,
}
use yeson_meet.Prelude.Text.{Str, CharTable}
use yeson_meet.Glossary.{
  Term, Cache, CacheKey, Files, key_of_files, load, merge_glossary, parse_glossary_file, read_chain,
  same_key,
}

-- A sequence of loads in one scope, from an empty slot, with what the files are at each.
abbrev pub load_all : CharTable → List Term → Option Cache → List Files → List (List Term)
load_all t defaults cache [] = []
load_all t defaults cache (files ∷ later) =
    (load t defaults cache files).0 ∷ load_all t defaults (load t defaults cache files).1 later

same_key-path : (k l : CacheKey) → same_key k l ≡ true → k ≡ l
unfolding same_key
same_key-path [] [] h = refl
same_key-path [] (y ∷ l) h = ground arith
same_key-path (x ∷ k) [] h = ground arith
same_key-path ((p, none) ∷ k) ((q, none) ∷ l) h =
    ground (arith, text_eq.same_iff p q, same_key-path k l)
same_key-path ((p, none) ∷ k) ((q, some n) ∷ l) h = ground arith
same_key-path ((p, some m) ∷ k) ((q, none) ∷ l) h = ground arith
same_key-path ((p, some m) ∷ k) ((q, some n) ∷ l) h =
    ground (arith, text_eq.same_iff p q, nat_eq_iff m n, same_key-path k l)

module _ (t : CharTable) (content : Str → ℕ → Str) where
  -- What a file holds is decided by its path and its time.
  abbrev pub IsStamped : Files → Type 0
  IsStamped [] = Unit
  IsStamped ((path, none) ∷ fs) = IsStamped fs
  IsStamped ((path, some f) ∷ fs) = (f.text ≡ content path f.mtime) × IsStamped fs

  -- The entries that belong to a key.
  abbrev chain_of : CacheKey → List Term
  chain_of [] = []
  chain_of ((path, none) ∷ k) = chain_of k
  chain_of ((path, some m) ∷ k) = parse_glossary_file t (content path m) ++ chain_of k

  read_chain-chain_of : (fs : Files) → IsStamped fs → read_chain t fs ≡ chain_of (key_of_files fs)
  unfolding read_chain key_of_files
  read_chain-chain_of [] h = refl
  read_chain-chain_of ((path, none) ∷ fs) h = read_chain-chain_of fs h
  read_chain-chain_of ((path, some f) ∷ fs) h =
      ap₂ ◌++◌ (ap (parse_glossary_file t) h.0) (read_chain-chain_of fs h.1)

  module _ (defaults : List Term) where
    -- The terms in the slot are those of its key.
    abbrev IsCoherent : Option Cache → Type 0
    IsCoherent none = Unit
    IsCoherent (some c) = c.terms ≡ merge_glossary t defaults (chain_of c.key)

    load_step :
        (cache : Option Cache) (fs : Files)
        → IsCoherent cache
        → IsStamped fs
        → ((load t defaults cache fs).0 ≡ merge_glossary t defaults (read_chain t fs))
          × IsCoherent (load t defaults cache fs).1
    unfolding load
    load_step none fs h s = (refl, ap (merge_glossary t defaults) (read_chain-chain_of fs s))
    load_step (some c) fs h s = elim (Bool-cases (same_key c.key (key_of_files fs))) [
      | inl hit ↦
          rw (hit, IsCoherent)
            (
              h
                  ∙ ap (merge_glossary t defaults) (
                      ap chain_of (same_key-path c.key (key_of_files fs) hit)
                      ∙ sym (read_chain-chain_of fs s)),
              h,
            )
      | inr miss ↦
          rw (miss, IsCoherent) (refl, ap (merge_glossary t defaults) (read_chain-chain_of fs s))
    ]

    load_all-merge :
        (cache : Option Cache) (history : List Files)
        → IsCoherent cache
        → All IsStamped history
        → load_all t defaults cache history
          ≡ map (λ fs. merge_glossary t defaults (read_chain t fs)) history
    load_all-merge cache [] h s = refl
    load_all-merge cache (fs ∷ later) h s =
        ap₂ ◌∷◌ (load_step cache fs h s.0).0
          (load_all-merge (load t defaults cache fs).1 later (load_step cache fs h s.0).1 s.1)

  -- Loading through the cache gives, at every call of a sequence, the terms of the files as they are
  -- then, if a file whose time is unchanged has not changed.
  pub load-merge :
      (defaults : List Term) (history : List Files)
      → All IsStamped history
      → load_all t defaults none history
        ≡ map (λ fs. merge_glossary t defaults (read_chain t fs)) history
  load-merge defaults history = load_all-merge defaults none history tt
