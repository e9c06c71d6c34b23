-- ===== src/Scan/Blocks/Tiling.antt =====
-- apps/server/domain/video_captions/scene_scan_fp.py, `_resolve_unreadable_blocks`: the output.
use yeson_meet.Prelude.{
  ℕ, ℕ_eq, Bool, List, Option, Option-cases, [], ap, arith, false, get_elem?, inl, inr, none, some,
  suc, sym, true, zero, ◌+◌, ◌<◌, ◌∙◌, ◌∷◌, ◌≡◌, ◌≤◌, refl, subst, if_both, ltb, not_ltb→le, ◌-◌,
}
use yeson_meet.Prelude.Dict.{get}
use yeson_meet.Scan.{Run}
use yeson_meet.Scan.Pass.{RunsTile}
use yeson_meet.Scan.Blocks.{Plan, rebuild, placed}

-- What a plan says of a block: its first and its last run, with the run behind it, and the flip in the
-- frames of the block.
pub record IsEntry (runs : List Run) (readable : Run → Bool) (bi bj flip : ℕ) : Type 0 where
  pub first : Run
  pub behind : Run
  pub positive : 0 < bi
  pub ordered : bi ≤ bj
  pub at_first : get_elem? runs bi ≡ some first
  pub at_behind : get_elem? runs (bj + 1) ≡ some behind
  pub first_unreadable : readable first ≡ false
  pub behind_readable : readable behind ≡ true
  pub after_start : first.start ≤ flip
  pub before_end : flip ≤ behind.start

abbrev pub IsPlan : List Run → (Run → Bool) → Plan → Type 0
IsPlan runs readable plan =
    (bi bj flip : ℕ) → get bi plan ≡ some (bj, flip) → IsEntry runs readable bi bj flip

-- The runs from an index on.
abbrev pub IsRest : List Run → ℕ → List Run → Type 0
IsRest runs i rs = (j : ℕ) → get_elem? rs j ≡ get_elem? runs (i + j)

pub IsRest-cons :
    (runs : List Run) (i : ℕ) (r : Run) (rs : List Run)
    → IsRest runs i (r ∷ rs)
    → IsRest runs (i + 1) rs
IsRest-cons runs i r rs h j =
    let same : i + suc j ≡ (i + 1) + j = omega arith in h (suc j) ∙ ap (get_elem? runs) same

module _ (runs : List Run) (readable : Run → Bool) (plan : Plan) where
  some_differ : (p q : Run) → some p ≡ some q → readable p ≡ false → readable q ≡ true → ⊥
  some_differ p q same h k = ground arith

  -- The run behind a block starts no block.
  behind_free :
      (bi bj flip : ℕ)
      → IsPlan runs readable plan
      → IsEntry runs readable bi bj flip
      → get (bj + 1) plan ≡ none
  behind_free bi bj flip h e = elim (Option-cases (get (bj + 1) plan)) [
    | inl free ↦ free
    | inr ((bj', flip'), found) ↦
        let other = h (bj + 1) bj' flip' found in
        absurd (
          some_differ other.first e.behind (sym other.at_first ∙ e.at_behind) other.first_unreadable
            e.behind_readable)
  ]

  -- The output so far ends where the rest begins; or the rest of a block is to skip.
  abbrev pub Stage : ℕ → ℕ → Option ℕ → Option Run → ℕ → ℕ → List Run → Type 0
  Stage i skip none none from c rs = (skip ≡ 0) × (i ≡ 0) × (from ≡ c)
  Stage i skip none (some l) from c rs =
      (skip ≡ 0) × (l.start ≡ from) × (from < l.end) × (l.end ≡ c)
  Stage i skip (some flip) none from c rs = ⊥
  Stage i skip (some flip) (some l) from c rs =
      (l.start ≡ from)
      × (from < l.end)
      × (l.end ≡ flip)
      × ((q : Run) × (get_elem? rs skip ≡ some q) × (flip ≤ q.start))
      × (get (i + skip) plan ≡ none)

  starts_by : (r q : Run) (flip : ℕ) → some r ≡ some q → q.start ≤ flip → r.start ≤ flip
  starts_by r q flip same h =
      subst (λ (o : Option Run). elim o [ none ↦ Unit | some x ↦ x.start ≤ flip ]) (sym same) h

  pub rebuild-Tile :
      (i skip : ℕ) (over : Option ℕ) (last : Option Run) (from c n : ℕ) (rs : List Run)
      → IsPlan runs readable plan
      → IsRest runs i rs
      → RunsTile c n rs
      → Stage i skip over last from c rs
      → RunsTile from n (rebuild plan i skip over last rs)
  unfolding rebuild
  rebuild-Tile i skip none none from c n [] p h tile (zero_skip, at_start, same) = same ∙ tile
  rebuild-Tile i skip none (some l) from c n [] p h tile (zero_skip, st, lt, en) =
      (st, lt, en ∙ tile)
  rebuild-Tile i skip (some flip) none from c n [] p h tile stage = absurd stage
  rebuild-Tile i skip (some flip) (some l) from c n [] p h tile (st, lt, en, (q, e, le), free) = cc
  rebuild-Tile i (suc skip) none none from c n (r ∷ rs) p h tile (zero_skip, at_start, same) =
      absurd (omega (arith, zero_skip))
  rebuild-Tile i (suc skip) none (some l) from c n (r ∷ rs) p h tile (zero_skip, st, lt, en) =
      absurd (omega (arith, zero_skip))
  rebuild-Tile i (suc skip) (some flip) none from c n (r ∷ rs) p h tile stage = absurd stage
  rebuild-Tile i (suc skip) (some flip) (some l) from c n (r ∷ rs) p h (at, pos, tile)
        (st, lt, en, (q, e, le), free) =
      let same : i + suc skip ≡ (i + 1) + skip = omega arith in
      rebuild-Tile (i + 1) skip (some flip) (some l) from r.end n rs p (IsRest-cons runs i r rs h)
        tile (st, lt, en, (q, e, le), subst (λ k. get k plan ≡ none) same free)
  rebuild-Tile i zero none none from c n (r ∷ rs) p h (at, pos, tile) (zero_skip, at_start, same) =
      elim (Option-cases (get i plan)) [
        | inl free ↦
            rw (free, rebuild)
              (rebuild-Tile (i + 1) zero none (some r) from r.end n rs p (IsRest-cons runs i r rs h)
                tile (refl, at ∙ sym same, omega (arith, same, pos), refl))
        | inr ((bj, flip), found) ↦
            let entry = p i bj flip found in absurd (omega (arith, entry.positive, at_start))
      ]
  rebuild-Tile i zero none (some l) from c n (r ∷ rs) p h (at, pos, tile) (zero_skip, st, lt, en) =
      elim (Option-cases (get i plan)) [
        | inl free ↦
            rw (free, rebuild)
              (
                st,
                lt,
                rebuild-Tile (i + 1) zero none (some r) l.end r.end n rs p
                    (IsRest-cons runs i r rs h) tile
                    (refl, at ∙ sym en, omega (arith, en, pos), refl),
              )
        | inr ((bj, flip), found) ↦
            let e = p i bj flip found in
            let to : (i + 1) + (bj - i) ≡ bj + 1 = omega (arith, e.ordered) in
            let begins : r.start ≤ flip =
              starts_by r e.first flip (h 0 ∙ (ap (get_elem? runs) (omega arith) ∙ e.at_first))
                e.after_start in
            let q_at : get_elem? rs (bj - i) ≡ some e.behind =
              IsRest-cons runs i r rs h (bj - i) ∙ (ap (get_elem? runs) to ∙ e.at_behind) in
            let free : get ((i + 1) + (bj - i)) plan ≡ none =
              subst (λ k. get k plan ≡ none) (sym to) (behind_free i bj flip p e) in
            rw (found, rebuild)
              (if_both (λ o. RunsTile from n (rebuild plan (i + 1) (bj - i) (some flip) o rs))
                (ltb r.start flip)
                (λ later.
                  rebuild-Tile (i + 1) (bj - i) (some flip) (some (record l { end = flip })) from
                    r.end n rs p (IsRest-cons runs i r rs h) tile
                    (
                      st,
                      omega (arith, lt, en, at, begins),
                      refl,
                      (e.behind, q_at, e.before_end),
                      free,
                    ))
                (λ stays.
                  rebuild-Tile (i + 1) (bj - i) (some flip) (some l) from r.end n rs p
                    (IsRest-cons runs i r rs h) tile
                    (
                      st,
                      lt,
                      omega (arith, en, at, begins, not_ltb→le r.start flip stays),
                      (e.behind, q_at, e.before_end),
                      free,
                    )))
      ]
  rebuild-Tile i zero (some flip) none from c n (r ∷ rs) p h tile stage = absurd stage
  rebuild-Tile i zero (some flip) (some l) from c n (r ∷ rs) p h (at, pos, tile)
        (st, lt, en, (q, e, le), free) =
      let here : i + 0 ≡ i = omega arith in
      let begins : flip ≤ r.start =
        subst (λ (o : Option Run). elim o [ none ↦ Unit | some x ↦ flip ≤ x.start ]) (sym e) le in
      rw (subst (λ k. get k plan ≡ none) here free, rebuild)
        (
          st,
          lt,
          rebuild-Tile (i + 1) zero none (some (placed (some flip) r)) l.end r.end n rs p
              (IsRest-cons runs i r rs h) tile
              (refl, sym en, omega (arith, en, begins, at, pos), refl),
        )
