-- ===== src/Scan/Blocks/Plan.antt =====
-- apps/server/domain/video_captions/scene_scan_fp.py, `_resolve_unreadable_blocks`: the blocks and
-- their flips.
use yeson_meet.Prelude.{
  ℕ, ℕ_eq, All, All-append, Bool, Bool-cases, List, Option, [], ap, arith, false, get_elem?,
  if_both, if◌then◌else◌, inl, inr, nat_eq, nat_eq_iff, none, not, refl, some, subst, suc, sym,
  true, zero, ◌+◌, ◌-◌, ◌<◌, ◌∙◌, ◌∷◌, ◌≡◌, ◌≤◌,
}
use yeson_meet.Prelude.Dict.{get, put, get-put}
use yeson_meet.Prelude.Text.{Str, CharTable}
use yeson_meet.Scan.{Run}
use yeson_meet.Scan.Pass.{RunsTile}
use yeson_meet.Scan.Blocks.{
  Plan, blocks_from, closed, flip_between, flip_of, is_unreadable, opened, rebuild,
  resolve_unreadable_blocks, resolved,
}
use yeson_meet.Scan.Blocks.Tiling.{IsEntry, IsPlan, IsRest, IsRest-cons, rebuild-Tile}
use yeson_meet.Scan.Blocks.Flips.{
  same_run, flip_between-Between, no_entry, no_flip, no_run, same_pair, tile_next, tile_order,
}

module _ {ℓ} {F : Type ℓ} (t : CharTable) (delimiters : List Str) (read_frame : ℕ → Str)
    (fp_at : ℕ → F) (differ : F → F → ℕ) where
  abbrev pub readable : Run → Bool
  readable r = not (is_unreadable t delimiters read_frame fp_at differ r)

  -- A block starts with an unreadable run, and the run behind it, if there is one, is readable.
  abbrev pub IsBlock : List Run → ℕ × ℕ → Type 0
  IsBlock runs (bi, bj) =
      (bi ≤ bj)
      × ((r : Run) × (get_elem? runs bi ≡ some r) × (readable r ≡ false))
      × ((q : Run) → get_elem? runs (bj + 1) ≡ some q → readable q ≡ true)

  -- A block that is open at an index started before it, with an unreadable run.
  abbrev IsOpen : List Run → ℕ → Option ℕ → Type 0
  IsOpen runs i none = Unit
  IsOpen runs i (some s) =
      (s < i) × ((r : Run) × (get_elem? runs s ≡ some r) × (readable r ≡ false))

  closed-IsBlock :
      (runs : List Run) (i : ℕ) (block : Option ℕ)
      → IsOpen runs i block
      → ((q : Run) → get_elem? runs i ≡ some q → readable q ≡ true)
      → All (IsBlock runs) (closed block i)
  closed-IsBlock runs i none o h = tt
  closed-IsBlock runs i (some s) (lt, r) h =
      let back : (i - 1) + 1 ≡ i = omega arith in
      ((omega arith, r, (λ q at. h q (ap (get_elem? runs) (sym back) ∙ at))), tt)

  opened-IsOpen :
      (runs : List Run) (i : ℕ) (block : Option ℕ) (r : Run)
      → IsOpen runs i block
      → get_elem? runs i ≡ some r
      → readable r ≡ false
      → IsOpen runs (i + 1) (some (opened block i))
  opened-IsOpen runs i none r o at unread = (omega arith, (r, at, unread))
  opened-IsOpen runs i (some s) r (lt, first) at unread = (omega arith, first)

  blocks_from-IsBlock :
      (runs : List Run) (i : ℕ) (block : Option ℕ) (rs : List Run)
      → IsRest runs i rs
      → IsOpen runs i block
      → All (IsBlock runs) (blocks_from t delimiters read_frame fp_at differ i block rs)
  unfolding blocks_from
  blocks_from-IsBlock runs i block [] h o =
      closed-IsBlock runs i block o
        (λ q at. absurd (no_run (h 0 ∙ (ap (get_elem? runs) (omega arith) ∙ at))))
  blocks_from-IsBlock runs i block (r ∷ rs) h o =
      let here : get_elem? runs i ≡ some r = ap (get_elem? runs) (omega arith) ∙ sym (h 0) in
      elim (Bool-cases (is_unreadable t delimiters read_frame fp_at differ r)) [
        | inl unread ↦
            rw (unread, blocks_from)
              (blocks_from-IsBlock runs (i + 1) (some (opened block i)) rs
                (IsRest-cons runs i r rs h) (opened-IsOpen runs i block r o here (ap not unread)))
        | inr read ↦
            rw (read, blocks_from)
              (All-append (IsBlock runs) (closed block i)
                (blocks_from t delimiters read_frame fp_at differ (i + 1) none rs)
                (closed-IsBlock runs i block o
                  (λ q at. subst (λ y. readable y ≡ true) (same_run (sym here ∙ at)) (ap not read)))
                (blocks_from-IsBlock runs (i + 1) none rs (IsRest-cons runs i r rs h) tt))
      ]

  -- A flip needs a run in front, a run behind, and both ends of the block.
  flip_options :
      (po qo fo lo : Option Run) (x : ℕ)
      → elim po as (λ y. Option ℕ) [
        | none ↦ none
        | some p ↦ elim qo as (λ y. Option ℕ) [
          | none ↦ none
          | some q ↦ elim fo as (λ y. Option ℕ) [
            | none ↦ none
            | some first ↦ elim lo as (λ y. Option ℕ) [
              | none ↦ none
              | some last ↦
                  flip_between t delimiters read_frame fp_at differ p q first.start last.end
            ]
          ]
        ]
      ]
        ≡ some x
      → (p : Run) × (q : Run) × (first : Run) × (last : Run) × ((qo ≡ some q)
          × (fo ≡ some first)
          × (lo ≡ some last)
          × (flip_between t delimiters read_frame fp_at differ p q first.start last.end ≡ some x))
  flip_options none qo fo lo x h = absurd (no_flip h)
  flip_options (some p) none fo lo x h = absurd (no_flip h)
  flip_options (some p) (some q) none lo x h = absurd (no_flip h)
  flip_options (some p) (some q) (some f) none x h = absurd (no_flip h)
  flip_options (some p) (some q) (some f) (some l) x h = (p, q, f, l, (refl, refl, refl, h))

  flip_of-IsEntry :
      (a n : ℕ) (runs : List Run) (bi bj flip : ℕ)
      → RunsTile a n runs
      → IsBlock runs (bi, bj)
      → flip_of t delimiters read_frame fp_at differ runs bi bj ≡ some flip
      → IsEntry runs readable bi bj flip
  unfolding flip_of
  flip_of-IsEntry a n runs zero bj flip tile block h = absurd (no_flip h)
  flip_of-IsEntry a n runs (suc k) bj flip tile (le, (r, at, unread), behind) h =
      let found =
        flip_options (get_elem? runs k) (get_elem? runs (bj + 1)) (get_elem? runs (suc k))
          (get_elem? runs bj) flip h in
      let q = found.1 in
      let first = found.2 in
      let last = found.3 in
      let q_at = found.4.0 in
      let between =
        flip_between-Between t delimiters read_frame fp_at differ found.0 q first.start last.end
          flip (tile_order a n runs (suc k) bj first last tile le found.4.1 found.4.2) found.4.3 in
      let meets : last.end ≡ q.start =
        tile_next a n runs bj last q tile found.4.2 (ap (get_elem? runs) (omega arith) ∙ q_at) in
      record {
        first = first;
        behind = q;
        positive = omega arith;
        ordered = le;
        at_first = found.4.1;
        at_behind = q_at;
        first_unreadable = subst (λ y. readable y ≡ false) (same_run (sym at ∙ found.4.1)) unread;
        behind_readable = behind q q_at;
        after_start = between.0;
        before_end = omega (arith, between.1, meets);
      }

  put-IsPlan :
      (runs : List Run) (plan : Plan) (bi bj flip : ℕ)
      → IsPlan runs readable plan
      → IsEntry runs readable bi bj flip
      → IsPlan runs readable (put bi (bj, flip) plan)
  put-IsPlan runs plan bi bj flip p e bi' bj' flip' h =
      let now : (if nat_eq bi bi' then some (bj, flip) else get bi' plan) ≡ some (bj', flip') =
        sym (get-put bi bi' (bj, flip) plan) ∙ h in
      if_both (λ (o : Option (ℕ × ℕ)). o ≡ some (bj', flip') → IsEntry runs readable bi' bj' flip')
        (nat_eq bi bi')
        (λ same new.
          subst (λ (v : ℕ × ℕ). IsEntry runs readable bi' v.0 v.1) (same_pair new)
            (subst (λ k. IsEntry runs readable k bj flip) ((nat_eq_iff bi bi').0 same) e))
        (λ _ old. p bi' bj' flip' old) now

  -- The plan after one block.
  resolved_block :
      (runs : List Run) (plan : Plan) (bi bj : ℕ) (blocks : List (ℕ × ℕ)) (o : Option ℕ)
      → IsPlan runs readable plan
      → ((f : ℕ) → o ≡ some f → IsEntry runs readable bi bj f)
      → ((plan' : Plan)
          → IsPlan runs readable plan'
          → IsPlan runs readable (resolved t delimiters read_frame fp_at differ runs plan' blocks))
      → IsPlan runs readable (elim o as (λ y. Plan) [
        | none ↦ resolved t delimiters read_frame fp_at differ runs plan blocks
        | some flip ↦
            resolved t delimiters read_frame fp_at differ runs (put bi (bj, flip) plan) blocks
      ])
  resolved_block runs plan bi bj blocks none p e later = later plan p
  resolved_block runs plan bi bj blocks (some f) p e later =
      later (put bi (bj, f) plan) (put-IsPlan runs plan bi bj f p (e f refl))

  resolved-IsPlan :
      (a n : ℕ) (runs : List Run) (plan : Plan) (blocks : List (ℕ × ℕ))
      → RunsTile a n runs
      → IsPlan runs readable plan
      → All (IsBlock runs) blocks
      → IsPlan runs readable (resolved t delimiters read_frame fp_at differ runs plan blocks)
  unfolding resolved
  resolved-IsPlan a n runs plan [] tile p h = p
  resolved-IsPlan a n runs plan ((bi, bj) ∷ blocks) tile p h =
      resolved_block runs plan bi bj blocks
        (flip_of t delimiters read_frame fp_at differ runs bi bj) p
        (λ f found. flip_of-IsEntry a n runs bi bj f tile h.0 found)
        (λ plan' p'. resolved-IsPlan a n runs plan' blocks tile p' h.1)

  empty-IsPlan : (runs : List Run) → IsPlan runs readable []
  unfolding get
  empty-IsPlan runs bi bj flip h = absurd (no_entry h)

  -- The output for a plan, which leaves the runs as they are if it is empty.
  planned-Tile :
      (a n : ℕ) (runs : List Run) (plan : Plan)
      → RunsTile a n runs
      → IsPlan runs readable plan
      → RunsTile a n (elim plan as (λ y. List Run) [
        | [] ↦ runs
        | entry ∷ more ↦ rebuild (entry ∷ more) 0 0 none none runs
      ])
  planned-Tile a n runs [] tile p = tile
  planned-Tile a n runs (entry ∷ more) tile p =
      rebuild-Tile runs readable (entry ∷ more) 0 0 none none a a n runs p
        (λ j. ap (get_elem? runs) (omega arith)) tile (refl, refl, refl)

  -- Runs that follow one another from the first frame to the last, none of them empty, do so after the
  -- unreadable blocks between slates are given to their neighbours, whatever is read and however the
  -- fingerprints differ.
  pub resolve_unreadable_blocks-Tile :
      (a n : ℕ) (runs : List Run)
      → RunsTile a n runs
      → RunsTile a n (resolve_unreadable_blocks t delimiters read_frame fp_at differ runs)
  unfolding resolve_unreadable_blocks
  resolve_unreadable_blocks-Tile a n runs tile =
      planned-Tile a n runs
        (resolved t delimiters read_frame fp_at differ runs []
          (blocks_from t delimiters read_frame fp_at differ 0 none runs))
        tile
        (resolved-IsPlan a n runs [] (blocks_from t delimiters read_frame fp_at differ 0 none runs)
          tile (empty-IsPlan runs)
          (blocks_from-IsBlock runs 0 none runs (λ j. ap (get_elem? runs) (omega arith)) tt))
