-- ===== src/Scan/Blocks/Flips.antt =====
-- apps/server/domain/video_captions/scene_scan_fp.py, `_resolve_unreadable_blocks`: where a flip can be.
use yeson_meet.Prelude.{
  ℕ, ℕ_eq, All, Bool, List, Option, [], ap, arith, get_elem?, if_both, if◌then◌else◌, max, min,
  none, some, subst, suc, sym, zero, ◌+◌, ◌-◌, ◌<◌, ◌==◌, ◌∙◌, ◌∷◌, ◌≡◌, ◌≤◌, text_eq,
}
use yeson_meet.Prelude.Text.{Str, CharTable}
use yeson_meet.Scan.{Run, Side, folded, is_next, is_prev}
use yeson_meet.Scan.Pass.{RunsTile}
use yeson_meet.Scan.Blocks.{
  narrowed, capped, first_flip_in, first_where, flip_between, nearer_next, probed, side_in,
}

first_where-between :
    (p : ℕ → Bool) (n f : ℕ) → (f ≤ first_where p n f) × (first_where p n f ≤ f + n)
unfolding first_where
first_where-between p zero f = (omega arith, omega arith)
first_where-between p (suc n) f = ground (arith, first_where-between p n (f + 1))

abbrev pub Between : ℕ → ℕ → ℕ → Type 0
Between s e x = (s ≤ x) × (x ≤ e)

narrowed-Between :
    (side : ℕ → Option Side) (s e : ℕ) (fs : List ℕ) (lo hi : ℕ)
    → All (λ f. (s ≤ f) × (f < e)) fs
    → Between s e lo
    → Between s e hi
    → Between s e (narrowed side fs lo hi).0 × Between s e (narrowed side fs lo hi).1
unfolding narrowed
narrowed-Between side s e [] lo hi h a b = (a, b)
narrowed-Between side s e (f ∷ fs) lo hi h a b =
    narrowed-Between side s e fs (if is_prev (side f) then max lo (f + 1) else lo)
      (if is_next (side f) then min hi f else hi) h.1
      (if_both (Between s e) (is_prev (side f))
        (λ _. (omega (arith, a.0), omega (arith, a.1, h.0.1))) (λ _. a))
      (if_both (Between s e) (is_next (side f))
        (λ _. (omega (arith, b.0, h.0.0), omega (arith, b.1))) (λ _. b))

capped-Between :
    (s e flip : ℕ) (bounds : ℕ × ℕ) (x : ℕ)
    → Between s e bounds.0
    → Between s e bounds.1
    → capped flip bounds ≡ some x
    → Between s e x
capped-Between s e flip (lo, hi) x a b h = ground (arith, a, b)

-- In runs that tile, a run ends where the next one starts, and behind the start of an earlier one.
pub no_run : {q : Run} → none ≡ some q → ⊥
no_run h = cc

pub no_flip : {x : ℕ} → none ≡ some x → ⊥
no_flip h = cc

pub no_entry : {x : ℕ × ℕ} → none ≡ some x → ⊥
no_entry h = cc

pub same_pair : {u v : ℕ × ℕ} → some u ≡ some v → u ≡ v
same_pair h = cc

pub same_run : {r q : Run} → some r ≡ some q → r ≡ q
same_run h = cc

pub tile_next :
    (a n : ℕ) (rs : List Run) (j : ℕ) (x q : Run)
    → RunsTile a n rs
    → get_elem? rs j ≡ some x
    → get_elem? rs (suc j) ≡ some q
    → x.end ≡ q.start
tile_next a n [] j x q t h k = cc
tile_next a n (r ∷ rs) (suc j) x q t h k = tile_next r.end n rs j x q t.2 h k
tile_next a n (r ∷ []) zero x q t h k = cc
tile_next a n (r ∷ s ∷ rs) zero x q t h k =
    ap (λ (y : Run). y.end) (sym (same_run h))
    ∙ (sym t.2.0 ∙ ap (λ (y : Run). y.start) (same_run k))

tile_from :
    (a n : ℕ) (rs : List Run) (j : ℕ) (x : Run)
    → RunsTile a n rs
    → get_elem? rs j ≡ some x
    → a < x.end
tile_from a n [] j x t h = cc
tile_from a n (r ∷ rs) zero x t h = subst (λ (y : Run). a < y.end) (same_run h) t.1
tile_from a n (r ∷ rs) (suc j) x t h = omega (arith, t.1, tile_from r.end n rs j x t.2 h)

pub tile_order :
    (a n : ℕ) (rs : List Run) (i j : ℕ) (f x : Run)
    → RunsTile a n rs
    → i ≤ j
    → get_elem? rs i ≡ some f
    → get_elem? rs j ≡ some x
    → f.start < x.end
tile_order a n [] i j f x t le h k = cc
tile_order a n (r ∷ rs) zero j f x t le h k =
    let from : f.start ≡ a = ap (λ (y : Run). y.start) (sym (same_run h)) ∙ t.0 in
    omega (arith, from, tile_from a n (r ∷ rs) j x t k)
tile_order a n (r ∷ rs) (suc i) zero f x t le h k = absurd (omega arith)
tile_order a n (r ∷ rs) (suc i) (suc j) f x t le h k =
    tile_order r.end n rs i j f x t.2 (omega arith) h k

module _ {ℓ} {F : Type ℓ} (t : CharTable) (delimiters : List Str) (read_frame : ℕ → Str)
    (fp_at : ℕ → F) (differ : F → F → ℕ) where
  pub flip_between-Between :
      (p q : Run) (s e x : ℕ)
      → s < e
      → flip_between t delimiters read_frame fp_at differ p q s e ≡ some x
      → Between s e x
  unfolding flip_between
  flip_between-Between p q s e x lt h =
      let flip = first_flip_in t delimiters read_frame fp_at differ p q s e in
      let found =
        first_where-between (nearer_next t delimiters read_frame fp_at differ p q) (e - s) s in
      let bounds =
        narrowed-Between (side_in t delimiters read_frame fp_at differ p q) s e
          (probed t delimiters read_frame fp_at differ s e flip) s e
          (
            (omega arith, omega arith),
            (
              (omega arith, omega arith),
              (
                (omega (arith, found.0, found.1), omega (arith, found.0, found.1)),
                ((omega (arith, found.0, found.1), omega (arith, found.0, found.1)), tt),
              ),
            ),
          )
          (omega arith, omega arith) (omega arith, omega arith) in
      if_both (λ (o : Option ℕ). o ≡ some x → Between s e x)
        (folded t delimiters p.text == folded t delimiters q.text) (λ _ none_some. cc)
        (λ _ some_x. capped-Between s e flip _ x bounds.0 bounds.1 some_x) h
