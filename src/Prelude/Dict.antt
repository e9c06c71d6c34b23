-- ===== src/Prelude/Dict.antt =====
-- Python's `dict`: an association list in insertion order. An assignment to a key that is there
-- keeps its place, a new key goes to the end.
use Prim.Native.Nat.{◌+◌, ◌≤◌}
use mathlib.Core.Path.{◌≡◌, refl, ap}
use mathlib.Core.Bool.{true, false}
use mathlib.Core.List.{List, [], ◌∷◌}
use mathlib.Core.Option.{Option, none, some}
use native.Mathlib.Omega.{arith}
use yeson_meet.Prelude.Tests.{if◌then◌else◌}
use yeson_meet.Prelude.Lists.{length}
use yeson_meet.Prelude.Equality.{Keyable, ◌==◌}

abbrev pub Dict {ℓ κ} : Type ℓ → Type κ → Type (ℓ ⊔ κ)
Dict K V = List (K × V)

module _ {ℓ κ} {K : Type ℓ} {V : Type κ} ⦃e : Keyable K⦄ where
  -- d.get(k)
  unfoldable pub get : K → Dict K V → Option V
  get k [] = none
  get k ((j, v) ∷ d) = if j == k then some v else get k d

  -- d[k] = v
  unfoldable pub put : K → V → Dict K V → Dict K V
  put k v [] = (k, v) ∷ []
  put k v ((j, w) ∷ d) = if j == k then (j, v) ∷ d else (j, w) ∷ put k v d

  -- d.pop(k, None), del d[k]
  unfoldable pub pop : K → Dict K V → Dict K V
  pop k [] = []
  pop k ((j, w) ∷ d) = if j == k then d else (j, w) ∷ pop k d

  pub get-put :
      (k j : K) (v : V) (d : Dict K V) → get j (put k v d) ≡ (if k == j then some v else get j d)
  unfolding get put
  get-put k j v [] = refl
  get-put k j v ((i, w) ∷ d) =
      ground (arith, e.same_iff k j, e.same_iff i k, e.same_iff i j, get-put k j v d)

  -- Keys that compare equal have one value.
  pub get-beq : (k j : K) (d : Dict K V) → (k == j) ≡ true → get k d ≡ get j d
  get-beq k j d h = ap (λ i. get i d) ((e.same_iff k j).0 h)

  pub get-pop_ne : (k j : K) (d : Dict K V) → (k == j) ≡ false → get j (pop k d) ≡ get j d
  unfolding get pop
  get-pop_ne k j [] h = refl
  get-pop_ne k j ((i, w) ∷ d) h =
      ground (arith, e.same_iff k j, e.same_iff i k, e.same_iff i j, get-pop_ne k j d h)

  -- Each key stands once.
  abbrev pub IsDistinct : Dict K V → Type κ
  IsDistinct [] = Unit
  IsDistinct ((k, v) ∷ d) = (get k d ≡ none) × IsDistinct d

  pub put-IsDistinct : (k : K) (v : V) (d : Dict K V) → IsDistinct d → IsDistinct (put k v d)
  unfolding put get
  put-IsDistinct k v [] h = (refl, tt)
  put-IsDistinct k v ((j, w) ∷ d) h =
      ground (arith, get-put k j v d, e.same_iff j k, e.same_iff k j, put-IsDistinct k v d h.1)

  pub pop-IsDistinct : (k : K) (d : Dict K V) → IsDistinct d → IsDistinct (pop k d)
  unfolding pop
  pop-IsDistinct k [] h = tt
  pop-IsDistinct k ((j, w) ∷ d) h =
      ground (arith, get-pop_ne k j d, e.same_iff j k, e.same_iff k j, pop-IsDistinct k d h.1)

  pub get-pop :
      (k j : K) (d : Dict K V) → IsDistinct d → get j (pop k d) ≡ (if k == j then none else get j d)
  unfolding get pop
  get-pop k j [] h = ground arith
  get-pop k j ((i, w) ∷ d) h =
      ground (arith, e.same_iff k j, e.same_iff i k, e.same_iff i j, get-pop k j d h.1)

  pub length-put : (k : K) (v : V) (d : Dict K V) → length (put k v d) ≤ length d + 1
  unfolding put
  length-put k v [] = omega arith
  length-put k v ((j, w) ∷ d) = ground (arith, length-put k v d)

  pub length-put_old :
      (k : K) (v w : V) (d : Dict K V) → get k d ≡ some w → length (put k v d) ≡ length d
  unfolding put get
  length-put_old k v w [] h = cc
  length-put_old k v w ((j, u) ∷ d) h = ground (arith, length-put_old k v w d)

  pub length-pop_le : (k : K) (d : Dict K V) → length (pop k d) ≤ length d
  unfolding pop
  length-pop_le k [] = omega arith
  length-pop_le k ((j, w) ∷ d) = ground (arith, length-pop_le k d)

  pub length-pop :
      (k : K) (w : V) (d : Dict K V) → get k d ≡ some w → length (pop k d) + 1 ≡ length d
  unfolding pop get
  length-pop k w [] h = cc
  length-pop k w ((j, u) ∷ d) h = ground (arith, length-pop k w d)
