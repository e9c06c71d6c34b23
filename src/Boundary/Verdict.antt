-- ===== src/Boundary/Verdict.antt =====
-- When the verdict on a segment is sound.
use yeson_meet.Prelude.{
  true, false, [], ◌∷◌, ◌++◌, Option, none, some, text_eq, ◌≡◌, ◌≢◌, refl, length, drop, arith, ap,
  append-nil, ap₂, not, sym, text_beq_iff, ◌&&◌, ◌==◌, ◌∙◌,
}
use yeson_meet.Prelude.Text.{Str, CharTable, starts_with}
use yeson_meet.Boundary.{occurs_in, remove_first, without_own, sq, shows, classify_boundary}

starts_with-append : (s r : Str) → starts_with (s ++ r) s ≡ true
unfolding starts_with
starts_with-append [] [] = refl
starts_with-append [] (c ∷ r) = refl
starts_with-append (c ∷ s) r = ground (arith, starts_with-append s r)

starts_with_refl : (s : Str) → starts_with s s ≡ true
unfolding starts_with
starts_with_refl [] = refl
starts_with_refl (c ∷ s) = ground (arith, starts_with_refl s)

-- Only the empty text occurs in the empty one.
occurs_in-nil : (s : Str) → (not (s == []) && occurs_in s []) ≡ false
unfolding occurs_in starts_with
occurs_in-nil [] = refl
occurs_in-nil (c ∷ s) = refl

drop-append : (s r : Str) → drop (length s) (s ++ r) ≡ r
drop-append [] r = refl
drop-append (c ∷ s) r = drop-append s r

-- A text that starts with the own label keeps what comes after it.
without_own-append : (own r : Str) → without_own own (own ++ r) ≡ r
unfolding without_own remove_first
without_own-append [] r = refl
without_own-append (c ∷ own) r =
    ground (arith, starts_with-append (c ∷ own) r, drop-append (c ∷ own) r)

without_own_self : (own : Str) → without_own own own ≡ []
without_own_self own = ap (without_own own) (sym (append-nil own)) ∙ without_own-append own []

occurs_in_refl : (s : Str) → occurs_in s s ≡ true
unfolding occurs_in
occurs_in_refl [] = starts_with-append [] []
occurs_in_refl (c ∷ s) = ground (arith, starts_with_refl (c ∷ s))

module _ (t : CharTable) where
  shows-nothing : (label : Str) (neighbour : Option Str) → shows t label neighbour [] ≡ false
  unfolding shows
  shows-nothing label none = refl
  shows-nothing label (some n) = ground (arith, occurs_in-nil (sq t n))

  shows-itself : (label n : Str) → n ≢ label → sq t n ≢ [] → shows t label (some n) (sq t n) ≡ true
  unfolding shows
  shows-itself label n ne filled =
      ground (arith, occurs_in_refl (sq t n), text_beq_iff (sq t n) [], text_beq_iff n label)

  -- A frame on which nothing but the own label is read is never taken for one of a neighbour, also
  -- not for a neighbour whose label is a part of it.
  pub classify_boundary-own :
      (head_text tail_text label : Str) (prev next : Option Str)
      → sq t head_text ≡ sq t label
      → sq t tail_text ≡ sq t label
      → classify_boundary t head_text tail_text label prev next ≡ (false, false)
  unfolding classify_boundary
  classify_boundary-own head_text tail_text label prev next h k =
      let own = sq t label in
      rw (h, k, without_own_self own, shows-nothing label prev, shows-nothing label next) refl

  -- A frame on which the own label is read and then the one of the neighbour, when a label has
  -- letters or digits and the two differ, is taken for one of the neighbour.
  pub classify_boundary-overlap :
      (head_text tail_text label prev next : Str)
      → sq t head_text ≡ sq t label ++ sq t prev
      → sq t tail_text ≡ sq t label ++ sq t next
      → prev ≢ label
      → next ≢ label
      → sq t prev ≢ []
      → sq t next ≢ []
      → classify_boundary t head_text tail_text label (some prev) (some next) ≡ (true, true)
  unfolding classify_boundary
  classify_boundary-overlap head_text tail_text label prev next h k p n ps ns =
      let own = sq t label in
      rw (h, k, without_own-append own (sq t prev), without_own-append own (sq t next))
        (ap₂ (λ a b. (a, b)) (shows-itself label prev p ps) (shows-itself label next n ns))
