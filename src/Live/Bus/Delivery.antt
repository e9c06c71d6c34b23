-- ===== src/Live/Bus/Delivery.antt =====
-- What reaches a subscriber.
use yeson_meet.Prelude.{
  ℕ_eq, ℕ, All, List, [], ap, arith, length, length-append, map, refl, suc, take, zero, ◌++◌, ◌∷◌,
  ◌≡◌, ◌≤◌, Bool-cases, append-nil, append_assoc, ap₂, if◌then◌else◌, inl, inr, ltb, ltb→lt, nat_eq,
  not_ltb→le, some, sym, ◌∙◌, length-take_le,
}
use yeson_meet.Prelude.Dict.{get, get-beq, get-put, put}
use yeson_meet.Live.Bus.{Queue, max_size, offer, Bus, publish_all, publish}

module _ {Payload : Type 0} where
  -- A queue after some payloads: what it had and they, cut off at the size.
  abbrev pub filled : List Payload → Queue Payload → Queue Payload
  filled ps q = record q { items = take max_size (q.items ++ ps) }

  -- No queue is over its size.
  abbrev pub AllFit : List (Queue Payload) → Type 0
  AllFit qs = All (λ q. length q.items ≤ max_size) qs

  take-take-append : (n : ℕ) (xs ys : List Payload) → take n (take n xs ++ ys) ≡ take n (xs ++ ys)
  take-take-append zero xs ys = refl
  take-take-append (suc n) [] ys = refl
  take-take-append (suc n) (x ∷ xs) ys = ap (◌∷◌ x) (take-take-append n xs ys)

  take_all : (n : ℕ) (xs : List Payload) → length xs ≤ n → take n xs ≡ xs
  take_all zero [] le = refl
  take_all zero (x ∷ xs) le = absurd (omega arith)
  take_all (suc n) [] le = refl
  take_all (suc n) (x ∷ xs) le = ap (◌∷◌ x) (take_all n xs (omega arith))

  take_full : (n : ℕ) (xs ys : List Payload) → length xs ≡ n → take n (xs ++ ys) ≡ xs
  take_full zero [] ys e = refl
  take_full zero (x ∷ xs) ys e = absurd (omega arith)
  take_full (suc n) [] ys e = absurd (omega arith)
  take_full (suc n) (x ∷ xs) ys e = ap (◌∷◌ x) (take_full n xs ys (omega arith))

  with_items : Queue Payload → List Payload → Queue Payload
  with_items q xs = record q { items = xs }

  offer-eq-filled :
      (p : Payload) (q : Queue Payload) → length q.items ≤ max_size → offer p q ≡ filled (p ∷ []) q
  unfolding offer with_items
  offer-eq-filled p q le = elim (Bool-cases (ltb (length q.items) max_size)) [
    | inl room ↦
        rw (room, offer)
          (ap (with_items q) (
            sym (
              take_all max_size (q.items ++ p ∷ [])
                (omega (arith, length-append q.items (p ∷ []), ltb→lt _ _ room)))))
    | inr full ↦
        rw (full, offer)
          (ap (with_items q)
            (sym (take_full max_size q.items (p ∷ []) (omega (arith, not_ltb→le _ _ full)))))
  ]

  filled-filled :
      (p : Payload) (ps : List Payload) (q : Queue Payload)
      → filled ps (filled (p ∷ []) q) ≡ filled (p ∷ ps) q
  unfolding with_items
  filled-filled p ps q = ap (with_items q) (
      take-take-append max_size (q.items ++ p ∷ []) ps
      ∙ ap (take max_size) (append_assoc q.items (p ∷ []) ps))

  map-offer :
      (p : Payload) (ps : List Payload) (qs : List (Queue Payload))
      → AllFit qs
      → (map (filled ps) (map (offer p) qs) ≡ map (filled (p ∷ ps)) qs) × AllFit (map (offer p) qs)
  map-offer p ps [] fit = (refl, tt)
  map-offer p ps (q ∷ qs) fit =
      let (same, fit') = map-offer p ps qs fit.1 in
      let one = offer-eq-filled p q fit.0 in
      (
        ap₂ ◌∷◌ (ap (filled ps) one ∙ filled-filled p ps q) same,
        (rw one (length-take_le max_size (q.items ++ p ∷ [])), fit'),
      )

  map-filled_nil : (qs : List (Queue Payload)) → AllFit qs → map (filled []) qs ≡ qs
  unfolding with_items
  map-filled_nil [] fit = refl
  map-filled_nil (q ∷ qs) fit =
      ap₂ ◌∷◌ (ap (with_items q) (rw append-nil (take_all max_size q.items fit.0)))
        (map-filled_nil qs fit.1)

  publish_at :
      (session : ℕ) (p : Payload) (bus : Bus Payload) (qs : List (Queue Payload))
      → get session bus ≡ some qs
      → publish session p bus ≡ put session (map (offer p) qs) bus
  unfolding publish
  publish_at session p bus qs at = rw (at, publish)

  get-put_self :
      (session : ℕ) (qs : List (Queue Payload)) (bus : Bus Payload)
      → get session (put session qs bus) ≡ some qs
  get-put_self session qs bus = ground (arith, get-put session session qs bus)

  -- After payloads published to a session, each of its subscribers has what it had and they, in
  -- order, cut off at the size of the queue: only an overflow loses payloads, and it loses the latest.
  -- The subscribers of other sessions are as they were.
  pub get-publish_all :
      (session other : ℕ) (ps : List Payload) (bus : Bus Payload) (qs : List (Queue Payload))
      → get session bus ≡ some qs
      → AllFit qs
      → get other (publish_all session ps bus)
        ≡ (if nat_eq session other then some (map (filled ps) qs) else get other bus)
  unfolding publish_all
  get-publish_all session other [] bus qs at fit =
      ground (arith, map-filled_nil qs fit, get-beq session other bus)
  get-publish_all session other (p ∷ ps) bus qs at fit =
      let (same, fit') = map-offer p ps qs fit in
      let bus' = put session (map (offer p) qs) bus in
      let step : publish session p bus ≡ bus' = publish_at session p bus qs at in
      let here : get session bus' ≡ some (map (offer p) qs) =
        get-put_self session (map (offer p) qs) bus in
      rw (step, get-publish_all session other ps bus' (map (offer p) qs) here fit', same)
        (ground (arith, get-put session other (map (offer p) qs) bus))
