-- ===== src/Live/Bus.antt =====
-- apps/server/ws/bus.py: `InMemoryBus`. A subscriber's `asyncio.Queue` is an identity with its items,
-- the oldest first; a set of queues is a list of them.
pub mod Delivery
use yeson_meet.Prelude.{
  ℕ_eq, ℕ, List, [], if◌then◌else◌, length, ltb, map, nat_eq, none, some, ◌++◌, ◌∷◌,
}
use yeson_meet.Prelude.Dict.{Dict, get, put, pop}

abbrev pub max_size : ℕ
max_size = 1000

pub record Queue (Payload : Type 0) : Type 0 where
  pub id : ℕ
  pub items : List Payload

-- The sets of queues, by session.
abbrev pub Bus : Type 0 → Type 0
Bus Payload = Dict ℕ (List (Queue Payload))

module _ {Payload : Type 0} where
  -- `self._queues[session_id]` of the defaultdict
  abbrev pub queues_of : ℕ → Bus Payload → List (Queue Payload)
  queues_of session bus = elim (get session bus) [ none ↦ [] | some qs ↦ qs ]

  -- The new queue, under an identity that is not in use.
  unfoldable pub subscribe : ℕ → ℕ → Bus Payload → Bus Payload
  subscribe session id bus =
      put session (record { id = id; items = [] } ∷ queues_of session bus) bus

  unfoldable pub without : ℕ → List (Queue Payload) → List (Queue Payload)
  without id [] = []
  without id (q ∷ qs) = if nat_eq q.id id then without id qs else q ∷ without id qs

  unfoldable pub unsubscribe : ℕ → ℕ → Bus Payload → Bus Payload
  unfolding without
  unsubscribe session id bus = elim (without id (queues_of session bus)) [
    | [] ↦ pop session bus
    | q ∷ qs ↦ put session (q ∷ qs) bus
  ]

  -- `put_nowait`; a full queue drops the payload.
  unfoldable pub offer : Payload → Queue Payload → Queue Payload
  offer payload q =
      if ltb (length q.items) max_size then record q { items = q.items ++ payload ∷ [] } else q

  unfoldable pub publish : ℕ → Payload → Bus Payload → Bus Payload
  unfolding offer
  publish session payload bus = elim (get session bus) [
    | none ↦ bus
    | some qs ↦ put session (map (offer payload) qs) bus
  ]

  unfoldable pub publish_all : ℕ → List Payload → Bus Payload → Bus Payload
  unfolding publish
  publish_all session [] bus = bus
  publish_all session (p ∷ ps) bus = publish_all session ps (publish session p bus)
