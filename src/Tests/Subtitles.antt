-- ===== src/Tests/Subtitles.antt =====
-- The subtitles and the audio of a meeting.
use yeson_meet.Prelude.{
  ℕ, true, false, List, [], ◌∷◌, some, ℕ_eq, nat_eq, ◌≡◌, ◌≢◌, ◌<◌, ◌+◌, ◌-◌, All, map, length,
  if◌then◌else◌, refl, arith, ◌++◌,
}
use yeson_meet.Prelude.Dict.{get, put}
use yeson_meet.Live.Normalizer.{Utterance, new_normalizer, normalize, normalize_all}
use yeson_meet.Live.Normalizer.Order.{normalize_fresh}
use yeson_meet.Live.Bus.{Queue, Bus, publish_all}
use yeson_meet.Live.Bus.Delivery.{filled, get-publish_all}
use yeson_meet.Live.Session.{AudioLiveSession, push_all}
use yeson_meet.Live.Session.Audio.{latest, audio, push_all_lem}

abbrev said : ℕ → ℕ → Utterance
said provider_segment seq = record { provider_segment = provider_segment; seq = seq }

abbrev before : List Utterance
before = said 0 1 ∷ said 0 2 ∷ []

last : (normalize_all (new_normalizer 7) [] before).0.last_segment ≡ 0
unfolding normalize_all new_normalizer normalize get put
last = refl

reconnected :
    (said 1 1).provider_segment ≢ (normalize_all (new_normalizer 7) [] before).0.last_segment
reconnected e = omega (arith, e, last)

normalize_fresh_example :
    All
      (λ a. a < (normalize (normalize_all (new_normalizer 7) [] before).0 (said 1 1)).1)
      (normalize_all (new_normalizer 7) [] before).1
    × (7 < (normalize (normalize_all (new_normalizer 7) [] before).0 (said 1 1)).1)
normalize_fresh_example = normalize_fresh 7 before (said 1 1) (omega arith) reconnected

abbrev viewers : List (Queue ℕ)
viewers = record { id = 1; items = [] } ∷ record { id = 2; items = 5 ∷ [] } ∷ []

abbrev bus : Bus ℕ
bus = (1, viewers) ∷ (2, record { id = 3; items = [] } ∷ []) ∷ []

found : get 1 bus ≡ some viewers
unfolding get
found = refl

get-publish_all_example :
    get 1 (publish_all 1 (8 ∷ 9 ∷ []) bus)
    ≡ (if nat_eq 1 1 then some (map (filled (8 ∷ 9 ∷ [])) viewers) else get 1 bus)
get-publish_all_example = get-publish_all 1 1 (8 ∷ 9 ∷ []) bus viewers found (ground arith)

abbrev session : AudioLiveSession ℕ
session = record {
  capacity = 2;
  queue = some 1 ∷ [];
  running = true;
  stopping = false;
  dropped_chunks = 0;
  next_drop_log_at = 1;
}

push_all_lem_example :
    (s : AudioLiveSession ℕ) × (push_all (2 ∷ 3 ∷ 4 ∷ []) session ≡ some s)
    × (s.queue ≡ latest 2 (session.queue ++ audio (2 ∷ 3 ∷ 4 ∷ [])))
    × (s.dropped_chunks ≡ 0 + (length (session.queue ++ audio (2 ∷ 3 ∷ 4 ∷ [])) - 2))
push_all_lem_example = push_all_lem (2 ∷ 3 ∷ 4 ∷ []) session refl (omega arith) (omega arith)
