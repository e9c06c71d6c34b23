-- ===== src/Live/AudioStats.antt =====
-- apps/server/ws/audio_stats.py: the counters of the audio chunks of each meeting. Times are numbers
-- of milliseconds, read from the clock by the caller's argument.
pub mod Counting
use yeson_meet.Prelude.{
  ℕ, List, [], ◌∷◌, ◌++◌, Option, none, some, ℕ_eq, zero, suc, ◌+◌, ◌-◌, leb, length, if◌then◌else◌,
  ltb,
}
use yeson_meet.Prelude.Dict.{Dict, get, put, pop}
use yeson_meet.Prelude.Text.{Str}

pub record AudioStats : Type 0 where
  pub total_bytes : ℕ
  pub total_chunks : ℕ
  pub last_seq : Option ℕ
  pub started_at : Option ℕ
  pub last_chunk_at : Option ℕ
  pub stopped_at : Option ℕ
  pub stopped_reason : Option Str
  pub recent_chunk_times : List ℕ

-- `AudioStats()`
abbrev pub new_stats : AudioStats
new_stats = record {
  total_bytes = 0;
  total_chunks = 0;
  last_seq = none;
  started_at = none;
  last_chunk_at = none;
  stopped_at = none;
  stopped_reason = none;
  recent_chunk_times = [];
}

-- `_sessions`
abbrev pub AudioStatsRegistry : Type 0
AudioStatsRegistry = Dict ℕ AudioStats

abbrev pub max_recent : ℕ
max_recent = 200

-- An append to a deque of at most `max_recent` times: a full one loses its first.
unfoldable pub append_recent : ℕ → List ℕ → List ℕ
append_recent now [] = now ∷ []
append_recent now (t ∷ ts) =
    if ltb (length (t ∷ ts)) max_recent then (t ∷ ts) ++ now ∷ [] else ts ++ now ∷ []

-- `setdefault`, and then the entry changed in place.
unfoldable pub update : (AudioStats → AudioStats) → ℕ → AudioStatsRegistry → AudioStatsRegistry
update f session sessions = elim (get session sessions) [
  | none ↦ put session (f new_stats) sessions
  | some s ↦ put session (f s) sessions
]

unfoldable pub record_chunk : ℕ → ℕ → ℕ → AudioStatsRegistry → AudioStatsRegistry
unfolding update append_recent
record_chunk now session n_bytes =
    update
      (λ s. record s {
        total_bytes = s.total_bytes + n_bytes;
        total_chunks = s.total_chunks + 1;
        last_chunk_at = some now;
        recent_chunk_times = append_recent now s.recent_chunk_times;
      })
      session

unfoldable pub mark_started : ℕ → ℕ → AudioStatsRegistry → AudioStatsRegistry
unfolding update
mark_started session started_at = update (λ s. record s { started_at = some started_at }) session

unfoldable pub note_seq : ℕ → ℕ → AudioStatsRegistry → AudioStatsRegistry
unfolding update
note_seq session seq = update (λ s. record s { last_seq = some seq }) session

unfoldable pub mark_stopped : ℕ → ℕ → Option Str → AudioStatsRegistry → AudioStatsRegistry
unfolding update
mark_stopped now session reason =
    update (λ s. record s { stopped_at = some now; stopped_reason = reason }) session

unfoldable pub discard : ℕ → AudioStatsRegistry → AudioStatsRegistry
discard session sessions = pop session sessions

-- The chunks of the last second: `sum(1 for t in s._recent_chunk_times if t >= now - 1.0)`.
unfoldable pub chunks_since : ℕ → List ℕ → ℕ
chunks_since since [] = 0
chunks_since since (t ∷ ts) = (if leb since t then 1 else 0) + chunks_since since ts

pub record Snapshot : Type 0 where
  pub stats : AudioStats
  pub chunks_per_sec_1s : ℕ
  pub age_ms : Option ℕ

-- The code takes a last chunk at time 0 for none.
unfoldable pub age : ℕ → Option ℕ → Option ℕ
age now none = none
age now (some zero) = none
age now (some (suc t)) = some (now - suc t)

unfoldable pub snapshot : ℕ → ℕ → AudioStatsRegistry → Option Snapshot
unfolding chunks_since age
snapshot now session sessions = elim (get session sessions) [
  | none ↦ none
  | some s ↦ some (record {
    stats = s;
    chunks_per_sec_1s = chunks_since (now - 1000) s.recent_chunk_times;
    age_ms = age now s.last_chunk_at;
  })
]

pub data Call : Type 0 where
  records : ℕ → ℕ → ℕ → Call
  starts : ℕ → ℕ → Call
  notes : ℕ → ℕ → Call
  stops : ℕ → ℕ → Option Str → Call
  discards : ℕ → Call

unfoldable pub step : AudioStatsRegistry → Call → AudioStatsRegistry
unfolding record_chunk mark_started note_seq mark_stopped discard
step sessions (records now session n_bytes) = record_chunk now session n_bytes sessions
step sessions (starts session at) = mark_started session at sessions
step sessions (notes session seq) = note_seq session seq sessions
step sessions (stops now session reason) = mark_stopped now session reason sessions
step sessions (discards session) = discard session sessions

unfoldable pub run : AudioStatsRegistry → List Call → AudioStatsRegistry
unfolding step
run sessions [] = sessions
run sessions (c ∷ cs) = run (step sessions c) cs
