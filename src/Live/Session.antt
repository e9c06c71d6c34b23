-- ===== src/Live/Session.antt =====
-- apps/server/ai/live_session.py: `AudioLiveSession`, the lossy queue of audio chunks in front of the
-- provider, and the reconnect loop. Of the background task it matters whether it runs; the queue holds
-- the chunks, the oldest first, and `none` for the end of the stream.
pub mod Audio
use yeson_meet.Prelude.{
  ℕ, Bool, List, Option, [], drop, false, get_elem?, if◌then◌else◌, leb, length, ltb, max, min,
  none, not, some, true, ◌++◌, ◌+◌, ◌-◌, ◌∷◌,
}

abbrev pub drop_log_every : ℕ
drop_log_every = 50

pub record AudioLiveSession (Chunk : Type 0) : Type 0 where
  pub capacity : ℕ
  pub queue : List (Option Chunk)
  pub running : Bool
  pub stopping : Bool
  pub dropped_chunks : ℕ
  pub next_drop_log_at : ℕ

module _ {Chunk : Type 0} where
  -- `asyncio.Queue(maxsize=max(1, audio_queue_max_chunks))`
  unfoldable pub new_session : ℕ → AudioLiveSession Chunk
  new_session audio_queue_max_chunks = record {
    capacity = max 1 audio_queue_max_chunks;
    queue = [];
    running = false;
    stopping = false;
    dropped_chunks = 0;
    next_drop_log_at = drop_log_every;
  }

  unfoldable pub start : AudioLiveSession Chunk → AudioLiveSession Chunk
  start s = if s.running then s else record s { stopping = false; running = true }

  -- A full queue loses its oldest entry; the drops are counted, and logged every so often.
  unfoldable pub make_room : AudioLiveSession Chunk → AudioLiveSession Chunk
  make_room s =
      if leb s.capacity (length s.queue)
      then record s {
        queue = drop 1 s.queue;
        dropped_chunks = s.dropped_chunks + 1;
        next_drop_log_at =
            if leb s.next_drop_log_at (s.dropped_chunks + 1)
            then s.next_drop_log_at + drop_log_every
            else s.next_drop_log_at;
      }
      else s

  unfoldable pub put_nowait : Option Chunk → AudioLiveSession Chunk → AudioLiveSession Chunk
  put_nowait c s =
      if ltb (length s.queue) s.capacity
      then record s { queue = s.queue ++ c ∷ [] }
      else record s { dropped_chunks = s.dropped_chunks + 1 }

  -- `none`: the session was not started.
  unfoldable pub push_audio : Chunk → AudioLiveSession Chunk → Option (AudioLiveSession Chunk)
  unfolding make_room put_nowait
  push_audio c s = if s.running then some (put_nowait (some c) (make_room s)) else none

  -- `stop`, up to the wait for the task. The end of the stream is queued; a full queue makes it wait
  -- (`none`) until the provider has taken a chunk.
  unfoldable pub stop : AudioLiveSession Chunk → Option (AudioLiveSession Chunk)
  stop s =
      if not s.running
      then some s
      else if ltb (length s.queue) s.capacity
      then some (record s { stopping = true; running = false; queue = s.queue ++ none ∷ [] })
      else none

  -- One round of `_audio_stream`: nothing to take yet (`none`), or the oldest entry, where `none` ends
  -- the stream.
  unfoldable pub next_chunk :
      AudioLiveSession Chunk → Option (Option Chunk × AudioLiveSession Chunk)
  next_chunk s = elim s.queue [ [] ↦ none | c ∷ cs ↦ some (c, record s { queue = cs }) ]

  unfoldable pub push_all : List Chunk → AudioLiveSession Chunk → Option (AudioLiveSession Chunk)
  push_all [] s = some s
  push_all (c ∷ cs) s = elim (push_audio c s) [ none ↦ none | some s' ↦ push_all cs s' ]

-- How one connection of the provider ended.
pub data Outcome : Type 0 where
  -- The stream ended, with or without an utterance.
  ended : Bool → Outcome
  -- It raised, with a permanent error or another one.
  raised : Bool → Outcome

unfoldable pub failures_after : ℕ → Outcome → ℕ
failures_after failures (ended true) = 0
failures_after failures (ended false) = failures + 1
failures_after failures (raised permanent) = failures + 1

-- Times in milliseconds.
abbrev pub permanent_error_backoff : ℕ
permanent_error_backoff = 300000

unfoldable pub reconnect_delay : List ℕ → ℕ → ℕ
reconnect_delay [] failures = 0
reconnect_delay (d ∷ ds) failures =
    elim (get_elem? (d ∷ ds) (min (max failures 1 - 1) (length (d ∷ ds) - 1))) [
      | none ↦ 0
      | some delay ↦ delay
    ]

unfoldable pub delay_after : List ℕ → ℕ → Outcome → ℕ
unfolding reconnect_delay failures_after
delay_after delays failures (raised true) = permanent_error_backoff
delay_after delays failures outcome = reconnect_delay delays (failures_after failures outcome)

-- The delays between the connections of a loop that is not stopped.
unfoldable pub run_loop : List ℕ → ℕ → List Outcome → List ℕ
unfolding delay_after
run_loop delays failures [] = []
run_loop delays failures (o ∷ os) =
    delay_after delays failures o ∷ run_loop delays (failures_after failures o) os
