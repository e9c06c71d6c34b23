-- ===== src/Live/Segments.antt =====
-- apps/server/ai/gemini_live.py: where a stream of audio is cut into segments, and the detection of
-- speech that tells the service when someone talks. Whether a chunk is loud, a comparison of
-- logarithms, is an argument. A setting that is zero or less is zero here: both switch a limit off.
pub mod Cutting
pub mod Speech
use yeson_meet.Prelude.{
  ℕ, Bool, List, Option, [], false, if◌then◌else◌, leb, ltb, max, min, nat_eq, none, not, some,
  true, ◌&&◌, ◌++◌, ◌+◌, ◌-◌, ◌/◌, ◌||◌, ◌∷◌,
}

-- `INPUT_CHUNK_MS`
abbrev pub input_chunk_ms : ℕ
input_chunk_ms = 20

-- `math.ceil(ms / INPUT_CHUNK_MS)`, one at least
unfoldable pub chunks_of : ℕ → ℕ
chunks_of ms = max 1 ((ms + (input_chunk_ms - 1)) / input_chunk_ms)

-- `_segment_max_chunks`, `_segment_hard_max_chunks` and `_segment_cycle_silence_chunks`
unfoldable pub limit_chunks : ℕ → ℕ
unfolding chunks_of
limit_chunks ms = if nat_eq ms 0 then 0 else chunks_of ms

-- `_first_segment_max_chunks` and `_first_segment_hard_max_chunks`
unfoldable pub first_limit_chunks : ℕ → ℕ → ℕ
unfolding chunks_of
first_limit_chunks first_ms normal =
    if nat_eq first_ms 0
    then normal
    else if nat_eq normal 0
    then chunks_of first_ms
    else min (chunks_of first_ms) normal

pub record AudioSegmentState : Type 0 where
  pub exhausted : Bool
  pub speech_observed : Bool

-- The arguments of `_bounded_audio_segment`.
pub record Caps : Type 0 where
  pub max_chunks : ℕ
  pub hard_max_chunks : ℕ
  pub silence_chunk_run : ℕ

-- The two tests at the head of the loop.
unfoldable pub is_full : Caps → ℕ → ℕ → Bool
is_full caps sent silence_run =
    (ltb 0 caps.hard_max_chunks && leb caps.hard_max_chunks sent)
    || ((ltb 0 caps.max_chunks && leb caps.max_chunks sent)
        && (nat_eq caps.silence_chunk_run 0 || leb caps.silence_chunk_run silence_run))

-- What a segment yields, its state, and the audio that is left.
pub record Segment {ℓ} (C : Type ℓ) : Type ℓ where
  pub chunks : List C
  pub state : AudioSegmentState
  pub left : List C

module _ {ℓ} {C : Type ℓ} (is_loud : C → Bool) where
  abbrev pub heard : C → AudioSegmentState → AudioSegmentState
  heard c state = if is_loud c then record state { speech_observed = true } else state

  abbrev pub silence_after : C → ℕ → ℕ
  silence_after c run = if is_loud c then 0 else run + 1

  -- The loop of `_bounded_audio_segment`, with the numbers of chunks sent and of silent ones at the end.
  unfoldable pub segment_from : Caps → ℕ → ℕ → AudioSegmentState → List C → Segment C
  unfolding is_full
  segment_from caps sent run state [] =
      if is_full caps sent run
      then record { chunks = []; state = state; left = [] }
      else record { chunks = []; state = record state { exhausted = true }; left = [] }
  segment_from caps sent run state (c ∷ audio) =
      let rest = segment_from caps (sent + 1) (silence_after c run) (heard c state) audio in
      if is_full caps sent run
      then record { chunks = []; state = state; left = c ∷ audio }
      else record { chunks = c ∷ rest.chunks; state = rest.state; left = rest.left }

  unfoldable pub bounded_audio_segment : Caps → AudioSegmentState → List C → Segment C
  unfolding segment_from
  bounded_audio_segment caps state audio = segment_from caps 0 0 state audio

-- `"start"`, `"end"` and `"restart"`
pub data Signal : Type 0 where
  start : Signal
  end : Signal
  restart : Signal

pub record ManualVadState : Type 0 where
  pub end_silence_ms : ℕ
  pub max_speech_ms : ℕ
  pub chunk_ms : ℕ
  pub speech_active : Bool
  pub silent_ms : ℕ
  pub speech_ms : ℕ

-- Speech has ended.
abbrev pub quiet : ManualVadState → ManualVadState
quiet st = record st { speech_active = false; silent_ms = 0; speech_ms = 0 }

-- `observe`, for a chunk that is loud or not
unfoldable pub observe : Bool → ManualVadState → Option Signal × ManualVadState
observe true st =
    if not st.speech_active
    then (some start, record st { silent_ms = 0; speech_active = true; speech_ms = st.chunk_ms })
    else if ltb 0 st.max_speech_ms && leb st.max_speech_ms (st.speech_ms + st.chunk_ms)
    then (some restart, record st { silent_ms = 0; speech_ms = st.chunk_ms })
    else (none, record st { silent_ms = 0; speech_ms = st.speech_ms + st.chunk_ms })
observe false st =
    if not st.speech_active
    then (none, st)
    else if ltb (st.silent_ms + st.chunk_ms) st.end_silence_ms
    then (none, record st { silent_ms = st.silent_ms + st.chunk_ms })
    else (some end, quiet st)

unfoldable pub finish : ManualVadState → Option Signal × ManualVadState
finish st = if st.speech_active then (some end, quiet st) else (none, st)

abbrev pub signal_list : Option Signal → List Signal
signal_list none = []
signal_list (some s) = s ∷ []

-- The signals of a stream, with the one at its end.
unfoldable pub signals : List Bool → ManualVadState → List Signal
unfolding observe finish
signals [] st = signal_list (finish st).0
signals (loud ∷ chunks) st = signal_list (observe loud st).0 ++ signals chunks (observe loud st).1
