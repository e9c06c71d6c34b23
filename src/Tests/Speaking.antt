-- ===== src/Tests/Speaking.antt =====
-- A stream of loud and silent chunks.
use yeson_meet.Prelude.{Bool, List, [], false, refl, true, ◌∷◌, ◌≡◌}
use yeson_meet.Live.Segments.{
  Caps, AudioSegmentState, ManualVadState, bounded_audio_segment, signals, end, restart, start,
}
use yeson_meet.Live.Segments.Cutting.{IsCut, bounded_audio_segment-IsCut}
use yeson_meet.Live.Segments.Speech.{IsBracketed, signals-IsBracketed}

abbrev caps : Caps
caps = record { max_chunks = 3; hard_max_chunks = 8; silence_chunk_run = 2 }

abbrev fresh : AudioSegmentState
fresh = record { exhausted = false; speech_observed = false }

-- Each chunk is loud or not.
abbrev stream : List Bool
stream = true ∷ true ∷ true ∷ false ∷ false ∷ true ∷ []

bounded_audio_segment-IsCut_example :
    IsCut (λ c. c) caps false stream (bounded_audio_segment (λ c. c) caps fresh stream)
bounded_audio_segment-IsCut_example = bounded_audio_segment-IsCut (λ c. c) caps fresh stream refl

abbrev vad : ManualVadState
vad = record {
  end_silence_ms = 40;
  max_speech_ms = 60;
  chunk_ms = 20;
  speech_active = false;
  silent_ms = 0;
  speech_ms = 0;
}

-- The third loud chunk restarts, two silent ones end, and the end of the stream ends again.
told : signals stream vad ≡ start ∷ restart ∷ end ∷ start ∷ end ∷ []
unfolding signals
told = refl

signals-IsBracketed_example : IsBracketed false (signals stream vad)
signals-IsBracketed_example = signals-IsBracketed stream vad
