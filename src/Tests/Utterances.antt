-- ===== src/Tests/Utterances.antt =====
-- Fragments of two sentences.
use yeson_meet.Prelude.{ℕ, List, [], ◌++◌, ◌∷◌}
use yeson_meet.Prelude.Text.{codes}
use yeson_meet.Live.Assembler.{Thresholds, Instant, initial}
use yeson_meet.Live.Assembler.Calls.{Call, calls, fragment, stream_end, tick}
use yeson_meet.Live.Assembler.Pieces.{Drains, fed_en, fed_ko}
use yeson_meet.Live.Assembler.Conserved.{calls-Drains}
use yeson_meet.Live.Assembler.Numbers.{IsNumbered, calls-IsNumbered}
use yeson_meet.Tests.{ascii}

abbrev limits : Thresholds
limits = record {
  provider_segment = 1;
  force_final_chars = 90;
  min_final_chars = 4;
  max_utterance_ms = 12000;
  idle_final_ms = 2000;
  partial_min_delta = 4;
}

abbrev moment : ℕ → Instant
moment n = record { wall = n; monotonic = n; now = n }

abbrev spoken : List Call
spoken =
    fragment (codes "Hello. ") (codes "안녕하") (moment 0)
    ∷ fragment (codes "Come") (codes "세요. 오") (moment 300)
    ∷ tick (moment 500)
    ∷ fragment [] (codes "세요") (moment 700)
    ∷ stream_end (moment 900)
    ∷ []

calls-Drains_example :
    Drains ascii [] limits
      ([] ++ fed_en spoken)
      ([] ++ fed_ko spoken)
      (calls ascii [] limits spoken initial)
calls-Drains_example = calls-Drains ascii [] limits spoken initial

calls-IsNumbered_example :
    IsNumbered 1
      (calls ascii [] limits spoken initial).0
      (calls ascii [] limits spoken initial).1.seq
calls-IsNumbered_example = calls-IsNumbered ascii [] limits spoken initial
