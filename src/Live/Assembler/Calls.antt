-- ===== src/Live/Assembler/Calls.antt =====
-- apps/server/ai/gemini_live_translate.py: the calls of the assembler in the receive loop.
use yeson_meet.Prelude.{List, [], ◌++◌, ◌∷◌}
use yeson_meet.Prelude.Text.{Str, CharTable}
use yeson_meet.Glossary.{Term}
use yeson_meet.Live.Assembler.{EmitState, Thresholds, Instant, Step, feed, poll, flush}

-- A fragment, a tick of the timer, or the end of the stream.
pub data Call : Type 0 where
  fragment : Str → Str → Instant → Call
  tick : Instant → Call
  stream_end : Instant → Call

module _ (t : CharTable) (terms : List Term) (limits : Thresholds) where
  unfoldable pub call : Call → EmitState → Step
  unfolding feed poll flush
  call (fragment en ko at) st = feed t terms limits en ko at st
  call (tick at) st = poll t terms limits at st
  call (stream_end at) st = flush t terms limits at st

  -- The utterances of a sequence of calls, in order, and the state at its end.
  unfoldable pub calls : List Call → EmitState → Step
  unfolding call
  calls [] st = ([], st)
  calls (c ∷ cs) st = ((call c st).0 ++ (calls cs (call c st).1).0, (calls cs (call c st).1).1)
