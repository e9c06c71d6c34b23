-- ===== src/Live/AudioStats/Counting.antt =====
-- The counters of one meeting, against the calls for it.
use yeson_meet.Prelude.{
  ℕ, List, [], ◌∷◌, Option, none, some, ℕ_eq, ◌==◌, ◌+◌, ◌≡◌, if◌then◌else◌, arith, ap, refl, ◌∙◌,
}
use yeson_meet.Prelude.Dict.{
  get, get-put, get-beq, get-pop, IsDistinct, put-IsDistinct, pop-IsDistinct,
}
use yeson_meet.Live.AudioStats.{
  AudioStats, AudioStatsRegistry, update, record_chunk, mark_started, note_seq, mark_stopped,
  discard, Call, records, starts, notes, stops, discards, step, run,
}

-- The bytes and the chunks of one meeting, and its last number.
pub record Tally : Type 0 where
  pub bytes : ℕ
  pub chunks : ℕ
  pub seq : Option ℕ

abbrev pub nothing : Tally
nothing = record { bytes = 0; chunks = 0; seq = none }

-- The specification: one counter, which no call for another meeting touches.
unfoldable pub count_one : ℕ → Tally → Call → Tally
count_one session n (records now s b) =
    if s == session then record n { bytes = n.bytes + b; chunks = n.chunks + 1 } else n
count_one session n (starts s at) = n
count_one session n (notes s seq) = if s == session then record n { seq = some seq } else n
count_one session n (stops now s reason) = n
count_one session n (discards s) = if s == session then nothing else n

unfoldable pub tally : ℕ → Tally → List Call → Tally
unfolding count_one
tally session n [] = n
tally session n (c ∷ cs) = tally session (count_one session n c) cs

-- What the registry says of a meeting: one that it does not have has sent nothing.
unfoldable pub view : Option AudioStats → Tally
view none = nothing
view (some s) = record { bytes = s.total_bytes; chunks = s.total_chunks; seq = s.last_seq }

step-IsDistinct : (d : AudioStatsRegistry) (c : Call) → IsDistinct d → IsDistinct (step d c)
unfolding step record_chunk mark_started note_seq mark_stopped discard update
step-IsDistinct d (records now s b) h = grind (arith, put-IsDistinct)
step-IsDistinct d (starts s at) h = grind (arith, put-IsDistinct)
step-IsDistinct d (notes s seq) h = grind (arith, put-IsDistinct)
step-IsDistinct d (stops now s reason) h = grind (arith, put-IsDistinct)
step-IsDistinct d (discards s) h = pop-IsDistinct s d h

view-step :
    (session : ℕ) (d : AudioStatsRegistry) (c : Call)
    → IsDistinct d
    → view (get session (step d c)) ≡ count_one session (view (get session d)) c
unfolding step record_chunk mark_started note_seq mark_stopped discard update view count_one
view-step session d (records now s b) h = grind (arith, get-put, get-beq s session d)
view-step session d (starts s at) h = grind (arith, get-put, get-beq s session d)
view-step session d (notes s seq) h = grind (arith, get-put, get-beq s session d)
view-step session d (stops now s reason) h = grind (arith, get-put, get-beq s session d)
view-step session d (discards s) h = ground (arith, get-pop s session d h)

view-get-run :
    (session : ℕ) (d : AudioStatsRegistry) (cs : List Call)
    → IsDistinct d
    → view (get session (run d cs)) ≡ tally session (view (get session d)) cs
unfolding run tally
view-get-run session d [] h = refl
view-get-run session d (c ∷ cs) h =
    view-get-run session (step d c) cs (step-IsDistinct d c h)
    ∙ ap (λ n. tally session n cs) (view-step session d c h)

-- After any calls on an empty registry, the bytes, the chunks and the last number that it holds of a
-- meeting are those of the calls for that meeting since it was last discarded.
pub view-run_audio :
    (session : ℕ) (cs : List Call) → view (get session (run [] cs)) ≡ tally session nothing cs
unfolding get view
view-run_audio session cs = view-get-run session [] cs tt
