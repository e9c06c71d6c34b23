-- ===== src/Live/Assembler.antt =====
-- apps/server/ai/gemini_live_translate.py, `TranscriptAssembler`: fragments of English and Korean are
-- folded into utterances. A fragment that is not there is the empty text, which the code treats alike.
-- Times are in milliseconds; the clocks stand still during a call.
pub mod Calls
pub mod Pieces
pub mod Conserved
pub mod Numbers
use yeson_meet.Prelude.{
  ℕ, Bool, List, Option, [], drop, false, if◌then◌else◌, leb, length, ltb, nat_eq, none, not, some,
  suc, take, true, ◌&&◌, ◌++◌, ◌+◌, ◌||◌, ◌∷◌,
}
use yeson_meet.Prelude.Text.{Str, CharTable, strip}
use yeson_meet.Glossary.{Term, apply_ko_corrections}

-- `[0-9]` and `[.?!…]`
abbrev pub is_ascii_digit : ℕ → Bool
is_ascii_digit c = leb 48 c && leb c 57

abbrev pub is_terminal : ℕ → Bool
is_terminal c = nat_eq c 46 || (nat_eq c 63 || (nat_eq c 33 || nat_eq c 8230))

abbrev pub starts_with_digit : Str → Bool
starts_with_digit [] = false
starts_with_digit (c ∷ s) = is_ascii_digit c

-- The end of the last match of `_SENTENCE_END_RE`: a terminal that does not stand between two digits.
-- The flag says that the character before is a digit.
unfoldable pub last_end : Bool → Str → Option ℕ
last_end after_digit [] = none
last_end after_digit (c ∷ s) = elim (last_end (is_ascii_digit c) s) [
  | some i ↦ some (suc i)
  | none ↦ if is_terminal c && not (after_digit && starts_with_digit s) then some 1 else none
]

-- `_last_sentence_end`, with none for -1
unfoldable pub last_sentence_end : Str → Option ℕ
unfolding last_end
last_sentence_end text = last_end false text

-- `_EmitState`
pub record EmitState : Type 0 where
  pub seq : ℕ
  pub en_buffer : Str
  pub ko_buffer : Str
  pub emitted_ko_len : ℕ
  pub started_at : Option ℕ
  pub started_monotonic : Option ℕ
  pub last_ko_at : Option ℕ

abbrev pub initial : EmitState
initial = record {
  seq = 1;
  en_buffer = [];
  ko_buffer = [];
  emitted_ko_len = 0;
  started_at = none;
  started_monotonic = none;
  last_ko_at = none;
}

-- The arguments of the constructor.
pub record Thresholds : Type 0 where
  pub provider_segment : ℕ
  pub force_final_chars : ℕ
  pub min_final_chars : ℕ
  pub max_utterance_ms : ℕ
  pub idle_final_ms : ℕ
  pub partial_min_delta : ℕ

-- The time of day, the monotonic clock, and the argument `now_monotonic` or the same clock.
pub record Instant : Type 0 where
  pub wall : ℕ
  pub monotonic : ℕ
  pub now : ℕ

-- `TranslatedUtterance`
pub record Utterance : Type 0 where
  pub seq : ℕ
  pub text_en : Str
  pub text_ko : Str
  pub started_at : ℕ
  pub ended_at : ℕ
  pub is_final : Bool
  pub provider_segment : ℕ

abbrev pub or_now : Option ℕ → ℕ → ℕ
or_now none n = n
or_now (some a) n = a

-- What `feed`, `poll` and `flush` return, and the state afterwards.
abbrev pub Step : Type 0
Step = List Utterance × EmitState

module _ (t : CharTable) (terms : List Term) (limits : Thresholds) where
  abbrev pub is_blank : Str → Bool
  is_blank s = elim (strip t s) [ [] ↦ true | c ∷ r ↦ false ]

  -- `_utterance`
  unfoldable pub utterance : EmitState → Instant → Str → Str → Bool → Utterance
  utterance st at ko en is_final = record {
    seq = st.seq;
    text_en = strip t en;
    text_ko = apply_ko_corrections terms (strip t ko);
    started_at = or_now st.started_at at.wall;
    ended_at = at.wall;
    is_final = is_final;
    provider_segment = limits.provider_segment;
  }

  -- Where `_finalize` cuts the English: at its last sentence end if Korean is left over.
  unfoldable pub en_split : Str → Str → ℕ
  en_split en ko_rest =
      if is_blank ko_rest
      then length en
      else elim (last_sentence_end en) [ some i ↦ i | none ↦ length en ]

  -- `_finalize`
  unfoldable pub finalize : ℕ → EmitState → Instant → Step
  unfolding utterance en_split
  finalize split_at st at =
      let ko_rest = drop split_at st.ko_buffer in
      let cut = en_split st.en_buffer ko_rest in
      let over = is_blank ko_rest in
      (
        utterance st at (take split_at st.ko_buffer) (take cut st.en_buffer) true ∷ [],
        record {
          seq = st.seq + 1;
          en_buffer = drop cut st.en_buffer;
          ko_buffer = ko_rest;
          emitted_ko_len = 0;
          started_at = if over then none else some at.wall;
          started_monotonic = if over then none else some at.monotonic;
          last_ko_at = if over then none else st.last_ko_at;
        },
      )

  -- `_maybe_partial`
  unfoldable pub maybe_partial : EmitState → Instant → Step
  unfolding utterance
  maybe_partial st at =
      if ltb (length st.ko_buffer) (st.emitted_ko_len + limits.partial_min_delta)
      then ([], st)
      else (
        utterance st at st.ko_buffer st.en_buffer false ∷ [],
        record st { emitted_ko_len = length st.ko_buffer },
      )

  -- The first half of `feed`: the fragments go into the buffers.
  unfoldable pub take_in : Str → Str → Instant → EmitState → EmitState
  take_in en ko at st = elim ko [
    | [] ↦ record st { en_buffer = st.en_buffer ++ en }
    | c ∷ s ↦ record {
      seq = st.seq;
      en_buffer = st.en_buffer ++ en;
      ko_buffer = st.ko_buffer ++ (c ∷ s);
      emitted_ko_len = st.emitted_ko_len;
      started_at = if is_blank st.ko_buffer then some at.wall else st.started_at;
      started_monotonic = if is_blank st.ko_buffer then some at.now else st.started_monotonic;
      last_ko_at = some at.now;
    }
  ]

  -- The length of the stripped text up to the last sentence end.
  unfoldable pub boundary_len : Str → ℕ
  boundary_len ko = elim (last_sentence_end ko) [ none ↦ 0 | some i ↦ length (strip t (take i ko)) ]

  unfoldable pub boundary : Str → ℕ
  boundary ko = elim (last_sentence_end ko) [ none ↦ 0 | some i ↦ i ]

  -- now - since >= limit
  unfoldable pub is_past : Option ℕ → ℕ → ℕ → Bool
  is_past none limit now = false
  is_past (some since) limit now = leb (since + limit) now

  -- The second half of `feed`.
  unfoldable pub decide : EmitState → Instant → Step
  unfolding boundary_len boundary is_past finalize maybe_partial
  decide st at =
      if is_blank st.ko_buffer
      then ([], st)
      else if ltb 1 (boundary_len st.ko_buffer)
          && leb limits.min_final_chars (boundary_len st.ko_buffer)
      then finalize (boundary st.ko_buffer) st at
      else if leb limits.force_final_chars (length (strip t st.ko_buffer))
          || is_past st.started_monotonic limits.max_utterance_ms at.now
      then finalize (length st.ko_buffer) st at
      else maybe_partial st at

  unfoldable pub feed : Str → Str → Instant → EmitState → Step
  unfolding take_in decide
  feed en ko at st = decide (take_in en ko at st) at

  unfoldable pub poll : Instant → EmitState → Step
  unfolding is_past finalize
  poll at st =
      if is_blank st.ko_buffer
      then ([], st)
      else if is_past st.last_ko_at limits.idle_final_ms at.now
      then finalize (length st.ko_buffer) st at
      else ([], st)

  unfoldable pub flush : Instant → EmitState → Step
  unfolding finalize
  flush at st = if is_blank st.ko_buffer then ([], st) else finalize (length st.ko_buffer) st at
