-- ===== src/Live/Assembler/Numbers.antt =====
-- apps/server/ai/gemini_live_translate.py: the numbers of the utterances.
use yeson_meet.Prelude.{
  ℕ, List, [], if_both, if◌then◌else◌, leb, length, ltb, refl, subst, sym, ◌&&◌, ◌++◌, ◌+◌, ◌||◌,
  ◌∷◌, ◌≡◌,
}
use yeson_meet.Prelude.Text.{CharTable, strip}
use yeson_meet.Glossary.{Term}
use yeson_meet.Live.Assembler.{
  EmitState, Thresholds, Instant, Utterance, Step, is_blank, boundary, boundary_len, decide, feed,
  finalize, flush, is_past, maybe_partial, poll, take_in, utterance,
}
use yeson_meet.Live.Assembler.Calls.{Call, fragment, stream_end, tick, call, calls}

-- Numbers from the first on: an utterance that is not final has the number of the next final one.
abbrev pub IsNumbered : ℕ → List Utterance → ℕ → Type 0
IsNumbered n [] m = n ≡ m
IsNumbered n (u ∷ us) m = (u.seq ≡ n) × IsNumbered (if u.is_final then n + 1 else n) us m

IsNumbered-append :
    (n k m : ℕ) (us vs : List Utterance)
    → IsNumbered n us k
    → IsNumbered k vs m
    → IsNumbered n (us ++ vs) m
IsNumbered-append n k m [] vs h i = subst (λ j. IsNumbered j vs m) (sym h) i
IsNumbered-append n k m (u ∷ us) vs h i =
    (h.0, IsNumbered-append (if u.is_final then n + 1 else n) k m us vs h.1 i)

module _ (t : CharTable) (terms : List Term) (limits : Thresholds) where
  abbrev Continues : EmitState → Step → Type 0
  Continues st step = IsNumbered st.seq step.0 step.1.seq

  finalize-Continues :
      (n : ℕ) (st : EmitState) (at : Instant) → Continues st (finalize t terms limits n st at)
  unfolding finalize utterance
  finalize-Continues n st at = (refl, refl)

  maybe_partial-Continues :
      (st : EmitState) (at : Instant) → Continues st (maybe_partial t terms limits st at)
  unfolding maybe_partial utterance
  maybe_partial-Continues st at =
      if_both (Continues st)
        (ltb (length st.ko_buffer) (st.emitted_ko_len + limits.partial_min_delta)) (λ _. refl)
        (λ _. (refl, refl))

  decide-Continues : (st : EmitState) (at : Instant) → Continues st (decide t terms limits st at)
  unfolding decide
  decide-Continues st at =
      if_both (Continues st) (is_blank t terms limits st.ko_buffer) (λ _. refl)
        (λ _.
          if_both (Continues st)
            (ltb 1 (boundary_len t terms limits st.ko_buffer)
              && leb limits.min_final_chars (boundary_len t terms limits st.ko_buffer))
            (λ _. finalize-Continues (boundary t terms limits st.ko_buffer) st at)
            (λ _.
              if_both (Continues st)
                (leb limits.force_final_chars (length (strip t st.ko_buffer))
                  || is_past t terms limits st.started_monotonic limits.max_utterance_ms at.now)
                (λ _. finalize-Continues (length st.ko_buffer) st at)
                (λ _. maybe_partial-Continues st at)))

  call-Continues : (c : Call) (st : EmitState) → Continues st (call t terms limits c st)
  unfolding call feed take_in poll flush
  call-Continues (fragment en [] at) st = decide-Continues (take_in t terms limits en [] at st) at
  call-Continues (fragment en (c ∷ ko) at) st =
      decide-Continues (take_in t terms limits en (c ∷ ko) at st) at
  call-Continues (tick at) st =
      if_both (Continues st) (is_blank t terms limits st.ko_buffer) (λ _. refl)
        (λ _.
          if_both (Continues st) (is_past t terms limits st.last_ko_at limits.idle_final_ms at.now)
            (λ _. finalize-Continues (length st.ko_buffer) st at) (λ _. refl))
  call-Continues (stream_end at) st =
      if_both (Continues st) (is_blank t terms limits st.ko_buffer) (λ _. refl)
        (λ _. finalize-Continues (length st.ko_buffer) st at)

  -- Over any sequence of calls the final utterances are numbered one after the other, without a gap,
  -- and an utterance that is not final has the number of the final one that comes next.
  pub calls-IsNumbered :
      (cs : List Call) (st : EmitState)
      → IsNumbered st.seq (calls t terms limits cs st).0 (calls t terms limits cs st).1.seq
  unfolding calls
  calls-IsNumbered [] st = refl
  calls-IsNumbered (c ∷ cs) st =
      let step = call t terms limits c st in
      IsNumbered-append st.seq step.1.seq (calls t terms limits cs step.1).1.seq step.0
        (calls t terms limits cs step.1).0 (call-Continues c st) (calls-IsNumbered cs step.1)
