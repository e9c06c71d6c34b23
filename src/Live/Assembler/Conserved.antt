-- ===== src/Live/Assembler/Conserved.antt =====
-- apps/server/ai/gemini_live_translate.py: what the model says reaches the final utterances.
use yeson_meet.Prelude.{
  List, [], ap, append-nil, append_assoc, arith, false, length, ltb, refl, subst, sym, take,
  take-length, true, ◌++◌, ◌∙◌, ◌∷◌, ◌≡◌, All-append, if_both, leb, ◌&&◌, ◌+◌, ◌||◌, drop-length,
}
use yeson_meet.Prelude.Text.{Str, CharTable, strip}
use yeson_meet.Glossary.{Term}
use yeson_meet.Live.Assembler.{
  EmitState, Thresholds, Instant, Step, is_blank, boundary, boundary_len, decide, finalize,
  maybe_partial, utterance, feed, flush, is_past, poll, take_in,
}
use yeson_meet.Live.Assembler.Calls.{Call, fragment, stream_end, tick, call, calls}
use yeson_meet.Live.Assembler.Pieces.{
  Piece, en_of, ko_of, fed_en, fed_ko, en_of-append, ko_of-append, taken_twice, finals, Say, Drains,
  Say-append, finals-append, finalize-Drains, nothing_final,
}

module _ (t : CharTable) (terms : List Term) (limits : Thresholds) where
  maybe_partial-Drains :
      (st : EmitState) (at : Instant)
      → Drains t terms limits st.en_buffer st.ko_buffer (maybe_partial t terms limits st at)
  unfolding maybe_partial utterance
  maybe_partial-Drains st at =
      if_both (Drains t terms limits st.en_buffer st.ko_buffer)
        (ltb (length st.ko_buffer) (st.emitted_ko_len + limits.partial_min_delta))
        (λ _. nothing_final t terms limits st st [] refl refl refl)
        (λ _.
          nothing_final t terms limits st (record st { emitted_ko_len = length st.ko_buffer })
            (utterance t terms limits st at st.ko_buffer st.en_buffer false ∷ []) refl refl refl)

  whole-Drains :
      (st : EmitState) (at : Instant)
      → is_blank t terms limits st.ko_buffer ≡ false
      → Drains t terms limits st.en_buffer st.ko_buffer
          (finalize t terms limits (length st.ko_buffer) st at)
  whole-Drains st at h =
      finalize-Drains t terms limits (length st.ko_buffer) st at
        (ap (is_blank t terms limits) (take-length st.ko_buffer) ∙ h)

  -- More than one character is not blank.
  boundary-filled :
      (ko : Str)
      → ltb 1 (boundary_len t terms limits ko) ≡ true
      → is_blank t terms limits (take (boundary t terms limits ko) ko) ≡ false
  unfolding boundary_len boundary
  boundary-filled ko h = ground arith

  decide-Drains :
      (st : EmitState) (at : Instant)
      → Drains t terms limits st.en_buffer st.ko_buffer (decide t terms limits st at)
  unfolding decide
  decide-Drains st at =
      if_both (Drains t terms limits st.en_buffer st.ko_buffer)
        (is_blank t terms limits st.ko_buffer)
        (λ _. nothing_final t terms limits st st [] refl refl refl)
        (λ filled.
          if_both (Drains t terms limits st.en_buffer st.ko_buffer)
            (ltb 1 (boundary_len t terms limits st.ko_buffer)
              && leb limits.min_final_chars (boundary_len t terms limits st.ko_buffer))
            (λ ended.
              finalize-Drains t terms limits (boundary t terms limits st.ko_buffer) st at
                (boundary-filled st.ko_buffer (ground (arith, ended))))
            (λ _.
              if_both (Drains t terms limits st.en_buffer st.ko_buffer)
                (leb limits.force_final_chars (length (strip t st.ko_buffer))
                  || is_past t terms limits st.started_monotonic limits.max_utterance_ms at.now)
                (λ _. whole-Drains st at filled) (λ _. maybe_partial-Drains st at)))

  poll-Drains :
      (st : EmitState) (at : Instant)
      → Drains t terms limits st.en_buffer st.ko_buffer (poll t terms limits at st)
  unfolding poll
  poll-Drains st at =
      if_both (Drains t terms limits st.en_buffer st.ko_buffer)
        (is_blank t terms limits st.ko_buffer)
        (λ _. nothing_final t terms limits st st [] refl refl refl)
        (λ filled.
          if_both (Drains t terms limits st.en_buffer st.ko_buffer)
            (is_past t terms limits st.last_ko_at limits.idle_final_ms at.now)
            (λ _. whole-Drains st at filled)
            (λ _. nothing_final t terms limits st st [] refl refl refl))

  flush-Drains :
      (st : EmitState) (at : Instant)
      → Drains t terms limits st.en_buffer st.ko_buffer (flush t terms limits at st)
  unfolding flush
  flush-Drains st at =
      if_both (Drains t terms limits st.en_buffer st.ko_buffer)
        (is_blank t terms limits st.ko_buffer)
        (λ _. nothing_final t terms limits st st [] refl refl refl)
        (λ filled. whole-Drains st at filled)

  feed-Drains :
      (en ko : Str) (st : EmitState) (at : Instant)
      → Drains t terms limits
          (st.en_buffer ++ en)
          (st.ko_buffer ++ ko)
          (feed t terms limits en ko at st)
  unfolding feed take_in
  feed-Drains en [] st at =
      subst
        (λ s.
          Drains t terms limits (st.en_buffer ++ en) s
            (decide t terms limits (take_in t terms limits en [] at st) at))
        (sym (append-nil st.ko_buffer)) (decide-Drains (take_in t terms limits en [] at st) at)
  feed-Drains en (c ∷ ko) st at = decide-Drains (take_in t terms limits en (c ∷ ko) at st) at

  -- One call and then the others.
  then-Drains :
      (st : EmitState) (en ko en' ko' : Str) (step : Step) (later : Step)
      → Drains t terms limits (st.en_buffer ++ en) (st.ko_buffer ++ ko) step
      → Drains t terms limits (step.1.en_buffer ++ en') (step.1.ko_buffer ++ ko') later
      → Drains t terms limits
          (st.en_buffer ++ (en ++ en'))
          (st.ko_buffer ++ (ko ++ ko'))
          (step.0 ++ later.0, later.1)
  then-Drains st en ko en' ko' step later d e = record {
    pieces = d.pieces ++ e.pieces;
    said =
        subst (λ us. Say t terms limits us (d.pieces ++ e.pieces))
          (sym (finals-append t terms limits step.0 later.0))
          (Say-append t terms limits (finals t terms limits step.0) (finals t terms limits later.0)
            d.pieces e.pieces d.said e.said);
    filled =
        All-append (λ (p : Piece). is_blank t terms limits p.ko ≡ false) d.pieces e.pieces d.filled
          e.filled;
    en_rest =
        ap (λ s. s ++ later.1.en_buffer) (en_of-append d.pieces e.pieces)
        ∙ (taken_twice (en_of d.pieces) (en_of e.pieces) later.1.en_buffer step.1.en_buffer
              (st.en_buffer ++ en) en' d.en_rest e.en_rest
            ∙ append_assoc st.en_buffer en en');
    ko_rest =
        ap (λ s. s ++ later.1.ko_buffer) (ko_of-append d.pieces e.pieces)
        ∙ (taken_twice (ko_of d.pieces) (ko_of e.pieces) later.1.ko_buffer step.1.ko_buffer
              (st.ko_buffer ++ ko) ko' d.ko_rest e.ko_rest
            ∙ append_assoc st.ko_buffer ko ko');
  }

  -- A call without fragments.
  without_fragment :
      (st : EmitState) (step : Step)
      → Drains t terms limits st.en_buffer st.ko_buffer step
      → Drains t terms limits (st.en_buffer ++ []) (st.ko_buffer ++ []) step
  without_fragment st step d = record {
    pieces = d.pieces;
    said = d.said;
    filled = d.filled;
    en_rest = d.en_rest ∙ sym (append-nil st.en_buffer);
    ko_rest = d.ko_rest ∙ sym (append-nil st.ko_buffer);
  }

  -- Over any sequence of calls the English and the Korean that come in are cut, in order and with
  -- nothing lost or said twice, into the final utterances, each the stripped and corrected text of its
  -- piece and none with a blank Korean piece; what is not said yet is in the buffers.
  pub calls-Drains :
      (cs : List Call) (st : EmitState)
      → Drains t terms limits
          (st.en_buffer ++ fed_en cs)
          (st.ko_buffer ++ fed_ko cs)
          (calls t terms limits cs st)
  unfolding calls call
  calls-Drains [] st =
      without_fragment st ([], st) (nothing_final t terms limits st st [] refl refl refl)
  calls-Drains (fragment en ko at ∷ cs) st =
      let step = feed t terms limits en ko at st in
      then-Drains st en ko (fed_en cs) (fed_ko cs) step (calls t terms limits cs step.1)
        (feed-Drains en ko st at) (calls-Drains cs step.1)
  calls-Drains (tick at ∷ cs) st =
      let step = poll t terms limits at st in
      then-Drains st [] [] (fed_en cs) (fed_ko cs) step (calls t terms limits cs step.1)
        (without_fragment st step (poll-Drains st at)) (calls-Drains cs step.1)
  calls-Drains (stream_end at ∷ cs) st =
      let step = flush t terms limits at st in
      then-Drains st [] [] (fed_en cs) (fed_ko cs) step (calls t terms limits cs step.1)
        (without_fragment st step (flush-Drains st at)) (calls-Drains cs step.1)

  -- After the end of the stream no Korean is left in the buffer but white space.
  pub flush-is_blank :
      (st : EmitState) (at : Instant)
      → is_blank t terms limits (flush t terms limits at st).1.ko_buffer ≡ true
  unfolding flush finalize strip
  flush-is_blank st at =
      if_both (λ (step : Step). is_blank t terms limits step.1.ko_buffer ≡ true)
        (is_blank t terms limits st.ko_buffer) (λ blank. blank)
        (λ _. ap (is_blank t terms limits) (drop-length st.ko_buffer))
