-- ===== src/Live/Segments/Cutting.antt =====
-- apps/server/ai/gemini_live.py, `_bounded_audio_segment`: what a segment holds and where it ends.
use yeson_meet.Prelude.{
  ℕ, Bool, List, [], any, false, length, true, ◌++◌, ◌+◌, ◌<◌, ◌||◌, ◌∷◌, ◌≡◌, ◌≤◌, ◌⊎◌, ap, arith,
  if_both, if◌then◌else◌, inl, inr, refl, subst, suc, ◌∙◌,
}
use yeson_meet.Live.Segments.{
  Caps, AudioSegmentState, Segment, is_full, segment_from, silence_after, bounded_audio_segment,
  heard,
}

module _ {ℓ} {C : Type ℓ} (is_loud : C → Bool) where
  -- The silent chunks at the end of a list: all of them, or those behind the last loud one.
  abbrev pub silent_end : List C → ℕ
  silent_end [] = 0
  silent_end (c ∷ cs) = if any is_loud cs || is_loud c then silent_end cs else suc (silent_end cs)

  -- The same, with so many silent chunks before the list.
  abbrev silent_after : ℕ → List C → ℕ
  silent_after run cs = if any is_loud cs then silent_end cs else run + silent_end cs

  silent_after-cons :
      (run : ℕ) (c : C) (cs : List C)
      → silent_after (silence_after is_loud c run) cs ≡ silent_after run (c ∷ cs)
  silent_after-cons run c cs = ground arith

  silent_after-zero : (cs : List C) → silent_after 0 cs ≡ silent_end cs
  silent_after-zero cs = ground arith

  -- Why a segment of so many chunks, with so many silent ones at its end, ends before the audio does:
  -- it has as many as the hard limit says, or as many as the soft limit says at least, and silence.
  abbrev pub MayEnd : Caps → ℕ → ℕ → Type 0
  MayEnd caps sent run =
      ((0 < caps.hard_max_chunks) × (sent ≡ caps.hard_max_chunks))
      ⊎ ((0 < caps.max_chunks) × (caps.max_chunks ≤ sent) × (caps.silence_chunk_run ≤ run))

  -- The hard limit is off, or it is not passed.
  abbrev pub IsWithin : Caps → ℕ → Type 0
  IsWithin caps sent = (caps.hard_max_chunks ≡ 0) ⊎ (sent ≤ caps.hard_max_chunks)

  -- The audio is at its end and marked so, or it is not and the segment may end there.
  abbrev pub IsEnded : Caps → ℕ → ℕ → Bool → List C → Type ℓ
  IsEnded caps sent run exhausted left =
      ((exhausted ≡ true) × (left ≡ [])) ⊎ ((exhausted ≡ false) × MayEnd caps sent run)

  abbrev IsCutAfter : Caps → ℕ → ℕ → Bool → List C → Segment C → Type ℓ
  IsCutAfter caps sent run observed audio s =
      (s.chunks ++ s.left ≡ audio)
      × (s.state.speech_observed ≡ (observed || any is_loud s.chunks))
      × IsEnded caps (sent + length s.chunks) (silent_after run s.chunks) s.state.exhausted s.left
      × IsWithin caps (sent + length s.chunks)

  -- A segment of the audio, from its start.
  abbrev pub IsCut : Caps → Bool → List C → Segment C → Type ℓ
  IsCut caps observed audio s =
      (s.chunks ++ s.left ≡ audio)
      × (s.state.speech_observed ≡ (observed || any is_loud s.chunks))
      × IsEnded caps (length s.chunks) (silent_end s.chunks) s.state.exhausted s.left
      × IsWithin caps (length s.chunks)

  is_full-MayEnd :
      (caps : Caps) (sent run : ℕ)
      → IsWithin caps sent
      → is_full caps sent run ≡ true
      → MayEnd caps sent run
  unfolding is_full
  is_full-MayEnd caps sent run within h = ground (arith, within)

  is_full-IsWithin :
      (caps : Caps) (sent run : ℕ)
      → IsWithin caps sent
      → is_full caps sent run ≡ false
      → IsWithin caps (sent + 1)
  unfolding is_full
  is_full-IsWithin caps sent run within h = ground (arith, within)

  -- The segment ends where it is.
  stops-IsCut :
      (caps : Caps) (sent run : ℕ) (state : AudioSegmentState) (audio : List C)
      → state.exhausted ≡ false
      → IsWithin caps sent
      → is_full caps sent run ≡ true
      → IsCutAfter caps sent run state.speech_observed audio
          (record { chunks = []; state = state; left = audio })
  stops-IsCut caps sent run state audio fresh within full = (
    refl,
    ground arith,
    inr (
      fresh,
      subst (λ n. MayEnd caps n (run + 0)) (omega arith)
          (subst (MayEnd caps sent) (omega arith) (is_full-MayEnd caps sent run within full)),
    ),
    subst (IsWithin caps) (omega arith) within,
  )

  goes_on-IsCut :
      (caps : Caps) (sent run : ℕ) (observed : Bool) (c : C) (audio : List C) (rest : Segment C)
      → IsCutAfter caps
          (sent + 1)
          (silence_after is_loud c run)
          (if is_loud c then true else observed)
          audio
          rest
      → IsCutAfter caps sent run observed
          (c ∷ audio)
          (record { chunks = c ∷ rest.chunks; state = rest.state; left = rest.left })
  goes_on-IsCut caps sent run observed c audio rest (same, seen, ended, within) =
      let count : (sent + 1) + length rest.chunks ≡ sent + suc (length rest.chunks) = omega arith in
      (
        ap (◌∷◌ c) same,
        ground (arith, seen),
        subst
            (λ n.
              IsEnded caps n (silent_after run (c ∷ rest.chunks)) rest.state.exhausted rest.left)
            count
            (subst
              (λ m. IsEnded caps ((sent + 1) + length rest.chunks) m rest.state.exhausted rest.left)
              (silent_after-cons run c rest.chunks) ended),
        subst (IsWithin caps) count within,
      )

  heard_observed :
      (c : C) (state : AudioSegmentState)
      → (heard is_loud c state).speech_observed
        ≡ (if is_loud c then true else state.speech_observed)
  heard_observed c state =
      if_both
        (λ (st : AudioSegmentState).
          st.speech_observed ≡ (if is_loud c then true else state.speech_observed))
        (is_loud c) (λ loud. rw loud refl) (λ silent. rw silent refl)

  heard_exhausted :
      (c : C) (state : AudioSegmentState) → (heard is_loud c state).exhausted ≡ state.exhausted
  heard_exhausted c state =
      if_both (λ (st : AudioSegmentState). st.exhausted ≡ state.exhausted) (is_loud c) (λ _. refl)
        (λ _. refl)

  segment_from-IsCut :
      (caps : Caps) (sent run : ℕ) (state : AudioSegmentState) (audio : List C)
      → state.exhausted ≡ false
      → IsWithin caps sent
      → IsCutAfter caps sent run state.speech_observed audio
          (segment_from is_loud caps sent run state audio)
  unfolding segment_from
  segment_from-IsCut caps sent run state [] fresh within =
      if_both (IsCutAfter caps sent run state.speech_observed []) (is_full caps sent run)
        (λ full. stops-IsCut caps sent run state [] fresh within full)
        (λ _. (refl, ground arith, inl (refl, refl), subst (IsWithin caps) (omega arith) within))
  segment_from-IsCut caps sent run state (c ∷ audio) fresh within =
      if_both (IsCutAfter caps sent run state.speech_observed (c ∷ audio)) (is_full caps sent run)
        (λ full. stops-IsCut caps sent run state (c ∷ audio) fresh within full)
        (λ more.
          goes_on-IsCut caps sent run state.speech_observed c audio
            (segment_from is_loud caps (sent + 1) (silence_after is_loud c run)
              (heard is_loud c state) audio)
            (subst
              (λ o. IsCutAfter caps (sent + 1) (silence_after is_loud c run) o audio (
                segment_from is_loud caps (sent + 1) (silence_after is_loud c run)
                  (heard is_loud c state) audio))
              (heard_observed c state)
              (segment_from-IsCut caps (sent + 1) (silence_after is_loud c run)
                (heard is_loud c state) audio (heard_exhausted c state ∙ fresh)
                (is_full-IsWithin caps sent run within more))))

  -- A segment yields the audio from its start, with nothing left out, and notices loud chunks. It ends
  -- with the audio, which it then marks as exhausted, or at the hard limit, or behind the soft limit
  -- with as many silent chunks at its end as are asked for; it is never longer than the hard limit.
  -- The state is new or of a segment that was cut.
  pub bounded_audio_segment-IsCut :
      (caps : Caps) (state : AudioSegmentState) (audio : List C)
      → state.exhausted ≡ false
      → IsCut caps state.speech_observed audio (bounded_audio_segment is_loud caps state audio)
  unfolding bounded_audio_segment
  bounded_audio_segment-IsCut caps state audio fresh =
      let s = segment_from is_loud caps 0 0 state audio in
      let (same, seen, ended, within) =
        segment_from-IsCut caps 0 0 state audio fresh (inr (omega arith)) in
      let count : 0 + length s.chunks ≡ length s.chunks = omega arith in
      (
        same,
        seen,
        subst (λ run. IsEnded caps (length s.chunks) run s.state.exhausted s.left)
            (silent_after-zero s.chunks)
            (subst (λ n. IsEnded caps n (silent_after 0 s.chunks) s.state.exhausted s.left) count
              ended),
        subst (IsWithin caps) count within,
      )
