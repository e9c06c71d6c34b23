-- ===== src/Live/Segments/Speech.antt =====
-- apps/server/ai/gemini_live.py, `ManualVadState`: the order of the signals to the service.
use yeson_meet.Prelude.{
  Bool, List, Option, [], false, none, some, true, ◌∷◌, ◌≡◌, Bool-cases, arith, if_both, inl, inr,
  leb, ltb, not, refl, subst, ◌&&◌, ◌++◌, ◌+◌,
}
use yeson_meet.Live.Segments.{
  Signal, ManualVadState, observe, end, restart, start, finish, signal_list, signals,
}

-- The signals in order, when speech is open at first: a start only when it is closed, a restart or an
-- end only when it is open, and closed at the end.
abbrev pub IsBracketed : Bool → List Signal → Type 0
IsBracketed opened [] = opened ≡ false
IsBracketed opened (start ∷ ss) = (opened ≡ false) × IsBracketed true ss
IsBracketed opened (restart ∷ ss) = (opened ≡ true) × IsBracketed true ss
IsBracketed opened (end ∷ ss) = (opened ≡ true) × IsBracketed false ss

-- One step: the signal fits, and speech is open afterwards as it says.
abbrev Fits : Bool → Option Signal × ManualVadState → Type 0
Fits opened (none, st) = st.speech_active ≡ opened
Fits opened (some start, st) = (opened ≡ false) × (st.speech_active ≡ true)
Fits opened (some restart, st) = (opened ≡ true) × (st.speech_active ≡ true)
Fits opened (some end, st) = (opened ≡ true) × (st.speech_active ≡ false)

observe-Fits : (loud : Bool) (st : ManualVadState) → Fits st.speech_active (observe loud st)
unfolding observe
observe-Fits true st = elim (Bool-cases st.speech_active) [
  | inl opened ↦
      if_both (Fits st.speech_active) (not st.speech_active) (λ closed. absurd (ground arith))
        (λ _.
          if_both (Fits st.speech_active)
            (ltb 0 st.max_speech_ms && leb st.max_speech_ms (st.speech_ms + st.chunk_ms))
            (λ _. (opened, opened)) (λ _. refl))
  | inr closed ↦
      if_both (Fits st.speech_active) (not st.speech_active) (λ _. (closed, refl))
        (λ opened. absurd (ground arith))
]
observe-Fits false st =
    if_both (Fits st.speech_active) (not st.speech_active) (λ _. refl)
      (λ opened.
        if_both (Fits st.speech_active) (ltb (st.silent_ms + st.chunk_ms) st.end_silence_ms)
          (λ _. refl) (λ _. (ground (arith, opened), refl)))

-- A step and the signals that follow.
Fits-IsBracketed :
    (opened : Bool) (step : Option Signal × ManualVadState) (later : List Signal)
    → Fits opened step
    → IsBracketed step.1.speech_active later
    → IsBracketed opened (signal_list step.0 ++ later)
Fits-IsBracketed opened (none, st) later h k = subst (λ b. IsBracketed b later) h k
Fits-IsBracketed opened (some start, st) later h k = (h.0, subst (λ b. IsBracketed b later) h.1 k)
Fits-IsBracketed opened (some restart, st) later h k = (h.0, subst (λ b. IsBracketed b later) h.1 k)
Fits-IsBracketed opened (some end, st) later h k = (h.0, subst (λ b. IsBracketed b later) h.1 k)

finish-IsBracketed :
    (st : ManualVadState) → IsBracketed st.speech_active (signal_list (finish st).0)
unfolding finish
finish-IsBracketed st = elim (Bool-cases st.speech_active) [
  | inl opened ↦ rw (opened) (refl, refl)
  | inr closed ↦ rw (closed) refl
]

-- Over any stream the signals are bracketed: the service hears a start only when it was told no speech,
-- a restart or an end only within speech, and every start is followed by an end, the last one when the
-- stream ends.
pub signals-IsBracketed :
    (chunks : List Bool) (st : ManualVadState) → IsBracketed st.speech_active (signals chunks st)
unfolding signals
signals-IsBracketed [] st = finish-IsBracketed st
signals-IsBracketed (loud ∷ chunks) st =
    Fits-IsBracketed st.speech_active (observe loud st) (signals chunks (observe loud st).1)
      (observe-Fits loud st) (signals-IsBracketed chunks (observe loud st).1)
