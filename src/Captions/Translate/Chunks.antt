-- ===== src/Captions/Translate/Chunks.antt =====
-- apps/server/domain/video_captions/translate.py: the translation of all captions, chunk by chunk.
use yeson_meet.Prelude.{
  ℕ, List, [], ap, append-nil, append_assoc, arith, drop, length, map, refl, subst, suc, sym, take,
  take-drop, zero, ◌++◌, ◌∙◌, ◌∷◌, ◌≡◌, ◌≤◌, length-drop,
}
use yeson_meet.Prelude.Text.{Str, CharTable, strip}
use yeson_meet.Glossary.{Term, apply_ko_corrections}
use yeson_meet.Captions.{SubSegment}
use yeson_meet.Captions.Translate.{
  Service, Warning, Outcome, chunks, crashed, finished, raised, retext, and_then,
  translate_resilient, translate_segments, with_korean,
}
use yeson_meet.Captions.Translate.Resilient.{
  joined, nothing, Pieces, IsSound, Pieces-length, translate_resilient-IsSound,
}

abbrev pub texts : List SubSegment → List Str
texts ss = map (λ seg. seg.text) ss

-- The number and the times of a caption.
abbrev pub place : SubSegment → ℕ × (ℕ × ℕ)
place s = (s.seq, (s.start_ms, s.end_ms))

texts-append : (ss rs : List SubSegment) → texts (ss ++ rs) ≡ texts ss ++ texts rs
texts-append [] rs = refl
texts-append (s ∷ ss) rs = ap (◌∷◌ s.text) (texts-append ss rs)

length-texts : (ss : List SubSegment) → length (texts ss) ≡ length ss
length-texts [] = refl
length-texts (s ∷ ss) = ap suc (length-texts ss)

module _ (t : CharTable) (terms : List Term) where
  retext-append :
      (ss rs : List SubSegment) (kos kos' : List Str)
      → length kos ≡ length ss
      → retext t terms (ss ++ rs) (kos ++ kos') ≡ retext t terms ss kos ++ retext t terms rs kos'
  unfolding retext
  retext-append [] rs [] kos' h = refl
  retext-append [] rs (ko ∷ kos) kos' h = absurd (omega arith)
  retext-append (s ∷ ss) rs [] kos' h = absurd (omega arith)
  retext-append (s ∷ ss) rs (ko ∷ kos) kos' h =
      ap (◌∷◌ (with_korean t terms s ko)) (retext-append ss rs kos kos' (omega arith))

  retext-place :
      (ss : List SubSegment) (kos : List Str)
      → length kos ≡ length ss
      → map place (retext t terms ss kos) ≡ map place ss
  unfolding retext
  retext-place [] kos h = refl
  retext-place (s ∷ ss) [] h = absurd (omega arith)
  retext-place (s ∷ ss) (ko ∷ kos) h = ap (◌∷◌ (place s)) (retext-place ss kos (omega arith))

  -- A caption has the number and the times of one before, and its text is a translation, stripped and
  -- with its terms corrected.
  abbrev pub IsCaption : SubSegment → Str → SubSegment → Type 0
  IsCaption s ko o =
      (o.seq ≡ s.seq)
      × (o.start_ms ≡ s.start_ms)
      × (o.end_ms ≡ s.end_ms)
      × (o.text ≡ apply_ko_corrections terms (strip t ko))

  abbrev pub AreCaptions : List SubSegment → List Str → List SubSegment → Type 0
  AreCaptions [] [] [] = Unit
  AreCaptions (s ∷ ss) (ko ∷ kos) (o ∷ out) = IsCaption s ko o × AreCaptions ss kos out
  AreCaptions _ _ _ = ⊥

  retext-AreCaptions :
      (ss : List SubSegment) (kos : List Str)
      → length kos ≡ length ss
      → AreCaptions ss kos (retext t terms ss kos)
  unfolding retext
  retext-AreCaptions [] [] h = tt
  retext-AreCaptions [] (ko ∷ kos) h = absurd (omega arith)
  retext-AreCaptions (s ∷ ss) [] h = absurd (omega arith)
  retext-AreCaptions (s ∷ ss) (ko ∷ kos) h =
      ((refl, refl, refl, refl), retext-AreCaptions ss kos (omega arith))

  module _ {ℓ} {σ : Type ℓ} (service : Service σ) where
    -- The captions with their texts replaced by translations as the service gave them, stripped and
    -- corrected; or an exception of the service.
    abbrev pub IsTranslated :
        List SubSegment → List SubSegment → List Warning → Outcome σ (List SubSegment) → Type ℓ
    IsTranslated before ss log (finished out log' st) =
        (kos : List Str) × (w : List Warning) × ((out ≡ before ++ retext t terms ss kos)
          × ((log' ≡ log ++ w) × Pieces service (texts ss) kos w))
    IsTranslated before ss log (raised e log' st) =
        (s : σ) × (ts : List Str) × ((service s ts).0 ≡ crashed e)

    -- A chunk is translated, and then the rest.
    further :
        (n : ℕ) (before ss : List SubSegment) (kos : List Str) (v log log' : List Warning)
        (o : Outcome σ (List SubSegment))
        → log' ≡ log ++ v
        → Pieces service (texts (take n ss)) kos v
        → IsTranslated (before ++ retext t terms (take n ss) kos) (drop n ss) log' o
        → IsTranslated before ss log o
    further n before ss kos v log log' (raised e log'' st) el p h = h
    further n before ss kos v log log' (finished out log'' st) el p (kos', w, (eo, (ew, q))) = (
      kos ++ kos',
      v ++ w,
      (
        eo
            ∙ (append_assoc before (retext t terms (take n ss) kos)
                  (retext t terms (drop n ss) kos')
                ∙ ap (λ zs. before ++ zs)
                    (sym (
                        retext-append (take n ss) (drop n ss) kos kos'
                          (Pieces-length service p ∙ length-texts (take n ss)))
                      ∙ ap (λ zs. retext t terms zs (kos ++ kos')) (take-drop n ss))),
        (
          ew ∙ (ap (λ l. l ++ w) el ∙ append_assoc log v w),
          subst (λ ts. Pieces service ts (kos ++ kos') (v ++ w))
              (sym (texts-append (take n ss) (drop n ss)) ∙ ap texts (take-drop n ss))
              (joined (texts (take n ss)) kos (texts (drop n ss)) kos' v w p q),
        ),
      ),
    )

    then_further :
        (n : ℕ) (before ss : List SubSegment) (log : List Warning) (o : Outcome σ (List Str))
        (next : List Str → List Warning → σ → Outcome σ (List SubSegment))
        → IsSound service (texts (take n ss)) log o
        → ((kos : List Str) (log' : List Warning) (st : σ)
            → IsTranslated
                (before ++ retext t terms (take n ss) kos)
                (drop n ss)
                log'
                (next kos log' st))
        → IsTranslated before ss log (and_then o next)
    unfolding and_then
    then_further n before ss log (raised e log' st) next h k = h
    then_further n before ss log (finished kos log' st) next (v, (el, p)) k =
        further n before ss kos v log log' (next kos log' st) el p (k kos log' st)

    chunks-IsTranslated :
        (size fuel : ℕ) (before ss : List SubSegment) (log : List Warning) (st : σ)
        → 1 ≤ size
        → length ss ≤ fuel
        → IsTranslated before ss log (chunks service t terms size fuel before ss log st)
    unfolding chunks
    chunks-IsTranslated size fuel before [] log st pos h =
        ([], [], (sym (append-nil before), (sym (append-nil log), nothing)))
    chunks-IsTranslated size zero before (s ∷ ss) log st pos h = absurd (omega arith)
    chunks-IsTranslated size (suc fuel) before (s ∷ ss) log st pos h =
        then_further size before (s ∷ ss) log
          (translate_resilient service (texts (take size (s ∷ ss))) log st)
          (λ kos log' st'.
            chunks service t terms size fuel (before ++ retext t terms (take size (s ∷ ss)) kos)
              (drop size (s ∷ ss)) log' st')
          (translate_resilient-IsSound service (texts (take size (s ∷ ss))) log st)
          (λ kos log' st'.
            chunks-IsTranslated size fuel (before ++ retext t terms (take size (s ∷ ss)) kos)
              (drop size (s ∷ ss)) log' st' pos (omega (arith, length-drop size (s ∷ ss))))

    chunked-IsTranslated :
        (size : ℕ) (ss : List SubSegment) (st : σ)
        → 1 ≤ size
        → IsTranslated [] ss [] (translate_segments service t terms size ss st)
    unfolding translate_segments
    chunked-IsTranslated zero ss st pos = absurd (omega arith)
    chunked-IsTranslated (suc n) ss st pos =
        chunks-IsTranslated (suc n) (length ss) [] ss [] st pos (omega arith)

    -- The captions with the translations of their texts, put together as for one batch; or an exception
    -- of the service.
    abbrev pub IsCaptioned : List SubSegment → Outcome σ (List SubSegment) → Type ℓ
    IsCaptioned ss (finished out log st) =
        (kos : List Str) × (AreCaptions ss kos out × Pieces service (texts ss) kos log)
    IsCaptioned ss (raised e log st) = (s : σ) × (ts : List Str) × ((service s ts).0 ≡ crashed e)

    IsTranslated-IsCaptioned :
        (ss : List SubSegment) (o : Outcome σ (List SubSegment))
        → IsTranslated [] ss [] o
        → IsCaptioned ss o
    IsTranslated-IsCaptioned ss (raised e log st) h = h
    IsTranslated-IsCaptioned ss (finished out log st) (kos, w, (eo, (el, p))) = (
      kos,
      (
        subst (AreCaptions ss kos) (sym eo)
            (retext-AreCaptions ss kos (Pieces-length service p ∙ length-texts ss)),
        subst (Pieces service (texts ss) kos) (sym el) p,
      ),
    )

    -- With chunks of at least one caption, the captions come back in their order, each with its number
    -- and its times, with the stripped and corrected translation of its text in the place of the text;
    -- the translations are put together as for one batch. Or the service raised an exception.
    pub translate_segments-IsTranslated :
        (size : ℕ) (ss : List SubSegment) (st : σ)
        → 1 ≤ size
        → IsCaptioned ss (translate_segments service t terms size ss st)
    translate_segments-IsTranslated size ss st pos =
        IsTranslated-IsCaptioned ss (translate_segments service t terms size ss st)
          (chunked-IsTranslated size ss st pos)

    IsTranslated-place :
        (ss out : List SubSegment) (log : List Warning) (st : σ)
        → IsTranslated [] ss [] (finished out log st)
        → map place out ≡ map place ss
    IsTranslated-place ss out log st (kos, w, (e, (el, p))) =
        ap (map place) e ∙ retext-place ss kos (Pieces-length service p ∙ length-texts ss)

    -- What comes back has the numbers and the times of what was sent.
    pub translate_segments-place :
        (size : ℕ) (ss out : List SubSegment) (st st' : σ) (log : List Warning)
        → 1 ≤ size
        → translate_segments service t terms size ss st ≡ finished out log st'
        → map place out ≡ map place ss
    translate_segments-place size ss out st st' log pos h =
        IsTranslated-place ss out log st'
          (subst (IsTranslated [] ss []) h (chunked-IsTranslated size ss st pos))
