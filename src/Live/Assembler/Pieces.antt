-- ===== src/Live/Assembler/Pieces.antt =====
-- apps/server/ai/gemini_live_translate.py: how the buffers are cut into utterances.
use yeson_meet.Prelude.{
  ℕ, List, keep, All, [], ap, append-nil, append_assoc, arith, drop, false, refl, subst, sym, take,
  take-drop, ◌++◌, ◌∙◌, ◌∷◌, ◌≡◌,
}
use yeson_meet.Prelude.Text.{Str, CharTable, strip}
use yeson_meet.Glossary.{Term, apply_ko_corrections}
use yeson_meet.Live.Assembler.{
  EmitState, Thresholds, Instant, Utterance, Step, is_blank, en_split, finalize, utterance,
}
use yeson_meet.Live.Assembler.Calls.{Call, fragment, stream_end, tick}

-- English and Korean as they were cut from the buffers.
pub record Piece : Type 0 where
  pub en : Str
  pub ko : Str

abbrev pub en_of : List Piece → Str
en_of [] = []
en_of (p ∷ ps) = p.en ++ en_of ps

abbrev pub ko_of : List Piece → Str
ko_of [] = []
ko_of (p ∷ ps) = p.ko ++ ko_of ps

-- The fragments of a sequence of calls, put together.
abbrev pub fed_en : List Call → Str
fed_en [] = []
fed_en (fragment en ko at ∷ cs) = en ++ fed_en cs
fed_en (tick at ∷ cs) = fed_en cs
fed_en (stream_end at ∷ cs) = fed_en cs

abbrev pub fed_ko : List Call → Str
fed_ko [] = []
fed_ko (fragment en ko at ∷ cs) = ko ++ fed_ko cs
fed_ko (tick at ∷ cs) = fed_ko cs
fed_ko (stream_end at ∷ cs) = fed_ko cs

pub en_of-append : (ps qs : List Piece) → en_of (ps ++ qs) ≡ en_of ps ++ en_of qs
en_of-append [] qs = refl
en_of-append (p ∷ ps) qs =
    ap (λ s. p.en ++ s) (en_of-append ps qs) ∙ sym (append_assoc p.en (en_of ps) (en_of qs))

pub ko_of-append : (ps qs : List Piece) → ko_of (ps ++ qs) ≡ ko_of ps ++ ko_of qs
ko_of-append [] qs = refl
ko_of-append (p ∷ ps) qs =
    ap (λ s. p.ko ++ s) (ko_of-append ps qs) ∙ sym (append_assoc p.ko (ko_of ps) (ko_of qs))

-- Taken from the front of one text, and then from what is left with more behind it.
pub taken_twice :
    (first second rest middle start more : Str)
    → first ++ middle ≡ start
    → second ++ rest ≡ middle ++ more
    → (first ++ second) ++ rest ≡ start ++ more
taken_twice first second rest middle start more h k =
    append_assoc first second rest
    ∙ (ap (λ s. first ++ s) k ∙ (sym (append_assoc first middle more) ∙ ap (λ s. s ++ more) h))

module _ (t : CharTable) (terms : List Term) (limits : Thresholds) where
  abbrev pub finals : List Utterance → List Utterance
  finals = keep (λ u. u.is_final)

  -- The texts of the utterances are those of the pieces, stripped, and the Korean corrected.
  abbrev pub Say : List Utterance → List Piece → Type 0
  Say [] [] = Unit
  Say (u ∷ us) (p ∷ ps) =
      ((u.text_en ≡ strip t p.en) × (u.text_ko ≡ apply_ko_corrections terms (strip t p.ko)))
      × Say us ps
  Say _ _ = ⊥

  -- The final utterances are cut from the front of the two texts, no Korean piece is blank, and the
  -- rest of the texts is in the buffers.
  pub record Drains (en ko : Str) (step : Step) : Type 0 where
    pub pieces : List Piece
    pub said : Say (finals step.0) pieces
    pub filled : All (λ (p : Piece). is_blank t terms limits p.ko ≡ false) pieces
    pub en_rest : en_of pieces ++ step.1.en_buffer ≡ en
    pub ko_rest : ko_of pieces ++ step.1.ko_buffer ≡ ko

  pub Say-append :
      (us vs : List Utterance) (ps qs : List Piece)
      → Say us ps
      → Say vs qs
      → Say (us ++ vs) (ps ++ qs)
  Say-append [] vs [] qs h k = k
  Say-append (u ∷ us) vs (p ∷ ps) qs h k = (h.0, Say-append us vs ps qs h.1 k)
  Say-append [] vs (p ∷ ps) qs h k = absurd h
  Say-append (u ∷ us) vs [] qs h k = absurd h

  pub finals-append : (us vs : List Utterance) → finals (us ++ vs) ≡ finals us ++ finals vs
  finals-append [] vs = refl
  finals-append (u ∷ us) vs = ground (arith, finals-append us vs)

  pub finalize-Drains :
      (n : ℕ) (st : EmitState) (at : Instant)
      → is_blank t terms limits (take n st.ko_buffer) ≡ false
      → Drains st.en_buffer st.ko_buffer (finalize t terms limits n st at)
  unfolding finalize utterance
  finalize-Drains n st at h =
      let cut = en_split t terms limits st.en_buffer (drop n st.ko_buffer) in
      record {
        pieces = record { en = take cut st.en_buffer; ko = take n st.ko_buffer } ∷ [];
        said = ((refl, refl), tt);
        filled = (h, tt);
        en_rest =
            ap (λ s. s ++ drop cut st.en_buffer) (append-nil (take cut st.en_buffer))
            ∙ take-drop cut st.en_buffer;
        ko_rest =
            ap (λ s. s ++ drop n st.ko_buffer) (append-nil (take n st.ko_buffer))
            ∙ take-drop n st.ko_buffer;
      }

  -- Nothing is cut.
  pub nothing_final :
      (st st' : EmitState) (us : List Utterance)
      → finals us ≡ []
      → st'.en_buffer ≡ st.en_buffer
      → st'.ko_buffer ≡ st.ko_buffer
      → Drains st.en_buffer st.ko_buffer (us, st')
  nothing_final st st' us h k l = record {
    pieces = [];
    said = subst (λ vs. Say vs []) (sym h) tt;
    filled = tt;
    en_rest = k;
    ko_rest = l;
  }
