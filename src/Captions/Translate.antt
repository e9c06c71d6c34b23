-- ===== src/Captions/Translate.antt =====
-- apps/server/domain/video_captions/translate.py: the translation of captions in batches, by a service
-- that can refuse a batch, miscount it or crash. The service is an argument: it has a state of its own.
-- Of the log, the warnings about lines that keep their source text are modelled.
pub mod Resilient
pub mod Chunks
use yeson_meet.Prelude.{
  ℕ, List, [], drop, if◌then◌else◌, length, map, nat_eq, suc, take, zero, ◌++◌, ◌/◌, ◌∷◌, false,
  true,
}
use yeson_meet.Prelude.Text.{Str, CharTable, codes, decimal, strip}
use yeson_meet.Glossary.{Term, apply_ko_corrections}
use yeson_meet.Captions.{SubSegment}

-- The outcome of `translate_batch`: texts, a `TranslationError`, or another exception.
pub data Answer : Type 0 where
  batch : List Str → Answer
  refused : Str → Answer
  crashed : Str → Answer

abbrev pub Service {ℓ} : Type ℓ → Type ℓ
Service σ = σ → List Str → Answer × σ

-- "1줄 번역 실패": the cause, and the start of the text that is kept.
pub record Warning : Type 0 where
  pub cause : Str
  pub source : Str

-- What a translation returns, or the exception that it passes on; the warnings and the service.
pub data Outcome {ℓ} (σ : Type ℓ) (A : Type 0) : Type ℓ where
  finished : A → List Warning → σ → Outcome σ A
  raised : Str → List Warning → σ → Outcome σ A

-- What follows, unless there was an exception.
unfoldable pub and_then {ℓ} :
    {σ : Type ℓ} {A B : Type 0} → Outcome σ A → (A → List Warning → σ → Outcome σ B) → Outcome σ B
and_then (finished a log st) next = next a log st
and_then (raised e log st) next = raised e log st

-- What the `try` makes of an answer.
pub data Verdict : Type 0 where
  accepted : List Str → Verdict
  mistaken : Str → Verdict
  broken : Str → Verdict

unfoldable pub mismatch : ℕ → ℕ → Str
mismatch got sent =
    codes "반환 개수 불일치(" ++ (decimal got ++ (codes " != " ++ (decimal sent ++ codes ")")))

unfoldable pub judge : List Str → Answer → Verdict
unfolding mismatch
judge texts (batch result) =
    if nat_eq (length result) (length texts)
    then accepted result
    else mistaken (mismatch (length result) (length texts))
judge texts (refused why) = mistaken why
judge texts (crashed why) = broken why

-- `cause or "원인 미상"`
unfoldable pub cause_or_unknown : Str → Str
cause_or_unknown [] = codes "원인 미상"
cause_or_unknown (c ∷ cause) = c ∷ cause

abbrev pub warning_of : Str → Str → Warning
warning_of cause text = record { cause = cause_or_unknown cause; source = take 60 text }

-- `replace(seg, text=apply_ko_corrections(ko.strip()))`
abbrev pub with_korean : CharTable → List Term → SubSegment → Str → SubSegment
with_korean t terms s ko = record {
  seq = s.seq;
  start_ms = s.start_ms;
  end_ms = s.end_ms;
  text = apply_ko_corrections terms (strip t ko);
}

-- The loop over the captions of a chunk and their translations.
unfoldable pub retext : CharTable → List Term → List SubSegment → List Str → List SubSegment
retext t terms [] kos = []
retext t terms (s ∷ ss) [] = []
retext t terms (s ∷ ss) (ko ∷ kos) = with_korean t terms s ko ∷ retext t terms ss kos

module _ {ℓ} {σ : Type ℓ} (service : Service σ) where
  -- `_translate_resilient`. Its argument `cause` is left out: it is written before it is read. Every
  -- call is on fewer texts than its caller, so the number of texts is fuel enough.
  unfoldable pub resilient : ℕ → List Str → List Warning → σ → Outcome σ (List Str)
  unfolding judge cause_or_unknown and_then
  resilient fuel [] log st = finished [] log st
  resilient zero (x ∷ xs) log st = raised (codes "RecursionError") log st
  resilient (suc fuel) (x ∷ xs) log st = elim (judge (x ∷ xs) (service st (x ∷ xs)).0) [
    | accepted result ↦ finished result log (service st (x ∷ xs)).1
    | broken why ↦ raised why log (service st (x ∷ xs)).1
    | mistaken why ↦ elim (nat_eq (length (x ∷ xs)) 1) [
      | true ↦ finished (x ∷ xs) (log ++ warning_of why x ∷ []) (service st (x ∷ xs)).1
      | false ↦
          and_then
            (resilient fuel (take (length (x ∷ xs) / 2) (x ∷ xs)) log (service st (x ∷ xs)).1)
            (λ left log' st'.
              and_then (resilient fuel (drop (length (x ∷ xs) / 2) (x ∷ xs)) log' st')
                (λ right log'' st''. finished (left ++ right) log'' st''))
    ]
  ]

  unfoldable pub translate_resilient : List Str → List Warning → σ → Outcome σ (List Str)
  unfolding resilient
  translate_resilient texts log st = resilient (length texts) texts log st

  -- `translate_segments`: the loop over the chunks, with what is left of the segments; a round takes
  -- one off at least, so their number is fuel enough. The reports of progress are left out.
  unfoldable pub chunks :
      CharTable
      → List Term
      → ℕ
      → ℕ
      → List SubSegment
      → List SubSegment
      → List Warning
      → σ
      → Outcome σ (List SubSegment)
  unfolding translate_resilient retext
  chunks t terms size fuel out [] log st = finished out log st
  chunks t terms size zero out (s ∷ ss) log st = raised (codes "RecursionError") log st
  chunks t terms size (suc fuel) out (s ∷ ss) log st =
      and_then (translate_resilient (map (λ seg. seg.text) (take size (s ∷ ss))) log st)
        (λ kos log' st'.
          chunks t terms size fuel (out ++ retext t terms (take size (s ∷ ss)) kos)
            (drop size (s ∷ ss)) log' st')

  unfoldable pub translate_segments :
      CharTable → List Term → ℕ → List SubSegment → σ → Outcome σ (List SubSegment)
  unfolding chunks
  translate_segments t terms size segments st = elim size [
    | zero ↦ raised (codes "ValueError") [] st
    | suc n ↦ chunks t terms (suc n) (length segments) [] segments [] st
  ]
