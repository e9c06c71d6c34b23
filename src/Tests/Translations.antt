-- ===== src/Tests/Translations.antt =====
-- A service that refuses batches of more than one text, and does not know one of the texts.
use yeson_meet.Prelude.{ℕ, List, [], arith, if◌then◌else◌, true, ◌+◌, ◌==◌, ◌∷◌, ◌≡◌, text_eq, refl}
use yeson_meet.Prelude.Text.{Str, codes, strip}
use yeson_meet.Captions.{SubSegment}
use yeson_meet.Captions.Translate.{
  Service, translate_resilient, translate_segments, batch, refused, finished,
}
use yeson_meet.Captions.Translate.Resilient.{IsSound, translate_resilient-IsSound}
use yeson_meet.Captions.Translate.Chunks.{IsCaptioned, translate_segments-IsTranslated}
use yeson_meet.Captions.Guard.{apply_ko_guard, is_untranslated}
use yeson_meet.Captions.Guard.Verdicts.{each, is_rejected_or_copy, apply_ko_guard-is_untranslated}
use yeson_meet.Captions.Retranslate.{Row, retranslate}
use yeson_meet.Captions.Retranslate.Remaining.{IsHonest, retranslate-IsHonest}
use yeson_meet.Tests.{ascii, within}

-- Its state is the number of its calls.
abbrev picky : Service ℕ
picky n [] = (batch [], n + 1)
picky n (x ∷ []) =
    (if x == codes "Hi" then batch (codes "안녕" ∷ []) else refused (codes "unknown"), n + 1)
picky n (x ∷ y ∷ xs) = (batch (codes "안녕" ∷ []), n + 1)

abbrev lines : List Str
lines = codes "Hi" ∷ codes "Psst" ∷ codes "Hi" ∷ []

-- The batch is halved until the unknown text stands alone and is kept.
halved :
    translate_resilient picky lines [] 0
    ≡ finished
        (codes "안녕" ∷ codes "Psst" ∷ codes "안녕" ∷ [])
        (record { cause = codes "unknown"; source = codes "Psst" } ∷ [])
        5
unfolding translate_resilient
halved = refl

translate_resilient-IsSound_example : IsSound picky lines [] (translate_resilient picky lines [] 0)
translate_resilient-IsSound_example = translate_resilient-IsSound picky lines [] 0

abbrev captions : List SubSegment
captions =
    record { seq = 1; start_ms = 0; end_ms = 900; text = codes "Hi" }
    ∷ record { seq = 2; start_ms = 900; end_ms = 1500; text = codes "Psst" }
    ∷ []

translate_segments-IsTranslated_example :
    IsCaptioned ascii [] picky captions (translate_segments picky ascii [] 1 captions 0)
translate_segments-IsTranslated_example =
    translate_segments-IsTranslated ascii [] picky 1 captions 0 (omega arith)

hi_filled : ¬ (strip ascii (codes "Hi") ≡ [])
unfolding strip
hi_filled h = ground (arith, h)

apply_ko_guard-is_untranslated_example :
    each ascii
      (is_untranslated ascii)
      (codes "Hi" ∷ [])
      (apply_ko_guard ascii (within 48 57) (codes "Hi" ∷ []) (codes "안녕" ∷ []))
    ≡ each ascii (is_rejected_or_copy ascii (within 48 57)) (codes "Hi" ∷ []) (codes "안녕" ∷ [])
apply_ko_guard-is_untranslated_example =
    apply_ko_guard-is_untranslated ascii (within 48 57) (codes "Hi" ∷ []) (codes "안녕" ∷ [])
      (hi_filled, tt)

-- The first row copies its source, the second was written by hand.
abbrev stored : List Row
stored =
    record { seq = 1; start_ms = 0; end_ms = 900; text_en = codes "Hi"; text_ko = codes "Hi" }
    ∷ record { seq = 2; start_ms = 900; end_ms = 1500; text_en = codes "Psst"; text_ko = codes "쉿" }
    ∷ []

retranslate-IsHonest_example :
    IsHonest ascii stored (retranslate ascii picky [] (codes "review") true stored 0)
retranslate-IsHonest_example = retranslate-IsHonest ascii picky [] (codes "review") true stored 0
