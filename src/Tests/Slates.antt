-- ===== src/Tests/Slates.antt =====
-- The slates of a short film, three of them misread.
use yeson_meet.Prelude.{List, [], ◌∷◌, ◌≡◌, refl}
use yeson_meet.Prelude.Text.{Str, codes, join, join_words, starts_with, strip}
use yeson_meet.Scene.Tokens.{tokenize}
use yeson_meet.Scene.Canonical.Whole.{canonicalize_texts, unify_lookalike_heads}
use yeson_meet.Scene.Canonical.Kept.{IsCanonical, canonicalize_texts-IsCanonical}
use yeson_meet.Tests.{ascii}
use yeson_meet.Tests.Boundaries.{delimiters}

-- An underscore lost, a letter for a digit, and a digit for an underscore.
abbrev slates : List Str
slates =
    codes "EP_O10_2"
    ∷ codes "EP_010_2"
    ∷ codes "EP_010_3"
    ∷ codes "EP0103"
    ∷ codes "EP_01013"
    ∷ codes "EP_020_4"
    ∷ []

corrected :
    canonicalize_texts ascii slates delimiters []
    ≡ codes "EP_010_2"
      ∷ codes "EP_010_2"
      ∷ codes "EP_010_3"
      ∷ codes "EP_010_3"
      ∷ codes "EP_010_3"
      ∷ codes "EP_020_4"
      ∷ []
unfolding canonicalize_texts yeson_meet.Scene.Canonical.label_template tokenize
    yeson_meet.Prelude.Text.starts_with yeson_meet.Prelude.Text.strip yeson_meet.Prelude.Dict.get
    yeson_meet.Scene.Canonical.somes yeson_meet.Prelude.Text.join_words
    yeson_meet.Captions.Guard.is_ascii_alpha yeson_meet.Prelude.Dict.put
    yeson_meet.Scene.Canonical.Reparse.reparse yeson_meet.Scene.Canonical.fill_template
    yeson_meet.Prelude.Text.join yeson_meet.Scene.Canonical.lookalike
    yeson_meet.Scene.Canonical.distinct yeson_meet.Scene.Canonical.deletions
corrected = refl

canonicalize_texts-IsCanonical_example :
    IsCanonical ascii delimiters
      (unify_lookalike_heads ascii (tokenize ascii [] delimiters) delimiters slates)
      (canonicalize_texts ascii slates delimiters [])
canonicalize_texts-IsCanonical_example = canonicalize_texts-IsCanonical ascii slates delimiters []
