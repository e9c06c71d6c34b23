-- ===== src/Tests.antt =====
-- The development at concrete inputs: an interpreter's table for ASCII, a short film and a meeting.
pub mod Scenes
pub mod Boundaries
pub mod Limiter
pub mod Tokens
pub mod Subtitles
pub mod Meetings
pub mod Runs
pub mod Checks
pub mod Polls
pub mod Handshakes
pub mod Exporting
pub mod Glossaries
pub mod Translations
pub mod Utterances
pub mod Aligning
pub mod Speaking
pub mod Slates
pub mod Files
use yeson_meet.Prelude.{ℕ, Bool, ◌&&◌, ◌||◌, [], ◌∷◌, leb, nat_eq, if◌then◌else◌, ◌+◌, ◌-◌}
use yeson_meet.Prelude.Text.{CharTable, codes}
use yeson_meet.Scene.Tokens.{SlateRule}

abbrev pub within : ℕ → ℕ → ℕ → Bool
within a b c = leb a c && leb c b

abbrev pub ascii : CharTable
ascii = record {
  is_space = λ c. nat_eq c 32 || within 9 13 c;
  is_digit = within 48 57;
  is_upper = within 65 90;
  is_lower = within 97 122;
  lower = λ c. (if within 65 90 c then c + 32 else c) ∷ [];
  upper = λ c. (if within 97 122 c then c - 32 else c) ∷ [];
}

-- Sequence and scene of a slate such as `EP_010_2`.
abbrev pub rule : SlateRule
rule = record { delimiters = codes "_" ∷ []; seq_tokens = 1 ∷ []; scene_tokens = 2 ∷ [] }
