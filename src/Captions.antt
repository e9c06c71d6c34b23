-- ===== src/Captions.antt =====
-- apps/server/domain/video_captions: the captions of a video, their translation and their file.
pub mod Srt
pub mod Translate
pub mod Guard
pub mod Retranslate
use yeson_meet.Prelude.{ℕ}
use yeson_meet.Prelude.Text.{Str}

-- `SubSegment`
pub record SubSegment : Type 0 where
  pub seq : ℕ
  pub start_ms : ℕ
  pub end_ms : ℕ
  pub text : Str
