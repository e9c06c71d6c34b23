-- ===== src/Scene.antt =====
-- apps/server/domain/video_captions/scene_split.py: from slate texts to scene segments.
pub mod Tokens
pub mod Keys
pub mod Boundaries
pub mod Runs
pub mod Labels
pub mod Canonical
