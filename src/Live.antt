-- ===== src/Live.antt =====
-- The live subtitles of a meeting: apps/server/ws/bus.py, the sequence numbers of
-- apps/server/ws/sidecar.py, apps/server/ai/live_session.py and apps/server/ws/audio_stats.py; the
-- audio segments of apps/server/ai/gemini_live.py and the utterances of
-- apps/server/ai/gemini_live_translate.py.
pub mod Normalizer
pub mod Bus
pub mod Session
pub mod AudioStats
pub mod Handshake
pub mod Assembler
pub mod Segments
