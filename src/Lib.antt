-- ===== src/Lib.antt =====
-- Verification library of yeson_meet, the server of live meeting subtitles and of the cutting of
-- animation videos into scenes. It models the parts of apps/server that decide something, in the
-- order in which a video and a meeting pass through them.
--
-- A video. The scan reads the slate text of sampled frames or of runs of equal frames.
-- Scene.Canonical corrects misread texts by the shape that most of them have, Scene.Tokens and
-- Scene.Keys turn a text into a group key and a label, Scene.Boundaries and Scene.Runs make the
-- segments, Scene.Labels names the files (in apps/server/domain/video_captions/scene_split.py).
-- Fingerprint finds the cuts, the runs between them and the frame to read (fingerprint.py beside
-- it, its slow fades in Fingerprint.Fades). Scan gives unreadable runs to the slates around them
-- (Scan.Blocks), moves each cut to where the slate changes (Scan, Scan.Align) and, in Scan.Whole,
-- goes from the distances of the frames to the aligned runs (scene_scan_fp.py). Refine moves each
-- boundary to the frame where the slate changes, and Refine.Run is the run around it with the
-- status that a client polls, a cancellation included (scene_refine.py, and cancel_scene_ops in
-- apps/server/api/v1/video_jobs.py); Boundary says which boundaries show the slate of a neighbour
-- (boundary_check.py, Boundary.Run its run), Export writes the segments to files
-- (scene_export.py), Jobs is the registry of the runs of a video job and the guard against writes
-- of an older run (job_tasks.py). Captions.Translate is the translation of the captions by a
-- service that makes mistakes (translate.py), Captions.Guard the guard against wrong output and
-- the tests for captions that are still English (mlx_live_translate.py in apps/server/ai, and
-- translate.py), Captions.Retranslate the handler that translates those again
-- (apps/server/api/v1/video_jobs.py), Captions.Srt writes the captions to a file (srt.py).
-- Glossary is the list of terms that both kinds of translation use, with the files of the operator
-- and their cache (apps/server/ai/glossary.py).
--
-- A meeting. Live.Handshake says which device may stream it and Live.Normalizer is the numbering
-- of subtitles in apps/server/ws/sidecar.py, Live.Bus the fan-out in ws/bus.py, Live.Session the
-- audio queue and the reconnect loop in ai/live_session.py, Live.AudioStats the counters in
-- ws/audio_stats.py. Live.Segments cuts the audio for the service and tells it when someone speaks
-- (ai/gemini_live.py), Live.Assembler folds the fragments that come back into utterances
-- (ai/gemini_live_translate.py). Ops.Safety ends meetings that run too long or lost their sidecar
-- (ops/session_safety.py and ops/session_safety_scheduler.py), Ops.Alerts holds the operator's
-- alerts (ops/alerts.py). Auth.RateLimit and Auth.CaptureTokens are the login limiter and the
-- capture tokens (auth/login_rate_limit.py, auth/capture_tokens.py). Prelude has Python's dict and
-- str, Tests the library at concrete inputs.
--
-- How the code is translated. A method that changes its object takes the state and gives the new
-- one; a class is a record, a dict an association list in insertion order, a clock an argument. A
-- sequence of calls is a list of a data type of calls, which `run` folds. A time is a natural
-- number of ticks (milliseconds of a video, seconds or finer of a meeting); a text is a list of
-- code points, and what Unicode says of a character is the parameter `CharTable`. What OCR,
-- ffmpeg, the database, SHA-256 and the services of translation give is a parameter; a service has
-- a state that each call passes on. Delimiters are not empty and the indices of tokens are not
-- negative, as the program's own rules have it. A threshold that the code compares in halves is
-- doubled on both sides.
--
-- Loops. All are structural but the bisection of Refine, which has the width of the window as
-- fuel: it halves the width in each round and ends at 20 ms, so that fuel is never used up, and
-- the two recursions of Captions.Translate: the halving of a batch has the number of its texts,
-- which each call makes smaller, and the loop over the chunks the number of captions, of which
-- each round takes one at least. The widening of the window, the rounds of absorption and the
-- walks of Scan have the code's own limit of rounds. The digits of a number have one round more
-- than the number.
--
-- Not modelled: the semaphores of the runners, a cancellation of the export or of a scan at its
-- await, floating-point frame times, the stream of a capture socket after its handshake, the
-- handlers of apps/server/api but one and a part of another, the clients of the services of
-- translation and recognition, the burning of captions, the checks of subtitle quality, PDF
-- translation, reports, backup, and the programs in other languages.
pub mod Prelude
pub mod Auth
pub mod Scene
pub mod Refine
pub mod Export
pub mod Fingerprint
pub mod Scan
pub mod Glossary
pub mod Captions
pub mod Live
pub mod Ops
pub mod Jobs
pub mod Boundary
pub mod Tests
