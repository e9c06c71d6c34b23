-- ===== src/Tests/Files.antt =====
-- The SRT file of two captions, one of them on several lines.
use yeson_meet.Prelude.{[], ◌∷◌, ◌++◌, ◌≡◌, arith, refl, some}
use yeson_meet.Prelude.Text.{codes, decimal, join}
use yeson_meet.Captions.{SubSegment}
use yeson_meet.Captions.Srt.{hms_ms, segments_to_srt, words_from}
use yeson_meet.Captions.Srt.Stamps.{read_stamp, read_stamp-hms_ms}
use yeson_meet.Captions.Srt.Blocks.{lines_of, srt_lines, lines_of-segments_to_srt}
use yeson_meet.Tests.{ascii}

abbrev broken : SubSegment
broken = record {
  seq = 12;
  start_ms = 61500;
  end_ms = 3723004;
  text = codes " two" ++ (10 ∷ (10 ∷ codes "lines "));
}

abbrev short : SubSegment
short = record { seq = 13; start_ms = 3723004; end_ms = 3724000; text = codes "Hi" }

stamped : hms_ms 3723004 ≡ codes "01:02:03,004"
unfolding hms_ms decimal
stamped = refl

joined : join (codes " ") (words_from ascii [] broken.text) ≡ codes "two lines"
unfolding join words_from
joined = refl

read_stamp-hms_ms_example : read_stamp (hms_ms 3723004) ≡ some 3723004
read_stamp-hms_ms_example = read_stamp-hms_ms 3723004 (omega arith)

lines_of-segments_to_srt_example :
    lines_of (segments_to_srt ascii (broken ∷ short ∷ [])) ≡ srt_lines ascii (broken ∷ short ∷ [])
lines_of-segments_to_srt_example = lines_of-segments_to_srt ascii refl broken (short ∷ [])
