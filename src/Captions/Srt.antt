-- ===== src/Captions/Srt.antt =====
-- apps/server/domain/video_captions/srt.py: the SRT file and the colour of the burned-in captions. Times
-- and sequence numbers are not negative.
pub mod Stamps
pub mod Blocks
use yeson_meet.Prelude.{
  ℕ, List, [], ◌∷◌, ◌++◌, ◌-◌, ◌/◌, ◌%◌, zero, suc, if◌then◌else◌, map, length,
}
use yeson_meet.Prelude.Text.{Str, CharTable, codes, decimal, join}
use yeson_meet.Captions.{SubSegment}

-- Format `0wd`: at least so many digits.
unfoldable pub zeros : ℕ → Str
zeros zero = []
zeros (suc n) = 48 ∷ zeros n

unfoldable pub padded : ℕ → ℕ → Str
unfolding zeros decimal
padded width n = zeros (width - length (decimal n)) ++ decimal n

-- `_hms_ms`
unfoldable pub hms_ms : ℕ → Str
unfolding padded
hms_ms ms =
    let rem = ms % 3600000 in
    padded 2 (ms / 3600000)
    ++ (b':'
        ∷ (padded 2 (rem / 60000)
            ++ (b':'
                ∷ (padded 2 ((rem % 60000) / 1000) ++ (b',' ∷ padded 3 ((rem % 60000) % 1000))))))

-- A word, if it is not empty.
abbrev pub word : Str → List Str
word [] = []
word (c ∷ s) = (c ∷ s) ∷ []

module _ (t : CharTable) where
  -- s.split(), with the word that is being read
  unfoldable pub words_from : Str → Str → List Str
  words_from w [] = word w
  words_from w (c ∷ s) =
      if t.is_space c then word w ++ words_from [] s else words_from (w ++ (c ∷ [])) s

  unfoldable pub srt_block : SubSegment → Str
  unfolding words_from hms_ms
  srt_block seg =
      decimal seg.seq
      ++ (10
          ∷ (hms_ms seg.start_ms
              ++ (codes " --> "
                  ++ (hms_ms seg.end_ms
                      ++ (10 ∷ (join (codes " ") (words_from [] seg.text) ++ (10 ∷ [])))))))

  unfoldable pub segments_to_srt : List SubSegment → Str
  unfolding srt_block
  segments_to_srt segments = join (10 ∷ []) (map srt_block segments)
