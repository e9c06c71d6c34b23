-- ===== src/Captions/Srt/Blocks.antt =====
-- apps/server/domain/video_captions/srt.py, `segments_to_srt`: the lines of the file.
use yeson_meet.Prelude.{
  ℕ, List, [], ◌∷◌, ◌++◌, ◌≡◌, ◌+◌, ◌-◌, ◌/◌, ◌%◌, arith, refl, zero, suc, false, Bool-cases, inl,
  inr, ltb, nat_eq, All, All-append, length, if◌then◌else◌, true, append-nil, append_assoc, subst,
}
use yeson_meet.Prelude.Text.{Str, decimal, decimal_fuel, CharTable, join, codes}
use yeson_meet.Captions.{SubSegment}
use yeson_meet.Captions.Srt.{padded, zeros, hms_ms, word, words_from, segments_to_srt, srt_block}

-- The lines of a text, the one behind the last line feed too.
abbrev pub line_before : ℕ → List Str → List Str
line_before c [] = (c ∷ []) ∷ []
line_before c (l ∷ ls) = (c ∷ l) ∷ ls

abbrev pub lines_of : Str → List Str
lines_of [] = [] ∷ []
lines_of (c ∷ s) = if nat_eq c 10 then [] ∷ lines_of s else line_before c (lines_of s)

abbrev pub IsInline : ℕ → Type 0
IsInline c = nat_eq c 10 ≡ false

lines_of-cut : (a s : Str) → All IsInline a → lines_of (a ++ (10 ∷ s)) ≡ a ∷ lines_of s
lines_of-cut [] s h = refl
lines_of-cut (c ∷ a) s h = rw (h.0, lines_of-cut a s h.1) refl

decimal_fuel-All : (f n : ℕ) → All IsInline (decimal_fuel f n)
unfolding decimal_fuel
decimal_fuel-All zero n = tt
decimal_fuel-All (suc f) n = elim (Bool-cases (ltb n 10)) [
  | inl one ↦ rw (one, decimal_fuel) (ground arith, tt)
  | inr more ↦
      rw (more, decimal_fuel)
        (All-append IsInline (decimal_fuel f (n / 10)) ((48 + n % 10) ∷ [])
          (decimal_fuel-All f (n / 10)) (ground arith, tt))
]

zeros-All : (n : ℕ) → All IsInline (zeros n)
unfolding zeros
zeros-All zero = tt
zeros-All (suc n) = (refl, zeros-All n)

padded-All : (width n : ℕ) → All IsInline (padded width n)
unfolding padded decimal
padded-All width n =
    All-append IsInline (zeros (width - length (decimal n))) (decimal n)
      (zeros-All (width - length (decimal n))) (decimal_fuel-All (suc n) n)

hms_ms-All : (ms : ℕ) → All IsInline (hms_ms ms)
unfolding hms_ms
hms_ms-All ms =
    let rem = ms % 3600000 in
    All-append IsInline (padded 2 (ms / 3600000)) _ (padded-All 2 (ms / 3600000)) (
      refl,
      All-append IsInline (padded 2 (rem / 60000)) _ (padded-All 2 (rem / 60000)) (
        refl,
        All-append IsInline (padded 2 (rem % 60000 / 1000)) _ (padded-All 2 (rem % 60000 / 1000))
            (refl, padded-All 3 (rem % 60000 % 1000)),
      ),
    )

join-All :
    (sep : Str) (ps : List Str)
    → All IsInline sep
    → All (All IsInline) ps
    → All IsInline (join sep ps)
unfolding join
join-All sep [] h k = tt
join-All sep (p ∷ []) h k = k.0
join-All sep (p ∷ q ∷ ps) h k =
    All-append IsInline p _ k.0 (All-append IsInline sep _ h (join-All sep (q ∷ ps) h k.1))

word-All : (w : Str) → All IsInline w → All (All IsInline) (word w)
word-All [] h = tt
word-All (c ∷ w) h = (h, tt)

dark-IsInline : (t : CharTable) (c : ℕ) → t.is_space 10 ≡ true → t.is_space c ≡ false → IsInline c
dark-IsInline t c feed dark = elim (Bool-cases (nat_eq c 10)) [
  | inl same ↦ grind arith
  | inr other ↦ other
]

-- The line of the times.
abbrev pub span_line : SubSegment → Str
span_line seg = hms_ms seg.start_ms ++ (codes " --> " ++ hms_ms seg.end_ms)

span_line-All : (seg : SubSegment) → All IsInline (span_line seg)
span_line-All seg =
    All-append IsInline (hms_ms seg.start_ms) _ (hms_ms-All seg.start_ms)
      (refl, (refl, (refl, (refl, (refl, hms_ms-All seg.end_ms)))))

module _ (t : CharTable) where
  -- The line of the text.
  abbrev pub text_line : SubSegment → Str
  text_line seg = join (codes " ") (words_from t [] seg.text)

  srt_block-append :
      (seg : SubSegment) (s : Str)
      → srt_block t seg ++ s
        ≡ decimal seg.seq ++ (10 ∷ (span_line seg ++ (10 ∷ (text_line seg ++ (10 ∷ s)))))
  unfolding srt_block
  srt_block-append seg s = simp (srt_block, append_assoc)

  -- Four lines of each segment: its number, its times, its text, and an empty one.
  abbrev pub srt_lines : List SubSegment → List Str
  srt_lines [] = []
  srt_lines (seg ∷ segs) = decimal seg.seq ∷ span_line seg ∷ text_line seg ∷ [] ∷ srt_lines segs

module _ (t : CharTable) (feed : t.is_space 10 ≡ true) where
  words_from-All : (w s : Str) → All IsInline w → All (All IsInline) (words_from t w s)
  unfolding words_from
  words_from-All w [] h = word-All w h
  words_from-All w (c ∷ s) h = elim (Bool-cases (t.is_space c)) [
    | inl blank ↦
        rw (blank, words_from)
          (All-append (All IsInline) (word w) _ (word-All w h) (words_from-All [] s tt))
    | inr dark ↦
        rw (dark, words_from)
          (words_from-All (w ++ (c ∷ [])) s
            (All-append IsInline w (c ∷ []) h (dark-IsInline t c feed dark, tt)))
  ]

  text_line-All : (seg : SubSegment) → All IsInline (text_line t seg)
  text_line-All seg =
      join-All (codes " ") (words_from t [] seg.text) (refl, tt) (words_from-All [] seg.text tt)

  lines_of-srt_block :
      (seg : SubSegment) (s : Str)
      → lines_of (srt_block t seg ++ s)
        ≡ decimal seg.seq ∷ span_line seg ∷ text_line t seg ∷ lines_of s
  unfolding decimal
  lines_of-srt_block seg s =
      rw
        (
          srt_block-append t seg s,
          lines_of-cut (decimal seg.seq) (span_line seg ++ (10 ∷ (text_line t seg ++ (10 ∷ s))))
              (decimal_fuel-All (suc seg.seq) seg.seq),
          lines_of-cut (span_line seg) (text_line t seg ++ (10 ∷ s)) (span_line-All seg),
          lines_of-cut (text_line t seg) s (text_line-All seg),
        )
        refl

  -- If a line feed is white space, then the file of some segments has four lines for each of them, whatever
  -- their texts contain: the number, the times, the words of the text, and an empty line.
  pub lines_of-segments_to_srt :
      (seg : SubSegment) (segs : List SubSegment)
      → lines_of (segments_to_srt t (seg ∷ segs)) ≡ srt_lines t (seg ∷ segs)
  unfolding segments_to_srt join
  lines_of-segments_to_srt seg [] =
      subst (λ s. lines_of s ≡ srt_lines t (seg ∷ [])) (append-nil (srt_block t seg))
        (lines_of-srt_block seg [])
  lines_of-segments_to_srt seg (next ∷ segs) =
      rw
        (
          segments_to_srt,
          lines_of-srt_block seg (10 ∷ segments_to_srt t (next ∷ segs)),
          lines_of-segments_to_srt next segs,
        )
        refl
