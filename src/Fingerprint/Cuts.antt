-- ===== src/Fingerprint/Cuts.antt =====
-- The detected cuts and the runs between them.
use yeson_meet.Prelude.{
  ℕ, List, Option, [], length, some, true, ◌*◌, ◌+◌, ◌<◌, ◌∷◌, ◌≡◌, ◌≤◌, ◌⊎◌, arith, false,
  get_elem?, none, suc, zero, Bool-cases, inl, inr, ltb, ◌&&◌, keep, refl, ltb→lt, Bool,
  keep-cons_false, keep-cons_true,
}
use yeson_meet.Fingerprint.{
  cuts_from, is_clear, merge_gap, detect_cuts, twice_threshold, frame_runs, zip_next,
}

-- Cuts ascend by more than the gap from the last one on, and lie in the video.
abbrev pub Spaced : Option ℕ → ℕ → List ℕ → Type 0
Spaced last n [] = Unit
Spaced last n (c ∷ cs) = (is_clear last c ≡ true) × (0 < c) × (c ≤ n) × Spaced (some c) n cs

-- Some cut stands at `c` or at most the gap before it.
abbrev pub Near : ℕ → List ℕ → Type 0
Near c [] = ⊥
Near c (k ∷ ks) = ((k ≤ c) × (c ≤ k + merge_gap)) ⊎ Near c ks

-- The candidate that a last cut at `last` covers.
abbrev NearLast : Option ℕ → ℕ → Type 0
NearLast none c = ⊥
NearLast (some last) c = (last ≤ c) × (c ≤ last + merge_gap)

abbrev IsPast : Option ℕ → ℕ → Type 0
IsPast none i = Unit
IsPast (some last) i = last ≤ i

cuts_from-Spaced :
    (limit i n : ℕ) (last : Option ℕ) (ds : List ℕ)
    → n ≡ i + length ds
    → Spaced last n (cuts_from limit i last ds)
unfolding cuts_from
cuts_from-Spaced limit i n last [] h = tt
cuts_from-Spaced limit i n last (d ∷ ds) h = ground (
  arith,
  cuts_from-Spaced limit (i + 1) n (some (i + 1)) ds (omega arith),
  cuts_from-Spaced limit (i + 1) n last ds (omega arith),
)

clear_or_NearLast :
    (last : Option ℕ) (i : ℕ)
    → IsPast last i
    → is_clear last (i + 1) ≡ false
    → NearLast last (i + 1)
clear_or_NearLast none i past h = cc
clear_or_NearLast (some l) i past h = ground arith

IsPast-suc : (last : Option ℕ) (i : ℕ) → IsPast last i → IsPast last (i + 1)
IsPast-suc none i h = tt
IsPast-suc (some l) i h = omega arith

cuts_from-Near :
    (limit i : ℕ) (last : Option ℕ) (ds : List ℕ) (j d c : ℕ)
    → c ≡ i + j + 1
    → IsPast last i
    → get_elem? ds j ≡ some d
    → limit < 2 * d
    → NearLast last c ⊎ Near c (cuts_from limit i last ds)
unfolding cuts_from
cuts_from-Near limit i last [] j d c e past at big = cc
cuts_from-Near limit i last (x ∷ ds) zero d c e past at big =
    let here : c ≡ i + 1 = omega arith in
    elim (Bool-cases (is_clear last (i + 1))) [
      | inl clear ↦ ground arith
      | inr close ↦ inl (rw here (clear_or_NearLast last i past close))
    ]
cuts_from-Near limit i last (x ∷ ds) (suc j) d c e past at big =
    elim (Bool-cases (ltb limit (2 * x) && is_clear last (i + 1))) [
      | inl cut ↦
          let ih =
            cuts_from-Near limit (i + 1) (some (i + 1)) ds j d c (omega arith) (omega arith) at
              big in
          rw (cut, cuts_from) (elim ih [ inl now ↦ inr (inl now) | inr near ↦ inr (inr near) ])
      | inr skip ↦
          rw (skip, cuts_from)
            (cuts_from-Near limit (i + 1) last ds j d c (omega arith) (IsPast-suc last i past) at
              big)
    ]

-- The cuts of a video of `n + 1` frames, given by its `n` differences, ascend by more than the gap and
-- are frames of it after the first.
pub detect_cuts-Spaced : (diffs : List ℕ) → Spaced none (length diffs) (detect_cuts diffs)
unfolding detect_cuts
detect_cuts-Spaced [] = tt
detect_cuts-Spaced (x ∷ ds) =
    cuts_from-Spaced (twice_threshold (x ∷ ds)) 0 (length (x ∷ ds)) none (x ∷ ds) (omega arith)

-- No change above the threshold is missed: a cut stands at it, or at most the gap before it.
pub detect_cuts-Near :
    (diffs : List ℕ) (i d : ℕ)
    → get_elem? diffs i ≡ some d
    → twice_threshold diffs < 2 * d
    → Near (i + 1) (detect_cuts diffs)
unfolding detect_cuts
detect_cuts-Near [] i d at big = cc
detect_cuts-Near (x ∷ ds) i d at big =
    elim (cuts_from-Near (twice_threshold (x ∷ ds)) 0 none (x ∷ ds) i d (i + 1) (omega arith) tt at
      big) [ inl absent ↦ absurd absent | inr near ↦ near ]

-- The runs cover the frames from `a` to `n`, and none is empty.
abbrev pub FramesTile : ℕ → ℕ → List (ℕ × ℕ) → Type 0
FramesTile a n [] = a ≡ n
FramesTile a n ((start, end) ∷ rs) = (start ≡ a) × (a < end) × FramesTile end n rs

abbrev pub Ascending : ℕ → List ℕ → Type 0
Ascending a [] = Unit
Ascending a (c ∷ cs) = (a ≤ c) × Ascending (c + 1) cs

pub Ascending-mono : (a b : ℕ) (cs : List ℕ) → a ≤ b → Ascending b cs → Ascending a cs
Ascending-mono a b [] le h = tt
Ascending-mono a b (c ∷ cs) le h = (omega arith, h.1)

abbrev inner : ℕ → ℕ → Bool
inner n c = ltb 0 c && ltb c n

zip_next-Tile :
    (a n : ℕ) (cs : List ℕ)
    → a < n
    → Ascending (a + 1) cs
    → FramesTile a n (zip_next n (a ∷ keep (inner n) cs))
unfolding zip_next
zip_next-Tile a n [] lt asc = (refl, lt, refl)
zip_next-Tile a n (c ∷ cs) lt asc = elim (Bool-cases (ltb c n)) [
  | inl inside ↦
      rw (keep-cons_true (inner n) c cs (ground arith))
        (refl, omega arith, zip_next-Tile c n cs (ltb→lt c n inside) asc.1)
  | inr outside ↦
      rw (keep-cons_false (inner n) c cs (ground arith))
        (zip_next-Tile a n cs lt (Ascending-mono (a + 1) (c + 1) cs (omega arith) asc.1))
]

frame_runs-suc :
    (cuts : List ℕ) (n : ℕ)
    → frame_runs cuts (suc n) ≡ zip_next (suc n) (0 ∷ keep (inner (suc n)) cuts)
unfolding frame_runs
frame_runs-suc cuts n = ground arith

-- Ascending cuts, in range or not, split the frames of a video into runs without a gap, an overlap or
-- an empty run.
pub frame_runs-Tile :
    (cuts : List ℕ) (n : ℕ) → Ascending 0 cuts → FramesTile 0 n (frame_runs cuts n)
unfolding frame_runs
frame_runs-Tile cuts zero asc = refl
frame_runs-Tile [] (suc n) asc =
    rw (frame_runs-suc [] n) (zip_next-Tile 0 (suc n) [] (omega arith) tt)
frame_runs-Tile (zero ∷ cs) (suc n) asc =
    rw (frame_runs-suc (zero ∷ cs) n) (zip_next-Tile 0 (suc n) cs (omega arith) asc.1)
frame_runs-Tile (suc c ∷ cs) (suc n) asc =
    rw (frame_runs-suc (suc c ∷ cs) n)
      (zip_next-Tile 0 (suc n) (suc c ∷ cs) (omega arith) (omega arith, asc.1))
