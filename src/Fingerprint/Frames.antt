-- ===== src/Fingerprint/Frames.antt =====
-- The frame that is read of a run.
use yeson_meet.Prelude.{
  ℕ, arith, false, inl, refl, suc, true, zero, ◌+◌, ◌<◌, ◌≡◌, ◌≤◌, ◌⊎◌, Bool-cases, all, inr, List,
  ltb, ltb→lt, not_ltb→le, ◌-◌,
}
use yeson_meet.Fingerprint.{best_frame, Score, lower, score, stable_frame}

lower_trans : (a b c : Score) → lower b a ≡ false → lower c b ≡ false → lower c a ≡ false
unfolding lower
lower_trans a b c h k = ground arith

lower_asym : (a b : Score) → lower a b ≡ true → lower b a ≡ false
unfolding lower
lower_asym a b h = ground arith

lower_irrefl : (a : Score) → lower a a ≡ false
unfolding lower
lower_irrefl a = ground arith

module _ (key : ℕ → Score) where
  -- `r` is `best` or a frame from `i` on, and neither they nor `best` have a lower score.
  abbrev IsBest : ℕ → ℕ → ℕ → ℕ → Type 0
  IsBest best i n r =
      ((r ≡ best) ⊎ ((i ≤ r) × (r < i + n)))
      × (lower (key best) (key r) ≡ false)
      × ((j : ℕ) → i ≤ j → j < i + n → lower (key j) (key r) ≡ false)

  IsBest-step :
      (best i b n r : ℕ)
      → (b ≡ best) ⊎ (b ≡ i)
      → lower (key best) (key b) ≡ false
      → lower (key i) (key b) ≡ false
      → IsBest b (suc i) n r
      → IsBest best i (suc n) r
  IsBest-step best i b n r from le_best le_i (at, le, all) = (
    ground arith,
    lower_trans (key r) (key b) (key best) le le_best,
    λ j ge lt. elim (Bool-cases (ltb i j)) [
      | inl later ↦ all j (ltb→lt i j later) (omega arith)
      | inr same ↦
          let e : i ≡ j = omega (arith, not_ltb→le i j same) in
          rw (← e) (lower_trans (key r) (key b) (key i) le le_i)
    ],
  )

  best_frame-IsBest : (best i n : ℕ) → IsBest best i n (best_frame key best i n)
  unfolding best_frame
  best_frame-IsBest best i zero =
      (inl refl, lower_irrefl (key best), λ j le lt. absurd (omega arith))
  best_frame-IsBest best i (suc n) = elim (Bool-cases (lower (key i) (key best))) [
    | inl new ↦
        rw (new, best_frame)
          (IsBest-step best i i n _ (inr refl) (lower_asym (key i) (key best) new)
            (lower_irrefl (key i)) (best_frame-IsBest i (suc i) n))
    | inr old ↦
        rw (old, best_frame)
          (IsBest-step best i best n _ (inl refl) (lower_irrefl (key best)) old
            (best_frame-IsBest best (suc i) n))
  ]

-- The frame read of a run lies in it, and no frame `j` of the run has less motion around it, nor as much
-- and a place nearer to the centre, nor both alike and a smaller index.
pub stable_frame_lem :
    (diffs : List ℕ) (start end j : ℕ)
    → start ≤ j
    → j < end
    → (start ≤ stable_frame diffs start end)
      × (stable_frame diffs start end < end)
      × (lower
            (score diffs (start + end - 1) j)
            (score diffs (start + end - 1) (stable_frame diffs start end))
          ≡ false)
unfolding stable_frame
stable_frame_lem diffs start end j ge below =
    let key = score diffs (start + end - 1) in
    let (at, le, all) = best_frame-IsBest key start (suc start) (end - suc start) in
    (
      ground arith,
      ground arith,
      elim (Bool-cases (ltb start j)) [
        | inl later ↦ all j (ltb→lt start j later) (omega arith)
        | inr same ↦ let e : start ≡ j = omega (arith, not_ltb→le start j same) in rw (← e) le
      ],
    )
