-- ===== src/Scan/Align.antt =====
-- apps/server/domain/video_captions/scene_scan_fp.py: where an aligned cut can stand.
use yeson_meet.Prelude.{
  ℕ, Option, arith, false, inl, max, min, refl, suc, true, zero, ◌+◌, ◌-◌, ◌<◌, ◌≡◌, ◌≤◌, ◌⊎◌,
  Bool-cases, inr, ltb, ltb→lt, nat_eq, nat_eq_iff, none, some, subst, sym, if_both, ◌&&◌, ◌||◌,
}
use yeson_meet.Scan.{
  Side, first_next, after_last_prev, clamp_fp_move, is_next, is_prev, walk_left, walk_right,
  align_cut, next, prev, is_unread, max_probe,
}

module _ (side : ℕ → Option Side) where
  first_next-between : (n f : ℕ) → (f ≤ first_next side n f) × (first_next side n f ≤ f + n)
  unfolding first_next
  first_next-between zero f = (omega arith, omega arith)
  first_next-between (suc n) f = ground (arith, first_next-between n (f + 1))

  after_last_prev-between :
      (n f best : ℕ)
      → best ≤ f
      → (best ≤ after_last_prev side n f best) × (after_last_prev side n f best ≤ f + n)
  unfolding after_last_prev
  after_last_prev-between zero f best h = (omega arith, omega arith)
  after_last_prev-between (suc n) f best h =
      ground
        (arith, after_last_prev-between n (f + 1) best, after_last_prev-between n (f + 1) (f + 1))

  pub clamp_fp_move-between :
      (cur target : ℕ)
      → (min cur target ≤ clamp_fp_move side cur target)
        × (clamp_fp_move side cur target ≤ max cur target)
  unfolding clamp_fp_move
  clamp_fp_move-between cur target = ground (
    arith,
    first_next-between (target - cur) cur,
    after_last_prev-between (cur - target) target target,
  )

  -- No frame from the one up to the other reads as the previous slate; or as the next.
  abbrev pub NoPrev : ℕ → ℕ → Type 0
  NoPrev a b = (f : ℕ) → a ≤ f → f < b → is_prev (side f) ≡ false

  abbrev pub NoNext : ℕ → ℕ → Type 0
  NoNext a b = (f : ℕ) → a ≤ f → f < b → is_next (side f) ≡ false

  -- One frame more in front, or behind.
  from_front :
      (P : ℕ → Type 0) (a b : ℕ)
      → P a
      → ((f : ℕ) → a + 1 ≤ f → f < b → P f)
      → (f : ℕ) → a ≤ f
      → f < b
      → P f
  from_front P a b p h f le lt = elim (Bool-cases (nat_eq f a)) [
    | inl same ↦ subst P (sym ((nat_eq_iff f a).0 same)) p
    | inr other ↦ h f (ground arith) lt
  ]

  up_to_end :
      (P : ℕ → Type 0) (a b : ℕ)
      → P b
      → ((f : ℕ) → a ≤ f → f < b → P f)
      → (f : ℕ) → a ≤ f
      → f < b + 1
      → P f
  up_to_end P a b p h f le lt = elim (Bool-cases (nat_eq f b)) [
    | inl same ↦ subst P (sym ((nat_eq_iff f b).0 same)) p
    | inr other ↦ h f le (ground arith)
  ]

  Side-cases : (o : Option Side) → (is_prev o ≡ true) ⊎ ((o ≡ none) ⊎ (o ≡ some next))
  Side-cases none = inr (inl refl)
  Side-cases (some prev) = inl refl
  Side-cases (some next) = inr (inr refl)

  is_prev→some : (o : Option Side) → is_prev o ≡ true → o ≡ some prev
  is_prev→some none h = cc
  is_prev→some (some prev) h = refl
  is_prev→some (some next) h = cc

  -- The cut has not moved; or it has moved to an earlier frame.
  abbrev pub IsEarlier : ℕ → ℕ → ℕ → Type 0
  IsEarlier lo cut r = (r ≡ cut) ⊎ ((lo ≤ r) × (r < cut) × (is_next (side r) ≡ true))

  walk_left-IsEarlier :
      (lo probes frame found cut : ℕ)
      → NoPrev (frame + 1) cut
      → NoPrev found cut
      → frame < cut
      → IsEarlier lo cut found
      → IsEarlier lo cut (walk_left side lo probes frame found)
        × NoPrev (walk_left side lo probes frame found) cut
  unfolding walk_left
  walk_left-IsEarlier lo zero frame found cut h k lt e = (e, k)
  walk_left-IsEarlier lo (suc probes) frame found cut h k lt e = elim (Bool-cases (ltb lo frame)) [
    | inr stop ↦ rw (stop, walk_left) (e, k)
    | inl on ↦
        let back : (frame - 1) + 1 ≡ frame = ground arith in
        elim (Side-cases (side frame)) [
          | inl old ↦ rw (on, is_prev→some (side frame) old, walk_left) (e, k)
          | inr (inl unread) ↦
              let free : NoPrev frame cut =
                from_front (λ f. is_prev (side f) ≡ false) frame cut (rw unread refl) h in
              rw (on, unread, walk_left)
                (walk_left-IsEarlier lo probes (frame - 1) found cut
                  (subst (λ a. NoPrev a cut) (sym back) free) k (omega arith) e)
          | inr (inr new) ↦
              let free : NoPrev frame cut =
                from_front (λ f. is_prev (side f) ≡ false) frame cut (rw new refl) h in
              rw (on, new, walk_left)
                (walk_left-IsEarlier lo probes (frame - 1) frame cut
                  (subst (λ a. NoPrev a cut) (sym back) free) free (omega arith)
                  (inr (ground arith, lt, rw new refl)))
        ]
  ]

  -- A later frame that reads as the next slate, and none between does.
  abbrev pub IsLater : ℕ → ℕ → ℕ → Type 0
  IsLater hi cut r =
      (r ≡ cut) ⊎ ((cut < r) × (r < hi) × (is_next (side r) ≡ true) × NoNext (cut + 1) r)

  walk_right-IsLater :
      (hi cut probes frame : ℕ)
      → cut < frame
      → NoNext (cut + 1) frame
      → IsLater hi cut (walk_right side hi cut probes frame)
  unfolding walk_right
  walk_right-IsLater hi cut zero frame lt h = inl refl
  walk_right-IsLater hi cut (suc probes) frame lt h = elim (Bool-cases (ltb frame hi)) [
    | inr stop ↦ inl (rw (stop, walk_right) refl)
    | inl on ↦ elim (Bool-cases (is_next (side frame))) [
      | inl new ↦ rw (on, new, walk_right) (inr (lt, ltb→lt frame hi on, new, h))
      | inr other ↦
          rw (on, other, walk_right)
            (walk_right-IsLater hi cut probes (frame + 1) (omega arith)
              (up_to_end (λ f. is_next (side f) ≡ false) (cut + 1) frame other h))
    ]
  ]

  abbrev pub IsPlaced : ℕ → ℕ → ℕ → ℕ → Type 0
  IsPlaced cut lo hi r = (IsEarlier lo cut r × NoPrev r cut) ⊎ IsLater hi cut r

  last_only : (cut : ℕ) → is_prev (side (cut - 1)) ≡ false → NoPrev (cut - 1) cut
  last_only cut h f le lt = let same : f ≡ cut - 1 = omega arith in rw same h

  -- The walk to the left from a frame in front of the cut that does not read as the previous slate.
  walk_left-IsPlaced :
      (cut lo hi found : ℕ)
      → lo < cut
      → is_prev (side (cut - 1)) ≡ false
      → NoPrev found cut
      → IsEarlier lo cut found
      → IsPlaced cut lo hi (walk_left side lo max_probe (cut - 2) found)
  walk_left-IsPlaced cut lo hi found h free k e = inl (
      walk_left-IsEarlier lo max_probe (cut - 2) found cut
        (λ f le lt. last_only cut free f (omega arith) lt) k (omega arith) e)

  is_next→not_prev : (o : Option Side) → is_next o ≡ true → is_prev o ≡ false
  is_next→not_prev none h = refl
  is_next→not_prev (some prev) h = cc
  is_next→not_prev (some next) h = refl

  is_unread→not_prev : (o : Option Side) → is_unread o ≡ true → is_prev o ≡ false
  is_unread→not_prev none h = refl
  is_unread→not_prev (some s) h = cc

  -- An aligned cut is where it was; or it is at an earlier frame, not before the start of the run in
  -- front, that reads as the next slate, and no frame from there to the old cut reads as the previous
  -- one; or it is at the first later frame, before the end of its run, that reads as the next slate.
  -- The cut is behind the start of the run in front.
  pub align_cut-place : (cut lo hi : ℕ) → lo < cut → IsPlaced cut lo hi (align_cut side cut lo hi)
  unfolding align_cut
  align_cut-place cut lo hi h =
      if_both (IsPlaced cut lo hi)
        (is_next (side (cut - 1)) || (is_unread (side (cut - 1)) && is_next (side cut)))
        (λ late.
          if_both (λ found. IsPlaced cut lo hi (walk_left side lo max_probe (cut - 2) found))
            (is_next (side (cut - 1)))
            (λ new.
              walk_left-IsPlaced cut lo hi (cut - 1) h (is_next→not_prev (side (cut - 1)) new)
                (last_only cut (is_next→not_prev (side (cut - 1)) new))
                (inr (omega arith, omega arith, new)))
            (λ old.
              walk_left-IsPlaced cut lo hi cut h
                (is_unread→not_prev (side (cut - 1)) (ground (arith, late, old)))
                (λ f le lt. absurd (omega arith)) (inl refl)))
        (λ _.
          if_both (IsPlaced cut lo hi) (is_prev (side cut))
            (λ _. inr (
              walk_right-IsLater hi cut max_probe (cut + 1) (omega arith)
                (λ f le lt. absurd (omega arith))))
            (λ _. inr (inl refl)))
