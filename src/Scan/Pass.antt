-- ===== src/Scan/Pass.antt =====
-- apps/server/domain/video_captions/scene_scan_fp.py, `run_scene_scan_fingerprint`: the runs after the
-- alignment of their boundaries.
use yeson_meet.Prelude.{
  ℕ, Option, Bool, List, [], arith, false, leb, max, min, none, some, suc, true, zero, ◌+◌, ◌-◌,
  ◌<◌, ◌∷◌, ◌≡◌, ◌≤◌, if_both, if◌then◌else◌, nat_eq, refl, subst, ◌&&◌, ◌||◌,
}
use yeson_meet.Prelude.Text.{Str, CharTable}
use yeson_meet.Fingerprint.{zip_next}
use yeson_meet.Fingerprint.Cuts.{FramesTile}
use yeson_meet.Scan.{
  Run, aligned_start, first_flip, fp_align, flip_window, Side, align_cut, align_fingerprints,
  clamp_fp_move, is_bound, reads, align_reads, align_runs, ascending, is_next, is_prev, is_unread,
  max_probe, walk_left, walk_right,
}
use yeson_meet.Scan.Align.{clamp_fp_move-between}

-- The runs follow one another from a frame to another, and none is empty.
abbrev pub RunsTile : ℕ → ℕ → List Run → Type 0
RunsTile a n [] = a ≡ n
RunsTile a n (r ∷ rs) = (r.start ≡ a) × (a < r.end) × RunsTile r.end n rs

-- Each start is before the end of its run.
abbrev pub Before : List Run → List ℕ → Type 0
Before [] [] = Unit
Before (r ∷ rs) (s ∷ ss) = (s < r.end) × Before rs ss
Before _ _ = ⊥

first_flip-below :
    (nearer : ℕ → Bool) (n f : ℕ) (prior : Option Bool) (r : ℕ)
    → first_flip nearer n f prior ≡ some r
    → (f ≤ r) × (r < f + n)
unfolding first_flip
first_flip-below nearer zero f prior r h = cc
first_flip-below nearer (suc n) f none r h =
    ground (arith, first_flip-below nearer n (f + 1) (some false) r)
first_flip-below nearer (suc n) f (some true) r h = ground (
  arith,
  first_flip-below nearer n (f + 1) (some true) r,
  first_flip-below nearer n (f + 1) (some false) r,
)
first_flip-below nearer (suc n) f (some false) r h =
    ground (arith, first_flip-below nearer n (f + 1) (some false) r)

-- The frame that the fingerprints find is in the window and between the bounds.
pub fp_align-flip_window {ℓ} :
    {F : Type ℓ} (differ : F → F → ℕ) (fp_at : ℕ → F) (cut : ℕ) (p q : F) (lo hi r : ℕ)
    → fp_align differ fp_at cut p q lo hi ≡ some r
    → (lo < r) × (r < hi) × (cut ≤ r + flip_window) × (r ≤ cut + flip_window)
unfolding fp_align
fp_align-flip_window differ fp_at cut p q lo hi r h =
    let start = max (lo + 1) (cut - flip_window) in
    let end = min hi (cut + flip_window + 1) in
    let found =
      first_flip-below (λ frame. leb (differ (fp_at frame) q) (differ (fp_at frame) p))
        (end - start) start none r h in
    (
      omega (arith, found.0, found.1),
      omega (arith, found.0, found.1),
      omega (arith, found.0, found.1),
      omega (arith, found.0, found.1),
    )

module _ {ℓ} {F : Type ℓ} (t : CharTable) (delimiters : List Str) (read_frame : ℕ → Str)
    (fp_at : ℕ → F) (differ : F → F → ℕ) where
  -- Before the end of the run, and at its start or behind the start of the run in front.
  abbrev IsInside : ℕ → Run → ℕ → Type 0
  IsInside at r s = (s < r.end) × (min r.start (at + 1) ≤ s)

  moved-IsInside :
      (p : Run) (at : ℕ) (r : Run) (o : Option ℕ)
      → r.start < r.end
      → ((f : ℕ) → o ≡ some f → (at < f) × (f < r.end))
      → IsInside at r (elim o [
        | none ↦ r.start
        | some target ↦
            if nat_eq target r.start
            then r.start
            else clamp_fp_move (reads t delimiters read_frame fp_at differ p r) r.start target
      ])
  moved-IsInside p at r none h k = (h, omega arith)
  moved-IsInside p at r (some target) h k =
      let inside = k target refl in
      let between =
        clamp_fp_move-between (reads t delimiters read_frame fp_at differ p r) r.start target in
      if_both (IsInside at r) (nat_eq target r.start) (λ _. (h, omega arith))
        (λ _. (omega (arith, between.1, inside.1, h), omega (arith, between.0, inside.0)))

  aligned_start-IsInside :
      (p : Run) (at : ℕ) (r : Run)
      → r.start < r.end
      → IsInside at r (aligned_start t delimiters read_frame fp_at differ p at r)
  unfolding aligned_start
  aligned_start-IsInside p at r h =
      if_both (IsInside at r) (is_bound p.text r.text)
        (λ _.
          moved-IsInside p at r
            (fp_align differ fp_at r.start (fp_at p.stable) (fp_at r.stable) at r.end) h
            (λ f found.
              let w =
                fp_align-flip_window differ fp_at r.start (fp_at p.stable) (fp_at r.stable) at r.end
                  f found in
              (w.0, w.1)))
        (λ _. (h, omega arith))

  align_fingerprints-Before :
      (p : Run) (at a n : ℕ) (rs : List Run)
      → RunsTile a n rs
      → Before rs (align_fingerprints t delimiters read_frame fp_at differ p at rs)
  unfolding align_fingerprints
  align_fingerprints-Before p at a n [] h = tt
  align_fingerprints-Before p at a n (r ∷ rs) (here, lt, rest) =
      let inside = aligned_start-IsInside p at r (omega (arith, here, lt)) in
      (
        inside.0,
        align_fingerprints-Before r (aligned_start t delimiters read_frame fp_at differ p at r)
            r.end n rs rest,
      )

  walk_left-below :
      (side : ℕ → Option Side) (b lo probes frame found : ℕ)
      → frame < b
      → found < b
      → walk_left side lo probes frame found < b
  unfolding walk_left
  walk_left-below side b lo zero frame found h k = k
  walk_left-below side b lo (suc probes) frame found h k = ground (
    arith,
    walk_left-below side b lo probes (frame - 1) found,
    walk_left-below side b lo probes (frame - 1) frame,
  )

  walk_right-below :
      (side : ℕ → Option Side) (hi cut probes frame : ℕ)
      → cut < hi
      → walk_right side hi cut probes frame < hi
  unfolding walk_right
  walk_right-below side hi cut zero frame h = h
  walk_right-below side hi cut (suc probes) frame h =
      ground (arith, walk_right-below side hi cut probes (frame + 1))

  -- A cut that is aligned by reading stays before the end of its run.
  align_cut-below :
      (side : ℕ → Option Side) (cut lo hi : ℕ) → cut < hi → align_cut side cut lo hi < hi
  unfolding align_cut
  align_cut-below side cut lo hi h =
      if_both (λ r. r < hi)
        (is_next (side (cut - 1)) || (is_unread (side (cut - 1)) && is_next (side cut)))
        (λ _.
          walk_left-below side hi lo max_probe (cut - 2)
            (if is_next (side (cut - 1)) then cut - 1 else cut) (omega arith)
            (if_both (λ r. r < hi) (is_next (side (cut - 1))) (λ _. omega arith) (λ _. h)))
        (λ _.
          if_both (λ r. r < hi) (is_prev (side cut))
            (λ _. walk_right-below side hi cut max_probe (cut + 1) h) (λ _. h))

  align_reads-Before :
      (p : Run) (rs : List Run) (ss : List ℕ)
      → Before rs ss
      → Before rs (align_reads t delimiters read_frame fp_at differ p rs ss)
  unfolding align_reads
  align_reads-Before p [] [] h = tt
  align_reads-Before p [] (s ∷ ss) h = absurd h
  align_reads-Before p (r ∷ rs) [] h = absurd h
  align_reads-Before p (r ∷ rs) (s ∷ ss) h = (
    if_both (λ a. a < r.end) (is_bound p.text r.text)
        (λ _. align_cut-below (reads t delimiters read_frame fp_at differ p r) s p.start r.end h.0)
        (λ _. h.0),
    align_reads-Before r rs ss h.1,
  )

  ascending-Tile :
      (at a n : ℕ) (rs : List Run) (ss : List ℕ)
      → at < a
      → RunsTile a n rs
      → Before rs ss
      → FramesTile at n (zip_next n (at ∷ ascending t delimiters read_frame fp_at differ at ss))
  unfolding ascending zip_next
  ascending-Tile at a n [] [] lt h b = (refl, omega (arith, h), refl)
  ascending-Tile at a n [] (s ∷ ss) lt h b = absurd b
  ascending-Tile at a n (r ∷ rs) [] lt h b = absurd b
  ascending-Tile at a n (r ∷ rs) (s ∷ ss) lt (here, pos, rest) b = (
    refl,
    omega arith,
    ascending-Tile (max s (at + 1)) r.end n rs ss (omega (arith, b.0, here, pos)) rest b.1,
  )

  -- Runs that follow one another from the first frame to the last, none of them empty, do so after
  -- their boundaries are aligned by fingerprints and by reading, whatever is read and however the
  -- fingerprints differ.
  pub align_runs-Tile :
      (a n : ℕ) (r : Run) (rs : List Run)
      → RunsTile a n (r ∷ rs)
      → FramesTile a n (align_runs t delimiters read_frame fp_at differ (r ∷ rs) n)
  unfolding align_runs
  align_runs-Tile a n r rs h =
      let behind =
        align_reads-Before r rs
          (align_fingerprints t delimiters read_frame fp_at differ r r.start rs)
          (align_fingerprints-Before r r.start r.end n rs h.2) in
      subst (λ b. FramesTile b n (align_runs t delimiters read_frame fp_at differ (r ∷ rs) n)) h.0
        (ascending-Tile r.start r.end n rs _ (omega (arith, h.0, h.1)) h.2 behind)
