-- ===== src/Fingerprint/Fades/Kept.antt =====
-- apps/server/domain/video_captions/fingerprint.py: fades add cuts to the hard ones.
use yeson_meet.Prelude.{
  ℕ, List, [], arith, if_both, inl, inr, ltb, ltb→lt, nat_eq, ◌++◌, ◌+◌, ◌∷◌, ◌≡◌, ◌⊎◌, All, leb,
  length, nat_eq_iff, none, refl, some, true, ◌||◌, ◌∙◌,
}
use yeson_meet.Export.{sorted_set, insert_index}
use yeson_meet.Export.Files.{sorted_set-Ascending}
use yeson_meet.Fingerprint.{detect_cuts, merge_gap, twice_threshold}
use yeson_meet.Fingerprint.Cuts.{Ascending, Spaced, detect_cuts-Spaced}
use yeson_meet.Fingerprint.Fades.{detect_cuts_with_fades, fades, plateaus}

-- A frame is one of these.
abbrev pub Among : ℕ → List ℕ → Type 0
Among c [] = ⊥
Among c (x ∷ xs) = (c ≡ x) ⊎ Among c xs

-- The number to insert is there already.
there_already :
    (c i j : ℕ) (js : List ℕ) → nat_eq i j ≡ true → (c ≡ i) ⊎ Among c (j ∷ js) → Among c (j ∷ js)
there_already c i j js same (inl e) = inl (e ∙ (nat_eq_iff i j).0 same)
there_already c i j js same (inr m) = m

insert_index-Among : (c i : ℕ) (js : List ℕ) → (c ≡ i) ⊎ Among c js → Among c (insert_index i js)
unfolding insert_index
insert_index-Among c i [] h = h
insert_index-Among c i (j ∷ js) h =
    if_both (Among c) (ltb i j) (λ _. h)
      (λ _.
        if_both (Among c) (nat_eq i j) (λ same. there_already c i j js same h)
          (λ _. elim h [
            | inl e ↦ inr (insert_index-Among c i js (inl e))
            | inr m ↦ elim m [
              | inl e ↦ inl e
              | inr rest ↦ inr (insert_index-Among c i js (inr rest))
            ]
          ]))

sorted_set-Among : (c : ℕ) (is : List ℕ) → Among c is → Among c (sorted_set is)
unfolding sorted_set
sorted_set-Among c [] h = h
sorted_set-Among c (i ∷ is) (inl e) = insert_index-Among c i (sorted_set is) (inl e)
sorted_set-Among c (i ∷ is) (inr m) =
    insert_index-Among c i (sorted_set is) (inr (sorted_set-Among c is m))

Among-append : (c : ℕ) (xs ys : List ℕ) → Among c xs → Among c (xs ++ ys)
Among-append c (x ∷ xs) ys (inl e) = inl e
Among-append c (x ∷ xs) ys (inr m) = inr (Among-append c xs ys m)
Among-append c [] ys h = absurd h

Among-weaken : (y : ℕ) (xs ys : List ℕ) → All (λ c. Among c ys) xs → All (λ c. Among c (y ∷ ys)) xs
Among-weaken y [] ys h = tt
Among-weaken y (x ∷ xs) ys h = (inr h.0, Among-weaken y xs ys h.1)

All-Among : (xs : List ℕ) → All (λ c. Among c xs) xs
All-Among [] = tt
All-Among (x ∷ xs) = (inl refl, Among-weaken x xs xs (All-Among xs))

All-map : (P Q : ℕ → Type 0) (xs : List ℕ) → ((c : ℕ) → P c → Q c) → All P xs → All Q xs
All-map P Q [] f h = tt
All-map P Q (x ∷ xs) f h = (f x h.0, All-map P Q xs f h.1)

Spaced-Ascending : (last n : ℕ) (cs : List ℕ) → Spaced (some last) n cs → Ascending (last + 1) cs
Spaced-Ascending last n [] h = tt
Spaced-Ascending last n (c ∷ cs) (clear, pos, le, rest) =
    (omega (arith, ltb→lt (last + merge_gap) c clear), Spaced-Ascending c n cs rest)

detect_cuts-Ascending : (n : ℕ) (cs : List ℕ) → Spaced none n cs → Ascending 0 cs
detect_cuts-Ascending n [] h = tt
detect_cuts-Ascending n (c ∷ cs) (clear, pos, le, rest) =
    (omega arith, Spaced-Ascending c n cs rest)

-- The cuts ascend, and every hard cut is among them.
abbrev pub IsMore : List ℕ → List ℕ → Type 0
IsMore hard cs = Ascending 0 cs × All (λ c. Among c cs) hard

-- With the fades the cuts ascend, each of them once, and no hard cut is lost.
pub detect_cuts_with_fades-IsMore :
    (adjacent windowed : List ℕ) (window : ℕ)
    → IsMore (detect_cuts adjacent) (detect_cuts_with_fades adjacent windowed window)
unfolding detect_cuts_with_fades
detect_cuts_with_fades-IsMore adjacent windowed window =
    let hard = detect_cuts adjacent in
    let slow = fades hard adjacent window (plateaus (twice_threshold windowed) 0 none windowed) in
    if_both (IsMore hard) (leb window 1 || nat_eq (length windowed) 0)
      (λ _. (
        detect_cuts-Ascending (length adjacent) hard (detect_cuts-Spaced adjacent),
        All-Among hard,
      ))
      (λ _. (
        sorted_set-Ascending (hard ++ slow),
        All-map (λ c. Among c hard) (λ c. Among c (sorted_set (hard ++ slow))) hard
            (λ c m. sorted_set-Among c (hard ++ slow) (Among-append c hard slow m))
            (All-Among hard),
      ))
