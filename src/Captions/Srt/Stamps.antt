-- ===== src/Captions/Srt/Stamps.antt =====
-- apps/server/domain/video_captions/srt.py, `_hms_ms`: a time stamp has the time that it was made of.
use yeson_meet.Prelude.{
  ℕ, Option, [], ◌∷◌, ◌≡◌, ◌+◌, ◌-◌, ◌*◌, ◌/◌, ◌%◌, ◌<◌, ◌≤◌, arith, none, some, suc, if◌then◌else◌,
  nat_eq, ◌&&◌, Bool-cases, inl, inr, ltb, refl, zero, ap,
}
use yeson_meet.Prelude.Text.{Str, decimal_fuel, decimal}
use yeson_meet.Captions.Srt.{padded, zeros, hms_ms}

-- The number of some digits.
abbrev pub value : ℕ → Str → ℕ
value n [] = n
value n (c ∷ s) = value (n * 10 + (c - 48)) s

-- The time that a stamp such as 01:02:03,004 states.
abbrev pub read_stamp : Str → Option ℕ
read_stamp (a ∷ b ∷ x ∷ c ∷ d ∷ y ∷ e ∷ f ∷ z ∷ g ∷ h ∷ i ∷ []) =
    if nat_eq x b':' && (nat_eq y b':' && nat_eq z b',')
    then some (
        ((value 0 (a ∷ b ∷ []) * 60 + value 0 (c ∷ d ∷ [])) * 60 + value 0 (e ∷ f ∷ [])) * 1000
        + value 0 (g ∷ h ∷ i ∷ []))
    else none
read_stamp _ = none

decimal_fuel_digit : (f n : ℕ) → n < 10 → decimal_fuel (suc f) n ≡ (48 + n) ∷ []
unfolding decimal_fuel
decimal_fuel_digit f n h = ground arith

decimal_fuel_two :
    (f n : ℕ) → 10 ≤ n → n < 100 → decimal_fuel (suc (suc f)) n ≡ (48 + n / 10) ∷ (48 + n % 10) ∷ []
unfolding decimal_fuel
decimal_fuel_two f n l h = ground (arith, decimal_fuel_digit f (n / 10) (omega arith))

decimal_fuel_three :
    (f n : ℕ)
    → 100 ≤ n
    → n < 1000
    → decimal_fuel (suc (suc (suc f))) n
      ≡ (48 + n / 10 / 10) ∷ (48 + n / 10 % 10) ∷ (48 + n % 10) ∷ []
unfolding decimal_fuel
decimal_fuel_three f n l h = ground (arith, decimal_fuel_two f (n / 10) (omega arith) (omega arith))

padded_two : (n : ℕ) → n < 100 → padded 2 n ≡ (48 + n / 10) ∷ (48 + n % 10) ∷ []
unfolding padded zeros decimal
padded_two zero h = refl
padded_two (suc m) h = elim (Bool-cases (ltb (suc m) 10)) [
  | inl one ↦ ground (arith, decimal_fuel_digit (suc m) (suc m) (ground arith))
  | inr two ↦ ground (arith, decimal_fuel_two m (suc m) (ground arith) h)
]

padded_three :
    (n : ℕ) → n < 1000 → padded 3 n ≡ (48 + n / 10 / 10) ∷ (48 + n / 10 % 10) ∷ (48 + n % 10) ∷ []
unfolding padded zeros decimal
padded_three zero h = refl
padded_three (suc zero) h = refl
padded_three (suc (suc m)) h = elim (Bool-cases (ltb (suc (suc m)) 10)) [
  | inl one ↦ ground (arith, decimal_fuel_digit (suc (suc m)) (suc (suc m)) (ground arith))
  | inr more ↦ elim (Bool-cases (ltb (suc (suc m)) 100)) [
    | inl two ↦ ground (arith, decimal_fuel_two (suc m) (suc (suc m)) (ground arith) (ground arith))
    | inr three ↦ ground (arith, decimal_fuel_three m (suc (suc m)) (ground arith) h)
  ]
]

two_value : (n : ℕ) → value 0 ((48 + n / 10) ∷ (48 + n % 10) ∷ []) ≡ n
two_value n = omega arith

three_value : (n : ℕ) → value 0 ((48 + n / 10 / 10) ∷ (48 + n / 10 % 10) ∷ (48 + n % 10) ∷ []) ≡ n
three_value n = omega arith

parts :
    (ms : ℕ)
    → ((ms / 3600000 * 60 + ms % 3600000 / 60000) * 60 + ms % 3600000 % 60000 / 1000) * 1000
        + ms % 3600000 % 60000 % 1000
      ≡ ms
parts ms = omega arith

-- The stamp of a time of less than a hundred hours has twelve characters and states that time.
pub read_stamp-hms_ms : (ms : ℕ) → ms < 360000000 → read_stamp (hms_ms ms) ≡ some ms
unfolding hms_ms
read_stamp-hms_ms ms h =
    let rem = ms % 3600000 in
    let hours = padded_two (ms / 3600000) (omega arith) in
    let minutes = padded_two (rem / 60000) (omega arith) in
    let seconds = padded_two (rem % 60000 / 1000) (omega arith) in
    let millis = padded_three (rem % 60000 % 1000) (omega arith) in
    rw (hms_ms, hours, minutes, seconds, millis)
      (rw
        (
          two_value (ms / 3600000),
          two_value (rem / 60000),
          two_value (rem % 60000 / 1000),
          three_value (rem % 60000 % 1000),
        )
        (ap some (parts ms)))
