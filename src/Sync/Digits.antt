-- ===== src/Sync/Digits.antt =====
-- The mode in the request of the file client: a comma and the number in decimal.
use adb_server_project.Common.{
  ℕ, zero, suc, ◌+◌, ◌-◌, ◌*◌, ◌/◌, ◌%◌, ◌^◌, ◌≤◌, ◌<◌, ◌≡◌, ap, ◌∙◌, inl, inr, true, false, List,
  [], ◌∷◌, ◌==◌, arith, Bool-cases, if-false,
}
use adb_server_project.Sync.{is_negative}
use adb_server_project.Sync.Send.{decimal_digits, mode_text}

-- The number that decimal digits stand for.
abbrev pub digits_value : ℕ → List ℕ → ℕ
digits_value n [] = n
digits_value n (c ∷ s) = digits_value (n * 10 + (c - 48)) s

abbrev pub AreDigits : List ℕ → Type 0
AreDigits [] = Unit {0}
AreDigits (c ∷ s) = (48 ≤ c) × (c ≤ 57) × AreDigits s

abbrev pub IsDecimal : ℕ → List ℕ → Type 0
IsDecimal n digits = AreDigits digits × (digits_value 0 digits ≡ n)

quotient_step : (n : ℕ) → n / 10 * 10 + (48 + n % 10 - 48) ≡ n
quotient_step n = omega arith

last_step : (n : ℕ) → (n / 10 == 0) ≡ true → 0 * 10 + (48 + n % 10 - 48) ≡ n
last_step n e = let z : n / 10 ≡ 0 = ground arith in omega (arith, z)

fewer_digits : (n fuel : ℕ) → n < suc fuel → (n / 10 == 0) ≡ false → n / 10 < fuel
fewer_digits n fuel h e = let more : 1 ≤ n / 10 = ground arith in omega (arith, h, more)

decimal_digits-value :
    (fuel n : ℕ) (acc : List ℕ)
    → n < fuel
    → AreDigits acc
    → AreDigits (decimal_digits fuel n acc)
      × (digits_value 0 (decimal_digits fuel n acc) ≡ digits_value n acc)
unfolding decimal_digits
decimal_digits-value zero n acc h digits = absurd (omega arith)
decimal_digits-value (suc fuel) n acc h digits =
    let c = 48 + n % 10 in
    let more : AreDigits (c ∷ acc) = (omega arith, omega arith, digits) in
    elim (Bool-cases (n / 10 == 0)) [
      | inl e ↦ rw (e, decimal_digits) (more, ap (λ k. digits_value k acc) (last_step n e))
      | inr e ↦
          let (all, value) =
            decimal_digits-value fuel (n / 10) (c ∷ acc) (fewer_digits n fuel h e) more in
          rw (e, decimal_digits) (all, value ∙ ap (λ k. digits_value k acc) (quotient_step n))
    ]

-- The text of a mode.
pub mode_text-IsDecimal :
    (mode : ℕ)
    → mode < 2 ^ 31
    → (digits : List ℕ) × (mode_text mode ≡ 44 ∷ digits) × IsDecimal mode digits
unfolding mode_text
mode_text-IsDecimal mode h =
    let positive : is_negative mode ≡ false = ground (arith, h) in
    (
      decimal_digits (suc mode) mode [],
      if-false (is_negative mode) _ _ positive,
      decimal_digits-value (suc mode) mode [] (omega arith) tt,
    )
