-- ===== src/Prelude/Bits/Step.antt =====
-- One equation for the lowest digit of each bit operation, from the digit recursion by which the
-- native operations are defined.
use Prim.Native.Nat.{ℕ, zero, suc, ◌+◌, ◌*◌, ◌/◌, ◌%◌, ◌≤◌, ◌<◌, min, max}
use Prim.Native.Nat.{bit_and, bit_or, bit_xor}
use Prim.Native.Nat.{digits, bitwise, bit_and-bitwise, bit_or-bitwise, bit_xor-bitwise, differ}
use mathlib.Core.Path.{◌≡◌, refl}
use native.Mathlib.Nat.{le_refl}
use native.Mathlib.Omega.{arith}

module _ (end : ℕ → ℕ) (digit : ℕ → ℕ → ℕ) where
  -- Any two amounts of fuel that reach the number's size do the same.
  enough_fuel :
      (x y fuel fuel' : ℕ)
      → x ≤ fuel
      → x ≤ fuel'
      → digits end digit fuel x y ≡ digits end digit fuel' x y
  enough_fuel (suc x) y (suc fuel) (suc fuel') enough enough' =
      let halves : digits end digit fuel (suc x / 2) (y / 2)
          ≡ digits end digit fuel' (suc x / 2) (y / 2) =
        enough_fuel (suc x / 2) (y / 2) fuel fuel' (omega arith) (omega arith) in
      rw halves
  enough_fuel (suc x) y zero fuel' enough enough' = absurd (omega arith)
  enough_fuel (suc x) y (suc fuel) zero enough enough' = absurd (omega arith)
  enough_fuel zero y zero zero enough enough' = refl
  enough_fuel zero y zero (suc fuel') enough enough' = refl
  enough_fuel zero y (suc fuel) zero enough enough' = refl
  enough_fuel zero y (suc fuel) (suc fuel') enough enough' = refl

  last_digit :
      (x y : ℕ)
      → bitwise end digit (suc x) y
        ≡ digit (suc x % 2) (y % 2) + bitwise end digit (suc x / 2) (y / 2) * 2
  last_digit x y =
      omega (arith, enough_fuel (suc x / 2) (y / 2) (suc x / 2) x (le_refl _) (omega arith))

pub bit_and_step : (x y : ℕ) → bit_and x y ≡ bit_and (x / 2) (y / 2) * 2 + min (x % 2) (y % 2)
bit_and_step (suc x) y = omega (
  arith,
  bit_and-bitwise (suc x) y,
  bit_and-bitwise (suc x / 2) (y / 2),
  last_digit (λ n. 0) min x y,
)
bit_and_step zero y = simp bit_and-bitwise (omega arith)

pub bit_or_step : (x y : ℕ) → bit_or x y ≡ bit_or (x / 2) (y / 2) * 2 + max (x % 2) (y % 2)
bit_or_step (suc x) y = omega (
  arith,
  bit_or-bitwise (suc x) y,
  bit_or-bitwise (suc x / 2) (y / 2),
  last_digit (λ n. n) max x y,
)
bit_or_step zero y = simp bit_or-bitwise (omega arith)

differ_digits : (x y : ℕ) → x < 2 → y < 2 → differ x y ≡ (x + y) % 2
differ_digits zero y small small' = omega arith
differ_digits (suc x) zero small small' = omega arith
differ_digits (suc zero) (suc zero) small small' = refl
differ_digits (suc zero) (suc (suc y)) small small' = absurd (omega arith)
differ_digits (suc (suc x)) (suc y) small small' = absurd (omega arith)

pub bit_xor_step : (x y : ℕ) → bit_xor x y ≡ bit_xor (x / 2) (y / 2) * 2 + (x % 2 + y % 2) % 2
bit_xor_step (suc x) y = omega (
  arith,
  bit_xor-bitwise (suc x) y,
  bit_xor-bitwise (suc x / 2) (y / 2),
  last_digit (λ n. n) differ x y,
  differ_digits (suc x % 2) (y % 2) (omega arith) (omega arith),
)
bit_xor_step zero y = simp bit_xor-bitwise (omega arith)
