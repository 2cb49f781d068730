-- ===== src/Alu/Shifts.antt =====
-- The arithmetic shifts sra and srav as shifts of signed integers, and where they are not.
use mips_emulator.Prelude.{ℕ, ◌+◌, ◌-◌, ◌*◌, ◌/◌, ◌^◌, ◌≤◌, ◌<◌, ◌≡◌, refl, arith}
use mips_emulator.Prelude.{inl, inr, ap}
use mips_emulator.Prelude.{leb, if◌then◌else◌, Bool-cases}
use mips_emulator.Prelude.{ltb_of_lt, ltb_of_le}
use mips_emulator.Prelude.{done, panic}
use mips_emulator.Platform.{Platform}
use native.Mathlib.Nat.{one-le-pow}
use native.Mathlib.Nat.{
  div-add-mod', div-eq_of_lt-le, mod-lt, div-lt_iff_lt-mul, div-le_self, le-mul_of_pos_right,
}
use mips_emulator.Prelude.Bits.{bit_and-zero}
use mips_emulator.Prelude.Int.{ℤ, pos, negsuc}
use mips_emulator.Word.{as_i32, max_u32, sub32, shr32, shl32}
use mips_emulator.Word.Laws.{sub32-done, shr32-done}
use mips_emulator.Alu.{sign_extension, execute_special}
use mips_emulator.Alu.SignExtension.{sign_extension-shr, shifted, pow_32, half_pow}

-- Division of an integer by `2 ^ k`, rounded down.
unfoldable pub shift_right_ℤ : ℤ → ℕ → ℤ
shift_right_ℤ (pos n) k = pos (n / 2 ^ k)
shift_right_ℤ (negsuc n) k = negsuc (n / 2 ^ k)

-- Dividing the complement of a word.
complement_div :
    (rt t w : ℕ) → rt < 2 ^ 32 → 0 < t → w * t ≡ 2 ^ 32 → (max_u32 - rt) / t ≡ w - 1 - rt / t
complement_div rt t w fits above whole =
    div-eq_of_lt-le t {m = max_u32 - rt}
      (omega (arith, product, div-add-mod' rt t, mod-lt rt above))
      (omega (arith, product, div-add-mod' rt t))
  where
    quotient : rt / t < w
    quotient = (div-lt_iff_lt-mul above).1 (rw whole fits)

    product : (w - 1 - rt / t) * t + t + rt / t * t ≡ 2 ^ 32
    product =
        let e : w ≡ w - 1 - rt / t + 1 + rt / t = omega (arith, quotient) in
        omega (arith, whole, ap (λ (n : ℕ). n * t) e)

as_i32-shifted :
    (rt k : ℕ) → rt < 2 ^ 32 → 0 < k → k < 32 → as_i32 (shifted rt k) ≡ shift_right_ℤ (as_i32 rt) k
unfolding shift_right_ℤ
as_i32-shifted rt k fits above small = elim (Bool-cases (leb (2 ^ 31) rt)) [
  | inl e ↦
      let top : 2 ^ 31 ≤ rt = ground arith in
      let whole = pow_32 k (omega arith) in
      let width : 2 ^ (32 - k) ≤ 2 ^ 31 = omega (
        arith,
        whole,
        ap (λ (t : ℕ). 2 ^ (32 - k) * t) (half_pow k above),
        le-mul_of_pos_right (2 ^ (32 - k)) (one-le-pow (k - 1) 2 (omega arith)),
      ) in
      let quotient : rt / 2 ^ k < 2 ^ (32 - k) =
        (div-lt_iff_lt-mul (one-le-pow k 2 (omega arith))).1 (rw whole fits) in
      let value =
        complement_div rt (2 ^ k) (2 ^ (32 - k)) fits (one-le-pow k 2 (omega arith)) whole in
      rw
        (
          e,
          ltb_of_le rt (2 ^ 31) top,
          value,
          ltb_of_le (rt / 2 ^ k + (2 ^ 32 - 2 ^ (32 - k))) (2 ^ 31) (omega arith),
        )
        (ap negsuc (omega arith))
  | inr e ↦
      let small_word : rt < 2 ^ 31 = ground arith in
      let le : rt / 2 ^ k ≤ rt = div-le_self rt (2 ^ k) in
      rw (e, ltb_of_lt rt (2 ^ 31) small_word, ltb_of_lt (rt / 2 ^ k) (2 ^ 31) (omega arith)) refl
]

module _ (platform : Platform) where
  -- sra of a word by 1 to 31 divides the word, read as a signed number, by the power of two,
  -- rounding down.
  pub sra_lem :
      (rs rt shamt : ℕ)
      → rt < 2 ^ 32
      → 0 < shamt
      → shamt < 32
      → (r : ℕ) × (execute_special platform 3 shamt rs rt ≡ done r)
        × (as_i32 r ≡ shift_right_ℤ (as_i32 rt) shamt)
  unfolding execute_special
  sra_lem rs rt shamt fits above small = (
    shifted rt shamt,
    sign_extension-shr platform rt shamt fits above small,
    as_i32-shifted rt shamt fits above small,
  )

  -- srav of a word by a register that holds 1 to 31 divides the word, read as a signed number, by
  -- the power of two, rounding down.
  pub srav_lem :
      (rs rt shamt : ℕ)
      → rt < 2 ^ 32
      → 0 < rs
      → rs < 32
      → (r : ℕ) × (execute_special platform 7 shamt rs rt ≡ done r)
        × (as_i32 r ≡ shift_right_ℤ (as_i32 rt) rs)
  unfolding execute_special
  srav_lem rs rt shamt fits above small = (
    shifted rt rs,
    rw (shr32-done platform rt rs small, sub32-done platform 32 rs (omega arith))
        (sign_extension-shr platform rt rs fits above small),
    as_i32-shifted rt rs fits above small,
  )

  -- sra by 0 panics in a build that checks overflows and returns 0 in one that does not, whatever
  -- the word.
  pub sra_by_zero :
      (rs rt : ℕ)
      → execute_special platform 3 0 rs rt ≡ (if platform.overflow_checks then panic else done 0)
  unfolding execute_special sign_extension sub32 shr32 shl32
  sra_by_zero rs rt = elim (Bool-cases platform.overflow_checks) [
    | inl e ↦ rw e refl
    | inr e ↦ rw e (ground (arith, bit_and-zero (rt / 2 ^ 0)))
  ]
