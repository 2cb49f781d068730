-- ===== src/Alu/SignExtension.antt =====
-- `sign_extension` as two's complement, and the arithmetic shifts that use it.
use mips_emulator.Prelude.{ℕ, zero, suc, ◌+◌, ◌-◌, ◌*◌, ◌/◌, ◌%◌, ◌^◌, ◌≤◌, ◌<◌, ◌≡◌, refl, arith}
use mips_emulator.Prelude.{◌↔◌, inl, inr, ◌∙◌, ap, sym}
use mips_emulator.Prelude.{◌!=◌, leb, if◌then◌else◌, Bool-cases}
use mips_emulator.Prelude.{bit_or}
use mips_emulator.Prelude.{done}
use mips_emulator.Platform.{Platform}
use native.Mathlib.Nat.{
  pow-suc, one-le-pow, mul-le-mul_right, le-div_iff_mul-le, div-eq_of_lt, div-lt_iff_lt-mul,
  mod-eq_of_lt,
}
use mips_emulator.Prelude.Bits.{bit_and_mask, bit_or_low_high}
use mips_emulator.Word.Laws.{sub32-done, shr32-done, shl32-done}
use mips_emulator.Alu.{sign_extension}

pow_split : (a b : ℕ) → 2 ^ (a + b) ≡ 2 ^ a * 2 ^ b
pow_split zero b = let e : 0 + b ≡ b = omega arith in rw e (omega arith)
pow_split (suc a) b =
    let e : suc a + b ≡ suc (a + b) = omega arith in
    rw e (
      omega (
        arith,
        pow-suc 2 (a + b),
        pow-suc 2 a,
        pow_split a b,
        ap (λ (t : ℕ). t * 2 ^ b) (pow-suc 2 a),
      ))

-- A word's two parts at bit `k`.
pub pow_32 : (k : ℕ) → k ≤ 32 → 2 ^ (32 - k) * 2 ^ k ≡ 2 ^ 32
pow_32 k h =
    let e : 32 - k + k ≡ 32 = omega arith in sym (pow_split (32 - k) k) ∙ ap (λ (n : ℕ). 2 ^ n) e

pub half_pow : (k : ℕ) → 0 < k → 2 ^ (k - 1) * 2 ≡ 2 ^ k
half_pow zero h = absurd (omega arith)
half_pow (suc k) h = let e : suc k - 1 ≡ k = omega arith in rw e (sym (pow-suc 2 k))

pub pow_lt_32 : (k : ℕ) → k < 32 → 2 ^ k < 2 ^ 32
pow_lt_32 k h =
    let two : 2 ≤ 2 ^ (32 - k) =
      omega (arith, half_pow (32 - k) (omega arith), one-le-pow (32 - k - 1) 2) in
    omega (arith, pow_32 k (omega arith), one-le-pow k 2, mul-le-mul_right (2 ^ k) two)

same_test : (a b c d : ℕ) → (a ≤ b) ↔ (c ≤ d) → leb a b ≡ leb c d
same_test a b c d (to, from) = elim (Bool-cases (leb a b)) [
  | inl e ↦ let h : c ≤ d = to (ground arith) in rw e (ground arith)
  | inr e ↦ elim (Bool-cases (leb c d)) [
    | inl f ↦ let h : a ≤ b = from (ground arith) in absurd (ground arith)
    | inr f ↦ rw (e, f) refl
  ]
]

-- The top bit of a number below `2 ^ k`.
top_bit : (dat t : ℕ) → 0 < t → (dat / t != 0) ≡ leb t dat
top_bit dat t above = elim (Bool-cases (leb t dat)) [
  | inl e ↦
      let le : t ≤ dat = ground arith in
      let one : 1 ≤ dat / t = (le-div_iff_mul-le {x = 1} above).1 (omega arith) in
      rw e (ground arith)
  | inr e ↦ let lt : dat < t = ground arith in rw (e, div-eq_of_lt lt) refl
]

-- The bits above `idx`, all ones.
high_ones : (idx : ℕ) → 0 < idx → idx < 32 → (2 ^ (32 - idx) - 1) * 2 ^ idx ≡ 2 ^ 32 - 2 ^ idx
high_ones idx above small =
    sub_times (2 ^ (32 - idx)) (2 ^ idx) ∙ omega (arith, pow_32 idx (omega arith))
  where
    sub_times : (a t : ℕ) → (a - 1) * t ≡ a * t - t
    sub_times zero t = omega arith
    sub_times (suc a) t =
        let e : suc a - 1 ≡ a = omega arith in
        let f : suc a * t ≡ a * t + t = grind arith in rw (e, f) (omega arith)

-- An arithmetic shift right of a word by `k`.
abbrev pub shifted : ℕ → ℕ → ℕ
shifted rt k = if leb (2 ^ 31) rt then rt / 2 ^ k + (2 ^ 32 - 2 ^ (32 - k)) else rt / 2 ^ k

module _ (platform : Platform) where
  -- `sign_extension` of a number below 2^idx, with idx from 1 to 31, fills the bits from idx up
  -- with copies of the number's top bit.
  pub sign_extension_lem :
      (dat idx : ℕ)
      → 0 < idx
      → idx < 32
      → dat < 2 ^ idx
      → sign_extension platform dat idx
        ≡ done (if leb (2 ^ (idx - 1)) dat then dat + (2 ^ 32 - 2 ^ idx) else dat)
  unfolding sign_extension
  sign_extension_lem dat idx above small fits =
      rw
        (
          sub32-done platform idx 1 above,
          shr32-done platform dat (idx - 1) (omega arith),
          sub32-done platform 32 idx (omega arith),
          shl32-done platform 1 (32 - idx) (omega arith),
          ones,
          sub32-done platform (2 ^ (32 - idx)) 1 (one-le-pow (32 - idx) 2 (omega arith)),
          shl32-done platform (2 ^ (32 - idx) - 1) idx small,
          high_ones idx above small,
          shl32-done platform 1 idx small,
          bit,
          sub32-done platform (2 ^ idx) 1 (one-le-pow idx 2 (omega arith)),
          top_bit dat (2 ^ (idx - 1)) (one-le-pow (idx - 1) 2 (omega arith)),
          bit_and_mask idx dat,
          mod-eq_of_lt fits,
        )
        (ap (λ (x : ℕ). done (if leb (2 ^ (idx - 1)) dat then x else dat)) joined)
    where
      ones : 1 * 2 ^ (32 - idx) % 2 ^ 32 ≡ 2 ^ (32 - idx)
      ones = omega (arith, pow_lt_32 (32 - idx) (omega arith))

      bit : 1 * 2 ^ idx % 2 ^ 32 ≡ 2 ^ idx
      bit = omega (arith, pow_lt_32 idx small)

      joined : bit_or dat ((2 ^ 32 - 2 ^ idx) % 2 ^ 32) ≡ dat + (2 ^ 32 - 2 ^ idx)
      joined =
          let below : (2 ^ 32 - 2 ^ idx) % 2 ^ 32 ≡ (2 ^ (32 - idx) - 1) * 2 ^ idx =
            omega (arith, high_ones idx above small, one-le-pow idx 2) in
          rw below (
            bit_or_low_high idx (2 ^ (32 - idx) - 1) dat fits
            ∙ omega (arith, high_ones idx above small))

  -- The extension of the shifted word copies the word's own top bit.
  pub sign_extension-shr :
      (rt k : ℕ)
      → rt < 2 ^ 32
      → 0 < k
      → k < 32
      → sign_extension platform (rt / 2 ^ k) (32 - k) ≡ done (shifted rt k)
  sign_extension-shr rt k fits above small =
      sign_extension_lem (rt / 2 ^ k) (32 - k) (omega arith) (omega arith) in_width
      ∙ rw same_bit refl
    where
      in_width : rt / 2 ^ k < 2 ^ (32 - k)
      in_width =
          (div-lt_iff_lt-mul (one-le-pow k 2 (omega arith))).1
            (omega (arith, pow_32 k (omega arith)))

      half : 2 ^ (32 - k - 1) * 2 ^ k ≡ 2 ^ 31
      half = omega (
        arith,
        pow_32 k (omega arith),
        ap (λ (t : ℕ). t * 2 ^ k) (half_pow (32 - k) (omega arith)),
      )

      same_bit : leb (2 ^ (32 - k - 1)) (rt / 2 ^ k) ≡ leb (2 ^ 31) rt
      same_bit =
          let both =
            le-div_iff_mul-le {x = 2 ^ (32 - k - 1)} {y = rt} (one-le-pow k 2 (omega arith)) in
          same_test (2 ^ (32 - k - 1)) (rt / 2 ^ k) (2 ^ 31) rt (rw half at both)
