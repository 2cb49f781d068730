-- ===== src/Alu/Counts.antt =====
-- clo and clz: the counting loop ends, and what it counts.
use mips_emulator.Prelude.{ℕ, zero, suc, ◌+◌, ◌-◌, ◌^◌, ◌≤◌, ◌<◌, ◌≡◌, arith}
use mips_emulator.Prelude.{inl, inr, ◌∙◌, ap}
use mips_emulator.Prelude.{◌!=◌, leb, Bool-cases}
use mips_emulator.Prelude.{bit_and}
use mips_emulator.Prelude.{done}
use mips_emulator.Platform.{Platform}
use native.Mathlib.Nat.{one-le-pow}
use mips_emulator.Prelude.Bits.{bit_and_pow}
use mips_emulator.Word.{shl, not32}
use mips_emulator.Alu.{count_ones, execute_special2}
use mips_emulator.Alu.SignExtension.{half_pow}

-- The loop's test reads the top bit.
top_bit_test : (rs : ℕ) → rs < 2 ^ 32 → (bit_and rs 0x8000_0000 != 0) ≡ leb (2 ^ 31) rs
top_bit_test rs h = ground (arith, bit_and_pow 31 rs)

-- `r` is the number of ones at the top of the word.
pub record IsLeadingOnes (rs r : ℕ) : Type 0 where
  pub bound : r ≤ 32
  pub ones : 2 ^ 32 ≤ rs + 2 ^ (32 - r)
  pub then_zero : r < 32 → rs + 2 ^ (31 - r) < 2 ^ 32

more_ones :
    (rs r : ℕ)
    → 2 ^ 31 ≤ rs
    → rs < 2 ^ 32
    → r < 32
    → IsLeadingOnes (shl rs 1) r
    → IsLeadingOnes rs (suc r)
more_ones rs r top word small l = record {
  bound = small;
  ones = omega (arith, l.ones, half_pow (32 - r) (omega arith), ap (λ (t : ℕ). 2 ^ t) next);
  then_zero = λ h.
      omega
        (arith, l.then_zero small, half_pow (31 - r) (omega arith), ap (λ (t : ℕ). 2 ^ t) below);
}
  where
    next : 32 - r - 1 ≡ 32 - suc r
    next = omega arith

    below : 31 - r - 1 ≡ 31 - suc r
    below = omega arith

some_room : (n rs : ℕ) → rs + 2 ^ (32 - n) ≤ 2 ^ 32 → 0 < rs → 0 < n
some_room zero rs room h = absurd (omega arith)
some_room (suc n) rs room h = omega arith

-- With room for `n` more ones above the zeros that were shifted in, `n + 1` rounds are enough.
count_ones_lem :
    (fuel n rs i : ℕ)
    → n < fuel
    → n ≤ 32
    → rs + 2 ^ (32 - n) ≤ 2 ^ 32
    → (r : ℕ) × (count_ones fuel rs i ≡ done (i + r)) × (r ≤ n) × IsLeadingOnes rs r
unfolding count_ones
count_ones_lem zero n rs i enough small room = absurd (omega arith)
count_ones_lem (suc fuel) n rs i enough small room =
    let word : rs < 2 ^ 32 = omega (arith, one-le-pow (32 - n) 2) in
    elim (Bool-cases (leb (2 ^ 31) rs)) [
      | inl e ↦
          let top : 2 ^ 31 ≤ rs = ground arith in
          let some_left : 0 < n = some_room n rs room (omega arith) in
          let e1 : 32 - (n - 1) - 1 ≡ 32 - n = omega arith in
          let room' : shl rs 1 + 2 ^ (32 - (n - 1)) ≤ 2 ^ 32 =
            omega (arith, half_pow (32 - (n - 1)) (omega arith), ap (λ (t : ℕ). 2 ^ t) e1) in
          let (r, run, le, lead) =
            count_ones_lem fuel (n - 1) (shl rs 1) (i + 1) (omega arith) (omega arith) room' in
          (
            suc r,
            rw (top_bit_test rs word, e) (run ∙ ap (λ (x : ℕ). done x) (omega arith)),
            omega arith,
            more_ones rs r top word (omega arith) lead,
          )
      | inr e ↦ (
        0,
        rw (top_bit_test rs word, e) (ap (λ (x : ℕ). done x) (omega arith)),
        omega arith,
        ground arith,
      )
    ]

-- clz of a word ends within the loop's 33 rounds, and the result is the number of zeros above the
-- highest one: 32 for 0.
pub clz_lem :
    (platform : Platform) (rs rt : ℕ)
    → rs < 2 ^ 32
    → (r : ℕ) × (execute_special2 platform 0x20 rs rt ≡ done r)
      × (r ≤ 32)
      × (rs < 2 ^ (32 - r))
      × (r < 32 → 2 ^ (31 - r) ≤ rs)
unfolding execute_special2 not32
clz_lem platform rs rt word =
    let (r, run, le, lead) =
      count_ones_lem 33 32 (0xffff_ffff - rs) 0 (omega arith) (omega arith) (omega arith) in
    (
      r,
      run ∙ ap (λ (x : ℕ). done x) (omega arith),
      le,
      omega (arith, lead.ones),
      λ h. omega (arith, lead.then_zero h),
    )

-- clo of a word ends within the loop's 33 rounds, and the result is the number of ones above the
-- highest zero: 32 where there is no zero.
pub clo_lem :
    (platform : Platform) (rs rt : ℕ)
    → rs < 2 ^ 32
    → (r : ℕ) × (execute_special2 platform 0x21 rs rt ≡ done r) × IsLeadingOnes rs r
unfolding execute_special2
clo_lem platform rs rt word =
    let (r, run, le, lead) = count_ones_lem 33 32 rs 0 (omega arith) (omega arith) (omega arith) in
    (r, run ∙ ap (λ (x : ℕ). done x) (omega arith), lead)
