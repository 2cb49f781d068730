-- ===== src/Circuit/Field.antt =====
-- zkmips-circuits/src/util.rs: `int_to_field`.
use mips_emulator.Prelude.{
  ℕ, zero, suc, ◌+◌, ◌*◌, ◌/◌, ◌%◌, ◌^◌, ◌<◌, ◌≡◌, arith, ap, sym, ◌∙◌, inl, inr,
}
use mips_emulator.Prelude.{Bool-cases, ◌!=◌, if◌then◌else◌, bit_and}
use native.Mathlib.Nat.{pow-suc, div-div-eq-div-mul, div-eq_of_lt}
use mips_emulator.Program.Bits.{bit_test}

-- What is used of `ff::Field`, and the documented laws of its addition.
pub record Field : Type 1 where
  pub F : Type 0
  pub zero_f : F
  pub one_f : F
  pub add : F → F → F
  pub double : F → F
  pub add_comm : (a b : F) → add a b ≡ add b a
  pub add_assoc : (a b c : F) → add (add a b) c ≡ add a (add b c)
  pub add_zero : (a : F) → add a zero_f ≡ a
  pub double_lem : (a : F) → double a ≡ add a a

module _ (field : Field) where
  -- `for i in (0..N_BITS).rev()`, with `n` bits to go.
  unfoldable pub int_to_field_from : ℕ → field.F → ℕ → field.F
  int_to_field_from zero res int = res
  int_to_field_from (suc i) res int =
      let doubled = field.double res in
      int_to_field_from i
        (if bit_and int (2 ^ i) != 0 then field.add doubled field.one_f else doubled) int

  unfoldable pub int_to_field : ℕ → ℕ → field.F
  int_to_field n_bits int = int_to_field_from n_bits field.zero_f int

  -- `n` ones.
  unfoldable pub ones : ℕ → field.F
  ones zero = field.zero_f
  ones (suc n) = field.add (ones n) field.one_f

  ones_add : (m n : ℕ) → field.add (ones m) (ones n) ≡ ones (m + n)
  unfolding ones
  ones_add m zero = field.add_zero (ones m) ∙ ap ones (omega arith)
  ones_add m (suc n) =
      let up : suc (m + n) ≡ m + suc n = omega arith in
      sym (field.add_assoc (ones m) (ones n) field.one_f)
      ∙ ap (λ (x : field.F). field.add x field.one_f) (ones_add m n)
      ∙ ap ones up

  double-ones : (n : ℕ) → field.double (ones n) ≡ ones (2 * n)
  double-ones n =
      let twice : n + n ≡ 2 * n = omega arith in
      field.double_lem (ones n) ∙ ones_add n n ∙ ap ones twice

  -- The bit below those taken.
  bit_added :
      (i int : ℕ)
      → (if bit_and int (2 ^ i) != 0
          then field.add (field.double (ones (int / 2 ^ suc i))) field.one_f
          else field.double (ones (int / 2 ^ suc i)))
        ≡ ones (int / 2 ^ i)
  unfolding ones
  bit_added i int =
      let halved : int / 2 ^ suc i ≡ int / 2 ^ i / 2 =
        ap (λ (t : ℕ). int / t) (pow-suc 2 i) ∙ sym (div-div-eq-div-mul int (2 ^ i) 2) in
      let bit = bit_test i int in
      elim (Bool-cases (bit_and int (2 ^ i) != 0)) [
        | inl e ↦
            let one : 1 ≡ int / 2 ^ i % 2 = rw e at bit in
            let odd : suc (2 * (int / 2 ^ suc i)) ≡ int / 2 ^ i = omega (arith, halved, one) in
            rw e (
              ap (λ (x : field.F). field.add x field.one_f) (double-ones (int / 2 ^ suc i))
              ∙ ap ones odd)
        | inr e ↦
            let none : 0 ≡ int / 2 ^ i % 2 = rw e at bit in
            let even : 2 * (int / 2 ^ suc i) ≡ int / 2 ^ i = omega (arith, halved, none) in
            rw e (double-ones (int / 2 ^ suc i) ∙ ap ones even)
      ]

  from_lem : (i int : ℕ) → int_to_field_from i (ones (int / 2 ^ i)) int ≡ ones int
  unfolding int_to_field_from
  from_lem zero int = ap ones (omega arith)
  from_lem (suc i) int =
      ap (λ (x : field.F). int_to_field_from i x int) (bit_added i int) ∙ from_lem i int

  -- A number in the range of its type.
  pub int_to_field_lem : (n_bits int : ℕ) → int < 2 ^ n_bits → int_to_field n_bits int ≡ ones int
  unfolding int_to_field ones
  int_to_field_lem n_bits int h =
      let nothing : 0 ≡ int / 2 ^ n_bits = sym (div-eq_of_lt h) in
      ap (λ (x : field.F). int_to_field_from n_bits x int) (ap ones nothing) ∙ from_lem n_bits int
