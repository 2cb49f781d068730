-- ===== src/Program/Bits.antt =====
-- The bits of an instruction, from the low end, are those of its word.
use mips_emulator.Prelude.{
  ℕ, zero, suc, ◌+◌, ◌*◌, ◌/◌, ◌%◌, ◌^◌, ◌<◌, ◌≡◌, refl, arith, ap, inl, inr, ◌∙◌, sym,
}
use mips_emulator.Prelude.{
  true, false, length, Bool, List, [], ◌∷◌, ◌++◌, ◌!=◌, if◌then◌else◌, Bool-cases, bit_and,
}
use mips_emulator.Prelude.Bits.{bit_and_pow}
use native.Mathlib.Nat.{
  pow-suc, pow-succ', div-add-mod, one-le-pow, mod-eq_of_lt, div-div-eq-div-mul,
}
use mips_emulator.Witness.{Instruction}
use mips_emulator.Program.{i2lebsp, to_bits}

-- The number with the given bits.
unfoldable pub from_bits : List Bool → ℕ
from_bits [] = 0
from_bits (b ∷ bs) = (if b then 1 else 0) + 2 * from_bits bs

pub bit_test : (k x : ℕ) → (if bit_and x (2 ^ k) != 0 then 1 else 0) ≡ x / 2 ^ k % 2
bit_test k x = elim (Bool-cases (x / 2 ^ k % 2 != 0)) [
  | inl e ↦
      let one : x / 2 ^ k % 2 ≡ 1 = ground (arith, e) in
      let set : bit_and x (2 ^ k) ≡ 2 ^ k = bit_and_pow k x ∙ rw one (omega arith) in
      rw (set, one) (ground (arith, one-le-pow k 2))
  | inr e ↦
      let none : x / 2 ^ k % 2 ≡ 0 = ground (arith, e) in
      let clear : bit_and x (2 ^ k) ≡ 0 = bit_and_pow k x ∙ rw none (omega arith) in
      rw (clear, none) refl
]

low_bit_first : (x n : ℕ) → x % 2 ^ suc n ≡ x % 2 + 2 * (x / 2 % 2 ^ n)
low_bit_first x n =
    let quotient : x / 2 ^ suc n ≡ x / 2 / 2 ^ n =
      ap (λ (t : ℕ). x / t) (pow-succ' 2 n) ∙ sym (div-div-eq-div-mul x 2 (2 ^ n)) in
    let product : 2 ^ suc n * (x / 2 ^ suc n) ≡ 2 * (2 ^ n * (x / 2 / 2 ^ n)) =
      ap (λ (t : ℕ). 2 ^ suc n * t) quotient
      ∙ ap (λ (t : ℕ). t * (x / 2 / 2 ^ n)) (pow-succ' 2 n)
      ∙ omega arith in
    omega (arith, product, div-add-mod x (2 ^ suc n), div-add-mod (x / 2) (2 ^ n))

pub i2lebsp_lem : (n k x : ℕ) → from_bits (i2lebsp n k x) ≡ x / 2 ^ k % 2 ^ n
unfolding from_bits i2lebsp
i2lebsp_lem zero k x = omega arith
i2lebsp_lem (suc n) k x =
    let higher : x / 2 ^ (k + 1) ≡ x / 2 ^ k / 2 =
      let up : k + 1 ≡ suc k = omega arith in
      ap (λ (t : ℕ). x / 2 ^ t) up
      ∙ ap (λ (t : ℕ). x / t) (pow-suc 2 k)
      ∙ sym (div-div-eq-div-mul x (2 ^ k) 2) in
    omega (
      arith,
      bit_test k x,
      i2lebsp_lem n (k + 1) x,
      low_bit_first (x / 2 ^ k) n,
      ap (λ (t : ℕ). t % 2 ^ n) higher,
    )

-- The bits that `to_bits` gives of an instruction whose word is below 2^32, read from the low end,
-- are those of the word.
pub to_bits_lem : (i : Instruction) → i.bytecode < 2 ^ 32 → from_bits (to_bits i) ≡ i.bytecode
unfolding to_bits
to_bits_lem i word = i2lebsp_lem 32 0 i.bytecode ∙ omega arith

pub length-i2lebsp : (n k x : ℕ) → length (i2lebsp n k x) ≡ n
unfolding i2lebsp
length-i2lebsp zero k x = refl
length-i2lebsp (suc n) k x = omega (arith, length-i2lebsp n (k + 1) x)

pub from_bits-append :
    (n : ℕ) (xs ys : List Bool)
    → length xs ≡ n
    → from_bits (xs ++ ys) ≡ from_bits xs + 2 ^ n * from_bits ys
unfolding from_bits
from_bits-append zero [] ys h = omega arith
from_bits-append (suc n) [] ys h = absurd (omega arith)
from_bits-append zero (x ∷ xs) ys h = absurd (omega arith)
from_bits-append (suc n) (x ∷ xs) ys h =
    let doubled : 2 ^ suc n * from_bits ys ≡ 2 * (2 ^ n * from_bits ys) =
      ap (λ (t : ℕ). t * from_bits ys) (pow-succ' 2 n) ∙ omega arith in
    omega (arith, from_bits-append n xs ys (omega arith), doubled)

pub from_bits_injective :
    (xs ys : List Bool) → length xs ≡ length ys → from_bits xs ≡ from_bits ys → xs ≡ ys
unfolding from_bits
from_bits_injective [] [] h e = refl
from_bits_injective [] (y ∷ ys) h e = absurd (omega arith)
from_bits_injective (x ∷ xs) [] h e = absurd (omega arith)
from_bits_injective (true ∷ xs) (true ∷ ys) h e =
    ap (λ l. true ∷ l) (from_bits_injective xs ys (omega arith) (omega arith))
from_bits_injective (false ∷ xs) (false ∷ ys) h e =
    ap (λ l. false ∷ l) (from_bits_injective xs ys (omega arith) (omega arith))
from_bits_injective (true ∷ xs) (false ∷ ys) h e = absurd (omega arith)
from_bits_injective (false ∷ xs) (true ∷ ys) h e = absurd (omega arith)

-- Bits that stand for a number are that number's.
pub i2lebsp-from_bits :
    (n x : ℕ) (bits : List Bool)
    → length bits ≡ n
    → x < 2 ^ n
    → from_bits bits ≡ x
    → bits ≡ i2lebsp n 0 x
i2lebsp-from_bits n x bits size small e =
    let unit : x / 2 ^ 0 ≡ x = omega arith in
    let whole : x / 2 ^ 0 % 2 ^ n ≡ x = rw unit (mod-eq_of_lt small) in
    from_bits_injective bits (i2lebsp n 0 x) (omega (arith, length-i2lebsp n 0 x, size))
      (e ∙ sym (i2lebsp_lem n 0 x ∙ whole))
