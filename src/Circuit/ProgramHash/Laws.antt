-- ===== src/Circuit/ProgramHash/Laws.antt =====
-- What the hash of the program in the circuit relies on of its libraries: the documented behaviour
-- of the field `pallas::Base`, whose order is above 2^254, and of the Sinsemilla chip.
use mips_emulator.Prelude.{
  ℕ, zero, suc, ◌+◌, ◌-◌, ◌*◌, ◌/◌, ◌%◌, ◌^◌, ◌≤◌, ◌<◌, ◌≡◌, some, Option, List, [], ◌∷◌, ◌++◌,
  take, Bool, ltb, if◌then◌else◌,
}
use mips_emulator.Platform.{Bytes}
use mips_emulator.Program.{i2lebsp}
use mips_emulator.Program.Hash.{Hasher}
use mips_emulator.Circuit.HashRound.{SinsemillaChip, ◌>>=◌}
use mips_emulator.Circuit.ProgramHash.{Pallas}

-- The last `n` hexadecimal digits of a number, in lower case.
unfoldable pub hex_digits : ℕ → ℕ → Bytes
hex_digits zero x = []
hex_digits (suc n) x =
    let digit = x / 16 ^ n % 16 in
    (if ltb digit 10 then b'0' + digit else b'a' + (digit - 10)) ∷ hex_digits n x

-- The arithmetic of elements, seen by the numbers that they are.
pub record IsPallas {Base : Type 0} (pallas : Pallas Base) (hasher : Hasher Base) : Type 0 where
  pub value : Base → ℕ
  pub value-from : (n : ℕ) → n < 2 ^ 64 → value (pallas.from n) ≡ n
  pub zero-eq : pallas.zero_base ≡ pallas.from 0
  pub value-add :
      (a b : Base) → value a + value b < 2 ^ 254 → value (pallas.add a b) ≡ value a + value b
  pub value-sub : (a b : Base) → value b ≤ value a → value (pallas.sub a b) ≡ value a - value b
  pub value-mul :
      (a b : Base) → value a * value b < 2 ^ 254 → value (pallas.mul a b) ≡ value a * value b
  pub debug_lem : (a : Base) → pallas.debug a ≡ b'0' ∷ b'x' ∷ hex_digits 64 (value a)
  pub to_le_bits_lem : (a : Base) → hasher.to_le_bits a ≡ i2lebsp 256 0 (value a)

module _ {Base MessagePiece Point : Type 0} (chip : SinsemillaChip Base MessagePiece Point) where
  -- Elements with the numbers of their low bits, as the message that they make.
  unfoldable pub pieces_of : List (Base × ℕ) → Option (List MessagePiece)
  pieces_of [] = some []
  pieces_of ((element, n) ∷ parts) = do
    piece ← chip.from_subpiece element n
    pieces ← pieces_of parts
    some (piece ∷ pieces)

  unfoldable pub hash_of_parts : List (Base × ℕ) → Option Base
  unfolding pieces_of
  hash_of_parts parts = do
    pieces ← pieces_of parts
    point ← chip.hash_to_point pieces
    some (chip.extract point)

unfoldable pub bits_of : {Base : Type 0} → Hasher Base → List (Base × ℕ) → List Bool
bits_of hasher [] = []
bits_of hasher ((element, n) ∷ parts) = take n (hasher.to_le_bits element) ++ bits_of hasher parts

-- A message piece has a whole number of the 10-bit words that Sinsemilla takes, and at most as many
-- as an element has room for, 25.
abbrev pub AllPieces : {Base : Type 0} → List (Base × ℕ) → Type 0
AllPieces [] = Unit {0}
AllPieces ((element, n) ∷ parts) = (n % 10 ≡ 0) × (n ≤ 250) × AllPieces parts

-- The number of bits of a message.
unfoldable pub size_of : {Base : Type 0} → List (Base × ℕ) → ℕ
size_of [] = 0
size_of ((element, n) ∷ parts) = n + size_of parts

-- The chip computes the hash of a message of at most 253 words, where that is defined.
abbrev pub IsSinsemilla :
    {Base MessagePiece Point : Type 0}
    → SinsemillaChip Base MessagePiece Point
    → Hasher Base
    → Type 0
IsSinsemilla {Base} chip hasher =
    (parts : List (Base × ℕ)) (r : Base)
    → AllPieces parts
    → size_of parts ≤ 2530
    → hasher.hash (bits_of hasher parts) ≡ some r
    → hash_of_parts chip parts ≡ some r
