-- ===== src/Examples/Circuits.antt =====
-- The theorems on the circuits at concrete inputs.
use mips_emulator.Prelude.{
  ℕ, ◌+◌, ◌-◌, ◌*◌, ◌≡◌, refl, arith, ap, ◌∙◌, some, List, [], ◌∷◌, ◌++◌, Bool, done, take,
}
use mips_emulator.Examples.{platform, addiu}
use mips_emulator.Program.{Program, i2lebsp}
use mips_emulator.Program.Bits.{from_bits}
use mips_emulator.Program.Cursor.{flat}
use mips_emulator.Program.Hash.{Hasher, compute_hash}
use mips_emulator.Program.Hash.Words.{words_of, padded}
use mips_emulator.Program.Hash.Numbers.{upper_half, lower_half, joined}
use mips_emulator.Program.Hash.Chain.{hash_chain, block_bits, hashed}
use mips_emulator.Prelude.{Option, none, inl, inr, length, Bool-cases, ◌!=◌, if◌then◌else◌, ◌/◌}
use mips_emulator.Circuit.HashRound
use mips_emulator.Circuit.HashRound.{SinsemillaChip}
use mips_emulator.Circuit.ProgramHash.{Pallas, calculate_final_hash}
use mips_emulator.Circuit.ProgramHash.Laws.{
  IsPallas, IsSinsemilla, hex_digits, pieces_of, bits_of, hash_of_parts,
}
use mips_emulator.Circuit.ProgramHash.Agrees.{calculate_final_hash-compute_hash}
use mips_emulator.Circuit.ProgramTable.{
  load_private_program, program_rows, load_private_program_lem,
}

-- Natural numbers, whose arithmetic is that of the field below its order.
abbrev numbers : Pallas ℕ
numbers = record {
  from = λ n. n;
  zero_base = 0;
  add = ◌+◌;
  sub = ◌-◌;
  mul = ◌*◌;
  debug = λ a. b'0' ∷ b'x' ∷ hex_digits 64 a;
}

-- A hash that reads the bits as a number, and is not defined where that is 0.
abbrev unless_zero : List Bool → Option ℕ
unless_zero bits = if from_bits bits != 0 then some (from_bits bits) else none

abbrev number_hasher : Hasher ℕ
number_hasher = record { init = 1; to_le_bits = λ a. i2lebsp 256 0 a; hash = unless_zero }

numbers-IsPallas : IsPallas numbers number_hasher
numbers-IsPallas = record {
  value = λ a. a;
  value-from = λ n h. refl;
  zero-eq = refl;
  value-add = λ a b h. refl;
  value-sub = λ a b h. refl;
  value-mul = λ a b h. refl;
  debug_lem = λ a. refl;
  to_le_bits_lem = λ a. refl;
}

concat : List (List Bool) → List Bool
concat [] = []
concat (bits ∷ rest) = bits ++ concat rest

-- A chip whose message pieces are bits.
abbrev number_chip : SinsemillaChip ℕ (List Bool) (List Bool)
number_chip = record {
  from_subpiece = λ a n. some (take n (i2lebsp 256 0 a));
  hash_to_point = λ pieces. if from_bits (concat pieces) != 0 then some (concat pieces) else none;
  extract = λ bits. from_bits bits;
}

number_pieces :
    (parts : List (ℕ × ℕ))
    → (pieces : List (List Bool)) × (pieces_of number_chip parts ≡ some pieces)
      × (concat pieces ≡ bits_of number_hasher parts)
unfolding pieces_of concat bits_of
number_pieces [] = ([], refl, refl)
number_pieces ((a, n) ∷ parts) =
    let (pieces, e, f) = number_pieces parts in
    (take n (i2lebsp 256 0 a) ∷ pieces, rw e refl, ap (λ l. take n (i2lebsp 256 0 a) ++ l) f)

number_point :
    (bits : List Bool)
    → HashRound.◌>>=◌ (if from_bits bits != 0 then some bits else none) (λ b. some (from_bits b))
      ≡ unless_zero bits
number_point bits = elim (Bool-cases (from_bits bits != 0)) [
  | inl e ↦ rw e refl
  | inr e ↦ rw e refl
]

number_chip-IsSinsemilla : IsSinsemilla number_chip number_hasher
unfolding hash_of_parts
number_chip-IsSinsemilla parts r pieces fits h =
    let (ps, e, f) = number_pieces parts in rw e (number_point (concat ps) ∙ ap unless_zero f ∙ h)

-- One instruction, and two chips.
abbrev short : Program
short = record {
  cur_segment = 0;
  cur_instruction = 0;
  cur_bit = 0;
  segments =
      record {
        start_addr = 0;
        segment_size = 4;
        instructions = record { addr = 0; bytecode = addiu } ∷ [];
      }
      ∷ [];
}

-- What its words hash to.
abbrev short_chain : Option ℕ
short_chain =
    hash_chain number_hasher (length (hashed short) / 60) 0 number_hasher.init (hashed short)

abbrev short_hash : ℕ
short_hash = elim short_chain [ none ↦ 0 | some r ↦ r ]

short_chain-some : short_chain ≡ some short_hash
unfolding hash_chain block_bits upper_half lower_half joined padded words_of flat i2lebsp from_bits
short_chain-some = refl

calculate_final_hash_example :
    (compute_hash number_hasher 4 short ≡ done short_hash)
    × (calculate_final_hash platform numbers (number_chip ∷ number_chip ∷ []) 4 1 short
        ≡ done (some short_hash))
unfolding words_of flat
calculate_final_hash_example =
    calculate_final_hash-compute_hash platform numbers number_hasher numbers-IsPallas
      (number_chip ∷ number_chip ∷ []) 4 short
      (number_chip-IsSinsemilla, (number_chip-IsSinsemilla, tt)) (omega arith) (omega arith, tt)
      (omega arith, tt) short_chain-some (omega arith)

load_private_program_example :
    load_private_program numbers 2 short ≡ done (program_rows numbers 0 (flat short.segments))
unfolding flat
load_private_program_example =
    load_private_program_lem numbers 2 short (omega arith, tt) (omega arith)
