-- ===== src/Program/Hash.antt =====
-- mips-emulator/src/witness.rs: `Program::compute_hash`. The hasher, a copy of a library's
-- Sinsemilla, is a parameter, with the field `Base` that it hashes to.
pub mod Words
pub mod Numbers
pub mod Total
pub mod Chain
use mips_emulator.Prelude.{ℕ, zero, suc, ◌+◌, ◌-◌, ◌*◌}
use mips_emulator.Prelude.{
  Bool, true, false, Option, none, some, List, [], ◌∷◌, ◌++◌, length, replicate, take, drop,
}
use mips_emulator.Prelude.{ltb, leb, if◌then◌else◌}
use mips_emulator.Prelude.{Outcome, done, panic, out_of_fuel, ◌>>=◌}
use mips_emulator.Program.{Program, index, i2lebsp, mips_instruction_len, next_instruction}

abbrev pub hash_output_take_len : ℕ
hash_output_take_len = 250

abbrev pub hash_chunk_len : ℕ
hash_chunk_len = 60

-- `hasher` and what is used of the field: the first coordinate of `Q`, the bits of an element from
-- the low end, and the hash of a string of bits.
pub record Hasher (Base : Type 0) : Type 0 where
  pub init : Base
  pub to_le_bits : Base → List Bool
  pub hash : List Bool → Option Base

unfoldable pub unwrap {ℓ} : {A : Type ℓ} → Option A → Outcome A
unwrap none = panic
unwrap (some a) = done a

-- The loop of `fetch_chunk_120`, which ends after `left` more instructions at the latest.
unfoldable pub fetch_chunk : ℕ → ℕ → ℕ → Program → Outcome (List ℕ × ℕ × ℕ)
fetch_chunk zero cur_segment cur_instruction p = done ([], cur_segment, cur_instruction)
fetch_chunk (suc left) cur_segment cur_instruction p = do
  (res, cursor1, cursor2) ← next_instruction cur_segment cur_instruction p
  elim res [
    | none ↦ done ([], cur_segment, cur_instruction)
    | some instruction ↦ do
      (chunk, end_segment, end_instruction) ← fetch_chunk left cursor1 cursor2 p
      done (instruction.bytecode ∷ chunk, end_segment, end_instruction)
  ]

-- The end of `fetch_chunk_120`: the chunk of 120 words, and whether it is the last.
unfoldable pub pad_chunk : List ℕ → List ℕ × Bool
pad_chunk chunk =
    if ltb (length chunk) 120
    then (chunk ++ replicate (120 - length chunk) 0, true)
    else (chunk, false)

-- `all_instructions`.
unfoldable pub collect : ℕ → ℕ → ℕ → Program → Outcome (List ℕ)
collect zero cur_segment cur_instruction p = out_of_fuel
collect (suc fuel) cur_segment cur_instruction p = do
  (words, cursor1, cursor2) ← fetch_chunk 120 cur_segment cur_instruction p
  let (chunk, last) = pad_chunk words
  elim last [
    | true ↦ done chunk
    | false ↦ do rest ← collect fuel cursor1 cursor2 p; done (chunk ++ rest)
  ]

-- The bits of `n` words from `from` on, the last word first.
unfoldable pub words_down : ℕ → ℕ → List ℕ → Outcome (List Bool)
words_down zero from words = done []
words_down (suc n) from words = do
  word ← index words (from + n)
  rest ← words_down n from words
  done (i2lebsp mips_instruction_len 0 word ++ rest)

-- One round of `for i in 0..4`: 15 words from `from` on, as two parts of 240 bits.
unfoldable pub sub_chunks : ℕ → List ℕ → Outcome (List Bool)
sub_chunks from words = do
  low ← words_down 7 from words
  mid ← index words (from + 7)
  high ← words_down 7 (from + 8) words
  let mid_one_bits = i2lebsp mips_instruction_len 0 mid
  done (take 16 mid_one_bits ++ (low ++ (high ++ drop 16 mid_one_bits)))

unfoldable pub chunk_bits : ℕ → ℕ → List ℕ → Outcome (List Bool)
chunk_bits zero from words = done []
chunk_bits (suc n) from words = do
  bits ← sub_chunks from words
  rest ← chunk_bits n (from + 15) words
  done (bits ++ rest)

module _ {Base : Type 0} (hasher : Hasher Base) where
  -- The loop over `idx`.
  unfoldable pub hash_loop : ℕ → ℕ → Base → List ℕ → Outcome Base
  hash_loop zero idx a0 words = out_of_fuel
  hash_loop (suc fuel) idx a0 words = do
    chunk ← chunk_bits 4 idx words
    a1 ← unwrap (hasher.hash (take hash_output_take_len (hasher.to_le_bits a0) ++ chunk))
    elim (leb (length words) (idx + hash_chunk_len)) [
      | true ↦ done a1
      | false ↦ hash_loop fuel (idx + hash_chunk_len) a1 words
    ]

  unfoldable pub compute_hash : ℕ → Program → Outcome Base
  compute_hash fuel p = do words ← collect fuel 0 0 p; hash_loop fuel 0 hasher.init words
