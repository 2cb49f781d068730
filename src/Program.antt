-- ===== src/Program.antt =====
-- mips-emulator/src/witness.rs: `Program`, the table of a program's instructions, with its bitwise
-- iterator and `next_instruction`.
pub mod Bits
pub mod Cursor
pub mod Load
pub mod Hash
use mips_emulator.Prelude.{ℕ, zero, suc, ◌+◌, ◌*◌, ◌^◌}
use mips_emulator.Prelude.{Bool, Option, none, some, List, [], ◌∷◌, ◌++◌, length}
use mips_emulator.Prelude.{◌==◌, ◌!=◌, leb, if◌then◌else◌, bit_and}
use mips_emulator.Prelude.{Outcome, done, panic, ◌>>=◌}
use mips_emulator.Platform.{Platform, Bytes}
use mips_emulator.Word.{add32}
use mips_emulator.Memory.{Memory, read_memory_range}
use mips_emulator.Memory.Io.{read_to_end}
use mips_emulator.Witness.{Instruction, ExecutionRow, MemoryAccess}

abbrev pub mips_instruction_len : ℕ
mips_instruction_len = 32

-- Bit `mask` of the number, for `n` more values of `mask`, low bits first.
unfoldable pub i2lebsp : ℕ → ℕ → ℕ → List Bool
i2lebsp zero mask int = []
i2lebsp (suc n) mask int = (bit_and int (2 ^ mask) != 0) ∷ i2lebsp n (mask + 1) int

unfoldable pub to_bits : Instruction → List Bool
to_bits instruction = i2lebsp mips_instruction_len 0 instruction.bytecode

pub record ProgramSegment : Type 0 where
  pub start_addr : ℕ
  pub segment_size : ℕ
  pub instructions : List Instruction

pub record Program : Type 0 where
  pub cur_segment : ℕ
  pub cur_instruction : ℕ
  pub cur_bit : ℕ
  pub segments : List ProgramSegment

-- `Program::new`.
unfoldable pub new : Program
new = record { cur_segment = 0; cur_instruction = 0; cur_bit = 0; segments = [] }

-- `xs[i]`.
unfoldable pub index {ℓ} : {A : Type ℓ} → List A → ℕ → Outcome A
index [] i = panic
index (x ∷ xs) zero = done x
index (x ∷ xs) (suc i) = index xs i

-- The place after the `instruction`-th of a segment that holds `len` instructions.
unfoldable pub advance : ℕ → ℕ → ℕ → ℕ × ℕ
advance len segment instruction =
    if instruction + 1 == len then (segment + 1, 0) else (segment, instruction + 1)

-- `Iterator::next`.
unfoldable pub next : Program → Outcome (Option Bool × Program)
next p = if leb (length p.segments) p.cur_segment then done (none, p) else (do
  segment ← index p.segments p.cur_segment
  ins ← index (segment.instructions) p.cur_instruction
  bit ← index (to_bits ins) p.cur_bit
  if p.cur_bit + 1 == mips_instruction_len
      then (let (cur_segment, cur_instruction) =
            advance (length segment.instructions) p.cur_segment p.cur_instruction in
          done (
            some bit,
            record p { cur_segment = cur_segment; cur_instruction = cur_instruction; cur_bit = 0 },
          ))
      else done (some bit, record p { cur_bit = p.cur_bit + 1 }))

unfoldable pub reset_iterator : Program → Program
reset_iterator p = record p { cur_segment = 0; cur_instruction = 0; cur_bit = 0 }

unfoldable pub total_instructions : List ProgramSegment → ℕ
total_instructions [] = 0
total_instructions (segment ∷ segments) = length segment.instructions + total_instructions segments

unfoldable pub next_instruction : ℕ → ℕ → Program → Outcome (Option Instruction × ℕ × ℕ)
next_instruction cur_segment cur_instruction p =
    if leb (length p.segments) cur_segment then done (none, cur_segment, cur_instruction) else (do
      segment ← index p.segments cur_segment
      ins ← index (segment.instructions) cur_instruction
      let place = advance (length segment.instructions) cur_segment cur_instruction
      done (some ins, place.0, place.1))

unfoldable pub from_le_bytes : ℕ → ℕ → ℕ → ℕ → ℕ
from_le_bytes b0 b1 b2 b3 = b0 + 2 ^ 8 * b1 + 2 ^ 16 * b2 + 2 ^ 24 * b3

module _ (platform : Platform) where
  -- The instructions in `buf[i..]`; a last part of fewer than four bytes panics.
  unfoldable pub decode_instructions : ℕ → ℕ → Bytes → Outcome (List Instruction)
  decode_instructions start_addr i [] = done []
  decode_instructions start_addr i (b0 ∷ []) = panic
  decode_instructions start_addr i (b0 ∷ b1 ∷ []) = panic
  decode_instructions start_addr i (b0 ∷ b1 ∷ b2 ∷ []) = panic
  decode_instructions start_addr i (b0 ∷ b1 ∷ b2 ∷ b3 ∷ buf) = do
    addr ← add32 platform start_addr i
    rest ← decode_instructions start_addr (i + 4) buf
    done (record { addr = addr; bytecode = from_le_bytes b0 b1 b2 b3 } ∷ rest)

  -- The loop over the segments; a segment's size and one more rounds are enough for its reads.
  unfoldable pub load_instructions :
      List ProgramSegment → Memory → Outcome (List ProgramSegment × Memory)
  load_instructions [] memory = done ([], memory)
  load_instructions (segment ∷ segments) memory = do
    (buf, memory1) ←
        read_to_end platform (segment.segment_size + 1) 0
          (read_memory_range segment.start_addr segment.segment_size memory)
    decoded ← decode_instructions segment.start_addr 0 buf
    (rest, memory2) ← load_instructions segments memory1
    done (record segment { instructions = segment.instructions ++ decoded } ∷ rest, memory2)

-- The input of the prover.
pub record Trace : Type 0 where
  pub prog : Program
  pub exec : List ExecutionRow
  pub mem : List MemoryAccess
