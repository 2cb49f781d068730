-- ===== src/Circuit/ProgramTable.antt =====
-- zkmips-circuits/src/program.rs: `load_private_program`, the lookup table of the program's
-- instructions.
use mips_emulator.Prelude.{
  ℕ, zero, suc, ◌+◌, ◌<◌, ◌≡◌, refl, arith, ap, inl, inr, none, some, List, [], ◌∷◌, length,
}
use mips_emulator.Prelude.{◌>>=◌}
use mips_emulator.Prelude.{Outcome, done, out_of_fuel}
use mips_emulator.Witness.{Instruction}
use mips_emulator.Program.{Program, next_instruction}
use mips_emulator.Program.Cursor.{
  AllNonEmpty, At, At-start, flat, remaining, remaining_start, next_instruction_lem,
}
use mips_emulator.Circuit.ProgramHash.{Pallas}

module _ {Base : Type 0} (pallas : Pallas Base) where
  -- The cells that are assigned at an index: an address and an instruction.
  pub record ProgramRow : Type 0 where
    pub index : ℕ
    pub addr : Base
    pub instruction : Base

  unfoldable pub program_row : ℕ → Instruction → ProgramRow
  program_row index instruction = record {
    index = index;
    addr = pallas.from instruction.addr;
    instruction = pallas.from instruction.bytecode;
  }

  -- The loop, with what it assigns in order.
  unfoldable pub load_private_from : ℕ → ℕ → ℕ → ℕ → Program → Outcome (List ProgramRow)
  load_private_from zero cur_segment cur_instruction index program = out_of_fuel
  load_private_from (suc fuel) cur_segment cur_instruction index program = do
    (res, cursor1, cursor2) ← next_instruction cur_segment cur_instruction program
    elim res [
      | none ↦ done []
      | some instruction ↦ do
        rest ← load_private_from fuel cursor1 cursor2 (index + 1) program
        done (program_row index instruction ∷ rest)
    ]

  unfoldable pub load_private_program : ℕ → Program → Outcome (List ProgramRow)
  load_private_program fuel program = load_private_from fuel 0 0 0 program

  -- The instructions at consecutive indices.
  unfoldable pub program_rows : ℕ → List Instruction → List ProgramRow
  program_rows index [] = []
  program_rows index (i ∷ is) = program_row index i ∷ program_rows (index + 1) is

  load_private_from_lem :
      (fuel : ℕ) (p : Program) (c i index : ℕ)
      → AllNonEmpty p.segments
      → At p.segments c i
      → length (remaining p.segments c i) < fuel
      → load_private_from fuel c i index p ≡ done (program_rows index (remaining p.segments c i))
  unfolding load_private_from program_rows
  load_private_from_lem zero p c i index full at h = absurd (omega arith)
  load_private_from_lem (suc fuel) p c i index full at h =
      elim (next_instruction_lem p c i full at) [
        | inl (empty, stays) ↦ rw (stays, empty) refl
        | inr (ins, c1, i1, moves, at1, rest) ↦
            let left : length (remaining p.segments c1 i1) < fuel =
              omega (arith, h, ap (λ (l : List Instruction). length l) rest) in
            rw (moves, rest, load_private_from_lem fuel p c1 i1 (index + 1) full at1 left) refl
      ]

  -- For a program with no empty segment, the program circuit's table gets the addresses and words
  -- of all its instructions, in order, at consecutive indices from 0 on; one round for each and one
  -- more are enough.
  pub load_private_program_lem :
      (fuel : ℕ) (p : Program)
      → AllNonEmpty p.segments
      → length (flat p.segments) < fuel
      → load_private_program fuel p ≡ done (program_rows 0 (flat p.segments))
  unfolding load_private_program
  load_private_program_lem fuel p full h =
      let start = remaining_start p.segments in
      rw (← start) (load_private_from_lem fuel p 0 0 0 full (At-start p.segments full) (rw start h))
