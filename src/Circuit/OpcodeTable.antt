-- ===== src/Circuit/OpcodeTable.antt =====
-- zkmips-circuits/src/table/opcode_table.rs: `load_with_region`, which fills the table of the
-- program's instructions.
use mips_emulator.Prelude.{
  ℕ, zero, suc, ◌+◌, ◌^◌, ◌<◌, ◌≡◌, refl, arith, ap, inl, inr, none, some, List, [], ◌∷◌, length,
}
use mips_emulator.Prelude.{◌>>=◌}
use mips_emulator.Prelude.{Outcome, done, out_of_fuel}
use mips_emulator.Witness.{Instruction}
use mips_emulator.Program.{Program, next_instruction}
use mips_emulator.Program.Cursor.{
  AllNonEmpty, At, At-start, flat, remaining, remaining_start, next_instruction_lem,
}
use mips_emulator.Circuit.Field.{Field, int_to_field, ones, int_to_field_lem}

module _ (field : Field) where
  -- What `assign` writes into the region: an address and a word at an offset.
  pub record Assigned : Type 0 where
    pub offset : ℕ
    pub address : field.F
    pub bytecode : field.F

  unfoldable pub assigned : ℕ → Instruction → Assigned
  assigned offset instruction = record {
    offset = offset;
    address = int_to_field field 32 instruction.addr;
    bytecode = int_to_field field 32 instruction.bytecode;
  }

  -- The loop, with what it assigns in order.
  unfoldable pub load_from : ℕ → ℕ → ℕ → ℕ → Program → Outcome (List Assigned)
  load_from zero cur_segment cur_instruction offset program = out_of_fuel
  load_from (suc fuel) cur_segment cur_instruction offset program = do
    (res, cursor1, cursor2) ← next_instruction cur_segment cur_instruction program
    elim res [
      | none ↦ done []
      | some instruction ↦ do
        rest ← load_from fuel cursor1 cursor2 (offset + 1) program
        done (assigned offset instruction ∷ rest)
    ]

  unfoldable pub load_with_region : ℕ → Program → Outcome (List Assigned)
  load_with_region fuel program = load_from fuel 0 0 0 program

  -- Addresses and words in the range of their type.
  abbrev pub AllFit : List Instruction → Type 0
  AllFit [] = Unit {0}
  AllFit (i ∷ is) = (i.addr < 2 ^ 32) × (i.bytecode < 2 ^ 32) × AllFit is

  -- The addresses and words of instructions in consecutive rows, each a sum of as many ones.
  unfoldable pub rows : ℕ → List Instruction → List Assigned
  rows offset [] = []
  rows offset (i ∷ is) =
      record { offset = offset; address = ones field i.addr; bytecode = ones field i.bytecode }
      ∷ rows (offset + 1) is

  assigned_lem :
      (offset : ℕ) (i : Instruction)
      → i.addr < 2 ^ 32
      → i.bytecode < 2 ^ 32
      → assigned offset i
        ≡ record { offset = offset; address = ones field i.addr; bytecode = ones field i.bytecode }
  unfolding assigned
  assigned_lem offset i addr bytecode =
      rw (int_to_field_lem field 32 i.addr addr, int_to_field_lem field 32 i.bytecode bytecode) refl

  load_from_lem :
      (fuel : ℕ) (p : Program) (c i offset : ℕ)
      → AllNonEmpty p.segments
      → At p.segments c i
      → AllFit (remaining p.segments c i)
      → length (remaining p.segments c i) < fuel
      → load_from fuel c i offset p ≡ done (rows offset (remaining p.segments c i))
  unfolding load_from rows
  load_from_lem zero p c i offset full at fit h = absurd (omega arith)
  load_from_lem (suc fuel) p c i offset full at fit h = elim (next_instruction_lem p c i full at) [
    | inl (empty, stays) ↦ rw (stays, empty) refl
    | inr (ins, c1, i1, moves, at1, rest) ↦
        let left : length (remaining p.segments c1 i1) < fuel =
          omega (arith, h, ap (λ (l : List Instruction). length l) rest) in
        let (addr, bytecode, later) = rw rest at fit in
        rw
          (
            moves,
            rest,
            load_from_lem fuel p c1 i1 (offset + 1) full at1 later left,
            assigned_lem offset ins addr bytecode,
          )
          refl
  ]

  -- For a program with no empty segment, whose addresses and words are below 2^32, the circuit's
  -- instruction table gets them of all its instructions, in order, in consecutive rows from 0 on,
  -- each number as the sum of as many ones of the field; one round for each instruction and one
  -- more are enough.
  pub load_with_region_lem :
      (fuel : ℕ) (p : Program)
      → AllNonEmpty p.segments
      → AllFit (flat p.segments)
      → length (flat p.segments) < fuel
      → load_with_region fuel p ≡ done (rows 0 (flat p.segments))
  unfolding load_with_region
  load_with_region_lem fuel p full fit h =
      let start = remaining_start p.segments in
      rw (← start)
        (load_from_lem fuel p 0 0 0 full (At-start p.segments full) (rw start fit) (rw start h))
