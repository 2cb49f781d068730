-- ===== src/Step/Instruction/Arithmetic.antt =====
-- The register and immediate arithmetic as `mips_step` runs it: mips-emulator/src/state.rs.
use mips_emulator.Prelude.{
  ℕ, ◌/◌, ◌%◌, ◌^◌, ◌+◌, ◌<◌, ◌≤◌, ◌≡◌, refl, arith, ◌∙◌, ap, true, false, ◌⊎◌, inl, inr,
}
use mips_emulator.Prelude.{
  none, ◌==◌, ◌&&◌, ◌||◌, leb, ltb, if◌then◌else◌, bit_and, bit_or, bit_xor, done, ltb_of_le,
}
use mips_emulator.Prelude.Bits.{bit_and_mask}
use mips_emulator.Platform.{Platform}
use mips_emulator.Word.{max_u32}
use mips_emulator.Alu.{
  execute, execute_low, execute_special, execute_arith, arith_fun, sign_extension, lt_i32,
}
use mips_emulator.Alu.SignExtension.{sign_extension_lem}
use mips_emulator.Memory.View.{view}
use mips_emulator.Memory.Sound.{IsSound}
use mips_emulator.State.{State, InstrumentedState}
use mips_emulator.Step
use mips_emulator.Step.Accesses.{offset_of}
use mips_emulator.Step.Instruction.{
  written, rs_of, rt_of, rt_of-lt, rd_of, IsAt, fetch_lem, after_fetch, written_back, not_stored,
}

-- The immediate of an instruction: extended with zeros by andi, ori and xori, and with the sign by
-- the others.
abbrev pub immediate_of : ℕ → ℕ
immediate_of insn =
    if insn / 2 ^ 26 == 0xc || insn / 2 ^ 26 == 0xd || insn / 2 ^ 26 == 0xe
    then bit_and insn 0xffff
    else offset_of insn

-- What an immediate instruction computes: a sum modulo 2^32, a signed or an unsigned comparison, or
-- a bitwise operation.
abbrev pub immediate_value : ℕ → ℕ → ℕ → ℕ
immediate_value opcode rs imm =
    if leb opcode 9
    then (rs + imm) % 2 ^ 32
    else if opcode == 0xa
    then (if lt_i32 rs imm then 1 else 0)
    else if opcode == 0xb
    then (if ltb rs imm then 1 else 0)
    else if opcode == 0xc
    then bit_and rs imm
    else if opcode == 0xd
    then bit_or rs imm
    else bit_xor rs imm

opcodes :
    (c : ℕ)
    → 8 ≤ c
    → c < 0xf
    → (c ≡ 8) ⊎ (c ≡ 9) ⊎ (c ≡ 0xa) ⊎ (c ≡ 0xb) ⊎ (c ≡ 0xc) ⊎ (c ≡ 0xd) ⊎ (c ≡ 0xe)
opcodes c above below = omega arith

immediate_arith :
    (opcode fun rs imm : ℕ)
    → 8 ≤ opcode
    → opcode < 0xf
    → (execute_arith (arith_fun opcode fun) rs imm ≡ done (immediate_value opcode rs imm))
      × (0x20 ≤ arith_fun opcode fun)
unfolding execute_arith arith_fun
immediate_arith opcode fun rs imm above below = elim (opcodes opcode above below) [
  | inl e ↦ rw e (refl, omega arith)
  | inr (inl e) ↦ rw e (refl, omega arith)
  | inr (inr (inl e)) ↦ rw e (refl, omega arith)
  | inr (inr (inr (inl e))) ↦ rw e (refl, omega arith)
  | inr (inr (inr (inr (inl e)))) ↦ rw e (refl, omega arith)
  | inr (inr (inr (inr (inr (inl e))))) ↦ rw e (refl, omega arith)
  | inr (inr (inr (inr (inr (inr e))))) ↦ rw e (refl, omega arith)
]

rd_of-lt : (insn : ℕ) → rd_of insn < 32
rd_of-lt insn = omega (arith, bit_and_mask 5 (insn / 2 ^ 11))

module _ (platform : Platform) where
  -- The operands of an instruction that does not touch memory.
  abbrev operands_of : ℕ → ℕ → ℕ → State → Step.Operands
  operands_of rt rd_reg insn s = record {
    rs = s.registers (rs_of insn);
    rt = rt;
    rd_reg = rd_reg;
    mem = 0;
    store_addr = max_u32;
    access = none;
  }

  -- After the fetch, an instruction that does not touch memory sets a register and moves on.
  arithmetic_lem :
      (fuel insn rt rd_reg val : ℕ) (is : InstrumentedState)
      → IsAt platform insn is.state
      → (insn / 2 ^ 26 == 0 && (leb 8 (bit_and insn 0x3f) && ltb (bit_and insn 0x3f) 0x1c)) ≡ false
      → (insn / 2 ^ 26 == 0x38) ≡ false
      → rd_reg < 32
      → execute platform insn (is.state.registers (rs_of insn)) rt 0 ≡ done val
      → ((is' : InstrumentedState)
          → is'.state.registers ≡ is.state.registers
          → Step.fetched_step platform fuel insn is'
            ≡ Step.alu_step platform fuel insn
                (Step.fetched_row insn is'.state)
                (operands_of rt rd_reg insn is'.state)
                is')
      → (r : Step.StepResult) × (Step.mips_step platform fuel is ≡ done r)
        × (r.is.state ≡ record (is.state) {
          memory = r.is.state.memory;
          registers = written rd_reg val is.state.registers;
          pc = is.state.next_pc;
          next_pc = is.state.next_pc + 4;
          step = is.state.step + 1;
        })
        × ((b : ℕ) → view r.is.state.memory b ≡ view is.state.memory b)
        × IsSound platform r.is.state.memory
        × (r.access ≡ none)
  arithmetic_lem fuel insn rt rd_reg val is at plain cond small run decoded =
      let (m, fetch, same, ok) = fetch_lem platform fuel insn is at in
      let is0 = after_fetch platform m is in
      let o = operands_of rt rd_reg insn is0.state in
      (
        _,
        fetch
            ∙ (decoded is0 refl
                ∙ written_back platform fuel insn val (Step.fetched_row insn is0.state) o is0 is0
                    plain cond run (not_stored platform val o is0 refl) small at.next),
        refl,
        same,
        ok,
        refl,
      )

  register_decoded :
      (fuel insn : ℕ) (is : InstrumentedState)
      → insn / 2 ^ 26 ≡ 0
      → Step.fetched_step platform fuel insn is
        ≡ Step.alu_step platform fuel insn
            (Step.fetched_row insn is.state)
            (operands_of (is.state.registers (rt_of insn)) (rd_of insn) insn is.state)
            is
  unfolding Step.fetched_step Step.decoded_step Step.fetch_rt Step.is_branch
  register_decoded fuel insn is code = rw code refl

  register_executed :
      (insn rs rt mem : ℕ)
      → insn / 2 ^ 26 ≡ 0
      → execute platform insn rs rt mem
        ≡ execute_special platform (bit_and insn 0x3f) (bit_and (insn / 2 ^ 6) 0x1f) rs rt
  unfolding execute execute_low
  register_executed insn rs rt mem code = rw code refl

  -- From a running machine at an instruction of opcode 0 whose function code is below 8 or 28 and
  -- more, one that the arithmetic has a value for: the step succeeds; the destination register,
  -- unless it is register 0, holds that value of the two source registers and the shift amount,
  -- every other register and every byte of memory are as before, the program counters move on by
  -- one instruction, the step count goes up by one, the memory stays sound, nothing else of the
  -- machine's state changes, and no access is recorded.
  pub register_arithmetic_lem :
      (fuel insn val : ℕ) (is : InstrumentedState)
      → IsAt platform insn is.state
      → insn / 2 ^ 26 ≡ 0
      → (bit_and insn 0x3f < 8) ⊎ (0x1c ≤ bit_and insn 0x3f)
      → execute_special platform
          (bit_and insn 0x3f)
          (bit_and (insn / 2 ^ 6) 0x1f)
          (is.state.registers (rs_of insn))
          (is.state.registers (rt_of insn))
        ≡ done val
      → (r : Step.StepResult) × (Step.mips_step platform fuel is ≡ done r)
        × (r.is.state ≡ record (is.state) {
          memory = r.is.state.memory;
          registers = written (rd_of insn) val is.state.registers;
          pc = is.state.next_pc;
          next_pc = is.state.next_pc + 4;
          step = is.state.step + 1;
        })
        × ((b : ℕ) → view r.is.state.memory b ≡ view is.state.memory b)
        × IsSound platform r.is.state.memory
        × (r.access ≡ none)
  register_arithmetic_lem fuel insn val is at code plain run =
      arithmetic_lem fuel insn (is.state.registers (rt_of insn)) (rd_of insn) val is at
        (ground arith) (rw code refl) (rd_of-lt insn) (register_executed insn _ _ 0 code ∙ run)
        λ is' same.
          register_decoded fuel insn is' code
          ∙ ap
              (λ (f : ℕ → ℕ).
                Step.alu_step platform fuel insn (Step.fetched_row insn is'.state)
                  (operands_of (f (rt_of insn)) (rd_of insn) insn is'.state) is')
              same

  immediate_fetched :
      (insn : ℕ) (s : State)
      → 8 ≤ insn / 2 ^ 26
      → insn / 2 ^ 26 < 0xf
      → Step.fetch_rt platform (insn / 2 ^ 26) insn (rt_of insn) s ≡ done (immediate_of insn)
  unfolding Step.fetch_rt
  immediate_fetched insn s above below =
      let half : bit_and insn 0xffff < 2 ^ 16 = omega (arith, bit_and_mask 16 insn) in
      let extended : sign_extension platform (bit_and insn 0xffff) 16 ≡ done (offset_of insn) =
        sign_extension_lem platform (bit_and insn 0xffff) 16 (omega arith) (omega arith) half in
      ground arith

  immediate_decoded :
      (fuel insn : ℕ) (is : InstrumentedState)
      → 8 ≤ insn / 2 ^ 26
      → insn / 2 ^ 26 < 0xf
      → Step.fetched_step platform fuel insn is
        ≡ Step.alu_step platform fuel insn
            (Step.fetched_row insn is.state)
            (operands_of (immediate_of insn) (rt_of insn) insn is.state)
            is
  unfolding Step.fetched_step Step.decoded_step Step.is_branch
  immediate_decoded fuel insn is above below =
      let c = insn / 2 ^ 26 in
      let jump : (c == 2 || c == 3) ≡ false = ground arith in
      let branch : ((leb 4 c && ltb c 8) || c == 1) ≡ false = ground arith in
      let special : (c == 0 || c == 0x1c) ≡ false = ground arith in
      let memory : leb 0x20 c ≡ false = ground arith in
      rw (jump, immediate_fetched insn is.state above below, branch, special, memory) refl

  immediate_executed :
      (insn rs rt mem : ℕ)
      → 8 ≤ insn / 2 ^ 26
      → insn / 2 ^ 26 < 0xf
      → execute platform insn rs rt mem ≡ done (immediate_value (insn / 2 ^ 26) rs rt)
  unfolding execute execute_low execute_special
  immediate_executed insn rs rt mem above below =
      let c = insn / 2 ^ 26 in
      let immediate : (leb 8 c && ltb c 0xf) ≡ true = ground arith in
      let low : ltb c 0x20 ≡ true = ground arith in
      let (fun, high) = immediate_arith c (bit_and insn 0x3f) rs rt above below in
      rw (immediate, low, ltb_of_le (arith_fun c (bit_and insn 0x3f)) 0x20 high) fun

  -- From a running machine at addi, addiu, slti, sltiu, andi, ori or xori: the step succeeds; the
  -- register named, unless it is register 0, holds the sum, the comparison or the bitwise operation
  -- of the source register and the extended immediate, every other register and every byte of
  -- memory are as before, the program counters move on by one instruction, the step count goes up
  -- by one, the memory stays sound, nothing else of the machine's state changes, and no access is
  -- recorded.
  pub immediate_arithmetic_lem :
      (fuel insn : ℕ) (is : InstrumentedState)
      → IsAt platform insn is.state
      → 8 ≤ insn / 2 ^ 26
      → insn / 2 ^ 26 < 0xf
      → (r : Step.StepResult) × (Step.mips_step platform fuel is ≡ done r)
        × (r.is.state ≡ record (is.state) {
          memory = r.is.state.memory;
          registers =
              written
                (rt_of insn)
                (immediate_value
                  (insn / 2 ^ 26)
                  (is.state.registers (rs_of insn))
                  (immediate_of insn))
                is.state.registers;
          pc = is.state.next_pc;
          next_pc = is.state.next_pc + 4;
          step = is.state.step + 1;
        })
        × ((b : ℕ) → view r.is.state.memory b ≡ view is.state.memory b)
        × IsSound platform r.is.state.memory
        × (r.access ≡ none)
  immediate_arithmetic_lem fuel insn is at above below =
      arithmetic_lem fuel insn (immediate_of insn) (rt_of insn) _ is at (ground arith)
        (ground arith) (rt_of-lt insn)
        (immediate_executed insn (is.state.registers (rs_of insn)) (immediate_of insn) 0 above
          below)
        λ is' same. immediate_decoded fuel insn is' above below
