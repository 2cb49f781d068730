-- ===== src/Step/Instruction/Branches.antt =====
-- Branches and jumps, with their delay slot, as `mips_step` runs them: mips-emulator/src/state.rs.
use mips_emulator.Prelude.{
  ℕ, ◌/◌, ◌%◌, ◌^◌, ◌+◌, ◌-◌, ◌*◌, ◌<◌, ◌≡◌, refl, arith, ◌∙◌, ap, true, false, ◌⊎◌, inl, inr, Bool,
}
use mips_emulator.Prelude.{
  some, none, ◌==◌, ◌!=◌, ◌&&◌, ◌||◌, leb, ltb, if◌then◌else◌, bit_and, done, bind_done,
}
use mips_emulator.Prelude.{Bool-cases, ◌>>=◌}
use mips_emulator.Prelude.Bits.{bit_and_mask}
use mips_emulator.Platform.{Platform}
use mips_emulator.Word.{shl, add32}
use mips_emulator.Word.Laws.{add32-done}
use mips_emulator.Alu.{sign_extension}
use mips_emulator.Alu.SignExtension.{sign_extension_lem}
use mips_emulator.Control.{handle_branch, handle_jump, should_branch, advance}
use mips_emulator.Memory.View.{view}
use mips_emulator.Memory.Sound.{IsSound}
use mips_emulator.State.{State, InstrumentedState}
use mips_emulator.Step
use mips_emulator.Step.Accesses.{offset_of}
use mips_emulator.Step.Instruction.{rs_of, rt_of, written, IsAt, fetch_lem, after_fetch}

-- Whether an instruction branches on the words of its two registers: on equality, on inequality, or
-- on the sign of the first.
abbrev pub branches : ℕ → ℕ → ℕ → Bool
branches insn rs rt =
    let opcode = insn / 2 ^ 26 in
    if opcode == 4
    then rs == rt
    else if opcode == 5
    then rs != rt
    else if opcode == 6
    then rs == 0 || leb (2 ^ 31) rs
    else if opcode == 7
    then rs != 0 && ltb rs (2 ^ 31)
    else if rt_of insn == 0
    then leb (2 ^ 31) rs
    else if rt_of insn == 1
    then ltb rs (2 ^ 31)
    else false

-- The 26-bit target of a jump, extended with its sign, in bytes.
abbrev pub jump_target : ℕ → ℕ
jump_target insn =
    let index = bit_and insn 0x03ff_ffff in
    4 * (if leb (2 ^ 25) index then index + (2 ^ 32 - 2 ^ 26) else index) % 2 ^ 32

should_branch_lem :
    (insn rs : ℕ) (s : State)
    → Step.is_branch (insn / 2 ^ 26) ≡ true
    → should_branch (insn / 2 ^ 26) insn (rt_of insn) rs s
      ≡ done (branches insn rs (s.registers (rt_of insn)))
unfolding should_branch Step.is_branch
should_branch_lem insn rs s branch = ground arith

module _ (platform : Platform) where
  half_extended :
      (insn : ℕ) → sign_extension platform (bit_and insn 0xffff) 16 ≡ done (offset_of insn)
  half_extended insn =
      sign_extension_lem platform (bit_and insn 0xffff) 16 (omega arith) (omega arith)
        (omega (arith, bit_and_mask 16 insn))

  no_jump :
      (insn : ℕ)
      → Step.is_branch (insn / 2 ^ 26) ≡ true
      → (insn / 2 ^ 26 == 2 || insn / 2 ^ 26 == 3) ≡ false
  unfolding Step.is_branch
  no_jump insn branch = ground arith

  branch_fetched :
      (insn : ℕ) (s : State)
      → Step.is_branch (insn / 2 ^ 26) ≡ true
      → Step.fetch_rt platform (insn / 2 ^ 26) insn (rt_of insn) s ≡ done (offset_of insn)
  unfolding Step.fetch_rt Step.is_branch
  branch_fetched insn s branch = let extended = half_extended insn in ground arith

  handle_branch_lem :
      (insn rs : ℕ) (s : State)
      → Step.is_branch (insn / 2 ^ 26) ≡ true
      → s.next_pc + 4 < 2 ^ 32
      → handle_branch platform (insn / 2 ^ 26) insn (rt_of insn) rs s
        ≡ done (record s {
          pc = s.next_pc;
          next_pc =
              if branches insn rs (s.registers (rt_of insn))
              then (s.pc + 4 + 4 * offset_of insn) % 2 ^ 32
              else s.next_pc + 4;
        })
  unfolding handle_branch advance
  handle_branch_lem insn rs s branch next =
      bind_done (should_branch (insn / 2 ^ 26) insn (rt_of insn) rs s) _
        (should_branch_lem insn rs s branch)
      ∙ moved (branches insn rs (s.registers (rt_of insn)))
    where
      moved :
          (b : Bool)
          → (if b
              then (do
                offset ← sign_extension platform (bit_and insn 0xffff) 16
                done (record s { pc = s.next_pc; next_pc = (s.pc + 4 + shl offset 2) % 2 ^ 32 }))
              else advance platform s)
            ≡ done (record s {
              pc = s.next_pc;
              next_pc = if b then (s.pc + 4 + 4 * offset_of insn) % 2 ^ 32 else s.next_pc + 4;
            })
      moved true =
          bind_done (sign_extension platform (bit_and insn 0xffff) 16) _ (half_extended insn)
          ∙ ap (λ (n : ℕ). done (record s { pc = s.next_pc; next_pc = n })) (omega arith)
      moved false = bind_done (add32 platform s.next_pc 4) _ (add32-done platform s.next_pc 4 next)

  branch_decoded :
      (fuel insn : ℕ) (is : InstrumentedState)
      → Step.is_branch (insn / 2 ^ 26) ≡ true
      → Step.fetched_step platform fuel insn is ≡ (do
        s ←
            handle_branch platform
              (insn / 2 ^ 26)
              insn
              (rt_of insn)
              (is.state.registers (rs_of insn))
              is.state
        done (record {
          row = some (Step.row_pcs s (Step.fetched_row insn is.state));
          access = none;
          is = Step.with_state s is;
        }))
  unfolding Step.fetched_step Step.decoded_step
  branch_decoded fuel insn is branch =
      let jump : (insn / 2 ^ 26 == 2 || insn / 2 ^ 26 == 3) ≡ false = no_jump insn branch in
      rw (jump, branch_fetched insn is.state branch, branch) refl

  -- From a running machine at a beq, bne, blez, bgtz, bltz or bgez, or another instruction of
  -- opcode 1: the step succeeds; the next instruction is the one of the delay slot, and the one
  -- after it is, where the registers' words meet the test, at the address of the instruction plus
  -- four plus four times the sign-extended offset modulo 2^32, and otherwise the one that follows;
  -- every register and every byte of memory are as before, the step count goes up by one, the
  -- memory stays sound, nothing else of the machine's state changes, and no access is recorded.
  pub branch_lem :
      (fuel insn : ℕ) (is : InstrumentedState)
      → IsAt platform insn is.state
      → Step.is_branch (insn / 2 ^ 26) ≡ true
      → (r : Step.StepResult) × (Step.mips_step platform fuel is ≡ done r)
        × (r.is.state ≡ record (is.state) {
          memory = r.is.state.memory;
          pc = is.state.next_pc;
          next_pc =
              if branches insn (is.state.registers (rs_of insn)) (is.state.registers (rt_of insn))
              then (is.state.pc + 4 + 4 * offset_of insn) % 2 ^ 32
              else is.state.next_pc + 4;
          step = is.state.step + 1;
        })
        × ((b : ℕ) → view r.is.state.memory b ≡ view is.state.memory b)
        × IsSound platform r.is.state.memory
        × (r.access ≡ none)
  branch_lem fuel insn is at branch =
      let (m, fetch, same, ok) = fetch_lem platform fuel insn is at in
      let is0 = after_fetch platform m is in
      let rs = is.state.registers (rs_of insn) in
      (
        _,
        fetch
            ∙ (branch_decoded fuel insn is0 branch
                ∙ bind_done (handle_branch platform (insn / 2 ^ 26) insn (rt_of insn) rs is0.state)
                    _ (handle_branch_lem insn rs is0.state branch at.next)),
        refl,
        same,
        ok,
        refl,
      )

  handle_jump_lem :
      (link_reg dest : ℕ) (s : State)
      → s.pc + 8 < 2 ^ 32
      → handle_jump platform link_reg dest s
        ≡ done (record s {
          pc = s.next_pc;
          next_pc = dest;
          registers = written link_reg (s.pc + 8) s.registers;
        })
  unfolding handle_jump
  handle_jump_lem link_reg dest s small = elim (Bool-cases (link_reg != 0)) [
    | inl e ↦ rw (e, add32-done platform s.pc 8 small) refl
    | inr e ↦ rw e refl
  ]

  jump_decoded :
      (fuel insn : ℕ) (is : InstrumentedState)
      → (insn / 2 ^ 26 ≡ 2) ⊎ (insn / 2 ^ 26 ≡ 3)
      → is.state.pc + 8 < 2 ^ 32
      → Step.fetched_step platform fuel insn is ≡ (
          let s : State = record (is.state) {
            pc = is.state.next_pc;
            next_pc = jump_target insn;
            registers =
                written (if insn / 2 ^ 26 == 3 then 31 else 0) (is.state.pc + 8) is.state.registers;
          } in
          done (record {
            row = some (Step.row_pcs s (Step.fetched_row insn is.state));
            access = none;
            is = Step.with_state s is;
          }))
  unfolding Step.fetched_step
  jump_decoded fuel insn is code small =
      let index = bit_and insn 0x03ff_ffff in
      let jump : (insn / 2 ^ 26 == 2 || insn / 2 ^ 26 == 3) ≡ true = ground arith in
      let extended =
        sign_extension_lem platform index 26 (omega arith) (omega arith)
          (omega (arith, bit_and_mask 26 insn)) in
      let bytes : shl (if leb (2 ^ 25) index then index + (2 ^ 32 - 2 ^ 26) else index) 2
          ≡ jump_target insn =
        omega arith in
      rw
        (
          jump,
          extended,
          bytes,
          handle_jump_lem (if insn / 2 ^ 26 == 3 then 31 else 0) (jump_target insn) is.state small,
        )
        refl

  -- From a running machine at a j or a jal, where the address after the delay slot is below 2^32:
  -- the step succeeds; the next instruction is the one of the delay slot, and the one after it is
  -- at four times the sign-extended 26-bit index of the instruction modulo 2^32; jal sets register
  -- 31 to the address after the delay slot, every other register and every byte of memory are as
  -- before, the step count goes up by one, the memory stays sound, nothing else of the machine's
  -- state changes, and no access is recorded.
  pub jump_lem :
      (fuel insn : ℕ) (is : InstrumentedState)
      → IsAt platform insn is.state
      → (insn / 2 ^ 26 ≡ 2) ⊎ (insn / 2 ^ 26 ≡ 3)
      → is.state.pc + 8 < 2 ^ 32
      → (r : Step.StepResult) × (Step.mips_step platform fuel is ≡ done r)
        × (r.is.state ≡ record (is.state) {
          memory = r.is.state.memory;
          pc = is.state.next_pc;
          next_pc = jump_target insn;
          registers =
              written (if insn / 2 ^ 26 == 3 then 31 else 0) (is.state.pc + 8) is.state.registers;
          step = is.state.step + 1;
        })
        × ((b : ℕ) → view r.is.state.memory b ≡ view is.state.memory b)
        × IsSound platform r.is.state.memory
        × (r.access ≡ none)
  jump_lem fuel insn is at code small =
      let (m, fetch, same, ok) = fetch_lem platform fuel insn is at in
      (
        _,
        fetch ∙ jump_decoded fuel insn (after_fetch platform m is) code small,
        refl,
        same,
        ok,
        refl,
      )
