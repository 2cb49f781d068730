-- ===== src/Step/Instruction.antt =====
-- Whole instructions, from the fetch to the write-back: mips-emulator/src/state.rs, `mips_step`.
pub mod Arithmetic
pub mod Branches
pub mod Transfers
use mips_emulator.Prelude.{ℕ, ◌+◌, ◌-◌, ◌/◌, ◌%◌, ◌^◌, ◌<◌, ◌≡◌, refl, arith, ap, ◌∙◌, true, false}
use mips_emulator.Prelude.{
  some, ◌!=◌, ◌==◌, ◌&&◌, ensure, leb, ltb, if◌then◌else◌, bit_and, done, bind_done,
}
use mips_emulator.Prelude.{Bool, Option, update, ltb_of_lt}
use mips_emulator.Prelude.Bits.{bit_and_mask}
use mips_emulator.Platform.{Platform}
use mips_emulator.Word.{max_u32, add64, add32}
use mips_emulator.Word.Laws.{add64-done, add32-done}
use mips_emulator.Alu.{execute}
use mips_emulator.Control.{handle_rd, advance, set_register}
use mips_emulator.Memory.{Memory, get_memory}
use mips_emulator.Memory.View.{view, view_word}
use mips_emulator.Memory.Valid.{get_memory-IsValid}
use mips_emulator.Memory.Sound.{IsSound, get_memory-IsSound}
use mips_emulator.Witness.{ExecutionRow, MemoryAccess}
use mips_emulator.State.{State, InstrumentedState}
use mips_emulator.Step
use mips_emulator.Step.Accesses.{offset_of, row}

-- The general-purpose registers after a value is written to one of them: register 0 never changes.
abbrev pub written : ℕ → ℕ → (ℕ → ℕ) → ℕ → ℕ
written reg val registers = if reg != 0 then update registers reg val else registers

-- The fields of an instruction.
abbrev pub rs_of : ℕ → ℕ
rs_of insn = bit_and (insn / 2 ^ 21) 0x1f

abbrev pub rt_of : ℕ → ℕ
rt_of insn = bit_and (insn / 2 ^ 16) 0x1f

abbrev pub rd_of : ℕ → ℕ
rd_of insn = bit_and (insn / 2 ^ 11) 0x1f

-- The word a load or store refers to: the base register plus the offset, rounded down to four.
abbrev pub address : ℕ → State → ℕ
address insn s = bit_and ((s.registers (rs_of insn) + offset_of insn) % 2 ^ 32) 0xffff_fffc

pub unless {ℓ} : {A : Type ℓ} (b : Bool) (x : A) {y : A} → b ≡ false → (if b then x else y) ≡ y
unless false x h = refl
unless true x h = absurd (cc)

pub rt_of-lt : (insn : ℕ) → rt_of insn < 32
rt_of-lt insn = omega (arith, bit_and_mask 5 (insn / 2 ^ 16))

module _ (platform : Platform) where
  -- The machine runs, its memory is sound, `insn` is the word at its aligned program counter, and
  -- neither the step count nor the next program counter is at its end.
  pub record IsAt (insn : ℕ) (s : State) : Type 0 where
    pub running : s.exited ≡ false
    pub step : s.step + 1 < 2 ^ 64
    pub aligned : s.pc % 4 ≡ 0
    pub memory : IsSound platform s.memory
    pub fetched : view_word s.memory s.pc ≡ insn
    pub next : s.next_pc + 4 < 2 ^ 32

  -- The state after the fetch.
  abbrev pub after_fetch : Memory → InstrumentedState → InstrumentedState
  after_fetch m is = Step.with_state (record (is.state) { step = is.state.step + 1; memory = m }) is

  pub fetch_lem :
      (fuel insn : ℕ) (is : InstrumentedState)
      → IsAt insn is.state
      → (m : Memory) × (Step.mips_step platform fuel is
          ≡ Step.fetched_step platform fuel insn (after_fetch m is))
        × ((b : ℕ) → view m b ≡ view is.state.memory b)
        × IsSound platform m
  unfolding Step.mips_step
  fetch_lem fuel insn is at =
      let (m, run, same, valid) =
        get_memory-IsValid platform is.state.pc {m = is.state.memory} at.aligned at.memory.valid in
      let (ok, small, value, views) = get_memory-IsSound platform is.state.pc at.memory run in
      (
        m,
        unless is.state.exited _ at.running
            ∙ (bind_done (add64 platform is.state.step 1) _
                  (add64-done platform is.state.step 1 at.step)
                ∙ (bind_done (get_memory is.state.pc is.state.memory) _ run
                    ∙ ap (λ (w : ℕ). Step.fetched_step platform fuel w (after_fetch m is))
                        at.fetched)),
        same,
        ok,
      )

  advance_lem :
      (s : State)
      → s.next_pc + 4 < 2 ^ 32
      → advance platform s ≡ done (record s { pc = s.next_pc; next_pc = s.next_pc + 4 })
  unfolding advance
  advance_lem s next =
      bind_done (add32 platform s.next_pc 4) _ (add32-done platform s.next_pc 4 next)

  pub handle_rd_lem :
      (reg val : ℕ) (s : State)
      → reg < 32
      → s.next_pc + 4 < 2 ^ 32
      → handle_rd platform reg val true s
        ≡ done (record s {
          registers = written reg val s.registers;
          pc = s.next_pc;
          next_pc = s.next_pc + 4;
        })
  unfolding handle_rd
  handle_rd_lem reg val s small next =
      bind_done (ensure (ltb reg 32)) _ (ap ensure (ltb_of_lt reg 32 small)) ∙ set (reg != 0)
    where
      set :
          (b : Bool)
          → advance platform (if b && true then set_register reg val s else s)
            ≡ done (record s {
              registers = if b then update s.registers reg val else s.registers;
              pc = s.next_pc;
              next_pc = s.next_pc + 4;
            })
      set true = advance_lem (set_register reg val s) next
      set false = advance_lem s next

  -- The state after the write-back.
  abbrev pub after_rd : ℕ → ℕ → State → State
  after_rd reg val s = record s {
    registers = written reg val s.registers;
    pc = s.next_pc;
    next_pc = s.next_pc + 4;
  }

  -- An instruction between whose operands and write-back there is only arithmetic that succeeds,
  -- and a store that does.
  pub written_back :
      (fuel insn val : ℕ) (row : ExecutionRow) (o : Step.Operands) {access : Option MemoryAccess}
      (is is' : InstrumentedState)
      → (insn / 2 ^ 26 == 0 && (leb 8 (bit_and insn 0x3f) && ltb (bit_and insn 0x3f) 0x1c)) ≡ false
      → (insn / 2 ^ 26 == 0x38) ≡ false
      → execute platform insn o.rs o.rt o.mem ≡ done val
      → Step.store_value platform val o is ≡ done (access, is')
      → o.rd_reg < 32
      → is'.state.next_pc + 4 < 2 ^ 32
      → Step.alu_step platform fuel insn row o is
        ≡ done (record {
          row = some (Step.row_registers (after_rd o.rd_reg val is'.state) row);
          access = access;
          is = Step.with_state (after_rd o.rd_reg val is'.state) is';
        })
  unfolding Step.alu_step Step.write_back
  written_back fuel insn val row o is is' plain cond run store small next =
      rw (run, plain, cond, store, handle_rd_lem o.rd_reg val is'.state small next) refl

  pub not_stored :
      (val : ℕ) (o : Step.Operands) (is : InstrumentedState)
      → o.store_addr ≡ max_u32
      → Step.store_value platform val o is ≡ done (o.access, is)
  unfolding Step.store_value
  not_stored val o is off = rw off refl
