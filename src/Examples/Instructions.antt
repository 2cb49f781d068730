-- ===== src/Examples/Instructions.antt =====
-- The theorems on whole instructions at concrete ones.
use mips_emulator.Prelude.{ℕ, ◌^◌, ◌<◌, ◌≡◌, refl, arith, sym, ap, done, inr, some, none}
use mips_emulator.Prelude.{update}
use mathlib.Core.Path.{subst}
use mips_emulator.Examples.{platform, addiu, value_or}
use mips_emulator.Alu
use mips_emulator.Memory
use mips_emulator.Memory.{Memory, set_memory}
use mips_emulator.Memory.View.{view, view_word}
use mips_emulator.Memory.Writes.{word_written}
use mips_emulator.Memory.Valid.{set_memory-IsValid, new-IsValid, view_word-written_self}
use mips_emulator.Memory.Sound.{IsSound, set_memory-IsSound}
use mips_emulator.State
use mips_emulator.State.{State, InstrumentedState, instrumented}
use mips_emulator.State.Sane.{new-IsSane}
use mips_emulator.Witness.{MemoryOperation}
use mips_emulator.Step
use mips_emulator.Step.Instruction.{IsAt, written}
use mips_emulator.Step.Instruction.Transfers.{load_lem, store_lem}
use mips_emulator.Step.Instruction.Arithmetic.{register_arithmetic_lem, immediate_arithmetic_lem}
use mips_emulator.Step.Instruction.Branches.{branch_lem, jump_lem}

-- A new machine with an instruction at address 0, and 7 in register 3.
abbrev holding : ℕ → Memory
holding insn = value_or Memory.new (set_memory 0 insn Memory.new)

abbrev machine : ℕ → InstrumentedState
machine insn =
    instrumented (record State.new { memory = holding insn; registers = update (λ _. 0) 3 7 })

new-IsSound : IsSound platform Memory.new
unfolding State.new
new-IsSound = (new-IsSane platform).memory

machine-IsAt : (insn : ℕ) → insn < 2 ^ 32 → IsAt platform insn (machine insn).state
unfolding instrumented State.new
machine-IsAt insn small =
    let (m, run, bytes, ok) =
      set_memory-IsValid platform 0 insn {m = Memory.new} (omega arith) refl
        (new-IsValid platform) in
    let is : holding insn ≡ m = ap (value_or Memory.new) run in
    let sound = set_memory-IsSound platform 0 insn {m = Memory.new} (omega arith) new-IsSound run in
    record {
      running = refl;
      step = omega arith;
      aligned = refl;
      memory = subst (λ x. IsSound platform x) (sym is) sound;
      fetched =
          subst (λ x. view_word x 0 ≡ insn) (sym is)
            (view_word-written_self 0 insn Memory.new m small bytes);
      next = omega arith;
    }

-- The machine after an instruction that neither jumps nor stores.
abbrev moved_on : ℕ → Memory → (ℕ → ℕ) → State
moved_on insn memory registers = record ((machine insn).state) {
  memory = memory;
  registers = registers;
  pc = 4;
  next_pc = 8;
  step = 1;
}

-- lw $v0, 4($zero)
abbrev lw : ℕ
lw = 0x8c02_0004

load_example :
    (r : Step.StepResult) × (Step.mips_step platform 0 (machine lw) ≡ done r)
    × (r.is.state
        ≡ moved_on lw r.is.state.memory
            (written 2 (view_word (holding lw) 4) (machine lw).state.registers))
    × ((b : ℕ) → view r.is.state.memory b ≡ view (holding lw) b)
    × IsSound platform r.is.state.memory
    × (r.access
        ≡ some (record {
          rw_counter = 1;
          addr = 4;
          op = MemoryOperation.read;
          value = view_word (holding lw) 4;
          value_prev = view_word (holding lw) 4;
        }))
unfolding instrumented State.new Alu.execute_load
load_example =
    load_lem platform 0 lw (view_word (holding lw) 4) (machine lw) (machine-IsAt lw (omega arith))
      (omega arith) (omega arith) refl refl

-- sw $v1, 4($zero)
abbrev sw : ℕ
sw = 0xac03_0004

store_example :
    (r : Step.StepResult) × (Step.mips_step platform 0 (machine sw) ≡ done r)
    × (r.is.state ≡ moved_on sw r.is.state.memory (machine sw).state.registers)
    × ((b : ℕ) → view r.is.state.memory b ≡ word_written 4 7 (view (holding sw)) b)
    × IsSound platform r.is.state.memory
    × (r.access
        ≡ some (record {
          rw_counter = 1;
          addr = 4;
          op = MemoryOperation.write;
          value = 7;
          value_prev = view_word (holding sw) 4;
        }))
unfolding instrumented State.new Alu.execute_store
store_example =
    store_lem platform 0 sw 7 (machine sw) (machine-IsAt sw (omega arith)) (omega arith)
      (omega arith) refl refl

-- addu $v0, $v1, $v1
abbrev addu : ℕ
addu = 0x0063_1021

register_arithmetic_example :
    (r : Step.StepResult) × (Step.mips_step platform 0 (machine addu) ≡ done r)
    × (r.is.state ≡ moved_on addu r.is.state.memory (written 2 14 (machine addu).state.registers))
    × ((b : ℕ) → view r.is.state.memory b ≡ view (holding addu) b)
    × IsSound platform r.is.state.memory
    × (r.access ≡ none)
unfolding instrumented State.new Alu.execute_special Alu.execute_arith
register_arithmetic_example =
    register_arithmetic_lem platform 0 addu 14 (machine addu) (machine-IsAt addu (omega arith)) refl
      (inr (omega arith)) refl

immediate_arithmetic_example :
    (r : Step.StepResult) × (Step.mips_step platform 0 (machine addiu) ≡ done r)
    × (r.is.state ≡ moved_on addiu r.is.state.memory (written 2 5 (machine addiu).state.registers))
    × ((b : ℕ) → view r.is.state.memory b ≡ view (holding addiu) b)
    × IsSound platform r.is.state.memory
    × (r.access ≡ none)
unfolding instrumented State.new
immediate_arithmetic_example =
    immediate_arithmetic_lem platform 0 addiu (machine addiu) (machine-IsAt addiu (omega arith))
      (omega arith) (omega arith)

-- beq $zero, $zero, -1
abbrev beq : ℕ
beq = 0x1000_ffff

branch_example :
    (r : Step.StepResult) × (Step.mips_step platform 0 (machine beq) ≡ done r)
    × (r.is.state
        ≡ record (moved_on beq r.is.state.memory (machine beq).state.registers) { next_pc = 0 })
    × ((b : ℕ) → view r.is.state.memory b ≡ view (holding beq) b)
    × IsSound platform r.is.state.memory
    × (r.access ≡ none)
unfolding instrumented State.new Step.is_branch
branch_example = branch_lem platform 0 beq (machine beq) (machine-IsAt beq (omega arith)) refl

-- jal 16
abbrev jal : ℕ
jal = 0x0c00_0004

jump_example :
    (r : Step.StepResult) × (Step.mips_step platform 0 (machine jal) ≡ done r)
    × (r.is.state
        ≡ record (moved_on jal r.is.state.memory (written 31 8 (machine jal).state.registers)) {
          next_pc = 16;
        })
    × ((b : ℕ) → view r.is.state.memory b ≡ view (holding jal) b)
    × IsSound platform r.is.state.memory
    × (r.access ≡ none)
unfolding instrumented State.new
jump_example =
    jump_lem platform 0 jal (machine jal) (machine-IsAt jal (omega arith)) (inr refl) (omega arith)
