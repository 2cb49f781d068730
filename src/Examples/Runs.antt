-- ===== src/Examples/Runs.antt =====
-- The theorems on runs at concrete inputs.
use mips_emulator.Prelude.{◌≡◌, refl, arith, sym, ap, true, false, done}
use mathlib.Core.Path.{subst}
use mips_emulator.Prelude.HashMap
use mips_emulator.Examples.{platform, addiu, value_or, program, at_start, stepped}
use mips_emulator.Word
use mips_emulator.Control
use mips_emulator.Alu
use mips_emulator.Alu.{execute, sign_extension}
use mips_emulator.Page
use mips_emulator.Memory
use mips_emulator.Memory.{Memory, get_memory, set_memory}
use mips_emulator.Memory.Valid.{set_memory-IsValid, new-IsValid}
use mips_emulator.Memory.Sound.{IsSound, set_memory-IsSound}
use mips_emulator.State
use mips_emulator.State.{State, InstrumentedState, instrumented}
use mips_emulator.State.Sane.{IsSane, new-IsSane, with_memory-IsSane}
use mips_emulator.Witness.{StepWitness}
use mips_emulator.Step
use mips_emulator.Step.Run.{SameBut, pre_witness_succeeds}
use mips_emulator.Step.Reach.{Reach, here, next, Reach-IsSane, Reach_halted}

empty-IsSound : IsSound platform Memory.new
unfolding State.new
empty-IsSound = (new-IsSane platform).memory

pub program-IsSound : IsSound platform program
program-IsSound =
    let (m, run, bytes, ok) =
      set_memory-IsValid platform 0 addiu {m = Memory.new} (omega arith) refl
        (new-IsValid platform) in
    subst (λ x. IsSound platform x) (sym (ap (value_or Memory.new) run))
      (set_memory-IsSound platform 0 addiu {m = Memory.new} (omega arith) empty-IsSound run)

at_start-IsSane : IsSane platform at_start.state
unfolding instrumented
at_start-IsSane = with_memory-IsSane platform program program-IsSound (new-IsSane platform)

-- A machine that has exited, and the states that two calls of `step` reach from it.
abbrev exited_state : InstrumentedState
exited_state = instrumented (record State.new { memory = program; exited = true })

exited-IsSane : IsSane platform exited_state.state
unfolding instrumented
exited-IsSane =
    let n = new-IsSane platform in
    record {
      memory = program-IsSound;
      register = n.register;
      pc = n.pc;
      next_pc = n.next_pc;
      hi = n.hi;
      lo = n.lo;
      heap = n.heap;
      step = n.step;
      preimage_offset = n.preimage_offset;
      exit_code = n.exit_code;
    }

abbrev still_exited : InstrumentedState
still_exited = record exited_state {
  mem_proof_enabled = false;
  last_mem_access = Word.max_u32;
  last_preimage_offset = Word.max_u32;
}

idle_steps : Reach platform exited_state 2 still_exited
unfolding instrumented Step.step Step.pre_witness Step.post_witness Step.mips_step
idle_steps = next 0 false (next 0 false here refl) refl

Reach_halted_example : SameBut platform exited_state.state still_exited.state
unfolding instrumented
Reach_halted_example = Reach_halted platform exited_state exited-IsSane refl idle_steps

-- The state after the program's first step.
abbrev after_first : InstrumentedState
after_first = record stepped.is { mem_proof_enabled = false; last_preimage_offset = Word.max_u32 }

first_step : Reach platform at_start 1 after_first
unfolding State.new instrumented Memory.new Page.new get_memory set_memory Memory.page_lookup
    Memory.page_for_write Memory.alloc_page Memory.invalidate Memory.invalidate_at
    Memory.invalidate_above Memory.invalidate_nodes Memory.write_word Memory.read_word HashMap.get
    HashMap.insert Page.invalidate Page.clear_path Word.add32 Word.add64 Word.from_be_bytes
    Word.to_be_bytes Word.shl32 Word.shr32 Word.sub32 Step.mips_step Step.fetched_step
    Step.fetched_row Step.decoded_step Step.is_branch Step.fetch_rt Step.alu_step Step.write_back
    Step.store_value Control.handle_rd Control.advance Alu.execute Alu.execute_low
    Alu.execute_special Alu.execute_arith Alu.arith_fun sign_extension Step.step Step.pre_witness
    Step.post_witness
first_step = next 0 false here refl

Reach-IsSane_example :
    IsSane platform after_first.state × (after_first.state.registers 0 ≡ at_start.state.registers 0)
Reach-IsSane_example = Reach-IsSane platform at_start at_start-IsSane first_step

pre_witness_example :
    (wit : StepWitness) × (s : State) × (Step.pre_witness platform true at_start
      ≡ done (wit, Step.with_state s at_start))
    × SameBut platform at_start.state s
pre_witness_example = pre_witness_succeeds platform true at_start at_start-IsSane
