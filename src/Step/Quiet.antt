-- ===== src/Step/Quiet.antt =====
-- What an instruction changes before it ends: nothing that its end looks at.
use mips_emulator.Prelude.{ℕ, ◌≡◌, arith}
use mips_emulator.Prelude.{Bool, true, false, ◌&&◌, inl, inr, ◌∙◌, ap}
use mips_emulator.Prelude.{Option}
use mips_emulator.Prelude.{◌==◌, ◌!=◌, if◌then◌else◌, Bool-cases}
use mips_emulator.Prelude.{Outcome, done, after}
use mips_emulator.Platform.{Platform}
use mips_emulator.Memory.{get_memory, set_memory}
use mips_emulator.Witness.{MemoryAccess}
use mips_emulator.State.{InstrumentedState}
use mips_emulator.Alu.{sign_extension}
use mips_emulator.Control.{set_register}
use mips_emulator.Syscall.{track_memory_access}
use mips_emulator.Syscall.{set_memory_of}
use mips_emulator.Syscall.Untouched.{Untouched, track-Untouched, set_memory_of-Untouched}
use mips_emulator.Step

-- Nothing that an instruction's end looks at has changed.
pub record Quiet (is is' : InstrumentedState) : Type 0 where
  pub pc : is'.state.pc ≡ is.state.pc
  pub next_pc : is'.state.next_pc ≡ is.state.next_pc
  pub zero_register : is'.state.registers 0 ≡ is.state.registers 0
  pub step : is'.state.step ≡ is.state.step
  pub exited : is'.state.exited ≡ is.state.exited

pub Quiet-of_Untouched : {is is' : InstrumentedState} → Untouched is is' → Quiet is is'
Quiet-of_Untouched u = record {
  pc = u.pc;
  next_pc = u.next_pc;
  zero_register = ap (λ (f : ℕ → ℕ). f 0) u.registers;
  step = u.step;
  exited = u.exited;
}

pub Quiet-trans : {a b c : InstrumentedState} → Quiet a b → Quiet b c → Quiet a c
Quiet-trans f g = record {
  pc = g.pc ∙ f.pc;
  next_pc = g.next_pc ∙ f.next_pc;
  zero_register = g.zero_register ∙ f.zero_register;
  step = g.step ∙ f.step;
  exited = g.exited ∙ f.exited;
}

-- The sc hack.
abbrev pub sc_done : ℕ → ℕ → InstrumentedState → InstrumentedState
sc_done opcode rt_reg is =
    if opcode == 0x38 && rt_reg != 0
    then Step.with_state (set_register rt_reg 1 is.state) is
    else is

pub sc_done-Quiet :
    (opcode rt_reg : ℕ) (is : InstrumentedState) → Quiet is (sc_done opcode rt_reg is)
unfolding set_register
sc_done-Quiet opcode rt_reg is = ground arith

module _ (platform : Platform) where
  fetch_memory-Quiet :
      (opcode insn : ℕ) (operands : Step.Operands) (is : InstrumentedState)
      {operands' : Step.Operands} {is' : InstrumentedState}
      → Step.fetch_memory platform opcode insn operands is ≡ done (operands', is')
      → Quiet is is'
  unfolding Step.fetch_memory
  fetch_memory-Quiet opcode insn operands is h =
      after (sign_extension platform _ 16) _ h λ offset extended h1.
        after (track_memory_access platform _ is) _ h1 λ is1 track h2.
          after (get_memory _ is1.state.memory) _ h2 λ (mem, memory) got h3.
            Quiet-trans (Quiet-of_Untouched (track-Untouched platform _ is track)) (ground arith)

  pub store_value-Quiet :
      (val : ℕ) (operands : Step.Operands) (is : InstrumentedState) {access : Option MemoryAccess}
      {is' : InstrumentedState}
      → Step.store_value platform val operands is ≡ done (access, is')
      → Quiet is is'
  unfolding Step.store_value
  store_value-Quiet val operands is {access} {is'} h =
      elim (Bool-cases (operands.store_addr != 0xffff_ffff)) [
        | inl e ↦
            after (get_memory operands.store_addr is.state.memory) _ (rw e at h)
              λ (value_prev, memory) got h1.
                after (track_memory_access platform operands.store_addr (set_memory_of memory is)) _
                  h1
                  λ is1 track h2.
                    after (set_memory operands.store_addr val is1.state.memory) _ h2
                      λ memory' set h3.
                        Quiet-trans
                          (Quiet-of_Untouched (set_memory_of-Untouched platform memory is))
                          (Quiet-trans
                            (Quiet-of_Untouched
                              (track-Untouched platform _ (set_memory_of memory is) track))
                            (ground arith))
        | inr e ↦ unchanged (rw e at h)
      ]
    where
      unchanged :
          ◌≡◌ {A = Outcome (Option MemoryAccess × InstrumentedState)}
            (done (operands.access, is))
            (done (access, is'))
          → Quiet is is'
      unchanged h = ground arith

  done_pair :
      {A : Type 0} {x y : A} {is is' : InstrumentedState}
      → ◌≡◌ {A = Outcome (A × InstrumentedState)} (done (x, is)) (done (y, is'))
      → is' ≡ is
  done_pair h = cc

  -- Whether the fetch is made or not.
  pub maybe_fetch-Quiet :
      (b : Bool) (opcode insn : ℕ) (operands : Step.Operands) (is : InstrumentedState)
      {operands' : Step.Operands} {is' : InstrumentedState}
      → (if b then Step.fetch_memory platform opcode insn operands is else done (operands, is))
        ≡ done (operands', is')
      → Quiet is is'
  maybe_fetch-Quiet true opcode insn operands is h = fetch_memory-Quiet opcode insn operands is h
  maybe_fetch-Quiet false opcode insn operands is h = ground (arith, done_pair h)
