-- ===== src/Step/Reach.antt =====
-- The states that the emulator reaches: mips-emulator/src/state.rs, `step`, called again and again.
use mips_emulator.Prelude.{ℕ, ◌+◌, ◌%◌, ◌^◌, ◌≡◌, refl, arith, Bool, true, false, ap, ◌∙◌}
use mips_emulator.Prelude.{Option, done}
use mips_emulator.Platform.{Platform}
use mips_emulator.Witness.{ExecutionRow, MemoryAccess, StepWitness}
use mips_emulator.State.{State, InstrumentedState}
use mips_emulator.State.Sane.{IsSane}
use mips_emulator.Step
use mips_emulator.Step.Run.{SameBut, SameBut-trans, step-StepLaw}

module _ (platform : Platform) where
  -- From one state to another in a number of steps.
  pub data Reach (is : InstrumentedState) : ℕ → InstrumentedState → Type 0 where
    here : Reach is 0 is
    next :
        {n : ℕ} {is1 is2 : InstrumentedState} {wit : StepWitness} {row : Option ExecutionRow}
        {access : Option MemoryAccess} (fuel : ℕ) (proof : Bool)
        → Reach is n is1
        → Step.step platform fuel proof is1
          ≡ done (wit, record { row = row; access = access; is = is2 })
        → Reach is (n + 1) is2

  -- From a sane state (memory coherent with bytes below 256, every register, counter and number in
  -- the range of its Rust type), every state that calls of `step` which succeed reach is sane, and
  -- register 0 is as it was.
  pub Reach-IsSane :
      (is : InstrumentedState) {n : ℕ} {is' : InstrumentedState}
      → IsSane platform is.state
      → Reach is n is'
      → IsSane platform is'.state × (is'.state.registers 0 ≡ is.state.registers 0)
  Reach-IsSane is ok here = (ok, refl)
  Reach-IsSane is ok (next {is1 = is1} fuel proof run e) =
      let (ok1, zero1) = Reach-IsSane is ok run in
      let law = step-StepLaw platform fuel proof is1 ok1 e in (law.sane, law.zero_register ∙ zero1)

  -- From a sane state that has exited, however many calls of `step` succeed, the state they reach
  -- differs in the memory alone, and there in no byte.
  pub Reach_halted :
      (is : InstrumentedState) {n : ℕ} {is' : InstrumentedState}
      → IsSane platform is.state
      → is.state.exited ≡ true
      → Reach is n is'
      → SameBut platform is.state is'.state
  Reach_halted is ok off here = record {
    memory = is.state.memory;
    same = refl;
    bytes = λ _. refl;
    sound = ok.memory;
  }
  Reach_halted is ok off (next {is1 = is1} fuel proof run e) =
      let (ok1, zero1) = Reach-IsSane is ok run in
      let before = Reach_halted is ok off run in
      SameBut-trans platform before (
        (step-StepLaw platform fuel proof is1 ok1 e).halted
          (ap (λ (x : State). x.exited) before.same ∙ off))

  -- From a sane state, if the machine has not exited after n calls of `step` that succeed, the step
  -- count is n more, modulo 2^64.
  pub Reach_running :
      (is : InstrumentedState) {n : ℕ} {is' : InstrumentedState}
      → IsSane platform is.state
      → Reach is n is'
      → is'.state.exited ≡ false
      → is'.state.step ≡ (is.state.step + n) % 2 ^ 64
  Reach_running is ok here on = omega (arith, ok.step)
  Reach_running is ok (next {n = n} {is1 = is1} fuel proof run e) on =
      let (ok1, zero1) = Reach-IsSane is ok run in
      let (was, pc, count) = (step-StepLaw platform fuel proof is1 ok1 e).running on in
      omega (arith, count, Reach_running is ok run was)
