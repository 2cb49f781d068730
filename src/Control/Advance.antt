-- ===== src/Control/Advance.antt =====
-- What every handler that ends an instruction does to the program counter and to register 0.
use mips_emulator.Prelude.{ℕ, ◌≡◌, arith}
use mips_emulator.Prelude.{Bool}
use mips_emulator.Prelude.{done, >>=-eq-done}
use mips_emulator.Platform.{Platform}
use mips_emulator.State.{State}
use mips_emulator.Control.{advance, handle_branch, handle_jump, handle_hilo, handle_rd, hilo}

-- The delay slot comes next, register 0 is as before, and no other part of the state changes that
-- an instruction's end has no business with.
pub record Advances (s s' : State) : Type 0 where
  pub pc : s'.pc ≡ s.next_pc
  pub zero_register : s'.registers 0 ≡ s.registers 0
  pub step : s'.step ≡ s.step
  pub exited : s'.exited ≡ s.exited
  pub memory : s'.memory ≡ s.memory

module _ (platform : Platform) where
  pub advance-Advances : (s : State) {s' : State} → advance platform s ≡ done s' → Advances s s'
  unfolding advance
  advance-Advances s h = ground arith

  pub handle_jump-Advances :
      (link_reg dest : ℕ) (s : State) {s' : State}
      → handle_jump platform link_reg dest s ≡ done s'
      → Advances s s'
  unfolding handle_jump
  handle_jump-Advances link_reg dest s h = ground arith

  pub handle_branch-Advances :
      (opcode insn rt_reg rs : ℕ) (s : State) {s' : State}
      → handle_branch platform opcode insn rt_reg rs s ≡ done s'
      → Advances s s'
  unfolding handle_branch advance
  handle_branch-Advances opcode insn rt_reg rs s h = ground arith

  pub handle_rd-Advances :
      (store_reg val : ℕ) (conditional : Bool) (s : State) {s' : State}
      → handle_rd platform store_reg val conditional s ≡ done s'
      → Advances s s'
  unfolding handle_rd advance
  handle_rd-Advances store_reg val conditional s h = ground arith

  hilo-state :
      (fun rs rt : ℕ) (s : State) {val : ℕ} {s' : State}
      → hilo platform fun rs rt s ≡ done (val, s')
      → (s'.next_pc ≡ s.next_pc)
        × (s'.registers ≡ s.registers)
        × (s'.step ≡ s.step)
        × (s'.exited ≡ s.exited)
        × (s'.memory ≡ s.memory)
  unfolding hilo
  hilo-state fun rs rt s h = ground arith

  pub handle_hilo-Advances :
      (fun rs rt store_reg : ℕ) (s : State) {s' : State}
      → handle_hilo platform fun rs rt store_reg s ≡ done s'
      → Advances s s'
  unfolding handle_hilo advance
  handle_hilo-Advances fun rs rt store_reg s h =
      let ((val, s1), run, rest) = >>=-eq-done (hilo platform fun rs rt s) _ h in
      ground (arith, hilo-state fun rs rt s run, rest)
