-- ===== src/Step/Effect.antt =====
-- What one instruction does to the program counter, to register 0 and to the step count.
use mips_emulator.Prelude.{by_test}
use mips_emulator.Prelude.{ℕ, ◌/◌, ◌%◌, ◌^◌, ◌≡◌, refl, arith}
use mips_emulator.Prelude.{Bool, true, false, ◌&&◌, ◌||◌, ◌⊎◌, inl, inr, ◌∙◌, ap, sym}
use mips_emulator.Prelude.{Option, none, some}
use mips_emulator.Prelude.{◌==◌, ltb, leb, if◌then◌else◌, Bool-cases}
use mips_emulator.Prelude.{bit_and}
use mips_emulator.Prelude.{Outcome, done, panic, out_of_fuel, ◌>>=◌, after}
use mips_emulator.Platform.{Platform}
use mips_emulator.Word.{add64}
use mips_emulator.Memory.{Memory, get_memory}
use mips_emulator.Witness.{ExecutionRow, MemoryAccess}
use mips_emulator.State.{State, InstrumentedState}
use mips_emulator.Alu.{execute, sign_extension}
use mips_emulator.Control.{advance, set_register, handle_branch, handle_jump, handle_rd}
use mips_emulator.Control.Advance.{Advances, advance-Advances, handle_branch-Advances}
use mips_emulator.Control.Advance.{handle_jump-Advances, handle_hilo-Advances, handle_rd-Advances}
use mips_emulator.Syscall.{SyscallState, handle_syscall, syscall_result}
use mips_emulator.Syscall.Untouched.{Untouched, syscall_result-Untouched}
use mips_emulator.Step
use mips_emulator.Step.Quiet.{Quiet, sc_done, sc_done-Quiet, store_value-Quiet, maybe_fetch-Quiet}

-- Register 0 and the step count are as before, and the program counter is at the delay slot, or
-- the machine has exited and the counter stays.
pub record Effect (is is' : InstrumentedState) : Type 0 where
  pub zero_register : is'.state.registers 0 ≡ is.state.registers 0
  pub step : is'.state.step ≡ is.state.step
  pub pc :
      ((is'.state.pc ≡ is.state.next_pc) × (is'.state.exited ≡ is.state.exited))
      ⊎ ((is'.state.exited ≡ true) × (is'.state.pc ≡ is.state.pc))

Effect-Quiet : {a b c : InstrumentedState} → Quiet a b → Effect b c → Effect a c
Effect-Quiet {a} {b} {c} q e = record {
  zero_register = e.zero_register ∙ q.zero_register;
  step = e.step ∙ q.step;
  pc = rw (← q.next_pc, ← q.exited, ← q.pc) e.pc;
}

Effect-Advances :
    (is : InstrumentedState) (s : State) → Advances is.state s → Effect is (Step.with_state s is)
Effect-Advances is s a = record {
  zero_register = a.zero_register;
  step = a.step;
  pc = inl (a.pc, a.exited);
}

module _ (platform : Platform) where
  handle_syscall-Effect :
      (fuel : ℕ) (is : InstrumentedState) {is' : InstrumentedState}
      → handle_syscall platform fuel is ≡ done is'
      → Effect is is'
  unfolding handle_syscall
  handle_syscall-Effect fuel is {is'} h = elim (Bool-cases (is.state.registers 2 == 4246)) [
    | inl e ↦ exits (rw e at h)
    | inr e ↦
        after (syscall_result platform fuel (is.state.registers 2) is) _ (rw e at h) λ r run h1.
          after (advance platform _) _ h1 λ s next h2.
            ended r s (syscall_result-Untouched platform fuel _ is run)
              (advance-Advances platform _ next) h2
  ]
    where
      exits :
          done (record is {
            state = record (is.state) { exited = true; exit_code = is.state.registers 4 % 2 ^ 8 };
          })
            ≡ done is'
          → Effect is is'
      exits h = ground arith

      ended :
          (r : SyscallState) (s : State)
          → Untouched is r.is
          → Advances (set_register 7 r.v1 (set_register 2 r.v0 r.is.state)) s
          → done (record (r.is) { state = s }) ≡ done is'
          → Effect is is'
      ended r s u a h = ground (arith, u, a, h, ap (λ (f : ℕ → ℕ). f 0) u.registers)

  -- An instruction that ends in a handler that advances.
  handled :
      (m : Outcome State) (row_of : State → ExecutionRow) (access : Option MemoryAccess)
      (is : InstrumentedState) {r : Step.StepResult}
      → ((s : State) → m ≡ done s → Advances is.state s)
      → some (do
        s ← m
        done (record { row = some (row_of s); access = access; is = Step.with_state s is }))
        ≡ some (done r)
      → Effect is r.is
  handled (done s) row_of access is f h = ground (arith, f s refl)
  handled panic row_of access is f h = cc
  handled out_of_fuel row_of access is f h = cc

  syscalled :
      (m : Outcome InstrumentedState) (row_of : State → ExecutionRow) (access : Option MemoryAccess)
      (is : InstrumentedState) {r : Step.StepResult}
      → ((is' : InstrumentedState) → m ≡ done is' → Effect is is')
      → some
          (do is' ← m; done (record { row = some (row_of is'.state); access = access; is = is' }))
        ≡ some (done r)
      → Effect is r.is
  syscalled (done is') row_of access is f h = let e : is' ≡ _ = cc in rw e at (f is' refl)
  syscalled panic row_of access is f h = cc
  syscalled out_of_fuel row_of access is f h = cc

  on_test :
      {A T : Type 0} (b : Bool) {x y z : T}
      → (b ≡ true → x ≡ z → A)
      → (b ≡ false → y ≡ z → A)
      → (if b then x else y) ≡ z
      → A
  on_test true f g h = f refl h
  on_test false f g h = g refl h

  fell_through :
      {A : Type 0} {x : Outcome Step.StepResult}
      → ◌≡◌ {A = Option (Outcome Step.StepResult)} none (some x)
      → A
  fell_through h = absurd (cc)

  special_control-Effect :
      (fuel fun : ℕ) (row : ExecutionRow) (operands : Step.Operands) (is : InstrumentedState)
      {r : Step.StepResult}
      → Step.special_control platform fuel fun row operands is ≡ some (done r)
      → Effect is r.is
  unfolding Step.special_control
  special_control-Effect fuel fun row operands is {r} h =
      by_test (fun == 8 || fun == 9) h
        (λ e. handled _ _ _ is (λ s. handle_jump-Advances platform _ _ is.state) e)
        λ h1.
          by_test (fun == 0xa) h1
            (λ e. handled _ _ _ is (λ s. handle_rd-Advances platform _ _ _ is.state) e)
            λ h2.
              by_test (fun == 0xb) h2
                (λ e. handled _ _ _ is (λ s. handle_rd-Advances platform _ _ _ is.state) e)
                λ h3.
                  by_test (fun == 0xc) h3
                    (λ e.
                      syscalled (handle_syscall platform fuel is)
                        (λ s. record (Step.row_registers s row) {
                          heap = s.heap;
                          exited = s.exited;
                        })
                        _ is (λ is'. handle_syscall-Effect fuel is) e)
                    λ h4.
                      by_test (leb 0x10 fun && ltb fun 0x1c) h4
                        (λ e.
                          handled _ _ _ is (λ s. handle_hilo-Advances platform _ _ _ _ is.state) e)
                        fell_through

  write_back-Effect :
      (opcode rt_reg val : ℕ) (row : ExecutionRow) (operands : Step.Operands)
      (is : InstrumentedState) {r : Step.StepResult}
      → Step.write_back platform opcode rt_reg val row operands is ≡ done r
      → Effect is r.is
  unfolding Step.write_back set_register
  write_back-Effect opcode rt_reg val row operands is {r} h =
      after (Step.store_value platform val operands (sc_done opcode rt_reg is)) _ h
        λ (access, is2) run h1.
          after (handle_rd platform operands.rd_reg val true is2.state) _ h1 λ s moved h2.
            Effect-Quiet (sc_done-Quiet opcode rt_reg is) (
              Effect-Quiet (store_value-Quiet platform val operands (sc_done opcode rt_reg is) run)
                (ended is2 s (handle_rd-Advances platform _ _ _ is2.state moved) h2))
    where
      ended :
          (is2 : InstrumentedState) (s : State) {access : Option MemoryAccess}
          {row' : Option ExecutionRow}
          → Advances is2.state s
          → ◌≡◌ {A = Outcome Step.StepResult}
              (done (record { row = row'; access = access; is = Step.with_state s is2 }))
              (done r)
          → Effect is2 r.is
      ended is2 s a h = ground (arith, a, h)

  pub control_or_write-Effect :
      (result : Option (Outcome Step.StepResult)) (otherwise : Outcome Step.StepResult)
      (is : InstrumentedState) {r : Step.StepResult}
      → (result ≡ some (done r) → Effect is r.is)
      → (otherwise ≡ done r → Effect is r.is)
      → elim result [ none ↦ otherwise | some x ↦ x ] ≡ done r
      → Effect is r.is
  control_or_write-Effect none otherwise is f g h = g h
  control_or_write-Effect (some x) otherwise is f g h = f (ap some h)

  guarded :
      (b : Bool) (c : Option (Outcome Step.StepResult)) {r : Step.StepResult}
      → (if b then c else none) ≡ some (done r)
      → c ≡ some (done r)
  guarded true c h = h
  guarded false c h = cc

  alu_step-Effect :
      (fuel insn : ℕ) (row : ExecutionRow) (operands : Step.Operands) (is : InstrumentedState)
      {r : Step.StepResult}
      → Step.alu_step platform fuel insn row operands is ≡ done r
      → Effect is r.is
  unfolding Step.alu_step
  alu_step-Effect fuel insn row operands is {r} h =
      after (execute platform insn operands.rs operands.rt operands.mem) _ h λ val run h1.
        control_or_write-Effect
          (if insn / 2 ^ 26 == 0 && (leb 8 (bit_and insn 0x3f) && ltb (bit_and insn 0x3f) 0x1c)
            then Step.special_control platform fuel (bit_and insn 0x3f) row operands is
            else none)
          (Step.write_back platform (insn / 2 ^ 26) (bit_and (insn / 2 ^ 16) 0x1f) val row operands
            is)
          is (λ e. special_control-Effect fuel _ row operands is (guarded _ _ e))
          (λ e. write_back-Effect _ _ val row operands is e) h1

  branch_done :
      (is : InstrumentedState) (s : State) {row : Option ExecutionRow}
      {access : Option MemoryAccess} {r : Step.StepResult}
      → Advances is.state s
      → ◌≡◌ {A = Outcome Step.StepResult}
          (done (record { row = row; access = access; is = Step.with_state s is }))
          (done r)
      → Effect is r.is
  branch_done is s a h = ground (arith, a, h)

  decoded_step-Effect :
      (fuel insn : ℕ) (row : ExecutionRow) (is : InstrumentedState) {r : Step.StepResult}
      → Step.decoded_step platform fuel insn row is ≡ done r
      → Effect is r.is
  unfolding Step.decoded_step
  decoded_step-Effect fuel insn row is {r} h =
      after (Step.fetch_rt platform _ insn _ is.state) _ h λ rt run h1.
        elim (Bool-cases (Step.is_branch (insn / 2 ^ 26))) [
          | inl e ↦ after (handle_branch platform _ insn _ _ is.state) _ (rw e at h1) λ s moved h2.
              branch_done is s (handle_branch-Advances platform _ _ _ _ is.state moved) h2
          | inr e ↦
              after (if leb 0x20 (insn / 2 ^ 26) then _ else _) _ (rw e at h1)
                λ (operands', is1) fetched h2.
                  Effect-Quiet (maybe_fetch-Quiet platform _ _ insn _ is fetched)
                    (alu_step-Effect fuel insn row operands' is1 h2)
        ]

  fetched_step-Effect :
      (fuel insn : ℕ) (is : InstrumentedState) {r : Step.StepResult}
      → Step.fetched_step platform fuel insn is ≡ done r
      → Effect is r.is
  unfolding Step.fetched_step
  fetched_step-Effect fuel insn is {r} h =
      elim (Bool-cases (insn / 2 ^ 26 == 2 || insn / 2 ^ 26 == 3)) [
        | inl e ↦ after (sign_extension platform _ 26) _ (rw e at h) λ dest extended h1.
            after (handle_jump platform _ _ is.state) _ h1
              λ s moved h2. branch_done is s (handle_jump-Advances platform _ _ is.state moved) h2
        | inr e ↦ decoded_step-Effect fuel insn _ is (rw e at h)
      ]

  -- What a step does to a machine that has not exited: register 0 stays, the step count grows by
  -- one, and the program counter is at the delay slot or stays with the machine exited.
  pub record StepEffect (is is' : InstrumentedState) : Type 0 where
    pub zero_register : is'.state.registers 0 ≡ is.state.registers 0
    pub step : add64 platform is.state.step 1 ≡ done (is'.state.step)
    pub pc :
        ((is'.state.pc ≡ is.state.next_pc) × (is'.state.exited ≡ false))
        ⊎ ((is'.state.exited ≡ true) × (is'.state.pc ≡ is.state.pc))

  -- A step that succeeds changes nothing and has no row where the machine has exited. Otherwise it
  -- leaves register 0 as it is and counts one step more, and either the program counter moves to
  -- the delay slot and the machine goes on, or the machine exits and the counter stays.
  pub mips_step-Effect :
      (fuel : ℕ) (is : InstrumentedState) {r : Step.StepResult}
      → Step.mips_step platform fuel is ≡ done r
      → ((is.state.exited ≡ true) × (r.is ≡ is) × (r.row ≡ none))
        ⊎ ((is.state.exited ≡ false) × StepEffect is r.is)
  unfolding Step.mips_step
  mips_step-Effect fuel is {r} h =
      on_test is.state.exited stopped
        (λ e h0. after (add64 platform is.state.step 1) _ h0 λ count counted h1.
          after (get_memory is.state.pc is.state.memory) _ h1 λ (insn, memory) got h2.
            inr (e, ran e count memory counted (fetched_step-Effect fuel insn _ h2)))
        h
    where
      stopped :
          is.state.exited ≡ true
          → ◌≡◌ {A = Outcome Step.StepResult}
              (done (record { row = none; access = none; is = is }))
              (done r)
          → ((is.state.exited ≡ true) × (r.is ≡ is) × (r.row ≡ none))
            ⊎ ((is.state.exited ≡ false) × StepEffect is r.is)
      stopped e h = inl (e, cc, cc)

      ended :
          is.state.exited ≡ false
          → ((r.is.state.pc ≡ is.state.next_pc) × (r.is.state.exited ≡ is.state.exited))
            ⊎ ((r.is.state.exited ≡ true) × (r.is.state.pc ≡ is.state.pc))
          → ((r.is.state.pc ≡ is.state.next_pc) × (r.is.state.exited ≡ false))
            ⊎ ((r.is.state.exited ≡ true) × (r.is.state.pc ≡ is.state.pc))
      ended e (inl (p, q)) = inl (p, q ∙ e)
      ended e (inr p) = inr p

      ran :
          is.state.exited ≡ false
          → (count : ℕ) (memory : Memory) → add64 platform is.state.step 1 ≡ done count
          → Effect (Step.with_state (record (is.state) { step = count; memory = memory }) is) r.is
          → StepEffect is r.is
      ran e count memory counted f = record {
        zero_register = f.zero_register;
        step = counted ∙ ap done (sym f.step);
        pc = ended e f.pc;
      }
