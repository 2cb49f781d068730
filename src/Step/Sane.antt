-- ===== src/Step/Sane.antt =====
-- One instruction keeps the state sane: mips-emulator/src/state.rs, `mips_step`.
pub mod Operands
use mips_emulator.Step.Sane.Operands.{
  SmallOperands, Sane, fetch_rt-lt, ended, fetched, fetch_memory-Sane, write_back-Sane,
}
use mips_emulator.Prelude.{ℕ, ◌/◌, ◌^◌, ◌<◌, ◌≡◌, refl, arith}
use mips_emulator.Prelude.{Bool, true, false, ◌&&◌, ◌||◌, ap}
use mips_emulator.Prelude.{Option, none, some}
use mips_emulator.Prelude.{◌==◌, ◌!=◌, ltb, leb, if◌then◌else◌}
use mips_emulator.Prelude.{bit_and}
use mips_emulator.Prelude.{Outcome, ◌>>=◌, done, panic, out_of_fuel, after, by_test}
use mips_emulator.Platform.{Platform}
use mips_emulator.Word.{add64, shl, max_u32}
use mips_emulator.Word.Laws.{add64-lt}
use mips_emulator.Memory.{get_memory}
use mips_emulator.Memory.Sound.{get_memory-IsSound}
use mips_emulator.Witness.{ExecutionRow, MemoryAccess}
use mips_emulator.State.{State, InstrumentedState}
use mips_emulator.State.Sane.{IsSane, with_rest-IsSane}
use mips_emulator.Alu.{execute, sign_extension}
use mips_emulator.Alu.Bounds.{execute-lt}
use mips_emulator.Control.{handle_branch, handle_jump, handle_rd, handle_hilo}
use mips_emulator.Control.Sane.{handle_rd-IsSane, handle_jump-IsSane}
use mips_emulator.Control.Sane.{handle_branch-IsSane, handle_hilo-IsSane}
use mips_emulator.Syscall.{handle_syscall}
use mips_emulator.Syscall.Sane.{handle_syscall-Sane}
use mips_emulator.Step

module _ (platform : Platform) where
  abbrev Kept : InstrumentedState → Type 0
  Kept = Sane platform

  -- An instruction that ends in a handler of the state.
  handled :
      (m : Outcome State) (row_of : State → ExecutionRow) (access : Option MemoryAccess)
      (is : InstrumentedState) {r : Step.StepResult}
      → ((s : State) → m ≡ done s → IsSane platform s)
      → some (do
        s ← m
        done (record { row = some (row_of s); access = access; is = Step.with_state s is }))
        ≡ some (done r)
      → Kept r.is
  handled (done s) row_of access is {r} f h =
      ended platform (record { row = some (row_of s); access = access; is = Step.with_state s is })
        {r = r} (f _ refl) cc
  handled panic row_of access is f h = cc
  handled out_of_fuel row_of access is f h = cc

  syscalled :
      (m : Outcome InstrumentedState) (row_of : State → ExecutionRow) (access : Option MemoryAccess)
      {r : Step.StepResult}
      → ((is' : InstrumentedState) → m ≡ done is' → Kept is')
      → some
          (do is' ← m; done (record { row = some (row_of is'.state); access = access; is = is' }))
        ≡ some (done r)
      → Kept r.is
  syscalled (done is') row_of access {r} f h =
      ended platform (record { row = some (row_of is'.state); access = access; is = is' }) {r = r}
        (f _ refl) cc
  syscalled panic row_of access f h = cc
  syscalled out_of_fuel row_of access f h = cc

  fell_through :
      {A : Type 0} {x : Outcome Step.StepResult}
      → ◌≡◌ {A = Option (Outcome Step.StepResult)} none (some x)
      → A
  fell_through h = absurd (cc)

  special_control-Sane :
      (fuel fun : ℕ) (row : ExecutionRow) (operands : Step.Operands) (is : InstrumentedState)
      {r : Step.StepResult}
      → SmallOperands operands
      → Kept is
      → Step.special_control platform fuel fun row operands is ≡ some (done r)
      → Kept r.is
  unfolding Step.special_control
  special_control-Sane fuel fun row o is small ok h =
      by_test (fun == 8 || fun == 9) h
        (handled (handle_jump platform (if fun == 9 then o.rd_reg else 0) o.rs is.state) _ o.access
          is (λ s. handle_jump-IsSane platform (if fun == 9 then o.rd_reg else 0) o.rs small.rs ok))
        λ h1.
          by_test (fun == 0xa) h1
            (handled (handle_rd platform o.rd_reg o.rs (o.rt == 0) is.state) _ o.access is
              (λ s. handle_rd-IsSane platform o.rd_reg o.rs (o.rt == 0) small.rs ok))
            λ h2.
              by_test (fun == 0xb) h2
                (handled (handle_rd platform o.rd_reg o.rs (o.rt != 0) is.state) _ o.access is
                  (λ s. handle_rd-IsSane platform o.rd_reg o.rs (o.rt != 0) small.rs ok))
                λ h3.
                  by_test (fun == 0xc) h3
                    (syscalled (handle_syscall platform fuel is)
                      (λ s. record (Step.row_registers s row) { heap = s.heap; exited = s.exited })
                      o.access (λ is'. handle_syscall-Sane platform fuel is ok))
                    λ h4.
                      by_test (leb 0x10 fun && ltb fun 0x1c) h4
                        (handled (handle_hilo platform fun o.rs o.rt o.rd_reg is.state) _ o.access
                          is
                          (λ s.
                            handle_hilo-IsSane platform fun o.rs o.rt o.rd_reg small.rs small.rt
                              ok))
                        fell_through

  control_or_write-Sane :
      (b : Bool) (control : Option (Outcome Step.StepResult)) (otherwise : Outcome Step.StepResult)
      {r : Step.StepResult}
      → (control ≡ some (done r) → Kept r.is)
      → (otherwise ≡ done r → Kept r.is)
      → elim (if b then control else none) [ none ↦ otherwise | some x ↦ x ] ≡ done r
      → Kept r.is
  control_or_write-Sane false control otherwise f g h = g h
  control_or_write-Sane true none otherwise f g h = g h
  control_or_write-Sane true (some x) otherwise f g h = f (ap some h)

  alu_step-Sane :
      (fuel insn : ℕ) (row : ExecutionRow) (o : Step.Operands) (is : InstrumentedState)
      {r : Step.StepResult}
      → SmallOperands o
      → Kept is
      → Step.alu_step platform fuel insn row o is ≡ done r
      → Kept r.is
  unfolding Step.alu_step
  alu_step-Sane fuel insn row o is small ok h =
      let fun = bit_and insn 0x3f in
      after (execute platform insn o.rs o.rt o.mem) _ h λ val run h1.
        let word = execute-lt platform insn o.rs o.rt o.mem small.rs small.rt small.mem run in
        control_or_write-Sane (insn / 2 ^ 26 == 0 && (leb 8 fun && ltb fun 0x1c))
          (Step.special_control platform fuel fun row o is)
          (Step.write_back platform (insn / 2 ^ 26) (bit_and (insn / 2 ^ 16) 0x1f) val row o is)
          (special_control-Sane fuel fun row o is small ok)
          (write_back-Sane platform (insn / 2 ^ 26) (bit_and (insn / 2 ^ 16) 0x1f) val row o is word
            small ok)
          h1

  decoded_step-Sane :
      (fuel insn : ℕ) (row : ExecutionRow) (is : InstrumentedState) {r : Step.StepResult}
      → insn < 2 ^ 32
      → Kept is
      → Step.decoded_step platform fuel insn row is ≡ done r
      → Kept r.is
  unfolding Step.decoded_step
  decoded_step-Sane fuel insn row is small ok h =
      let opcode = insn / 2 ^ 26 in
      let rt_reg = bit_and (insn / 2 ^ 16) 0x1f in
      let rs_reg = bit_and (insn / 2 ^ 21) 0x1f in
      after (Step.fetch_rt platform opcode insn rt_reg is.state) _ h λ rt r0 h1.
        let rt_small = fetch_rt-lt platform opcode insn rt_reg small ok r0 in
        by_test (Step.is_branch opcode) h1
          (λ h2.
            after (handle_branch platform opcode insn rt_reg (is.state.registers rs_reg) is.state) _
              h2
              λ s moved h3.
                ended platform _
                  (handle_branch-IsSane platform opcode insn rt_reg (is.state.registers rs_reg) ok
                    moved)
                  h3)
          λ h2.
            let o : Step.Operands = record {
              rs = is.state.registers rs_reg;
              rt = rt;
              rd_reg =
                  if opcode == 0 || opcode == 0x1c then bit_and (insn / 2 ^ 11) 0x1f else rt_reg;
              mem = 0;
              store_addr = max_u32;
              access = none;
            } in
            let o_small : SmallOperands o = record {
              rs = ok.register rs_reg;
              rt = rt_small;
              mem = omega arith;
              store_addr = omega arith;
            } in
            after
              (if leb 0x20 opcode
                then Step.fetch_memory platform opcode insn o is
                else done (o, is))
              _ h2
              λ (o1, is1) run h3.
                let (o1_small, ok1) =
                  by_test (leb 0x20 opcode) run
                    (fetch_memory-Sane platform opcode insn o is small o_small ok)
                    (fetched platform (o, is) (o_small, ok)) in
                alu_step-Sane fuel insn row o1 is1 o1_small ok1 h3

  fetched_step-Sane :
      (fuel insn : ℕ) (is : InstrumentedState) {r : Step.StepResult}
      → insn < 2 ^ 32
      → Kept is
      → Step.fetched_step platform fuel insn is ≡ done r
      → Kept r.is
  unfolding Step.fetched_step shl
  fetched_step-Sane fuel insn is small ok h =
      let opcode = insn / 2 ^ 26 in
      by_test (opcode == 2 || opcode == 3) h
        (λ h1.
          after (sign_extension platform (bit_and insn 0x03ff_ffff) 26) _ h1 λ dest extended h2.
            let link = if opcode == 3 then 31 else 0 in
            after (handle_jump platform link (shl dest 2) is.state) _ h2 λ s moved h3.
              ended platform _
                (handle_jump-IsSane platform link (shl dest 2) (shl-lt dest) ok moved) h3)
        (decoded_step-Sane fuel insn (Step.fetched_row insn is.state) is small ok)
    where
      shl-lt : (x : ℕ) → shl x 2 < 2 ^ 32
      shl-lt x = omega arith

  -- A step that succeeds.
  pub mips_step-IsSane :
      (fuel : ℕ) (is : InstrumentedState) {r : Step.StepResult}
      → IsSane platform is.state
      → Step.mips_step platform fuel is ≡ done r
      → IsSane platform r.is.state
  unfolding Step.mips_step
  mips_step-IsSane fuel is {r} ok h =
      by_test is.state.exited h (ended platform (record { row = none; access = none; is = is }) ok)
        λ h0. after (add64 platform is.state.step 1) _ h0 λ count counted h1.
          after (get_memory is.state.pc is.state.memory) _ h1 λ (insn, memory) got h2.
            let (sound, word, same, views) =
              get_memory-IsSound platform is.state.pc ok.memory got in
            let s = is.state in
            fetched_step-Sane fuel insn _ word
              (with_rest-IsSane platform memory s.preimage_key s.preimage_offset s.heap count
                s.exited s.exit_code s.last_hint sound ok.preimage_offset ok.heap
                (add64-lt platform s.step 1 counted) ok.exit_code ok)
              h2
