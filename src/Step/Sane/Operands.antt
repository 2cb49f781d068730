-- ===== src/Step/Sane/Operands.antt =====
-- The operands, the fetch from memory and the write-back: mips-emulator/src/state.rs, `mips_step`.
use mips_emulator.Prelude.{ℕ, ◌+◌, ◌%◌, ◌^◌, ◌<◌, ◌≡◌, arith}
use mips_emulator.Prelude.{Bool, true, false, ◌&&◌}
use mips_emulator.Prelude.{Option}
use mips_emulator.Prelude.{◌==◌, ◌!=◌, leb, if◌then◌else◌}
use mips_emulator.Prelude.{bit_and}
use mips_emulator.Prelude.{Outcome, done, after, by_test}
use mips_emulator.Prelude.Bits.{bit_and-le}
use mips_emulator.Platform.{Platform}
use mips_emulator.Word.{max_u32}
use mips_emulator.Memory.{get_memory, set_memory}
use mips_emulator.Memory.Sound.{get_memory-IsSound, set_memory-IsSound}
use mips_emulator.Witness.{ExecutionRow, MemoryAccess}
use mips_emulator.State.{State, InstrumentedState}
use mips_emulator.State.Sane.{IsSane, with_memory-IsSane}
use mips_emulator.Alu.{sign_extension}
use mips_emulator.Alu.Bounds.{sign_extension-lt}
use mips_emulator.Control.{set_register, handle_rd}
use mips_emulator.Control.Sane.{set_register-IsSane, handle_rd-IsSane}
use mips_emulator.Syscall.{set_memory_of, track_memory_access}
use mips_emulator.Syscall.Sane.Parts.{track-Sane}
use mips_emulator.Step

-- The operands are words, and there is nothing to store to or a word's address.
pub record SmallOperands (o : Step.Operands) : Type 0 where
  pub rs : o.rs < 2 ^ 32
  pub rt : o.rt < 2 ^ 32
  pub mem : o.mem < 2 ^ 32
  pub store_addr : o.store_addr < 2 ^ 32

module _ (platform : Platform) where
  abbrev pub Sane : InstrumentedState → Type 0
  Sane is = IsSane platform is.state

  pub fetch_rt-lt :
      (opcode insn rt_reg : ℕ) {s : State} {v : ℕ}
      → insn < 2 ^ 32
      → IsSane platform s
      → Step.fetch_rt platform opcode insn rt_reg s ≡ done v
      → v < 2 ^ 32
  unfolding Step.fetch_rt
  fetch_rt-lt opcode insn rt_reg {s} {v} small ok e = ground (
    arith,
    ok.register rt_reg,
    bit_and-le insn insn 0xffff (omega arith),
    sign_extension-lt platform (bit_and insn 0xffff) 16 {r = v},
  )

  -- What `mips_step` returns carries a sane state.
  pub ended :
      (x : Step.StepResult) {r : Step.StepResult}
      → Sane x.is
      → ◌≡◌ {A = Outcome Step.StepResult} (done x) (done r)
      → Sane r.is
  ended x {r} ok h = let same : x ≡ r = cc in rw same at ok

  pub fetched :
      (x : Step.Operands × InstrumentedState) {y : Step.Operands × InstrumentedState}
      → SmallOperands x.0 × Sane x.1
      → ◌≡◌ {A = Outcome (Step.Operands × InstrumentedState)} (done x) (done y)
      → SmallOperands y.0 × Sane y.1
  fetched x {y} ok h = let same : x ≡ y = cc in rw same at ok

  stored :
      (x : Option MemoryAccess × InstrumentedState) {y : Option MemoryAccess × InstrumentedState}
      → Sane x.1
      → ◌≡◌ {A = Outcome (Option MemoryAccess × InstrumentedState)} (done x) (done y)
      → Sane y.1
  stored x {y} ok h = let same : x ≡ y = cc in rw same at ok

  pub fetch_memory-Sane :
      (opcode insn : ℕ) (operands : Step.Operands) (is : InstrumentedState)
      {y : Step.Operands × InstrumentedState}
      → insn < 2 ^ 32
      → SmallOperands operands
      → Sane is
      → Step.fetch_memory platform opcode insn operands is ≡ done y
      → SmallOperands y.0 × Sane y.1
  unfolding Step.fetch_memory
  fetch_memory-Sane opcode insn operands is small o ok e =
      after (sign_extension platform (bit_and insn 0xffff) 16) _ e λ offset r0 e0.
        let rs = (operands.rs + offset) % 2 ^ 32 in
        let addr = bit_and rs 0xffff_fffc in
        let low : addr < 2 ^ 32 = omega (arith, bit_and-le rs rs 0xffff_fffc (omega arith)) in
        after (track_memory_access platform addr is) _ e0 λ is1 r1 e1.
          let ok1 = track-Sane platform addr is ok r1 in
          after (get_memory addr is1.state.memory) _ e1 λ (mem, memory) r2 e2.
            let (ok2, word, same, views) = get_memory-IsSound platform addr ok1.memory r2 in
            let stores = leb 0x28 opcode && opcode != 0x30 in
            fetched _
              (
                record {
                  rs = omega arith;
                  rt = o.rt;
                  mem = word;
                  store_addr = chosen stores addr operands.store_addr low o.store_addr;
                },
                with_memory-IsSane platform memory ok2 ok1,
              )
              e2
    where
      chosen : (b : Bool) (x y : ℕ) → x < 2 ^ 32 → y < 2 ^ 32 → (if b then x else y) < 2 ^ 32
      chosen true x y p q = p
      chosen false x y p q = q

  store_value-Sane :
      (val : ℕ) (operands : Step.Operands) (is : InstrumentedState)
      {y : Option MemoryAccess × InstrumentedState}
      → SmallOperands operands
      → Sane is
      → Step.store_value platform val operands is ≡ done y
      → Sane y.1
  unfolding Step.store_value
  store_value-Sane val operands is o ok e =
      by_test (operands.store_addr != max_u32) e
        (λ e0.
          after (get_memory operands.store_addr is.state.memory) _ e0 λ (value_prev, memory) r1 e1.
            let (ok1, word, same, views) =
              get_memory-IsSound platform operands.store_addr ok.memory r1 in
            let sane1 = with_memory-IsSane platform memory ok1 ok in
            after (track_memory_access platform operands.store_addr (set_memory_of memory is)) _ e1
              λ is1 r2 e2.
                let ok2 =
                  track-Sane platform operands.store_addr (set_memory_of memory is) sane1 r2 in
                after (set_memory operands.store_addr val is1.state.memory) _ e2 λ memory1 r3 e3.
                  stored _
                    (with_memory-IsSane platform memory1
                      (set_memory-IsSound platform operands.store_addr val o.store_addr ok2.memory
                        r3)
                      ok2)
                    e3)
        (stored (operands.access, is) ok)

  pub write_back-Sane :
      (opcode rt_reg val : ℕ) (row : ExecutionRow) (operands : Step.Operands)
      (is : InstrumentedState) {r : Step.StepResult}
      → val < 2 ^ 32
      → SmallOperands operands
      → Sane is
      → Step.write_back platform opcode rt_reg val row operands is ≡ done r
      → Sane r.is
  unfolding Step.write_back
  write_back-Sane opcode rt_reg val row operands is word o ok e =
      after (Step.store_value platform val operands (flagged (opcode == 0x38 && rt_reg != 0))) _ e
        λ (access, is2) r0 e0.
          let ok2 =
            store_value-Sane val operands _ o (flagged-Sane (opcode == 0x38 && rt_reg != 0)) r0 in
          after (handle_rd platform operands.rd_reg val true is2.state) _ e0
            λ s r1 e1. ended _ (handle_rd-IsSane platform operands.rd_reg val true word ok2 r1) e1
    where
      flagged : Bool → InstrumentedState
      flagged sc = if sc then Step.with_state (set_register rt_reg 1 is.state) is else is

      flagged-Sane : (sc : Bool) → Sane (flagged sc)
      flagged-Sane true = set_register-IsSane platform rt_reg 1 (omega arith) ok
      flagged-Sane false = ok
