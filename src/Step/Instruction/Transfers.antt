-- ===== src/Step/Instruction/Transfers.antt =====
-- Loads and stores as `mips_step` runs them: mips-emulator/src/state.rs.
use mips_emulator.Prelude.{ℕ, ◌+◌, ◌/◌, ◌%◌, ◌^◌, ◌<◌, ◌≡◌, refl, arith, ap, ◌∙◌, true, false}
use mips_emulator.Prelude.{some, none, ◌!=◌, ◌==◌, ◌&&◌, leb, ltb, if◌then◌else◌, done, bind_done}
use mips_emulator.Prelude.{ltb_of_lt, ltb_of_le}
use mathlib.Core.Path.{ap₂}
use mips_emulator.Prelude.Bits.{bit_and_align}
use mips_emulator.Platform.{Platform}
use mips_emulator.Word.{max_u32}
use mips_emulator.Alu.{execute, sign_extension, execute_load, execute_store}
use mips_emulator.Memory.View.{view, view_word}
use mips_emulator.Memory.Writes.{word_written}
use mips_emulator.Memory.Sound.{IsSound}
use mips_emulator.Witness.{MemoryOperation}
use mips_emulator.State.{State, InstrumentedState}
use mips_emulator.Step
use mips_emulator.Step.Accesses.{
  MayTrack, fetch_memory_lem, store_value_lem, offset_of, effective, view_word-same, row,
}
use mips_emulator.Prelude.{fun_ext, leb_of_le, ◌>>=◌, ◌||◌, ◌≤◌}
use mips_emulator.Step.Instruction.{
  written, rs_of, rt_of, rt_of-lt, address, IsAt, fetch_lem, after_fetch, after_rd, written_back,
  not_stored,
}

address_aligned : (insn : ℕ) (s : State) → address insn s % 4 ≡ 0
address_aligned insn s =
    omega
      (arith, bit_and_align ((s.registers (rs_of insn) + offset_of insn) % 2 ^ 32) (omega arith))

address_small : (insn : ℕ) (s : State) → address insn s < max_u32
address_small insn s =
    omega
      (arith, bit_and_align ((s.registers (rs_of insn) + offset_of insn) % 2 ^ 32) (omega arith))

-- A step may track the address it has tracked.
tracked : (a : ℕ) (is : InstrumentedState) → is.last_mem_access ≡ a → MayTrack a is
tracked a is last = ground arith

-- The effective address: the base register plus the offset modulo 2^32.
abbrev pub effective_of : ℕ → State → ℕ
effective_of insn s = (s.registers (rs_of insn) + offset_of insn) % 2 ^ 32

-- What a load or store has besides: a store its register, as have lwl and lwr, which keep a part
-- of it.
abbrev pub kept_of : ℕ → State → ℕ
kept_of insn s =
    if leb 0x28 (insn / 2 ^ 26) || insn / 2 ^ 26 == 0x22 || insn / 2 ^ 26 == 0x26
    then s.registers (rt_of insn)
    else 0

module _ (platform : Platform) where
  -- What the fetched instruction starts from, before memory is read.
  abbrev operands_of : ℕ → State → Step.Operands
  operands_of insn s = record {
    rs = s.registers (rs_of insn);
    rt = kept_of insn s;
    rd_reg = rt_of insn;
    mem = 0;
    store_addr = max_u32;
    access = none;
  }

  kept_fetched :
      (insn : ℕ) (s : State)
      → 0x20 ≤ insn / 2 ^ 26
      → Step.fetch_rt platform (insn / 2 ^ 26) insn (rt_of insn) s ≡ done (kept_of insn s)
  unfolding Step.fetch_rt
  kept_fetched insn s above = ground arith

  transfer_decoded :
      (fuel insn : ℕ) (is : InstrumentedState)
      → 0x20 ≤ insn / 2 ^ 26
      → Step.fetched_step platform fuel insn is ≡ (do
        (o, is') ← Step.fetch_memory platform (insn / 2 ^ 26) insn (operands_of insn is.state) is
        Step.alu_step platform fuel insn (Step.fetched_row insn is.state) o is')
  unfolding Step.fetched_step Step.decoded_step Step.is_branch
  transfer_decoded fuel insn is above =
      let c = insn / 2 ^ 26 in
      let jump : (c == 2 || c == 3) ≡ false = ground arith in
      let special : (c == 0 || c == 0x1c) ≡ false = ground arith in
      let branch : ((leb 4 c && ltb c 8) || c == 1) ≡ false = ground arith in
      rw (jump, kept_fetched insn is.state above, branch, special, leb_of_le 0x20 c above) refl

  load_executed :
      (insn rs rt mem : ℕ)
      → 0x20 ≤ insn / 2 ^ 26
      → insn / 2 ^ 26 < 0x28
      → execute platform insn rs rt mem
        ≡ execute_load (sign_extension platform) (insn / 2 ^ 26) rs rt mem
  unfolding execute
  load_executed insn rs rt mem above below =
      rw (ltb_of_le (insn / 2 ^ 26) 0x20 above, ltb_of_lt (insn / 2 ^ 26) 0x28 below) refl

  store_executed :
      (insn rs rt mem : ℕ)
      → 0x28 ≤ insn / 2 ^ 26
      → execute platform insn rs rt mem ≡ execute_store (insn / 2 ^ 26) rs rt mem
  unfolding execute
  store_executed insn rs rt mem above =
      rw
        (ltb_of_le (insn / 2 ^ 26) 0x20 (omega arith), ltb_of_le (insn / 2 ^ 26) 0x28 (omega arith))
        refl

  -- From a running machine at a load, of an opcode from 0x20 to 0x27, where tracking is off or free
  -- or at its address, and the arithmetic gives a value for the effective address, the register it
  -- may keep a part of, and the word at that address rounded down to four: the step succeeds; the
  -- register named, unless it is register 0, holds that value, every other register and every byte
  -- of memory are as before, the program counters move on by one instruction, the step count goes
  -- up by one, the memory stays sound, nothing else of the machine's state changes, and the access
  -- returned is a read with the new step count, the rounded address, and the word there.
  pub load_lem :
      (fuel insn val : ℕ) (is : InstrumentedState)
      → IsAt platform insn is.state
      → 0x20 ≤ insn / 2 ^ 26
      → insn / 2 ^ 26 < 0x28
      → MayTrack (address insn is.state) is
      → execute_load
          (sign_extension platform)
          (insn / 2 ^ 26)
          (effective_of insn is.state)
          (kept_of insn is.state)
          (view_word is.state.memory (address insn is.state))
        ≡ done val
      → (r : Step.StepResult) × (Step.mips_step platform fuel is ≡ done r)
        × (r.is.state ≡ record (is.state) {
          memory = r.is.state.memory;
          registers = written (rt_of insn) val is.state.registers;
          pc = is.state.next_pc;
          next_pc = is.state.next_pc + 4;
          step = is.state.step + 1;
        })
        × ((b : ℕ) → view r.is.state.memory b ≡ view is.state.memory b)
        × IsSound platform r.is.state.memory
        × (r.access
            ≡ some (record {
              rw_counter = is.state.step + 1;
              addr = address insn is.state;
              op = MemoryOperation.read;
              value = view_word is.state.memory (address insn is.state);
              value_prev = view_word is.state.memory (address insn is.state);
            }))
  load_lem fuel insn val is at above below may run =
      let (m, fetch, same, ok) = fetch_lem platform fuel insn is at in
      let is0 = after_fetch platform m is in
      let a = address insn is.state in
      let word = view_word m a in
      let word_same = view_word-same platform a is.state.memory m same in
      let o0 = operands_of insn is0.state in
      let (is1, read, state1, same1, ok1, last) =
        fetch_memory_lem platform (insn / 2 ^ 26) insn o0 is0 may ok in
      let loads : (leb 0x28 (insn / 2 ^ 26) && insn / 2 ^ 26 != 0x30) ≡ false = ground arith in
      let fetched = rw loads at read in
      let o1 : Step.Operands = record o0 {
        rs = effective insn o0;
        mem = word;
        access = some (row MemoryOperation.read is0 a word word);
      } in
      let next : is1.state.next_pc + 4 < 2 ^ 32 =
        rw (ap (λ (s : State). s.next_pc) state1) at.next in
      let executed =
        load_executed insn o1.rs o1.rt word above below
        ∙ (ap (λ (w : ℕ). execute_load (sign_extension platform) (insn / 2 ^ 26) o1.rs o1.rt w)
              word_same
            ∙ run) in
      let back =
        written_back platform fuel insn val (Step.fetched_row insn is0.state) o1 is1 is1
          (ground arith) (ground arith) executed (not_stored platform val o1 is1 refl)
          (rt_of-lt insn) next in
      (
        _,
        fetch
            ∙ (transfer_decoded fuel insn is0 above
                ∙ (bind_done (Step.fetch_memory platform (insn / 2 ^ 26) insn o0 is0) _ fetched
                    ∙ back)),
        ap (after_rd platform (rt_of insn) val) state1,
        λ b. same1 b ∙ same b,
        ok1,
        ap (λ (w : ℕ). some (row MemoryOperation.read is0 a w w)) word_same,
      )

  -- From a running machine at a store, of an opcode from 0x28 to 0x2f, where tracking is off or
  -- free or at its address, and the arithmetic gives a value for the effective address, the
  -- register stored, and the word at that address rounded down to four: the step succeeds; the four
  -- bytes at the rounded address are those of that value, every other byte of memory and every
  -- register are as before, the program counters move on by one instruction, the step count goes up
  -- by one, the memory stays sound, nothing else of the machine's state changes, and the access
  -- returned is a write with the new step count, the rounded address, the value and the word that
  -- was there before.
  pub store_lem :
      (fuel insn val : ℕ) (is : InstrumentedState)
      → IsAt platform insn is.state
      → 0x28 ≤ insn / 2 ^ 26
      → insn / 2 ^ 26 < 0x30
      → MayTrack (address insn is.state) is
      → execute_store
          (insn / 2 ^ 26)
          (effective_of insn is.state)
          (is.state.registers (rt_of insn))
          (view_word is.state.memory (address insn is.state))
        ≡ done val
      → (r : Step.StepResult) × (Step.mips_step platform fuel is ≡ done r)
        × (r.is.state ≡ record (is.state) {
          memory = r.is.state.memory;
          pc = is.state.next_pc;
          next_pc = is.state.next_pc + 4;
          step = is.state.step + 1;
        })
        × ((b : ℕ)
            → view r.is.state.memory b
              ≡ word_written (address insn is.state) val (view is.state.memory) b)
        × IsSound platform r.is.state.memory
        × (r.access
            ≡ some (record {
              rw_counter = is.state.step + 1;
              addr = address insn is.state;
              op = MemoryOperation.write;
              value = val;
              value_prev = view_word is.state.memory (address insn is.state);
            }))
  store_lem fuel insn val is at above below may run =
      let (m, fetch, same, ok) = fetch_lem platform fuel insn is at in
      let is0 = after_fetch platform m is in
      let a = address insn is.state in
      let o0 = operands_of insn is0.state in
      let (is1, read, state1, same1, ok1, last) =
        fetch_memory_lem platform (insn / 2 ^ 26) insn o0 is0 may ok in
      let stores : (leb 0x28 (insn / 2 ^ 26) && insn / 2 ^ 26 != 0x30) ≡ true = ground arith in
      let kept : (if leb 0x28 (insn / 2 ^ 26) || insn / 2 ^ 26 == 0x22 || insn / 2 ^ 26 == 0x26
            then is.state.registers (rt_of insn)
            else 0)
          ≡ is.state.registers (rt_of insn) =
        ground arith in
      let fetched = rw stores at read in
      let word_same = view_word-same platform a is.state.memory m same in
      let before : (b : ℕ) → view is1.state.memory b ≡ view is.state.memory b =
        λ b. same1 b ∙ same b in
      let o1 : Step.Operands = record o0 {
        rs = effective insn o0;
        mem = view_word m a;
        store_addr = a;
        rd_reg = 0;
        access = some (row MemoryOperation.read is0 a (view_word m a) (view_word m a));
      } in
      let (is2, store, state2, bytes, ok2) =
        store_value_lem platform val o1 is1 (address_small insn is.state)
          (address_aligned insn is.state) (tracked a is1 last) ok1 in
      let states = state2 ∙ ap (λ (s : State). record s { memory = is2.state.memory }) state1 in
      let next : is2.state.next_pc + 4 < 2 ^ 32 =
        rw (ap (λ (s : State). s.next_pc) states) at.next in
      let back =
        written_back platform fuel insn val (Step.fetched_row insn is0.state) o1 is1 is2
          (ground arith) (ground arith)
          (store_executed insn o1.rs o1.rt o1.mem above
            ∙ (ap₂ (execute_store (insn / 2 ^ 26) o1.rs) kept word_same ∙ run))
          store (omega arith) next in
      (
        _,
        fetch
            ∙ (transfer_decoded fuel insn is0 (omega arith)
                ∙ (bind_done (Step.fetch_memory platform (insn / 2 ^ 26) insn o0 is0) _ fetched
                    ∙ back)),
        ap (after_rd platform 0 val) states,
        λ b. bytes b ∙ ap (λ (f : ℕ → ℕ). word_written a val f b) (fun_ext before),
        ok2,
        ap₂
            (λ (n w : ℕ). some (record {
              rw_counter = n;
              addr = a;
              op = MemoryOperation.write;
              value = val;
              value_prev = w;
            }))
            (ap (λ (s : State). s.step) state1)
            (view_word-same platform a is.state.memory is1.state.memory before),
      )
