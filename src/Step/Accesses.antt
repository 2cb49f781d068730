-- ===== src/Step/Accesses.antt =====
-- What an instruction reads from memory and writes to it, and the rows that say so:
-- mips-emulator/src/state.rs, the memory fetch and the store of `mips_step`.
use mips_emulator.Prelude.{
  ℕ, ◌+◌, ◌-◌, ◌%◌, ◌^◌, ◌<◌, ◌≡◌, refl, arith, ap, sym, ◌∙◌, true, false, not, ◌&&◌,
}
use mips_emulator.Prelude.{some, ◌!=◌, leb, if◌then◌else◌, bit_and, done, bind_done, fun_ext}
use mathlib.Core.Path.{ap₂}
use mips_emulator.Prelude.Bits.{bit_and_align, bit_and_mask}
use mips_emulator.Alu.{sign_extension}
use mips_emulator.Alu.SignExtension.{sign_extension_lem}
use mips_emulator.Platform.{Platform}
use mips_emulator.Word.{max_u32}
use mips_emulator.Memory.{Memory, get_memory, set_memory}
use mips_emulator.Memory.View.{view, view_word}
use mips_emulator.Memory.Writes.{word_written}
use mips_emulator.Memory.Valid.{get_memory-IsValid, set_memory-IsValid}
use mips_emulator.Memory.Sound.{
  IsSound, get_memory-IsSound, set_memory-IsSound, merkle_proof_succeeds,
}
use mips_emulator.Witness.{MemoryAccess, MemoryOperation}
use mips_emulator.State.{State, InstrumentedState}
use mips_emulator.Syscall.{track_memory_access, set_memory_of}
use mips_emulator.Step

-- A proof is not asked for, or none was made in this step, or it was made at this address.
abbrev pub MayTrack : ℕ → InstrumentedState → Type 0
MayTrack addr is =
    (is.mem_proof_enabled && is.last_mem_access != addr && is.last_mem_access != max_u32) ≡ false

-- The row of an access.
abbrev pub row : MemoryOperation → InstrumentedState → ℕ → ℕ → ℕ → MemoryAccess
row op is addr value value_prev = record {
  rw_counter = is.state.step;
  addr = addr;
  op = op;
  value = value;
  value_prev = value_prev;
}

-- The offset of an instruction, as a number modulo 2^32.
abbrev pub offset_of : ℕ → ℕ
offset_of insn =
    let dat = bit_and insn 0xffff in if leb (2 ^ 15) dat then dat + (2 ^ 32 - 2 ^ 16) else dat

abbrev pub effective : ℕ → Step.Operands → ℕ
effective insn operands = (operands.rs + offset_of insn) % 2 ^ 32

-- The word that holds the effective address.
abbrev pub target : ℕ → Step.Operands → ℕ
target insn operands = bit_and (effective insn operands) 0xffff_fffc

module _ (platform : Platform) where
  -- Tracking an access.
  record Tracked (addr : ℕ) (is is' : InstrumentedState) : Type 0 where
    memory : Memory
    state : is'.state ≡ record (is.state) { memory = memory }
    last : is'.last_mem_access ≡ addr
    bytes : (b : ℕ) → view memory b ≡ view is.state.memory b
    sound : IsSound platform memory

  track_lem :
      (addr : ℕ) (is : InstrumentedState)
      → MayTrack addr is
      → IsSound platform is.state.memory
      → (is' : InstrumentedState) × (track_memory_access platform addr is ≡ done is')
        × Tracked addr is is'
  unfolding track_memory_access
  track_lem addr is may ok =
      let (proof, m, run, sound, same) = merkle_proof_succeeds platform addr ok in
      let allowed : not
            (is.mem_proof_enabled && is.last_mem_access != addr && is.last_mem_access != max_u32)
          ≡ true =
        ap not may in
      (
        record (set_memory_of m is) { last_mem_access = addr; mem_proof = proof },
        rw (allowed, run) refl,
        record { memory = m; state = refl; last = refl; bytes = same; sound = sound },
      )

  pub view_word-same :
      (a : ℕ) (m m' : Memory) → ((b : ℕ) → view m' b ≡ view m b) → view_word m' a ≡ view_word m a
  unfolding view_word
  view_word-same a m m' h = rw (h a, h (a + 1), h (a + 2), h (a + 3)) refl

  read_lem :
      (a : ℕ) {m : Memory}
      → a % 4 ≡ 0
      → IsSound platform m
      → (m' : Memory) × (get_memory a m ≡ done (view_word m a, m'))
        × ((b : ℕ) → view m' b ≡ view m b)
        × IsSound platform m'
  read_lem a {m} aligned ok =
      let (m', run, same, valid) = get_memory-IsValid platform a {m = m} aligned ok.valid in
      let (ok', small, value, views) = get_memory-IsSound platform a ok run in (m', run, same, ok')

  -- A store to an aligned address of a sound memory, where tracking is off or free or at that
  -- address, succeeds: memory holds the word there and what it held elsewhere, nothing else of the
  -- state changes, and the access recorded is a write with the step count, the address, the word,
  -- and the word that was there before.
  pub store_value_lem :
      (val : ℕ) (operands : Step.Operands) (is : InstrumentedState)
      → operands.store_addr < max_u32
      → operands.store_addr % 4 ≡ 0
      → MayTrack operands.store_addr is
      → IsSound platform is.state.memory
      → (is' : InstrumentedState) × (Step.store_value platform val operands is
          ≡ done (
            some (
                row MemoryOperation.write is operands.store_addr val
                  (view_word is.state.memory operands.store_addr)),
            is',
          ))
        × (is'.state ≡ record (is.state) { memory = is'.state.memory })
        × ((b : ℕ)
            → view is'.state.memory b
              ≡ word_written operands.store_addr val (view is.state.memory) b)
        × IsSound platform is'.state.memory
  unfolding Step.store_value
  store_value_lem val operands is small aligned may ok =
      let a = operands.store_addr in
      let stores : (a != max_u32) ≡ true = ground arith in
      let (m1, read, same1, ok1) = read_lem a {m = is.state.memory} aligned ok in
      let (is1, tracked, t) = track_lem a (set_memory_of m1 is) may ok1 in
      let sound1 : IsSound platform is1.state.memory =
        rw (ap (λ (s : State). s.memory) (sym t.state)) at t.sound in
      let (m2, write, bytes, valid) =
        set_memory-IsValid platform a val {m = is1.state.memory} (omega arith) aligned
          sound1.valid in
      let step_same : is1.state.step ≡ is.state.step = ap (λ (s : State). s.step) t.state in
      (
        set_memory_of m2 is1,
        rw stores (
            bind_done (get_memory a is.state.memory) _ read
            ∙ (bind_done (track_memory_access platform a (set_memory_of m1 is)) _ tracked
                ∙ (bind_done (set_memory a val is1.state.memory) _ write
                    ∙ ap
                        (λ (n : ℕ). done (
                          some (record {
                            rw_counter = n;
                            addr = a;
                            op = MemoryOperation.write;
                            value = val;
                            value_prev = view_word is.state.memory a;
                          }),
                          set_memory_of m2 is1,
                        ))
                        step_same))),
        ap (λ (s : State). record s { memory = m2 }) t.state,
        λ b.
            bytes b
            ∙ ap (λ (f : ℕ → ℕ). word_written a val f b)
                (fun_ext
                  (λ c. ap (λ (s : State). view s.memory c) t.state ∙ (t.bytes c ∙ same1 c))),
        set_memory-IsSound platform a val (omega arith) sound1 write,
      )

  -- The memory fetch of a load or store from a sound memory, where tracking is off or free or at
  -- its address, succeeds: the effective address is the base plus the sign-extended offset modulo
  -- 2^32, the word read and recorded is the one at the multiple of four below it, a store keeps
  -- that address and drops its register, and nothing of the state but the memory's caches changes.
  pub fetch_memory_lem :
      (opcode insn : ℕ) (operands : Step.Operands) (is : InstrumentedState)
      → MayTrack (target insn operands) is
      → IsSound platform is.state.memory
      → (is' : InstrumentedState) × (Step.fetch_memory platform opcode insn operands is
          ≡ done (
            record operands {
              rs = effective insn operands;
              mem = view_word is.state.memory (target insn operands);
              store_addr =
                  if leb 0x28 opcode && opcode != 0x30
                  then target insn operands
                  else operands.store_addr;
              rd_reg = if leb 0x28 opcode && opcode != 0x30 then 0 else operands.rd_reg;
              access = some (
                  row MemoryOperation.read is
                    (target insn operands)
                    (view_word is.state.memory (target insn operands))
                    (view_word is.state.memory (target insn operands)));
            },
            is',
          ))
        × (is'.state ≡ record (is.state) { memory = is'.state.memory })
        × ((b : ℕ) → view is'.state.memory b ≡ view is.state.memory b)
        × IsSound platform is'.state.memory
        × (is'.last_mem_access ≡ target insn operands)
  unfolding Step.fetch_memory
  fetch_memory_lem opcode insn operands is may ok =
      let a = target insn operands in
      let aligned : a % 4 ≡ 0 =
        omega (arith, bit_and_align (effective insn operands) (omega arith)) in
      let half : bit_and insn 0xffff < 2 ^ 16 = omega (arith, bit_and_mask 16 insn) in
      let extended : sign_extension platform (bit_and insn 0xffff) 16 ≡ done (offset_of insn) =
        sign_extension_lem platform (bit_and insn 0xffff) 16 (omega arith) (omega arith) half in
      let (is1, tracked, t) = track_lem a is may ok in
      let sound1 : IsSound platform is1.state.memory =
        rw (ap (λ (s : State). s.memory) (sym t.state)) at t.sound in
      let same1 : (b : ℕ) → view is1.state.memory b ≡ view is.state.memory b =
        λ b. ap (λ (s : State). view s.memory b) t.state ∙ t.bytes b in
      let (m2, read, same2, ok2) = read_lem a {m = is1.state.memory} aligned sound1 in
      let step_same : is1.state.step ≡ is.state.step = ap (λ (s : State). s.step) t.state in
      let word_same = view_word-same a is.state.memory is1.state.memory same1 in
      (
        set_memory_of m2 is1,
        bind_done (sign_extension platform (bit_and insn 0xffff) 16) _ extended
            ∙ (bind_done (track_memory_access platform a is) _ tracked
                ∙ (bind_done (get_memory a is1.state.memory) _ read
                    ∙ ap₂
                        (λ (n w : ℕ). done (fetched opcode insn operands n w, set_memory_of m2 is1))
                        step_same word_same)),
        ap (λ (s : State). record s { memory = m2 }) t.state,
        λ b. same2 b ∙ same1 b,
        ok2,
        t.last,
      )
    where
      fetched : ℕ → ℕ → Step.Operands → ℕ → ℕ → Step.Operands
      fetched opcode insn operands n w = record operands {
        rs = effective insn operands;
        mem = w;
        store_addr =
            if leb 0x28 opcode && opcode != 0x30 then target insn operands else operands.store_addr;
        rd_reg = if leb 0x28 opcode && opcode != 0x30 then 0 else operands.rd_reg;
        access = some (record {
          rw_counter = n;
          addr = target insn operands;
          op = MemoryOperation.read;
          value = w;
          value_prev = w;
        });
      }
