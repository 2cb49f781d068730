-- ===== src/Syscall/Untouched.antt =====
-- What the system calls and the memory tracking leave alone.
use mips_emulator.Prelude.{ℕ, zero, suc, ◌+◌, ◌≡◌, arith, []}
use mips_emulator.Prelude.{Bool, true, false, ◌∙◌}
use mips_emulator.Prelude.{◌∷◌, ◌++◌, take, drop}
use mips_emulator.Prelude.{if◌then◌else◌}
use mips_emulator.Prelude.{Outcome, done, ◌>>=◌, ◌>>◌, after}
use mips_emulator.Platform.{Platform, Bytes, Digest}
use mips_emulator.Word.{from_be_bytes}
use mips_emulator.Memory.{Memory, get_memory}
use mips_emulator.State.{InstrumentedState}
use mips_emulator.Syscall

-- The program counters, the registers, the step count and the exit flag are as before.
pub record Untouched (is is' : InstrumentedState) : Type 0 where
  pub pc : is'.state.pc ≡ is.state.pc
  pub next_pc : is'.state.next_pc ≡ is.state.next_pc
  pub registers : is'.state.registers ≡ is.state.registers
  pub step : is'.state.step ≡ is.state.step
  pub exited : is'.state.exited ≡ is.state.exited

pub Untouched-trans : {a b c : InstrumentedState} → Untouched a b → Untouched b c → Untouched a c
Untouched-trans f g = record {
  pc = g.pc ∙ f.pc;
  next_pc = g.next_pc ∙ f.next_pc;
  registers = g.registers ∙ f.registers;
  step = g.step ∙ f.step;
  exited = g.exited ∙ f.exited;
}

module _ (platform : Platform) where
  pub set_memory_of-Untouched :
      (memory : Memory) (is : InstrumentedState) → Untouched is (Syscall.set_memory_of memory is)
  set_memory_of-Untouched memory is = ground arith

  pub track-Untouched :
      (addr : ℕ) (is : InstrumentedState) {is' : InstrumentedState}
      → Syscall.track_memory_access platform addr is ≡ done is'
      → Untouched is is'
  unfolding Syscall.track_memory_access
  track-Untouched addr is h = ground arith

  fetch_preimage-Untouched :
      (key : Digest) (is : InstrumentedState)
      → Untouched is (Syscall.fetch_preimage platform key is)
  unfolding Syscall.fetch_preimage
  fetch_preimage-Untouched key is = ground arith

  read_preimage-Untouched :
      (key : Digest) (offset : ℕ) (is : InstrumentedState) {bytes : Bytes} {is' : InstrumentedState}
      → Syscall.read_preimage platform key offset is ≡ done (bytes, is')
      → Untouched is is'
  unfolding Syscall.read_preimage
  read_preimage-Untouched key offset is h = ground (arith, fetch_preimage-Untouched key is)

  mmap-Untouched :
      (a0 a1 : ℕ) (is : InstrumentedState) {r : Syscall.SyscallState}
      → Syscall.mmap platform a0 a1 is ≡ done r
      → Untouched is r.is
  unfolding Syscall.mmap
  mmap-Untouched a0 a1 is h = ground arith

  -- The end of the read: the memory and the offset are set.
  store_preimage :
      (fits : Outcome (Unit {0})) (stored : Outcome Memory) (moved : Outcome ℕ) (len : ℕ)
      (is : InstrumentedState) {r : Syscall.SyscallState}
      → (do
        fits
        memory ← stored
        offset ← moved
        Syscall.returns len 0
            (record is { state = record (is.state) { memory = memory; preimage_offset = offset } }))
        ≡ done r
      → Untouched is r.is
  store_preimage fits stored moved len is h = ground arith

  read_preimage_word-Untouched :
      (a1 a2 : ℕ) (is : InstrumentedState) {r : Syscall.SyscallState}
      → Syscall.read_preimage_word platform a1 a2 is ≡ done r
      → Untouched is r.is
  unfolding Syscall.read_preimage_word
  read_preimage_word-Untouched a1 a2 is h =
      after (Syscall.track_memory_access platform _ is) _ h λ is1 track h1.
        after (get_memory _ is1.state.memory) _ h1 λ (mem, memory) got h2.
          after (Syscall.read_preimage platform _ _ (Syscall.set_memory_of memory is1)) _ h2
            λ (bytes, is2) found h3. Untouched-trans (track-Untouched _ is track) (
              Untouched-trans (set_memory_of-Untouched memory is1) (
                Untouched-trans (read_preimage-Untouched _ _ _ found)
                  (store_preimage _ _ _ _ is2 h3)))

  -- After one hint was handed to the oracle.
  abbrev hinted : InstrumentedState → InstrumentedState
  hinted is =
      let last_hint = is.state.last_hint in
      let hint_len = from_be_bytes 0 (take 4 last_hint) in
      record is {
        state = record (is.state) { last_hint = drop (4 + hint_len) last_hint };
        hints = is.hints ++ take hint_len (drop 4 last_hint) ∷ [];
      }

  process_hints-Untouched :
      (fuel : ℕ) (is : InstrumentedState) {is' : InstrumentedState}
      → Syscall.process_hints platform fuel is ≡ done is'
      → Untouched is is'
  unfolding Syscall.process_hints
  process_hints-Untouched zero is h = cc
  process_hints-Untouched (suc fuel) is {is'} h = ground (
    arith,
    process_hints-Untouched fuel is {is' = is'},
    process_hints-Untouched fuel (hinted is) {is' = is'},
  )

  copy_out-Untouched :
      (a1 a2 : ℕ) (is : InstrumentedState) {bytes : Bytes} {is' : InstrumentedState}
      → Syscall.copy_out platform a1 a2 is ≡ done (bytes, is')
      → Untouched is is'
  unfolding Syscall.copy_out
  copy_out-Untouched a1 a2 is h = ground arith

  with_hint-Untouched :
      (hint : Bytes) (is : InstrumentedState)
      → Untouched is (record is { state = record (is.state) { last_hint = hint } })
  with_hint-Untouched hint is = ground arith

  write_hint-Untouched :
      (fuel a1 a2 : ℕ) (is : InstrumentedState) {r : Syscall.SyscallState}
      → Syscall.write_hint platform fuel a1 a2 is ≡ done r
      → Untouched is r.is
  unfolding Syscall.write_hint
  write_hint-Untouched fuel a1 a2 is h =
      after (Syscall.copy_out platform a1 a2 is) _ h λ (data_read, is1) copied h1.
        after (Syscall.process_hints platform fuel _) _ h1 λ is2 run h2.
          Untouched-trans (copy_out-Untouched a1 a2 is copied) (
            Untouched-trans (with_hint-Untouched _ is1)
              (Untouched-trans (process_hints-Untouched fuel _ run) (ground arith)))

  write_preimage_key-Untouched :
      (a1 a2 : ℕ) (is : InstrumentedState) {r : Syscall.SyscallState}
      → Syscall.write_preimage_key platform a1 a2 is ≡ done r
      → Untouched is r.is
  unfolding Syscall.write_preimage_key
  write_preimage_key-Untouched a1 a2 is h =
      after (Syscall.track_memory_access platform _ is) _ h λ is1 track h1.
        after (get_memory _ is1.state.memory) _ h1 λ (mem, memory) got h2.
          Untouched-trans (track-Untouched _ is track)
            (Untouched-trans (set_memory_of-Untouched memory is1) (ground arith))

  output-Untouched :
      (to_out : Bool) (a1 a2 : ℕ) (is : InstrumentedState) {r : Syscall.SyscallState}
      → (do
        (bytes, is') ← Syscall.copy_out platform a1 a2 is
        Syscall.returns a2 0 (
            if to_out
            then record is' { stdout = is'.stdout ++ bytes }
            else record is' { stderr = is'.stderr ++ bytes }))
        ≡ done r
      → Untouched is r.is
  output-Untouched to_out a1 a2 is h =
      after (Syscall.copy_out platform a1 a2 is) _ h λ (bytes, is1) copied h1.
        Untouched-trans (copy_out-Untouched a1 a2 is copied) (ground arith)

  syscall_write-Untouched :
      (fuel a0 a1 a2 : ℕ) (is : InstrumentedState) {r : Syscall.SyscallState}
      → Syscall.syscall_write platform fuel a0 a1 a2 is ≡ done r
      → Untouched is r.is
  unfolding Syscall.syscall_write
  syscall_write-Untouched fuel a0 a1 a2 is {r} h = ground (
    arith,
    output-Untouched true a1 a2 is {r = r},
    output-Untouched false a1 a2 is {r = r},
    write_hint-Untouched fuel a1 a2 is {r = r},
    write_preimage_key-Untouched a1 a2 is {r = r},
  )

  -- Where the part of a system call before its result registers are set succeeds, for any number
  -- but exit's, the program counters, the registers, the step count and the exit flag are as
  -- before.
  pub syscall_result-Untouched :
      (fuel syscall_num : ℕ) (is : InstrumentedState) {r : Syscall.SyscallState}
      → Syscall.syscall_result platform fuel syscall_num is ≡ done r
      → Untouched is r.is
  unfolding Syscall.syscall_result Syscall.syscall_read Syscall.fcntl
  syscall_result-Untouched fuel syscall_num is {r} h = ground (
    arith,
    mmap-Untouched (is.state.registers 4) (is.state.registers 5) is {r = r},
    read_preimage_word-Untouched (is.state.registers 5) (is.state.registers 6) is {r = r},
    syscall_write-Untouched fuel (is.state.registers 4) (is.state.registers 5)
        (is.state.registers 6) is {r = r},
  )
