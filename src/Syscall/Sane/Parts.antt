-- ===== src/Syscall/Sane/Parts.antt =====
-- The parts of the system calls keep the state sane: mips-emulator/src/state.rs, `handle_syscall`.
use mips_emulator.Prelude.{ℕ, zero, suc, ◌+◌, ◌-◌, ◌^◌, ◌<◌, ◌≡◌, arith, min}
use mips_emulator.Prelude.{Bool, true, false, ◌&&◌, sym, not}
use mips_emulator.Prelude.{◌==◌, ◌!=◌, ltb, leb, if◌then◌else◌, bit_and, ◌++◌, take, drop, length}
use mips_emulator.Prelude.{Outcome, done, ◌>>=◌, after, ensure, by_test}
use mips_emulator.Prelude.Bits.{bit_and-le}
use mips_emulator.Platform.{Platform, Bytes, Digest}
use mips_emulator.Word.{add32, to_be_bytes, from_be_bytes, max_u32}
use mips_emulator.Word.Laws.{add32-lt}
use mips_emulator.Memory.{Memory, get_memory, set_memory, read_memory_range}
use mips_emulator.Memory.Io.{read_to_end}
use mips_emulator.Memory.Merkle.{merkle_proof}
use mips_emulator.Memory.Sound.{get_memory-IsSound, set_memory-IsSound, merkle_proof-IsSound}
use mips_emulator.Memory.Sound.{read_to_end-IsSound, range_set}
use mips_emulator.State.{State, InstrumentedState}
use mips_emulator.State.Sane.{IsSane, with_rest-IsSane, with_memory-IsSane, with_hint-IsSane}
use mips_emulator.Syscall

module _ (platform : Platform) where
  abbrev pub Sane : InstrumentedState → Type 0
  Sane is = IsSane platform is.state

  -- The result registers are words too.
  abbrev pub Returned : Syscall.SyscallState → Type 0
  Returned r = (r.v0 < 2 ^ 32) × (r.v1 < 2 ^ 32) × Sane r.is

  pub kept :
      (x : InstrumentedState) {y : InstrumentedState}
      → Sane x
      → ◌≡◌ {A = Outcome InstrumentedState} (done x) (done y)
      → Sane y
  kept x {y} ok h = let same : x ≡ y = cc in rw same at ok

  given :
      (x : Syscall.SyscallState) {y : Syscall.SyscallState}
      → Returned x
      → ◌≡◌ {A = Outcome Syscall.SyscallState} (done x) (done y)
      → Returned y
  given x {y} ok h = let same : x ≡ y = cc in rw same at ok

  pub returned :
      (v0 v1 : ℕ) (is : InstrumentedState) {r : Syscall.SyscallState}
      → v0 < 2 ^ 32
      → v1 < 2 ^ 32
      → Sane is
      → Syscall.returns v0 v1 is ≡ done r
      → Returned r
  returned v0 v1 is p q ok h = given (record { v0 = v0; v1 = v1; is = is }) (p, q, ok) h

  pub track-Sane :
      (addr : ℕ) (is : InstrumentedState) {is' : InstrumentedState}
      → Sane is
      → Syscall.track_memory_access platform addr is ≡ done is'
      → Sane is'
  unfolding Syscall.track_memory_access
  track-Sane addr is {is'} ok e =
      after
        (ensure (
          not
            (is.mem_proof_enabled && is.last_mem_access != addr && is.last_mem_access != max_u32)))
        (λ _. merkle_proof platform addr is.state.memory >>= tracked) e
        λ u r0 e0.
          after (merkle_proof platform addr is.state.memory) tracked e0 λ (proof, memory) r1 e1.
            kept (tracked_as proof memory)
              (with_memory-IsSane platform memory (merkle_proof-IsSound platform addr ok.memory r1)
                ok)
              e1
    where
      tracked_as : Bytes → Memory → InstrumentedState
      tracked_as proof memory = record (Syscall.set_memory_of memory is) {
        last_mem_access = addr;
        mem_proof = proof;
      }

      tracked : Bytes × Memory → Outcome InstrumentedState
      tracked (proof, memory) = done (tracked_as proof memory)

  read_preimage-state :
      (key : Digest) (offset : ℕ) (is : InstrumentedState) {bytes : Bytes} {is' : InstrumentedState}
      → Syscall.read_preimage platform key offset is ≡ done (bytes, is')
      → is'.state ≡ is.state
  unfolding Syscall.read_preimage Syscall.fetch_preimage
  read_preimage-state key offset is e = ground arith

  pub mmap-Returned :
      (a0 a1 : ℕ) (is : InstrumentedState) {r : Syscall.SyscallState}
      → a0 < 2 ^ 32
      → Sane is
      → Syscall.mmap platform a0 a1 is ≡ done r
      → Returned r
  unfolding Syscall.mmap
  mmap-Returned a0 a1 is {r} small ok e =
      after (if bit_and a1 4095 != 0 then _ else _) _ e λ size r0 e0.
        by_test (a0 == 0) e0
          (λ e1. after (add32 platform is.state.heap size) _ e1 λ heap r1 e2.
            returned is.state.heap 0 _ ok.heap (omega arith)
              (grown heap (add32-lt platform is.state.heap size r1)) e2)
          (returned a0 0 is small (omega arith) ok)
    where
      grown : (heap : ℕ) → heap < 2 ^ 32 → IsSane platform (record (is.state) { heap = heap })
      grown heap h =
          let s : State = is.state in
          with_rest-IsSane platform s.memory s.preimage_key s.preimage_offset heap s.step s.exited
            s.exit_code s.last_hint ok.memory ok.preimage_offset h ok.step ok.exit_code ok

  pub copy_out-Sane :
      (a1 a2 : ℕ) (is : InstrumentedState) {bytes : Bytes} {is' : InstrumentedState}
      → Sane is
      → Syscall.copy_out platform a1 a2 is ≡ done (bytes, is')
      → Sane is'
  unfolding Syscall.copy_out
  copy_out-Sane a1 a2 is {bytes} {is'} ok e =
      after (read_to_end platform (a2 + 1) 0 (read_memory_range a1 a2 is.state.memory)) _ e
        λ (found, memory) r0 e0.
          copied found memory
            (with_memory-IsSane platform memory
              (read_to_end-IsSound platform (a2 + 1) 0 (range_set platform a1 a2 ok.memory) r0) ok)
            e0
    where
      copied :
          (found : Bytes) (memory : Memory)
          → Sane (Syscall.set_memory_of memory is)
          → ◌≡◌ {A = Outcome (Bytes × InstrumentedState)}
              (done (found, Syscall.set_memory_of memory is))
              (done (bytes, is'))
          → Sane is'
      copied found memory s h = kept (Syscall.set_memory_of memory is) {y = is'} s cc

  pub read_preimage_word-Returned :
      (a1 a2 : ℕ) (is : InstrumentedState) {r : Syscall.SyscallState}
      → a1 < 2 ^ 32
      → Sane is
      → Syscall.read_preimage_word platform a1 a2 is ≡ done r
      → Returned r
  unfolding Syscall.read_preimage_word
  read_preimage_word-Returned a1 a2 is {r} small ok e =
      let addr = bit_and a1 0xffff_fffc in
      let low : addr < 2 ^ 32 = omega (arith, bit_and-le a1 a1 0xffff_fffc (omega arith)) in
      after (Syscall.track_memory_access platform addr is) _ e λ is1 r0 e0.
        let ok1 = track-Sane addr is ok r0 in
        after (get_memory addr is1.state.memory) _ e0 λ (mem, memory) r1 e1.
          let (ok2, v2, same2, view2) = get_memory-IsSound platform addr ok1.memory r1 in
          let is2 = Syscall.set_memory_of memory is1 in
          let sane2 : Sane is2 = with_memory-IsSane platform memory ok2 ok1 in
          after
            (Syscall.read_preimage platform is1.state.preimage_key is1.state.preimage_offset is2) _
            e1
            λ (bytes, is3) r2 e2.
              let sane3 : Sane is3 =
                rw
                  (sym
                    (read_preimage-state is1.state.preimage_key is1.state.preimage_offset is2 r2))
                  at sane2 in
              let n = min (min (length bytes) (4 - bit_and a1 3)) a2 in
              after (ensure (n == 4 - bit_and a1 3)) _ e2 λ u r3 e3.
                after
                  (set_memory addr
                    (from_be_bytes 0 (take (bit_and a1 3) (to_be_bytes 4 mem) ++ take n bytes))
                    is3.state.memory)
                  _ e3
                  λ memory1 r4 e4.
                    after (add32 platform is3.state.preimage_offset n) _ e4 λ offset r5 e5.
                      let is4 : InstrumentedState = record is3 {
                        state = record (is3.state) { memory = memory1; preimage_offset = offset };
                      } in
                      returned n 0 is4 (omega arith) (omega arith)
                        (with_rest-IsSane platform memory1 is3.state.preimage_key offset
                          is3.state.heap is3.state.step is3.state.exited is3.state.exit_code
                          is3.state.last_hint
                          (set_memory-IsSound platform addr _ low sane3.memory r4)
                          (add32-lt platform is3.state.preimage_offset n r5) sane3.heap sane3.step
                          sane3.exit_code sane3)
                        e5

  pub write_preimage_key-Returned :
      (a1 a2 : ℕ) (is : InstrumentedState) {r : Syscall.SyscallState}
      → Sane is
      → Syscall.write_preimage_key platform a1 a2 is ≡ done r
      → Returned r
  unfolding Syscall.write_preimage_key
  write_preimage_key-Returned a1 a2 is {r} ok e =
      let addr = bit_and a1 0xffff_fffc in
      after (Syscall.track_memory_access platform addr is) _ e λ is1 r0 e0.
        let ok1 = track-Sane addr is ok r0 in
        after (get_memory addr is1.state.memory) _ e0 λ (mem, memory) r1 e1.
          let (ok2, v2, same2, view2) = get_memory-IsSound platform addr ok1.memory r1 in
          let n = min a2 (4 - bit_and a1 3) in
          let key = drop n is1.state.preimage_key ++ take n (to_be_bytes 4 mem) in
          let is2 : InstrumentedState = record is1 {
            state = record (is1.state) { memory = memory; preimage_key = key; preimage_offset = 0 };
          } in
          returned n 0 is2 (omega arith) (omega arith)
            (with_rest-IsSane platform memory key 0 is1.state.heap is1.state.step is1.state.exited
              is1.state.exit_code is1.state.last_hint ok2 (omega arith) ok1.heap ok1.step
              ok1.exit_code ok1)
            e1

  by_match :
      {A T : Type 0} (b : Bool) {x y z : T}
      → elim b [ false ↦ y | true ↦ x ] ≡ z
      → (x ≡ z → A)
      → (y ≡ z → A)
      → A
  by_match true h f g = f h
  by_match false h f g = g h

  process_hints-Sane :
      (fuel : ℕ) (is : InstrumentedState) {is' : InstrumentedState}
      → Sane is
      → Syscall.process_hints platform fuel is ≡ done is'
      → Sane is'
  unfolding Syscall.process_hints
  process_hints-Sane zero is ok e = cc
  process_hints-Sane (suc fuel) is ok e =
      let hint = is.state.last_hint in
      let n = from_be_bytes 0 (take 4 hint) in
      by_match (ltb 4 (length hint)) e
        (λ e0.
          by_match (leb (length hint - 4) n) e0
            (λ e1. after (ensure (leb (4 + n) (length hint))) _ e1 λ u r e2.
              process_hints-Sane fuel _ (with_hint-IsSane platform (drop (4 + n) hint) ok) e2)
            (process_hints-Sane fuel is ok))
        (kept is ok)

  pub write_hint-Returned :
      (fuel a1 a2 : ℕ) (is : InstrumentedState) {r : Syscall.SyscallState}
      → a2 < 2 ^ 32
      → Sane is
      → Syscall.write_hint platform fuel a1 a2 is ≡ done r
      → Returned r
  unfolding Syscall.write_hint
  write_hint-Returned fuel a1 a2 is {r} small ok e =
      after (Syscall.copy_out platform a1 a2 is) _ e λ (told, is1) r0 e0.
        let hinted : InstrumentedState = record is1 {
          state = record (is1.state) { last_hint = is1.state.last_hint ++ told };
        } in
        after (Syscall.process_hints platform fuel hinted) _ e0 λ is2 r1 e1.
          returned a2 0 is2 small (omega arith)
            (process_hints-Sane fuel hinted
              (with_hint-IsSane platform (is1.state.last_hint ++ told)
                (copy_out-Sane a1 a2 is ok r0))
              r1)
            e1
