-- ===== src/Syscall/Sane.antt =====
-- The system calls keep the state sane: mips-emulator/src/state.rs, `handle_syscall`.
pub mod Parts
use mips_emulator.Prelude.{ℕ, ◌+◌, ◌-◌, ◌%◌, ◌^◌, ◌<◌, ◌≡◌, refl, arith}
use mips_emulator.Prelude.{true, ◌||◌}
use mips_emulator.Prelude.{◌==◌, ◌++◌}
use mips_emulator.Prelude.{done, ◌>>=◌, after, by_test}
use mips_emulator.Platform.{Platform, Bytes}
use mips_emulator.Word.{max_u32}
use mips_emulator.State.{InstrumentedState}
use mips_emulator.State.Sane.{with_rest-IsSane}
use mips_emulator.Control.{advance, set_register}
use mips_emulator.Control.Sane.{advance-IsSane, set_register-IsSane}
use mips_emulator.Syscall
use mips_emulator.Syscall.Sane.Parts.{
  Sane, Returned, kept, returned, mmap-Returned, copy_out-Sane, read_preimage_word-Returned,
  write_preimage_key-Returned, write_hint-Returned,
}

module _ (platform : Platform) where
  bad_fd-Returned :
      (is : InstrumentedState) {r : Syscall.SyscallState}
      → Sane platform is
      → Syscall.bad_fd is ≡ done r
      → Returned platform r
  bad_fd-Returned is ok e =
      returned platform max_u32 Syscall.mips_ebadf is (omega arith) (omega arith) ok e

  printed :
      (a1 a2 : ℕ) (is : InstrumentedState) (k : Bytes → InstrumentedState → InstrumentedState)
      {r : Syscall.SyscallState}
      → ((bytes : Bytes) (is' : InstrumentedState) → (k bytes is').state ≡ is'.state)
      → a2 < 2 ^ 32
      → Sane platform is
      → (do (bytes, is') ← Syscall.copy_out platform a1 a2 is; Syscall.returns a2 0 (k bytes is'))
        ≡ done r
      → Returned platform r
  printed a1 a2 is k same small ok e =
      after (Syscall.copy_out platform a1 a2 is) _ e λ (bytes, is1) r0 e0.
        returned platform a2 0 (k bytes is1) small (omega arith)
          (stated bytes is1 (copy_out-Sane platform a1 a2 is ok r0)) e0
    where
      stated :
          (bytes : Bytes) (is' : InstrumentedState)
          → Sane platform is'
          → Sane platform (k bytes is')
      stated bytes is' s = rw (same bytes is') s

  syscall_read-Returned :
      (a0 a1 a2 : ℕ) (is : InstrumentedState) {r : Syscall.SyscallState}
      → a1 < 2 ^ 32
      → a2 < 2 ^ 32
      → Sane platform is
      → Syscall.syscall_read platform a0 a1 a2 is ≡ done r
      → Returned platform r
  unfolding Syscall.syscall_read
  syscall_read-Returned a0 a1 a2 is small word ok e =
      by_test (a0 == 0) e (returned platform 0 0 is (omega arith) (omega arith) ok) λ e1.
        by_test (a0 == 5) e1 (read_preimage_word-Returned platform a1 a2 is small ok) λ e2.
          by_test (a0 == 3) e2 (returned platform a2 0 is word (omega arith) ok)
            (bad_fd-Returned is ok)

  syscall_write-Returned :
      (fuel a0 a1 a2 : ℕ) (is : InstrumentedState) {r : Syscall.SyscallState}
      → a2 < 2 ^ 32
      → Sane platform is
      → Syscall.syscall_write platform fuel a0 a1 a2 is ≡ done r
      → Returned platform r
  unfolding Syscall.syscall_write
  syscall_write-Returned fuel a0 a1 a2 is word ok e =
      by_test (a0 == 1) e
        (printed a1 a2 is (λ bytes (x : InstrumentedState). record x { stdout = x.stdout ++ bytes })
          (λ _ _. refl) word ok)
        λ e1.
          by_test (a0 == 2) e1
            (printed a1 a2 is
              (λ bytes (x : InstrumentedState). record x { stderr = x.stderr ++ bytes })
              (λ _ _. refl) word ok)
            λ e2. by_test (a0 == 4) e2 (write_hint-Returned platform fuel a1 a2 is word ok) λ e3.
              by_test (a0 == 6) e3 (write_preimage_key-Returned platform a1 a2 is ok)
                (bad_fd-Returned is ok)

  fcntl-Returned :
      (a0 a1 : ℕ) (is : InstrumentedState) {r : Syscall.SyscallState}
      → Sane platform is
      → Syscall.fcntl platform a0 a1 is ≡ done r
      → Returned platform r
  unfolding Syscall.fcntl
  fcntl-Returned a0 a1 is ok e =
      by_test (a1 == 3) e
        (λ e1.
          by_test (a0 == 0 || a0 == 5 || a0 == 3) e1
            (returned platform 0 0 is (omega arith) (omega arith) ok)
            λ e2.
              by_test (a0 == 1 || a0 == 2 || a0 == 6 || a0 == 4) e2
                (returned platform 1 0 is (omega arith) (omega arith) ok) (bad_fd-Returned is ok))
        (bad_fd-Returned is ok)

  syscall_result-Returned :
      (fuel num : ℕ) (is : InstrumentedState) {r : Syscall.SyscallState}
      → Sane platform is
      → Syscall.syscall_result platform fuel num is ≡ done r
      → Returned platform r
  unfolding Syscall.syscall_result
  syscall_result-Returned fuel num is ok e =
      let a0 = is.state.registers 4 in
      let a1 = is.state.registers 5 in
      let a2 = is.state.registers 6 in
      by_test (num == 4090) e (mmap-Returned platform a0 a1 is (ok.register 4) ok) λ e1.
        by_test (num == 4045) e1 (returned platform 0x4000_0000 0 is (omega arith) (omega arith) ok)
          λ e2.
            by_test (num == 4120) e2 (returned platform 1 0 is (omega arith) (omega arith) ok) λ e3.
              by_test (num == 4003) e3
                (syscall_read-Returned a0 a1 a2 is (ok.register 5) (ok.register 6) ok)
                λ e4.
                  by_test (num == 4004) e4
                    (syscall_write-Returned fuel a0 a1 a2 is (ok.register 6) ok)
                    λ e5.
                      by_test (num == 4055) e5 (fcntl-Returned a0 a1 is ok)
                        (returned platform 0 0 is (omega arith) (omega arith) ok)

  pub handle_syscall-Sane :
      (fuel : ℕ) (is : InstrumentedState) {is' : InstrumentedState}
      → Sane platform is
      → Syscall.handle_syscall platform fuel is ≡ done is'
      → Sane platform is'
  unfolding Syscall.handle_syscall
  handle_syscall-Sane fuel is {is'} ok e =
      let num = is.state.registers 2 in
      by_test (num == 4246) e
        (λ e1.
          kept platform _
            (with_rest-IsSane platform is.state.memory is.state.preimage_key
              is.state.preimage_offset is.state.heap is.state.step true
              (is.state.registers 4 % 2 ^ 8) is.state.last_hint ok.memory ok.preimage_offset ok.heap
              ok.step (omega arith) ok)
            e1)
        λ e1. after (Syscall.syscall_result platform fuel num is) _ e1 λ r r0 e2.
          let (p, q, s) = syscall_result-Returned fuel num is ok r0 in
          after (advance platform (set_register 7 r.v1 (set_register 2 r.v0 r.is.state))) _ e2
            λ s' r1 e3.
              kept platform (record (r.is) { state = s' })
                (advance-IsSane platform
                  (set_register-IsSane platform 7 r.v1 q (set_register-IsSane platform 2 r.v0 p s))
                  r1)
                e3
