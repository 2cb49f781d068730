-- ===== src/Syscall/Mmap.antt =====
-- What mmap of fresh memory returns: mips-emulator/src/state.rs, `handle_syscall`.
use mips_emulator.Prelude.{ℕ, ◌+◌, ◌-◌, ◌%◌, ◌^◌, ◌≤◌, ◌<◌, ◌≡◌, refl, arith, inl, inr}
use mips_emulator.Prelude.{done, ltb_of_lt, Bool-cases, ◌!=◌}
use mips_emulator.Prelude.Bits.{bit_and_mask}
use mips_emulator.Platform.{Platform}
use mips_emulator.Word.{add32}
use mips_emulator.State.{InstrumentedState}
use mips_emulator.Syscall.{mmap}

module _ (platform : Platform) where
  -- The heap after it grew.
  abbrev pub grown : ℕ → InstrumentedState → InstrumentedState
  grown size is = record is { state = record (is.state) { heap = is.state.heap + size } }

  -- mmap without a hint, where the heap has room below 2^32 for the size and a page more, returns
  -- the heap as it was and moves it up by the size rounded up to a multiple of the page size.
  pub mmap_lem :
      (a1 : ℕ) (is : InstrumentedState)
      → is.state.heap + a1 + 4095 < 2 ^ 32
      → (size : ℕ) × (mmap platform 0 a1 is
          ≡ done (record { is = grown size is; v0 = is.state.heap; v1 = 0 }))
        × (size % 4096 ≡ 0)
        × (a1 ≤ size)
        × (size < a1 + 4096)
  unfolding mmap add32
  mmap_lem a1 is room = elim (Bool-cases (a1 % 4096 != 0)) [
    | inl e ↦
        let up : ℕ = a1 + (4096 - a1 % 4096) in
        (
          up,
          rw
              (
                bit_and_mask 12 a1,
                e,
                ltb_of_lt (a1 + (4096 - a1 % 4096)) (2 ^ 32) (ground arith),
                ltb_of_lt (is.state.heap + (a1 + (4096 - a1 % 4096))) (2 ^ 32) (ground arith),
              )
              refl,
          omega arith,
          omega arith,
          ground arith,
        )
    | inr e ↦ (
      a1,
      rw (bit_and_mask 12 a1, e, ltb_of_lt (is.state.heap + a1) (2 ^ 32) (omega arith)) refl,
      ground arith,
      omega arith,
      omega arith,
    )
  ]
