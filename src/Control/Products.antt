-- ===== src/Control/Products.antt =====
-- What mult and divu leave in hi and lo: mips-emulator/src/state.rs, `handle_hilo`.
use mips_emulator.Prelude.{ℕ, ◌+◌, ◌*◌, ◌%◌, ◌/◌, ◌^◌, ◌<◌, ◌≤◌, ◌≡◌, refl, arith}
use mips_emulator.Prelude.{done, ==_ne, panic, if◌then◌else◌, Bool-cases, inl, inr, ltb}
use mips_emulator.Platform.{Platform}
use mips_emulator.Word.{mul_i64}
use mips_emulator.State.{State}
use mips_emulator.Control.{hilo, div_u32, rem_u32}
use native.Mathlib.Nat.{div-add-mod', mod-lt, mul-le-mul}

module _ (platform : Platform) where
  -- mult of two words does what multu does, also where the words are negative as signed numbers,
  -- except that it panics in a build that checks overflows where the product is 2^63 or more.
  pub mult-multu :
      (rs rt : ℕ) (s : State)
      → rs < 2 ^ 32
      → rt < 2 ^ 32
      → hilo platform 0x18 rs rt s ≡ (
          if ltb (rs * rt) (2 ^ 63)
          then hilo platform 0x19 rs rt s
          else if platform.overflow_checks
          then panic
          else hilo platform 0x19 rs rt s)
  unfolding hilo mul_i64
  mult-multu rs rt s small small' =
      let fits : rs ≤ 0xffff_ffff = omega arith in
      let fits' : rt ≤ 0xffff_ffff = omega arith in
      let product : rs * rt ≤ 0xffff_ffff * 0xffff_ffff = mul-le-mul fits fits' in
      let same : rs * rt % 2 ^ 64 ≡ rs * rt = omega arith in
      elim (Bool-cases (ltb (rs * rt) (2 ^ 63))) [
        | inl e ↦ rw e refl
        | inr e ↦ elim (Bool-cases platform.overflow_checks) [
          | inl checked ↦ rw (e, checked) refl
          | inr unchecked ↦ rw (e, unchecked, same) refl
        ]
      ]

  -- divu by a number above 0 leaves a quotient in lo and a remainder in hi: lo times the divisor
  -- plus hi is the dividend, and hi is below the divisor.
  pub divu_lem :
      (rs rt : ℕ) (s : State)
      → 0 < rt
      → (hi lo : ℕ) × (hilo platform 0x1b rs rt s ≡ done (0, record s { hi = hi; lo = lo }))
        × (lo * rt + hi ≡ rs)
        × (hi < rt)
  unfolding hilo div_u32 rem_u32
  divu_lem rs rt s above =
      (rs % rt, rs / rt, rw (==_ne rt 0 (omega arith)) refl, div-add-mod' rs rt, mod-lt rs above)
