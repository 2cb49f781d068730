-- ===== src/Word.antt =====
-- The `u32` and `u64` arithmetic of Rust, as mips-emulator/src uses it: an overflow, and a shift
-- by the width or more, panics where the profile checks for it and wraps where it does not.
pub mod Laws
use mips_emulator.Prelude.{ℕ, zero, suc, ◌+◌, ◌-◌, ◌*◌, ◌/◌, ◌%◌, ◌^◌, []}
use mips_emulator.Prelude.{◌∷◌, Outcome, done, panic, ltb, leb, if◌then◌else◌}
use mips_emulator.Prelude.Int.{ℤ, pos, negsuc}
use mips_emulator.Platform.{Platform, Bytes}

abbrev pub max_u32 : ℕ
max_u32 = 0xffff_ffff

-- `!x` of a `u32`.
unfoldable pub not32 : ℕ → ℕ
not32 x = max_u32 - x

-- `x << k` and `x >> k` for `k` below the width, which never overflow.
abbrev pub shl : ℕ → ℕ → ℕ
shl x k = x * 2 ^ k % 2 ^ 32

abbrev pub shr : ℕ → ℕ → ℕ
shr x k = x / 2 ^ k

-- The number that `x as i32` is.
abbrev pub as_i32 : ℕ → ℤ
as_i32 x = if ltb x (2 ^ 31) then pos x else negsuc (max_u32 - x)

-- `to_be_bytes` of a word of `n` bytes, and the `from_be_bytes` that reads one.
unfoldable pub to_be_bytes : ℕ → ℕ → Bytes
to_be_bytes zero x = []
to_be_bytes (suc n) x = x / 256 ^ n % 256 ∷ to_be_bytes n x

unfoldable pub from_be_bytes : ℕ → Bytes → ℕ
from_be_bytes acc [] = acc
from_be_bytes acc (b ∷ bs) = from_be_bytes (acc * 256 + b) bs

module _ (platform : Platform) where
  -- An overflowed result, cut to 32 bits, or a panic.
  abbrev wrapped : ℕ → Outcome ℕ
  wrapped x = if platform.overflow_checks then panic else done (x % 2 ^ 32)

  unfoldable pub add32 : ℕ → ℕ → Outcome ℕ
  add32 a b = if ltb (a + b) (2 ^ 32) then done (a + b) else wrapped (a + b)

  unfoldable pub sub32 : ℕ → ℕ → Outcome ℕ
  sub32 a b = if leb b a then done (a - b) else wrapped (a + 2 ^ 32 - b)

  -- `x << k` and `x >> k`.
  unfoldable pub shl32 : ℕ → ℕ → Outcome ℕ
  shl32 x k = if ltb k 32 then done (x * 2 ^ k % 2 ^ 32) else wrapped (x * 2 ^ (k % 32))

  unfoldable pub shr32 : ℕ → ℕ → Outcome ℕ
  shr32 x k = if ltb k 32 then done (x / 2 ^ k) else wrapped (x / 2 ^ (k % 32))

  unfoldable pub add64 : ℕ → ℕ → Outcome ℕ
  add64 a b =
      if ltb (a + b) (2 ^ 64)
      then done (a + b)
      else if platform.overflow_checks
      then panic
      else done ((a + b) % 2 ^ 64)

  -- `(a as i64 * b as i64) as u64` of two words: both are non-negative, so only the product can
  -- leave the range of an `i64`.
  unfoldable pub mul_i64 : ℕ → ℕ → Outcome ℕ
  mul_i64 a b =
      if ltb (a * b) (2 ^ 63)
      then done (a * b)
      else if platform.overflow_checks
      then panic
      else done (a * b % 2 ^ 64)
