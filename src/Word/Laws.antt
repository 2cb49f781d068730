-- ===== src/Word/Laws.antt =====
-- The operations where they do not overflow, and the range of their results.
use mips_emulator.Prelude.{ℕ, zero, suc, ◌+◌, ◌-◌, ◌*◌, ◌/◌, ◌%◌, ◌^◌, ◌≤◌, ◌<◌, ◌≡◌, refl, arith}
use mips_emulator.Prelude.{done, length}
use mips_emulator.Platform.{Platform}
use mips_emulator.Word.{add32, add64, sub32, shl32, shr32, to_be_bytes, from_be_bytes}

pub length-to_be_bytes : (n x : ℕ) → length (to_be_bytes n x) ≡ n
unfolding to_be_bytes
length-to_be_bytes zero x = refl
length-to_be_bytes (suc n) x = omega (arith, length-to_be_bytes n x)

-- A `u32` is read back from its bytes.
pub from_be_bytes-to_be_bytes : (x : ℕ) → x < 2 ^ 32 → from_be_bytes 0 (to_be_bytes 4 x) ≡ x
unfolding from_be_bytes to_be_bytes
from_be_bytes-to_be_bytes x h = omega arith

module _ (platform : Platform) where
  pub add32-done : (a b : ℕ) → a + b < 2 ^ 32 → add32 platform a b ≡ done (a + b)
  unfolding add32
  add32-done a b h = ground arith

  pub sub32-done : (a b : ℕ) → b ≤ a → sub32 platform a b ≡ done (a - b)
  unfolding sub32
  sub32-done a b h = ground arith

  pub shl32-done : (x k : ℕ) → k < 32 → shl32 platform x k ≡ done (x * 2 ^ k % 2 ^ 32)
  unfolding shl32
  shl32-done x k h = ground arith

  pub shr32-done : (x k : ℕ) → k < 32 → shr32 platform x k ≡ done (x / 2 ^ k)
  unfolding shr32
  shr32-done x k h = ground arith

  pub add32-lt : (a b : ℕ) {r : ℕ} → add32 platform a b ≡ done r → r < 2 ^ 32
  unfolding add32
  add32-lt a b h = ground arith

  pub add64-lt : (a b : ℕ) {r : ℕ} → add64 platform a b ≡ done r → r < 2 ^ 64
  unfolding add64
  add64-lt a b h = ground arith

  pub add64-done : (a b : ℕ) → a + b < 2 ^ 64 → add64 platform a b ≡ done (a + b)
  unfolding add64
  add64-done a b h = ground arith

  pub add64-value : (a b : ℕ) {r : ℕ} → add64 platform a b ≡ done r → r ≡ (a + b) % 2 ^ 64
  unfolding add64
  add64-value a b h = ground arith
