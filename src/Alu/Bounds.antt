-- ===== src/Alu/Bounds.antt =====
-- The results of `execute` are words: mips-emulator/src/state.rs.
use mips_emulator.Prelude.{ℕ, zero, suc, ◌+◌, ◌-◌, ◌*◌, ◌/◌, ◌^◌, ◌≤◌, ◌<◌, ◌≡◌, arith}
use mips_emulator.Prelude.{◌&&◌}
use mips_emulator.Prelude.{◌==◌, ltb, leb, if◌then◌else◌, bit_and, bit_or, bit_xor}
use mips_emulator.Prelude.{done, ◌>>=◌, after}
use mips_emulator.Prelude.Bits.{bit_and-le, bit_or-lt, bit_xor-lt}
use native.Mathlib.Nat.{div-le_self}
use mips_emulator.Platform.{Platform}
use mips_emulator.Word.{not32, shl, shr, sub32, shl32, shr32}
use mips_emulator.Alu.{execute, execute_low, execute_load, execute_store, execute_special}
use mips_emulator.Alu.{execute_special2, execute_arith, arith_fun, count_ones, sign_extension}

and_small : (a b : ℕ) → a < 2 ^ 32 → bit_and a b < 2 ^ 32
and_small a b h = omega (arith, bit_and-le a a b)

merge_small : (a m v : ℕ) → a < 2 ^ 32 → v < 2 ^ 32 → bit_or (bit_and a m) v < 2 ^ 32
merge_small a m v h k = bit_or-lt 32 (bit_and a m) v (and_small a m h) k

shr_small : (a k : ℕ) → a < 2 ^ 32 → a / 2 ^ k < 2 ^ 32
shr_small a k h = omega (arith, div-le_self a (2 ^ k))

module _ (platform : Platform) where
  shr32-lt : (x k : ℕ) {r : ℕ} → x < 2 ^ 32 → shr32 platform x k ≡ done r → r < 2 ^ 32
  unfolding shr32
  shr32-lt x k h e = ground (arith, shr_small x k)

  shl32-lt : (x k : ℕ) {r : ℕ} → shl32 platform x k ≡ done r → r < 2 ^ 32
  unfolding shl32
  shl32-lt x k e = ground arith

  pub sign_extension-lt :
      (dat idx : ℕ) {r : ℕ} → dat < 2 ^ 32 → sign_extension platform dat idx ≡ done r → r < 2 ^ 32
  unfolding sign_extension
  sign_extension-lt dat idx h e = after (sub32 platform idx 1) _ e λ top r0 e0.
      after (shr32 platform dat top) _ e0 λ high r1 e1.
        after (sub32 platform 32 idx) _ e1 λ width r2 e2.
          after (shl32 platform 1 width) _ e2 λ ones r3 e3.
            after (sub32 platform ones 1) _ e3 λ below r4 e4.
              after (shl32 platform below idx) _ e4 λ signed r5 e5.
                after (shl32 platform 1 idx) _ e5 λ bit r6 e6.
                  after (sub32 platform bit 1) _ e6 λ mask r7 e7. ground (
                    arith,
                    merge_small dat mask signed h,
                    and_small dat mask h,
                    shl32-lt below idx r5,
                  )

execute_arith-lt :
    (fun rs rt : ℕ) {r : ℕ}
    → rs < 2 ^ 32
    → rt < 2 ^ 32
    → execute_arith fun rs rt ≡ done r
    → r < 2 ^ 32
unfolding execute_arith not32
execute_arith-lt fun rs rt h k e =
    ground (arith, and_small rs rt h, bit_or-lt 32 rs rt h k, bit_xor-lt 32 rs rt h k)

count_ones-le : (fuel rs i : ℕ) {r : ℕ} → count_ones fuel rs i ≡ done r → r ≤ i + fuel
unfolding count_ones
count_ones-le zero rs i e = cc
count_ones-le (suc fuel) rs i {r} e = ground (arith, count_ones-le fuel (shl rs 1) (i + 1) {r = r})

execute_load-lt :
    (platform : Platform) (opcode rs rt mem : ℕ) {r : ℕ}
    → rt < 2 ^ 32
    → mem < 2 ^ 32
    → execute_load (sign_extension platform) opcode rs rt mem ≡ done r
    → r < 2 ^ 32
unfolding execute_load
execute_load-lt platform opcode rs rt mem {r} h k e = ground (
  arith,
  bit_and-le (shr mem (24 - bit_and rs 3 * 8)) (shr mem (24 - bit_and rs 3 * 8)) 0xff,
  bit_and-le (shr mem (16 - bit_and rs 2 * 8)) (shr mem (16 - bit_and rs 2 * 8)) 0xffff,
  shr_small mem (24 - bit_and rs 3 * 8),
  shr_small mem (16 - bit_and rs 2 * 8),
  sign_extension-lt platform (bit_and (shr mem (24 - bit_and rs 3 * 8)) 0xff) 8 {r = r},
  sign_extension-lt platform (bit_and (shr mem (16 - bit_and rs 2 * 8)) 0xffff) 16 {r = r},
  merge_small rt (not32 (shl 0xffff_ffff (bit_and rs 3 * 8))) (shl mem (bit_and rs 3 * 8)),
  merge_small rt (not32 (shr 0xffff_ffff (24 - bit_and rs 3 * 8)))
      (shr mem (24 - bit_and rs 3 * 8)),
)

execute_store-lt :
    (opcode rs rt mem : ℕ) {r : ℕ}
    → rt < 2 ^ 32
    → mem < 2 ^ 32
    → execute_store opcode rs rt mem ≡ done r
    → r < 2 ^ 32
unfolding execute_store
execute_store-lt opcode rs rt mem h k e = ground (
  arith,
  merge_small mem (bit_xor 0xffff_ffff (shl 0xff (24 - bit_and rs 3 * 8)))
      (shl (bit_and rt 0xff) (24 - bit_and rs 3 * 8)),
  merge_small mem (bit_xor 0xffff_ffff (shl 0xffff (16 - bit_and rs 2 * 8)))
      (shl (bit_and rt 0xffff) (16 - bit_and rs 2 * 8)),
  merge_small mem (not32 (shr 0xffff_ffff (bit_and rs 3 * 8))) (shr rt (bit_and rs 3 * 8)),
  merge_small mem (not32 (shl 0xffff_ffff (24 - bit_and rs 3 * 8)))
      (shl rt (24 - bit_and rs 3 * 8)),
  shr_small rt (bit_and rs 3 * 8),
)

module _ (platform : Platform) where
  by_register :
      (rs rt : ℕ) {r : ℕ}
      → rt < 2 ^ 32
      → (do
        shifted ← shr32 platform rt rs
        width ← sub32 platform 32 rs
        sign_extension platform shifted width)
        ≡ done r
      → r < 2 ^ 32
  by_register rs rt k e = after (shr32 platform rt rs) _ e λ shifted r0 e0.
      after (sub32 platform 32 rs) _ e0
        λ width r1 e1. sign_extension-lt platform shifted width (shr32-lt platform rt rs k r0) e1

  execute_special-lt :
      (fun shamt rs rt : ℕ) {r : ℕ}
      → rs < 2 ^ 32
      → rt < 2 ^ 32
      → execute_special platform fun shamt rs rt ≡ done r
      → r < 2 ^ 32
  unfolding execute_special
  execute_special-lt fun shamt rs rt {r} h k e = ground (
    arith,
    execute_arith-lt fun rs rt {r = r},
    shr_small rt shamt,
    shr_small rt (bit_and rs 0x1f),
    sign_extension-lt platform (shr rt shamt) (32 - shamt) {r = r},
    by_register rs rt {r = r},
  )

  execute_special2-lt :
      (fun rs rt : ℕ) {r : ℕ}
      → rs < 2 ^ 32
      → execute_special2 platform fun rs rt ≡ done r
      → r < 2 ^ 32
  unfolding execute_special2
  execute_special2-lt fun rs rt {r} h e =
      ground (arith, count_ones-le 33 (if fun == 0x20 then not32 rs else rs) 0 {r = r})

  execute_low-lt :
      (opcode fun shamt rs rt : ℕ) {r : ℕ}
      → rs < 2 ^ 32
      → rt < 2 ^ 32
      → execute_low platform opcode fun shamt rs rt ≡ done r
      → r < 2 ^ 32
  unfolding execute_low
  execute_low-lt opcode fun shamt rs rt {r} h k e =
      ground
        (arith, execute_special-lt fun shamt rs rt {r = r}, execute_special2-lt fun rs rt {r = r})

  -- Where `execute` of words below 2^32 returns, for any opcode and function code, the result is
  -- below 2^32.
  pub execute-lt :
      (insn rs rt mem : ℕ) {r : ℕ}
      → rs < 2 ^ 32
      → rt < 2 ^ 32
      → mem < 2 ^ 32
      → execute platform insn rs rt mem ≡ done r
      → r < 2 ^ 32
  unfolding execute
  execute-lt insn rs rt mem {r} h k l e = ground (
    arith,
    execute_low-lt (if leb 8 (insn / 2 ^ 26) && ltb (insn / 2 ^ 26) 0xf then 0 else insn / 2 ^ 26)
        (if leb 8 (insn / 2 ^ 26) && ltb (insn / 2 ^ 26) 0xf
          then arith_fun (insn / 2 ^ 26) (bit_and insn 0x3f)
          else bit_and insn 0x3f)
        (bit_and (insn / 2 ^ 6) 0x1f) rs rt {r = r},
    execute_load-lt platform (insn / 2 ^ 26) rs rt mem {r = r},
    execute_store-lt (insn / 2 ^ 26) rs rt mem {r = r},
  )
