-- ===== src/Alu.antt =====
-- mips-emulator/src/state.rs: `execute`, the arithmetic of one instruction, and `sign_extension`.
-- The two are one function each in the source; here each arm of `execute` is one of its own.
pub mod SignExtension
pub mod Shifts
pub mod Counts
pub mod Words
pub mod Partial
pub mod Bounds
use mips_emulator.Prelude.{ℕ, zero, suc, ◌+◌, ◌-◌, ◌*◌, ◌/◌, ◌%◌, ◌^◌}
use mips_emulator.Prelude.{Bool, ◌&&◌, ◌||◌}
use mips_emulator.Prelude.{◌==◌, ◌!=◌, ltb, leb, if◌then◌else◌}
use mips_emulator.Prelude.{bit_and, bit_or, bit_xor}
use mips_emulator.Prelude.{Outcome, done, panic, out_of_fuel, ◌>>=◌, ◌>>◌}
use mips_emulator.Platform.{Platform}
use mips_emulator.Prelude.Int.{ltb_ℤ}
use mips_emulator.Word.{not32, as_i32, shl, shr, sub32, shl32, shr32, mul_i64}

-- `(a as i32) < (b as i32)`.
abbrev pub lt_i32 : ℕ → ℕ → Bool
lt_i32 a b = ltb_ℤ (as_i32 a) (as_i32 b)

-- The function code of the R-type instruction that an immediate one acts as.
unfoldable pub arith_fun : ℕ → ℕ → ℕ
arith_fun opcode fun =
    if opcode == 8
    then 0x20
    else if opcode == 9
    then 0x21
    else if opcode == 0xa
    then 0x2a
    else if opcode == 0xb
    then 0x2b
    else if opcode == 0xc
    then 0x24
    else if opcode == 0xd
    then 0x25
    else if opcode == 0xe
    then 0x26
    else fun

-- `match fun` of the R-type arithmetic; a code with no arm falls through to the final panic.
unfoldable pub execute_arith : ℕ → ℕ → ℕ → Outcome ℕ
execute_arith fun rs rt =
    if fun == 0x20 || fun == 0x21
    then done ((rs + rt) % 2 ^ 32)
    else if fun == 0x22 || fun == 0x23
    then done ((rs + 2 ^ 32 - rt) % 2 ^ 32)
    else if fun == 0x24
    then done (bit_and rs rt)
    else if fun == 0x25
    then done (bit_or rs rt)
    else if fun == 0x26
    then done (bit_xor rs rt)
    else if fun == 0x27
    then done (not32 (bit_or rs rt))
    else if fun == 0x2a
    then done (if lt_i32 rs rt then 1 else 0)
    else if fun == 0x2b
    then done (if ltb rs rt then 1 else 0)
    else panic

-- `while rs & 0x80000000 != 0 { rs <<= 1; i += 1; }`.
unfoldable pub count_ones : ℕ → ℕ → ℕ → Outcome ℕ
count_ones zero rs i = out_of_fuel
count_ones (suc fuel) rs i =
    let rest = count_ones fuel (shl rs 1) (i + 1) in
    if bit_and rs 0x8000_0000 != 0 then rest else done i

-- Opcodes 0x20 to 0x27.
unfoldable pub execute_load : (ℕ → ℕ → Outcome ℕ) → ℕ → ℕ → ℕ → ℕ → Outcome ℕ
execute_load sign_extension opcode rs rt mem =
    if opcode == 0x20
    then sign_extension (bit_and (shr mem (24 - bit_and rs 3 * 8)) 0xff) 8
    else if opcode == 0x21
    then sign_extension (bit_and (shr mem (16 - bit_and rs 2 * 8)) 0xffff) 16
    else if opcode == 0x22
    then (let val = shl mem (bit_and rs 3 * 8) in
        let mask = shl 0xffff_ffff (bit_and rs 3 * 8) in
        done (bit_or (bit_and rt (not32 mask)) val))
    else if opcode == 0x23
    then done mem
    else if opcode == 0x24
    then done (bit_and (shr mem (24 - bit_and rs 3 * 8)) 0xff)
    else if opcode == 0x25
    then done (bit_and (shr mem (16 - bit_and rs 2 * 8)) 0xffff)
    else if opcode == 0x26
    then (let val = shr mem (24 - bit_and rs 3 * 8) in
        let mask = shr 0xffff_ffff (24 - bit_and rs 3 * 8) in
        done (bit_or (bit_and rt (not32 mask)) val))
    else panic

-- Opcodes from 0x28 on.
unfoldable pub execute_store : ℕ → ℕ → ℕ → ℕ → Outcome ℕ
execute_store opcode rs rt mem =
    if opcode == 0x28
    then (let val = shl (bit_and rt 0xff) (24 - bit_and rs 3 * 8) in
        let mask = bit_xor 0xffff_ffff (shl 0xff (24 - bit_and rs 3 * 8)) in
        done (bit_or (bit_and mem mask) val))
    else if opcode == 0x29
    then (let val = shl (bit_and rt 0xffff) (16 - bit_and rs 2 * 8) in
        let mask = bit_xor 0xffff_ffff (shl 0xffff (16 - bit_and rs 2 * 8)) in
        done (bit_or (bit_and mem mask) val))
    else if opcode == 0x2a
    then (let val = shr rt (bit_and rs 3 * 8) in
        let mask = shr 0xffff_ffff (bit_and rs 3 * 8) in
        done (bit_or (bit_and mem (not32 mask)) val))
    else if opcode == 0x2b
    then done rt
    else if opcode == 0x2e
    then (let val = shl rt (24 - bit_and rs 3 * 8) in
        let mask = shl 0xffff_ffff (24 - bit_and rs 3 * 8) in
        done (bit_or (bit_and mem (not32 mask)) val))
    else if opcode == 0x30
    then done mem
    else if opcode == 0x38
    then done rt
    else panic

module _ (platform : Platform) where
  unfoldable pub sign_extension : ℕ → ℕ → Outcome ℕ
  sign_extension dat idx = do
    top ← sub32 platform idx 1
    high ← shr32 platform dat top
    width ← sub32 platform 32 idx
    ones ← shl32 platform 1 width
    ones_below ← sub32 platform ones 1
    signed ← shl32 platform ones_below idx
    bit ← shl32 platform 1 idx
    mask ← sub32 platform bit 1
    done (if high != 0 then bit_or (bit_and dat mask) signed else bit_and dat mask)

  -- The arm for opcode SPECIAL.
  unfoldable pub execute_special : ℕ → ℕ → ℕ → ℕ → Outcome ℕ
  execute_special fun shamt rs rt =
      if ltb fun 0x20
      then (if leb 8 fun
          then done rs
          else if fun == 0
          then done (shl rt shamt)
          else if fun == 2
          then done (shr rt shamt)
          else if fun == 3
          then sign_extension (shr rt shamt) (32 - shamt)
          else if fun == 4
          then done (shl rt (bit_and rs 0x1f))
          else if fun == 6
          then done (shr rt (bit_and rs 0x1f))
          else if fun == 7
          then (do
            shifted ← shr32 platform rt rs
            width ← sub32 platform 32 rs
            sign_extension shifted width)
          else execute_arith fun rs rt)
      else execute_arith fun rs rt

  -- The arm for SPECIAL2.
  unfoldable pub execute_special2 : ℕ → ℕ → ℕ → Outcome ℕ
  execute_special2 fun rs rt =
      if fun == 2
      then (do product ← mul_i64 platform rs rt; done (product % 2 ^ 32))
      else if fun == 0x20 || fun == 0x21
      then count_ones 33 (if fun == 0x20 then not32 rs else rs) 0
      else panic

  unfoldable pub execute_low : ℕ → ℕ → ℕ → ℕ → ℕ → Outcome ℕ
  execute_low opcode fun shamt rs rt =
      if opcode == 0
      then execute_special fun shamt rs rt
      else if opcode == 0xf
      then done (shl rt 16)
      else if opcode == 0x1c
      then execute_special2 fun rs rt
      else panic

  -- The whole of `execute`.
  unfoldable pub execute : ℕ → ℕ → ℕ → ℕ → Outcome ℕ
  execute insn rs rt mem =
      let opcode = insn / 2 ^ 26 in
      let fun = bit_and insn 0x3f in
      let immediate = leb 8 opcode && ltb opcode 0xf in
      if ltb opcode 0x20
      then execute_low (if immediate then 0 else opcode)
          (if immediate then arith_fun opcode fun else fun) (bit_and (insn / 2 ^ 6) 0x1f) rs rt
      else if ltb opcode 0x28
      then execute_load sign_extension opcode rs rt mem
      else execute_store opcode rs rt mem
