-- ===== src/Control.antt =====
-- mips-emulator/src/state.rs: the handlers that end an instruction, `handle_branch`, `handle_jump`,
-- `handle_hilo` and `handle_rd`. They use the machine's own state alone.
pub mod Advance
pub mod Products
pub mod Sane
use mips_emulator.Prelude.{ℕ, ◌+◌, ◌-◌, ◌*◌, ◌/◌, ◌%◌, ◌^◌}
use mips_emulator.Prelude.{Bool, false, not, ◌&&◌, ◌||◌}
use mips_emulator.Prelude.{◌==◌, ◌!=◌, ltb, leb, if◌then◌else◌}
use mips_emulator.Prelude.{bit_and}
use mips_emulator.Prelude.{Outcome, done, panic, ◌>>=◌, ◌>>◌, ensure}
use mips_emulator.Prelude.{update}
use mips_emulator.Platform.{Platform}
use mips_emulator.Prelude.Int.{ltb_ℤ, pos}
use mips_emulator.Word.{as_i32, shl, add32, mul_i64}
use mips_emulator.Alu.{sign_extension}
use mips_emulator.State.{State}

abbrev pub set_register : ℕ → ℕ → State → State
set_register reg val s = record s { registers = update s.registers reg val }

-- A quotient or remainder of `i32`s, from its magnitude and sign.
unfoldable pub magnitude : ℕ → ℕ
magnitude x = if ltb x (2 ^ 31) then x else 2 ^ 32 - x

unfoldable pub with_sign : Bool → ℕ → ℕ
with_sign negative x = if negative then (2 ^ 32 - x) % 2 ^ 32 else x

abbrev pub is_negative : ℕ → Bool
is_negative x = leb (2 ^ 31) x

-- Rust's `/` and `%` of `i32`s panic, in every profile, on 0 and on `i32::MIN / -1`.
unfoldable pub can_divide : ℕ → ℕ → Bool
can_divide a b = if b == 0 then false else not (a == 2 ^ 31 && b == 0xffff_ffff)

unfoldable pub div_i32 : ℕ → ℕ → Outcome ℕ
div_i32 a b = do
  ensure (can_divide a b)
  done (
      with_sign (if is_negative a then not (is_negative b) else is_negative b)
        (magnitude a / magnitude b))

unfoldable pub rem_i32 : ℕ → ℕ → Outcome ℕ
rem_i32 a b = do
  ensure (can_divide a b)
  done (with_sign (is_negative a) (magnitude a % magnitude b))

-- Rust's `/` and `%` of `u32`s.
unfoldable pub div_u32 : ℕ → ℕ → Outcome ℕ
div_u32 a b = if b == 0 then panic else done (a / b)

unfoldable pub rem_u32 : ℕ → ℕ → Outcome ℕ
rem_u32 a b = if b == 0 then panic else done (a % b)

unfoldable pub should_branch : ℕ → ℕ → ℕ → ℕ → State → Outcome Bool
should_branch opcode insn rt_reg rs s =
    if opcode == 4 || opcode == 5
    then (let rt = s.registers rt_reg in
        done ((rs == rt && opcode == 4) || (rs != rt && opcode == 5)))
    else if opcode == 6
    then done (not (ltb_ℤ (pos 0) (as_i32 rs)))
    else if opcode == 7
    then done (ltb_ℤ (pos 0) (as_i32 rs))
    else if opcode == 1
    then (let rtv = bit_and (insn / 2 ^ 16) 0x1f in
        if rtv == 0
        then done (ltb_ℤ (as_i32 rs) (pos 0))
        else if rtv == 1
        then done (not (ltb_ℤ (as_i32 rs) (pos 0)))
        else done false)
    else panic

module _ (platform : Platform) where
  -- `pc = next_pc; next_pc = next_pc + 4`.
  unfoldable pub advance : State → Outcome State
  advance s = do
    next ← add32 platform s.next_pc 4
    done (record s { pc = s.next_pc; next_pc = next })

  unfoldable pub handle_branch : ℕ → ℕ → ℕ → ℕ → State → Outcome State
  handle_branch opcode insn rt_reg rs s = do
    taken ← should_branch opcode insn rt_reg rs s
    if taken
        then (do
          offset ← sign_extension platform (bit_and insn 0xffff) 16
          done (record s { pc = s.next_pc; next_pc = (s.pc + 4 + shl offset 2) % 2 ^ 32 }))
        else advance s

  unfoldable pub handle_jump : ℕ → ℕ → State → Outcome State
  handle_jump link_reg dest s =
      let s' = record s { pc = s.next_pc; next_pc = dest } in
      if link_reg != 0
      then (do link ← add32 platform s.pc 8; done (set_register link_reg link s'))
      else done s'

  -- `match fun`: the value for the store register, and the state with `hi` and `lo` set.
  unfoldable pub hilo : ℕ → ℕ → ℕ → State → Outcome (ℕ × State)
  hilo fun rs rt s =
      if fun == 0x10
      then done (s.hi, s)
      else if fun == 0x11
      then done (0, record s { hi = rs })
      else if fun == 0x12
      then done (s.lo, s)
      else if fun == 0x13
      then done (0, record s { lo = rs })
      else if fun == 0x18
      then (do
        acc ← mul_i64 platform rs rt
        done (0, record s { hi = acc / 2 ^ 32; lo = acc % 2 ^ 32 }))
      else if fun == 0x19
      then done (0, record s { hi = rs * rt / 2 ^ 32; lo = rs * rt % 2 ^ 32 })
      else if fun == 0x1a
      then (do hi ← rem_i32 rs rt; lo ← div_i32 rs rt; done (0, record s { hi = hi; lo = lo }))
      else if fun == 0x1b
      then (do hi ← rem_u32 rs rt; lo ← div_u32 rs rt; done (0, record s { hi = hi; lo = lo }))
      else panic

  unfoldable pub handle_hilo : ℕ → ℕ → ℕ → ℕ → State → Outcome State
  handle_hilo fun rs rt store_reg s = do
    (val, s') ← hilo fun rs rt s
    advance (if store_reg != 0 then set_register store_reg val s' else s')

  unfoldable pub handle_rd : ℕ → ℕ → Bool → State → Outcome State
  handle_rd store_reg val conditional s = do
    ensure (ltb store_reg 32)
    advance (if store_reg != 0 && conditional then set_register store_reg val s else s)
