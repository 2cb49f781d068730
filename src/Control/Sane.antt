-- ===== src/Control/Sane.antt =====
-- The handlers that end an instruction keep the state sane: mips-emulator/src/state.rs.
use mips_emulator.Prelude.{ℕ, ◌+◌, ◌*◌, ◌/◌, ◌%◌, ◌^◌, ◌≤◌, ◌<◌, ◌≡◌, arith}
use mips_emulator.Prelude.{Bool, true, false, ◌&&◌, inl, inr, Bool-cases, not}
use mips_emulator.Prelude.{◌==◌, ◌!=◌, ltb, if◌then◌else◌, bit_and, update}
use mips_emulator.Prelude.{Outcome, done, after, ensure, by_test}
use native.Mathlib.Nat.{mul-le-mul, div-le_self, mod-le}
use mips_emulator.Platform.{Platform}
use mips_emulator.Word.{add32, mul_i64, shl}
use mips_emulator.Word.Laws.{add32-lt}
use mips_emulator.Alu.{sign_extension}
use mips_emulator.State.{State}
use mips_emulator.State.Sane.{IsSane, moved-IsSane, with_hilo-IsSane, update-lt}
use mips_emulator.Control.{
  advance, set_register, handle_branch, handle_jump, handle_hilo, handle_rd,
}
use mips_emulator.Control.{
  hilo, div_i32, rem_i32, div_u32, rem_u32, should_branch, with_sign, magnitude, is_negative,
}

product_lt : (a b : ℕ) → a < 2 ^ 32 → b < 2 ^ 32 → a * b < 2 ^ 64
product_lt a b h k =
    let a_max : a ≤ 0xffff_ffff = omega arith in
    let b_max : b ≤ 0xffff_ffff = omega arith in
    let product : a * b ≤ 0xffff_ffff * 0xffff_ffff = mul-le-mul a_max b_max in omega arith

magnitude-lt : (x : ℕ) → x < 2 ^ 32 → magnitude x < 2 ^ 32
unfolding magnitude
magnitude-lt x h = ground arith

with_sign-lt : (b : Bool) (x : ℕ) → x < 2 ^ 32 → with_sign b x < 2 ^ 32
unfolding with_sign
with_sign-lt b x h = ground arith

div_i32-lt : (a b : ℕ) {r : ℕ} → a < 2 ^ 32 → div_i32 a b ≡ done r → r < 2 ^ 32
unfolding div_i32
div_i32-lt a b h e = ground (
  arith,
  with_sign-lt (if is_negative a then not (is_negative b) else is_negative b)
      (magnitude a / magnitude b),
  div-le_self (magnitude a) (magnitude b),
  magnitude-lt a h,
)

rem_i32-lt : (a b : ℕ) {r : ℕ} → a < 2 ^ 32 → rem_i32 a b ≡ done r → r < 2 ^ 32
unfolding rem_i32
rem_i32-lt a b h e = ground (
  arith,
  with_sign-lt (is_negative a) (magnitude a % magnitude b),
  mod-le (magnitude a) (magnitude b),
  magnitude-lt a h,
)

div_u32-lt : (a b : ℕ) {r : ℕ} → a < 2 ^ 32 → div_u32 a b ≡ done r → r < 2 ^ 32
unfolding div_u32
div_u32-lt a b h e = ground (arith, div-le_self a b)

rem_u32-lt : (a b : ℕ) {r : ℕ} → a < 2 ^ 32 → rem_u32 a b ≡ done r → r < 2 ^ 32
unfolding rem_u32
rem_u32-lt a b h e = ground (arith, mod-le a b)

module _ (platform : Platform) where
  pub set_register-IsSane :
      (k v : ℕ) {s : State} → v < 2 ^ 32 → IsSane platform s → IsSane platform (set_register k v s)
  set_register-IsSane k v {s} small ok =
      moved-IsSane platform s.pc s.next_pc (update s.registers k v) ok.pc ok.next_pc
        (λ r. update-lt s.registers k v r small (ok.register r)) ok

  pub advance-IsSane :
      {s s' : State} → IsSane platform s → advance platform s ≡ done s' → IsSane platform s'
  unfolding advance
  advance-IsSane {s} {s'} ok e = after (add32 platform s.next_pc 4) _ e λ next r0 e0.
      let same : record s { pc = s.next_pc; next_pc = next } ≡ s' = cc in
      rw same at (
        moved-IsSane platform s.next_pc next s.registers ok.next_pc
          (add32-lt platform s.next_pc 4 r0) ok.register ok)

  pub handle_rd-IsSane :
      (store_reg val : ℕ) (conditional : Bool) {s s' : State}
      → val < 2 ^ 32
      → IsSane platform s
      → handle_rd platform store_reg val conditional s ≡ done s'
      → IsSane platform s'
  unfolding handle_rd
  handle_rd-IsSane store_reg val conditional {s} {s'} small ok e =
      after (ensure (ltb store_reg 32)) _ e
        λ u r0 e0. advance-IsSane (written (store_reg != 0 && conditional)) e0
    where
      written : (b : Bool) → IsSane platform (if b then set_register store_reg val s else s)
      written true = set_register-IsSane store_reg val small ok
      written false = ok

  pub handle_jump-IsSane :
      (link_reg dest : ℕ) {s s' : State}
      → dest < 2 ^ 32
      → IsSane platform s
      → handle_jump platform link_reg dest s ≡ done s'
      → IsSane platform s'
  unfolding handle_jump
  handle_jump-IsSane link_reg dest {s} {s'} small ok e = elim (Bool-cases (link_reg != 0)) [
    | inl links ↦ after (add32 platform s.pc 8) _ (rw links at e) λ link r0 e0.
        let same : set_register link_reg link jumped ≡ s' = cc in
        rw same at (set_register-IsSane link_reg link (add32-lt platform s.pc 8 r0) there)
    | inr plain ↦ unlinked (rw plain at e)
  ]
    where
      jumped : State
      jumped = record s { pc = s.next_pc; next_pc = dest }

      there : IsSane platform jumped
      there = moved-IsSane platform s.next_pc dest s.registers ok.next_pc small ok.register ok

      unlinked : done jumped ≡ done s' → IsSane platform s'
      unlinked h = let same : jumped ≡ s' = cc in rw same at there

  pub handle_branch-IsSane :
      (opcode insn rt_reg rs : ℕ) {s s' : State}
      → IsSane platform s
      → handle_branch platform opcode insn rt_reg rs s ≡ done s'
      → IsSane platform s'
  unfolding handle_branch
  handle_branch-IsSane opcode insn rt_reg rs {s} {s'} ok e =
      after (should_branch opcode insn rt_reg rs s) _ e λ taken r0 e0. elim (Bool-cases taken) [
        | inl t ↦
            after (sign_extension platform (bit_and insn 0xffff) 16) _ (rw t at e0) λ offset r1 e1.
              let same : record s { pc = s.next_pc; next_pc = (s.pc + 4 + shl offset 2) % 2 ^ 32 }
                  ≡ s' =
                cc in
              rw same at (
                moved-IsSane platform s.next_pc ((s.pc + 4 + shl offset 2) % 2 ^ 32) s.registers
                  ok.next_pc (omega arith) ok.register ok)
        | inr t ↦ advance-IsSane ok (rw t at e0)
      ]

  abbrev Kept : ℕ → State → Type 0
  Kept val s = (val < 2 ^ 32) × IsSane platform s

  -- An arm that ends in a value and a state.
  kept :
      (a : ℕ) (t : State) {val : ℕ} {s' : State}
      → Kept a t
      → ◌≡◌ {A = Outcome (ℕ × State)} (done (a, t)) (done (val, s'))
      → Kept val s'
  kept a t {val} {s'} (p, q) h =
      let value : a ≡ val = cc in let state : t ≡ s' = cc in (rw value at p, rw state at q)

  hilo-IsSane :
      (fun rs rt : ℕ) {s : State} {val : ℕ} {s' : State}
      → rs < 2 ^ 32
      → rt < 2 ^ 32
      → IsSane platform s
      → hilo platform fun rs rt s ≡ done (val, s')
      → Kept val s'
  unfolding hilo mul_i64 div_u32 rem_u32
  hilo-IsSane fun rs rt {s} {val} {s'} h k ok e0 =
      by_test (fun == 0x10) e0 (kept s.hi s (ok.hi, ok)) λ e1.
        by_test (fun == 0x11) e1
          (kept 0 _ (omega arith, with_hilo-IsSane platform rs s.lo h ok.lo ok))
          λ e2. by_test (fun == 0x12) e2 (kept s.lo s (ok.lo, ok)) λ e3.
            by_test (fun == 0x13) e3
              (kept 0 _ (omega arith, with_hilo-IsSane platform s.hi rs ok.hi h ok))
              λ e4.
                by_test (fun == 0x18) e4
                  (λ e5.
                    after (mul_i64 platform rs rt) _ e5
                      λ acc r e6. kept 0 _ (omega arith, parts acc (mul_i64-lt acc r)) e6)
                  λ e5.
                    by_test (fun == 0x19) e5
                      (kept 0 _ (omega arith, parts (rs * rt) (product_lt rs rt h k)))
                      λ e6.
                        by_test (fun == 0x1a) e6
                          (λ e7. after (rem_i32 rs rt) _ e7 λ hi r e8.
                            after (div_i32 rs rt) _ e8 λ lo r' e9.
                              kept 0 _
                                (
                                  omega arith,
                                  with_hilo-IsSane platform hi lo (rem_i32-lt rs rt h r)
                                      (div_i32-lt rs rt h r') ok,
                                )
                                e9)
                          λ e7.
                            by_test (fun == 0x1b) e7
                              (λ e8. after (rem_u32 rs rt) _ e8 λ hi r e9.
                                after (div_u32 rs rt) _ e9 λ lo r' e10.
                                  kept 0 _
                                    (
                                      omega arith,
                                      with_hilo-IsSane platform hi lo (rem_u32-lt rs rt h r)
                                          (div_u32-lt rs rt h r') ok,
                                    )
                                    e10)
                              λ e8. cc
    where
      parts :
          (acc : ℕ)
          → acc < 2 ^ 64
          → IsSane platform (record s { hi = acc / 2 ^ 32; lo = acc % 2 ^ 32 })
      parts acc small =
          with_hilo-IsSane platform (acc / 2 ^ 32) (acc % 2 ^ 32) (omega arith) (omega arith) ok

      mul_i64-lt : (acc : ℕ) → mul_i64 platform rs rt ≡ done acc → acc < 2 ^ 64
      mul_i64-lt acc r = ground arith

  pub handle_hilo-IsSane :
      (fun rs rt store_reg : ℕ) {s s' : State}
      → rs < 2 ^ 32
      → rt < 2 ^ 32
      → IsSane platform s
      → handle_hilo platform fun rs rt store_reg s ≡ done s'
      → IsSane platform s'
  unfolding handle_hilo
  handle_hilo-IsSane fun rs rt store_reg {s} {s'} h k ok e =
      after (hilo platform fun rs rt s) _ e λ (val, s1) r0 e0.
        advance-IsSane (written s1 val (hilo-IsSane fun rs rt h k ok r0) (store_reg != 0)) e0
    where
      written :
          (s1 : State) (val : ℕ)
          → Kept val s1
          → (b : Bool) → IsSane platform (if b then set_register store_reg val s1 else s1)
      written s1 val (small, sane) true = set_register-IsSane store_reg val small sane
      written s1 val (small, sane) false = sane
