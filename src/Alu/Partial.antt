-- ===== src/Alu/Partial.antt =====
-- The loads and stores of parts of a word, byte by byte.
use mips_emulator.Prelude.{ℕ, ◌+◌, ◌-◌, ◌%◌, ◌^◌, ◌<◌, ◌≡◌, arith}
use mips_emulator.Prelude.{Bool, true, false, ◌⊎◌, inl, inr, ap}
use mips_emulator.Prelude.{◌==◌, ltb, leb, if◌then◌else◌}
use mips_emulator.Prelude.{bit_and, bit_or}
use mips_emulator.Prelude.{Outcome, done}
use mips_emulator.Prelude.Bits.{bit_and_mask}
use mips_emulator.Word.{not32}
use mips_emulator.Alu.{execute_load, execute_store}
use mips_emulator.Alu.Words.{byte, word, IsByte, merge_word, fill, keep}

-- The word with the given bytes, from the highest.
abbrev pub from_bytes : (ℕ → ℕ) → ℕ
from_bytes f = word (f 0) (f 1) (f 2) (f 3)

mod_four : (a : ℕ) → (a % 4 ≡ 0) ⊎ (a % 4 ≡ 1) ⊎ (a % 4 ≡ 2) ⊎ (a % 4 ≡ 3)
mod_four a = ground arith

low_two : (a : ℕ) → bit_and a 3 ≡ a % 4
low_two a = bit_and_mask 2 a

-- A merge whose filling is given as a number.
merged :
    (c0 c1 c2 c3 : Bool) (a b0 b1 b2 b3 val : ℕ)
    → a < 2 ^ 32
    → (IsByte b1 × IsByte b2 × IsByte b3)
    → val ≡ word (fill c0 b0) (fill c1 b1) (fill c2 b2) (fill c3 b3)
    → bit_or (bit_and a (word (keep c0) (keep c1) (keep c2) (keep c3))) val
      ≡ word
          (if c0 then byte a 0 else b0)
          (if c1 then byte a 1 else b1)
          (if c2 then byte a 2 else b2)
          (if c3 then byte a 3 else b3)
merged c0 c1 c2 c3 a b0 b1 b2 b3 val small (g1, g2, g3) e =
    rw e (merge_word c0 c1 c2 c3 a b0 b1 b2 b3 small g1 g2 g3)

-- sb of words replaces the byte of the memory's word at the address by the low byte of the
-- register.
pub sb_lem :
    (rs rt mem : ℕ)
    → rt < 2 ^ 32
    → mem < 2 ^ 32
    → execute_store 0x28 rs rt mem
      ≡ done (from_bytes (λ k. if k == rs % 4 then rt % 256 else byte mem k))
unfolding execute_store not32
sb_lem rs rt mem rt_small mem_small = elim (mod_four rs) [
  | inl e ↦
      rw (low_two rs, e)
        (ap (λ (x : ℕ). done x)
          (merged false true true true mem (rt % 256) 0 0 0 _ mem_small
            (omega arith, omega arith, omega arith) (omega (arith, bit_and_mask 8 rt))))
  | inr (inl e) ↦
      rw (low_two rs, e)
        (ap (λ (x : ℕ). done x)
          (merged true false true true mem 0 (rt % 256) 0 0 _ mem_small
            (omega arith, omega arith, omega arith) (omega (arith, bit_and_mask 8 rt))))
  | inr (inr (inl e)) ↦
      rw (low_two rs, e)
        (ap (λ (x : ℕ). done x)
          (merged true true false true mem 0 0 (rt % 256) 0 _ mem_small
            (omega arith, omega arith, omega arith) (omega (arith, bit_and_mask 8 rt))))
  | inr (inr (inr e)) ↦
      rw (low_two rs, e)
        (ap (λ (x : ℕ). done x)
          (merged true true true false mem 0 0 0 (rt % 256) _ mem_small
            (omega arith, omega arith, omega arith) (omega (arith, bit_and_mask 8 rt))))
]

-- swl of words replaces the bytes from the address to the end of the memory's word by the high
-- bytes of the register.
pub swl_lem :
    (rs rt mem : ℕ)
    → rt < 2 ^ 32
    → mem < 2 ^ 32
    → execute_store 0x2a rs rt mem
      ≡ done (from_bytes (λ k. if ltb k (rs % 4) then byte mem k else byte rt (k - rs % 4)))
unfolding execute_store not32
swl_lem rs rt mem rt_small mem_small = elim (mod_four rs) [
  | inl e ↦
      rw (low_two rs, e)
        (ap (λ (x : ℕ). done x)
          (merged false false false false mem (byte rt 0) (byte rt 1) (byte rt 2) (byte rt 3) _
            mem_small (omega arith, omega arith, omega arith) (omega (arith, bit_and_mask 8 rt))))
  | inr (inl e) ↦
      rw (low_two rs, e)
        (ap (λ (x : ℕ). done x)
          (merged true false false false mem 0 (byte rt 0) (byte rt 1) (byte rt 2) _ mem_small
            (omega arith, omega arith, omega arith) (omega (arith, bit_and_mask 8 rt))))
  | inr (inr (inl e)) ↦
      rw (low_two rs, e)
        (ap (λ (x : ℕ). done x)
          (merged true true false false mem 0 0 (byte rt 0) (byte rt 1) _ mem_small
            (omega arith, omega arith, omega arith) (omega (arith, bit_and_mask 8 rt))))
  | inr (inr (inr e)) ↦
      rw (low_two rs, e)
        (ap (λ (x : ℕ). done x)
          (merged true true true false mem 0 0 0 (byte rt 0) _ mem_small
            (omega arith, omega arith, omega arith) (omega (arith, bit_and_mask 8 rt))))
]

-- swr of words replaces the bytes from the start of the memory's word to the address by the low
-- bytes of the register.
pub swr_lem :
    (rs rt mem : ℕ)
    → rt < 2 ^ 32
    → mem < 2 ^ 32
    → execute_store 0x2e rs rt mem
      ≡ done (from_bytes (λ k. if leb k (rs % 4) then byte rt (k + 3 - rs % 4) else byte mem k))
unfolding execute_store not32
swr_lem rs rt mem rt_small mem_small = elim (mod_four rs) [
  | inl e ↦
      rw (low_two rs, e)
        (ap (λ (x : ℕ). done x)
          (merged false true true true mem (byte rt 3) 0 0 0 _ mem_small
            (omega arith, omega arith, omega arith) (omega (arith, bit_and_mask 8 rt))))
  | inr (inl e) ↦
      rw (low_two rs, e)
        (ap (λ (x : ℕ). done x)
          (merged false false true true mem (byte rt 2) (byte rt 3) 0 0 _ mem_small
            (omega arith, omega arith, omega arith) (omega (arith, bit_and_mask 8 rt))))
  | inr (inr (inl e)) ↦
      rw (low_two rs, e)
        (ap (λ (x : ℕ). done x)
          (merged false false false true mem (byte rt 1) (byte rt 2) (byte rt 3) 0 _ mem_small
            (omega arith, omega arith, omega arith) (omega (arith, bit_and_mask 8 rt))))
  | inr (inr (inr e)) ↦
      rw (low_two rs, e)
        (ap (λ (x : ℕ). done x)
          (merged false false false false mem (byte rt 0) (byte rt 1) (byte rt 2) (byte rt 3) _
            mem_small (omega arith, omega arith, omega arith) (omega (arith, bit_and_mask 8 rt))))
]

-- lwl of words loads the bytes from the address to the end of the memory's word into the high bytes
-- of the register, and keeps the others.
pub lwl_lem :
    (sign_extension : ℕ → ℕ → Outcome ℕ) (rs rt mem : ℕ)
    → rt < 2 ^ 32
    → mem < 2 ^ 32
    → execute_load sign_extension 0x22 rs rt mem
      ≡ done (from_bytes (λ k. if ltb (k + rs % 4) 4 then byte mem (k + rs % 4) else byte rt k))
unfolding execute_load not32
lwl_lem sign_extension rs rt mem rt_small mem_small = elim (mod_four rs) [
  | inl e ↦
      rw (low_two rs, e)
        (ap (λ (x : ℕ). done x)
          (merged false false false false rt (byte mem 0) (byte mem 1) (byte mem 2) (byte mem 3) _
            rt_small (omega arith, omega arith, omega arith) (omega (arith, bit_and_mask 8 rt))))
  | inr (inl e) ↦
      rw (low_two rs, e)
        (ap (λ (x : ℕ). done x)
          (merged false false false true rt (byte mem 1) (byte mem 2) (byte mem 3) 0 _ rt_small
            (omega arith, omega arith, omega arith) (omega (arith, bit_and_mask 8 rt))))
  | inr (inr (inl e)) ↦
      rw (low_two rs, e)
        (ap (λ (x : ℕ). done x)
          (merged false false true true rt (byte mem 2) (byte mem 3) 0 0 _ rt_small
            (omega arith, omega arith, omega arith) (omega (arith, bit_and_mask 8 rt))))
  | inr (inr (inr e)) ↦
      rw (low_two rs, e)
        (ap (λ (x : ℕ). done x)
          (merged false true true true rt (byte mem 3) 0 0 0 _ rt_small
            (omega arith, omega arith, omega arith) (omega (arith, bit_and_mask 8 rt))))
]

-- lwr of words loads the bytes from the start of the memory's word to the address into the low
-- bytes of the register, and keeps the others.
pub lwr_lem :
    (sign_extension : ℕ → ℕ → Outcome ℕ) (rs rt mem : ℕ)
    → rt < 2 ^ 32
    → mem < 2 ^ 32
    → execute_load sign_extension 0x26 rs rt mem
      ≡ done
          (from_bytes (λ k. if leb (3 - rs % 4) k then byte mem (k - (3 - rs % 4)) else byte rt k))
unfolding execute_load not32
lwr_lem sign_extension rs rt mem rt_small mem_small = elim (mod_four rs) [
  | inl e ↦
      rw (low_two rs, e)
        (ap (λ (x : ℕ). done x)
          (merged true true true false rt 0 0 0 (byte mem 0) _ rt_small
            (omega arith, omega arith, omega arith) (omega (arith, bit_and_mask 8 rt))))
  | inr (inl e) ↦
      rw (low_two rs, e)
        (ap (λ (x : ℕ). done x)
          (merged true true false false rt 0 0 (byte mem 0) (byte mem 1) _ rt_small
            (omega arith, omega arith, omega arith) (omega (arith, bit_and_mask 8 rt))))
  | inr (inr (inl e)) ↦
      rw (low_two rs, e)
        (ap (λ (x : ℕ). done x)
          (merged true false false false rt 0 (byte mem 0) (byte mem 1) (byte mem 2) _ rt_small
            (omega arith, omega arith, omega arith) (omega (arith, bit_and_mask 8 rt))))
  | inr (inr (inr e)) ↦
      rw (low_two rs, e)
        (ap (λ (x : ℕ). done x)
          (merged false false false false rt (byte mem 0) (byte mem 1) (byte mem 2) (byte mem 3) _
            rt_small (omega arith, omega arith, omega arith) (omega (arith, bit_and_mask 8 rt))))
]
