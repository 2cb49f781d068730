-- ===== src/Alu/Words.antt =====
-- Words as four bytes, and `(a & mask) | b` where the mask keeps whole bytes of `a`.
use mips_emulator.Prelude.{ℕ, ◌+◌, ◌-◌, ◌*◌, ◌/◌, ◌%◌, ◌^◌, ◌<◌, ◌≡◌, refl, arith}
use mips_emulator.Prelude.{Bool, true, false, ◌∙◌, ap}
use mips_emulator.Prelude.{if◌then◌else◌}
use mips_emulator.Prelude.{bit_and, bit_or}
use mips_emulator.Prelude.Bits.{
  bit_and_split, bit_or_split, bit_and_mask, bit_and-zero, bit_or-zero, zero-bit_or,
}

-- The byte at offset `k` of a big-endian word.
abbrev pub byte : ℕ → ℕ → ℕ
byte w k = w / 2 ^ (24 - 8 * k) % 256

-- A word of four bytes, the highest first.
abbrev pub word : ℕ → ℕ → ℕ → ℕ → ℕ
word b0 b1 b2 b3 = ((b0 * 2 ^ 8 + b1) * 2 ^ 8 + b2) * 2 ^ 8 + b3

abbrev pub IsByte : ℕ → Type 0
IsByte b = b < 2 ^ 8

bit_and_bytes :
    (a0 a1 a2 a3 b0 b1 b2 b3 : ℕ)
    → IsByte a1
    → IsByte a2
    → IsByte a3
    → IsByte b1
    → IsByte b2
    → IsByte b3
    → bit_and (word a0 a1 a2 a3) (word b0 b1 b2 b3)
      ≡ word (bit_and a0 b0) (bit_and a1 b1) (bit_and a2 b2) (bit_and a3 b3)
bit_and_bytes a0 a1 a2 a3 b0 b1 b2 b3 h1 h2 h3 g1 g2 g3 =
    rw
      (
        bit_and_split 8 ((a0 * 2 ^ 8 + a1) * 2 ^ 8 + a2) a3 ((b0 * 2 ^ 8 + b1) * 2 ^ 8 + b2) b3 h3
            g3,
        bit_and_split 8 (a0 * 2 ^ 8 + a1) a2 (b0 * 2 ^ 8 + b1) b2 h2 g2,
        bit_and_split 8 a0 a1 b0 b1 h1 g1,
      )
      refl

bit_or_bytes :
    (a0 a1 a2 a3 b0 b1 b2 b3 : ℕ)
    → IsByte a1
    → IsByte a2
    → IsByte a3
    → IsByte b1
    → IsByte b2
    → IsByte b3
    → bit_or (word a0 a1 a2 a3) (word b0 b1 b2 b3)
      ≡ word (bit_or a0 b0) (bit_or a1 b1) (bit_or a2 b2) (bit_or a3 b3)
bit_or_bytes a0 a1 a2 a3 b0 b1 b2 b3 h1 h2 h3 g1 g2 g3 =
    rw
      (
        bit_or_split 8 ((a0 * 2 ^ 8 + a1) * 2 ^ 8 + a2) a3 ((b0 * 2 ^ 8 + b1) * 2 ^ 8 + b2) b3 h3
            g3,
        bit_or_split 8 (a0 * 2 ^ 8 + a1) a2 (b0 * 2 ^ 8 + b1) b2 h2 g2,
        bit_or_split 8 a0 a1 b0 b1 h1 g1,
      )
      refl

-- One byte of a mask, and of what is merged in under it.
abbrev pub keep : Bool → ℕ
keep c = if c then 255 else 0

abbrev pub fill : Bool → ℕ → ℕ
fill c b = if c then 0 else b

keep-IsByte : (c : Bool) → IsByte (keep c)
keep-IsByte true = omega arith
keep-IsByte false = omega arith

bit_and-keep : (c : Bool) (a : ℕ) → IsByte a → bit_and a (keep c) ≡ (if c then a else 0)
bit_and-keep true a h = omega (arith, bit_and_mask 8 a)
bit_and-keep false a h = bit_and-zero a

bit_or-fill : (c : Bool) (a b : ℕ) → bit_or (if c then a else 0) (fill c b) ≡ (if c then a else b)
bit_or-fill true a b = bit_or-zero a
bit_or-fill false a b = zero-bit_or b

chosen-IsByte : (c : Bool) (a b : ℕ) → IsByte a → IsByte b → IsByte (if c then a else b)
chosen-IsByte true a b h g = h
chosen-IsByte false a b h g = g

fill-IsByte : (c : Bool) (b : ℕ) → IsByte b → IsByte (fill c b)
fill-IsByte true b h = omega arith
fill-IsByte false b h = h

-- Whole bytes of `a` are kept where the mask has ones, and those of `b` fill the rest.
pub merge :
    (c0 c1 c2 c3 : Bool) (a0 a1 a2 a3 b0 b1 b2 b3 : ℕ)
    → IsByte a0
    → IsByte a1
    → IsByte a2
    → IsByte a3
    → IsByte b1
    → IsByte b2
    → IsByte b3
    → bit_or
        (bit_and (word a0 a1 a2 a3) (word (keep c0) (keep c1) (keep c2) (keep c3)))
        (word (fill c0 b0) (fill c1 b1) (fill c2 b2) (fill c3 b3))
      ≡ word
          (if c0 then a0 else b0)
          (if c1 then a1 else b1)
          (if c2 then a2 else b2)
          (if c3 then a3 else b3)
merge c0 c1 c2 c3 a0 a1 a2 a3 b0 b1 b2 b3 h0 h1 h2 h3 g1 g2 g3 =
    rw
      (
        bit_and_bytes a0 a1 a2 a3 (keep c0) (keep c1) (keep c2) (keep c3) h1 h2 h3 (keep-IsByte c1)
            (keep-IsByte c2) (keep-IsByte c3),
        bit_and-keep c0 a0 h0,
        bit_and-keep c1 a1 h1,
        bit_and-keep c2 a2 h2,
        bit_and-keep c3 a3 h3,
        bit_or_bytes (if c0 then a0 else 0) (if c1 then a1 else 0) (if c2 then a2 else 0)
            (if c3 then a3 else 0) (fill c0 b0) (fill c1 b1) (fill c2 b2) (fill c3 b3)
            (chosen-IsByte c1 a1 0 h1 (omega arith)) (chosen-IsByte c2 a2 0 h2 (omega arith))
            (chosen-IsByte c3 a3 0 h3 (omega arith)) (fill-IsByte c1 b1 g1) (fill-IsByte c2 b2 g2)
            (fill-IsByte c3 b3 g3),
        bit_or-fill c0 a0 b0,
        bit_or-fill c1 a1 b1,
        bit_or-fill c2 a2 b2,
        bit_or-fill c3 a3 b3,
      )
      refl

-- The same for a word given as a number.
pub merge_word :
    (c0 c1 c2 c3 : Bool) (a b0 b1 b2 b3 : ℕ)
    → a < 2 ^ 32
    → IsByte b1
    → IsByte b2
    → IsByte b3
    → bit_or
        (bit_and a (word (keep c0) (keep c1) (keep c2) (keep c3)))
        (word (fill c0 b0) (fill c1 b1) (fill c2 b2) (fill c3 b3))
      ≡ word
          (if c0 then byte a 0 else b0)
          (if c1 then byte a 1 else b1)
          (if c2 then byte a 2 else b2)
          (if c3 then byte a 3 else b3)
merge_word c0 c1 c2 c3 a b0 b1 b2 b3 small g1 g2 g3 =
    let whole : a ≡ word (byte a 0) (byte a 1) (byte a 2) (byte a 3) = omega arith in
    ap
      (λ (x : ℕ).
        bit_or (bit_and x (word (keep c0) (keep c1) (keep c2) (keep c3)))
          (word (fill c0 b0) (fill c1 b1) (fill c2 b2) (fill c3 b3)))
      whole
    ∙ merge c0 c1 c2 c3 (byte a 0) (byte a 1) (byte a 2) (byte a 3) b0 b1 b2 b3 (omega arith)
        (omega arith) (omega arith) (omega arith) g1 g2 g3
