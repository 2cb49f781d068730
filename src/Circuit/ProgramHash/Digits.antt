-- ===== src/Circuit/ProgramHash/Digits.antt =====
-- The high half of a word, as the circuit reads it from the text of the element.
use mips_emulator.Prelude.{
  ℕ, ◌+◌, ◌-◌, ◌*◌, ◌/◌, ◌%◌, ◌^◌, ◌<◌, ◌≡◌, arith, ap, ◌∙◌, inl, inr, ltb, if◌then◌else◌,
  Bool-cases, bit_or, List, ◌∷◌,
}
use mips_emulator.Prelude.{done}
use mips_emulator.Prelude.Bits.{bit_or_high_low}
use mips_emulator.Word.{shl}
use mips_emulator.Platform.{Platform}
use mips_emulator.Program.{index}
use mips_emulator.Circuit.ProgramHash.{hex_value, high_bits, high_16_bit}
use mips_emulator.Circuit.ProgramHash.Laws.{hex_digits}

-- The byte of a digit.
abbrev digit : ℕ → ℕ
digit d = if ltb d 10 then b'0' + d else b'a' + (d - 10)

module _ (platform : Platform) where
  hex_value_lem : (d : ℕ) → d < 16 → hex_value platform (digit d) ≡ done d
  unfolding hex_value
  hex_value_lem d h = elim (Bool-cases (ltb d 10)) [
    | inl e ↦ rw e (ground arith)
    | inr e ↦ rw e (ground arith)
  ]

  -- One more digit.
  shifted : (high d : ℕ) → high < 2 ^ 12 → d < 16 → bit_or (shl high 4) d ≡ high * 16 + d
  shifted high d h k =
      let e : shl high 4 ≡ high * 2 ^ 4 = omega arith in rw e (bit_or_high_low 4 high d k)

  high_bits_lem :
      (a b c d : ℕ) (rest : List ℕ)
      → a < 16
      → b < 16
      → c < 16
      → d < 16
      → high_bits platform 4 (digit a ∷ digit b ∷ digit c ∷ digit d ∷ rest)
        ≡ done (((a * 16 + b) * 16 + c) * 16 + d)
  unfolding high_bits index
  high_bits_lem a b c d rest ha hb hc hd =
      rw
        (
          hex_value_lem a ha,
          shifted 0 a (omega arith) ha,
          hex_value_lem b hb,
          shifted (0 * 16 + a) b (omega arith) hb,
          hex_value_lem c hc,
          shifted ((0 * 16 + a) * 16 + b) c (omega arith) hc,
          hex_value_lem d hd,
          shifted (((0 * 16 + a) * 16 + b) * 16 + c) d (omega arith) hd,
        )
        (ap (λ (t : ℕ). done (((t * 16 + b) * 16 + c) * 16 + d)) (omega arith))

  pub high_16_bit_lem :
      (x : ℕ)
      → x < 2 ^ 32
      → high_16_bit platform (b'0' ∷ b'x' ∷ hex_digits 64 x) ≡ done (x / 2 ^ 16)
  unfolding high_16_bit hex_digits
  high_16_bit_lem x h =
      high_bits_lem (x / 16 ^ 7 % 16) (x / 16 ^ 6 % 16) (x / 16 ^ 5 % 16) (x / 16 ^ 4 % 16)
        (hex_digits 4 x) (omega arith) (omega arith) (omega arith) (omega arith)
      ∙ ap (λ (t : ℕ). done t) (omega arith)
