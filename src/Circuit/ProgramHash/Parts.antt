-- ===== src/Circuit/ProgramHash/Parts.antt =====
-- The elements into which the circuit packs the words, and the bits that the emulator hashes.
use mips_emulator.Prelude.{
  ℕ, zero, suc, ◌+◌, ◌*◌, ◌/◌, ◌%◌, ◌^◌, ◌≤◌, ◌<◌, ◌≡◌, refl, arith, ap, sym, ◌∙◌, List, [], ◌∷◌,
  ◌++◌, length, nth, take, length-append, Bool,
}
use mathlib.Core.List.{append-nil}
use mips_emulator.Prelude.{done, bind_done}
use mips_emulator.Platform.{Platform}
use mips_emulator.Program.{index, i2lebsp}
use mips_emulator.Program.Hash.{Hasher, sub_chunks, chunk_bits}
use mips_emulator.Program.Hash.Numbers.{
  AllWords, nth-lt, joined, raised, joined-lt, upper_half, lower_half, sub_chunks_halves,
}
use mips_emulator.Program.Hash.Words.{append_assoc}
use mips_emulator.Circuit.ProgramHash.{
  Pallas, accumulate, high_16_bit, decompose_part, decompose_parts,
}
use mips_emulator.Circuit.ProgramHash.Laws.{IsPallas, bits_of}
use mips_emulator.Circuit.ProgramHash.Digits.{high_16_bit_lem}

-- Elements of 240 bits, as parts of a message.
abbrev pub parts_of : {Base : Type 0} → List Base → List (Base × ℕ)
parts_of [] = []
parts_of (element ∷ elements) = (element, 240) ∷ parts_of elements

pub bits_of-append :
    {Base : Type 0} (hasher : Hasher Base) (xs ys : List Base)
    → bits_of hasher (parts_of (xs ++ ys))
      ≡ bits_of hasher (parts_of xs) ++ bits_of hasher (parts_of ys)
unfolding bits_of
bits_of-append hasher [] ys = refl
bits_of-append hasher (x ∷ xs) ys =
    ap (λ l. take 240 (hasher.to_le_bits x) ++ l) (bits_of-append hasher xs ys)
    ∙ sym (
        append_assoc (take 240 (hasher.to_le_bits x)) (bits_of hasher (parts_of xs))
          (bits_of hasher (parts_of ys)))

-- The elements of the words.
unfoldable pub elements : {Base : Type 0} → Pallas Base → List ℕ → List Base
elements pallas [] = []
elements pallas (w ∷ ws) = pallas.from w ∷ elements pallas ws

module _ {Base : Type 0} (pallas : Pallas Base) where
  pub length-elements : (ws : List ℕ) → length (elements pallas ws) ≡ length ws
  unfolding elements
  length-elements [] = refl
  length-elements (w ∷ ws) = omega (arith, length-elements ws)

  index_elements :
      (ws : List ℕ) (i : ℕ)
      → i < length ws
      → index (elements pallas ws) i ≡ done (pallas.from (nth ws i 0))
  unfolding elements index
  index_elements [] i h = absurd (omega arith)
  index_elements (w ∷ ws) zero h = refl
  index_elements (w ∷ ws) (suc i) h = index_elements ws i (omega arith)

module _ (platform : Platform) {Base : Type 0} (pallas : Pallas Base) (hasher : Hasher Base)
    (laws : IsPallas pallas hasher) where
  -- One round: an element below `b` moves up by a word.
  pushed :
      (v : Base) (w x b : ℕ)
      → laws.value v ≡ x
      → x < b
      → b * 2 ^ 32 ≤ 2 ^ 254
      → w < 2 ^ 32
      → laws.value (pallas.add (pallas.mul v (pallas.from (2 ^ 32))) (pallas.from w))
        ≡ x * 2 ^ 32 + w
  pushed v w x b e small room word =
      let shift = laws.value-from (2 ^ 32) (omega arith) in
      let number = laws.value-from w (omega arith) in
      let same : laws.value v * laws.value (pallas.from (2 ^ 32)) ≡ x * 2 ^ 32 =
        rw (e, shift) refl in
      let product : laws.value (pallas.mul v (pallas.from (2 ^ 32))) ≡ x * 2 ^ 32 =
        laws.value-mul v (pallas.from (2 ^ 32)) (omega (arith, same)) ∙ same in
      omega (
        arith,
        laws.value-add (pallas.mul v (pallas.from (2 ^ 32))) (pallas.from w)
            (omega (arith, product, number)),
        product,
        number,
      )

  accumulate_lem :
      (n from b : ℕ) (v : Base) (ws : List ℕ)
      → from + n ≤ length ws
      → AllWords ws
      → laws.value v < b
      → raised n b ≤ 2 ^ 254
      → (u : Base) × (accumulate platform pallas n from v (elements pallas ws) ≡ done u)
        × (laws.value u ≡ joined n from (laws.value v) ws)
  unfolding accumulate joined raised
  accumulate_lem zero from b v ws h words small room = (v, refl, refl)
  accumulate_lem (suc n) from b v ws h words small room =
      let (u, run, e) = accumulate_lem n from b v ws (omega arith) words small (omega arith) in
      let w = nth ws (from + n) 0 in
      (
        pallas.add (pallas.mul u (pallas.from (2 ^ 32))) (pallas.from w),
        rw (run, index_elements pallas ws (from + n) (omega arith)) refl,
        pushed u w (joined n from (laws.value v) ws) (raised n b) e
            (joined-lt n from (laws.value v) b ws words small) room (nth-lt ws (from + n) words),
      )

  -- The low half of a word.
  low_lem :
      (w : ℕ)
      → w < 2 ^ 32
      → laws.value (
          pallas.sub (pallas.from w) (pallas.mul (pallas.from (w / 2 ^ 16)) (pallas.from (2 ^ 16))))
        ≡ w % 2 ^ 16
  low_lem w word =
      let shift = laws.value-from (2 ^ 16) (omega arith) in
      let number = laws.value-from w (omega arith) in
      let high = laws.value-from (w / 2 ^ 16) (omega arith) in
      let same : laws.value (pallas.from (w / 2 ^ 16)) * laws.value (pallas.from (2 ^ 16))
          ≡ w / 2 ^ 16 * 2 ^ 16 =
        rw (high, shift) refl in
      let product : laws.value (pallas.mul (pallas.from (w / 2 ^ 16)) (pallas.from (2 ^ 16)))
          ≡ w / 2 ^ 16 * 2 ^ 16 =
        laws.value-mul (pallas.from (w / 2 ^ 16)) (pallas.from (2 ^ 16)) (omega (arith, same))
        ∙ same in
      omega (
        arith,
        laws.value-sub (pallas.from w)
            (pallas.mul (pallas.from (w / 2 ^ 16)) (pallas.from (2 ^ 16)))
            (omega (arith, product, number)),
        product,
        number,
      )

  -- The words above, and the low half of the word between.
  upper_lem :
      (first low : Base) (x w : ℕ)
      → laws.value first ≡ x
      → laws.value low ≡ w % 2 ^ 16
      → x < 2 ^ 224
      → laws.value (pallas.add (pallas.mul first (pallas.from (2 ^ 16))) low)
        ≡ x * 2 ^ 16 + w % 2 ^ 16
  upper_lem first low x w e f small =
      let shift = laws.value-from (2 ^ 16) (omega arith) in
      let same : laws.value first * laws.value (pallas.from (2 ^ 16)) ≡ x * 2 ^ 16 =
        rw (e, shift) refl in
      let product : laws.value (pallas.mul first (pallas.from (2 ^ 16))) ≡ x * 2 ^ 16 =
        laws.value-mul first (pallas.from (2 ^ 16)) (omega (arith, same)) ∙ same in
      omega (
        arith,
        laws.value-add (pallas.mul first (pallas.from (2 ^ 16))) low (omega (arith, product, f)),
        product,
        f,
      )

  high_lem :
      (w : ℕ) → w < 2 ^ 32 → high_16_bit platform (pallas.debug (pallas.from w)) ≡ done (w / 2 ^ 16)
  high_lem w word =
      rw (laws.debug_lem (pallas.from w), laws.value-from w (omega arith))
        (high_16_bit_lem platform w word)

  top_lem :
      (high : ℕ) → high < 2 ^ 16 → laws.value (pallas.add (pallas.from 0) (pallas.from high)) ≡ high
  top_lem high small =
      let none = laws.value-from 0 (omega arith) in
      let number = laws.value-from high (omega arith) in
      omega (
        arith,
        laws.value-add (pallas.from 0) (pallas.from high) (omega (arith, none, number)),
        none,
        number,
      )

  decompose_part_lem :
      (r : ℕ) (ws : List ℕ)
      → r + 15 ≤ length ws
      → AllWords ws
      → (a : Base) × (b : Base) × (decompose_part platform pallas r (elements pallas ws)
          ≡ done (a ∷ b ∷ []))
        × (laws.value a ≡ upper_half r ws)
        × (laws.value b ≡ lower_half r ws)
  unfolding decompose_part upper_half lower_half raised
  decompose_part_lem r ws h words =
      let w = nth ws (r + 7) 0 in
      let word = nth-lt ws (r + 7) words in
      let high = w / 2 ^ 16 in
      let small : high < 2 ^ 16 = omega arith in
      let none = laws.value-from 0 (omega arith) in
      let (first, run, e) =
        accumulate_lem 7 r 1 (pallas.from 0) ws (omega arith) words (omega (arith, none))
          (omega arith) in
      let top = top_lem high small in
      let (second, run', e') =
        accumulate_lem 7 (r + 8) (2 ^ 16) (pallas.add (pallas.from 0) (pallas.from high)) ws
          (omega arith) words (omega (arith, top)) (omega arith) in
      let low = pallas.sub (pallas.from w) (pallas.mul (pallas.from high) (pallas.from (2 ^ 16))) in
      let e0 : laws.value first ≡ joined 7 r 0 ws = e ∙ ap (λ (t : ℕ). joined 7 r t ws) none in
      (
        pallas.add (pallas.mul first (pallas.from (2 ^ 16))) low,
        second,
        bind_done (accumulate platform pallas 7 r (pallas.from 0) (elements pallas ws)) _ run
            ∙ (bind_done (index (elements pallas ws) (r + 7)) _
                  (index_elements pallas ws (r + 7) (omega arith))
                ∙ (bind_done (high_16_bit platform (pallas.debug (pallas.from w))) _
                      (high_lem w word)
                    ∙ bind_done
                        (accumulate platform pallas 7 (r + 8)
                          (pallas.add (pallas.from 0) (pallas.from high)) (elements pallas ws))
                        _ run')),
        upper_lem first low (joined 7 r 0 ws) w e0 (low_lem w word)
            (joined-lt 7 r 0 1 ws words (omega arith)),
        e' ∙ ap (λ (t : ℕ). joined 7 (r + 8) t ws) top,
      )

  -- The low bits of an element.
  element_bits :
      (a : Base) (x : ℕ) → laws.value a ≡ x → take 240 (hasher.to_le_bits a) ≡ i2lebsp 240 0 x
  unfolding i2lebsp
  element_bits a x e = rw (laws.to_le_bits_lem a, e) refl

  -- Two elements have the bits that the emulator hashes of their 15 words.
  part_bits :
      (r : ℕ) (ws : List ℕ)
      → r + 15 ≤ length ws
      → AllWords ws
      → (part : List Base) × (decompose_part platform pallas r (elements pallas ws) ≡ done part)
        × (length part ≡ 2)
        × (sub_chunks r ws ≡ done (bits_of hasher (parts_of part)))
  unfolding bits_of
  part_bits r ws h words =
      let (a, b, run, ea, eb) = decompose_part_lem r ws h words in
      let bits : i2lebsp 240 0 (upper_half r ws) ++ i2lebsp 240 0 (lower_half r ws)
          ≡ bits_of hasher (parts_of (a ∷ b ∷ [])) =
        rw (element_bits a (upper_half r ws) ea, element_bits b (lower_half r ws) eb)
          (ap (λ l. i2lebsp 240 0 (upper_half r ws) ++ l) (sym (append-nil _))) in
      (a ∷ b ∷ [], run, refl, sub_chunks_halves r ws h words ∙ ap (λ (l : List Bool). done l) bits)

  pub decompose_parts_lem :
      (n r : ℕ) (ws : List ℕ)
      → r + 15 * n ≤ length ws
      → AllWords ws
      → (parts : List Base) × (decompose_parts platform pallas n r (elements pallas ws)
          ≡ done parts)
        × (length parts ≡ 2 * n)
        × (chunk_bits n r ws ≡ done (bits_of hasher (parts_of parts)))
  unfolding decompose_parts chunk_bits bits_of
  decompose_parts_lem zero r ws h words = ([], refl, refl, refl)
  decompose_parts_lem (suc n) r ws h words =
      let (part, run, size, bits) = part_bits r ws (omega arith) words in
      let (parts, run', size', bits') = decompose_parts_lem n (r + 15) ws (omega arith) words in
      (
        part ++ parts,
        rw (run, run') refl,
        omega (arith, length-append part parts, size, size'),
        rw (bits, bits', bits_of-append hasher part parts) refl,
      )
