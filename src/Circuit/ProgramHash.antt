-- ===== src/Circuit/ProgramHash.antt =====
-- zkmips-circuits/src/program.rs: `calculate_final_hash`, the hash of the program in the circuit,
-- in the pass in which its values are known. The field `pallas::Base` is a parameter.
pub mod Laws
pub mod Digits
pub mod Parts
pub mod Collected
pub mod Agrees
use mips_emulator.Prelude.{
  ℕ, zero, suc, ◌+◌, ◌-◌, ◌*◌, ◌/◌, ◌%◌, ◌^◌, Bool, true, false, ◌&&◌, none, some, Option, List, [],
  ◌∷◌, ◌++◌, length, replicate, take, drop, bit_or,
}
use mips_emulator.Prelude.{◌==◌, ◌!=◌, ltb, leb, if◌then◌else◌}
use mips_emulator.Prelude.{◌>>=◌, ◌>>◌}
use mips_emulator.Prelude.{Outcome, done, panic, out_of_fuel, ensure}
use mips_emulator.Platform.{Platform, Bytes}
use mips_emulator.Word.{shl}
use mips_emulator.Program.{Program, index, next_instruction}
use mips_emulator.Program.Hash.{hash_chunk_len}
use mips_emulator.Circuit.HashRound.{SinsemillaChip, hash_round}

-- What is used of the field: numbers as elements, its arithmetic, and its `Debug` text.
pub record Pallas (Base : Type 0) : Type 0 where
  pub from : ℕ → Base
  pub zero_base : Base
  pub add : Base → Base → Base
  pub sub : Base → Base → Base
  pub mul : Base → Base → Base
  pub debug : Base → Bytes

-- `&xs[from..from + n]`.
unfoldable pub slice_of {ℓ} : {A : Type ℓ} → ℕ → ℕ → List A → Outcome (List A)
slice_of from n xs = if leb (from + n) (length xs) then done (take n (drop from xs)) else panic

module _ (platform : Platform) where
  -- A `u8` result, cut to 8 bits, or a panic.
  unfoldable pub wrapped8 : ℕ → Outcome ℕ
  wrapped8 x = if platform.overflow_checks then panic else done (x % 2 ^ 8)

  -- The value of a digit's byte.
  unfoldable pub hex_value : ℕ → Outcome ℕ
  unfolding wrapped8
  hex_value c = if leb b'0' c && leb c b'9' then done (c - b'0') else (do
    sum ← if ltb (10 + c) (2 ^ 8) then done (10 + c) else wrapped8 (10 + c)
    if leb b'a' sum then done (sum - b'a') else wrapped8 (sum + 2 ^ 8 - b'a'))

  -- The loop over `k`, after its first rounds.
  unfoldable pub high_bits : ℕ → Bytes → Outcome ℕ
  unfolding hex_value
  high_bits zero chunk_7_slice = done 0
  high_bits (suc k) chunk_7_slice = do
    high ← high_bits k chunk_7_slice
    c ← index chunk_7_slice k
    t ← hex_value c
    done (bit_or (shl high 4) t)

  -- `high_16_bit`, read from the text of the element.
  unfoldable pub high_16_bit : Bytes → Outcome ℕ
  high_16_bit chunk_7_str = do
    ensure (leb 8 (length chunk_7_str))
    high_bits 4 (drop (length chunk_7_str - 8) chunk_7_str)

  module _ {Base : Type 0} (pallas : Pallas Base) where
    -- `v = v * two_power_32 + chunk[from + i]`, after the first rounds.
    unfoldable pub accumulate : ℕ → ℕ → Base → List Base → Outcome Base
    accumulate zero from v chunk = done v
    accumulate (suc i) from v chunk = do
      before ← accumulate i from v chunk
      word ← index chunk (from + i)
      done (pallas.add (pallas.mul before (pallas.from (2 ^ 32))) word)

    -- 15 words from `r` on as two elements of 240 bits.
    unfoldable pub decompose_part : ℕ → List Base → Outcome (List Base)
    decompose_part r chunk = do
      first ← accumulate 7 r (pallas.from 0) chunk
      chunk_7 ← index chunk (r + 7)
      high ← high_16_bit (pallas.debug chunk_7)
      let low = pallas.sub chunk_7 (pallas.mul (pallas.from high) (pallas.from (2 ^ 16)))
      second ← accumulate 7 (r + 8) (pallas.add (pallas.from 0) (pallas.from high)) chunk
      done (pallas.add (pallas.mul first (pallas.from (2 ^ 16))) low ∷ second ∷ [])

    -- `for _ in 0..4`.
    unfoldable pub decompose_parts : ℕ → ℕ → List Base → Outcome (List Base)
    decompose_parts zero r chunk = done []
    decompose_parts (suc n) r chunk = do
      part ← decompose_part r chunk
      rest ← decompose_parts n (r + 15) chunk
      done (part ++ rest)

    -- `while r < self.chunk.len()`.
    unfoldable pub decompose : ℕ → ℕ → List Base → Outcome (List Base)
    decompose zero r chunk = out_of_fuel
    decompose (suc fuel) r chunk = elim (ltb r (length chunk)) [
      | true ↦ do
        parts ← decompose_parts 4 r chunk
        rest ← decompose fuel (r + 60) chunk
        done (parts ++ rest)
      | false ↦ done []
    ]

    -- The loop of `fetch_chunk_120`, which ends after `left` more instructions at the latest.
    unfoldable pub fetch_elements : ℕ → ℕ → ℕ → Program → Outcome (List Base × ℕ × ℕ)
    fetch_elements zero cur_segment cur_instruction p = done ([], cur_segment, cur_instruction)
    fetch_elements (suc left) cur_segment cur_instruction p = do
      (res, cursor1, cursor2) ← next_instruction cur_segment cur_instruction p
      elim res [
        | none ↦ done ([], cur_segment, cur_instruction)
        | some instruction ↦ do
          (chunk, end_segment, end_instruction) ← fetch_elements left cursor1 cursor2 p
          done (pallas.from instruction.bytecode ∷ chunk, end_segment, end_instruction)
      ]

    unfoldable pub pad_elements : List Base → List Base × Bool
    pad_elements chunk =
        if ltb (length chunk) 120
        then (chunk ++ replicate (120 - length chunk) pallas.zero_base, true)
        else (chunk, false)

    unfoldable pub collect_elements : ℕ → ℕ → ℕ → Program → Outcome (List Base)
    collect_elements zero cur_segment cur_instruction p = out_of_fuel
    collect_elements (suc fuel) cur_segment cur_instruction p = do
      (elements, cursor1, cursor2) ← fetch_elements 120 cur_segment cur_instruction p
      let (chunk, last) = pad_elements elements
      elim last [
        | true ↦ done chunk
        | false ↦ do rest ← collect_elements fuel cursor1 cursor2 p; done (chunk ++ rest)
      ]

    module _ {MessagePiece Point : Type 0}
        (chips : List (SinsemillaChip Base MessagePiece Point)) where
      -- `for (l, chip) in chips.enumerate()`, with `left` rounds to go.
      unfoldable pub hash_chunks : ℕ → ℕ → ℕ → Base → List Base → Outcome (Option Base)
      hash_chunks zero l chunks_per_chip pre decomposed_chunk = done (some pre)
      hash_chunks (suc left) l chunks_per_chip pre decomposed_chunk = do
        ensure (chunks_per_chip != 0)
        chip ← index chips (l / chunks_per_chip)
        chunk ← slice_of (l * 8) 8 decomposed_chunk
        elim (hash_round chip pre chunk) [
          | none ↦ done none
          | some next ↦ hash_chunks left (l + 1) chunks_per_chip next decomposed_chunk
        ]

      -- `HashChunk::construct` checks that there is a chip, `PAR` of them.
      unfoldable pub calculate_chunk_hash : ℕ → Base → List Base → Outcome (Option Base)
      calculate_chunk_hash fuel init chunk = do
        ensure (length chips != 0)
        ensure (length chunk % hash_chunk_len == 0)
        decomposed_chunk ← decompose fuel 0 chunk
        let chunk_length = length chunk / hash_chunk_len
        let chunks_per_chip = (chunk_length + length chips - 1) / length chips
        hash_chunks chunk_length 0 chunks_per_chip init decomposed_chunk

      unfoldable pub calculate_final_hash : ℕ → Base → Program → Outcome (Option Base)
      calculate_final_hash fuel q_cell program = do
        chunk ← collect_elements fuel 0 0 program
        calculate_chunk_hash fuel q_cell chunk
