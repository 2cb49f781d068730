-- ===== src/Program/Load.antt =====
-- mips-emulator/src/witness.rs: what `load_instructions` puts into the program table.
use mips_emulator.Prelude.{
  ℕ, zero, suc, ◌+◌, ◌*◌, ◌/◌, ◌%◌, ◌^◌, ◌<◌, ◌≡◌, refl, arith, ap, ◌∙◌, fun_ext,
}
use mips_emulator.Prelude.{List, [], ◌∷◌, ◌++◌, slice, done, bind_done}
use mips_emulator.Platform.{Platform}
use mips_emulator.Word.Laws.{add32-done}
use mips_emulator.Memory.{Memory, read_memory_range}
use mips_emulator.Memory.Io.{read_to_end}
use mips_emulator.Memory.View.{view}
use mips_emulator.Memory.Sound.{IsSound}
use mips_emulator.Memory.Reads.{read_range_lem}
use mips_emulator.Witness.{Instruction}
use mips_emulator.Program.{ProgramSegment, from_le_bytes, decode_instructions, load_instructions}

-- The instruction whose word is the little-endian one at an address.
unfoldable pub little_endian : (ℕ → ℕ) → ℕ → Instruction
little_endian f a = record {
  addr = a;
  bytecode = f a + 2 ^ 8 * f (a + 1) + 2 ^ 16 * f (a + 2) + 2 ^ 24 * f (a + 3);
}

unfoldable pub decoded : (ℕ → ℕ) → ℕ → ℕ → List Instruction
decoded f a zero = []
decoded f a (suc n) = little_endian f a ∷ decoded f (a + 4) n

-- The table with_instructions from memory.
unfoldable pub with_instructions : (ℕ → ℕ) → List ProgramSegment → List ProgramSegment
with_instructions f [] = []
with_instructions f (s ∷ ss) =
    record s { instructions = s.instructions ++ decoded f s.start_addr (s.segment_size / 4) }
    ∷ with_instructions f ss

-- Every segment is made of whole words and ends below 2^32.
abbrev pub AllWhole : List ProgramSegment → Type 0
AllWhole [] = Unit {0}
AllWhole (s ∷ ss) =
    (s.segment_size % 4 ≡ 0) × (s.start_addr + s.segment_size < 2 ^ 32) × AllWhole ss

module _ (platform : Platform) where
  decode_lem :
      (f : ℕ → ℕ) (start i n : ℕ)
      → start + i + 4 * n < 2 ^ 32
      → decode_instructions platform start i (slice f (start + i) (4 * n))
        ≡ done (decoded f (start + i) n)
  unfolding decode_instructions decoded little_endian from_le_bytes
  decode_lem f start i zero h = refl
  decode_lem f start i (suc n) h =
      let four : 4 * suc n ≡ suc (suc (suc (suc (4 * n)))) = omega arith in
      let one : start + i + 1 + 1 ≡ start + i + 2 = omega arith in
      let two : start + i + 2 + 1 ≡ start + i + 3 = omega arith in
      let three : start + i + 3 + 1 ≡ start + (i + 4) = omega arith in
      let next : start + i + 4 ≡ start + (i + 4) = omega arith in
      rw
        (
          four,
          one,
          two,
          three,
          add32-done platform start i (omega arith),
          decode_lem f start (i + 4) n (omega arith),
          next,
        )
        refl

  -- For segments of whole words that end below 2^32, in a sound memory and where `std::io` never
  -- reads into an empty buffer, `load_instructions` succeeds and adds to each segment one
  -- instruction for every four bytes of its range, in order, with its address and the little-endian
  -- word there; every byte of memory stays.
  pub load_instructions_lem :
      (segments : List ProgramSegment) {m : Memory}
      → ((k : ℕ) → 0 < platform.buffer_size k)
      → AllWhole segments
      → IsSound platform m
      → (m' : Memory) × (load_instructions platform segments m
          ≡ done (with_instructions (view m) segments, m'))
        × ((b : ℕ) → view m' b ≡ view m b)
        × IsSound platform m'
  unfolding load_instructions with_instructions
  load_instructions_lem [] {m} buffers whole ok = (m, refl, λ b. refl, ok)
  load_instructions_lem (s ∷ ss) {m} buffers whole ok =
      let n = s.segment_size / 4 in
      let words : 4 * n ≡ s.segment_size = omega (arith, whole.0) in
      let here : s.start_addr + 0 ≡ s.start_addr = omega arith in
      let (m1, run1, same1, ok1) =
        read_range_lem platform s.start_addr s.segment_size {m = m} buffers whole.1 ok in
      let (m2, run2, same2, ok2) = load_instructions_lem ss {m = m1} buffers whole.2 ok1 in
      let decode : decode_instructions platform s.start_addr 0
            (slice (view m) s.start_addr s.segment_size)
          ≡ done (decoded (view m) s.start_addr n) =
        rw (here, words) at
          (decode_lem (view m) s.start_addr 0 n (omega (arith, whole.1, words))) in
      (
        m2,
        bind_done
              (read_to_end platform (s.segment_size + 1) 0
                (read_memory_range s.start_addr s.segment_size m))
              _ run1
            ∙ (bind_done
                  (decode_instructions platform s.start_addr 0
                    (slice (view m) s.start_addr s.segment_size))
                  _ decode
                ∙ (bind_done (load_instructions platform ss m1) _ run2
                    ∙ ap
                        (λ (f : ℕ → ℕ). done (
                          record s {
                            instructions = s.instructions ++ decoded (view m) s.start_addr n;
                          }
                              ∷ with_instructions f ss,
                          m2,
                        ))
                        (fun_ext same1))),
        λ b. same2 b ∙ same1 b,
        ok2,
      )
