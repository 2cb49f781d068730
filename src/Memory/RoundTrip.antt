-- ===== src/Memory/RoundTrip.antt =====
-- Bytes that are written to memory by `set_memory_range` and read back by `read_to_end`.
use mips_emulator.Prelude.{ℕ, suc, ◌+◌, ◌-◌, ◌^◌, ◌<◌, ◌≡◌, refl, arith, ap, ◌∙◌}
use mips_emulator.Prelude.{[], ◌∷◌, length, nth, slice, ltb_of_lt, leb_of_le, done}
use mips_emulator.Platform.{Platform, Bytes}
use mips_emulator.Memory.{Memory, read_memory_range}
use mips_emulator.Memory.Io.{set_memory_range, read_to_end}
use mips_emulator.Memory.View.{view}
use mips_emulator.Memory.Sound.{IsSound}
use mips_emulator.Memory.Range.{bytes_written}
use mips_emulator.Memory.Loads.{AllBytes, set_memory_range-IsSound}
use mips_emulator.Memory.Reads.{read_range_lem, slice_shift}

slice-nth : (r : Bytes) → slice (λ i. nth r i 0) 0 (length r) ≡ r
slice-nth [] = refl
slice-nth (b ∷ bs) =
    ap (λ (l : Bytes). b ∷ l)
      (slice_shift (λ i. nth (b ∷ bs) i 0) (λ i. nth bs i 0) 1 0 (length bs) (λ k p. tail k)
        ∙ slice-nth bs)
  where
    tail : (k : ℕ) → nth (b ∷ bs) (1 + k) 0 ≡ nth bs (0 + k) 0
    tail k =
        let up : 1 + k ≡ suc k = omega arith in
        let same : 0 + k ≡ k = omega arith in rw (up, same) refl

read_back :
    (a : ℕ) (r : Bytes) (f g : ℕ → ℕ)
    → ((b : ℕ) → g b ≡ bytes_written a r f b)
    → slice g a (length r) ≡ r
unfolding bytes_written
read_back a r f g h = slice_shift g (λ i. nth r i 0) a 0 (length r) (λ k p. at k p) ∙ slice-nth r
  where
    at : (k : ℕ) → k < length r → g (a + k) ≡ nth r (0 + k) 0
    at k p =
        let offset : a + k - a ≡ 0 + k = omega arith in
        h (a + k)
        ∙ rw
            (
              leb_of_le a (a + k) (omega arith),
              ltb_of_lt (a + k) (a + length r) (omega arith),
              offset,
            )
            refl

module _ (platform : Platform) where
  -- Bytes that `set_memory_range` writes to a sound memory, at a range that ends below 2^32, are
  -- what `read_to_end` of that range returns, where `std::io` never reads into an empty buffer; one
  -- round more than there are bytes is enough for each, and the memory stays sound.
  pub read-set_memory_range :
      (a : ℕ) (r : Bytes) {m : Memory}
      → ((k : ℕ) → 0 < platform.buffer_size k)
      → a + length r < 2 ^ 32
      → AllBytes r
      → IsSound platform m
      → (m1 m2 : Memory) × (set_memory_range platform (length r + 1) a r m ≡ done m1)
        × (read_to_end platform (length r + 1) 0 (read_memory_range a (length r) m1) ≡ done (r, m2))
        × IsSound platform m2
  read-set_memory_range a r {m} buffers small all ok =
      let (m1, run, bytes, ok1) =
        set_memory_range-IsSound platform (length r + 1) a r {m = m} small (omega arith) all ok in
      let (m2, run2, same, ok2) = read_range_lem platform a (length r) {m = m1} buffers small ok1 in
      (
        m1,
        m2,
        run,
        run2 ∙ ap (λ (l : Bytes). done (l, m2)) (read_back a r (view m) (view m1) bytes),
        ok2,
      )
