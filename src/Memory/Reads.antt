-- ===== src/Memory/Reads.antt =====
-- The reader of memory, `read` and `read_to_end`: that it ends, and what it returns.
use mips_emulator.Prelude.{
  ℕ, zero, suc, ◌+◌, ◌-◌, ◌/◌, ◌%◌, ◌^◌, ◌≤◌, ◌<◌, ◌≡◌, ◌≢◌, refl, arith, min,
}
use mips_emulator.Prelude.{true, false, inl, inr, ◌∙◌, ap, sym, none, some, List, [], ◌∷◌, ◌++◌}
use mips_emulator.Prelude.{
  ◌==◌, if◌then◌else◌, Bool-cases, Option-cases, leb_of_le, replicate, slice, length, length-slice,
}
use mips_emulator.Prelude.{done, bind_done}
use mathlib.Core.Path.{ap₂}
use mips_emulator.Prelude.Bits.{bit_and_mask}
use mips_emulator.Prelude.HashMap.{HashMap, get}
use mips_emulator.Platform.{Platform, Bytes}
use mips_emulator.Word.{add32, sub32}
use mips_emulator.Word.Laws.{add32-done, sub32-done}
use mips_emulator.Memory.{Memory, page_lookup, read_memory_range}
use mips_emulator.Memory.Io.{read, read_to_end, page_bytes}
use mips_emulator.Memory.View.{
  view, byte_in, view-SameStore, page_lookup-eq-get, page_lookup-SameStore,
}
use mips_emulator.Memory.Sound.{IsSound, range-IsSound, range_set}

-- The bytes of a memory from an address on.
pub slice_shift :
    {A : Type 0} (f g : ℕ → A) (i j n : ℕ)
    → ((k : ℕ) → k < n → f (i + k) ≡ g (j + k))
    → slice f i n ≡ slice g j n
slice_shift f g i j zero h = refl
slice_shift f g i j (suc n) h =
    ap₂ ◌∷◌ (at0 (h 0 (omega arith)))
      (slice_shift f g (i + 1) (j + 1) n (λ k p. at_suc k (h (suc k) (omega arith))))
  where
    at0 : f (i + 0) ≡ g (j + 0) → f i ≡ g j
    at0 e =
        let a : i ≡ i + 0 = omega arith in let b : j + 0 ≡ j = omega arith in ap f a ∙ e ∙ ap g b

    at_suc : (k : ℕ) → f (i + suc k) ≡ g (j + suc k) → f (i + 1 + k) ≡ g (j + 1 + k)
    at_suc k e =
        let a : i + 1 + k ≡ i + suc k = omega arith in
        let b : j + suc k ≡ j + 1 + k = omega arith in ap f a ∙ e ∙ ap g b

all_zero : (n i : ℕ) → ◌≡◌ {A = List ℕ} (replicate n 0) (slice (λ _. 0) i n)
all_zero zero i = refl
all_zero (suc n) i = ap (λ (l : List ℕ). 0 ∷ l) (all_zero n (i + 1))

slice_zeros :
    (f : ℕ → ℕ) (i n : ℕ)
    → ((k : ℕ) → k < n → f (i + k) ≡ 0)
    → ◌≡◌ {A = List ℕ} (replicate n 0) (slice f i n)
slice_zeros f i n h = all_zero n 0 ∙ slice_shift (λ _. 0) f 0 i n (λ k p. sym (h k p))

pub slice_append : (f : ℕ → ℕ) (i m n : ℕ) → slice f i m ++ slice f (i + m) n ≡ slice f i (m + n)
slice_append f i zero n =
    slice_shift f f (i + 0) i n (λ k p. ap f (omega arith))
    ∙ ap (λ (k : ℕ). slice f i k) (omega arith)
slice_append f i (suc m) n =
    let up : suc m + n ≡ suc (m + n) = omega arith in
    rw up (
      ap (λ (l : List ℕ). f i ∷ l)
        (ap (λ (l : List ℕ). slice f (i + 1) m ++ l)
            (slice_shift f f (i + suc m) (i + 1 + m) n (λ k p. ap f (omega arith)))
          ∙ slice_append f (i + 1) m n))

module _ (platform : Platform) where
  page_bytes_lem :
      (a size : ℕ) (m : Memory)
      → a % 4096 + size ≤ 4096
      → page_bytes platform (get m.pages (a / 4096)) (a % 4096) size m
        ≡ done (slice (view m) a size)
  unfolding page_bytes view
  page_bytes_lem a size m h = elim (Option-cases (get m.pages (a / 4096))) [
    | inl e ↦ rw e (ap done (slice_zeros (view m) a size (λ k p. empty k p e)))
    | inr (page, e) ↦
        rw (e, leb_of_le (a % 4096 + size) 4096 h)
          (ap done
            (slice_shift (m.heap page).data_at (view m) (a % 4096) a size (λ k p. full page k p e)))
  ]
    where
      empty : (k : ℕ) → k < size → get m.pages (a / 4096) ≡ none → view m (a + k) ≡ 0
      empty k p e =
          let same : (a + k) / 4096 ≡ a / 4096 = omega arith in
          rw (same, e) (unfold byte_in in refl)

      full :
          (page k : ℕ)
          → k < size
          → get m.pages (a / 4096) ≡ some page
          → (m.heap page).data_at (a % 4096 + k) ≡ view m (a + k)
      full page k p e =
          let same : (a + k) / 4096 ≡ a / 4096 = omega arith in
          let offset : (a + k) % 4096 ≡ a % 4096 + k = omega arith in
          rw (same, e, offset) (unfold byte_in in refl)

  -- What is left of the page, or of the range if it ends there.
  abbrev span : ℕ → ℕ → ℕ
  span a c = (if a / 4096 == (a + c) / 4096 then (a + c) % 4096 else 4096) - a % 4096

  span_lem :
      (a c : ℕ)
      → 0 < c
      → (0 < span a c)
        × (span a c ≤ c)
        × (a % 4096 + span a c ≤ 4096)
        × (a % 4096 ≤ (if a / 4096 == (a + c) / 4096 then (a + c) % 4096 else 4096))
  span_lem a c h = elim (Bool-cases (a / 4096 == (a + c) / 4096)) [
    | inl e ↦
        let same : a / 4096 ≡ (a + c) / 4096 = ground arith in
        rw e (omega arith, omega arith, omega arith, omega arith)
    | inr e ↦
        let other : a / 4096 ≢ (a + c) / 4096 = ground arith in
        rw e (omega arith, omega arith, omega arith, omega arith)
  ]

  read_lem :
      (len : ℕ) {m : Memory}
      → 0 < m.count
      → m.addr + m.count < 2 ^ 32
      → IsSound platform m
      → read platform len m
        ≡ done (
          slice (view m) m.addr (min len (span m.addr m.count)),
          record ((page_lookup (m.addr / 4096) m).1) {
            addr = m.addr + min len (span m.addr m.count);
            count = m.count - min len (span m.addr m.count);
          },
        )
  unfolding read
  read_lem len {m} some_left small ok =
      let a = m.addr in
      let c = m.count in
      let m1 = (page_lookup (a / 4096) m).1 in
      let more : (c == 0) ≡ false = ground arith in
      let same = page_lookup-SameStore (a / 4096) m in
      let size = min len (span a c) in
      let (some_span, within, fits, ordered) = span_lem a c some_left in
      let end = if a / 4096 == (a + c) / 4096 then (a + c) % 4096 else 4096 in
      let found : page_bytes platform (page_lookup (a / 4096) m).0 (a % 4096) size m1
          ≡ done (slice (view m) a size) =
        rw
          (page_lookup-eq-get (a / 4096) ok.valid.coherent
            ∙ sym (ap (λ (p : HashMap ℕ). get p (a / 4096)) same.pages))
          (page_bytes_lem a size m1 (omega arith))
        ∙ ap done (slice_shift (view m1) (view m) a a size (λ k p. view-SameStore (a + k) same)) in
      rw (more, add32-done platform a c small, bit_and_mask 12 a, bit_and_mask 12 (a + c))
        (bind_done (sub32 platform end (a % 4096)) _ (sub32-done platform end (a % 4096) ordered)
          ∙ (bind_done (page_bytes platform (page_lookup (a / 4096) m).0 (a % 4096) size m1) _ found
              ∙ (bind_done (add32 platform m1.addr size) _
                    (moved m1.addr same.addr size (omega arith))
                  ∙ bind_done (sub32 platform m1.count size) _
                      (left m1.count same.count size (omega arith)))))
    where
      moved :
          (x : ℕ)
          → x ≡ m.addr
          → (n : ℕ) → m.addr + n < 2 ^ 32
          → add32 platform x n ≡ done (m.addr + n)
      moved x e n h = rw e (add32-done platform m.addr n h)

      left : (x : ℕ) → x ≡ m.count → (n : ℕ) → n ≤ m.count → sub32 platform x n ≡ done (m.count - n)
      left x e n h = rw e (sub32-done platform m.count n h)

  -- The range is no part of the bytes.
  view_ranged : (b a n : ℕ) (m : Memory) → view (record m { addr = a; count = n }) b ≡ view m b
  unfolding view
  view_ranged b a n m = refl

  another_round :
      (fuel round : ℕ) (m : Memory) (bytes : Bytes) {rest : Bytes} {m1 m2 : Memory}
      → 0 < length bytes
      → read platform (platform.buffer_size round) m ≡ done (bytes, m1)
      → read_to_end platform fuel (round + 1) m1 ≡ done (rest, m2)
      → read_to_end platform (suc fuel) round m ≡ done (bytes ++ rest, m2)
  unfolding read_to_end
  another_round fuel round m [] h run next = absurd (omega arith)
  another_round fuel round m (b ∷ bs) h run next = rw (run, next) refl

  no_round :
      (fuel round : ℕ) (m : Memory)
      → m.count ≡ 0
      → read_to_end platform (suc fuel) round m ≡ done ([], m)
  unfolding read_to_end read
  no_round fuel round m e = let empty : (m.count == 0) ≡ true = ground arith in rw empty refl

  -- `read_to_end` of a range that ends below 2^32.
  read_to_end_lem :
      (fuel round : ℕ) {m : Memory}
      → ((n : ℕ) → 0 < platform.buffer_size n)
      → m.addr + m.count < 2 ^ 32
      → m.count < fuel
      → IsSound platform m
      → (m' : Memory) × (read_to_end platform fuel round m
          ≡ done (slice (view m) m.addr m.count, m'))
        × ((b : ℕ) → view m' b ≡ view m b)
        × IsSound platform m'
  read_to_end_lem zero round buffers small enough ok = absurd (omega arith)
  read_to_end_lem (suc fuel) round {m} buffers small enough ok = elim (Bool-cases (m.count == 0)) [
    | inl e ↦
        let none_left : m.count ≡ 0 = ground arith in
        (m, no_round fuel round m none_left ∙ rw none_left refl, λ b. refl, ok)
    | inr e ↦
        let more : 0 < m.count = ground arith in
        let (some_span, within, fits, ordered) = span_lem m.addr m.count more in
        let size = min (platform.buffer_size round) (span m.addr m.count) in
        let some_bytes : 0 < size = omega (arith, buffers round) in
        let m1 : Memory = record ((page_lookup (m.addr / 4096) m).1) {
          addr = m.addr + size;
          count = m.count - size;
        } in
        let same = page_lookup-SameStore (m.addr / 4096) m in
        let (m2, run, view2, ok2) =
          read_to_end_lem fuel (round + 1) {m = m1} buffers (omega arith) (omega arith)
            (range-IsSound platform (m.addr / 4096) (m.addr + size) (m.count - size) ok) in
        (
          m2,
          another_round fuel round m (slice (view m) m.addr size)
                (omega (arith, length-slice (view m) m.addr size))
                (read_lem (platform.buffer_size round) more small ok) run
              ∙ ap (λ (l : Bytes). done (l, m2)) (joined size (omega arith)),
          λ b.
              view2 b
              ∙ (view_ranged b (m.addr + size) (m.count - size) (page_lookup (m.addr / 4096) m).1
                  ∙ view-SameStore b same),
          ok2,
        )
  ]
    where
      joined :
          (size : ℕ)
          → size ≤ m.count
          → slice (view m) m.addr size
              ++ slice
                  (view (record ((page_lookup (m.addr / 4096) m).1) {
                    addr = m.addr + size;
                    count = m.count - size;
                  }))
                  (m.addr + size)
                  (m.count - size)
            ≡ slice (view m) m.addr m.count
      joined size h =
          let whole : size + (m.count - size) ≡ m.count = omega arith in
          ap (λ (l : Bytes). slice (view m) m.addr size ++ l)
            (slice_shift
              (view (record (page_lookup (m.addr / 4096) m).1 {
                addr = m.addr + size;
                count = m.count - size;
              }))
              (view m) (m.addr + size) (m.addr + size) (m.count - size)
              (λ k p.
                view_ranged (m.addr + size + k) (m.addr + size) (m.count - size)
                  (page_lookup (m.addr / 4096) m).1
                ∙ view-SameStore (m.addr + size + k) (page_lookup-SameStore (m.addr / 4096) m)))
          ∙ (slice_append (view m) m.addr size (m.count - size)
              ∙ ap (λ (n : ℕ). slice (view m) m.addr n) whole)

  -- `read_to_end` of a range of a sound memory that ends below 2^32 ends within one round more than
  -- the range has bytes, where `std::io` never reads into an empty buffer; it returns the bytes of
  -- the range, 0 where nothing was written, and leaves every byte and the memory's soundness as
  -- they were.
  pub read_range_lem :
      (a n : ℕ) {m : Memory}
      → ((k : ℕ) → 0 < platform.buffer_size k)
      → a + n < 2 ^ 32
      → IsSound platform m
      → (m' : Memory) × (read_to_end platform (n + 1) 0 (read_memory_range a n m)
          ≡ done (slice (view m) a n, m'))
        × ((b : ℕ) → view m' b ≡ view m b)
        × IsSound platform m'
  unfolding read_memory_range
  read_range_lem a n {m} buffers small ok =
      let (m', run, same, ok') =
        read_to_end_lem (n + 1) 0 {m = read_memory_range a n m} buffers small (omega arith)
          (range_set platform a n ok) in
      (
        m',
        run
            ∙ ap (λ (l : Bytes). done (l, m'))
                (slice_shift (view (record m { addr = a; count = n })) (view m) a a n
                  (λ k p. view_ranged (a + k) a n m)),
        λ b. same b ∙ view_ranged b a n m,
        ok',
      )
