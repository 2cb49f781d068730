-- ===== src/Memory/Loads.antt =====
-- `set_memory_range`: that it ends, and what memory holds then.
use mips_emulator.Prelude.{
  replicate, ◌++◌, ℕ, zero, suc, ◌+◌, ◌-◌, ◌/◌, ◌%◌, ◌^◌, ◌≤◌, ◌<◌, ◌≡◌, refl, arith, min,
}
use mips_emulator.Prelude.{Bool, true, false, inl, inr, ◌∙◌, ap, sym, fun_ext}
use mips_emulator.Prelude.{length, take, drop, length-drop}
use mips_emulator.Prelude.{◌==◌, Bool-cases}
use mips_emulator.Prelude.{done, bind_done, bit_and, write_slice}
use mips_emulator.Prelude.Bits.{bit_and_mask}
use mips_emulator.Platform.{Platform, Bytes}
use mips_emulator.Page
use mips_emulator.Memory.{Memory, page_lookup, borrow_mut}
use mips_emulator.Memory.Io.{page_or_alloc, set_memory_range}
use mips_emulator.Memory.View.{view, view-SameStore}
use mips_emulator.Memory.View.{page_lookup-eq-get, page_lookup-SameStore, page_lookup-IsCoherent}
use mips_emulator.Memory.Invalidate.{IsCoherent-with_nodes}
use mips_emulator.Memory.Merkle.Roots.{OnlyInvalidates-IsZeroed}
use mips_emulator.Memory.Valid.{IsValid}
use mips_emulator.Memory.Sound.{IsSound}
use mips_emulator.Prelude.{[], ◌∷◌, nth}
use mips_emulator.Prelude.{suc, zero}
use mips_emulator.Word.Laws.{add32-done}
use mips_emulator.Memory.Range.{
  bytes_written, bytes_written_none, bytes_written_parts, length-take_min,
}
use mips_emulator.Memory.Range.{Found, page_or_alloc-Found, copied, copied-view, copied-AllCached}

-- Every element is a byte.
abbrev pub AllBytes : Bytes → Type 0
AllBytes [] = Unit {0}
AllBytes (b ∷ bs) = (b < 256) × AllBytes bs

pub AllBytes-append : (xs ys : Bytes) → AllBytes xs → AllBytes ys → AllBytes (xs ++ ys)
AllBytes-append [] ys h k = k
AllBytes-append (x ∷ xs) ys h k = (h.0, AllBytes-append xs ys h.1 k)

pub AllBytes-zeros : (n : ℕ) → AllBytes (replicate n 0)
AllBytes-zeros zero = tt
AllBytes-zeros (suc n) = (omega arith, AllBytes-zeros n)

nth-lt : (r : Bytes) (i : ℕ) → AllBytes r → nth r i 0 < 256
nth-lt [] i h = omega arith
nth-lt (b ∷ bs) zero h = h.0
nth-lt (b ∷ bs) (suc i) h = nth-lt bs i h.1

bytes_written-lt :
    (a b : ℕ) (r : Bytes) (f : ℕ → ℕ) → AllBytes r → f b < 256 → bytes_written a r f b < 256
unfolding bytes_written
bytes_written-lt a b r f all h = ground (arith, nth-lt r (b - a) all)

module _ (platform : Platform) where
  -- One round: the bytes that fit the page are in memory.
  record Round (a : ℕ) (r : Bytes) (m m' : Memory) : Type 0 where
    bytes : (b : ℕ) → view m' b ≡ bytes_written a r (view m) b
    valid : IsValid platform m'

  round_lem :
      (a : ℕ) (r : Bytes) {m : Memory}
      → a < 2 ^ 32
      → a % 4096 + length r ≤ 4096
      → IsValid platform m
      → (p : ℕ) × (m1 : Memory) × (page_or_alloc
            (a / 4096)
            (page_lookup (a / 4096) m).0
            (page_lookup (a / 4096) m).1
          ≡ done (p, m1))
        × Round a r m (copied platform a p r m1)
  round_lem a r {m} small fits ok =
      let same = page_lookup-SameStore (a / 4096) m in
      let (p, m1, run, f) =
        page_or_alloc-Found platform a (page_lookup (a / 4096) m).0
          {m = (page_lookup (a / 4096) m).1} small
          (rw same.pages (sym (page_lookup-eq-get (a / 4096) ok.coherent)))
          (page_lookup-IsCoherent (a / 4096) ok.coherent) (rw same.heap ok.cached) in
      (
        p,
        m1,
        run,
        record {
          bytes = λ b.
              copied-view platform a p b r fits f.found f.coherent
              ∙ ap (λ (g : ℕ → ℕ). bytes_written a r g b)
                  (fun_ext (λ b'. f.same_view b' ∙ view-SameStore b' same));
          valid = copied-IsValid p m1 f;
        },
      )
    where
      copied-IsValid :
          (p : ℕ) (m1 : Memory)
          → Found platform a p (page_lookup (a / 4096) m).1 m1
          → IsValid platform (copied platform a p r m1)
      copied-IsValid p m1 f = record {
        coherent = unfold copied in IsCoherent-with_nodes _ m1.nodes f.coherent;
        cached = copied-AllCached platform a p r m1 f.cached;
        zeroed =
            unfold copied in
            OnlyInvalidates-IsZeroed platform f.nodes
              (rw (page_lookup-SameStore (a / 4096) m).nodes ok.zeroed);
      }

  -- The same, with the offset in the page to come.
  abbrev copied_from : ℕ → ℕ → Bytes → Memory → Memory
  copied_from o p r m =
      let page = Page.invalidate_full (m.heap p) in
      borrow_mut p
        (record page { data_at = write_slice page.data_at o (take (min (length r) (4096 - o)) r) })
        m

  open_test :
      (a : ℕ) (r : Bytes) {b : Bool}
      → (min (length r) (4096 - a % 4096) == 0) ≡ b
      → (min (length r) (4096 - bit_and a 4095) == 0) ≡ b
  open_test a r e = rw (bit_and_mask 12 a) e

  last_round :
      (fuel a p : ℕ) (r : Bytes) (m : Memory) {m1 : Memory}
      → page_or_alloc (a / 4096) (page_lookup (a / 4096) m).0 (page_lookup (a / 4096) m).1
        ≡ done (p, m1)
      → (min (length r) (4096 - a % 4096) == 0) ≡ true
      → set_memory_range platform (suc fuel) a r m
        ≡ done (copied platform a p (take (min (length r) (4096 - a % 4096)) r) m1)
  unfolding set_memory_range copied
  last_round fuel a p r m {m1} run e =
      bind_done (page_or_alloc (a / 4096) (page_lookup (a / 4096) m).0 (page_lookup (a / 4096) m).1)
        _ run
      ∙ (rw (open_test a r e) refl
          ∙ ap (λ (o : ℕ). done (copied_from o p r m1)) (bit_and_mask 12 a))

  more_rounds :
      (fuel a p : ℕ) (r : Bytes) (m : Memory) {m1 : Memory}
      → a + min (length r) (4096 - a % 4096) < 2 ^ 32
      → page_or_alloc (a / 4096) (page_lookup (a / 4096) m).0 (page_lookup (a / 4096) m).1
        ≡ done (p, m1)
      → (min (length r) (4096 - a % 4096) == 0) ≡ false
      → set_memory_range platform (suc fuel) a r m
        ≡ set_memory_range platform fuel
            (a + min (length r) (4096 - a % 4096))
            (drop (min (length r) (4096 - a % 4096)) r)
            (copied platform a p (take (min (length r) (4096 - a % 4096)) r) m1)
  unfolding set_memory_range copied
  more_rounds fuel a p r m {m1} small run e =
      bind_done (page_or_alloc (a / 4096) (page_lookup (a / 4096) m).0 (page_lookup (a / 4096) m).1)
        _ run
      ∙ (rw
            (
              open_test a r e,
              add32-done platform a (min (length r) (4096 - bit_and a 4095))
                  (rw (bit_and_mask 12 a) small),
            )
            refl
          ∙ ap
              (λ (o : ℕ).
                set_memory_range platform fuel (a + min (length r) (4096 - o))
                  (drop (min (length r) (4096 - o)) r) (copied_from o p r m1))
              (bit_and_mask 12 a))

  -- `set_memory_range`.
  pub set_memory_range_lem :
      (fuel a : ℕ) (r : Bytes) {m : Memory}
      → a + length r < 2 ^ 32
      → length r < fuel
      → IsValid platform m
      → (m' : Memory) × (set_memory_range platform fuel a r m ≡ done m')
        × ((b : ℕ) → view m' b ≡ bytes_written a r (view m) b)
        × IsValid platform m'
  set_memory_range_lem zero a r small enough ok = absurd (omega arith)
  set_memory_range_lem (suc fuel) a r {m} small enough ok =
      let n = min (length r) (4096 - a % 4096) in
      let size = length-take_min n r (omega arith) in
      let (p, m1, run, round) =
        round_lem a (take n r) {m = m} (omega arith) (omega (arith, size)) ok in
      elim (Bool-cases (n == 0)) [
        | inl e ↦
            let none_left : length r ≡ 0 = nothing a (length r) e in
            (
              copied platform a p (take n r) m1,
              last_round fuel a p r m run e,
              λ b.
                  round.bytes b
                  ∙ (bytes_written_none a b (take n r) (view m) (omega (arith, size, none_left))
                      ∙ sym (bytes_written_none a b r (view m) none_left)),
              round.valid,
            )
        | inr e ↦
            let (m', run', bytes, ok') =
              set_memory_range_lem fuel (a + n) (drop n r) {m = copied platform a p (take n r) m1}
                (omega (arith, length-drop n r)) (progress a e) round.valid in
            (
              m',
              more_rounds fuel a p r m (omega arith) run e ∙ run',
              λ b.
                  bytes b
                  ∙ (ap (λ (g : ℕ → ℕ). bytes_written (a + n) (drop n r) g b) (fun_ext round.bytes)
                      ∙ bytes_written_parts a n r (view m) b (omega arith)),
              ok',
            )
      ]
    where
      nothing : (x l : ℕ) → (min l (4096 - x % 4096) == 0) ≡ true → l ≡ 0
      nothing x l h = ground arith

      progress :
          (x : ℕ)
          → (min (length r) (4096 - x % 4096) == 0) ≡ false
          → length (drop (min (length r) (4096 - x % 4096)) r) < fuel
      progress x h = ground (arith, length-drop (min (length r) (4096 - x % 4096)) r)

  -- `set_memory_range` of bytes that end below 2^32, in a sound memory and with more fuel than
  -- there are bytes, succeeds: those addresses hold the bytes, every other address what it held,
  -- and the memory is sound.
  pub set_memory_range-IsSound :
      (fuel a : ℕ) (r : Bytes) {m : Memory}
      → a + length r < 2 ^ 32
      → length r < fuel
      → AllBytes r
      → IsSound platform m
      → (m' : Memory) × (set_memory_range platform fuel a r m ≡ done m')
        × ((b : ℕ) → view m' b ≡ bytes_written a r (view m) b)
        × IsSound platform m'
  set_memory_range-IsSound fuel a r {m} small enough all ok =
      let (m', run, bytes, valid) = set_memory_range_lem fuel a r {m = m} small enough ok.valid in
      (
        m',
        run,
        bytes,
        record {
          valid = valid;
          byte = λ b. omega (arith, bytes b, bytes_written-lt a b r (view m) all (ok.byte b));
        },
      )
