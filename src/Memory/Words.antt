-- ===== src/Memory/Words.antt =====
-- `get_memory` and `set_memory` against the bytes that the memory stands for.
use mips_emulator.Prelude.{ℕ, ◌+◌, ◌*◌, ◌/◌, ◌%◌, ◌^◌, ◌≤◌, ◌<◌, ◌≡◌, arith}
use mips_emulator.Prelude.{inl, inr, ◌∙◌}
use mips_emulator.Prelude.{none, some}
use mips_emulator.Prelude.{Option-cases}
use mips_emulator.Prelude.{leb_of_le}
use mips_emulator.Prelude.{done}
use mips_emulator.Prelude.Bits.{bit_and_mask}
use mips_emulator.Prelude.HashMap.{get}
use mips_emulator.Page.{CachedPage}
use mips_emulator.Word.{from_be_bytes}
use mips_emulator.Memory.{Memory, page_lookup, get_memory, read_word}
use mips_emulator.Memory.View.{IsCoherent, SameStore, view, view_word, byte_in}
use mips_emulator.Memory.View.{page_lookup-eq-get, page_lookup-SameStore, page_lookup-IsCoherent}
use mips_emulator.Memory.Invalidate.{aligned_test}

read_word_lem :
    (i : ℕ) (p : CachedPage)
    → i + 4 ≤ 4096
    → read_word i p
      ≡ done (
          p.data_at i * 2 ^ 24
          + p.data_at (i + 1) * 2 ^ 16
          + p.data_at (i + 2) * 2 ^ 8
          + p.data_at (i + 3))
unfolding read_word from_be_bytes
read_word_lem i p h = rw (leb_of_le (i + 4) 4096 h) (ground arith)

-- A byte of a page that is there.
pub view_in_page :
    (m : Memory) (a p i : ℕ)
    → get m.pages (a / 4096) ≡ some p
    → a % 4096 + i < 4096
    → view m (a + i) ≡ (m.heap p).data_at (a % 4096 + i)
unfolding view byte_in
view_in_page m a p i found h =
    let page : (a + i) / 4096 ≡ a / 4096 = omega arith in
    let offset : (a + i) % 4096 ≡ a % 4096 + i = omega arith in rw (page, offset, found)

view_word_in_page :
    (a p : ℕ) (m : Memory)
    → a % 4 ≡ 0
    → get m.pages (a / 4096) ≡ some p
    → read_word (a % 4096) (m.heap p) ≡ done (view_word m a)
unfolding view_word
view_word_in_page a p m aligned found =
    read_word_lem (a % 4096) (m.heap p) (omega arith)
    ∙ ground (
      arith,
      view_in_page m a p 0 found,
      view_in_page m a p 1 found,
      view_in_page m a p 2 found,
      view_in_page m a p 3 found,
    )

-- Where no page is, the word is 0.
view_word_no_page :
    (a : ℕ) (m : Memory) → a % 4 ≡ 0 → get m.pages (a / 4096) ≡ none → view_word m a ≡ 0
unfolding view_word view byte_in
view_word_no_page a m aligned free =
    let e1 : (a + 1) / 4096 ≡ a / 4096 = omega arith in
    let e2 : (a + 2) / 4096 ≡ a / 4096 = omega arith in
    let e3 : (a + 3) / 4096 ≡ a / 4096 = omega arith in rw (e1, e2, e3, free)

-- `get_memory` at an aligned address reads the big-endian word there, 0 where no page was ever
-- allocated, and changes the page cache at most.
pub get_memory_lem :
    (a : ℕ) {m : Memory}
    → a % 4 ≡ 0
    → IsCoherent m
    → (m' : Memory) × (get_memory a m ≡ done (view_word m a, m')) × SameStore m m' × IsCoherent m'
unfolding get_memory
get_memory_lem a {m} aligned c =
    let same = page_lookup-SameStore (a / 4096) m in
    let look = page_lookup-eq-get (a / 4096) c in
    (
      (page_lookup (a / 4096) m).1,
      elim (Option-cases (get m.pages (a / 4096))) [
        | inl e ↦ rw (aligned_test a aligned, look, e, view_word_no_page a m aligned e)
        | inr (p, e) ↦ rw (
          aligned_test a aligned,
          look,
          e,
          bit_and_mask 12 a,
          same.heap,
          view_word_in_page a p m aligned e,
        )
      ],
      same,
      page_lookup-IsCoherent (a / 4096) c,
    )
