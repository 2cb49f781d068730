-- ===== src/Memory/Io.antt =====
-- The byte streams of mips-emulator/src/memory.rs: `set_memory_range`, which copies a reader into
-- memory, and the `Read` implementation, which reads a range of memory.
use mips_emulator.Prelude.{ℕ, zero, suc, ◌+◌, ◌-◌, ◌/◌, ◌^◌, []}
use mips_emulator.Prelude.{true, false}
use mips_emulator.Prelude.{Option, none, some, ◌∷◌, ◌++◌, length, take, drop, replicate}
use mips_emulator.Prelude.{◌==◌, leb, if◌then◌else◌}
use mips_emulator.Prelude.{bit_and}
use mips_emulator.Prelude.{Outcome, done, panic, out_of_fuel, ◌>>=◌}
use mips_emulator.Prelude.{slice, write_slice}
use mips_emulator.Platform.{Platform, Bytes}
use mips_emulator.Prelude.{min}
use mips_emulator.Word.{add32, sub32}
use mips_emulator.Page
use mips_emulator.Page.{page_addr_size, page_size, page_addr_mask}
use mips_emulator.Memory.{Memory, page_lookup, alloc_page, borrow_mut}

-- The page found, or a new one.
unfoldable pub page_or_alloc : ℕ → Option ℕ → Memory → Outcome (ℕ × Memory)
page_or_alloc page_index none m = alloc_page page_index m
page_or_alloc page_index (some page) m = done (page, m)

module _ (platform : Platform) where
  -- The reader is the bytes that it has left; a read takes as many as fit the page. A round that
  -- reads nothing is the last, so one round more than there are bytes is enough.
  unfoldable pub set_memory_range : ℕ → ℕ → Bytes → Memory → Outcome Memory
  set_memory_range zero addr r m = out_of_fuel
  set_memory_range (suc fuel) addr r m = do
    let page_addr = bit_and addr page_addr_mask
    let found = page_lookup (addr / 2 ^ page_addr_size) m
    (page, m1) ← page_or_alloc (addr / 2 ^ page_addr_size) found.0 found.1
    let n = min (length r) (page_size - page_addr)
    let p = Page.invalidate_full (m1.heap page)
    let m2 = borrow_mut page (record p { data_at = write_slice p.data_at page_addr (take n r) }) m1
    elim (n == 0) [
      | true ↦ done m2
      | false ↦ do next ← add32 platform addr n; set_memory_range fuel next (drop n r) m2
    ]

  -- What a read copies from the page at `start`.
  unfoldable pub page_bytes : Option ℕ → ℕ → ℕ → Memory → Outcome Bytes
  page_bytes none start size m = done (replicate size 0)
  page_bytes (some page) start size m =
      if leb (start + size) page_size then done (slice (m.heap page).data_at start size) else panic

  -- `read` into a buffer of length `len`.
  unfoldable pub read : ℕ → Memory → Outcome (Bytes × Memory)
  read len m = if m.count == 0 then done ([], m) else do
    end_addr ← add32 platform m.addr m.count
    let page_index = m.addr / 2 ^ page_addr_size
    let start = bit_and m.addr page_addr_mask
    let end =
        if page_index == end_addr / 2 ^ page_addr_size
        then bit_and end_addr page_addr_mask
        else page_size
    let found = page_lookup page_index m
    span ← sub32 platform end start
    let size = min len span
    bytes ← page_bytes found.0 start size found.1
    addr ← add32 platform found.1.addr size
    count ← sub32 platform found.1.count size
    done (bytes, record (found.1) { addr = addr; count = count })

  -- `read_to_end` and `std::io::copy`: reads until one returns nothing.
  unfoldable pub read_to_end : ℕ → ℕ → Memory → Outcome (Bytes × Memory)
  read_to_end zero round m = out_of_fuel
  read_to_end (suc fuel) round m = do
    (bytes, m1) ← read (platform.buffer_size round) m
    elim bytes [
      | [] ↦ done ([], m1)
      | b ∷ bs ↦ do (rest, m2) ← read_to_end fuel (round + 1) m1; done (b ∷ bs ++ rest, m2)
    ]
