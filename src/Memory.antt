-- ===== src/Memory.antt =====
-- mips-emulator/src/memory.rs: pages on demand, a two-entry page cache and the Merkle nodes above
-- the pages. An `Rc<RefCell<CachedPage>>` is a number, under which `heap` has the page, so that
-- the map and the cache share pages as they do in the source.
pub mod View
pub mod Invalidate
pub mod Words
pub mod Writes
pub mod Merkle
pub mod Io
pub mod Valid
pub mod Usage
pub mod Sound
pub mod Range
pub mod RoundTrip
pub mod Reads
pub mod Loads
use mips_emulator.Prelude.{ℕ, zero, suc, ◌+◌, ◌/◌, ◌%◌, ◌^◌, []}
use mips_emulator.Prelude.{Option, none, some, ◌∷◌, length}
use mips_emulator.Prelude.{◌==◌, ◌!=◌, leb, holds, if◌then◌else◌}
use mips_emulator.Prelude.{bit_and, bit_or}
use mips_emulator.Prelude.{Outcome, done, panic, out_of_fuel, ◌>>=◌, ◌>>◌}
use mips_emulator.Prelude.{update, slice, write_slice}
use mips_emulator.Platform.{Digest}
use mips_emulator.Prelude.HashMap
use mips_emulator.Prelude.HashMap.{HashMap, get, insert}
use mips_emulator.Word.{to_be_bytes, from_be_bytes}
use mips_emulator.Page
use mips_emulator.Page.{CachedPage, page_addr_size, page_key_size, page_size, page_addr_mask}

pub record Memory : Type 0 where
  -- By generalized index; `none` under an index is an invalidated node.
  pub nodes : HashMap (Option Digest)
  pub pages : HashMap ℕ
  pub heap : ℕ → CachedPage
  pub fresh : ℕ
  pub last_page_key0 : Option ℕ
  pub last_page_key1 : Option ℕ
  pub last_page0 : Option ℕ
  pub last_page1 : Option ℕ
  pub addr : ℕ
  pub count : ℕ

unfoldable pub new : Memory
new = record {
  nodes = [];
  pages = [];
  heap = λ _. Page.new;
  fresh = 0;
  last_page_key0 = none;
  last_page_key1 = none;
  last_page0 = none;
  last_page1 = none;
  addr = 0;
  count = 0;
}

unfoldable pub page_count : Memory → ℕ
page_count m = length m.pages

-- `for (page_index, cached_page) in self.pages.iter()`, up to the handler's first error.
unfoldable pub for_each_page {ℓ} : {E : Type ℓ} → HashMap ℕ → (ℕ → ℕ → Option E) → Option E
for_each_page [] handler = none
for_each_page ((page_index, page) ∷ rest) handler = elim (handler page_index page) [
  | none ↦ for_each_page rest handler
  | some e ↦ some e
]

unfoldable pub page_lookup : ℕ → Memory → Option ℕ × Memory
page_lookup page_index m =
    if holds m.last_page_key0 page_index
    then (m.last_page0, m)
    else if holds m.last_page_key1 page_index
    then (m.last_page1, m)
    else elim (get m.pages page_index) [
      | none ↦ (none, m)
      | some page ↦ (
        some page,
        record m {
          last_page_key1 = m.last_page_key0;
          last_page1 = m.last_page0;
          last_page_key0 = some page_index;
          last_page0 = some page;
        },
      )
    ]

-- `while k > 0 { nodes.insert(k, None); k >>= 1; }`.
unfoldable pub invalidate_nodes :
    ℕ → ℕ → HashMap (Option Digest) → Outcome (HashMap (Option Digest))
invalidate_nodes zero k nodes = out_of_fuel
invalidate_nodes (suc fuel) k nodes =
    let rest = invalidate_nodes fuel (k / 2) (insert k none nodes) in
    if k == 0 then done nodes else rest

-- A write through the `RefCell` at `page`.
abbrev pub borrow_mut : ℕ → CachedPage → Memory → Memory
borrow_mut page p m = record m { heap = update m.heap page p }

-- The nodes from the page at `addr` up to the root.
unfoldable pub invalidate_above : ℕ → Memory → Outcome Memory
invalidate_above addr m = do
  nodes ← invalidate_nodes 22 (bit_or (2 ^ 32) addr / 2 ^ page_addr_size % 2 ^ 32) m.nodes
  done (record m { nodes = nodes })

-- What `invalidate` does once the page is found.
unfoldable pub invalidate_at : ℕ → ℕ → Memory → Outcome Memory
invalidate_at addr page m = do
  p ← Page.invalidate (bit_and addr page_addr_mask) (m.heap page)
  let m' = borrow_mut page p m
  if (m.heap page).ok 1 then invalidate_above addr m' else done m'

unfoldable pub invalidate : ℕ → Memory → Outcome Memory
invalidate addr m =
    if bit_and addr 3 != 0
    then panic
    else let (found, m') = page_lookup (addr / 2 ^ page_addr_size) m in
      elim found [ none ↦ done m' | some page ↦ invalidate_at addr page m' ]

unfoldable pub alloc_page : ℕ → Memory → Outcome (ℕ × Memory)
alloc_page page_index m = do
  nodes ← invalidate_nodes 22 (bit_or (2 ^ page_key_size) page_index) m.nodes
  done (
    m.fresh,
    record m {
      heap = update m.heap m.fresh Page.new;
      fresh = m.fresh + 1;
      pages = insert page_index m.fresh m.pages;
      nodes = nodes;
    },
  )

-- `&cached_page.data[page_addr..page_addr + 4]` as a word.
unfoldable pub read_word : ℕ → CachedPage → Outcome ℕ
read_word page_addr p =
    if leb (page_addr + 4) page_size
    then done (from_be_bytes 0 (slice p.data_at page_addr 4))
    else panic

unfoldable pub get_memory : ℕ → Memory → Outcome (ℕ × Memory)
get_memory addr m =
    if bit_and addr 3 != 0
    then panic
    else let (found, m') = page_lookup (addr / 2 ^ page_addr_size) m in
      elim found [
        | none ↦ done (0, m')
        | some page ↦ do v ← read_word (bit_and addr page_addr_mask) (m'.heap page); done (v, m')
      ]

-- The page to write to: the one found, which is invalidated, or a new one.
unfoldable pub page_for_write : ℕ → Option ℕ → Memory → Outcome (ℕ × Memory)
page_for_write addr none m = alloc_page (addr / 2 ^ page_addr_size) m
page_for_write addr (some page) m = do m' ← invalidate addr m; done (page, m')

unfoldable pub write_word : ℕ → ℕ → CachedPage → Outcome CachedPage
write_word page_addr v p =
    if leb (page_addr + 4) page_size
    then done (record p { data_at = write_slice p.data_at page_addr (to_be_bytes 4 v) })
    else panic

unfoldable pub set_memory : ℕ → ℕ → Memory → Outcome Memory
set_memory addr v m = if bit_and addr 3 != 0 then panic else do
  let looked_up = page_lookup (addr / 2 ^ page_addr_size) m
  (page, m') ← page_for_write addr looked_up.0 looked_up.1
  p ← write_word (bit_and addr page_addr_mask) v (m'.heap page)
  done (borrow_mut page p m')

unfoldable pub read_memory_range : ℕ → ℕ → Memory → Memory
read_memory_range addr count m = record m { addr = addr; count = count }
