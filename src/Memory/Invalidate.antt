-- ===== src/Memory/Invalidate.antt =====
-- `Memory::invalidate` and `Memory::alloc_page`: what they change, and that they end.
use mips_emulator.Prelude.{ℕ, zero, suc, ◌+◌, ◌/◌, ◌%◌, ◌^◌, ◌<◌, ◌≡◌, refl, arith}
use mips_emulator.Prelude.{true, false, ◌≢◌, ◌⊎◌, inl, inr, ◌∙◌}
use mips_emulator.Prelude.{Option, none, some}
use mips_emulator.Prelude.{◌==◌, ◌!=◌, Bool-cases}
use mips_emulator.Prelude.{bit_and, bit_or}
use mips_emulator.Prelude.{done}
use mips_emulator.Prelude.{update}
use mips_emulator.Platform.{Digest}
use native.Mathlib.Nat.{pow-suc}
use mips_emulator.Prelude.Bits.{bit_and_mask, bit_or_high_low}
use mips_emulator.Prelude.HashMap.{HashMap, get, get-insert, insert}
use mips_emulator.Page
use mips_emulator.Page.{CachedPage}
use mips_emulator.Page.Path.{cleared, invalidate_lem}
use mips_emulator.Memory.{Memory, page_lookup, invalidate, invalidate_at, invalidate_above}
use mips_emulator.Memory.{invalidate_nodes, alloc_page, borrow_mut}
use mips_emulator.Memory.View.{IsCoherent, SameStore, page_lookup-eq-get, page_lookup-SameStore}
use mips_emulator.Memory.View.{page_lookup-IsCoherent}

-- Nodes are only invalidated, and only those at page level or above.
abbrev pub OnlyInvalidates : HashMap (Option Digest) → HashMap (Option Digest) → Type 0
OnlyInvalidates old new =
    (j : ℕ) → (get new j ≡ get old j) ⊎ ((get new j ≡ some none) × (j < 2 ^ 21))

pub invalidate_nodes_lem :
    (n k : ℕ) (nodes : HashMap (Option Digest))
    → k < 2 ^ n
    → k < 2 ^ 21
    → (nodes' : HashMap (Option Digest)) × (invalidate_nodes (suc n) k nodes ≡ done nodes')
      × OnlyInvalidates nodes nodes'
unfolding invalidate_nodes
invalidate_nodes_lem zero k nodes h l =
    let e : k ≡ 0 = omega arith in (nodes, rw e refl, λ j. inl refl)
invalidate_nodes_lem (suc n) k nodes h l = elim (Bool-cases (k == 0)) [
  | inl e ↦ (nodes, rw e refl, λ j. inl refl)
  | inr e ↦
      let halved : k / 2 < 2 ^ n = omega (arith, pow-suc 2 n) in
      let rest = invalidate_nodes_lem n (k / 2) (insert k none nodes) halved (omega arith) in
      (rest.0, rw e rest.1, λ j. ground (arith, rest.2 j, get-insert nodes k j none))
]

-- The memory after the page `p` at `a` was marked for a write.
pub record Invalidated (a p : ℕ) (m m' : Memory) : Type 0 where
  pub pages : m'.pages ≡ m.pages
  pub fresh : m'.fresh ≡ m.fresh
  pub heap :
      m'.heap
      ≡ update m.heap p (record (m.heap p) { ok = cleared 7 (64 + a % 4096 / 64) (m.heap p).ok })
  pub nodes : OnlyInvalidates m.nodes m'.nodes
  pub coherent : IsCoherent m'

abbrev marked : ℕ → ℕ → Memory → Memory
marked a p m =
    borrow_mut p (record (m.heap p) { ok = cleared 7 (64 + a % 4096 / 64) (m.heap p).ok }) m

abbrev with_nodes : HashMap (Option Digest) → Memory → Memory
with_nodes nodes m = record m { nodes = nodes }

pub IsCoherent-with_nodes :
    (h : ℕ → CachedPage) (nodes : HashMap (Option Digest)) {m : Memory}
    → IsCoherent m
    → IsCoherent (record m { heap = h; nodes = nodes })
IsCoherent-with_nodes h nodes c = record {
  key0 = c.key0;
  key1 = c.key1;
  full0 = c.full0;
  full1 = c.full1;
  bound = c.bound;
  apart = c.apart;
}

page_node : (a : ℕ) → a < 2 ^ 32 → bit_or (2 ^ 32) a / 2 ^ 12 % 2 ^ 32 ≡ 2 ^ 20 + a / 4096
page_node a h = omega (arith, bit_or_high_low 32 1 a h)

invalidate_above_lem :
    (a : ℕ) (m : Memory)
    → a < 2 ^ 32
    → (nodes : HashMap (Option Digest)) × (invalidate_above a m ≡ done (with_nodes nodes m))
      × OnlyInvalidates m.nodes nodes
unfolding invalidate_above
invalidate_above_lem a m small =
    let nodes = invalidate_nodes_lem 21 (2 ^ 20 + a / 4096) m.nodes (omega arith) (omega arith) in
    (nodes.0, rw (page_node a small, nodes.1), nodes.2)

page_offset : (a : ℕ) → bit_and a 4095 ≡ a % 4096
page_offset a = bit_and_mask 12 a

invalidate_at_marks :
    (a p : ℕ) (m : Memory)
    → Page.invalidate (bit_and a 4095) (m.heap p)
      ≡ done (record (m.heap p) { ok = cleared 7 (64 + a % 4096 / 64) (m.heap p).ok })
invalidate_at_marks a p m = rw page_offset (invalidate_lem (a % 4096) (m.heap p) (omega arith))

pub invalidate_at-Invalidated :
    (a p : ℕ) {m : Memory}
    → a < 2 ^ 32
    → IsCoherent m
    → (m' : Memory) × (invalidate_at a p m ≡ done m') × Invalidated a p m m'
unfolding invalidate_at
invalidate_at-Invalidated a p {m} small c = elim (Bool-cases ((m.heap p).ok 1)) [
  | inl e ↦
      let above = invalidate_above_lem a (marked a p m) small in
      (
        with_nodes above.0 (marked a p m),
        rw (invalidate_at_marks a p m, e) above.1,
        record {
          pages = refl;
          fresh = refl;
          heap = refl;
          nodes = above.2;
          coherent = IsCoherent-with_nodes (marked a p m).heap above.0 c;
        },
      )
  | inr e ↦ (
    marked a p m,
    rw (invalidate_at_marks a p m, e) refl,
    record {
      pages = refl;
      fresh = refl;
      heap = refl;
      nodes = λ j. inl refl;
      coherent = IsCoherent-with_nodes (marked a p m).heap m.nodes c;
    },
  )
]

-- The page cache that a lookup leaves changes nothing of this.
Invalidated-SameStore :
    (a p : ℕ) {m m1 m' : Memory} → SameStore m m1 → Invalidated a p m1 m' → Invalidated a p m m'
Invalidated-SameStore a p s i = record {
  pages = i.pages ∙ s.pages;
  fresh = i.fresh ∙ s.fresh;
  heap = rw (← s.heap) i.heap;
  nodes = rw (← s.nodes) i.nodes;
  coherent = i.coherent;
}

pub aligned_test : (a : ℕ) → a % 4 ≡ 0 → (bit_and a 3 != 0) ≡ false
aligned_test a h = ground (arith, bit_and_mask 2 a)

pub unaligned_test : (a : ℕ) → a % 4 ≢ 0 → (bit_and a 3 != 0) ≡ true
unaligned_test a h = ground (arith, bit_and_mask 2 a)

pub invalidate-Invalidated :
    (a p : ℕ) {m : Memory}
    → a < 2 ^ 32
    → a % 4 ≡ 0
    → get m.pages (a / 4096) ≡ some p
    → IsCoherent m
    → (m' : Memory) × (invalidate a m ≡ done m') × Invalidated a p m m'
unfolding invalidate
invalidate-Invalidated a p {m} small aligned found c =
    let m1 = (page_lookup (a / 4096) m).1 in
    let at = invalidate_at-Invalidated a p small (page_lookup-IsCoherent (a / 4096) c) in
    (
      at.0,
      rw (aligned_test a aligned, page_lookup-eq-get (a / 4096) c, found) at.1,
      Invalidated-SameStore a p (page_lookup-SameStore (a / 4096) m) at.2,
    )

-- The memory after page `i` was allocated.
pub record Allocated (i : ℕ) (m m' : Memory) : Type 0 where
  pub pages : m'.pages ≡ insert i m.fresh m.pages
  pub fresh : m'.fresh ≡ m.fresh + 1
  pub heap : m'.heap ≡ update m.heap m.fresh Page.new
  pub nodes : OnlyInvalidates m.nodes m'.nodes
  pub coherent : IsCoherent m'

abbrev allocated : ℕ → HashMap (Option Digest) → Memory → Memory
allocated i nodes m = record m {
  heap = update m.heap m.fresh Page.new;
  fresh = m.fresh + 1;
  pages = insert i m.fresh m.pages;
  nodes = nodes;
}

allocated-IsCoherent :
    (i : ℕ) (nodes : HashMap (Option Digest)) {m : Memory}
    → get m.pages i ≡ none
    → IsCoherent m
    → IsCoherent (allocated i nodes m)
allocated-IsCoherent i nodes {m} free c = record {
  key0 = λ k e. ground (arith, get-insert m.pages i k m.fresh, c.key0 k e, c.full0 k e);
  key1 = λ k e. ground (arith, get-insert m.pages i k m.fresh, c.key1 k e, c.full1 k e);
  full0 = λ k e f. ground (arith, get-insert m.pages i k m.fresh, c.full0 k e);
  full1 = λ k e f. ground (arith, get-insert m.pages i k m.fresh, c.full1 k e);
  bound = λ k p e. ground (arith, get-insert m.pages i k m.fresh, c.bound k p);
  apart = λ j k p e f. ground (
    arith,
    get-insert m.pages i j m.fresh,
    get-insert m.pages i k m.fresh,
    c.bound j p,
    c.bound k p,
    c.apart j k p,
  );
}

pub alloc_page-Allocated :
    (i : ℕ) {m : Memory}
    → i < 2 ^ 20
    → get m.pages i ≡ none
    → IsCoherent m
    → (m' : Memory) × (alloc_page i m ≡ done (m.fresh, m')) × Allocated i m m'
unfolding alloc_page
alloc_page-Allocated i {m} small free c =
    let nodes = invalidate_nodes_lem 21 (2 ^ 20 + i) m.nodes (omega arith) (omega arith) in
    (
      allocated i nodes.0 m,
      rw (bit_or_high_low 20 1 i small, nodes.1) refl,
      record {
        pages = refl;
        fresh = refl;
        heap = refl;
        nodes = nodes.2;
        coherent = allocated-IsCoherent i nodes.0 free c;
      },
    )
