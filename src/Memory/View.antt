-- ===== src/Memory/View.antt =====
-- The bytes that a memory stands for, and the coherence of its page cache and page numbers.
use mips_emulator.Prelude.{ℕ, ◌+◌, ◌*◌, ◌/◌, ◌%◌, ◌^◌, ◌<◌, ◌≡◌, refl, arith}
use mips_emulator.Prelude.{true, ◌≢◌, ◌⊎◌, inl, inr, sym}
use mips_emulator.Prelude.{Option, none, some}
use mips_emulator.Prelude.{holds, Bool-cases, Option-cases}
use mips_emulator.Prelude.{==_ne}
use mips_emulator.Prelude.{update}
use mips_emulator.Prelude.HashMap.{get}
use mips_emulator.Page.{CachedPage}
use mips_emulator.Memory
use mips_emulator.Memory.{Memory, page_lookup}

-- The byte at index `i` of the page that is found, 0 where there is none.
unfoldable pub byte_in : Option ℕ → (ℕ → CachedPage) → ℕ → ℕ
byte_in none heap i = 0
byte_in (some page) heap i = (heap page).data_at i

-- A page is replaced by one with the same byte there.
pub byte_in-update_same :
    (o : Option ℕ) (heap : ℕ → CachedPage) (p : ℕ) (x : CachedPage) (i : ℕ)
    → x.data_at i ≡ (heap p).data_at i
    → byte_in o (update heap p x) i ≡ byte_in o heap i
unfolding byte_in
byte_in-update_same none heap p x i h = refl
byte_in-update_same (some q) heap p x i h = ground arith

-- Another page is replaced.
pub byte_in-update_other :
    (o : Option ℕ) (heap : ℕ → CachedPage) (p : ℕ) (x : CachedPage) (i : ℕ)
    → ((q : ℕ) → o ≡ some q → q ≢ p)
    → byte_in o (update heap p x) i ≡ byte_in o heap i
unfolding byte_in
byte_in-update_other none heap p x i h = refl
byte_in-update_other (some q) heap p x i h = rw (byte_in, ==_ne q p (h q refl)) refl

-- The byte at an address.
unfoldable pub view : Memory → ℕ → ℕ
view m a = byte_in (get m.pages (a / 4096)) m.heap (a % 4096)

-- The big-endian word at an address.
unfoldable pub view_word : Memory → ℕ → ℕ
view_word m a =
    view m a * 2 ^ 24 + view m (a + 1) * 2 ^ 16 + view m (a + 2) * 2 ^ 8 + view m (a + 3)

-- What the cache remembers is what the map has, and two page indices never share a page.
pub record IsCoherent (m : Memory) : Type 0 where
  pub key0 : (k : ℕ) → m.last_page_key0 ≡ some k → get m.pages k ≡ m.last_page0
  pub key1 : (k : ℕ) → m.last_page_key1 ≡ some k → get m.pages k ≡ m.last_page1
  pub full0 : (k : ℕ) → m.last_page_key0 ≡ some k → get m.pages k ≢ none
  pub full1 : (k : ℕ) → m.last_page_key1 ≡ some k → get m.pages k ≢ none
  pub bound : (k p : ℕ) → get m.pages k ≡ some p → p < m.fresh
  pub apart : (j k p : ℕ) → get m.pages j ≡ some p → get m.pages k ≡ some p → j ≡ k

-- Only the page cache differs.
pub record SameStore (m m' : Memory) : Type 0 where
  pub nodes : m'.nodes ≡ m.nodes
  pub pages : m'.pages ≡ m.pages
  pub heap : m'.heap ≡ m.heap
  pub fresh : m'.fresh ≡ m.fresh
  pub addr : m'.addr ≡ m.addr
  pub count : m'.count ≡ m.count

pub new-IsCoherent : IsCoherent Memory.new
unfolding Memory.new get
new-IsCoherent = record {
  key0 = λ k e. cc;
  key1 = λ k e. cc;
  full0 = λ k e. cc;
  full1 = λ k e. cc;
  bound = λ k p e. cc;
  apart = λ j k p e f. cc;
}

holds-some : (o : Option ℕ) (k : ℕ) → holds o k ≡ true → o ≡ some k
holds-some none k h = cc
holds-some (some j) k h = ground arith

-- Through the cache or not, a lookup finds what the map has.
pub page_lookup-eq-get : (i : ℕ) {m : Memory} → IsCoherent m → (page_lookup i m).0 ≡ get m.pages i
unfolding page_lookup
page_lookup-eq-get i {m} c = elim (Bool-cases (holds m.last_page_key0 i)) [
  | inl e ↦ rw e (sym (c.key0 i (holds-some m.last_page_key0 i e)))
  | inr e ↦ elim (Bool-cases (holds m.last_page_key1 i)) [
    | inl f ↦ rw (e, f) (sym (c.key1 i (holds-some m.last_page_key1 i f)))
    | inr f ↦ elim (Option-cases (get m.pages i)) [
      | inl g ↦ rw (e, f, g)
      | inr (p, g) ↦ rw (e, f, g)
    ]
  ]
]

-- The cache after a page was found in the map.
abbrev remember : ℕ → ℕ → Memory → Memory
remember i p m = record m {
  last_page_key1 = m.last_page_key0;
  last_page1 = m.last_page0;
  last_page_key0 = some i;
  last_page0 = some p;
}

page_lookup_cases :
    (i : ℕ) (m : Memory)
    → ((page_lookup i m).1 ≡ m)
      ⊎ ((p : ℕ) × (get m.pages i ≡ some p) × ((page_lookup i m).1 ≡ remember i p m))
unfolding page_lookup
page_lookup_cases i m = elim (Bool-cases (holds m.last_page_key0 i)) [
  | inl e ↦ inl (rw e refl)
  | inr e ↦ elim (Bool-cases (holds m.last_page_key1 i)) [
    | inl f ↦ inl (rw (e, f) refl)
    | inr f ↦ elim (Option-cases (get m.pages i)) [
      | inl g ↦ inl (rw (e, f, g) refl)
      | inr (p, g) ↦ inr (p, g, rw (e, f, g) refl)
    ]
  ]
]

SameStore-refl : (m : Memory) → SameStore m m
SameStore-refl m = record {
  nodes = refl;
  pages = refl;
  heap = refl;
  fresh = refl;
  addr = refl;
  count = refl;
}

SameStore-remember : (i p : ℕ) (m : Memory) → SameStore m (remember i p m)
SameStore-remember i p m = record {
  nodes = refl;
  pages = refl;
  heap = refl;
  fresh = refl;
  addr = refl;
  count = refl;
}

pub page_lookup-SameStore : (i : ℕ) (m : Memory) → SameStore m (page_lookup i m).1
page_lookup-SameStore i m = elim (page_lookup_cases i m) [
  | inl e ↦ rw e (SameStore-refl m)
  | inr (p, g, e) ↦ rw e (SameStore-remember i p m)
]

remember-IsCoherent :
    (i p : ℕ) {m : Memory} → get m.pages i ≡ some p → IsCoherent m → IsCoherent (remember i p m)
remember-IsCoherent i p {m} g c = record {
  key0 = λ k e. ground arith;
  key1 = c.key0;
  full0 = λ k e. ground arith;
  full1 = c.full0;
  bound = c.bound;
  apart = c.apart;
}

pub page_lookup-IsCoherent : (i : ℕ) {m : Memory} → IsCoherent m → IsCoherent (page_lookup i m).1
page_lookup-IsCoherent i {m} c = elim (page_lookup_cases i m) [
  | inl e ↦ rw e c
  | inr (p, g, e) ↦ rw e (remember-IsCoherent i p g c)
]

pub view-SameStore : {m m' : Memory} (a : ℕ) → SameStore m m' → view m' a ≡ view m a
unfolding view
view-SameStore a s = rw (s.pages, s.heap)
