-- ===== src/Memory/Writes.antt =====
-- `set_memory` against the bytes that the memory stands for, and the page trees under it.
use mips_emulator.Prelude.{ℕ, ◌+◌, ◌-◌, ◌/◌, ◌%◌, ◌^◌, ◌≤◌, ◌<◌, ◌≡◌, refl, arith}
use mips_emulator.Prelude.{false, ◌&&◌, ◌≢◌, ◌⊎◌, inl, inr, ◌∙◌, ap, fun_ext}
use mips_emulator.Prelude.{Option, none, some, length}
use mips_emulator.Prelude.{◌==◌, ltb, leb, if◌then◌else◌, Bool-cases}
use mips_emulator.Prelude.{leb_of_le, ==_self, ==_ne}
use mips_emulator.Prelude.{done}
use mips_emulator.Prelude.{write_slice, write_slice_outside, write_slice_inside, nth}
use mips_emulator.Platform.{Platform, Bytes}
use mips_emulator.Prelude.Bits.{bit_and_mask}
use mips_emulator.Prelude.HashMap.{get, get-insert}
use mips_emulator.Page
use mips_emulator.Page.{CachedPage}
use mips_emulator.Page.Tree.{IsCached}
use mips_emulator.Page.Write.{write-IsCached, unmarked-IsCached}
use mips_emulator.Word.{to_be_bytes}
use mips_emulator.Word.Laws.{length-to_be_bytes}
use mips_emulator.Memory.{Memory, page_lookup, set_memory, write_word, page_for_write, borrow_mut}
use mips_emulator.Memory.View.{
  IsCoherent, SameStore, view, byte_in, byte_in-update_same, byte_in-update_other, view-SameStore,
}
use mips_emulator.Memory.View.{page_lookup-eq-get, page_lookup-SameStore, page_lookup-IsCoherent}
use mips_emulator.Memory.Invalidate.{Invalidated, Allocated, OnlyInvalidates, aligned_test}
use mips_emulator.Memory.Invalidate.{
  IsCoherent-with_nodes, invalidate-Invalidated, alloc_page-Allocated,
}

-- The bytes of a page after four of them were overwritten.
write_slice_word :
    (f : ℕ → ℕ) (a b : ℕ) (word : Bytes)
    → a % 4 ≡ 0
    → length word ≡ 4
    → b / 4096 ≡ a / 4096
    → write_slice f (a % 4096) word (b % 4096)
      ≡ (if leb a b && ltb b (a + 4) then nth word (b - a) 0 else f (b % 4096))
write_slice_word f a b word aligned len page = elim (Bool-cases (leb a b && ltb b (a + 4))) [
  | inl e ↦
      let lo : a ≤ b = ground arith in
      let hi : b < a + 4 = ground arith in
      let offset : b % 4096 ≡ a % 4096 + (b - a) = omega arith in
      rw e (rw offset (write_slice_inside f (a % 4096) word (b - a) 0 (omega arith)))
  | inr e ↦
      let out : (b < a) ⊎ (a + 4 ≤ b) = ground arith in
      rw e (write_slice_outside f (a % 4096) word (b % 4096) (ground arith))
]

-- The byte at `b` after the word `v` was written at `a`.
unfoldable pub word_written : ℕ → ℕ → (ℕ → ℕ) → ℕ → ℕ
word_written a v before b =
    if leb a b && ltb b (a + 4) then nth (to_be_bytes 4 v) (b - a) 0 else before b

module _ (platform : Platform) where
  -- Every page's cached tree is right.
  abbrev pub AllCached : Memory → Type 0
  AllCached m = (q : ℕ) → IsCached platform (m.heap q)

  -- The memory is ready for a word to be written into the page `p` at `a`.
  record Ready (a p : ℕ) (m m' : Memory) : Type 0 where
    found : get m'.pages (a / 4096) ≡ some p
    same_view : (b : ℕ) → view m' b ≡ view m b
    others : (q : ℕ) → q ≢ p → IsCached platform (m'.heap q)
    target :
        (word : Bytes)
        → length word ≡ 4
        → IsCached platform
            (record (m'.heap p) { data_at = write_slice (m'.heap p).data_at (a % 4096) word })
    nodes : OnlyInvalidates m.nodes m'.nodes
    coherent : IsCoherent m'

  Invalidated-view : (a p : ℕ) {m m' : Memory} (b : ℕ) → Invalidated a p m m' → view m' b ≡ view m b
  unfolding view
  Invalidated-view a p {m} b i =
      rw (i.pages, i.heap) (byte_in-update_same (get m.pages (b / 4096)) m.heap p _ (b % 4096) refl)

  Invalidated-Ready :
      (a p : ℕ) {m m' : Memory}
      → a % 4 ≡ 0
      → get m.pages (a / 4096) ≡ some p
      → AllCached m
      → Invalidated a p m m'
      → Ready a p m m'
  Invalidated-Ready a p {m} aligned found all i = record {
    found = rw i.pages found;
    same_view = λ b. Invalidated-view a p b i;
    others = λ q ne. rw (i.heap, ==_ne q p ne) (all q);
    target = λ word len.
        rw (i.heap, ==_self p)
          (write-IsCached platform (m.heap p) (a % 4096) word (omega arith) (omega arith) len
            (all p));
    nodes = i.nodes;
    coherent = i.coherent;
  }

  pub Allocated-view :
      (j : ℕ) {m m' : Memory} (b : ℕ)
      → IsCoherent m
      → get m.pages j ≡ none
      → Allocated j m m'
      → view m' b ≡ view m b
  unfolding view
  Allocated-view j {m} b c free al =
      rw (al.pages, al.heap, get-insert m.pages j (b / 4096) m.fresh)
        (elim (Bool-cases (j == b / 4096)) [
          | inl e ↦
              let e' : b / 4096 ≡ j = ground arith in
              rw (e', ==_self j, free)
                (unfold byte_in Page.new in rw (byte_in, ==_self m.fresh) refl)
          | inr e ↦ rw e (
              byte_in-update_other (get m.pages (b / 4096)) m.heap m.fresh Page.new (b % 4096)
                (λ q f g. absurd (omega (arith, c.bound (b / 4096) q f))))
        ])

  Allocated-Ready :
      (a : ℕ) {m m' : Memory}
      → get m.pages (a / 4096) ≡ none
      → IsCoherent m
      → AllCached m
      → Allocated (a / 4096) m m'
      → Ready a m.fresh m m'
  Allocated-Ready a {m} free c all al = record {
    found = rw (al.pages, get-insert m.pages (a / 4096) (a / 4096) m.fresh) (ground arith);
    same_view = λ b. Allocated-view (a / 4096) b c free al;
    others = λ q ne. rw (al.heap, ==_ne q m.fresh ne) (all q);
    target = λ word len.
        rw (al.heap, ==_self m.fresh) (unfold Page.new in unmarked-IsCached platform _ (λ j. refl));
    nodes = al.nodes;
    coherent = al.coherent;
  }

  page_for_write-Ready :
      (a : ℕ) (o : Option ℕ) {m : Memory}
      → a < 2 ^ 32
      → a % 4 ≡ 0
      → get m.pages (a / 4096) ≡ o
      → IsCoherent m
      → AllCached m
      → (p : ℕ) × (m' : Memory) × (page_for_write a o m ≡ done (p, m')) × Ready a p m m'
  unfolding page_for_write
  page_for_write-Ready a none {m} small aligned e c all =
      let al = alloc_page-Allocated (a / 4096) (omega arith) e c in
      (m.fresh, al.0, al.1, Allocated-Ready a e c all al.2)
  page_for_write-Ready a (some p) {m} small aligned e c all =
      let i = invalidate-Invalidated a p small aligned e c in
      (p, i.0, rw i.1 refl, Invalidated-Ready a p aligned e all i.2)

  -- The write into a ready page.
  written : ℕ → ℕ → ℕ → Memory → Memory
  written a p v m =
      borrow_mut p
        (record (m.heap p) {
          data_at = write_slice (m.heap p).data_at (a % 4096) (to_be_bytes 4 v);
        })
        m

  write_word_lem :
      (i v : ℕ) (p : CachedPage)
      → i + 4 ≤ 4096
      → write_word i v p ≡ done (record p { data_at = write_slice p.data_at i (to_be_bytes 4 v) })
  unfolding write_word
  write_word_lem i v p h = rw (leb_of_le (i + 4) 4096 h) refl

  written-view :
      (a p v b : ℕ) {m : Memory}
      → a % 4 ≡ 0
      → get m.pages (a / 4096) ≡ some p
      → IsCoherent m
      → view (written a p v m) b ≡ word_written a v (view m) b
  unfolding view written word_written
  written-view a p v b {m} aligned found c = elim (Bool-cases (b / 4096 == a / 4096)) [
    | inl e ↦
        let same : b / 4096 ≡ a / 4096 = ground arith in
        rw (same, found)
          (unfold byte_in in
            rw (byte_in, ==_self p)
              (write_slice_word (m.heap p).data_at a b (to_be_bytes 4 v) aligned
                (length-to_be_bytes 4 v) same))
    | inr e ↦
        byte_in-update_other (get m.pages (b / 4096)) m.heap p _ (b % 4096)
          (λ q f g. ground (arith, c.apart (b / 4096) (a / 4096) p))
        ∙ not_in_word e
  ]
    where
      not_in_word :
          (b / 4096 == a / 4096) ≡ false
          → byte_in (get m.pages (b / 4096)) m.heap (b % 4096) ≡ word_written a v (view m) b
      not_in_word e =
          let ne : b / 4096 ≢ a / 4096 = ground arith in
          let out : (b < a) ⊎ (a + 4 ≤ b) = omega arith in ground arith

  written-AllCached :
      (a p v : ℕ) (m : Memory)
      → ((q : ℕ) → q ≢ p → IsCached platform (m.heap q))
      → IsCached platform (record (m.heap p) {
        data_at = write_slice (m.heap p).data_at (a % 4096) (to_be_bytes 4 v);
      })
      → AllCached (written a p v m)
  unfolding written
  written-AllCached a p v m others target q = elim (Bool-cases (q == p)) [
    | inl e ↦ rw e target
    | inr e ↦ rw e (others q (ground arith))
  ]

  -- `set_memory` at an aligned address writes the four bytes of the word there, leaves every other
  -- byte as it was, and keeps the page cache coherent and every page's tree right.
  pub set_memory_lem :
      (a v : ℕ) {m : Memory}
      → a < 2 ^ 32
      → a % 4 ≡ 0
      → IsCoherent m
      → AllCached m
      → (m' : Memory) × (set_memory a v m ≡ done m')
        × ((b : ℕ) → view m' b ≡ word_written a v (view m) b)
        × OnlyInvalidates m.nodes m'.nodes
        × IsCoherent m'
        × AllCached m'
  unfolding set_memory
  set_memory_lem a v {m} small aligned c all = finish (
      page_for_write-Ready a (get m.pages (a / 4096)) {m = m1} small aligned (rw same.pages refl)
        (page_lookup-IsCoherent (a / 4096) c) (rw same.heap all))
    where
      m1 : Memory
      m1 = (page_lookup (a / 4096) m).1

      same : SameStore m m1
      same = page_lookup-SameStore (a / 4096) m

      finish :
          (p : ℕ) × (m' : Memory) × (page_for_write a (get m.pages (a / 4096)) m1 ≡ done (p, m'))
            × Ready a p m1 m'
          → (m' : Memory) × (set_memory a v m ≡ done m')
            × ((b : ℕ) → view m' b ≡ word_written a v (view m) b)
            × OnlyInvalidates m.nodes m'.nodes
            × IsCoherent m'
            × AllCached m'
      finish (p, m', run, ready) = (
        written a p v m',
        rw
            (
              aligned_test a aligned,
              page_lookup-eq-get (a / 4096) c,
              run,
              bit_and_mask 12 a,
              write_word_lem (a % 4096) v (m'.heap p) (omega arith),
            )
            (unfold written in refl),
        λ b.
            written-view a p v b aligned ready.found ready.coherent
            ∙ ap (λ (f : ℕ → ℕ). word_written a v f b)
                (fun_ext (λ b'. ready.same_view b' ∙ view-SameStore b' same)),
        unfold written in rw (← same.nodes) ready.nodes,
        unfold written in IsCoherent-with_nodes _ m'.nodes ready.coherent,
        written-AllCached a p v m' ready.others
            (ready.target (to_be_bytes 4 v) (length-to_be_bytes 4 v)),
      )
