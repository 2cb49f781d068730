-- ===== src/Memory/Range.antt =====
-- `set_memory_range` against the bytes that the memory stands for.
use mips_emulator.Prelude.{ℕ, zero, suc, ◌+◌, ◌-◌, ◌/◌, ◌%◌, ◌^◌, ◌≤◌, ◌<◌, ◌≡◌, refl, arith}
use mips_emulator.Prelude.{false, ◌&&◌, ◌≢◌, ◌⊎◌, inl, inr, ◌∙◌, ap}
use mips_emulator.Prelude.{Option, none, some, [], ◌∷◌, length, take, drop, nth, length-drop}
use mips_emulator.Prelude.{◌==◌, ltb, leb, if◌then◌else◌, Bool-cases, ==_self}
use mips_emulator.Prelude.{done, write_slice, write_slice_outside, write_slice_inside}
use mips_emulator.Prelude.HashMap.{get, get-insert}
use mips_emulator.Platform.{Platform, Bytes}
use mips_emulator.Page
use mips_emulator.Page.{CachedPage}
use mips_emulator.Page.Tree.{IsCached}
use mips_emulator.Page.Write.{unmarked-IsCached, new-IsCached}
use mips_emulator.Memory.{Memory, borrow_mut}
use mips_emulator.Memory.Io.{page_or_alloc}
use mips_emulator.Memory.View.{IsCoherent, view, byte_in, byte_in-update_other}
use mips_emulator.Memory.Invalidate.{OnlyInvalidates, alloc_page-Allocated}
use mips_emulator.Memory.Writes.{AllCached, Allocated-view}

-- The byte at `b` after the bytes `r` were written from `a` on.
unfoldable pub bytes_written : ℕ → Bytes → (ℕ → ℕ) → ℕ → ℕ
bytes_written a r before b = if leb a b && ltb b (a + length r) then nth r (b - a) 0 else before b

nth-take : (n i : ℕ) (xs : Bytes) → i < n → nth (take n xs) i 0 ≡ nth xs i 0
nth-take zero i xs h = absurd (omega arith)
nth-take (suc n) i [] h = refl
nth-take (suc n) zero (x ∷ xs) h = refl
nth-take (suc n) (suc i) (x ∷ xs) h = nth-take n i xs (omega arith)

nth-drop : (n i : ℕ) (xs : Bytes) → nth (drop n xs) i 0 ≡ nth xs (n + i) 0
nth-drop zero i xs = ap (λ (k : ℕ). nth xs k 0) (omega arith)
nth-drop (suc n) i [] = refl
nth-drop (suc n) i (x ∷ xs) =
    let up : suc n + i ≡ suc (n + i) = omega arith in nth-drop n i xs ∙ rw up refl

pub length-take_min : (n : ℕ) (xs : Bytes) → n ≤ length xs → length (take n xs) ≡ n
length-take_min zero xs h = refl
length-take_min (suc n) [] h = absurd (omega arith)
length-take_min (suc n) (x ∷ xs) h = omega (arith, length-take_min n xs)

pub bytes_written_none :
    (a b : ℕ) (r : Bytes) (f : ℕ → ℕ) → length r ≡ 0 → bytes_written a r f b ≡ f b
unfolding bytes_written
bytes_written_none a b r f h = ground arith

-- Bytes that are written in two parts.
pub bytes_written_parts :
    (a n : ℕ) (r : Bytes) (f : ℕ → ℕ) (b : ℕ)
    → n ≤ length r
    → bytes_written (a + n) (drop n r) (bytes_written a (take n r) f) b ≡ bytes_written a r f b
unfolding bytes_written
bytes_written_parts a n r f b h = ground (
  arith,
  length-drop n r,
  length-take_min n r h,
  nth-take n (b - a) r,
  nth-drop n (b - (a + n)) r,
)

-- Within a page.
write_slice_bytes :
    (f : ℕ → ℕ) (a b : ℕ) (r : Bytes)
    → a % 4096 + length r ≤ 4096
    → b / 4096 ≡ a / 4096
    → write_slice f (a % 4096) r (b % 4096)
      ≡ (if leb a b && ltb b (a + length r) then nth r (b - a) 0 else f (b % 4096))
write_slice_bytes f a b r fits page = elim (Bool-cases (leb a b && ltb b (a + length r))) [
  | inl e ↦
      let lo : a ≤ b = ground arith in
      let hi : b < a + length r = ground arith in
      let offset : b % 4096 ≡ a % 4096 + (b - a) = omega arith in
      rw e (rw offset (write_slice_inside f (a % 4096) r (b - a) 0 (omega arith)))
  | inr e ↦
      let out : (b < a) ⊎ (a + length r ≤ b) = ground arith in
      rw e (write_slice_outside f (a % 4096) r (b % 4096) (ground arith))
]

module _ (platform : Platform) where
  -- The page `p` is that of the address.
  pub record Found (a p : ℕ) (m m' : Memory) : Type 0 where
    pub found : get m'.pages (a / 4096) ≡ some p
    pub same_view : (b : ℕ) → view m' b ≡ view m b
    pub cached : AllCached platform m'
    pub nodes : OnlyInvalidates m.nodes m'.nodes
    pub coherent : IsCoherent m'

  pub page_or_alloc-Found :
      (a : ℕ) (o : Option ℕ) {m : Memory}
      → a < 2 ^ 32
      → get m.pages (a / 4096) ≡ o
      → IsCoherent m
      → AllCached platform m
      → (p : ℕ) × (m' : Memory) × (page_or_alloc (a / 4096) o m ≡ done (p, m')) × Found a p m m'
  unfolding page_or_alloc
  page_or_alloc-Found a none {m} small e c all =
      let (m', run, al) = alloc_page-Allocated (a / 4096) (omega arith) e c in
      (
        m.fresh,
        m',
        run,
        record {
          found = rw (al.pages, get-insert m.pages (a / 4096) (a / 4096) m.fresh) (ground arith);
          same_view = λ b. Allocated-view platform (a / 4096) b c e al;
          cached = λ q. rw al.heap (fresh_cached q);
          nodes = al.nodes;
          coherent = al.coherent;
        },
      )
    where
      fresh_cached : (q : ℕ) → IsCached platform (if q == m.fresh then Page.new else m.heap q)
      fresh_cached q = elim (Bool-cases (q == m.fresh)) [
        | inl e ↦ rw e (new-IsCached platform)
        | inr e ↦ rw e (all q)
      ]
  page_or_alloc-Found a (some p) {m} small e c all = (
    p,
    m,
    refl,
    record { found = e; same_view = λ b. refl; cached = all; nodes = λ j. inl refl; coherent = c },
  )

  -- The bytes are copied into the page.
  unfoldable pub copied : ℕ → ℕ → Bytes → Memory → Memory
  copied a p r m =
      let page = Page.invalidate_full (m.heap p) in
      borrow_mut p (record page { data_at = write_slice page.data_at (a % 4096) r }) m

  pub copied-view :
      (a p b : ℕ) (r : Bytes) {m : Memory}
      → a % 4096 + length r ≤ 4096
      → get m.pages (a / 4096) ≡ some p
      → IsCoherent m
      → view (copied a p r m) b ≡ bytes_written a r (view m) b
  unfolding view copied bytes_written Page.invalidate_full
  copied-view a p b r {m} fits found c = elim (Bool-cases (b / 4096 == a / 4096)) [
    | inl e ↦
        let same : b / 4096 ≡ a / 4096 = ground arith in
        rw (same, found)
          (unfold byte_in in
            rw (byte_in, ==_self p) (write_slice_bytes (m.heap p).data_at a b r fits same))
    | inr e ↦
        byte_in-update_other (get m.pages (b / 4096)) m.heap p _ (b % 4096)
          (λ q f g. ground (arith, c.apart (b / 4096) (a / 4096) p))
        ∙ not_there e
  ]
    where
      not_there :
          (b / 4096 == a / 4096) ≡ false
          → byte_in (get m.pages (b / 4096)) m.heap (b % 4096) ≡ bytes_written a r (view m) b
      not_there e =
          let ne : b / 4096 ≢ a / 4096 = ground arith in
          let out : (b < a) ⊎ (a + length r ≤ b) = omega arith in ground arith

  pub copied-AllCached :
      (a p : ℕ) (r : Bytes) (m : Memory)
      → AllCached platform m
      → AllCached platform (copied a p r m)
  unfolding copied Page.invalidate_full
  copied-AllCached a p r m all q = elim (Bool-cases (q == p)) [
    | inl e ↦ rw e (unmarked-IsCached platform _ (λ j. refl))
    | inr e ↦ rw e (all q)
  ]
