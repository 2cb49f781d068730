-- ===== src/Memory/Valid.antt =====
-- A memory's invariant, that its operations keep it, and what they promise one another.
use mips_emulator.Prelude.{ℕ, ◌+◌, ◌-◌, ◌/◌, ◌%◌, ◌^◌, ◌≤◌, ◌<◌, ◌≡◌, refl, arith}
use mips_emulator.Prelude.{◌≢◌, ◌⊎◌, inl, inr, ◌∙◌, ap}
use mips_emulator.Prelude.{Option}
use mips_emulator.Prelude.{◌==◌, if◌then◌else◌, Bool-cases}
use mips_emulator.Prelude.{ltb_of_lt, leb_of_le}
use mips_emulator.Prelude.{done}
use mips_emulator.Prelude.{nth}
use mips_emulator.Platform.{Platform, Digest}
use mips_emulator.Prelude.HashMap.{HashMap, get}
use mips_emulator.Word.{to_be_bytes}
use mips_emulator.Page.{zero_hash}
use mips_emulator.Page.Write.{new-IsCached}
use mips_emulator.Memory
use mips_emulator.Memory.{Memory, get_memory, set_memory}
use mips_emulator.Memory.View.{IsCoherent, new-IsCoherent, view, view_word, view-SameStore}
use mips_emulator.Memory.Invalidate.{IsCoherent-with_nodes}
use mips_emulator.Memory.Words.{get_memory_lem}
use mips_emulator.Memory.Writes.{AllCached, set_memory_lem, word_written}
use mips_emulator.Memory.Merkle.{merkle_root, merkle_proof}
use mips_emulator.Memory.Merkle.Roots.{IsZeroed, OnlyInvalidates-IsZeroed, merkle_root_lem}
use mips_emulator.Memory.Merkle.Proofs.{merkle_proof_lem, concat, zero_branch}

written_at :
    (a i v : ℕ) (f : ℕ → ℕ) → i < 4 → word_written a v f (a + i) ≡ nth (to_be_bytes 4 v) i 0
unfolding word_written
written_at a i v f h =
    let offset : a + i - a ≡ i = omega arith in
    rw (leb_of_le a (a + i) (omega arith), ltb_of_lt (a + i) (a + 4) (omega arith), offset) refl

written_off : (a c v : ℕ) (f : ℕ → ℕ) → (c < a) ⊎ (a + 4 ≤ c) → word_written a v f c ≡ f c
unfolding word_written
written_off a c v f h = ground arith

pub view_word-written_self :
    (a v : ℕ) (m m' : Memory)
    → v < 2 ^ 32
    → ((c : ℕ) → view m' c ≡ word_written a v (view m) c)
    → view_word m' a ≡ v
unfolding view_word to_be_bytes
view_word-written_self a v m m' small bytes =
    let b0 : view m' (a + 0) ≡ v / 256 ^ 3 % 256 =
      bytes (a + 0) ∙ written_at a 0 v (view m) (omega arith) in
    let b1 : view m' (a + 1) ≡ v / 256 ^ 2 % 256 =
      bytes (a + 1) ∙ written_at a 1 v (view m) (omega arith) in
    let b2 : view m' (a + 2) ≡ v / 256 ^ 1 % 256 =
      bytes (a + 2) ∙ written_at a 2 v (view m) (omega arith) in
    let b3 : view m' (a + 3) ≡ v / 256 ^ 0 % 256 =
      bytes (a + 3) ∙ written_at a 3 v (view m) (omega arith) in
    let b0' : view m' a ≡ v / 256 ^ 3 % 256 = ap (view m') (omega arith) ∙ b0 in
    rw (b0', b1, b2, b3) (omega arith)

view_word-written_off :
    (a b v : ℕ) (m m' : Memory)
    → a % 4 ≡ 0
    → b % 4 ≡ 0
    → b ≢ a
    → ((c : ℕ) → view m' c ≡ word_written a v (view m) c)
    → view_word m' b ≡ view_word m b
unfolding view_word
view_word-written_off a b v m m' aligned aligned' ne bytes =
    rw
      (
        off b (omega arith),
        off (b + 1) (omega arith),
        off (b + 2) (omega arith),
        off (b + 3) (omega arith),
      )
      refl
  where
    off : (c : ℕ) → (c < a) ⊎ (a + 4 ≤ c) → view m' c ≡ view m c
    off c h = bytes c ∙ written_off a c v (view m) h

module _ (platform : Platform) where
  pub record IsValid (m : Memory) : Type 0 where
    pub coherent : IsCoherent m
    pub cached : AllCached platform m
    pub zeroed : IsZeroed platform m.nodes

  pub new-IsValid : IsValid Memory.new
  new-IsValid = record {
    coherent = new-IsCoherent;
    cached = λ q. unfold Memory.new in new-IsCached platform;
    zeroed = unfold Memory.new get in record { valid = λ k h e. cc; invalid = λ k e. cc };
  }

  -- Computing Merkle nodes changes the nodes alone.
  with_nodes-IsValid :
      (nodes : HashMap (Option Digest)) {m : Memory}
      → IsZeroed platform nodes
      → IsValid m
      → IsValid (record m { nodes = nodes })
  with_nodes-IsValid nodes {m} z v = record {
    coherent = IsCoherent-with_nodes m.heap nodes v.coherent;
    cached = v.cached;
    zeroed = z;
  }

  -- `get_memory` of an aligned address of a valid memory reads the big-endian word there, 0 where
  -- nothing was ever written; it keeps the memory valid and every byte of it.
  pub get_memory-IsValid :
      (a : ℕ) {m : Memory}
      → a % 4 ≡ 0
      → IsValid m
      → (m' : Memory) × (get_memory a m ≡ done (view_word m a, m'))
        × ((b : ℕ) → view m' b ≡ view m b)
        × IsValid m'
  get_memory-IsValid a {m} aligned v =
      let (m', run, same, c) = get_memory_lem a aligned v.coherent in
      (
        m',
        run,
        λ b. view-SameStore b same,
        record { coherent = c; cached = rw same.heap v.cached; zeroed = rw same.nodes v.zeroed },
      )

  -- `set_memory` at an aligned address of a valid memory succeeds; after it the four bytes there
  -- are those of the word, every other byte is as before, and the memory is valid.
  pub set_memory-IsValid :
      (a v : ℕ) {m : Memory}
      → a < 2 ^ 32
      → a % 4 ≡ 0
      → IsValid m
      → (m' : Memory) × (set_memory a v m ≡ done m')
        × ((b : ℕ) → view m' b ≡ word_written a v (view m) b)
        × IsValid m'
  set_memory-IsValid a v {m} small aligned ok =
      let (m', run, bytes, nodes, c, all) =
        set_memory_lem platform a v small aligned ok.coherent ok.cached in
      (
        m',
        run,
        bytes,
        record {
          coherent = c;
          cached = all;
          zeroed = OnlyInvalidates-IsZeroed platform nodes ok.zeroed;
        },
      )

  -- After a word below 2^32 is set at an aligned address of a valid memory, reading an aligned
  -- address returns that word where the two addresses are one, and elsewhere what it returned
  -- before; all three calls succeed.
  pub get_memory-set_memory :
      (a b v : ℕ) {m : Memory}
      → a < 2 ^ 32
      → v < 2 ^ 32
      → a % 4 ≡ 0
      → b % 4 ≡ 0
      → IsValid m
      → (m1 m2 m3 : Memory) × (set_memory a v m ≡ done m1)
        × (get_memory b m1 ≡ done (if b == a then v else view_word m b, m2))
        × (get_memory b m ≡ done (view_word m b, m3))
  get_memory-set_memory a b v {m} small word_small aligned aligned' ok =
      let (m1, run, bytes, ok1) = set_memory-IsValid a v small aligned ok in
      let (m2, run2, same2, ok2) = get_memory-IsValid b aligned' ok1 in
      let (m3, run3, same3, ok3) = get_memory-IsValid b aligned' ok in
      (m1, m2, m3, run, run2 ∙ ap (λ (w : ℕ). done (w, m2)) (read_back m1 bytes), run3)
    where
      read_back :
          (m1 : Memory)
          → ((c : ℕ) → view m1 c ≡ word_written a v (view m) c)
          → view_word m1 b ≡ (if b == a then v else view_word m b)
      read_back m1 bytes = elim (Bool-cases (b == a)) [
        | inl e ↦
            let e' : b ≡ a = ground arith in
            rw e (ap (view_word m1) e' ∙ view_word-written_self a v m m1 word_small bytes)
        | inr e ↦ rw e (view_word-written_off a b v m m1 aligned aligned' (ground arith) bytes)
      ]

  -- The Merkle root of a valid memory is that of an all-zero tree, both before and after a word is
  -- set at an aligned address, whatever the word and the address: it does not depend on what the
  -- memory holds.
  pub merkle_root-set_memory :
      (a v : ℕ) {m : Memory}
      → a < 2 ^ 32
      → a % 4 ≡ 0
      → IsValid m
      → (m1 m2 m3 : Memory) × (set_memory a v m ≡ done m1)
        × (merkle_root platform m ≡ done (zero_hash platform 28, m2))
        × (merkle_root platform m1 ≡ done (zero_hash platform 28, m3))
  merkle_root-set_memory a v {m} small aligned ok =
      let (m1, run, bytes, ok1) = set_memory-IsValid a v small aligned ok in
      let (n2, run2, z2) = merkle_root_lem platform m ok.zeroed in
      let (n3, run3, z3) = merkle_root_lem platform m1 ok1.zeroed in
      (m1, record m { nodes = n2 }, record m1 { nodes = n3 }, run, run2, run3)

  pub merkle_root-IsValid :
      {m : Memory}
      → IsValid m
      → (m' : Memory) × (merkle_root platform m ≡ done (zero_hash platform 28, m'))
        × ((b : ℕ) → view m' b ≡ view m b)
        × IsValid m'
  merkle_root-IsValid {m} ok =
      let (nodes, run, z) = merkle_root_lem platform m ok.zeroed in
      (record m { nodes = nodes }, run, λ b. unfold view in refl, with_nodes-IsValid nodes z ok)

  -- `merkle_proof` of a valid memory succeeds at every address and returns the same bytes for each,
  -- the hashes of all-zero subtrees from height 1 up; it keeps the memory valid and every byte of
  -- it.
  pub merkle_proof-IsValid :
      (addr : ℕ) {m : Memory}
      → IsValid m
      → (m' : Memory) × (merkle_proof platform addr m ≡ done (concat (zero_branch platform 27), m'))
        × ((b : ℕ) → view m' b ≡ view m b)
        × IsValid m'
  merkle_proof-IsValid addr {m} ok =
      let (nodes, run, z) = merkle_proof_lem platform addr m ok.zeroed in
      (record m { nodes = nodes }, run, λ b. unfold view in refl, with_nodes-IsValid nodes z ok)
