-- ===== src/Memory/Sound.antt =====
-- A memory that is valid and holds bytes, and that every access which succeeds keeps it so.
use mips_emulator.Prelude.{ℕ, zero, suc, ◌+◌, ◌-◌, ◌/◌, ◌%◌, ◌^◌, ◌<◌, ◌≡◌, arith}
use mips_emulator.Prelude.{false, inl, inr, ◌∙◌, ap, sym, Bool-cases, ◌==◌, ◌!=◌}
use mips_emulator.Prelude.{[], ◌∷◌, ◌++◌, bit_and}
use mips_emulator.Prelude.{Outcome, done, ◌>>=◌, after, nth}
use mips_emulator.Prelude.Bits.{bit_and_mask}
use mips_emulator.Platform.{Platform, Bytes, Digest}
use mips_emulator.Word.{to_be_bytes, add32, sub32}
use mips_emulator.Memory.{Memory, get_memory, set_memory, read_memory_range, page_lookup}
use mips_emulator.Memory.Io.{read, read_to_end, page_bytes}
use mips_emulator.Memory.View.{
  view, view_word, page_lookup-SameStore, page_lookup-IsCoherent, view-SameStore,
}
use mips_emulator.Memory.Writes.{word_written}
use mips_emulator.Memory.Merkle.{merkle_proof, merkle_root}
use mips_emulator.Memory.Valid.{
  IsValid, get_memory-IsValid, set_memory-IsValid, merkle_proof-IsValid, merkle_root-IsValid,
}

-- Where an access at an address does not panic, the address is aligned.
aligned_of_test : (a : ℕ) → (bit_and a 3 != 0) ≡ false → a % 4 ≡ 0
aligned_of_test a h = ground (arith, bit_and_mask 2 a)

get_memory_aligned : (a : ℕ) (m : Memory) {r : ℕ × Memory} → get_memory a m ≡ done r → a % 4 ≡ 0
unfolding get_memory
get_memory_aligned a m e = ground (arith, aligned_of_test a)

set_memory_aligned : (a v : ℕ) (m : Memory) {m' : Memory} → set_memory a v m ≡ done m' → a % 4 ≡ 0
unfolding set_memory
set_memory_aligned a v m e = ground (arith, aligned_of_test a)

byte_of_word : (v i : ℕ) → nth (to_be_bytes 4 v) i 0 < 256
unfolding to_be_bytes
byte_of_word v zero = omega arith
byte_of_word v (suc zero) = omega arith
byte_of_word v (suc (suc zero)) = omega arith
byte_of_word v (suc (suc (suc zero))) = omega arith
byte_of_word v (suc (suc (suc (suc i)))) = omega arith

written_byte : (a v b : ℕ) (f : ℕ → ℕ) → f b < 256 → word_written a v f b < 256
unfolding word_written
written_byte a v b f h = ground (arith, byte_of_word v (b - a))

module _ (platform : Platform) where
  pub record IsSound (m : Memory) : Type 0 where
    pub valid : IsValid platform m
    pub byte : (b : ℕ) → view m b < 256

  word_small : (a : ℕ) {m : Memory} → IsSound m → view_word m a < 2 ^ 32
  unfolding view_word
  word_small a s = omega (arith, s.byte a, s.byte (a + 1), s.byte (a + 2), s.byte (a + 3))

  -- What a read returns, where it succeeds.
  pub get_memory-IsSound :
      (a : ℕ) {m : Memory} {v : ℕ} {m' : Memory}
      → IsSound m
      → get_memory a m ≡ done (v, m')
      → IsSound m' × (v < 2 ^ 32) × (v ≡ view_word m a) × ((b : ℕ) → view m' b ≡ view m b)
  get_memory-IsSound a {m} {v} {m'} s e =
      let (m1, run, same, ok) =
        get_memory-IsValid platform a {m = m} (get_memory_aligned a m e) s.valid in
      let value : v ≡ view_word m a = cc in
      let memory : m1 ≡ m' = cc in
      (
        record {
          valid = rw memory at ok;
          byte = λ b. omega (arith, s.byte b, same b, ap (λ (x : Memory). view x b) memory);
        },
        omega (arith, value, word_small a s),
        value,
        λ b. sym (ap (λ (x : Memory). view x b) memory) ∙ same b,
      )

  pub set_memory-IsSound :
      (a v : ℕ) {m m' : Memory} → a < 2 ^ 32 → IsSound m → set_memory a v m ≡ done m' → IsSound m'
  set_memory-IsSound a v {m} {m'} small s e =
      let (m1, run, bytes, ok) =
        set_memory-IsValid platform a v {m = m} small (set_memory_aligned a v m e) s.valid in
      let memory : m1 ≡ m' = cc in
      record {
        valid = rw memory at ok;
        byte = λ b. omega (
          arith,
          bytes b,
          written_byte a v b (view m) (s.byte b),
          ap (λ (x : Memory). view x b) memory,
        );
      }

  pub merkle_proof-IsSound :
      (a : ℕ) {m : Memory} {proof : Bytes} {m' : Memory}
      → IsSound m
      → merkle_proof platform a m ≡ done (proof, m')
      → IsSound m'
  merkle_proof-IsSound a {m} {proof} {m'} s e =
      let (m1, run, same, ok) = merkle_proof-IsValid platform a {m = m} s.valid in
      let memory : m1 ≡ m' = cc in
      record {
        valid = rw memory at ok;
        byte = λ b. omega (arith, s.byte b, same b, ap (λ (x : Memory). view x b) memory);
      }

  -- The witness of a memory can always be computed, and leaves every byte as it was.
  pub merkle_proof_succeeds :
      (a : ℕ) {m : Memory}
      → IsSound m
      → (proof : Bytes) × (m' : Memory) × (merkle_proof platform a m ≡ done (proof, m'))
        × IsSound m'
        × ((b : ℕ) → view m' b ≡ view m b)
  merkle_proof_succeeds a {m} s =
      let (m1, run, same, ok) = merkle_proof-IsValid platform a {m = m} s.valid in
      (_, m1, run, record { valid = ok; byte = λ b. omega (arith, s.byte b, same b) }, same)

  pub merkle_root_succeeds :
      {m : Memory}
      → IsSound m
      → (root : Digest) × (m' : Memory) × (merkle_root platform m ≡ done (root, m'))
        × IsSound m'
        × ((b : ℕ) → view m' b ≡ view m b)
  merkle_root_succeeds {m} s =
      let (m1, run, same, ok) = merkle_root-IsValid platform {m = m} s.valid in
      (_, m1, run, record { valid = ok; byte = λ b. omega (arith, s.byte b, same b) }, same)

  -- The range to read, and the page cache, are no part of it.
  pub range-IsSound :
      (i addr count : ℕ) {m : Memory}
      → IsSound m
      → IsSound (record ((page_lookup i m).1) { addr = addr; count = count })
  range-IsSound i addr count {m} s =
      let same = page_lookup-SameStore i m in
      let c = page_lookup-IsCoherent i s.valid.coherent in
      record {
        valid = record {
          coherent = record {
            key0 = c.key0;
            key1 = c.key1;
            full0 = c.full0;
            full1 = c.full1;
            bound = c.bound;
            apart = c.apart;
          };
          cached = rw same.heap s.valid.cached;
          zeroed = rw same.nodes s.valid.zeroed;
        };
        byte = λ b.
            let small : view (page_lookup i m).1 b < 256 =
              omega (arith, view-SameStore b same, s.byte b) in
            unfold view in small;
      }

  pub range_set :
      (addr count : ℕ) {m : Memory} → IsSound m → IsSound (read_memory_range addr count m)
  unfolding read_memory_range
  range_set addr count {m} s = record {
    valid = record {
      coherent = record {
        key0 = s.valid.coherent.key0;
        key1 = s.valid.coherent.key1;
        full0 = s.valid.coherent.full0;
        full1 = s.valid.coherent.full1;
        bound = s.valid.coherent.bound;
        apart = s.valid.coherent.apart;
      };
      cached = s.valid.cached;
      zeroed = s.valid.zeroed;
    };
    byte = λ b. unfold view in s.byte b;
  }

  read-IsSound :
      (len : ℕ) {m : Memory} {bytes : Bytes} {m' : Memory}
      → IsSound m
      → read platform len m ≡ done (bytes, m')
      → IsSound m'
  unfolding read
  read-IsSound len {m} {bytes} {m'} s e = elim (Bool-cases (m.count == 0)) [
    | inl empty ↦ unchanged (rw empty at e)
    | inr more ↦ after (add32 platform m.addr m.count) _ (rw more at e) λ end_addr r0 e0.
        after (sub32 platform _ _) _ e0 λ span r1 e1.
          after (page_bytes platform _ _ _ _) _ e1 λ found r2 e2.
            after (add32 platform _ _) _ e2
              λ addr r3 e3. after (sub32 platform _ _) _ e3 λ count r4 e4. moved addr count found e4
  ]
    where
      unchanged : ◌≡◌ {A = Outcome (Bytes × Memory)} (done ([], m)) (done (bytes, m')) → IsSound m'
      unchanged h = let same : m ≡ m' = cc in rw same at s

      moved :
          (addr count : ℕ) (found : Bytes)
          → ◌≡◌ {A = Outcome (Bytes × Memory)}
              (done
                (found, record ((page_lookup (m.addr / 4096) m).1) { addr = addr; count = count }))
              (done (bytes, m'))
          → IsSound m'
      moved addr count found h =
          let same : record ((page_lookup (m.addr / 4096) m).1) { addr = addr; count = count }
              ≡ m' =
            cc in
          rw same at (range-IsSound (m.addr / 4096) addr count s)

  pub read_to_end-IsSound :
      (fuel round : ℕ) {m : Memory} {bytes : Bytes} {m' : Memory}
      → IsSound m
      → read_to_end platform fuel round m ≡ done (bytes, m')
      → IsSound m'
  unfolding read_to_end
  read_to_end-IsSound zero round s e = cc
  read_to_end-IsSound (suc fuel) round {m} {bytes} {m'} s e =
      after (read platform (platform.buffer_size round) m) _ e λ (found, m1) r0 e0.
        go found m1 (read-IsSound (platform.buffer_size round) s r0) e0
          (λ bs m2. read_to_end-IsSound fuel (round + 1) {m = m1} {bytes = bs} {m' = m2})
    where
      go :
          (found : Bytes) (m1 : Memory)
          → IsSound m1
          → ◌≡◌ {A = Outcome (Bytes × Memory)}
              (elim found [
                | [] ↦ done ([], m1)
                | b ∷ bs ↦ do
                  (rest, m2) ← read_to_end platform fuel (round + 1) m1
                  done (b ∷ bs ++ rest, m2)
              ])
              (done (bytes, m'))
          → ((bs : Bytes) (m2 : Memory)
              → IsSound m1
              → read_to_end platform fuel (round + 1) m1 ≡ done (bs, m2)
              → IsSound m2)
          → IsSound m'
      go [] m1 ok h ih = let same : m1 ≡ m' = cc in rw same at ok
      go (b ∷ bs) m1 ok h ih =
          after (read_to_end platform fuel (round + 1) m1) _ h
            λ (rest, m2) r1 h1. let same : m2 ≡ m' = cc in rw same at (ih rest m2 ok r1)
