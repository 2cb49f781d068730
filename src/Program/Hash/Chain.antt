-- ===== src/Program/Hash/Chain.antt =====
-- mips-emulator/src/witness.rs: `compute_hash` as a chain of hashes, one for every 60 words.
use mips_emulator.Prelude.{
  ℕ, zero, suc, ◌+◌, ◌-◌, ◌*◌, ◌/◌, ◌≤◌, ◌<◌, ◌≡◌, refl, arith, ap, ◌∙◌, true, false,
}
use mips_emulator.Prelude.{
  Bool, Option, none, some, List, [], ◌++◌, length, take, leb, leb_of_le, leb_of_lt,
}
use mips_emulator.Prelude.{Outcome, done, panic, bind_done, ◌>>=◌}
use mips_emulator.Program.{Program, i2lebsp}
use mips_emulator.Program.Cursor.{AllNonEmpty, flat}
use mips_emulator.Program.Hash.{Hasher, unwrap, collect, chunk_bits, hash_loop, compute_hash}
use mips_emulator.Program.Hash.Words.{words_of, padded, collect_lem}
use mips_emulator.Program.Hash.Numbers.{
  AllWords, padded-AllWords, upper_half, lower_half, sub_chunks_halves,
}
use mips_emulator.Program.Hash.Total.{length-padded}

-- The bits of `n` groups of 15 words from `from` on: two numbers of 240 bits for each, the first
-- seven and a half words and the others, each from the low end.
unfoldable pub block_bits : ℕ → ℕ → List ℕ → List Bool
block_bits zero from ws = []
block_bits (suc n) from ws =
    (i2lebsp 240 0 (upper_half from ws) ++ i2lebsp 240 0 (lower_half from ws))
    ++ block_bits n (from + 15) ws

pub chunk_bits_lem :
    (n from : ℕ) (ws : List ℕ)
    → from + 15 * n ≤ length ws
    → AllWords ws
    → chunk_bits n from ws ≡ done (block_bits n from ws)
unfolding chunk_bits block_bits
chunk_bits_lem zero from ws h words = refl
chunk_bits_lem (suc n) from ws h words =
    rw
      (
        sub_chunks_halves from ws (omega arith) words,
        chunk_bits_lem n (from + 15) ws (omega arith) words,
      )
      refl

-- The words that `compute_hash` hashes.
abbrev pub hashed : Program → List ℕ
hashed p = padded (words_of (flat p.segments))

module _ {Base : Type 0} (hasher : Hasher Base) where
  -- From an element, `n` hashes of 250 bits of the last one and of the next 60 words; `none` where
  -- one of them is not defined.
  unfoldable pub hash_chain : ℕ → ℕ → Base → List ℕ → Option Base
  hash_chain zero idx a ws = some a
  hash_chain (suc n) idx a ws =
      elim (hasher.hash (take 250 (hasher.to_le_bits a) ++ block_bits 4 idx ws)) [
        | none ↦ none
        | some next ↦ hash_chain n (idx + 60) next ws
      ]

  -- How the code ends: it panics on a hash that is not defined.
  abbrev pub returned : Option Base → Outcome Base
  returned none = panic
  returned (some r) = done r

  -- What follows one hash.
  one_hash :
      (n fuel idx : ℕ) (o : Option Base) (ws : List ℕ)
      → length ws ≡ idx + 60 * suc n
      → ((k : ℕ) (next : Base)
          → suc k ≡ n
          → hash_loop hasher fuel (idx + 60) next ws ≡ returned (hash_chain n (idx + 60) next ws))
      → (unwrap o >>= λ next. elim (leb (length ws) (idx + 60)) [
        | true ↦ done next
        | false ↦ hash_loop hasher fuel (idx + 60) next ws
      ])
        ≡ returned (elim o [ none ↦ none | some next ↦ hash_chain n (idx + 60) next ws ])
  unfolding hash_chain unwrap
  one_hash n fuel idx none ws size later = refl
  one_hash zero fuel idx (some next) ws size later =
      rw (leb_of_le (length ws) (idx + 60) (omega (arith, size))) refl
  one_hash (suc n) fuel idx (some next) ws size later =
      rw (leb_of_lt (length ws) (idx + 60) (omega (arith, size))) (later n next refl)

  hash_loop_lem :
      (n fuel idx : ℕ) (a : Base) (ws : List ℕ)
      → length ws ≡ idx + 60 * suc n
      → n < fuel
      → AllWords ws
      → hash_loop hasher fuel idx a ws ≡ returned (hash_chain (suc n) idx a ws)
  unfolding hash_loop hash_chain
  hash_loop_lem n zero idx a ws size enough words = absurd (omega arith)
  hash_loop_lem n (suc fuel) idx a ws size enough words =
      bind_done (chunk_bits 4 idx ws) _ (chunk_bits_lem 4 idx ws (omega arith) words)
      ∙ one_hash n fuel idx (hasher.hash (take 250 (hasher.to_le_bits a) ++ block_bits 4 idx ws)) ws
          size
          λ k next e. rw (← e) (
            hash_loop_lem k fuel (idx + 60) next ws (omega (arith, size, e)) (omega (arith, e))
              words)

  -- For a program with no empty segment and words below 2^32, and whatever the hash is defined on,
  -- `compute_hash` ends with fuel for 60 words a round and two rounds more: it returns what a chain
  -- of hashes gives, one for each 60 words with the zeros after them, of 250 bits of the last
  -- element and the bits of the words packed into numbers of 240 bits; it panics where one of these
  -- hashes is not defined, and only there.
  pub compute_hash_lem :
      (fuel : ℕ) (p : Program)
      → AllNonEmpty p.segments
      → AllWords (words_of (flat p.segments))
      → length (words_of (flat p.segments)) + 120 ≤ 60 * fuel
      → compute_hash hasher fuel p
        ≡ returned (hash_chain (length (hashed p) / 60) 0 hasher.init (hashed p))
  unfolding compute_hash
  compute_hash_lem fuel p full words enough =
      let ws = hashed p in
      let (whole, more, less) = length-padded (words_of (flat p.segments)) in
      let rounds : length ws / 60 ≡ suc (length ws / 60 - 1) = omega (arith, whole, more) in
      bind_done (collect fuel 0 0 p) _ (collect_lem fuel p full (omega arith))
      ∙ (hash_loop_lem (length ws / 60 - 1) fuel 0 hasher.init ws (omega (arith, whole, more))
            (omega (arith, whole, less)) (padded-AllWords (words_of (flat p.segments)) words)
          ∙ ap (λ (n : ℕ). returned (hash_chain n 0 hasher.init ws)) (omega (arith, whole, more)))
