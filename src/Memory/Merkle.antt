-- ===== src/Memory/Merkle.antt =====
-- The Merkle tree over the pages in mips-emulator/src/memory.rs: `merklelize_subtree`,
-- `merkle_root`, `traverse_branch` and `merkle_proof`.
pub mod Log
pub mod Roots
pub mod Proofs
use mips_emulator.Prelude.{ℕ, zero, suc, ◌+◌, ◌-◌, ◌*◌, ◌/◌, ◌^◌, []}
use mips_emulator.Prelude.{true, false}
use mips_emulator.Prelude.{none, some, List, ◌∷◌, ◌++◌}
use mips_emulator.Prelude.{◌==◌, ◌!=◌, ltb, if◌then◌else◌}
use mips_emulator.Prelude.{bit_and, bit_or}
use mips_emulator.Prelude.{Outcome, done, panic, out_of_fuel, ◌>>=◌, ◌>>◌}
use mips_emulator.Platform.{Platform, Bytes, Digest}
use mips_emulator.Prelude.HashMap.{get, insert}
use mips_emulator.Page.{zero_hash, hash_pair}
use mips_emulator.Memory.{Memory}

-- `ilog2` of a `usize` above 0; 64 rounds are enough.
unfoldable pub ilog2_rounds : ℕ → ℕ → ℕ
ilog2_rounds zero n = 0
ilog2_rounds (suc rounds) n =
    let rest = ilog2_rounds rounds (n / 2) in if ltb n 2 then 0 else suc rest

abbrev pub ilog2 : ℕ → ℕ
unfolding ilog2_rounds
ilog2 n = ilog2_rounds 64 n

module _ (platform : Platform) where
  -- The fuel counts the levels from the node down; 29 are enough, since no node lies below
  -- level 28.
  unfoldable pub merklelize_subtree : ℕ → ℕ → Memory → Outcome (Digest × Memory)
  merklelize_subtree zero generalized_index m = out_of_fuel
  merklelize_subtree (suc fuel) generalized_index m =
      if generalized_index == 0
      then panic
      else if ltb 28 (ilog2_rounds 64 generalized_index)
      then panic
      else elim (get m.nodes generalized_index) [
        | none ↦ done (zero_hash platform (28 - ilog2_rounds 64 generalized_index), m)
        | some (some hash) ↦ done (hash, m)
        | some none ↦ do
          (left, m1) ← merklelize_subtree fuel (generalized_index * 2) m
          (right, m2) ← merklelize_subtree fuel (bit_or (generalized_index * 2) 1) m1
          let hash = hash_pair platform left right
          done (hash, record m2 { nodes = insert generalized_index (some hash) m2.nodes })
      ]

  unfoldable pub merkle_root : Memory → Outcome (Digest × Memory)
  merkle_root m = merklelize_subtree 29 1 m

  -- From the node at `depth` above `addr` to the leaf level and back; 28 levels are enough.
  unfoldable pub traverse_branch : ℕ → ℕ → ℕ → ℕ → Memory → Outcome (List Digest × Memory)
  traverse_branch zero parent addr depth m = out_of_fuel
  traverse_branch (suc fuel) parent addr depth m = elim (depth == 32 - 5) [
    | true ↦ do (node, m1) ← merklelize_subtree 29 parent m; done (node ∷ [], m1)
    | false ↦ elim (ltb (32 - 5) depth) [
      | true ↦ panic
      | false ↦ do
        let cur = parent * 2
        let sibling = bit_or cur 1
        let right = bit_and addr (2 ^ (31 - depth)) != 0
        (proof, m1) ← traverse_branch fuel (if right then sibling else cur) addr (depth + 1) m
        (node, m2) ← merklelize_subtree 29 (if right then cur else sibling) m1
        done (proof ++ node ∷ [], m2)
    ]
  ]

-- `out[i*32..(i+1)*32]` from `proof[i]`, for `n` more `i`; an index behind the proof panics.
unfoldable pub copy_proof : ℕ → List Digest → Outcome Bytes
copy_proof zero proof = done []
copy_proof (suc n) [] = panic
copy_proof (suc n) (node ∷ proof) = do rest ← copy_proof n proof; done (node ++ rest)

module _ (platform : Platform) where
  unfoldable pub merkle_proof : ℕ → Memory → Outcome (Bytes × Memory)
  merkle_proof addr m = do
    (proof, m') ← traverse_branch platform 28 1 addr 0 m
    out ← copy_proof 28 proof
    done (out, m')
