-- ===== src/Memory/Merkle/Roots.antt =====
-- What the Merkle functions of a memory return.
use mips_emulator.Prelude.{ℕ, zero, suc, ◌+◌, ◌-◌, ◌*◌, ◌^◌, ◌≤◌, ◌<◌, ◌≡◌, refl, arith}
use mips_emulator.Prelude.{inl, inr, ap}
use mips_emulator.Prelude.{Option, none, some}
use mips_emulator.Prelude.{Option-cases}
use mips_emulator.Prelude.{ltb_of_le, ==_ne, bit_or}
use mips_emulator.Prelude.{Outcome, done}
use mips_emulator.Platform.{Platform, Digest}
use mips_emulator.Prelude.Bits.{bit_or_high_low}
use mips_emulator.Prelude.HashMap.{HashMap, get, get-insert, insert}
use mips_emulator.Page.{zero_hash, hash_pair}
use mips_emulator.Memory.{Memory}
use mips_emulator.Memory.Invalidate.{OnlyInvalidates}
use mips_emulator.Memory.Merkle.{ilog2_rounds, merklelize_subtree, merkle_root}
use mips_emulator.Memory.Merkle.Log.{ilog2_child, ilog2-le}

module _ (platform : Platform) where
  -- A stored node holds the hash of zeros at its level, and no node below page level is invalidated.
  pub record IsZeroed (nodes : HashMap (Option Digest)) : Type 0 where
    pub valid :
        (k : ℕ) (h : Digest)
        → get nodes k ≡ some (some h)
        → h ≡ zero_hash platform (28 - ilog2_rounds 64 k)
    pub invalid : (k : ℕ) → get nodes k ≡ some none → k < 2 ^ 21

  pub OnlyInvalidates-IsZeroed :
      {old new : HashMap (Option Digest)} → OnlyInvalidates old new → IsZeroed old → IsZeroed new
  OnlyInvalidates-IsZeroed o z = record {
    valid = λ k h e. ground (arith, o k, z.valid k h);
    invalid = λ k e. ground (arith, o k, z.invalid k);
  }

  insert-IsZeroed :
      (k : ℕ) {nodes : HashMap (Option Digest)}
      → IsZeroed nodes
      → IsZeroed (insert k (some (zero_hash platform (28 - ilog2_rounds 64 k))) nodes)
  insert-IsZeroed k {nodes} z = record {
    valid = λ j h e. ground (
      arith,
      z.valid j h,
      get-insert nodes k j (some (zero_hash platform (28 - ilog2_rounds 64 k))),
    );
    invalid = λ j e. ground (
      arith,
      z.invalid j,
      get-insert nodes k j (some (zero_hash platform (28 - ilog2_rounds 64 k))),
    );
  }

  abbrev pub with_nodes : HashMap (Option Digest) → Memory → Memory
  with_nodes nodes m = record m { nodes = nodes }

  pub odd_child : (k : ℕ) → bit_or (k * 2) 1 ≡ k * 2 + 1
  odd_child k = bit_or_high_low 1 k 1 (omega arith)

  -- A run that returns the hash of zeros at height `i` and changes the nodes alone.
  abbrev pub ZeroRun : ℕ → Outcome (Digest × Memory) → Memory → Type 0
  ZeroRun i run m =
      (nodes : HashMap (Option Digest)) × (run ≡ done (zero_hash platform i, with_nodes nodes m))
      × IsZeroed nodes

  zero_hash_step :
      (l : ℕ)
      → l < 28
      → hash_pair platform (zero_hash platform (28 - suc l)) (zero_hash platform (28 - suc l))
        ≡ zero_hash platform (28 - l)
  unfolding zero_hash
  zero_hash_step l h = let e : 28 - l ≡ suc (28 - suc l) = omega arith in rw e refl

  recompute :
      (f k : ℕ) (m : Memory)
      → get m.nodes k ≡ some none
      → 0 < k
      → ilog2_rounds 64 k < 28
      → ZeroRun (28 - suc (ilog2_rounds 64 k)) (merklelize_subtree platform f (k * 2) m) m
      → ((n : HashMap (Option Digest))
          → IsZeroed n
          → ZeroRun
              (28 - suc (ilog2_rounds 64 k))
              (merklelize_subtree platform f (k * 2 + 1) (with_nodes n m))
              (with_nodes n m))
      → ZeroRun (28 - ilog2_rounds 64 k) (merklelize_subtree platform (suc f) k m) m
  unfolding merklelize_subtree
  recompute f k m e pos level (n1, left, z1) right = go (right n1 z1)
    where
      go :
          ZeroRun
            (28 - suc (ilog2_rounds 64 k))
            (merklelize_subtree platform f (k * 2 + 1) (with_nodes n1 m))
            (with_nodes n1 m)
          → ZeroRun (28 - ilog2_rounds 64 k) (merklelize_subtree platform (suc f) k m) m
      go (n2, run, z2) = (
        insert k (some (zero_hash platform (28 - ilog2_rounds 64 k))) n2,
        rw
            (
              ==_ne k 0 (omega arith),
              ltb_of_le 28 (ilog2_rounds 64 k) (omega arith),
              e,
              left,
              odd_child k,
              run,
              zero_hash_step (ilog2_rounds 64 k) level,
            )
            refl,
        insert-IsZeroed k z2,
      )

  -- Whatever the pages hold, the hash of a node is that of zeros.
  pub merklelize_subtree_lem :
      (f k : ℕ) (m : Memory)
      → IsZeroed m.nodes
      → 0 < k
      → ilog2_rounds 64 k ≤ 28
      → 29 ≤ ilog2_rounds 64 k + f
      → ZeroRun (28 - ilog2_rounds 64 k) (merklelize_subtree platform f k m) m
  unfolding merklelize_subtree
  merklelize_subtree_lem zero k m z pos level fuel = absurd (omega arith)
  merklelize_subtree_lem (suc f) k m z pos level fuel = elim (Option-cases (get m.nodes k)) [
    | inl e ↦ (
      m.nodes,
      rw (==_ne k 0 (omega arith), ltb_of_le 28 (ilog2_rounds 64 k) (omega arith), e) refl,
      z,
    )
    | inr (some hash, e) ↦ (
      m.nodes,
      rw (==_ne k 0 (omega arith), ltb_of_le 28 (ilog2_rounds 64 k) (omega arith), e)
          (ap (λ (d : Digest). done (d, m)) (z.valid k hash e)),
      z,
    )
    | inr (none, e) ↦
        let bound : k < 2 ^ 21 = z.invalid k e in
        let high : ilog2_rounds 64 k ≤ 20 = ilog2-le 64 20 k bound in
        let l = ilog2_child k (k * 2) pos (omega arith) (omega arith) in
        let r = ilog2_child k (k * 2 + 1) pos (omega arith) (omega arith) in
        recompute f k m e pos (omega arith)
          (rw l at (
            merklelize_subtree_lem f (k * 2) m z (omega arith) (omega (arith, l))
              (omega (arith, l))))
          (λ n zn. rw r at (
            merklelize_subtree_lem f (k * 2 + 1) (with_nodes n m) zn (omega arith)
              (omega (arith, r)) (omega (arith, r))))
  ]

  -- The Merkle root of a memory whose nodes are zeroed or invalidated is that of an empty memory,
  -- and computing it keeps the nodes so and every page as it was.
  pub merkle_root_lem :
      (m : Memory)
      → IsZeroed m.nodes
      → (nodes : HashMap (Option Digest)) × (merkle_root platform m
          ≡ done (zero_hash platform 28, record m { nodes = nodes }))
        × IsZeroed nodes
  unfolding merkle_root
  merkle_root_lem m z =
      rw level at (
        merklelize_subtree_lem 29 1 m z (omega arith) (omega (arith, level)) (omega (arith, level)))
    where
      level : ilog2_rounds 64 1 ≡ 0
      level = omega (arith, ilog2-le 64 0 1 (omega arith))
