-- ===== src/Memory/Merkle/Proofs.antt =====
-- What `traverse_branch` and `merkle_proof` return.
use mips_emulator.Prelude.{ℕ, zero, suc, ◌+◌, ◌-◌, ◌*◌, ◌/◌, ◌^◌, ◌≤◌, ◌<◌, ◌≡◌, refl, arith, []}
use mips_emulator.Prelude.{Bool, true, false, ◌∙◌, ap}
use mips_emulator.Prelude.{Option, List, ◌∷◌, ◌++◌, length, length-append}
use mips_emulator.Prelude.{◌!=◌, if◌then◌else◌}
use mips_emulator.Prelude.{ltb_of_le, ==_ne, bit_and, bit_or}
use mips_emulator.Prelude.{Outcome, done}
use mips_emulator.Platform.{Platform, Bytes, Digest}
use native.Mathlib.Nat.{pow-suc, one-le-pow}
use mips_emulator.Prelude.HashMap.{HashMap}
use mips_emulator.Page.{zero_hash}
use mips_emulator.Memory.{Memory}
use mips_emulator.Memory.Merkle.{ilog2_rounds, merklelize_subtree, traverse_branch}
use mips_emulator.Memory.Merkle.{merkle_proof, copy_proof}
use mips_emulator.Memory.Merkle.Log.{ilog2_child, ilog2-le}
use mips_emulator.Memory.Merkle.Roots.{
  IsZeroed, ZeroRun, with_nodes, merklelize_subtree_lem, odd_child,
}

-- The bytes of a list of digests.
unfoldable pub concat : List Bytes → Bytes
concat [] = []
concat (x ∷ xs) = x ++ concat xs

copy_proof-concat : (xs : List Digest) → copy_proof (length xs) xs ≡ done (concat xs)
unfolding copy_proof concat
copy_proof-concat [] = refl
copy_proof-concat (x ∷ xs) = rw (copy_proof-concat xs) refl

times_mono : (a b t : ℕ) → a ≤ b → a * t ≤ b * t
times_mono a b t h = grind arith

module _ (platform : Platform) where
  -- The proof from `n` levels above the leaves: the leaf's hash, then the siblings upwards.
  unfoldable pub zero_branch : ℕ → List Digest
  zero_branch zero = zero_hash platform 1 ∷ []
  zero_branch (suc n) = zero_branch n ++ zero_hash platform (n + 1) ∷ []

  length-zero_branch : (n : ℕ) → length (zero_branch n) ≡ suc n
  unfolding zero_branch
  length-zero_branch zero = refl
  length-zero_branch (suc n) =
      omega (
        arith,
        length-append (zero_branch n) (zero_hash platform (n + 1) ∷ []),
        length-zero_branch n,
      )

  abbrev BranchRun : ℕ → Outcome (List Digest × Memory) → Memory → Type 0
  BranchRun n run m =
      (nodes : HashMap (Option Digest)) × (run ≡ done (zero_branch n, with_nodes platform nodes m))
      × IsZeroed platform nodes

  half_child : (b : Bool) (k : ℕ) → (if b then bit_or (k * 2) 1 else k * 2) / 2 ≡ k
  half_child true k = omega (arith, odd_child platform k)
  half_child false k = omega arith

  half_sibling : (b : Bool) (k : ℕ) → (if b then k * 2 else bit_or (k * 2) 1) / 2 ≡ k
  half_sibling true k = omega arith
  half_sibling false k = omega (arith, odd_child platform k)

  -- One level: the branch below `c`, then the hash of the sibling `s`.
  branch_step :
      (f n parent addr depth : ℕ) (m : Memory)
      → depth + suc n ≡ 27
      → BranchRun n
          (traverse_branch platform f
            (if bit_and addr (2 ^ (31 - depth)) != 0 then bit_or (parent * 2) 1 else parent * 2)
            addr
            (depth + 1)
            m)
          m
      → ((nodes : HashMap (Option Digest))
          → IsZeroed platform nodes
          → ZeroRun platform
              (n + 1)
              (merklelize_subtree platform 29
                (if bit_and addr (2 ^ (31 - depth)) != 0 then parent * 2 else bit_or (parent * 2) 1)
                (with_nodes platform nodes m))
              (with_nodes platform nodes m))
      → BranchRun (suc n) (traverse_branch platform (suc f) parent addr depth m) m
  unfolding zero_branch traverse_branch
  branch_step f n parent addr depth m level (n1, run, z1) sibling = go (sibling n1 z1)
    where
      go :
          ZeroRun platform
            (n + 1)
            (merklelize_subtree platform 29
              (if bit_and addr (2 ^ (31 - depth)) != 0 then parent * 2 else bit_or (parent * 2) 1)
              (with_nodes platform n1 m))
            (with_nodes platform n1 m)
          → BranchRun (suc n) (traverse_branch platform (suc f) parent addr depth m) m
      go (n2, run2, z2) = (
        n2,
        rw
            (
              traverse_branch,
              ==_ne depth 27 (omega arith),
              ltb_of_le 27 depth (omega arith),
              run,
              run2,
            )
            refl,
        z2,
      )

  branch_leaf :
      (f parent addr : ℕ) (m : Memory)
      → ZeroRun platform 1 (merklelize_subtree platform 29 parent m) m
      → BranchRun zero (traverse_branch platform (suc f) parent addr 27 m) m
  unfolding zero_branch traverse_branch
  branch_leaf f parent addr m (n1, run, z1) = (n1, rw run refl, z1)

  traverse_branch_lem :
      (n parent addr depth : ℕ) (m : Memory)
      → IsZeroed platform m.nodes
      → depth + n ≡ 27
      → 0 < parent
      → ilog2_rounds 64 parent ≡ depth
      → (parent + 1) * 2 ^ n ≤ 2 ^ 28
      → BranchRun n (traverse_branch platform (suc n) parent addr depth m) m
  traverse_branch_lem zero parent addr depth m z level pos log bound = rw at_27 (
      branch_leaf 0 parent addr m (
        rw at_leaf at
          (merklelize_subtree_lem platform 29 parent m z pos (omega arith) (omega arith))))
    where
      at_27 : depth ≡ 27
      at_27 = omega arith

      at_leaf : 28 - ilog2_rounds 64 parent ≡ 1
      at_leaf = omega arith
  traverse_branch_lem (suc n) parent addr depth m z level pos log bound =
      branch_step (suc n) n parent addr depth m level
        (traverse_branch_lem n child addr (depth + 1) m z (omega arith) child_pos
          (omega (arith, child_log)) child_bound)
        (λ nodes zn. rw sibling_height at (
          merklelize_subtree_lem platform 29 sibling (with_nodes platform nodes m) zn sibling_pos
            (omega (arith, sibling_log)) (omega (arith, sibling_log))))
    where
      right : Bool
      right = bit_and addr (2 ^ (31 - depth)) != 0

      child : ℕ
      child = if right then bit_or (parent * 2) 1 else parent * 2

      sibling : ℕ
      sibling = if right then parent * 2 else bit_or (parent * 2) 1

      small : parent < 2 ^ 63
      small = grind (arith, one-le-pow (suc n) 2)

      child_bound : (child + 1) * 2 ^ n ≤ 2 ^ 28
      child_bound =
          let twice : child + 1 ≤ 2 * (parent + 1) = omega (arith, half_child right parent) in
          omega (
            arith,
            times_mono (child + 1) (2 * (parent + 1)) (2 ^ n) twice,
            ap (λ (t : ℕ). (parent + 1) * t) (pow-suc 2 n),
          )

      child_pos : 0 < child
      child_pos = omega (arith, half_child right parent)

      sibling_pos : 0 < sibling
      sibling_pos = omega (arith, half_sibling right parent)

      child_log : ilog2_rounds 64 child ≡ suc depth
      child_log = ilog2_child parent child pos small (half_child right parent) ∙ ap suc log

      sibling_log : ilog2_rounds 64 sibling ≡ suc depth
      sibling_log = ilog2_child parent sibling pos small (half_sibling right parent) ∙ ap suc log

      sibling_height : 28 - ilog2_rounds 64 sibling ≡ n + 1
      sibling_height = omega (arith, sibling_log)

  -- The proof for an address does not depend on the address, nor on what the memory holds.
  pub merkle_proof_lem :
      (addr : ℕ) (m : Memory)
      → IsZeroed platform m.nodes
      → (nodes : HashMap (Option Digest)) × (merkle_proof platform addr m
          ≡ done (concat (zero_branch 27), record m { nodes = nodes }))
        × IsZeroed platform nodes
  unfolding merkle_proof
  merkle_proof_lem addr m z =
      go (traverse_branch_lem 27 1 addr 0 m z refl (omega arith) level (omega arith))
    where
      level : ilog2_rounds 64 1 ≡ 0
      level = omega (arith, ilog2-le 64 0 1 (omega arith))

      copied : copy_proof 28 (zero_branch 27) ≡ done (concat (zero_branch 27))
      copied = rw (length-zero_branch 27) at (copy_proof-concat (zero_branch 27))

      go :
          BranchRun 27 (traverse_branch platform 28 1 addr 0 m) m
          → (nodes : HashMap (Option Digest)) × (merkle_proof platform addr m
              ≡ done (concat (zero_branch 27), record m { nodes = nodes }))
            × IsZeroed platform nodes
      go (n1, run, z1) = (n1, rw (run, copied) refl, z1)
