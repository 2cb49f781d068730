-- ===== src/Memory/Merkle/Log.antt =====
-- The level of a node, `ilog2` of its generalized index.
use mips_emulator.Prelude.{ℕ, zero, suc, ◌/◌, ◌^◌, ◌≤◌, ◌<◌, ◌≡◌, refl, arith}
use mips_emulator.Prelude.{ap}
use mips_emulator.Prelude.{ltb_of_le}
use native.Mathlib.Nat.{pow-suc}
use mips_emulator.Memory.Merkle.{ilog2_rounds}

ilog2_stable : (r n : ℕ) → n < 2 ^ r → ilog2_rounds r n ≡ ilog2_rounds (suc r) n
unfolding ilog2_rounds
ilog2_stable zero n h = let e : n ≡ 0 = omega arith in rw e refl
ilog2_stable (suc r) n h =
    let halved : n / 2 < 2 ^ r = omega (arith, pow-suc 2 r) in
    ground (arith, ilog2_stable r (n / 2) halved)

-- A node's children lie one level below it.
pub ilog2_child :
    (k c : ℕ) → 0 < k → k < 2 ^ 63 → c / 2 ≡ k → ilog2_rounds 64 c ≡ suc (ilog2_rounds 64 k)
unfolding ilog2_rounds
ilog2_child k c pos small half =
    rw (ltb_of_le c 2 (omega arith), half) (ap suc (ilog2_stable 63 k small))

pub ilog2-le : (r j n : ℕ) → n < 2 ^ suc j → ilog2_rounds r n ≤ j
unfolding ilog2_rounds
ilog2-le zero j n h = omega arith
ilog2-le (suc r) zero n h = ground arith
ilog2-le (suc r) (suc j) n h =
    let halved : n / 2 < 2 ^ suc j = omega (arith, pow-suc 2 (suc j)) in
    ground (arith, ilog2-le r j (n / 2) halved)
