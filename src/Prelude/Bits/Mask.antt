-- ===== src/Prelude/Bits/Mask.antt =====
-- Masks of low bits as remainders, alignment as a product, and `|` of disjoint fields as a sum.
use Prim.Native.Nat.{ℕ, zero, suc, ◌+◌, ◌-◌, ◌*◌, ◌/◌, ◌%◌, ◌^◌, ◌≤◌, ◌<◌}
use Prim.Native.Nat.{bit_and, bit_or, bit_xor}
use mathlib.Core.Path.{◌≡◌, refl, ap, ap₂, ◌∙◌}
use native.Mathlib.Nat.{pow-suc, one-le-pow, div-div-eq-div-mul}
use native.Mathlib.Omega.{arith}
use mips_emulator.Prelude.Bits.Step.{bit_and_step, bit_or_step, bit_xor_step}

-- Both recursions go from `a / 2` to `a`, so they run on a bound.
bit_and-zero_below : (n a : ℕ) → a ≤ n → bit_and a 0 ≡ 0
bit_and-zero_below n zero h = refl
bit_and-zero_below zero (suc a) h = absurd (omega arith)
bit_and-zero_below (suc n) (suc a) h =
    omega (arith, bit_and_step (suc a) 0, bit_and-zero_below n (suc a / 2) (omega arith))

pub bit_and-zero : (a : ℕ) → bit_and a 0 ≡ 0
bit_and-zero a = bit_and-zero_below a a (omega arith)

bit_or-zero_below : (n a : ℕ) → a ≤ n → bit_or a 0 ≡ a
bit_or-zero_below n zero h = refl
bit_or-zero_below zero (suc a) h = absurd (omega arith)
bit_or-zero_below (suc n) (suc a) h =
    omega (arith, bit_or_step (suc a) 0, bit_or-zero_below n (suc a / 2) (omega arith))

pub bit_or-zero : (a : ℕ) → bit_or a 0 ≡ a
bit_or-zero a = bit_or-zero_below a a (omega arith)

pub zero-bit_or : (a : ℕ) → bit_or 0 a ≡ a
zero-bit_or a = go a a (omega arith)
  where
    go : (n a : ℕ) → a ≤ n → bit_or 0 a ≡ a
    go n zero h = refl
    go zero (suc a) h = absurd (omega arith)
    go (suc n) (suc a) h = omega (arith, bit_or_step 0 (suc a), go n (suc a / 2) (omega arith))

times_pow-suc : (q k : ℕ) → q * 2 ^ suc k ≡ 2 * (q * 2 ^ k)
times_pow-suc q k = omega (arith, ap (λ (t : ℕ). q * t) (pow-suc 2 k))

mask_of_fields : (k q r : ℕ) → r < 2 ^ k → bit_and (q * 2 ^ k + r) (2 ^ k - 1) ≡ r
mask_of_fields zero q r fits = rw bit_and-zero (omega arith)
mask_of_fields (suc k) q r fits = ground (
  arith,
  bit_and_step (q * 2 ^ suc k + r) (2 ^ suc k - 1),
  times_pow-suc q k,
  pow-suc 2 k,
  mask_of_fields k q (r / 2) (omega arith),
)

-- `a & (2^k - 1)` keeps the low `k` bits.
pub bit_and_mask : (k a : ℕ) → bit_and a (2 ^ k - 1) ≡ a % 2 ^ k
bit_and_mask k a = ground (arith, one-le-pow k 2, mask_of_fields k (a / 2 ^ k) (a % 2 ^ k))

-- `a & (1 << k)` is the bit `k` in its place.
pub bit_and_pow : (k a : ℕ) → bit_and a (2 ^ k) ≡ a / 2 ^ k % 2 * 2 ^ k
bit_and_pow zero a = omega (arith, bit_and_mask 1 a)
bit_and_pow (suc k) a =
    let half : 2 ^ suc k / 2 ≡ 2 ^ k = omega (arith, pow-suc 2 k) in
    let even : 2 ^ suc k % 2 ≡ 0 = omega (arith, pow-suc 2 k) in
    let bit : a / 2 / 2 ^ k ≡ a / 2 ^ suc k =
      div-div-eq-div-mul a 2 (2 ^ k) ∙ ap (λ (t : ℕ). a / t) (omega (arith, pow-suc 2 k)) in
    bit_and_step a (2 ^ suc k)
    ∙ rw (half, even, bit_and_pow k (a / 2), bit)
        (omega (arith, ap (λ (t : ℕ). a / 2 ^ suc k % 2 * t) (pow-suc 2 k)))

-- `a & 0xfffffffc` rounds a word down to a multiple of four.
pub bit_and_align : (a : ℕ) → a < 2 ^ 32 → bit_and a 0xffff_fffc ≡ a / 4 * 4
bit_and_align a h = omega (
  arith,
  bit_and_step a 0xffff_fffc,
  bit_and_step (a / 2) 0x7fff_fffe,
  bit_and_mask 30 (a / 2 / 2),
)

-- `low | (high << k)` is a sum when `low` fits `k` bits, in either order.
pub bit_or_low_high : (k q r : ℕ) → r < 2 ^ k → bit_or r (q * 2 ^ k) ≡ q * 2 ^ k + r
bit_or_low_high zero q r fits =
    let e : r ≡ 0 = omega arith in rw e (zero-bit_or (q * 2 ^ 0) ∙ omega arith)
bit_or_low_high (suc k) q r fits = ground (
  arith,
  bit_or_step r (q * 2 ^ suc k),
  times_pow-suc q k,
  bit_or_low_high k q (r / 2) (omega arith),
)

pub bit_or_high_low : (k q r : ℕ) → r < 2 ^ k → bit_or (q * 2 ^ k) r ≡ q * 2 ^ k + r
bit_or_high_low zero q r fits = ground (arith, bit_or-zero q)
bit_or_high_low (suc k) q r fits = ground (
  arith,
  bit_or_step (q * 2 ^ suc k) r,
  times_pow-suc q k,
  bit_or_high_low k q (r / 2) (omega arith),
)

pub bit_and-le : (n a b : ℕ) → a ≤ n → bit_and a b ≤ a
bit_and-le n zero b h = omega (arith, bit_and_zero_left b)
  where
    bit_and_zero_left : (b : ℕ) → bit_and 0 b ≡ 0
    bit_and_zero_left b = go b b (omega arith)
      where
        go : (n a : ℕ) → a ≤ n → bit_and 0 a ≡ 0
        go n zero h = refl
        go zero (suc a) h = absurd (omega arith)
        go (suc n) (suc a) h = omega (arith, bit_and_step 0 (suc a), go n (suc a / 2) (omega arith))
bit_and-le zero (suc a) b h = absurd (omega arith)
bit_and-le (suc n) (suc a) b h =
    omega (arith, bit_and_step (suc a) b, bit_and-le n (suc a / 2) (b / 2) (omega arith))

-- `a | b` of two `k`-bit numbers has `k` bits.
pub bit_or-lt : (k a b : ℕ) → a < 2 ^ k → b < 2 ^ k → bit_or a b < 2 ^ k
bit_or-lt zero a b p q =
    let e : a ≡ 0 = omega arith in let e' : b ≡ 0 = omega arith in rw (e, e') (omega arith)
bit_or-lt (suc k) a b p q =
    ground
      (arith, bit_or_step a b, pow-suc 2 k, bit_or-lt k (a / 2) (b / 2) (omega arith) (omega arith))

mod_pow : (q k r : ℕ) → (q * 2 ^ suc k + r) / 2 ≡ q * 2 ^ k + r / 2
mod_pow q k r = omega (arith, times_pow-suc q k)

-- `&` and `|` act on the parts above and below bit `k` apart.
pub bit_and_split :
    (k q r q' r' : ℕ)
    → r < 2 ^ k
    → r' < 2 ^ k
    → bit_and (q * 2 ^ k + r) (q' * 2 ^ k + r') ≡ bit_and q q' * 2 ^ k + bit_and r r'
bit_and_split zero q r q' r' h h' =
    let e : r ≡ 0 = omega arith in
    let e' : r' ≡ 0 = omega arith in
    let f : q * 2 ^ 0 + 0 ≡ q = omega arith in
    let f' : q' * 2 ^ 0 + 0 ≡ q' = omega arith in rw (e, e', f, f') (omega arith)
bit_and_split (suc k) q r q' r' h h' = omega (
  arith,
  bit_and_step (q * 2 ^ suc k + r) (q' * 2 ^ suc k + r'),
  bit_and_step r r',
  times_pow-suc q k,
  times_pow-suc q' k,
  times_pow-suc (bit_and q q') k,
  ap₂ bit_and (mod_pow q k r) (mod_pow q' k r'),
  bit_and_split k q (r / 2) q' (r' / 2) (omega (arith, pow-suc 2 k)) (omega (arith, pow-suc 2 k)),
)

pub bit_or_split :
    (k q r q' r' : ℕ)
    → r < 2 ^ k
    → r' < 2 ^ k
    → bit_or (q * 2 ^ k + r) (q' * 2 ^ k + r') ≡ bit_or q q' * 2 ^ k + bit_or r r'
bit_or_split zero q r q' r' h h' =
    let e : r ≡ 0 = omega arith in
    let e' : r' ≡ 0 = omega arith in
    let f : q * 2 ^ 0 + 0 ≡ q = omega arith in
    let f' : q' * 2 ^ 0 + 0 ≡ q' = omega arith in rw (e, e', f, f') (omega arith)
bit_or_split (suc k) q r q' r' h h' = omega (
  arith,
  bit_or_step (q * 2 ^ suc k + r) (q' * 2 ^ suc k + r'),
  bit_or_step r r',
  times_pow-suc q k,
  times_pow-suc q' k,
  times_pow-suc (bit_or q q') k,
  ap₂ bit_or (mod_pow q k r) (mod_pow q' k r'),
  bit_or_split k q (r / 2) q' (r' / 2) (omega (arith, pow-suc 2 k)) (omega (arith, pow-suc 2 k)),
)

-- `a ^ b` of two `k`-bit numbers has `k` bits.
pub bit_xor-lt : (k a b : ℕ) → a < 2 ^ k → b < 2 ^ k → bit_xor a b < 2 ^ k
bit_xor-lt zero a b p q =
    let e : a ≡ 0 = omega arith in let e' : b ≡ 0 = omega arith in rw (e, e') (omega arith)
bit_xor-lt (suc k) a b p q =
    ground (
      arith,
      bit_xor_step a b,
      pow-suc 2 k,
      bit_xor-lt k (a / 2) (b / 2) (omega arith) (omega arith),
    )
