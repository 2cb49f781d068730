-- ===== src/Page/Path.antt =====
-- Which nodes `invalidate` marks: those on the way from a bottom node to the root.
use mips_emulator.Prelude.{ℕ, zero, suc, ◌+◌, ◌/◌, ◌^◌, ◌≤◌, ◌<◌, ◌≡◌, refl, arith}
use mips_emulator.Prelude.{Bool, true, false, ◌||◌, bit_or, inl, inr}
use mips_emulator.Prelude.{done, ◌==◌, if◌then◌else◌, update}
use native.Mathlib.Nat.{pow-suc}
use mips_emulator.Prelude.{leb_of_lt, ◌≢◌, fun_ext, Bool-cases, ◌∙◌, ap}
use mips_emulator.Prelude.Bits.{bit_or_high_low}
use mips_emulator.Page.{CachedPage, clear_path, invalidate}

-- Whether `j` is one of `k`, `k / 2`, `k / 4`, … above 0.
unfoldable pub on_path : ℕ → ℕ → ℕ → Bool
on_path zero k j = false
on_path (suc n) k j = if k == 0 then false else k == j || on_path n (k / 2) j

abbrev pub cleared : ℕ → ℕ → (ℕ → Bool) → ℕ → Bool
cleared n k ok j = if on_path n k j then false else ok j

cleared_step :
    (n k : ℕ) (ok : ℕ → Bool) → 0 < k → cleared n (k / 2) (update ok k false) ≡ cleared (suc n) k ok
unfolding on_path
cleared_step n k ok h = fun_ext (λ j. ground arith)

-- With fuel for the length of the way, the loop ends and marks exactly the nodes on it.
pub clear_path_lem :
    (n k : ℕ) (ok : ℕ → Bool)
    → k < 128
    → k < 2 ^ n
    → clear_path (suc n) k ok ≡ done (cleared n k ok)
unfolding clear_path on_path
clear_path_lem zero k ok small fits = let e : k ≡ 0 = omega arith in rw e refl
clear_path_lem (suc n) k ok small fits = elim (Bool-cases (k == 0)) [
  | inl e ↦ let z : k ≡ 0 = ground arith in rw z refl
  | inr e ↦
      let halved : k / 2 < 2 ^ n = omega (arith, pow-suc 2 n) in
      let pos : 0 < k = ground arith in
      rw (e, leb_of_lt 128 k small)
        (clear_path_lem n (k / 2) (update ok k false) (omega arith) halved
          ∙ ap done (cleared_step n k ok pos))
]

-- The bottom node over a byte of the page.
pub bottom_node :
    (page_addr : ℕ) → page_addr < 4096 → bit_or 4096 page_addr / 64 ≡ 64 + page_addr / 64
bottom_node page_addr h = omega (arith, bit_or_high_low 12 1 page_addr h)

-- `invalidate` of a byte of the page succeeds, and its loop marks exactly the nodes on the way from
-- the byte's bottom node up to the root as not `ok`.
pub invalidate_lem :
    (page_addr : ℕ) (page : CachedPage)
    → page_addr < 4096
    → invalidate page_addr page
      ≡ done (record page { ok = cleared 7 (64 + page_addr / 64) page.ok })
unfolding invalidate
invalidate_lem page_addr page h = rw (
  leb_of_lt 4096 page_addr h,
  bottom_node page_addr h,
  clear_path_lem 7 (64 + page_addr / 64) page.ok (omega arith) (omega arith),
)

-- The way holds its own bottom node.
pub on_path_self : (n k : ℕ) → 0 < k → k < 2 ^ n → on_path n k k ≡ true
unfolding on_path
on_path_self zero k pos fits = absurd (omega arith)
on_path_self (suc n) k pos fits = ground arith

-- It holds the parent of each of its nodes but the root.
pub on_path_parent :
    (n k j c : ℕ) → k < 2 ^ n → 0 < j → c / 2 ≡ j → on_path n k c ≡ true → on_path n k j ≡ true
unfolding on_path
on_path_parent zero k j c fits pos e h = h
on_path_parent (suc n) k j c fits pos e h =
    let halved : k / 2 < 2 ^ n = omega (arith, pow-suc 2 n) in
    ground (arith, on_path_self n j pos, on_path_parent n (k / 2) j c halved pos e)

-- Of the bottom nodes it holds its own alone.
pub on_path_bottom : (n k j : ℕ) → k < 128 → 64 ≤ j → k ≢ j → on_path n k j ≡ false
unfolding on_path
on_path_bottom zero k j small h ne = refl
on_path_bottom (suc n) k j small h ne = ground (arith, on_path_bottom n (k / 2) j (omega arith) h)
