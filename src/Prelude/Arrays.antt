-- ===== src/Prelude/Arrays.antt =====
-- Reading and writing ranges of an array.
use Prim.Native.Nat.{ℕ, zero, suc, ◌+◌, ◌≤◌, ◌<◌}
use mathlib.Core.Path.{◌≡◌, refl, ap₂, ◌∙◌}
use mathlib.Core.Logic.{◌⊎◌, inl}
use mathlib.Core.List.{List, ◌∷◌, []}
use native.Mathlib.Omega.{arith}
use mips_emulator.Prelude.Tests.{◌==◌, if◌then◌else◌}
use mips_emulator.Prelude.Lists.{length}

module _ {ℓ} {A : Type ℓ} where
  abbrev pub update : (ℕ → A) → ℕ → A → ℕ → A
  update f i v j = if j == i then v else f j

  -- The `n` elements from index `i`.
  abbrev pub slice : (ℕ → A) → ℕ → ℕ → List A
  slice f i zero = []
  slice f i (suc n) = f i ∷ slice f (i + 1) n

  abbrev pub write_slice : (ℕ → A) → ℕ → List A → ℕ → A
  write_slice f i [] = f
  write_slice f i (x ∷ xs) = write_slice (update f i x) (i + 1) xs

  -- Element `i` of a list, with a default behind its end.
  abbrev pub nth : List A → ℕ → A → A
  nth [] i d = d
  nth (x ∷ xs) zero d = x
  nth (x ∷ xs) (suc i) d = nth xs i d

  pub length-slice : (f : ℕ → A) (i n : ℕ) → length (slice f i n) ≡ n
  length-slice f i zero = refl
  length-slice f i (suc n) = omega (arith, length-slice f (i + 1) n)

  pub slice_ext :
      (f g : ℕ → A) (i n : ℕ)
      → ((j : ℕ) → i ≤ j → j < i + n → f j ≡ g j)
      → slice f i n ≡ slice g i n
  slice_ext f g i zero h = refl
  slice_ext f g i (suc n) h =
      ap₂ ◌∷◌ (h i (omega arith) (omega arith))
        (slice_ext f g (i + 1) n (λ j p q. h j (omega arith) (omega arith)))

  pub write_slice_outside :
      (f : ℕ → A) (i : ℕ) (xs : List A) (j : ℕ)
      → (j < i) ⊎ (i + length xs ≤ j)
      → write_slice f i xs j ≡ f j
  write_slice_outside f i [] j h = refl
  write_slice_outside f i (x ∷ xs) j h =
      write_slice_outside (update f i x) (i + 1) xs j (ground arith) ∙ ground arith

  pub write_slice_inside :
      (f : ℕ → A) (i : ℕ) (xs : List A) (j : ℕ) (d : A)
      → j < length xs
      → write_slice f i xs (i + j) ≡ nth xs j d
  write_slice_inside f i [] j d h = absurd (omega arith)
  write_slice_inside f i (x ∷ xs) zero d h =
      write_slice_outside (update f i x) (i + 1) xs (i + 0) (inl (omega arith)) ∙ ground arith
  write_slice_inside f i (x ∷ xs) (suc j) d h =
      let e : i + suc j ≡ i + 1 + j = omega arith in
      rw e (write_slice_inside (update f i x) (i + 1) xs j d (omega arith))
