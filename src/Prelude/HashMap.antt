-- ===== src/Prelude/HashMap.antt =====
-- `HashMap<u32, V>` as an association list with one entry for a key.
use Prim.Native.Nat.{ℕ, ◌+◌}
use mathlib.Core.Path.{◌≡◌, refl}
use mathlib.Core.Option.{Option, none, some}
use mathlib.Core.List.{List, ◌∷◌, []}
use native.Mathlib.Omega.{arith}
use mips_emulator.Prelude.Tests.{◌==◌, if◌then◌else◌}
use mips_emulator.Prelude.Lists.{length}

abbrev pub HashMap {ℓ} : Type ℓ → Type ℓ
HashMap V = List (ℕ × V)

module _ {ℓ} {V : Type ℓ} where
  unfoldable pub get : HashMap V → ℕ → Option V
  get [] k = none
  get ((j, v) ∷ m) k = if j == k then some v else get m k

  unfoldable pub insert : ℕ → V → HashMap V → HashMap V
  insert k v [] = (k, v) ∷ []
  insert k v ((j, w) ∷ m) = if j == k then (k, v) ∷ m else (j, w) ∷ insert k v m

  pub get-insert :
      (m : HashMap V) (k j : ℕ) (v : V)
      → get (insert k v m) j ≡ (if k == j then some v else get m j)
  unfolding get insert
  get-insert [] k j v = refl
  get-insert ((i, w) ∷ m) k j v = ground (arith, get-insert m k j v)

  -- Inserting under a new key adds one entry, under an old key none.
  pub length-insert :
      (m : HashMap V) (k : ℕ) (v : V)
      → length (insert k v m) ≡ (elim (get m k) [ none ↦ length m + 1 | some _ ↦ length m ])
  unfolding get insert
  length-insert [] k v = refl
  length-insert ((i, w) ∷ m) k v = ground (arith, length-insert m k v)
