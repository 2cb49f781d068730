-- ===== src/Prelude/Calls.antt =====
-- What a Rust call ends in: a value, a panic, or, in a loop that is given fuel, no end within it.
use mathlib.Core.Path.{◌≡◌, refl}
use mathlib.Core.Bool.{Bool, true, false}
use mips_emulator.Prelude.Tests.{if◌then◌else◌}

pub data Outcome {ℓ} (A : Type ℓ) : Type ℓ where
  done : A → Outcome A
  panic : Outcome A
  out_of_fuel : Outcome A

infixl 5 ◌>>=◌ ◌>>◌
abbrev pub ◌>>=◌ {ℓ κ} : {A : Type ℓ} {B : Type κ} → Outcome A → (A → Outcome B) → Outcome B
done a >>= f = f a
panic >>= f = panic
out_of_fuel >>= f = out_of_fuel

abbrev pub ◌>>◌ {ℓ} : {B : Type ℓ} → Outcome (Unit {0}) → Outcome B → Outcome B
m >> k = m >>= λ _. k

-- `if !test { panic!() }`.
abbrev pub ensure : Bool → Outcome (Unit {0})
ensure true = done tt
ensure false = panic

-- Inversion of a successful bind.
pub >>=-eq-done {ℓ κ} :
    {A : Type ℓ} {B : Type κ} (m : Outcome A) (f : A → Outcome B) {b : B}
    → (m >>= f) ≡ done b
    → (a : A) × (m ≡ done a) × (f a ≡ done b)
>>=-eq-done (done a) f h = (a, refl, h)
>>=-eq-done panic f h = cc
>>=-eq-done out_of_fuel f h = cc

-- To go on from a successful bind with its parts as variables.
pub after {ℓ κ μ} :
    {A : Type ℓ} {B : Type κ} {C : Type μ} (m : Outcome A) (f : A → Outcome B) {b : B}
    → (m >>= f) ≡ done b
    → ((a : A) → m ≡ done a → f a ≡ done b → C)
    → C
after (done a) f h k = k a refl h
after panic f h k = absurd (cc)
after out_of_fuel f h k = absurd (cc)

-- The value of a conditional is that of one of its branches.
pub by_test {ℓ κ} :
    {A : Type ℓ} {T : Type κ} (b : Bool) {x y z : T}
    → (if b then x else y) ≡ z
    → (x ≡ z → A)
    → (y ≡ z → A)
    → A
by_test true h f g = f h
by_test false h f g = g h

pub done_injective {ℓ} : {A : Type ℓ} {x y : A} → done x ≡ done y → x ≡ y
done_injective h = cc

pub bind_done {ℓ κ} :
    {A : Type ℓ} {B : Type κ} (m : Outcome A) (f : A → Outcome B) {a : A}
    → m ≡ done a
    → (m >>= f) ≡ f a
bind_done m f h = rw h refl
