-- ===== src/Examples/Polys.antt =====
-- Concrete expressions: polynomials over the field of two elements.
use Prim.Native.String.{String}
use mips_emulator.Prelude.{ℕ, zero, suc, ◌+◌, ◌≤◌, ◌<◌, ◌≡◌, refl, arith, Bool, true, false, max}
use mips_emulator.Circuit.Expression.{
  Shape, negated, scaled, sum, product, other, Expressions, IsExpressions,
}

pub data Poly : Type 0 where
  num : Bool → Poly
  cell : ℕ → Poly
  neg : Poly → Poly
  times_c : Poly → Bool → Poly
  plus_p : Poly → Poly → Poly
  times_p : Poly → Poly → Poly

unfoldable pub xor : Bool → Bool → Bool
xor true true = false
xor true false = true
xor false b = b

unfoldable pub degree : Poly → ℕ
degree (num b) = 0
degree (cell i) = 1
degree (neg p) = degree p
degree (times_c p c) = degree p
degree (plus_p p q) = max (degree p) (degree q)
degree (times_p p q) = degree p + degree q

unfoldable pub size : Poly → ℕ
size (num b) = 0
size (cell i) = 0
size (neg p) = size p + 1
size (times_c p c) = size p + 1
size (plus_p p q) = size p + size q + 1
size (times_p p q) = size p + size q + 1

unfoldable pub shape : Poly → Shape Poly Bool
shape (num b) = other
shape (cell i) = other
shape (neg p) = negated p
shape (times_c p c) = scaled p c
shape (plus_p p q) = sum p q
shape (times_p p q) = product p q

-- In postfix notation, a cell as ticks, before a rest.
unfoldable pub ticks : ℕ → String → String
ticks zero rest = String.◌∷◌ "c" rest
ticks (suc i) rest = String.◌∷◌ "i" (ticks i rest)

unfoldable pub print : Poly → String → String
print (num true) rest = String.◌∷◌ "1" rest
print (num false) rest = String.◌∷◌ "0" rest
print (cell i) rest = ticks i rest
print (neg p) rest = print p (String.◌∷◌ "n" rest)
print (times_c p true) rest = print p (String.◌∷◌ "t" rest)
print (times_c p false) rest = print p (String.◌∷◌ "f" rest)
print (plus_p p q) rest = print p (print q (String.◌∷◌ "+" rest))
print (times_p p q) rest = print p (print q (String.◌∷◌ "*" rest))

abbrev pub polys : Expressions Poly Bool
polys = record {
  shape = shape;
  degree = degree;
  identifier = λ p. print p String.[];
  negated_e = neg;
  scaled_e = times_c;
  add = plus_p;
  sub = λ p q. plus_p p (neg q);
  mul = times_p;
  zero_e = num false;
  one_e = num true;
}

shape-negated : (e p : Poly) → shape e ≡ negated p → (e ≡ neg p) × (size p < size e)
unfolding shape size
shape-negated (num b) p h = cc
shape-negated (cell i) p h = cc
shape-negated (neg q) p h = let same : q ≡ p = cc in rw same (refl, omega arith)
shape-negated (times_c q c) p h = cc
shape-negated (plus_p q r) p h = cc
shape-negated (times_p q r) p h = cc

shape-scaled :
    (e p : Poly) (c : Bool) → shape e ≡ scaled p c → (e ≡ times_c p c) × (size p < size e)
unfolding shape size
shape-scaled (num b) p c h = cc
shape-scaled (cell i) p c h = cc
shape-scaled (neg q) p c h = cc
shape-scaled (times_c q d) p c h =
    let same : q ≡ p = cc in let factor : d ≡ c = cc in rw (same, factor) (refl, omega arith)
shape-scaled (plus_p q r) p c h = cc
shape-scaled (times_p q r) p c h = cc

shape-sum :
    (e a b : Poly) → shape e ≡ sum a b → (e ≡ plus_p a b) × (size a < size e) × (size b < size e)
unfolding shape size
shape-sum (num c) a b h = cc
shape-sum (cell i) a b h = cc
shape-sum (neg q) a b h = cc
shape-sum (times_c q d) a b h = cc
shape-sum (plus_p q r) a b h =
    let left : q ≡ a = cc in
    let right : r ≡ b = cc in rw (left, right) (refl, omega arith, omega arith)
shape-sum (times_p q r) a b h = cc

shape-product :
    (e a b : Poly)
    → shape e ≡ product a b
    → (e ≡ times_p a b) × (size a < size e) × (size b < size e)
unfolding shape size
shape-product (num c) a b h = cc
shape-product (cell i) a b h = cc
shape-product (neg q) a b h = cc
shape-product (times_c q d) a b h = cc
shape-product (plus_p q r) a b h = cc
shape-product (times_p q r) a b h =
    let left : q ≡ a = cc in
    let right : r ≡ b = cc in rw (left, right) (refl, omega arith, omega arith)

shape-other : (e : Poly) → shape e ≡ other → degree e ≤ 1
unfolding shape degree
shape-other (num c) h = omega arith
shape-other (cell i) h = omega arith
shape-other (neg q) h = cc
shape-other (times_c q d) h = cc
shape-other (plus_p q r) h = cc
shape-other (times_p q r) h = cc

unfoldable pub polys-IsExpressions : IsExpressions polys
unfolding degree shape-negated shape-scaled shape-sum shape-product shape-other
polys-IsExpressions = record {
  size = size;
  shape-negated = shape-negated;
  shape-scaled = shape-scaled;
  shape-sum = shape-sum;
  shape-product = shape-product;
  shape-other = shape-other;
  degree-negated = λ p. refl;
  degree-scaled = λ p c. refl;
  degree-add = λ p q. refl;
  degree-mul = λ p q. refl;
}
