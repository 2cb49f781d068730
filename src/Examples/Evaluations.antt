-- ===== src/Examples/Evaluations.antt =====
-- The values of the polynomials, and that an identifier determines them.
use Prim.Native.String.{String}
use Prim.Native.Char.{code}
use mips_emulator.Prelude.{
  ℕ, zero, suc, ◌+◌, ◌≡◌, refl, arith, ap, sym, ◌∙◌, Bool, true, false, ◌&&◌, ◌==◌, if◌then◌else◌,
  List, [], ◌∷◌, ◌++◌,
}
use mips_emulator.Circuit.Expression.{Evaluation}
use mips_emulator.Examples.Polys.{
  Poly, num, cell, neg, times_c, plus_p, times_p, xor, ticks, print, polys,
}

module _ (env : ℕ → Bool) where
  unfoldable eval : Poly → Bool
  unfolding xor
  eval (num b) = b
  eval (cell i) = env i
  eval (neg p) = eval p
  eval (times_c p c) = eval p && c
  eval (plus_p p q) = xor (eval p) (eval q)
  eval (times_p p q) = eval p && eval q

  -- Ticks so far, and the values of the polynomials read.
  on_top : (Bool → Bool → List Bool) → List Bool → List Bool
  on_top f (q ∷ p ∷ st) = f p q ++ st
  on_top f st = st

  over : (Bool → Bool) → List Bool → List Bool
  over f (p ∷ st) = f p ∷ st
  over f [] = []

  step : ℕ → ℕ × List Bool → ℕ × List Bool
  unfolding on_top over xor
  step c (k, st) =
      if c == b'1'
      then (k, true ∷ st)
      else if c == b'0'
      then (k, false ∷ st)
      else if c == b'i'
      then (k + 1, st)
      else if c == b'c'
      then (0, env k ∷ st)
      else if c == b't'
      then (k, over (λ p. p && true) st)
      else if c == b'f'
      then (k, over (λ p. p && false) st)
      else if c == b'+'
      then (k, on_top (λ p q. xor p q ∷ []) st)
      else if c == b'*'
      then (k, on_top (λ p q. (p && q) ∷ []) st)
      else (k, st)

  run : String → ℕ × List Bool → ℕ × List Bool
  run String.[] s = s
  run (String.◌∷◌ c rest) s = run rest (step (code c) s)

  run-ticks :
      (i k : ℕ) (rest : String) (st : List Bool)
      → run (ticks i rest) (k, st) ≡ run rest (0, env (k + i) ∷ st)
  unfolding run ticks step
  run-ticks zero k rest st = ap (λ (j : ℕ). run rest (0, env j ∷ st)) (omega arith)
  run-ticks (suc i) k rest st =
      run-ticks i (k + 1) rest st ∙ ap (λ (j : ℕ). run rest (0, env j ∷ st)) (omega arith)

  run-print :
      (p : Poly) (rest : String) (st : List Bool)
      → run (print p rest) (0, st) ≡ run rest (0, eval p ∷ st)
  unfolding run print step eval
  run-print (num true) rest st = refl
  run-print (num false) rest st = refl
  run-print (cell i) rest st =
      run-ticks i 0 rest st ∙ ap (λ (j : ℕ). run rest (0, env j ∷ st)) (omega arith)
  run-print (neg p) rest st = run-print p (String.◌∷◌ "n" rest) st
  run-print (times_c p true) rest st = run-print p (String.◌∷◌ "t" rest) st
  run-print (times_c p false) rest st = run-print p (String.◌∷◌ "f" rest) st
  run-print (plus_p p q) rest st =
      run-print p (print q (String.◌∷◌ "+" rest)) st
      ∙ run-print q (String.◌∷◌ "+" rest) (eval p ∷ st)
  run-print (times_p p q) rest st =
      run-print p (print q (String.◌∷◌ "*" rest)) st
      ∙ run-print q (String.◌∷◌ "*" rest) (eval p ∷ st)

  -- The identifier determines the value.
  first : List Bool → Bool
  first [] = false
  first (b ∷ st) = b

  eval-identifier : (p q : Poly) → print p String.[] ≡ print q String.[] → eval p ≡ eval q
  unfolding first run
  eval-identifier p q h =
      ap (λ (s : ℕ × List Bool). first s.1)
        (sym (run-print p String.[] [])
          ∙ (ap (λ (t : String). run t (0, [])) h ∙ run-print q String.[] []))

  xor-eq : (a b : Bool) → xor a b ≡ false → a ≡ b
  unfolding xor
  xor-eq true true h = refl
  xor-eq true false h = cc
  xor-eq false b h = sym h

  -- The values of the polynomials.
  polys-Evaluation : Evaluation polys
  unfolding eval
  polys-Evaluation = record {
    eval = eval;
    zero_f = false;
    one_f = true;
    plus = xor;
    times = ◌&&◌;
    minus = λ b. b;
    eval-negated = λ p. refl;
    eval-scaled = λ p c. refl;
    eval-add = λ p q. refl;
    eval-mul = λ p q. refl;
    eval-sub = λ p q h. xor-eq (eval p) (eval q) h;
    eval-zero = refl;
    eval-identifier = eval-identifier;
  }
