-- ===== src/Examples/Builder.antt =====
-- The theorems on the constraint builder at concrete inputs.
use Prim.Native.String.{String}
use mips_emulator.Prelude.{
  ℕ, zero, suc, ◌+◌, ◌≤◌, ◌≡◌, refl, arith, ◌⊎◌, true, List, [], ◌∷◌, ◌++◌, length, done, panic,
}
use mips_emulator.Circuit.Expression.{Cells, IsCells, Evaluation, lookup}
use mips_emulator.Circuit.ConstraintBuilder.{
  MipsConstraintBuilder, Step, StoredExpression, Lookup, in_opcode, table, new, split_expression,
  add_lookup,
}
use mips_emulator.Circuit.ConstraintBuilder.Stored.{Meets, IsConsistent}
use mips_emulator.Circuit.ConstraintBuilder.Split.{split_expression_lem}
use mips_emulator.Circuit.ConstraintBuilder.Lookups.{
  Among, combination, head_expr, tail_exprs, values, add_lookup_lem,
}
use mips_emulator.Examples.Polys.{
  Poly, num, cell, neg, plus_p, times_p, degree, size, polys, polys-IsExpressions,
}

-- Cells with consecutive numbers.
numbered : ℕ → ℕ → List ℕ
numbered n zero = []
numbered n (suc count) = n ∷ numbered (n + 1) count

length-numbered : (n count : ℕ) → length (numbered n count) ≡ count
unfolding numbered
length-numbered n zero = refl
length-numbered n (suc count) = omega (arith, length-numbered (n + 1) count)

abbrev poly_cells : Cells Poly ℕ ℕ (Unit {0})
poly_cells = record {
  expr = cell;
  query_cells = λ manager meta t count. (numbered manager count, manager + count, meta);
}

poly_cells-IsCells : IsCells polys poly_cells
unfolding degree
poly_cells-IsCells = record {
  length-query_cells = λ m meta t n. length-numbered m n;
  degree-expr = λ c. refl;
}

-- A builder whose steps have no other cells yet; cell 9 is the randomness.
abbrev first_step : Step ℕ ℕ
first_step = record {
  pc_register = 0;
  rw_counter = 1;
  bytecode = 2;
  registers = [];
  hi = 3;
  lo = 4;
  cell_manager = 10;
}

abbrev builder : MipsConstraintBuilder Poly ℕ ℕ (Unit {0})
builder = new true polys poly_cells tt first_step first_step (cell 9) 2

builder-IsConsistent : IsConsistent true polys poly_cells builder
unfolding new
builder-IsConsistent = record { named = tt; equal = λ v h. tt }

-- A polynomial of degree 4.
abbrev quartic : Poly
quartic = times_p (times_p (cell 0) (cell 1)) (plus_p (times_p (cell 2) (cell 3)) (neg (num true)))

split_expression_example :
    (e' : Poly) × (b' : MipsConstraintBuilder Poly ℕ ℕ (Unit {0})) × (added : List (String × Poly))
    × (split_expression true polys poly_cells 6 "quartic" quartic 2 builder ≡ done (e', b'))
    × (degree e' ≤ 2)
    × (b'.constraints ≡ builder.constraints ++ added)
    × IsConsistent true polys poly_cells b'
    × ((v : Evaluation polys) → Meets v b'.constraints → v.eval e' ≡ v.eval quartic)
unfolding size polys-IsExpressions
split_expression_example =
    split_expression_lem true polys poly_cells polys-IsExpressions poly_cells-IsCells "quartic" 2
      (omega arith) 6 quartic builder (omega arith) builder-IsConsistent

abbrev looked : Lookup Poly
looked = in_opcode (times_p (cell 0) (cell 1)) (cell 2) (cell 3)

add_lookup_example :
    ((true ≡ true)
      × (add_lookup true polys poly_cells 9 "opcode" looked builder ≡ panic)
      × ((s : StoredExpression Poly ℕ) × (e : Poly) × (b1 : MipsConstraintBuilder Poly ℕ ℕ
            (Unit {0}))
          × (split_expression true polys poly_cells 9 "Lookup compression"
                (combination plus_p times_p (cell 9) (head_expr looked) (tail_exprs looked))
                2
                builder
              ≡ done (e, b1))
          × Among true polys poly_cells s b1.stored_expressions
          × (s.cell_type ≡ lookup (table looked))))
    ⊎ ((s : StoredExpression Poly ℕ) × (b' : MipsConstraintBuilder Poly ℕ ℕ (Unit {0}))
        × (add_lookup true polys poly_cells 9 "opcode" looked builder ≡ done b')
        × Among true polys poly_cells s b'.stored_expressions
        × (s.cell_type ≡ lookup (table looked))
        × IsConsistent true polys poly_cells b'
        × ((v : Evaluation polys)
            → Meets v b'.constraints
            → Meets v builder.constraints
              × (v.eval (cell s.cell)
                  ≡ combination v.plus v.times
                      (v.eval (cell 9))
                      (v.eval (head_expr looked))
                      (values v (tail_exprs looked)))))
unfolding size combination head_expr tail_exprs new polys-IsExpressions
add_lookup_example =
    add_lookup_lem true polys poly_cells polys-IsExpressions poly_cells-IsCells 9 "opcode" looked
      builder (omega arith) (omega arith) builder-IsConsistent
