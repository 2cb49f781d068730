-- ===== src/Circuit/ConstraintBuilder/Lookups.antt =====
-- A look-up is a cell that holds the random linear combination of what is looked up.
use Prim.Native.String.{String}
use text.Mathlib.Text.{◌==◌ as str_eq}
use mips_emulator.Prelude.{
  ℕ, ◌≤◌, ◌<◌, ◌≡◌, refl, ap, sym, ◌∙◌, inl, inr, ◌⊎◌, Bool, true, false, ◌&&◌, some, List, [], ◌∷◌,
  ◌++◌, ==_iff, if◌then◌else◌, Bool-cases, Option-cases, ◌==◌,
}
use mips_emulator.Prelude.{done, panic}
use mips_emulator.Circuit.Expression.{
  Expressions, Table, CellType, storage, lookup, table_index, Cells, IsExpressions, IsCells,
  Evaluation, u8, u16, opcode, rw_table, fixed,
}
use mips_emulator.Circuit.ConstraintBuilder.{
  StoredExpression, MipsConstraintBuilder, Lookup, in_fixed, in_rw, in_opcode, table, input_exprs,
  fold_values, reversed, generic, same_type, find_in, find_stored_expression, store_expression,
  split_expression, rlc_expr, add_lookup,
}
use mips_emulator.Circuit.ConstraintBuilder.Stored.{
  Meets, Meets-append, IsConsistent, Stores, earlier, some_injective, found_lem, store_new_lem,
  record_of, stored_in,
}
use mips_emulator.Circuit.ConstraintBuilder.Split.{split_expression_lem}

-- The first value, and the combination of the others times the randomness.
unfoldable pub combination : {V : Type 0} → (V → V → V) → (V → V → V) → V → V → List V → V
combination plus times r v [] = v
combination plus times r v (w ∷ ws) = plus (times (combination plus times r w ws) r) v

module _ {V : Type 0} (plus times : V → V → V) (r : V) where
  fold_values-last :
      (acc v : V) (vs : List V)
      → fold_values plus times r acc (vs ++ (v ∷ []))
        ≡ plus (times (fold_values plus times r acc vs) r) v
  unfolding fold_values
  fold_values-last acc v [] = refl
  fold_values-last acc v (w ∷ vs) = fold_values-last (plus (times acc r) w) v vs

  -- The fold goes from the last value down.
  reversed_lem :
      (v : V) (vs : List V)
      → (init : V) × (rest : List V) × (reversed (v ∷ vs) ≡ init ∷ rest)
        × (fold_values plus times r init rest ≡ combination plus times r v vs)
  unfolding reversed combination fold_values
  reversed_lem v [] = (v, [], refl, refl)
  reversed_lem v (w ∷ vs) =
      let (init, rest, e, f) = reversed_lem w vs in
      (
        init,
        rest ++ (v ∷ []),
        ap (λ (l : List V). l ++ (v ∷ [])) e,
        fold_values-last init v rest ∙ ap (λ (t : V). plus (times t r) v) f,
      )

  pub generic_lem :
      (v : V) (vs : List V) → generic plus times (v ∷ vs) r ≡ done (combination plus times r v vs)
  unfolding generic
  generic_lem v vs =
      let (init, rest, e, f) = reversed_lem v vs in rw (e, generic) (ap (λ (t : V). done t) f)

module _ {E F : Type 0} {x : Expressions E F} (v : Evaluation x) where
  -- The values of expressions.
  abbrev pub values : List E → List F
  values [] = []
  values (e ∷ es) = v.eval e ∷ values es

  pub eval-combination :
      (r e : E) (es : List E)
      → v.eval (combination x.add x.mul r e es)
        ≡ combination v.plus v.times (v.eval r) (v.eval e) (values es)
  unfolding combination
  eval-combination r e [] = refl
  eval-combination r e (d ∷ es) =
      v.eval-add (x.mul (combination x.add x.mul r d es) r) e
      ∙ ap (λ (t : F). v.plus t (v.eval e))
          (v.eval-mul (combination x.add x.mul r d es) r
            ∙ ap (λ (t : F). v.times t (v.eval r)) (eval-combination r d es))

-- The tag of a look-up, or its first expression, and the others.
unfoldable pub head_expr : {E : Type 0} → Lookup E → E
head_expr (in_fixed tag value0 value1 value2) = tag
head_expr (in_rw counter is_write tag address value) = counter
head_expr (in_opcode tag index value) = tag

unfoldable pub tail_exprs : {E : Type 0} → Lookup E → List E
tail_exprs (in_fixed tag value0 value1 value2) = value0 ∷ value1 ∷ value2 ∷ []
tail_exprs (in_rw counter is_write tag address value) = is_write ∷ tag ∷ address ∷ value ∷ []
tail_exprs (in_opcode tag index value) = index ∷ value ∷ []

input_exprs_lem : {E : Type 0} (l : Lookup E) → input_exprs l ≡ head_expr l ∷ tail_exprs l
unfolding input_exprs head_expr tail_exprs
input_exprs_lem (in_fixed tag value0 value1 value2) = refl
input_exprs_lem (in_rw counter is_write tag address value) = refl
input_exprs_lem (in_opcode tag index value) = refl

-- The table of an index.
table_of : ℕ → Table
table_of n =
    if n == 0
    then u8
    else if n == 1
    then u16
    else if n == 2
    then opcode
    else if n == 3
    then rw_table
    else fixed

table_of-table_index : (t : Table) → table_of (table_index t) ≡ t
unfolding table_of table_index
table_of-table_index u8 = refl
table_of-table_index u16 = refl
table_of-table_index opcode = refl
table_of-table_index rw_table = refl
table_of-table_index fixed = refl

same_type-eq : (a b : CellType) → same_type a b ≡ true → a ≡ b
unfolding same_type
same_type-eq storage storage h = refl
same_type-eq storage (lookup b) h = cc
same_type-eq (lookup a) storage h = cc
same_type-eq (lookup a) (lookup b) h =
    let e : table_index a ≡ table_index b = (==_iff (table_index a) (table_index b)).0 h in
    ap lookup (sym (table_of-table_index a) ∙ (ap table_of e ∙ table_of-table_index b))

and_left : (a b : Bool) → (a && b) ≡ true → a ≡ true
and_left true b h = refl
and_left false b h = cc

module _ (debug_assertions : Bool) {E F Cell Manager Meta : Type 0} (x : Expressions E F)
    (cells : Cells E Cell Manager Meta) where
  abbrev Builder : Type 0
  Builder = MipsConstraintBuilder E Cell Manager Meta

  -- Among the stored expressions.
  abbrev pub Among : StoredExpression E Cell → List (StoredExpression E Cell) → Type 0
  Among s [] = ⊥
  Among s (y ∷ ys) = (y ≡ s) ⊎ Among s ys

  Among-last :
      (s : StoredExpression E Cell) (ys : List (StoredExpression E Cell)) → Among s (ys ++ (s ∷ []))
  Among-last s [] = inl refl
  Among-last s (y ∷ ys) = inr (Among-last s ys)

  find_in_type :
      (id : String) (t : CellType) (stored : List (StoredExpression E Cell))
      (s : StoredExpression E Cell)
      → find_in debug_assertions x cells id t stored ≡ some s
      → Among s stored × (s.cell_type ≡ t)
  unfolding find_in
  find_in_type id t [] s h = cc
  find_in_type id t (y ∷ ys) s h =
      elim (Bool-cases (same_type y.cell_type t && str_eq y.expr_id id)) [
        | inl yes_y ↦
            let same : y ≡ s = some_injective (rw yes_y at h) in
            (
              inl same,
              ap (λ (z : StoredExpression E Cell). z.cell_type) (sym same)
                  ∙ same_type-eq y.cell_type t
                      (and_left (same_type y.cell_type t) (str_eq y.expr_id id) yes_y),
            )
        | inr not_y ↦
            let (among, type) = find_in_type id t ys s (rw not_y at h) in (inr among, type)
      ]

  -- A look-up is stored in a cell, or, where it is stored already, fails a debug assertion.
  store_lookup_lem :
      (placed : IsCells x cells) (name : String) (e : E) (t : Table) (b : Builder)
      → IsConsistent debug_assertions x cells b
      → ((debug_assertions ≡ true)
          × (store_expression debug_assertions x cells name e (lookup t) b ≡ panic)
          × ((s : StoredExpression E Cell) × Among s b.stored_expressions
              × (s.cell_type ≡ lookup t)))
        ⊎ ((s : StoredExpression E Cell) × (b' : Builder) × (store_expression debug_assertions x
                cells name e
                (lookup t)
                b
              ≡ done (cells.expr s.cell, b'))
            × Stores debug_assertions x cells b b' e (cells.expr s.cell)
            × Among s b'.stored_expressions
            × (s.cell_type ≡ lookup t))
  unfolding store_expression find_stored_expression
  store_lookup_lem placed name e t b ok =
      elim (Option-cases (find_stored_expression debug_assertions x cells e (lookup t) b)) [
        | inl absent ↦
            let (c, run, stores) =
              store_new_lem debug_assertions x cells placed name e (lookup t) b ok in
            inr (
              record_of debug_assertions x cells name e (lookup t) c,
              stored_in debug_assertions x cells name e (lookup t) c b,
              rw (absent, store_expression) run,
              stores,
              Among-last (record_of debug_assertions x cells name e (lookup t) c)
                  b.stored_expressions,
              refl,
            )
        | inr (s, found) ↦
            let (among, type) =
              find_in_type (x.identifier e) (lookup t) b.stored_expressions s found in
            elim (Bool-cases debug_assertions) [
              | inl on ↦ inl (on, rw (found, store_expression, on) refl, (s, among, type))
              | inr off ↦ inr (
                s,
                b,
                rw (found, store_expression, off) refl,
                found_lem debug_assertions x cells (lookup t) e b s found ok,
                among,
                type,
              )
            ]
      ]

  -- With a maximal degree of 2 or more, for a builder whose constraints make each stored expression
  -- equal to its cell, and fuel above the size of the combination of what is looked up:
  -- `add_lookup` returns, and there is a stored cell for a look-up in the look-up's table which,
  -- under each assignment that meets the constraints, holds the values looked up combined by powers
  -- of the randomness; the earlier constraints hold there too, and the stored expressions equal
  -- their cells. Or debug assertions are on, an expression for a look-up in that table is stored
  -- once the combination is split, and it panics.
  pub add_lookup_lem :
      (laws : IsExpressions x) (placed : IsCells x cells) (fuel : ℕ) (name : String)
      (looked : Lookup E) (b : Builder)
      → 2 ≤ b.max_degree
      → laws.size (combination x.add x.mul b.lookup_input (head_expr looked) (tail_exprs looked))
        < fuel
      → IsConsistent debug_assertions x cells b
      → ((debug_assertions ≡ true)
          × (add_lookup debug_assertions x cells fuel name looked b ≡ panic)
          × ((s : StoredExpression E Cell) × (e : E) × (b1 : Builder) × (split_expression
                  debug_assertions x cells fuel "Lookup compression"
                  (combination x.add x.mul b.lookup_input (head_expr looked) (tail_exprs looked))
                  b.max_degree
                  b
                ≡ done (e, b1))
              × Among s b1.stored_expressions
              × (s.cell_type ≡ lookup (table looked))))
        ⊎ ((s : StoredExpression E Cell) × (b' : Builder) × (add_lookup debug_assertions x cells
                fuel name looked b
              ≡ done b')
            × Among s b'.stored_expressions
            × (s.cell_type ≡ lookup (table looked))
            × IsConsistent debug_assertions x cells b'
            × ((v : Evaluation x)
                → Meets v b'.constraints
                → Meets v b.constraints
                  × (v.eval (cells.expr s.cell)
                      ≡ combination v.plus v.times
                          (v.eval b.lookup_input)
                          (v.eval (head_expr looked))
                          (values v (tail_exprs looked)))))
  unfolding add_lookup rlc_expr
  add_lookup_lem laws placed fuel name looked b quadratic small ok =
      let whole = combination x.add x.mul b.lookup_input (head_expr looked) (tail_exprs looked) in
      let made : rlc_expr debug_assertions x cells (input_exprs looked) b.lookup_input
          ≡ done whole =
        rw (input_exprs_lem looked)
          (generic_lem x.add x.mul b.lookup_input (head_expr looked) (tail_exprs looked)) in
      let (e, b1, added, run, low, kept, ok1, same) =
        split_expression_lem debug_assertions x cells laws placed "Lookup compression" b.max_degree
          quadratic fuel whole b small ok in
      elim (store_lookup_lem placed name e (table looked) b1 ok1) [
        | inl (on, fails, (s, among, type)) ↦
            inl (on, rw (made, run, fails) refl, (s, e, b1, run, among, type))
        | inr (s, b2, run', stores, among, type) ↦ inr (
          s,
          b2,
          rw (made, run, run') refl,
          among,
          type,
          stores.consistent,
          λ v h. (
            (Meets-append v b.constraints added
                (rw kept at (earlier debug_assertions x cells stores v h))).0,
            stores.values v h
                ∙ (same v (earlier debug_assertions x cells stores v h)
                    ∙ eval-combination v b.lookup_input (head_expr looked) (tail_exprs looked)),
          ),
        )
      ]
