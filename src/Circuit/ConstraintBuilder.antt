-- ===== src/Circuit/ConstraintBuilder.antt =====
-- zkmips-circuits/src/mips_circuit/constraint_builder.rs: `MIPSConstraintBuilder`, with the lookups of
-- mips_circuit/table.rs and the random linear combinations of mips_circuit/util.rs.
pub mod Stored
pub mod Split
pub mod Lookups
use Prim.Native.String.{String, ◌++◌ as append_text}
use text.Mathlib.Text.{◌==◌ as str_eq}
use mips_emulator.Prelude.{
  ℕ, zero, suc, ◌+◌, Bool, true, false, ◌&&◌, ◌||◌, not, Option, none, some, List, [], ◌∷◌, ◌++◌,
  length,
}
use mips_emulator.Prelude.{◌==◌, ltb, leb, if◌then◌else◌}
use mips_emulator.Prelude.{◌>>=◌, ◌>>◌}
use mips_emulator.Prelude.{Outcome, done, panic, out_of_fuel, ensure}
use mips_emulator.Circuit.Expression.{
  Shape, negated, scaled, sum, product, other, Expressions, Table, u8, opcode, rw_table, fixed,
  CellType, storage, lookup, table_index, Cells,
}

unfoldable pub same_type : CellType → CellType → Bool
unfolding table_index
same_type storage storage = true
same_type (lookup a) (lookup b) = table_index a == table_index b
same_type storage (lookup b) = false
same_type (lookup a) storage = false

-- `Lookup`: a look-up with the expressions that it looks up.
pub data Lookup (E : Type 0) : Type 0 where
  in_fixed : E → E → E → E → Lookup E
  in_rw : E → E → E → E → E → Lookup E
  in_opcode : E → E → E → Lookup E

unfoldable pub table : {E : Type 0} → Lookup E → Table
table (in_fixed tag value0 value1 value2) = fixed
table (in_rw counter is_write tag address value) = rw_table
table (in_opcode tag index value) = opcode

unfoldable pub input_exprs : {E : Type 0} → Lookup E → List E
input_exprs (in_fixed tag value0 value1 value2) = tag ∷ value0 ∷ value1 ∷ value2 ∷ []
input_exprs (in_rw counter is_write tag address value) =
    counter ∷ is_write ∷ tag ∷ address ∷ value ∷ []
input_exprs (in_opcode tag index value) = tag ∷ index ∷ value ∷ []

-- `values.fold(init, |acc, value| acc * randomness + value)`.
unfoldable pub fold_values : {V : Type 0} → (V → V → V) → (V → V → V) → V → V → List V → V
fold_values plus times randomness acc [] = acc
fold_values plus times randomness acc (value ∷ values) =
    fold_values plus times randomness (plus (times acc randomness) value) values

unfoldable pub reversed : {V : Type 0} → List V → List V
reversed [] = []
reversed (v ∷ vs) = reversed vs ++ (v ∷ [])

-- `rlc::generic`, which is called on values that are not empty.
unfoldable pub generic : {V : Type 0} → (V → V → V) → (V → V → V) → List V → V → Outcome V
unfolding fold_values reversed
generic plus times values randomness = elim (reversed values) [
  | [] ↦ panic
  | init ∷ rest ↦ done (fold_values plus times randomness init rest)
]

-- `Step`.
pub record Step (Cell Manager : Type 0) : Type 0 where
  pub pc_register : Cell
  pub rw_counter : Cell
  pub bytecode : Cell
  pub registers : List Cell
  pub hi : Cell
  pub lo : Cell
  pub cell_manager : Manager

pub record StoredExpression (E Cell : Type 0) : Type 0 where
  pub name : String
  pub cell : Cell
  pub cell_type : CellType
  pub expr : E
  pub expr_id : String

pub record MipsConstraintBuilder (E Cell Manager Meta : Type 0) : Type 0 where
  pub curr : Step Cell Manager
  pub next : Step Cell Manager
  pub constraints : List (String × E)
  pub conditions : List E
  pub max_degree : ℕ
  pub meta : Meta
  pub in_next_step : Bool
  pub stored_expressions : List (StoredExpression E Cell)
  -- `challenges.lookup_input()`.
  pub lookup_input : E

-- `debug_assertions` is on in the `dev` profile.
module _ (debug_assertions : Bool) {E F Cell Manager Meta : Type 0} (x : Expressions E F)
    (cells : Cells E Cell Manager Meta) where
  abbrev pub Builder : Type 0
  Builder = MipsConstraintBuilder E Cell Manager Meta

  unfoldable pub new :
      Meta
      → Step Cell Manager
      → Step Cell Manager
      → E
      → ℕ
      → MipsConstraintBuilder E Cell Manager Meta
  new meta curr next lookup_input max_degree = record {
    curr = curr;
    next = next;
    constraints = [];
    conditions = [];
    max_degree = max_degree;
    meta = meta;
    in_next_step = false;
    stored_expressions = [];
    lookup_input = lookup_input;
  }

  unfoldable pub validate_degree : ℕ → Builder → Outcome (Unit {0})
  validate_degree degree b =
      ensure (not debug_assertions || not (ltb 0 b.max_degree) || leb degree b.max_degree)

  -- The loop of `gate`.
  unfoldable pub gate_constraints : E → List (String × E) → Builder → Outcome (List (String × E))
  unfolding validate_degree
  gate_constraints selector [] b = done []
  gate_constraints selector ((name, constraint) ∷ constraints) b = do
    validate_degree (x.degree (x.mul selector constraint)) b
    rest ← gate_constraints selector constraints b
    done ((name, x.mul selector constraint) ∷ rest)

  unfoldable pub gate : E → Builder → Outcome (List (String × E))
  unfolding gate_constraints
  gate selector b = gate_constraints selector b.constraints b

  unfoldable pub add_constraint : String → E → Builder → Outcome Builder
  unfolding validate_degree
  add_constraint name constraint b = do
    validate_degree (x.degree constraint) b
    done (record b { constraints = b.constraints ++ ((name, constraint) ∷ []) })

  unfoldable pub query_cells : CellType → ℕ → Builder → List Cell × Builder
  query_cells cell_type count b =
      if b.in_next_step
      then (let found = cells.query_cells (b.next).cell_manager b.meta cell_type count in
          (found.0, record b { next = record (b.next) { cell_manager = found.1 }; meta = found.2 }))
      else (let found = cells.query_cells (b.curr).cell_manager b.meta cell_type count in
          (found.0, record b { curr = record (b.curr) { cell_manager = found.1 }; meta = found.2 }))

  -- `.first().unwrap().clone()`.
  unfoldable pub first_cell : List Cell → Outcome Cell
  first_cell [] = panic
  first_cell (cell ∷ rest) = done cell

  unfoldable pub query_cell : Builder → Outcome (Cell × Builder)
  unfolding query_cells first_cell
  query_cell b = do
    let (found, b') = query_cells storage 1 b
    cell ← first_cell found
    done (cell, b')

  unfoldable pub query_u8_dyn : ℕ → Builder → List Cell × Builder
  query_u8_dyn count b = query_cells (lookup u8) count b

  -- `try_into().unwrap()` of an array of `n` cells.
  unfoldable pub query_bytes : ℕ → Builder → Outcome (List Cell × Builder)
  query_bytes n b = do
    let (found, b') = query_u8_dyn n b
    ensure (length found == n)
    done (found, b')

  unfoldable pub require_equal : String → E → E → Builder → Outcome Builder
  require_equal name lhs rhs b = add_constraint name (x.sub lhs rhs) b

  unfoldable pub require_boolean : String → E → Builder → Outcome Builder
  require_boolean name value b = add_constraint name (x.mul value (x.sub x.one_e value)) b

  unfoldable pub require_zero : String → E → Builder → Outcome Builder
  require_zero name constraint b = add_constraint name constraint b

  unfoldable pub require_true : String → E → Builder → Outcome Builder
  require_true name value b = require_equal name value x.one_e b

  unfoldable pub add_constraints : List (String × E) → Builder → Outcome Builder
  add_constraints [] b = done b
  add_constraints ((name, constraint) ∷ constraints) b = do
    b' ← add_constraint name constraint b
    add_constraints constraints b'

  -- The `find` of `find_stored_expression`.
  unfoldable pub find_in :
      String → CellType → List (StoredExpression E Cell) → Option (StoredExpression E Cell)
  unfolding same_type
  find_in expr_id cell_type [] = none
  find_in expr_id cell_type (e ∷ stored) =
      if same_type e.cell_type cell_type && str_eq e.expr_id expr_id
      then some e
      else find_in expr_id cell_type stored

  unfoldable pub find_stored_expression : E → CellType → Builder → Option (StoredExpression E Cell)
  unfolding find_in
  find_stored_expression expr cell_type b =
      find_in (x.identifier expr) cell_type b.stored_expressions

  unfoldable pub is_lookup : CellType → Bool
  is_lookup storage = false
  is_lookup (lookup t) = true

  -- The `None` branch: a new cell of the current step is to equal the expression.
  unfoldable pub store_new : String → E → CellType → Builder → Outcome (E × Builder)
  unfolding query_cells first_cell
  store_new name expr cell_type b = do
    let in_next_step = b.in_next_step
    let (found, b1) = query_cells cell_type 1 (record b { in_next_step = false })
    cell ← first_cell found
    let stored_name = append_text name " (stored expression)"
    let stored : StoredExpression E Cell = record {
      name = stored_name;
      cell = cell;
      cell_type = cell_type;
      expr = expr;
      expr_id = x.identifier expr;
    }
    done (
      cells.expr cell,
      record b1 {
        in_next_step = in_next_step;
        constraints = b1.constraints ++ ((stored_name, x.sub (cells.expr cell) expr) ∷ []);
        stored_expressions = b1.stored_expressions ++ (stored ∷ []);
      },
    )

  unfoldable pub store_expression : String → E → CellType → Builder → Outcome (E × Builder)
  unfolding find_stored_expression is_lookup store_new
  store_expression name expr cell_type b = elim (find_stored_expression expr cell_type b) [
    | some stored ↦ do
      ensure (not debug_assertions || not (is_lookup cell_type))
      done (cells.expr stored.cell, b)
    | none ↦ store_new name expr cell_type b
  ]

  -- The closure `split`, with the call of `split_expression` that it makes.
  unfoldable pub split_operand :
      (E → Builder → Outcome (E × Builder)) → String → ℕ → E → Builder → Outcome (E × Builder)
  unfolding store_expression
  split_operand recurse name max_degree expr b =
      if ltb max_degree (x.degree expr)
      then recurse expr b
      else store_expression name expr storage b

  -- `while a.degree() + b.degree() > max_degree`.
  unfoldable pub split_product :
      (E → Builder → Outcome (E × Builder))
      → ℕ
      → String
      → ℕ
      → E
      → E
      → Builder
      → Outcome (E × Builder)
  split_product recurse zero name max_degree l r b = out_of_fuel
  split_product recurse (suc rounds) name max_degree l r b =
      elim (ltb max_degree (x.degree l + x.degree r)) [
        | false ↦ done (x.mul l r, b)
        | true ↦ elim (leb (x.degree r) (x.degree l)) [
          | true ↦ do
            (l', b') ← split_operand recurse name max_degree l b
            split_product recurse rounds name max_degree l' r b'
          | false ↦ do
            (r', b') ← split_operand recurse name max_degree r b
            split_product recurse rounds name max_degree l r' b'
        ]
      ]

  unfoldable pub split_expression : ℕ → String → E → ℕ → Builder → Outcome (E × Builder)
  split_expression zero name expr max_degree b = out_of_fuel
  split_expression (suc fuel) name expr max_degree b = elim (ltb max_degree (x.degree expr)) [
    | false ↦ done (expr, b)
    | true ↦ elim (x.shape expr) [
      | negated poly ↦ do
        (e, b') ← split_expression fuel name poly max_degree b
        done (x.negated_e e, b')
      | scaled poly v ↦ do
        (e, b') ← split_expression fuel name poly max_degree b
        done (x.scaled_e e v, b')
      | sum l r ↦ do
        (l', b1) ← split_expression fuel name l max_degree b
        (r', b2) ← split_expression fuel name r max_degree b1
        done (x.add l' r', b2)
      | product l r ↦
          split_product (λ e b'. split_expression fuel name e max_degree b') 5 name max_degree l r b
      | other ↦ done (expr, b)
    ]
  ]

  -- `rlc::expr`.
  unfoldable pub rlc_expr : List E → E → Outcome E
  rlc_expr [] randomness = done x.zero_e
  rlc_expr (e ∷ expressions) randomness = generic x.add x.mul (e ∷ expressions) randomness

  unfoldable pub add_lookup : ℕ → String → Lookup E → Builder → Outcome Builder
  add_lookup fuel name looked b = do
    combined ← rlc_expr (input_exprs looked) b.lookup_input
    (compressed_expr, b1) ← split_expression fuel "Lookup compression" combined b.max_degree b
    (cell, b2) ← store_expression name compressed_expr (lookup (table looked)) b1
    done b2
