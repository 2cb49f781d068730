-- ===== src/Circuit/Expression.antt =====
-- What zkmips-circuits/src/mips_circuit/ uses of halo2's `Expression` and of the cells that the
-- cell manager places. The expressions hold no simple selectors, so the operators are total.
use Prim.Native.String.{String}
use mips_emulator.Prelude.{ℕ, ◌+◌, ◌≤◌, ◌<◌, ◌≡◌, max, List, length}

-- The variants that the source matches on: `Negated`, `Scaled`, `Sum` and `Product`, or another.
pub data Shape (E F : Type 0) : Type 0 where
  negated : E → Shape E F
  scaled : E → F → Shape E F
  sum : E → E → Shape E F
  product : E → E → Shape E F
  other : Shape E F

pub record Expressions (E F : Type 0) : Type 0 where
  pub shape : E → Shape E F
  pub degree : E → ℕ
  pub identifier : E → String
  pub negated_e : E → E
  pub scaled_e : E → F → E
  pub add : E → E → E
  pub sub : E → E → E
  pub mul : E → E → E
  -- `0.expr()` and `1.expr()`.
  pub zero_e : E
  pub one_e : E

-- `Table` and `CellType` of the cell manager.
pub data Table : Type 0 where
  u8 : Table
  u16 : Table
  opcode : Table
  rw_table : Table
  fixed : Table

pub data CellType : Type 0 where
  storage : CellType
  lookup : Table → CellType

unfoldable pub table_index : Table → ℕ
table_index u8 = 0
table_index u16 = 1
table_index opcode = 2
table_index rw_table = 3
table_index fixed = 4

-- The cell manager with the constraint system that it places cells in.
pub record Cells (E Cell Manager Meta : Type 0) : Type 0 where
  pub expr : Cell → E
  pub query_cells : Manager → Meta → CellType → ℕ → List Cell × Manager × Meta

-- The documented behaviour of expressions: the parts of one are smaller, and its degree is that
-- of the polynomial.
pub record IsExpressions {E F : Type 0} (x : Expressions E F) : Type 0 where
  pub size : E → ℕ
  pub shape-negated : (e p : E) → x.shape e ≡ negated p → (e ≡ x.negated_e p) × (size p < size e)
  pub shape-scaled :
      (e p : E) (v : F) → x.shape e ≡ scaled p v → (e ≡ x.scaled_e p v) × (size p < size e)
  pub shape-sum :
      (e a b : E) → x.shape e ≡ sum a b → (e ≡ x.add a b) × (size a < size e) × (size b < size e)
  pub shape-product :
      (e a b : E)
      → x.shape e ≡ product a b
      → (e ≡ x.mul a b) × (size a < size e) × (size b < size e)
  pub shape-other : (e : E) → x.shape e ≡ other → x.degree e ≤ 1
  pub degree-negated : (p : E) → x.degree (x.negated_e p) ≡ x.degree p
  pub degree-scaled : (p : E) (v : F) → x.degree (x.scaled_e p v) ≡ x.degree p
  pub degree-add : (a b : E) → x.degree (x.add a b) ≡ max (x.degree a) (x.degree b)
  pub degree-mul : (a b : E) → x.degree (x.mul a b) ≡ x.degree a + x.degree b

-- A query gives as many cells as it asks for, and a cell is a variable.
pub record IsCells {E F Cell Manager Meta : Type 0} (x : Expressions E F)
    (cells : Cells E Cell Manager Meta) : Type 0 where
  pub length-query_cells :
      (m : Manager) (meta : Meta) (t : CellType) (n : ℕ)
      → length (cells.query_cells m meta t n).0 ≡ n
  pub degree-expr : (c : Cell) → x.degree (cells.expr c) ≡ 1

-- The values of expressions under an assignment of the cells. Expressions with one identifier do
-- the same calculation.
pub record Evaluation {E F : Type 0} (x : Expressions E F) : Type 0 where
  pub eval : E → F
  pub zero_f : F
  pub one_f : F
  pub plus : F → F → F
  pub times : F → F → F
  pub minus : F → F
  pub eval-negated : (p : E) → eval (x.negated_e p) ≡ minus (eval p)
  pub eval-scaled : (p : E) (v : F) → eval (x.scaled_e p v) ≡ times (eval p) v
  pub eval-add : (a b : E) → eval (x.add a b) ≡ plus (eval a) (eval b)
  pub eval-mul : (a b : E) → eval (x.mul a b) ≡ times (eval a) (eval b)
  pub eval-sub : (a b : E) → eval (x.sub a b) ≡ zero_f → eval a ≡ eval b
  pub eval-zero : eval x.zero_e ≡ zero_f
  pub eval-identifier : (a b : E) → x.identifier a ≡ x.identifier b → eval a ≡ eval b
