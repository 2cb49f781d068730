-- ===== src/Circuit/ConstraintBuilder/Stored.antt =====
-- What storing an expression in a cell leaves of the builder: constraints that make the cell equal
-- to the expression.
use text.Mathlib.TextEquality.{eq_iff}
use Prim.Native.String.{String, ◌++◌ as append_text}
use text.Mathlib.Text.{◌==◌ as str_eq}
use mips_emulator.Prelude.{
  ◌≡◌, refl, arith, ap, sym, ◌∙◌, inl, inr, Bool, true, false, ◌&&◌, ◌||◌, not, some, List, [], ◌∷◌,
  ◌++◌, length, Bool-cases, Option-cases,
}
use mips_emulator.Prelude.{done}
use mips_emulator.Program.Hash.Words.{append_assoc}
use mathlib.Core.List.{append-nil}
use mips_emulator.Circuit.Expression.{Expressions, CellType, storage, Cells, IsCells, Evaluation}
use mips_emulator.Circuit.ConstraintBuilder.{
  StoredExpression, MipsConstraintBuilder, same_type, first_cell, find_in, store_new,
  store_expression, find_stored_expression,
}

pub some_injective {ℓ} : {A : Type ℓ} {a b : A} → some a ≡ some b → a ≡ b
some_injective h = cc

and_right : (a b : Bool) → (a && b) ≡ true → b ≡ true
and_right true b h = h
and_right false b h = cc

or_true : (a : Bool) → (a || true) ≡ true
or_true true = refl
or_true false = refl

module _ {E F : Type 0} {x : Expressions E F} (v : Evaluation x) where
  -- The constraints hold: each of them has the value 0.
  abbrev pub Meets : List (String × E) → Type 0
  Meets [] = Unit {0}
  Meets ((name, constraint) ∷ constraints) = (v.eval constraint ≡ v.zero_f) × Meets constraints

  pub Meets-append : (xs ys : List (String × E)) → Meets (xs ++ ys) → Meets xs × Meets ys
  Meets-append [] ys h = (tt, h)
  Meets-append ((name, c) ∷ xs) ys h =
      let (left, right) = Meets-append xs ys h.1 in ((h.0, left), right)

module _ (debug_assertions : Bool) {E F Cell Manager Meta : Type 0} (x : Expressions E F)
    (cells : Cells E Cell Manager Meta) where
  abbrev Builder : Type 0
  Builder = MipsConstraintBuilder E Cell Manager Meta

  -- Stored expressions that have the value of their cells.
  abbrev pub AllEqual : Evaluation x → List (StoredExpression E Cell) → Type 0
  AllEqual v [] = Unit {0}
  AllEqual v (s ∷ stored) = (v.eval (cells.expr s.cell) ≡ v.eval s.expr) × AllEqual v stored

  abbrev pub AllNamed : List (StoredExpression E Cell) → Type 0
  AllNamed [] = Unit {0}
  AllNamed (s ∷ stored) = (s.expr_id ≡ x.identifier s.expr) × AllNamed stored

  -- The constraints make every stored expression equal to its cell.
  pub record IsConsistent (b : Builder) : Type 0 where
    pub named : AllNamed b.stored_expressions
    pub equal : (v : Evaluation x) → Meets v b.constraints → AllEqual v b.stored_expressions

  -- From `b` to `b'`, in which `e'` stands for `e`.
  pub record Stores (b b' : Builder) (e e' : E) : Type 0 where
    pub added : List (String × E)
    pub kept : b'.constraints ≡ b.constraints ++ added
    pub same_step : b'.in_next_step ≡ b.in_next_step
    pub consistent : IsConsistent b'
    pub values : (v : Evaluation x) → Meets v b'.constraints → v.eval e' ≡ v.eval e

  -- The constraints of the earlier builder hold too.
  pub earlier :
      {b b' : Builder} {e e' : E} (s : Stores b b' e e') (v : Evaluation x)
      → Meets v b'.constraints
      → Meets v b.constraints
  earlier {b} s v h = (Meets-append v b.constraints s.added (rw s.kept at h)).0

  pub unchanged : (b : Builder) (e : E) → IsConsistent b → Stores b b e e
  unchanged b e c = record {
    added = [];
    kept = sym (append-nil b.constraints);
    same_step = refl;
    consistent = c;
    values = λ v h. refl;
  }

  -- Two steps, of which the second is about an expression `f'` that is `f` with `d'` for `d`.
  pub in_turn :
      {b b1 b2 : Builder} {d d' f f' e : E}
      → Stores b b1 d d'
      → Stores b1 b2 f' e
      → ((v : Evaluation x) → v.eval d' ≡ v.eval d → v.eval f' ≡ v.eval f)
      → Stores b b2 f e
  in_turn {b} s t step = record {
    added = s.added ++ t.added;
    kept = t.kept ∙ (ap (λ l. l ++ t.added) s.kept ∙ append_assoc b.constraints s.added t.added);
    same_step = t.same_step ∙ s.same_step;
    consistent = t.consistent;
    values = λ v h. t.values v h ∙ step v (s.values v (earlier t v h));
  }

  AllEqual-append :
      (v : Evaluation x) (xs : List (StoredExpression E Cell)) (s : StoredExpression E Cell)
      → AllEqual v xs
      → v.eval (cells.expr s.cell) ≡ v.eval s.expr
      → AllEqual v (xs ++ (s ∷ []))
  AllEqual-append v [] s h e = (e, tt)
  AllEqual-append v (y ∷ ys) s h e = (h.0, AllEqual-append v ys s h.1 e)

  AllNamed-append :
      (xs : List (StoredExpression E Cell)) (s : StoredExpression E Cell)
      → AllNamed xs
      → s.expr_id ≡ x.identifier s.expr
      → AllNamed (xs ++ (s ∷ []))
  AllNamed-append [] s h e = (e, tt)
  AllNamed-append (y ∷ ys) s h e = (h.0, AllNamed-append ys s h.1 e)

  first_cell_lem :
      (found : List Cell)
      → length found ≡ 1
      → (c : Cell) × (first_cell debug_assertions x cells found ≡ done c)
  unfolding first_cell
  first_cell_lem [] h = absurd (omega arith)
  first_cell_lem (c ∷ rest) h = (c, refl)

  -- The record of an expression in a cell, and the builder with both.
  abbrev pub record_of : String → E → CellType → Cell → StoredExpression E Cell
  record_of name e t c = record {
    name = append_text name " (stored expression)";
    cell = c;
    cell_type = t;
    expr = e;
    expr_id = x.identifier e;
  }

  abbrev pub stored_in : String → E → CellType → Cell → Builder → Builder
  stored_in name e t c b =
      let fresh = cells.query_cells (b.curr).cell_manager b.meta t 1 in
      record b {
        curr = record (b.curr) { cell_manager = fresh.1 };
        meta = fresh.2;
        constraints =
            b.constraints
            ++ ((append_text name " (stored expression)", x.sub (cells.expr c) e) ∷ []);
        stored_expressions = b.stored_expressions ++ (record_of name e t c ∷ []);
      }

  stored_in-Stores :
      (name : String) (e : E) (t : CellType) (c : Cell) (b : Builder)
      → IsConsistent b
      → Stores b (stored_in name e t c b) e (cells.expr c)
  stored_in-Stores name e t c b ok =
      let equation : String × E =
        (append_text name " (stored expression)", x.sub (cells.expr c) e) in
      let holds : (v : Evaluation x)
          → Meets v (b.constraints ++ (equation ∷ []))
          → v.eval (cells.expr c) ≡ v.eval e =
        λ v h. v.eval-sub (cells.expr c) e (Meets-append v b.constraints (equation ∷ []) h).1.0 in
      record {
        added = equation ∷ [];
        kept = refl;
        same_step = refl;
        consistent = record {
          named = AllNamed-append b.stored_expressions (record_of name e t c) ok.named refl;
          equal = λ v h.
              AllEqual-append v b.stored_expressions (record_of name e t c)
                (ok.equal v (Meets-append v b.constraints (equation ∷ []) h).0) (holds v h);
        };
        values = holds;
      }

  module _ (placed : IsCells x cells) where
    pub store_new_lem :
        (name : String) (e : E) (t : CellType) (b : Builder)
        → IsConsistent b
        → (c : Cell) × (store_new debug_assertions x cells name e t b
            ≡ done (cells.expr c, stored_in name e t c b))
          × Stores b (stored_in name e t c b) e (cells.expr c)
    unfolding store_new
    store_new_lem name e t b ok =
        let fresh = cells.query_cells (b.curr).cell_manager b.meta t 1 in
        let (c, first) =
          first_cell_lem fresh.0 (placed.length-query_cells (b.curr).cell_manager b.meta t 1) in
        (c, rw first refl, stored_in-Stores name e t c b ok)

  -- A stored expression that is found has the value of the one looked for.
  find_in_lem :
      (t : CellType) (stored : List (StoredExpression E Cell)) (s : StoredExpression E Cell) (e : E)
      → find_in debug_assertions x cells (x.identifier e) t stored ≡ some s
      → AllNamed stored
      → (v : Evaluation x) → AllEqual v stored
      → v.eval (cells.expr s.cell) ≡ v.eval e
  unfolding find_in
  find_in_lem t [] s e h named v equal = cc
  find_in_lem t (y ∷ ys) s e h named v equal =
      elim (Bool-cases (same_type y.cell_type t && str_eq y.expr_id (x.identifier e))) [
        | inl yes_y ↦
            let same : y ≡ s = some_injective (rw yes_y at h) in
            let id : y.expr_id ≡ x.identifier e =
              (eq_iff y.expr_id (x.identifier e)).0
                (and_right (same_type y.cell_type t) (str_eq y.expr_id (x.identifier e)) yes_y) in
            ap (λ (z : StoredExpression E Cell). v.eval (cells.expr z.cell)) (sym same)
            ∙ (equal.0 ∙ v.eval-identifier y.expr e (sym named.0 ∙ id))
        | inr not_y ↦ find_in_lem t ys s e (rw not_y at h) named.1 v equal.1
      ]

  pub found_lem :
      (t : CellType) (e : E) (b : Builder) (s : StoredExpression E Cell)
      → find_stored_expression debug_assertions x cells e t b ≡ some s
      → IsConsistent b
      → Stores b b e (cells.expr s.cell)
  unfolding find_stored_expression
  found_lem t e b s found ok = record {
    added = [];
    kept = sym (append-nil b.constraints);
    same_step = refl;
    consistent = ok;
    values = λ v h. find_in_lem t b.stored_expressions s e found ok.named v (ok.equal v h);
  }

  -- An expression can always be stored, and the cell for it, old or new, is of degree 1.
  pub store_expression_lem :
      (placed : IsCells x cells) (name : String) (e : E) (b : Builder)
      → IsConsistent b
      → (e' : E) × (b' : Builder) × (store_expression debug_assertions x cells name e storage b
          ≡ done (e', b'))
        × Stores b b' e e'
        × (x.degree e' ≡ 1)
  unfolding store_expression
  store_expression_lem placed name e b ok =
      elim (Option-cases (find_stored_expression debug_assertions x cells e storage b)) [
        | inl absent ↦
            let (c, run, stores) = store_new_lem placed name e storage b ok in
            (
              cells.expr c,
              stored_in name e storage c b,
              rw (absent, store_expression) run,
              stores,
              placed.degree-expr c,
            )
        | inr (s, found) ↦ (
          cells.expr s.cell,
          b,
          rw (found, store_expression, or_true (not debug_assertions)) refl,
          found_lem storage e b s found ok,
          placed.degree-expr s.cell,
        )
      ]
