-- ===== src/Circuit/ConstraintBuilder/Split.antt =====
-- `split_expression` lowers the degree of an expression and keeps its value.
use Prim.Native.String.{String}
use mips_emulator.Prelude.{
  ℕ, zero, suc, ◌+◌, ◌≤◌, ◌<◌, ◌≡◌, refl, arith, ap, sym, ◌∙◌, inl, inr, ◌⊎◌, Bool, true, ltb, leb,
  if◌then◌else◌, Bool-cases, List, ◌++◌,
}
use mips_emulator.Prelude.{Outcome, done}
use mips_emulator.Circuit.Expression.{
  Shape, negated, scaled, sum, product, other, Expressions, Cells, IsExpressions, IsCells,
  Evaluation,
}
use mips_emulator.Circuit.ConstraintBuilder.{
  MipsConstraintBuilder, split_operand, split_product, split_expression,
}
use mips_emulator.Circuit.ConstraintBuilder.Stored.{
  Meets, IsConsistent, Stores, unchanged, in_turn, store_expression_lem,
}

-- How many rounds an operand of a degree can take.
abbrev rounds_of : ℕ → ℕ → ℕ
rounds_of max_degree d = if leb d 1 then 0 else if leb d max_degree then 1 else 2

module _ (debug_assertions : Bool) {E F Cell Manager Meta : Type 0} (x : Expressions E F)
    (cells : Cells E Cell Manager Meta) (laws : IsExpressions x) (placed : IsCells x cells)
    (name : String) (max_degree : ℕ) (quadratic : 2 ≤ max_degree) where
  abbrev Builder : Type 0
  Builder = MipsConstraintBuilder E Cell Manager Meta

  -- A run that ends, in an expression of a degree that is allowed, which stands for `e`.
  abbrev Lowers : Outcome (E × Builder) → Builder → E → Type 0
  Lowers run b e =
      (e' : E) × (b' : Builder) × (run ≡ done (e', b'))
      × Stores debug_assertions x cells b b' e e'
      × (x.degree e' ≤ max_degree)

  -- The recursive call, on expressions below a size.
  abbrev Recurses : (E → Builder → Outcome (E × Builder)) → ℕ → Type 0
  Recurses recurse n =
      (e : E) (b : Builder)
      → laws.size e < n
      → IsConsistent debug_assertions x cells b
      → Lowers (recurse e b) b e

  split_operand_lem :
      (recurse : E → Builder → Outcome (E × Builder)) (n : ℕ) (e : E) (b : Builder)
      → Recurses recurse n
      → (x.degree e ≤ max_degree) ⊎ (laws.size e < n)
      → 2 ≤ x.degree e
      → IsConsistent debug_assertions x cells b
      → (e' : E) × (b' : Builder) × (split_operand debug_assertions x cells recurse name max_degree
            e b
          ≡ done (e', b'))
        × Stores debug_assertions x cells b b' e e'
        × (x.degree e' ≤ max_degree)
        × (rounds_of max_degree (x.degree e') < rounds_of max_degree (x.degree e))
  unfolding split_operand
  split_operand_lem recurse n e b ih small high ok =
      elim (Bool-cases (ltb max_degree (x.degree e))) [
        | inl over ↦
            let (e', b', run, stores, low) = ih e b (ground arith) ok in
            (e', b', rw over run, stores, low, ground arith)
        | inr fits ↦
            let (e', b', run, stores, one) =
              store_expression_lem debug_assertions x cells placed name e b ok in
            (e', b', rw fits run, stores, omega arith, ground arith)
      ]

  split_product_lem :
      (recurse : E → Builder → Outcome (E × Builder)) (n rounds : ℕ) (l r : E) (b : Builder)
      → Recurses recurse n
      → (x.degree l ≤ max_degree) ⊎ (laws.size l < n)
      → (x.degree r ≤ max_degree) ⊎ (laws.size r < n)
      → rounds_of max_degree (x.degree l) + rounds_of max_degree (x.degree r) < rounds
      → IsConsistent debug_assertions x cells b
      → Lowers
          (split_product debug_assertions x cells recurse rounds name max_degree l r b)
          b
          (x.mul l r)
  unfolding split_product
  split_product_lem recurse n zero l r b ih hl hr enough ok = absurd (omega arith)
  split_product_lem recurse n (suc rounds) l r b ih hl hr enough ok =
      elim (Bool-cases (ltb max_degree (x.degree l + x.degree r))) [
        | inr fits ↦ (
          x.mul l r,
          b,
          rw (fits, split_product) refl,
          unchanged debug_assertions x cells b (x.mul l r) ok,
          ground (arith, laws.degree-mul l r),
        )
        | inl over ↦ elim (Bool-cases (leb (x.degree r) (x.degree l))) [
          | inl left ↦
              let (l', b1, run, stores, low, fewer) =
                split_operand_lem recurse n l b ih hl (ground arith) ok in
              let (e, b2, run', stores', low') =
                split_product_lem recurse n rounds l' r b1 ih (inl low) hr (omega (arith, fewer))
                  stores.consistent in
              (
                e,
                b2,
                rw (over, split_product, left, run) run',
                in_turn debug_assertions x cells stores stores' (λ v same.
                    v.eval-mul l' r
                    ∙ (ap (λ (t : F). v.times t (v.eval r)) same ∙ sym (v.eval-mul l r))),
                low',
              )
          | inr right ↦
              let (r', b1, run, stores, low, fewer) =
                split_operand_lem recurse n r b ih hr (ground arith) ok in
              let (e, b2, run', stores', low') =
                split_product_lem recurse n rounds l r' b1 ih hl (inl low) (omega (arith, fewer))
                  stores.consistent in
              (
                e,
                b2,
                rw (over, split_product, right, run) run',
                in_turn debug_assertions x cells stores stores' (λ v same.
                    v.eval-mul l r'
                    ∙ (ap (λ (t : F). v.times (v.eval l) t) same ∙ sym (v.eval-mul l r))),
                low',
              )
        ]
      ]

  -- The variants of an expression whose degree is too high.
  shape_lem :
      (fuel : ℕ) (e : E) (b : Builder)
      → ((e' : E) (b' : Builder)
          → laws.size e' < fuel
          → IsConsistent debug_assertions x cells b'
          → Lowers (split_expression debug_assertions x cells fuel name e' max_degree b') b' e')
      → laws.size e < suc fuel
      → ltb max_degree (x.degree e) ≡ true
      → IsConsistent debug_assertions x cells b
      → (s : Shape E F) → x.shape e ≡ s
      → Lowers (split_expression debug_assertions x cells (suc fuel) name e max_degree b) b e
  unfolding split_expression
  shape_lem fuel e b ih small over ok (negated p) h =
      let (same, less) = laws.shape-negated e p h in
      let (p', b', run, stores, low) = ih p b (omega arith) ok in
      (
        x.negated_e p',
        b',
        rw (over, split_expression, h, run) refl,
        in_turn debug_assertions x cells stores
            (unchanged debug_assertions x cells b' (x.negated_e p') stores.consistent)
            (λ v e'.
              v.eval-negated p'
              ∙ (ap (λ (t : F). v.minus t) e' ∙ (sym (v.eval-negated p) ∙ ap v.eval (sym same)))),
        omega (arith, laws.degree-negated p'),
      )
  shape_lem fuel e b ih small over ok (scaled p c) h =
      let (same, less) = laws.shape-scaled e p c h in
      let (p', b', run, stores, low) = ih p b (omega arith) ok in
      (
        x.scaled_e p' c,
        b',
        rw (over, split_expression, h, run) refl,
        in_turn debug_assertions x cells stores
            (unchanged debug_assertions x cells b' (x.scaled_e p' c) stores.consistent)
            (λ v e'.
              v.eval-scaled p' c
              ∙ (ap (λ (t : F). v.times t c) e'
                  ∙ (sym (v.eval-scaled p c) ∙ ap v.eval (sym same)))),
        omega (arith, laws.degree-scaled p' c),
      )
  shape_lem fuel e b ih small over ok (sum l r) h =
      let (same, less_l, less_r) = laws.shape-sum e l r h in
      let (l', b1, run, stores, low) = ih l b (omega arith) ok in
      let (r', b2, run', stores', low') = ih r b1 (omega arith) stores.consistent in
      (
        x.add l' r',
        b2,
        rw (over, split_expression, h, run, run') refl,
        in_turn debug_assertions x cells stores
            (in_turn debug_assertions x cells stores'
              (unchanged debug_assertions x cells b2 (x.add l' r') stores'.consistent)
              (λ v e'.
                v.eval-add l' r'
                ∙ (ap (λ (t : F). v.plus (v.eval l') t) e' ∙ sym (v.eval-add l' r))))
            (λ v e'.
              v.eval-add l' r
              ∙ (ap (λ (t : F). v.plus t (v.eval r)) e'
                  ∙ (sym (v.eval-add l r) ∙ ap v.eval (sym same)))),
        omega (arith, laws.degree-add l' r'),
      )
  shape_lem fuel e b ih small over ok (product l r) h =
      let (same, less_l, less_r) = laws.shape-product e l r h in
      let (e', b', run, stores, low) =
        split_product_lem
          (λ d b'. split_expression debug_assertions x cells fuel name d max_degree b') fuel 5 l r b
          ih (inr (omega arith)) (inr (omega arith)) (ground arith) ok in
      (
        e',
        b',
        rw (over, split_expression, h) run,
        in_turn debug_assertions x cells (unchanged debug_assertions x cells b e ok) stores
            (λ v _. ap v.eval (sym same)),
        low,
      )
  shape_lem fuel e b ih small over ok other h =
      absurd (ground (arith, laws.shape-other e h, over, quadratic))

  split_lem :
      (fuel : ℕ) (e : E) (b : Builder)
      → laws.size e < fuel
      → IsConsistent debug_assertions x cells b
      → Lowers (split_expression debug_assertions x cells fuel name e max_degree b) b e
  unfolding split_expression
  split_lem zero e b small ok = absurd (omega arith)
  split_lem (suc fuel) e b small ok = elim (Bool-cases (ltb max_degree (x.degree e))) [
    | inl over ↦ shape_lem fuel e b (λ e' b'. split_lem fuel e' b') small over ok (x.shape e) refl
    | inr fits ↦ (
      e,
      b,
      rw (fits, split_expression) refl,
      unchanged debug_assertions x cells b e ok,
      ground arith,
    )
  ]

  -- With a maximal degree of 2 or more, `split_expression` of a builder whose constraints make each
  -- stored expression equal to its cell returns, in a build with debug assertions too, where the
  -- fuel is above the expression's size: the result has at most that degree, every constraint that
  -- was there is kept and more may be added, the stored expressions still equal their cells, and
  -- under each assignment that meets the constraints the result has the value of the expression.
  pub split_expression_lem :
      (fuel : ℕ) (e : E) (b : Builder)
      → laws.size e < fuel
      → IsConsistent debug_assertions x cells b
      → (e' : E) × (b' : Builder) × (added : List (String × E)) × (split_expression debug_assertions
            x cells fuel name e max_degree b
          ≡ done (e', b'))
        × (x.degree e' ≤ max_degree)
        × (b'.constraints ≡ b.constraints ++ added)
        × IsConsistent debug_assertions x cells b'
        × ((v : Evaluation x) → Meets v b'.constraints → v.eval e' ≡ v.eval e)
  split_expression_lem fuel e b small ok =
      let (e', b', run, stores, low) = split_lem fuel e b small ok in
      (e', b', stores.added, run, low, stores.kept, stores.consistent, λ v h. stores.values v h)
