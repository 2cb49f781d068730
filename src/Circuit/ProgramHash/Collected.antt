-- ===== src/Circuit/ProgramHash/Collected.antt =====
-- The circuit collects the elements of the words that the emulator collects.
use mips_emulator.Prelude.{
  ℕ, zero, suc, ◌-◌, ◌≡◌, refl, ap, sym, ◌∙◌, inl, inr, List, [], ◌∷◌, ◌++◌, length, replicate,
  Bool, true, false, Option, none, some, ltb, Bool-cases,
}
use mips_emulator.Prelude.{done, ◌>>=◌, bind_done, after}
use mips_emulator.Platform.{Platform}
use mips_emulator.Witness.{Instruction}
use mips_emulator.Program.{Program, next_instruction}
use mips_emulator.Program.Hash.{Hasher, fetch_chunk, pad_chunk, collect}
use mips_emulator.Circuit.ProgramHash.{Pallas, fetch_elements, pad_elements, collect_elements}
use mips_emulator.Circuit.ProgramHash.Laws.{IsPallas}
use mips_emulator.Circuit.ProgramHash.Parts.{elements, length-elements}

module _ (platform : Platform) {Base : Type 0} (pallas : Pallas Base) where
  pub elements-append :
      (xs ys : List ℕ) → elements pallas (xs ++ ys) ≡ elements pallas xs ++ elements pallas ys
  unfolding elements
  elements-append [] ys = refl
  elements-append (x ∷ xs) ys = ap (λ l. pallas.from x ∷ l) (elements-append xs ys)

  -- Words with the place behind them, as elements.
  abbrev packed : List ℕ × ℕ × ℕ → List Base × ℕ × ℕ
  packed out = (elements pallas out.0, out.1, out.2)

  fetched :
      (n : ℕ) (p : Program) (c i : ℕ) (out : List ℕ × ℕ × ℕ)
      → ((c1 i1 : ℕ) (later : List ℕ × ℕ × ℕ)
          → fetch_chunk n c1 i1 p ≡ done later
          → fetch_elements platform pallas n c1 i1 p ≡ done (packed later))
      → (res : Option Instruction) (c1 i1 : ℕ) → next_instruction c i p ≡ done (res, c1, i1)
      → fetch_chunk (suc n) c i p ≡ done out
      → fetch_elements platform pallas (suc n) c i p ≡ done (packed out)
  unfolding fetch_chunk fetch_elements elements
  fetched n p c i out ih none c1 i1 moves h =
      let e : done ([], c, i) ≡ done out = rw moves at h in
      rw moves (ap (λ o. o >>= λ x. done (packed x)) e)
  fetched n p c i out ih (some ins) c1 i1 moves h =
      after (fetch_chunk n c1 i1 p) _ (rw moves at h) (λ later run e. rw moves (
        bind_done (fetch_elements platform pallas n c1 i1 p) _ (ih c1 i1 later run)
        ∙ ap (λ o. o >>= λ x. done (packed x)) e))

  fetch_elements_lem :
      (n : ℕ) (p : Program) (c i : ℕ) (out : List ℕ × ℕ × ℕ)
      → fetch_chunk n c i p ≡ done out
      → fetch_elements platform pallas n c i p ≡ done (packed out)
  unfolding fetch_chunk fetch_elements elements
  fetch_elements_lem zero p c i out h = ap (λ o. o >>= λ x. done (packed x)) h
  fetch_elements_lem (suc n) p c i out h = after (next_instruction c i p) _ h (λ next moves rest.
      fetched n p c i out (λ c1 i1 later. fetch_elements_lem n p c1 i1 later) next.0 next.1 next.2
        moves h)

  elements-zeros :
      (hasher : Hasher Base) (laws : IsPallas pallas hasher) (n : ℕ)
      → elements pallas (replicate n 0) ≡ replicate n pallas.zero_base
  unfolding elements
  elements-zeros hasher laws zero = refl
  elements-zeros hasher laws (suc n) =
      ap (λ (b : Base). b ∷ elements pallas (replicate n 0)) (sym laws.zero-eq)
      ∙ ap (λ (l : List Base). pallas.zero_base ∷ l) (elements-zeros hasher laws n)

  pad_elements_lem :
      (hasher : Hasher Base) (laws : IsPallas pallas hasher) (ws : List ℕ)
      → pad_elements platform pallas (elements pallas ws)
        ≡ (elements pallas (pad_chunk ws).0, (pad_chunk ws).1)
  unfolding pad_elements pad_chunk
  pad_elements_lem hasher laws ws = elim (Bool-cases (ltb (length ws) 120)) [
    | inl e ↦
        rw
          (
            length-elements pallas ws,
            e,
            elements-append ws (replicate (120 - length ws) 0),
            elements-zeros hasher laws (120 - length ws),
          )
          refl
    | inr e ↦ rw (length-elements pallas ws, e) refl
  ]

  ended :
      (fuel : ℕ) (p : Program) (c1 i1 : ℕ) (chunk : List ℕ × Bool) (ws : List ℕ)
      → ((later : List ℕ)
          → collect fuel c1 i1 p ≡ done later
          → collect_elements platform pallas fuel c1 i1 p ≡ done (elements pallas later))
      → elim chunk.1 [
        | true ↦ done chunk.0
        | false ↦ do rest ← collect fuel c1 i1 p; done (chunk.0 ++ rest)
      ]
        ≡ done ws
      → elim chunk.1 [
        | true ↦ done (elements pallas chunk.0)
        | false ↦ do
          rest ← collect_elements platform pallas fuel c1 i1 p
          done (elements pallas chunk.0 ++ rest)
      ]
        ≡ done (elements pallas ws)
  ended fuel p c1 i1 (chunk, true) ws ih h = ap (λ o. o >>= λ x. done (elements pallas x)) h
  ended fuel p c1 i1 (chunk, false) ws ih h = after (collect fuel c1 i1 p) _ h (λ later run e.
      rw (ih later run, sym (elements-append chunk later))
        (ap (λ o. o >>= λ x. done (elements pallas x)) e))

  -- What `compute_hash` collects, as elements.
  pub collect_elements_lem :
      (hasher : Hasher Base) (laws : IsPallas pallas hasher) (fuel : ℕ) (p : Program) (c i : ℕ)
      (ws : List ℕ)
      → collect fuel c i p ≡ done ws
      → collect_elements platform pallas fuel c i p ≡ done (elements pallas ws)
  unfolding collect collect_elements
  collect_elements_lem hasher laws zero p c i ws h = cc
  collect_elements_lem hasher laws (suc fuel) p c i ws h =
      after (fetch_chunk 120 c i p) _ h (λ out run rest.
        bind_done (fetch_elements platform pallas 120 c i p) _
          (fetch_elements_lem 120 p c i out run)
        ∙ (ap
              (λ (chunk : List Base × Bool). elim chunk.1 [
                | true ↦ done chunk.0
                | false ↦ do
                  later ← collect_elements platform pallas fuel out.1 out.2 p
                  done (chunk.0 ++ later)
              ])
              (pad_elements_lem hasher laws out.0)
            ∙ ended fuel p out.1 out.2 (pad_chunk out.0) ws
                (λ later. collect_elements_lem hasher laws fuel p out.1 out.2 later) rest))
