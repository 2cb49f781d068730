-- ===== src/Program/Cursor.antt =====
-- mips-emulator/src/witness.rs: the places that `Program::next_instruction` goes through.
use mips_emulator.Prelude.{
  ℕ, zero, suc, ◌+◌, ◌≤◌, ◌<◌, ◌≡◌, refl, arith, ◌⊎◌, inl, inr, ap, sym, Bool-cases,
}
use mips_emulator.Prelude.{none, some, List, [], ◌∷◌, ◌++◌, length, drop, ◌==◌, leb}
use mips_emulator.Prelude.{done}
use mips_emulator.Witness.{Instruction}
use mips_emulator.Program.{Program, ProgramSegment, index, advance, next_instruction}

-- Every segment has an instruction.
abbrev pub AllNonEmpty : List ProgramSegment → Type 0
AllNonEmpty [] = Unit {0}
AllNonEmpty (s ∷ ss) = (0 < length s.instructions) × AllNonEmpty ss

-- The program's instructions in order.
unfoldable pub flat : List ProgramSegment → List Instruction
flat [] = []
flat (s ∷ ss) = s.instructions ++ flat ss

-- Those from a place on.
unfoldable pub remaining : List ProgramSegment → ℕ → ℕ → List Instruction
remaining [] c i = []
remaining (s ∷ ss) zero i = drop i s.instructions ++ flat ss
remaining (s ∷ ss) (suc c) i = remaining ss c i

-- The place is an instruction's, or the end.
abbrev pub At : List ProgramSegment → ℕ → ℕ → Type 0
At [] c i = Unit {0}
At (s ∷ ss) zero i = i < length s.instructions
At (s ∷ ss) (suc c) i = At ss c i

pub At-start : (ss : List ProgramSegment) → AllNonEmpty ss → At ss 0 0
At-start [] h = tt
At-start (s ∷ ss) h = h.0

pub remaining_start : (ss : List ProgramSegment) → remaining ss 0 0 ≡ flat ss
unfolding remaining flat
remaining_start [] = refl
remaining_start (s ∷ ss) = refl

-- The instruction at a place, and where the cursor goes.
record Next (ss : List ProgramSegment) (c i : ℕ) : Type 0 where
  segment : ProgramSegment
  ins : Instruction
  next_segment : ℕ
  after_ins : ℕ
  get_segment : index ss c ≡ done segment
  get_ins : index (segment.instructions) i ≡ done ins
  place : advance (length segment.instructions) c i ≡ (next_segment, after_ins)
  at : At ss next_segment after_ins
  rest : remaining ss c i ≡ ins ∷ remaining ss next_segment after_ins

index-drop :
    {A : Type 0} (xs : List A) (i : ℕ)
    → i < length xs
    → (x : A) × (index xs i ≡ done x) × (drop i xs ≡ x ∷ drop (suc i) xs)
unfolding index
index-drop [] i h = absurd (omega arith)
index-drop (x ∷ xs) zero h = (x, refl, refl)
index-drop (x ∷ xs) (suc i) h = let (y, p, q) = index-drop xs i (omega arith) in (y, p, q)

drop_all : {A : Type 0} (xs : List A) (i : ℕ) → length xs ≤ i → drop i xs ≡ []
drop_all [] zero h = refl
drop_all [] (suc i) h = refl
drop_all (x ∷ xs) zero h = absurd (omega arith)
drop_all (x ∷ xs) (suc i) h = drop_all xs i (omega arith)

advance-suc :
    (len c i : ℕ) {c1 i1 : ℕ} → advance len c i ≡ (c1, i1) → advance len (suc c) i ≡ (suc c1, i1)
unfolding advance
advance-suc len c i {c1} {i1} h = elim (Bool-cases (i + 1 == len)) [
  | inl e ↦ rw e (moved (c + 1) 0 (omega arith) (rw e at h))
  | inr e ↦ rw e (moved c (i + 1) refl (rw e at h))
]
  where
    moved :
        {c2 : ℕ} (c' i' : ℕ)
        → c2 ≡ suc c'
        → ◌≡◌ {A = ℕ × ℕ} (c', i') (c1, i1)
        → ◌≡◌ {A = ℕ × ℕ} (c2, i') (suc c1, i1)
    moved c' i' p q = let a : c' ≡ c1 = ap (λ x. x.0) q in let b : i' ≡ i1 = ap (λ x. x.1) q in cc

place_after :
    (ss : List ProgramSegment) (c i : ℕ) → AllNonEmpty ss → At ss c i → c < length ss → Next ss c i
unfolding index remaining advance
place_after [] c i full at h = absurd (omega arith)
place_after (s ∷ ss) zero i full at h =
    let (x, p, q) = index-drop (s.instructions) i at in
    elim (Bool-cases (i + 1 == length s.instructions)) [
      | inl e ↦
          let ended : suc i ≡ length s.instructions = ground arith in
          record {
            segment = s;
            ins = x;
            next_segment = 1;
            after_ins = 0;
            get_segment = refl;
            get_ins = p;
            place = rw e refl;
            at = At-start ss full.1;
            rest =
                rw (q, drop_all (s.instructions) (suc i) (omega (arith, ended)))
                  (ap (λ l. x ∷ l) (sym (remaining_start ss)));
          }
      | inr e ↦ record {
        segment = s;
        ins = x;
        next_segment = 0;
        after_ins = suc i;
        get_segment = refl;
        get_ins = p;
        place = rw e (ap (λ (n : ℕ). (0, n)) (omega arith));
        at = ground arith;
        rest = rw q refl;
      }
    ]
place_after (s ∷ ss) (suc c) i full at h =
    let n = place_after ss c i full.1 at (omega arith) in
    record {
      segment = n.segment;
      ins = n.ins;
      next_segment = suc n.next_segment;
      after_ins = n.after_ins;
      get_segment = n.get_segment;
      get_ins = n.get_ins;
      place = advance-suc (length n.segment.instructions) c i n.place;
      at = n.at;
      rest = n.rest;
    }

remaining_end : (ss : List ProgramSegment) (c i : ℕ) → length ss ≤ c → remaining ss c i ≡ []
unfolding remaining
remaining_end [] c i h = refl
remaining_end (s ∷ ss) zero i h = absurd (omega arith)
remaining_end (s ∷ ss) (suc c) i h = remaining_end ss c i (omega arith)

-- At a place in a program with no empty segment, `next_instruction` gives the first of the
-- instructions that remain and the place from which the others do, or, where none does, none and
-- the same place.
pub next_instruction_lem :
    (p : Program) (c i : ℕ)
    → AllNonEmpty p.segments
    → At p.segments c i
    → ((remaining p.segments c i ≡ []) × (next_instruction c i p ≡ done (none, c, i)))
      ⊎ ((ins : Instruction) × (c' : ℕ) × (i' : ℕ) × (next_instruction c i p
            ≡ done (some ins, c', i'))
          × At p.segments c' i'
          × (remaining p.segments c i ≡ ins ∷ remaining p.segments c' i'))
unfolding next_instruction
next_instruction_lem p c i full at = elim (Bool-cases (leb (length p.segments) c)) [
  | inl e ↦ inl (remaining_end p.segments c i (ground arith), rw e refl)
  | inr e ↦
      let n = place_after p.segments c i full at (ground arith) in
      inr (
        n.ins,
        n.next_segment,
        n.after_ins,
        rw (e, n.get_segment, n.get_ins, n.place) refl,
        n.at,
        n.rest,
      )
]
