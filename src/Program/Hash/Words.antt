-- ===== src/Program/Hash/Words.antt =====
-- mips-emulator/src/witness.rs: the words that `compute_hash` collects.
use mips_emulator.Prelude.{◌>>=◌}
use mips_emulator.Prelude.{
  ℕ, zero, suc, ◌-◌, ◌*◌, ◌%◌, ◌≤◌, ◌<◌, ◌≡◌, refl, arith, ◌⊎◌, inl, inr, ap, sym, ◌∙◌, Bool-cases,
}
use mips_emulator.Prelude.{
  true, false, List, [], ◌∷◌, ◌++◌, length, replicate, take, drop, length-drop,
}
use mips_emulator.Prelude.{ltb, done, bind_done, Bool}
use mips_emulator.Witness.{Instruction}
use mips_emulator.Program.{Program}
use mips_emulator.Program.Cursor.{
  AllNonEmpty, At, At-start, flat, remaining, remaining_start, next_instruction_lem,
}
use mips_emulator.Program.Hash.{fetch_chunk, pad_chunk, collect}

-- The words of instructions.
unfoldable pub words_of : List Instruction → List ℕ
words_of [] = []
words_of (i ∷ is) = i.bytecode ∷ words_of is

-- Zeros after the words, up to the next multiple of 120 that is greater than their number.
unfoldable pub padded : List ℕ → List ℕ
padded ws = ws ++ replicate (120 - length ws % 120) 0

pub take_all {ℓ} : {A : Type ℓ} (n : ℕ) (xs : List A) → length xs ≤ n → take n xs ≡ xs
take_all zero [] h = refl
take_all zero (x ∷ xs) h = absurd (omega arith)
take_all (suc n) [] h = refl
take_all (suc n) (x ∷ xs) h = ap (λ l. x ∷ l) (take_all n xs (omega arith))

pub take-drop {ℓ} : {A : Type ℓ} (n : ℕ) (xs : List A) → take n xs ++ drop n xs ≡ xs
take-drop zero xs = refl
take-drop (suc n) [] = refl
take-drop (suc n) (x ∷ xs) = ap (λ l. x ∷ l) (take-drop n xs)

pub length-take {ℓ} : {A : Type ℓ} (n : ℕ) (xs : List A) → n ≤ length xs → length (take n xs) ≡ n
length-take zero xs h = refl
length-take (suc n) [] h = absurd (omega arith)
length-take (suc n) (x ∷ xs) h = omega (arith, length-take n xs)

pub append_assoc {ℓ} : {A : Type ℓ} (xs ys zs : List A) → xs ++ ys ++ zs ≡ xs ++ (ys ++ zs)
append_assoc [] ys zs = refl
append_assoc (x ∷ xs) ys zs = ap (λ l. x ∷ l) (append_assoc xs ys zs)

-- A chunk.
fetch_chunk_lem :
    (n : ℕ) (p : Program) (c i : ℕ)
    → AllNonEmpty p.segments
    → At p.segments c i
    → (c' : ℕ) × (i' : ℕ) × (fetch_chunk n c i p
        ≡ done (take n (words_of (remaining p.segments c i)), c', i'))
      × At p.segments c' i'
      × (words_of (remaining p.segments c' i') ≡ drop n (words_of (remaining p.segments c i)))
unfolding fetch_chunk words_of
fetch_chunk_lem zero p c i full at = (c, i, refl, at, refl)
fetch_chunk_lem (suc n) p c i full at = elim (next_instruction_lem p c i full at) [
  | inl (empty, stays) ↦ (c, i, rw (stays, empty) refl, at, rw empty refl)
  | inr (ins, c1, i1, moves, at1, rest) ↦
      let (c2, i2, run, at2, left) = fetch_chunk_lem n p c1 i1 full at1 in
      (c2, i2, rw (moves, rest, run) refl, at2, rw rest left)
]

short_chunk : (ws : List ℕ) → length ws < 120 → pad_chunk (take 120 ws) ≡ (padded ws, true)
unfolding pad_chunk padded
short_chunk ws h =
    let small : ltb (length ws) 120 ≡ true = ground arith in
    let rest : length ws % 120 ≡ length ws = omega arith in
    rw (take_all 120 ws (omega arith), small, rest) refl

full_chunk : (ws : List ℕ) → 120 ≤ length ws → pad_chunk (take 120 ws) ≡ (take 120 ws, false)
unfolding pad_chunk
full_chunk ws h = rw (length-take 120 ws h) refl

padded-drop : (ws : List ℕ) → 120 ≤ length ws → take 120 ws ++ padded (drop 120 ws) ≡ padded ws
unfolding padded
padded-drop ws h =
    let rest : length (drop 120 ws) % 120 ≡ length ws % 120 = omega (arith, length-drop 120 ws) in
    rw rest (
      sym (append_assoc (take 120 ws) (drop 120 ws) (replicate (120 - length ws % 120) 0))
      ∙ ap (λ (l : List ℕ). l ++ replicate (120 - length ws % 120) 0) (take-drop 120 ws))

below_or_not : (a b : ℕ) → (a < b) ⊎ (b ≤ a)
below_or_not a b = elim (Bool-cases (ltb a b)) [
  | inl e ↦ inl (ground arith)
  | inr e ↦ inr (ground arith)
]

last_chunk :
    (fuel : ℕ) (p : Program) (c i : ℕ) {ws chunk : List ℕ} {c1 i1 : ℕ}
    → fetch_chunk 120 c i p ≡ done (ws, c1, i1)
    → pad_chunk ws ≡ (chunk, true)
    → collect (suc fuel) c i p ≡ done chunk
unfolding collect
last_chunk fuel p c i {ws} {chunk} {c1} {i1} run last =
    bind_done (fetch_chunk 120 c i p) _ run ∙ ended (pad_chunk ws) last
  where
    ended :
        (pair : List ℕ × Bool)
        → pair ≡ (chunk, true)
        → elim pair.1 [
          | true ↦ done pair.0
          | false ↦ do rest ← collect fuel c1 i1 p; done (pair.0 ++ rest)
        ]
          ≡ done chunk
    ended (ready, true) e = cc
    ended (ready, false) e = cc

more_chunks :
    (fuel : ℕ) (p : Program) (c i : ℕ) {ws chunk rest : List ℕ} {c1 i1 : ℕ}
    → fetch_chunk 120 c i p ≡ done (ws, c1, i1)
    → pad_chunk ws ≡ (chunk, false)
    → collect fuel c1 i1 p ≡ done rest
    → collect (suc fuel) c i p ≡ done (chunk ++ rest)
unfolding collect
more_chunks fuel p c i {ws} {chunk} {rest} {c1} {i1} run last next =
    bind_done (fetch_chunk 120 c i p) _ run ∙ ended (pad_chunk ws) last
  where
    ended :
        (pair : List ℕ × Bool)
        → pair ≡ (chunk, false)
        → elim pair.1 [
          | true ↦ done pair.0
          | false ↦ do tail ← collect fuel c1 i1 p; done (pair.0 ++ tail)
        ]
          ≡ done (chunk ++ rest)
    ended (ready, true) e = cc
    ended (ready, false) e = let same : ready ≡ chunk = cc in rw (next, same) refl

collect_from :
    (fuel : ℕ) (p : Program) (c i : ℕ)
    → AllNonEmpty p.segments
    → At p.segments c i
    → length (words_of (remaining p.segments c i)) < 120 * fuel
    → collect fuel c i p ≡ done (padded (words_of (remaining p.segments c i)))
collect_from zero p c i full at h = absurd (omega arith)
collect_from (suc fuel) p c i full at h =
    let ws = words_of (remaining p.segments c i) in
    let (c1, i1, run, at1, left) = fetch_chunk_lem 120 p c i full at in
    elim (below_or_not (length ws) 120) [
      | inl short ↦ last_chunk fuel p c i run (short_chunk ws short)
      | inr long ↦
          let size : length (words_of (remaining p.segments c1 i1)) ≡ length ws - 120 =
            ap (λ (l : List ℕ). length l) left ∙ length-drop 120 ws in
          let next : collect fuel c1 i1 p ≡ done (padded (drop 120 ws)) =
            rw (sym left) (collect_from fuel p c1 i1 full at1 (omega (arith, size))) in
          more_chunks fuel p c i run (full_chunk ws long) next
          ∙ ap (λ (l : List ℕ). done l) (padded-drop ws long)
    ]

-- The words that `compute_hash` collects of a program with no empty segment are those of all its
-- instructions in order, and then zeros up to the next greater multiple of 120; one round for each
-- 120 words and one more are enough.
pub collect_lem :
    (fuel : ℕ) (p : Program)
    → AllNonEmpty p.segments
    → length (words_of (flat p.segments)) < 120 * fuel
    → collect fuel 0 0 p ≡ done (padded (words_of (flat p.segments)))
collect_lem fuel p full h =
    let start = remaining_start p.segments in
    rw (sym start) (collect_from fuel p 0 0 full (At-start p.segments full) (rw start h))
