-- ===== src/Circuit/ProgramHash/Agrees.antt =====
-- The circuit computes the hash that the emulator computes.
use mathlib.Core.Path.{subst}
use native.Mathlib.Nat.{div-lt_iff_lt-mul, le-div_iff_mul-le, mod-lt, div-add-mod}
use mips_emulator.Prelude.{
  ℕ, zero, suc, ◌+◌, ◌-◌, ◌*◌, ◌/◌, ◌%◌, ◌≤◌, ◌<◌, ◌≡◌, ◌==◌, refl, arith, ap, sym, ◌∙◌, inl, inr,
  List, [], ◌∷◌, ◌++◌, length, take, drop, length-drop, Bool, Option, none, some, ltb, leb, ==_iff,
  leb_of_le, leb_of_lt, ltb_of_le, ltb_of_lt, ◌!=◌, Option-cases, true, false,
}
use mips_emulator.Prelude.{done, ◌>>=◌, bind_done, after}
use mips_emulator.Platform.{Platform}
use mips_emulator.Program.{Program, index}
use mips_emulator.Program.Cursor.{AllNonEmpty, flat}
use mips_emulator.Program.Hash.{Hasher, unwrap, chunk_bits, hash_loop, compute_hash}
use mips_emulator.Program.Hash.Words.{words_of, padded, collect_lem}
use mips_emulator.Program.Hash.Numbers.{AllWords, padded-AllWords}
use mips_emulator.Program.Hash.Total.{length-padded}
use mips_emulator.Program.Hash.Chain.{hash_chain, hashed, compute_hash_lem}
use mips_emulator.Circuit.HashRound.{SinsemillaChip, chunk_pieces, hash_round}
use mips_emulator.Circuit.HashRound
use mips_emulator.Circuit.ProgramHash.{
  Pallas, slice_of, decompose, hash_chunks, calculate_chunk_hash, calculate_final_hash,
}
use mips_emulator.Circuit.ProgramHash.Laws.{
  IsPallas, IsSinsemilla, AllPieces, size_of, pieces_of, hash_of_parts, bits_of,
}
use mips_emulator.Circuit.ProgramHash.Parts.{
  parts_of, elements, length-elements, decompose_parts_lem,
}
use mips_emulator.Circuit.ProgramHash.Collected.{collect_elements_lem}

parts-AllPieces : {Base : Type 0} (xs : List Base) → AllPieces (parts_of xs)
parts-AllPieces [] = tt
parts-AllPieces (x ∷ xs) = (refl, omega arith, parts-AllPieces xs)

size_of-parts : {Base : Type 0} (xs : List Base) → size_of (parts_of xs) ≡ 240 * length xs
unfolding size_of
size_of-parts [] = refl
size_of-parts (x ∷ xs) = omega (arith, size_of-parts xs)

module _ {Base MessagePiece Point : Type 0} (chip : SinsemillaChip Base MessagePiece Point)
    (hasher : Hasher Base) where
  chunk_pieces_lem :
      (chunks : List Base) → chunk_pieces chip chunks ≡ pieces_of chip (parts_of chunks)
  unfolding chunk_pieces pieces_of
  chunk_pieces_lem [] = refl
  chunk_pieces_lem (c ∷ chunks) = rw (chunk_pieces_lem chunks) refl

  hash_round-parts :
      (pre : Base) (chunks : List Base)
      → hash_round chip pre chunks ≡ hash_of_parts chip ((pre, 250) ∷ parts_of chunks)
  unfolding hash_round hash_of_parts pieces_of
  hash_round-parts pre chunks = rw (chunk_pieces_lem chunks) (bound (chip.from_subpiece pre 250))
    where
      bound :
          (o : Option MessagePiece)
          → HashRound.◌>>=◌ o (λ piece.
            HashRound.◌>>=◌ (pieces_of chip (parts_of chunks)) (λ pieces.
              HashRound.◌>>=◌
                (chip.hash_to_point (piece ∷ pieces))
                (λ point. some (chip.extract point))))
            ≡ HashRound.◌>>=◌
                (HashRound.◌>>=◌ o (λ piece.
                  HashRound.◌>>=◌
                    (pieces_of chip (parts_of chunks))
                    (λ pieces. some (piece ∷ pieces))))
                (λ pieces.
                  HashRound.◌>>=◌ (chip.hash_to_point pieces) (λ point. some (chip.extract point)))
      bound none = refl
      bound (some piece) = elim (Option-cases (pieces_of chip (parts_of chunks))) [
        | inl e ↦ rw e refl
        | inr (ps, e) ↦ rw e refl
      ]

  -- A round of the circuit is one of the emulator.
  hash_round_lem :
      (pre r : Base) (chunks : List Base)
      → IsSinsemilla chip hasher
      → length chunks ≡ 8
      → hasher.hash (take 250 (hasher.to_le_bits pre) ++ bits_of hasher (parts_of chunks)) ≡ some r
      → hash_round chip pre chunks ≡ some r
  unfolding bits_of size_of
  hash_round_lem pre r chunks agrees eight h =
      hash_round-parts pre chunks
      ∙ agrees ((pre, 250) ∷ parts_of chunks) r (refl, omega arith, parts-AllPieces chunks)
          (omega (arith, size_of-parts chunks, eight)) h

-- Every chip computes the hash.
abbrev pub AllAgree :
    {Base MessagePiece Point : Type 0}
    → List (SinsemillaChip Base MessagePiece Point)
    → Hasher Base
    → Type 0
AllAgree [] hasher = Unit {0}
AllAgree (chip ∷ chips) hasher = IsSinsemilla chip hasher × AllAgree chips hasher

index_chip :
    {Base MessagePiece Point : Type 0} (chips : List (SinsemillaChip Base MessagePiece Point))
    (hasher : Hasher Base) (i : ℕ)
    → AllAgree chips hasher
    → i < length chips
    → (chip : SinsemillaChip Base MessagePiece Point) × (index chips i ≡ done chip)
      × IsSinsemilla chip hasher
unfolding index
index_chip [] hasher i all h = absurd (omega arith)
index_chip (chip ∷ chips) hasher zero all h = (chip, refl, all.0)
index_chip (chip ∷ chips) hasher (suc i) all h = index_chip chips hasher i all.1 (omega arith)

drop-nil {ℓ} : {A : Type ℓ} (n : ℕ) → drop {A = A} n [] ≡ []
drop-nil zero = refl
drop-nil (suc n) = refl

drop-drop {ℓ} : {A : Type ℓ} (m n : ℕ) (xs : List A) → drop m (drop n xs) ≡ drop (n + m) xs
drop-drop m zero xs = ap (λ (k : ℕ). drop k xs) (omega arith)
drop-drop m (suc n) [] = drop-nil m ∙ sym (drop-nil (suc n + m))
drop-drop m (suc n) (x ∷ xs) =
    let e : suc n + m ≡ suc (n + m) = omega arith in rw e (drop-drop m n xs)

-- Chunk `l` of `n` is hashed by one of the chips.
chip_in_range :
    (par n l : ℕ) → 0 < par → l < n → (0 < (n + par - 1) / par) × (l / ((n + par - 1) / par) < par)
chip_in_range par n l h k =
    let rest : (n + par - 1) % par < par = mod-lt (n + par - 1) h in
    let split : par * ((n + par - 1) / par) + (n + par - 1) % par ≡ n + par - 1 =
      div-add-mod (n + par - 1) par in
    let some_chunks : 0 < (n + par - 1) / par =
      (le-div_iff_mul-le {k = par} {x = 1} {y = n + par - 1} h).1 (omega arith) in
    (
      some_chunks,
      (div-lt_iff_lt-mul {k = (n + par - 1) / par} {x = l} {y = par} some_chunks).1
          (omega (arith, split, rest)),
    )

module _ (platform : Platform) {Base MessagePiece Point : Type 0} (pallas : Pallas Base)
    (hasher : Hasher Base) (laws : IsPallas pallas hasher)
    (chips : List (SinsemillaChip Base MessagePiece Point)) where
  -- From chunk `l` on, groups of eight elements with the bits that the emulator hashes.
  abbrev Groups : ℕ → ℕ → List ℕ → List Base → Type 0
  Groups zero l ws elems = Unit {0}
  Groups (suc left) l ws elems =
      (length (take 8 elems) ≡ 8)
      × (chunk_bits 4 (l * 60) ws ≡ done (bits_of hasher (parts_of (take 8 elems))))
      × Groups left (l + 1) ws (drop 8 elems)

  take-append : (n : ℕ) (xs ys : List Base) → length xs ≡ n → take n (xs ++ ys) ≡ xs
  take-append zero [] ys h = refl
  take-append zero (x ∷ xs) ys h = absurd (omega arith)
  take-append (suc n) [] ys h = absurd (omega arith)
  take-append (suc n) (x ∷ xs) ys h = ap (λ l. x ∷ l) (take-append n xs ys (omega arith))

  drop-append : (n : ℕ) (xs ys : List Base) → length xs ≡ n → drop n (xs ++ ys) ≡ ys
  drop-append zero [] ys h = refl
  drop-append zero (x ∷ xs) ys h = absurd (omega arith)
  drop-append (suc n) [] ys h = absurd (omega arith)
  drop-append (suc n) (x ∷ xs) ys h = drop-append n xs ys (omega arith)

  decompose_lem :
      (fuel left l : ℕ) (ws : List ℕ)
      → length ws ≡ (l + left) * 60
      → AllWords ws
      → left < fuel
      → (elems : List Base) × (decompose platform pallas fuel (l * 60) (elements pallas ws)
          ≡ done elems)
        × Groups left l ws elems
  unfolding decompose
  decompose_lem zero left l ws size words h = absurd (omega arith)
  decompose_lem (suc fuel) zero l ws size words h =
      let over : ltb (l * 60) (length (elements pallas ws)) ≡ false =
        ltb_of_le (l * 60) (length (elements pallas ws))
          (omega (arith, length-elements pallas ws, size)) in
      ([], rw (over, decompose) refl, tt)
  decompose_lem (suc fuel) (suc left) l ws size words h =
      let (parts, run, eight, bits) =
        decompose_parts_lem platform pallas hasher laws 4 (l * 60) ws (omega arith) words in
      let (rest, run', groups) =
        decompose_lem fuel left (l + 1) ws (omega arith) words (omega arith) in
      let more : ltb (l * 60) (length (elements pallas ws)) ≡ true =
        ltb_of_lt (l * 60) (length (elements pallas ws))
          (omega (arith, length-elements pallas ws, size)) in
      let up : l * 60 + 60 ≡ (l + 1) * 60 = omega arith in
      let group : take 8 (parts ++ rest) ≡ parts = take-append 8 parts rest eight in
      (
        parts ++ rest,
        rw (more, decompose, run, up, run') refl,
        (rw group eight, rw group bits, rw (drop-append 8 parts rest eight) groups),
      )

  enough_of_take : (n : ℕ) (xs : List Base) → length (take n xs) ≡ n → n ≤ length xs
  enough_of_take zero xs h = omega arith
  enough_of_take (suc n) [] h = absurd (omega arith)
  enough_of_take (suc n) (x ∷ xs) h = omega (arith, enough_of_take n xs (omega arith))

  slice_of_lem :
      (from n : ℕ) (xs : List Base)
      → from + n ≤ length xs
      → slice_of from n xs ≡ done (take n (drop from xs))
  unfolding slice_of
  slice_of_lem from n xs h = rw (leb_of_le (from + n) (length xs) h) refl

  unwrap-some : (o : Option Base) (a : Base) → unwrap o ≡ done a → o ≡ some a
  unfolding unwrap
  unwrap-some none a h = cc
  unwrap-some (some b) a h = cc

  -- One round.
  hash_chunks_step :
      (left l per_chip : ℕ) (pre a1 : Base) (elems : List Base)
      → AllAgree chips hasher
      → 0 < per_chip
      → l / per_chip < length chips
      → length (take 8 (drop (l * 8) elems)) ≡ 8
      → hasher.hash (
          take 250 (hasher.to_le_bits pre)
          ++ bits_of hasher (parts_of (take 8 (drop (l * 8) elems))))
        ≡ some a1
      → hash_chunks platform pallas chips (suc left) l per_chip pre elems
        ≡ hash_chunks platform pallas chips left (l + 1) per_chip a1 elems
  unfolding hash_chunks
  hash_chunks_step left l per_chip pre a1 elems agree one in_range eight hashed =
      let (chip, at, ok) = index_chip chips hasher (l / per_chip) agree in_range in
      let chunk = take 8 (drop (l * 8) elems) in
      let nonzero : (per_chip != 0) ≡ true = ground arith in
      let sliced : slice_of (l * 8) 8 elems ≡ done chunk =
        slice_of_lem (l * 8) 8 elems
          (omega (arith, enough_of_take 8 (drop (l * 8) elems) eight, length-drop (l * 8) elems)) in
      rw (nonzero, at)
        (bind_done (slice_of (l * 8) 8 elems) _ sliced
          ∙ ap
              (λ (o : Option Base). elim o [
                | none ↦ done none
                | some next ↦ hash_chunks platform pallas chips left (l + 1) per_chip next elems
              ])
              (hash_round_lem chip hasher pre a1 chunk ok eight hashed))

  -- What a round of the emulator that returns has hashed.
  hash_loop_step :
      (fuel idx : ℕ) (pre r : Base) (ws : List ℕ) (bits : List Bool)
      → chunk_bits 4 idx ws ≡ done bits
      → hash_loop hasher (suc fuel) idx pre ws ≡ done r
      → (a1 : Base) × (hasher.hash (take 250 (hasher.to_le_bits pre) ++ bits) ≡ some a1)
        × (elim (leb (length ws) (idx + 60)) [
          | true ↦ done a1
          | false ↦ hash_loop hasher fuel (idx + 60) a1 ws
        ]
            ≡ done r)
  unfolding hash_loop
  hash_loop_step fuel idx pre r ws bits run h =
      after (unwrap (hasher.hash (take 250 (hasher.to_le_bits pre) ++ bits))) _ (rw run at h)
        (λ a1 got rest. (a1, unwrap-some _ a1 got, rest))

  -- From chunk `l` on the circuit's rounds give what the emulator's loop gives.
  hash_chunks_lem :
      (fuel left l per_chip : ℕ) (pre r : Base) (ws : List ℕ) (elems : List Base)
      → AllAgree chips hasher
      → length ws ≡ (l + suc left) * 60
      → 0 < per_chip
      → ((k : ℕ) → k < l + suc left → k / per_chip < length chips)
      → Groups (suc left) l ws (drop (l * 8) elems)
      → hash_loop hasher fuel (l * 60) pre ws ≡ done r
      → hash_chunks platform pallas chips (suc left) l per_chip pre elems ≡ done (some r)
  unfolding hash_loop hash_chunks
  hash_chunks_lem zero left l per_chip pre r ws elems agree size one in_range groups h = cc
  hash_chunks_lem (suc fuel) zero l per_chip pre r ws elems agree size one in_range groups h =
      let (a1, hashed, rest) = hash_loop_step fuel (l * 60) pre r ws _ groups.1 h in
      let last : leb (length ws) (l * 60 + 60) ≡ true =
        leb_of_le (length ws) (l * 60 + 60) (omega (arith, size)) in
      let e : done a1 ≡ done r = rw last at rest in
      hash_chunks_step 0 l per_chip pre a1 elems agree one (in_range l (omega arith)) groups.0
        hashed
      ∙ ap (λ o. o >>= λ x. done (some x)) e
  hash_chunks_lem (suc fuel) (suc left) l per_chip pre r ws elems agree size one in_range groups h =
      let (a1, hashed, rest) = hash_loop_step fuel (l * 60) pre r ws _ groups.1 h in
      let more : leb (length ws) (l * 60 + 60) ≡ false =
        leb_of_lt (length ws) (l * 60 + 60) (omega (arith, size)) in
      let up : l * 60 + 60 ≡ (l + 1) * 60 = omega arith in
      let shift : drop 8 (drop (l * 8) elems) ≡ drop ((l + 1) * 8) elems =
        drop-drop 8 (l * 8) elems ∙ ap (λ (k : ℕ). drop k elems) (omega arith) in
      hash_chunks_step (suc left) l per_chip pre a1 elems agree one (in_range l (omega arith))
        groups.0 hashed
      ∙ hash_chunks_lem fuel left (l + 1) per_chip a1 r ws elems agree (omega (arith, size)) one
          (λ k h. in_range k (omega arith)) (subst (Groups (suc left) (l + 1) ws) shift groups.2)
          (rw (more, up) at rest)

  calculate_chunk_hash_lem :
      (fuel left : ℕ) (ws : List ℕ) (r : Base)
      → AllAgree chips hasher
      → 0 < length chips
      → length ws ≡ suc left * 60
      → AllWords ws
      → suc left < fuel
      → hash_loop hasher fuel 0 hasher.init ws ≡ done r
      → calculate_chunk_hash platform pallas chips fuel hasher.init (elements pallas ws)
        ≡ done (some r)
  unfolding calculate_chunk_hash
  calculate_chunk_hash_lem fuel left ws r agree chip whole words enough looped =
      let par = length chips in
      let (elems, run, groups) =
        decompose_lem fuel (suc left) 0 ws (omega (arith, whole)) words (omega arith) in
      let present : (par != 0) ≡ true = ground arith in
      let size : length (elements pallas ws) ≡ length ws = length-elements pallas ws in
      let rounds : length ws / 60 ≡ suc left = omega (arith, whole) in
      let even : (length ws % 60 == 0) ≡ true =
        (==_iff (length ws % 60) 0).1 (omega (arith, whole)) in
      let first = chip_in_range par (suc left) 0 chip (omega arith) in
      rw (present, size, even, run, rounds)
        (hash_chunks_lem fuel left 0 ((suc left + par - 1) / par) hasher.init r ws elems agree
          (omega (arith, whole)) first.0
          (λ k h. (chip_in_range par (suc left) k chip (omega arith)).1) groups looped)

  -- For a program with no empty segment and words below 2^32, whose chain of hashes is defined,
  -- where each of the circuit's chips, of which there is one at least, computes the emulator's hash
  -- of messages of at most 253 words of 10 bits where that is defined: `compute_hash` returns the
  -- element that the chain gives, and `calculate_final_hash` from the hasher's initial element
  -- returns the same; fuel for 60 words a round and three rounds more is enough.
  pub calculate_final_hash-compute_hash :
      (fuel : ℕ) (p : Program) {r : Base}
      → AllAgree chips hasher
      → 0 < length chips
      → AllNonEmpty p.segments
      → AllWords (words_of (flat p.segments))
      → hash_chain hasher (length (hashed p) / 60) 0 hasher.init (hashed p) ≡ some r
      → length (words_of (flat p.segments)) + 180 ≤ 60 * fuel
      → (compute_hash hasher fuel p ≡ done r)
        × (calculate_final_hash platform pallas chips fuel hasher.init p ≡ done (some r))
  unfolding compute_hash calculate_final_hash calculate_chunk_hash
  calculate_final_hash-compute_hash fuel p {r} agree chip full words chain enough =
      let run : compute_hash hasher fuel p ≡ done r =
        compute_hash_lem hasher fuel p full words (omega arith) ∙ rw chain refl in
      let ws = padded (words_of (flat p.segments)) in
      let (whole, more, less) = length-padded (words_of (flat p.segments)) in
      let collected = collect_lem fuel p full (omega arith) in
      let looped : hash_loop hasher fuel 0 hasher.init ws ≡ done r = rw collected at run in
      (
        run,
        rw (collect_elements_lem platform pallas hasher laws fuel p 0 0 ws collected) (
            calculate_chunk_hash_lem fuel (length ws / 60 - 1) ws r agree chip
              (omega (arith, whole, more)) (padded-AllWords (words_of (flat p.segments)) words)
              (omega (arith, less)) looped),
      )
