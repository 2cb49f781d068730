-- ===== src/Program/Hash/Total.antt =====
-- mips-emulator/src/witness.rs: what the result of `compute_hash` depends on.
use mips_emulator.Prelude.{ℕ, zero, suc, ◌+◌, ◌-◌, ◌*◌, ◌%◌, ◌≤◌, ◌<◌, ◌≡◌, refl, arith, ap, ◌∙◌}
use mips_emulator.Prelude.{List, [], ◌∷◌, ◌++◌, length, replicate, length-append, length-replicate}
use mips_emulator.Program.{Program}
use mips_emulator.Program.Cursor.{AllNonEmpty, flat}
use mips_emulator.Program.Hash.{Hasher, compute_hash}
use mips_emulator.Program.Hash.Words.{words_of, padded, collect_lem}

-- Zero words.
abbrev pub zeros : ℕ → List ℕ
zeros n = replicate n 0

pub length-padded :
    (ws : List ℕ)
    → (length (padded ws) % 60 ≡ 0)
      × (length ws < length (padded ws))
      × (length (padded ws) ≤ length ws + 120)
unfolding padded
length-padded ws =
    let size = length-append ws (zeros (120 - length ws % 120)) in
    let pad = length-replicate {A = ℕ} (120 - length ws % 120) 0 in
    (omega (arith, size, pad), omega (arith, size, pad), omega (arith, size, pad))

zeros_on : (m n : ℕ) → zeros m ++ zeros n ≡ zeros (m + n)
zeros_on zero n = ap (λ (k : ℕ). zeros k) (omega arith)
zeros_on (suc m) n =
    let same : suc (m + n) ≡ suc m + n = omega arith in
    ap (λ l. 0 ∷ l) (zeros_on m n) ∙ ap (λ (k : ℕ). zeros k) same

padded-zeros :
    (ws : List ℕ) (k : ℕ) → length ws % 120 + k < 120 → padded (ws ++ zeros k) ≡ padded ws
unfolding padded
padded-zeros ws k h =
    let size : length (ws ++ zeros k) % 120 ≡ length ws % 120 + k =
      omega (arith, length-append ws (zeros k), length-replicate {A = ℕ} k 0) in
    let left : k + (120 - (length ws % 120 + k)) ≡ 120 - length ws % 120 = omega arith in
    rw size (append_zeros ws k (120 - (length ws % 120 + k)) ∙ ap (λ (n : ℕ). ws ++ zeros n) left)
  where
    append_zeros : (vs : List ℕ) (m n : ℕ) → vs ++ zeros m ++ zeros n ≡ vs ++ zeros (m + n)
    append_zeros [] m n = zeros_on m n
    append_zeros (v ∷ vs) m n = ap (λ l. v ∷ l) (append_zeros vs m n)

module _ {Base : Type 0} (hasher : Hasher Base) where
  -- Two programs with no empty segment have the same hash if the words of one are those of the
  -- other with zeros after them that do not reach the next multiple of 120, whatever their
  -- addresses and their division into segments, given fuel for 60 words a round and two rounds
  -- more.
  pub compute_hash-zeros :
      (fuel k : ℕ) (p q : Program)
      → AllNonEmpty p.segments
      → AllNonEmpty q.segments
      → words_of (flat q.segments) ≡ words_of (flat p.segments) ++ zeros k
      → length (words_of (flat p.segments)) % 120 + k < 120
      → length (words_of (flat p.segments)) + 120 ≤ 60 * fuel
      → compute_hash hasher fuel q ≡ compute_hash hasher fuel p
  unfolding compute_hash
  compute_hash-zeros fuel k p q full_p full_q e h enough =
      let ws = words_of (flat p.segments) in
      let size : length (words_of (flat q.segments)) ≡ length ws + k =
        ap (λ (l : List ℕ). length l) e
        ∙ (length-append ws (zeros k)
            ∙ ap (λ (n : ℕ). length ws + n) (length-replicate {A = ℕ} k 0)) in
      rw
        (
          collect_lem fuel q full_q (omega (arith, size)),
          collect_lem fuel p full_p (omega arith),
          e,
          padded-zeros ws k h,
        )
        refl
