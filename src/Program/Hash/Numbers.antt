-- ===== src/Program/Hash/Numbers.antt =====
-- The bits that `compute_hash` takes of 15 words, as those of two numbers of 240 bits.
use mips_emulator.Prelude.{
  ℕ, zero, suc, ◌+◌, ◌-◌, ◌*◌, ◌/◌, ◌%◌, ◌^◌, ◌≤◌, ◌<◌, ◌≡◌, refl, arith, ap, ◌∙◌,
}
use mips_emulator.Prelude.{
  Bool, List, [], ◌∷◌, ◌++◌, length, take, drop, nth, length-append, replicate,
}
use mips_emulator.Prelude.{done, bind_done}
use mips_emulator.Program.{index, i2lebsp}
use mips_emulator.Program.Bits.{
  from_bits, i2lebsp_lem, length-i2lebsp, from_bits-append, i2lebsp-from_bits,
}
use mips_emulator.Program.Hash.Words.{padded}
use mips_emulator.Program.Hash.{words_down, sub_chunks}

abbrev pub AllWords : List ℕ → Type 0
AllWords [] = Unit {0}
AllWords (w ∷ ws) = (w < 2 ^ 32) × AllWords ws

pub nth-lt : (ws : List ℕ) (i : ℕ) → AllWords ws → nth ws i 0 < 2 ^ 32
nth-lt [] i h = omega arith
nth-lt (w ∷ ws) zero h = h.0
nth-lt (w ∷ ws) (suc i) h = nth-lt ws i h.1

-- Padding adds words.
pub padded-AllWords : (ws : List ℕ) → AllWords ws → AllWords (padded ws)
unfolding padded
padded-AllWords ws h = append ws (120 - length ws % 120) h
  where
    zeros-AllWords : (n : ℕ) → AllWords (replicate n 0)
    zeros-AllWords zero = tt
    zeros-AllWords (suc n) = (omega arith, zeros-AllWords n)

    append : (vs : List ℕ) (n : ℕ) → AllWords vs → AllWords (vs ++ replicate n 0)
    append [] n h = zeros-AllWords n
    append (v ∷ vs) n h = (h.0, append vs n h.1)

pub index_lem : (ws : List ℕ) (i : ℕ) → i < length ws → index ws i ≡ done (nth ws i 0)
unfolding index
index_lem [] i h = absurd (omega arith)
index_lem (w ∷ ws) zero h = refl
index_lem (w ∷ ws) (suc i) h = index_lem ws i (omega arith)

-- `v` followed by `n` words from `from` on, as one number, the last word lowest.
unfoldable pub joined : ℕ → ℕ → ℕ → List ℕ → ℕ
joined zero from v ws = v
joined (suc n) from v ws = joined n from v ws * 2 ^ 32 + nth ws (from + n) 0

-- `b` moved up by `n` words.
unfoldable pub raised : ℕ → ℕ → ℕ
raised zero b = b
raised (suc n) b = raised n b * 2 ^ 32

pub le-raised : (n b : ℕ) → b ≤ raised n b
unfolding raised
le-raised zero b = omega arith
le-raised (suc n) b = omega (arith, le-raised n b)

pub joined-lt :
    (n from v b : ℕ) (ws : List ℕ) → AllWords ws → v < b → joined n from v ws < raised n b
unfolding joined raised
joined-lt zero from v b ws words h = h
joined-lt (suc n) from v b ws words h =
    omega (arith, joined-lt n from v b ws words h, nth-lt ws (from + n) words)

joined_on_top : (n from v : ℕ) (ws : List ℕ) → joined n from v ws ≡ raised n v + joined n from 0 ws
unfolding joined raised
joined_on_top zero from v ws = omega arith
joined_on_top (suc n) from v ws = omega (arith, joined_on_top n from v ws)

words_down_lem :
    (n from : ℕ) (ws : List ℕ)
    → from + n ≤ length ws
    → AllWords ws
    → (bits : List Bool) × (words_down n from ws ≡ done bits)
      × (length bits ≡ 32 * n)
      × (from_bits bits ≡ joined n from 0 ws)
unfolding words_down joined from_bits
words_down_lem zero from ws h words = ([], refl, omega arith, refl)
words_down_lem (suc n) from ws h words =
    let w = nth ws (from + n) 0 in
    let low : List Bool = i2lebsp 32 0 w in
    let (bits, run, size, number) = words_down_lem n from ws (omega arith) words in
    let size_low : length low ≡ 32 = length-i2lebsp 32 0 w in
    (
      low ++ bits,
      rw (index_lem ws (from + n) (omega arith), run) refl,
      omega (arith, length-append low bits, size_low, size),
      omega (
        arith,
        from_bits-append 32 low bits size_low,
        i2lebsp_lem 32 0 w,
        nth-lt ws (from + n) words,
        number,
      ),
    )

-- The halves of 15 words from `from` on.
unfoldable pub upper_half : ℕ → List ℕ → ℕ
upper_half from ws = joined 7 from 0 ws * 2 ^ 16 + nth ws (from + 7) 0 % 2 ^ 16

unfoldable pub lower_half : ℕ → List ℕ → ℕ
lower_half from ws = joined 7 (from + 8) (nth ws (from + 7) 0 / 2 ^ 16) ws

pub upper_half-lt : (from : ℕ) (ws : List ℕ) → AllWords ws → upper_half from ws < 2 ^ 240
unfolding upper_half raised
upper_half-lt from ws words = omega (arith, joined-lt 7 from 0 1 ws words (omega arith))

pub lower_half-lt : (from : ℕ) (ws : List ℕ) → AllWords ws → lower_half from ws < 2 ^ 240
unfolding lower_half raised
lower_half-lt from ws words =
    let mid = nth ws (from + 7) 0 in
    let small : mid / 2 ^ 16 < 2 ^ 16 = omega (arith, nth-lt ws (from + 7) words) in
    omega (arith, joined-lt 7 (from + 8) (mid / 2 ^ 16) (2 ^ 16) ws words small)

append_parts {ℓ} :
    {A : Type ℓ} (xs ys zs us : List A) → xs ++ (ys ++ (zs ++ us)) ≡ (xs ++ ys) ++ (zs ++ us)
append_parts [] ys zs us = refl
append_parts (x ∷ xs) ys zs us = ap (λ l. x ∷ l) (append_parts xs ys zs us)

take_low : (w : ℕ) → take 16 (i2lebsp 32 0 w) ≡ i2lebsp 16 0 w
unfolding i2lebsp
take_low w = refl

drop_low : (w : ℕ) → drop 16 (i2lebsp 32 0 w) ≡ i2lebsp 16 16 w
unfolding i2lebsp
drop_low w = refl

pub sub_chunks_halves :
    (from : ℕ) (ws : List ℕ)
    → from + 15 ≤ length ws
    → AllWords ws
    → sub_chunks from ws
      ≡ done (i2lebsp 240 0 (upper_half from ws) ++ i2lebsp 240 0 (lower_half from ws))
unfolding sub_chunks upper_half lower_half raised
sub_chunks_halves from ws h words =
    let (low, run, size, number) = words_down_lem 7 from ws (omega arith) words in
    let (high, run', size', number') = words_down_lem 7 (from + 8) ws (omega arith) words in
    let w = nth ws (from + 7) 0 in
    let bottom : List Bool = i2lebsp 16 0 w in
    let top : List Bool = i2lebsp 16 16 w in
    let bottom_size : length bottom ≡ 16 = length-i2lebsp 16 0 w in
    let top_size : length top ≡ 16 = length-i2lebsp 16 16 w in
    let upper : bottom ++ low ≡ i2lebsp 240 0 (upper_half from ws) =
      i2lebsp-from_bits 240 (upper_half from ws) (bottom ++ low)
        (omega (arith, length-append bottom low, bottom_size, size)) (upper_half-lt from ws words)
        (omega (arith, from_bits-append 16 bottom low bottom_size, i2lebsp_lem 16 0 w, number)) in
    let lower : high ++ top ≡ i2lebsp 240 0 (lower_half from ws) =
      i2lebsp-from_bits 240 (lower_half from ws) (high ++ top)
        (omega (arith, length-append high top, top_size, size')) (lower_half-lt from ws words)
        (omega (
          arith,
          from_bits-append 224 high top (omega (arith, size')),
          i2lebsp_lem 16 16 w,
          number',
          nth-lt ws (from + 7) words,
          joined_on_top 7 (from + 8) (w / 2 ^ 16) ws,
        )) in
    bind_done (words_down 7 from ws) _ run
    ∙ (bind_done (index ws (from + 7)) _ (index_lem ws (from + 7) (omega arith))
        ∙ (bind_done (words_down 7 (from + 8) ws) _ run'
            ∙ rw (take_low w, drop_low w, append_parts bottom low high top, upper, lower) refl))
