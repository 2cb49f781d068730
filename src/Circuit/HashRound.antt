-- ===== src/Circuit/HashRound.antt =====
-- zkmips-circuits/src/program/chip.rs: `HashRoundChip`. The Sinsemilla chip of halo2_gadgets is a
-- parameter; a `Result` is an `Option`, whose `none` is an error of the layouter or the chip.
use mips_emulator.Prelude.{ℕ, Option, none, some, List, [], ◌∷◌}

infixl 5 ◌>>=◌
abbrev pub ◌>>=◌ {ℓ κ} : {A : Type ℓ} {B : Type κ} → Option A → (A → Option B) → Option B
none >>= f = none
some a >>= f = f a

-- `MessagePiece::from_subpieces` of the bits `0..n` of a value, `hash_to_point` from the point `Q`,
-- and `extract`, in the circuit whose values are known.
pub record SinsemillaChip (Base MessagePiece Point : Type 0) : Type 0 where
  pub from_subpiece : Base → ℕ → Option MessagePiece
  pub hash_to_point : List MessagePiece → Option Point
  pub extract : Point → Base

module _ {Base MessagePiece Point : Type 0} (chip : SinsemillaChip Base MessagePiece Point) where
  -- The loop over the chunks.
  unfoldable pub chunk_pieces : List Base → Option (List MessagePiece)
  chunk_pieces [] = some []
  chunk_pieces (chunk ∷ chunks) = do
    chunk_piece ← chip.from_subpiece chunk 240
    pieces ← chunk_pieces chunks
    some (chunk_piece ∷ pieces)

  unfoldable pub hash_round : Base → List Base → Option Base
  unfolding chunk_pieces
  hash_round pre chunks = do
    pre_piece ← chip.from_subpiece pre 250
    pieces ← chunk_pieces chunks
    point ← chip.hash_to_point (pre_piece ∷ pieces)
    some (chip.extract point)
