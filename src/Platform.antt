-- ===== src/Platform.antt =====
-- What the emulator takes from outside the repository: the build profile's overflow checks, the
-- `sha3` crate's `Sha3_256`, and the host's `PreimageOracle`.
use Prim.Native.Nat.{ℕ}
use mathlib.Core.Bool.{Bool}
use mathlib.Core.List.{List}

-- A byte string; `[u8; 32]` is one of length 32.
abbrev pub Bytes : Type 0
Bytes = List ℕ

abbrev pub Digest : Type 0
Digest = Bytes

pub record Platform : Type 0 where
  -- On in the `dev` profile, off in the `release` profile of the workspace's Cargo.toml.
  pub overflow_checks : Bool
  -- `Sha3_256` of what the hasher was updated with.
  pub sha3_256 : Bytes → Digest
  -- `get_preimage` after the oracle was given these hints, oldest first.
  pub get_preimage : List Bytes → Digest → Bytes
  -- The length of the buffer that `std::io` hands to its `n`-th `read` of a copy.
  pub buffer_size : ℕ → ℕ
