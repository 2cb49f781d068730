-- ===== src/PreImage.antt =====
-- mips-emulator/src/pre_image.rs: the keys of pre-images, 32 bytes whose first is the key's type.
use mips_emulator.Prelude.{ℕ, ◌++◌, ◌∷◌, drop, replicate}
use mips_emulator.Platform.{Digest}
use mips_emulator.Word.{to_be_bytes}

abbrev pub local_key_type : ℕ
local_key_type = 1

abbrev pub keccak_256_key_type : ℕ
keccak_256_key_type = 2

-- `LocalIndexKey::preimage_key` of a `u64`.
unfoldable pub local_index_key : ℕ → Digest
local_index_key key = local_key_type ∷ replicate 23 0 ++ to_be_bytes 8 key

-- `Keccak256Key::preimage_key` of 32 bytes.
unfoldable pub keccak_256_key : Digest → Digest
keccak_256_key key = keccak_256_key_type ∷ drop 1 key
