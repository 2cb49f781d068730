-- ===== src/Page.antt =====
-- mips-emulator/src/page.rs: a 4 KiB page with the intermediate nodes of its Merkle tree.
-- `cache` and `ok` are indexed by generalized index: 1 is the root, 64 to 127 are the nodes over
-- two 32-byte leaves each. The arrays are functions of the index; every index is in range.
pub mod Path
pub mod Tree
pub mod Write
use mips_emulator.Prelude.{ℕ, zero, suc, ◌+◌, ◌-◌, ◌*◌, ◌/◌, ◌^◌, bit_or}
use mips_emulator.Prelude.{Bool, true, false, ◌++◌, replicate, update, slice}
use mips_emulator.Prelude.{Outcome, done, panic, out_of_fuel, ◌>>=◌, leb, ◌==◌, if◌then◌else◌}
use mips_emulator.Platform.{Platform, Digest}

abbrev pub page_addr_size : ℕ
page_addr_size = 12

abbrev pub page_key_size : ℕ
page_key_size = 32 - page_addr_size

abbrev pub page_size : ℕ
page_size = 2 ^ page_addr_size

abbrev pub page_addr_mask : ℕ
page_addr_mask = page_size - 1

-- `[0; 32]`.
abbrev pub zero_digest : Digest
zero_digest = replicate 32 0

pub record CachedPage : Type 0 where
  pub data_at : ℕ → ℕ
  pub cache : ℕ → Digest
  pub ok : ℕ → Bool

-- `CachedPage::new`.
unfoldable pub new : CachedPage
new = record { data_at = λ _. 0; cache = λ _. zero_digest; ok = λ _. false }

-- `while k > 0 { self.ok[k] = false; k >>= 1; }`; seven rounds and the last test are enough.
unfoldable pub clear_path : ℕ → ℕ → (ℕ → Bool) → Outcome (ℕ → Bool)
clear_path zero k ok = out_of_fuel
clear_path (suc fuel) k ok =
    let rest = clear_path fuel (k / 2) (update ok k false) in
    if k == 0 then done ok else if leb 128 k then panic else rest

unfoldable pub invalidate : ℕ → CachedPage → Outcome CachedPage
invalidate page_addr page = if leb page_size page_addr then panic else do
  ok ← clear_path 8 (bit_or (2 ^ page_addr_size) page_addr / 2 ^ (5 + 1)) page.ok
  done (record page { ok = ok })

unfoldable pub invalidate_full : CachedPage → CachedPage
invalidate_full page = record page { ok = λ _. false }

module _ (platform : Platform) where
  unfoldable pub hash_pair : Digest → Digest → Digest
  hash_pair data_l data_r = platform.sha3_256 (data_l ++ data_r)

  -- `ZERO_HASHS[i]`: the root of a tree of height `i` over zeros.
  unfoldable pub zero_hash : ℕ → Digest
  zero_hash zero = zero_digest
  zero_hash (suc i) = hash_pair (zero_hash i) (zero_hash i)

  -- The bottom loop's body at `i = 64 * q`.
  unfoldable pub hash_leaf : ℕ → CachedPage → CachedPage
  hash_leaf q page =
      let j = page_size / 2 ^ (5 + 1) + q in
      if page.ok j then page else record page {
        cache = update page.cache j (platform.sha3_256 (slice page.data_at (64 * q) 64));
        ok = update page.ok j true;
      }

  unfoldable pub hash_leaves : ℕ → ℕ → CachedPage → CachedPage
  hash_leaves zero q page = page
  hash_leaves (suc left) q page = hash_leaves left (q + 1) (hash_leaf q page)

  -- The upper loop's body at `i = 2 * j`.
  unfoldable pub hash_node : ℕ → CachedPage → CachedPage
  hash_node j page = if page.ok j then page else record page {
    cache = update page.cache j (hash_pair (page.cache (2 * j)) (page.cache (2 * j + 1)));
    ok = update page.ok j true;
  }

  -- From `j - 1` down to 0.
  unfoldable pub hash_nodes : ℕ → CachedPage → CachedPage
  hash_nodes zero page = page
  hash_nodes (suc j) page = hash_nodes j (hash_node j page)

  unfoldable pub merkle_root : CachedPage → Digest × CachedPage
  unfolding hash_leaves hash_leaf hash_nodes hash_node hash_pair
  merkle_root page = let page' = hash_nodes 64 (hash_leaves 64 0 page) in (page'.cache 1, page')

  -- What it clones of the bottom node goes into a temporary array, and the node's index is then
  -- used on `cache`, which ends at 127.
  unfoldable pub merklelize_subtree : ℕ → CachedPage → Outcome (Digest × CachedPage)
  merklelize_subtree generalized_index page =
      let (_, page') = merkle_root page in
      if leb (page_size / 32 * 2) generalized_index
      then panic
      else if leb (page_size / 32) generalized_index
      then panic
      else done (page'.cache generalized_index, page')
