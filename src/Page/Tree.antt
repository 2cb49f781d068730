-- ===== src/Page/Tree.antt =====
-- The Merkle tree that a page's cached nodes stand for, and `CachedPage::merkle_root` against it.
use mips_emulator.Prelude.{ℕ, zero, suc, ◌+◌, ◌*◌, ◌^◌, ◌≤◌, ◌<◌, ◌≡◌, refl, arith}
use mips_emulator.Prelude.{true, inl, inr, ◌∙◌, ap}
use mips_emulator.Prelude.{◌==◌, Bool-cases}
use mips_emulator.Prelude.{slice}
use mips_emulator.Platform.{Platform, Digest}
use mathlib.Core.Path.{ap₂}
use native.Mathlib.Nat.{pow-suc, one-le-pow}
use mips_emulator.Page.{CachedPage, hash_pair, hash_leaf, hash_leaves, hash_node, hash_nodes}
use mips_emulator.Page.{merkle_root}

module _ (platform : Platform) where
  -- The node over 64 bytes.
  abbrev pub leaf_hash : (ℕ → ℕ) → ℕ → Digest
  leaf_hash bytes q = platform.sha3_256 (slice bytes (64 * q) 64)

  -- The `q`-th node from the left at height `h` above the 64-byte blocks.
  unfoldable pub tree : (ℕ → ℕ) → ℕ → ℕ → Digest
  tree bytes zero q = leaf_hash bytes q
  tree bytes (suc h) q = hash_pair platform (tree bytes h (2 * q)) (tree bytes h (2 * q + 1))

  -- A node marked `ok` holds the hash of what lies below it, and the two nodes below it are `ok`.
  pub record IsCached (page : CachedPage) : Type 0 where
    pub leaf :
        (q : ℕ) → q < 64 → page.ok (64 + q) ≡ true → page.cache (64 + q) ≡ leaf_hash page.data_at q
    pub inner :
        (j : ℕ)
        → 0 < j
        → j < 64
        → page.ok j ≡ true
        → page.cache j ≡ hash_pair platform (page.cache (2 * j)) (page.cache (2 * j + 1))
    pub left : (j : ℕ) → 0 < j → j < 64 → page.ok j ≡ true → page.ok (2 * j) ≡ true
    pub right : (j : ℕ) → 0 < j → j < 64 → page.ok j ≡ true → page.ok (2 * j + 1) ≡ true

  -- A node that is `ok` stays so, and the bytes stay.
  pub record Grows (page page' : CachedPage) : Type 0 where
    pub bytes : page'.data_at ≡ page.data_at
    pub keeps : (j : ℕ) → page.ok j ≡ true → page'.ok j ≡ true

  hash_leaf-IsCached :
      (q : ℕ) {page : CachedPage} → q < 64 → IsCached page → IsCached (hash_leaf platform q page)
  unfolding hash_leaf
  hash_leaf-IsCached q {page} h c = elim (Bool-cases (page.ok (64 + q))) [
    | inl e ↦ rw e c
    | inr e ↦ rw e (record {
      leaf = λ i p o. ground (arith, c.leaf i p);
      inner = λ j p l o. ground (arith, c.inner j p l, c.left j p l, c.right j p l);
      left = λ j p l o. ground (arith, c.left j p l);
      right = λ j p l o. ground (arith, c.right j p l);
    })
  ]

  hash_leaf-Grows : (q : ℕ) (page : CachedPage) → Grows page (hash_leaf platform q page)
  unfolding hash_leaf
  hash_leaf-Grows q page = elim (Bool-cases (page.ok (64 + q))) [
    | inl e ↦ rw e (record { bytes = refl; keeps = λ j o. o })
    | inr e ↦ rw e (record { bytes = refl; keeps = λ j o. ground arith })
  ]

  hash_leaf-ok : (q : ℕ) (page : CachedPage) → (hash_leaf platform q page).ok (64 + q) ≡ true
  unfolding hash_leaf
  hash_leaf-ok q page = ground arith

  hash_node-IsCached :
      (j : ℕ) {page : CachedPage}
      → j < 64
      → ((i : ℕ) → j < i → i < 128 → page.ok i ≡ true)
      → IsCached page
      → IsCached (hash_node platform j page)
  unfolding hash_node
  hash_node-IsCached j {page} h above c = elim (Bool-cases (page.ok j)) [
    | inl e ↦ rw e c
    | inr e ↦ rw e (record {
      leaf = λ i p o. ground (arith, c.leaf i p);
      inner = λ i p l o. ground (arith, c.inner i p l, c.left i p l, c.right i p l);
      left = λ i p l o. ground (arith, c.left i p l, above (2 * i));
      right = λ i p l o. ground (arith, c.right i p l, above (2 * i + 1));
    })
  ]

  hash_node-Grows : (j : ℕ) (page : CachedPage) → Grows page (hash_node platform j page)
  unfolding hash_node
  hash_node-Grows j page = elim (Bool-cases (page.ok j)) [
    | inl e ↦ rw e (record { bytes = refl; keeps = λ i o. o })
    | inr e ↦ rw e (record { bytes = refl; keeps = λ i o. ground arith })
  ]

  hash_node-ok : (j : ℕ) (page : CachedPage) → (hash_node platform j page).ok j ≡ true
  unfolding hash_node
  hash_node-ok j page = ground arith

  Grows-trans : {p q r : CachedPage} → Grows p q → Grows q r → Grows p r
  Grows-trans a b = record { bytes = b.bytes ∙ a.bytes; keeps = λ j o. b.keeps j (a.keeps j o) }

  -- What a hashing loop leaves: a well-cached page with the same bytes, `ok` from `lo` on.
  record Hashed (lo : ℕ) (page page' : CachedPage) : Type 0 where
    grows : Grows page page'
    cached : IsCached page'
    all_ok : (j : ℕ) → lo ≤ j → j < 128 → page'.ok j ≡ true

  hash_leaves-Hashed :
      (n q : ℕ) {page : CachedPage}
      → q + n ≡ 64
      → IsCached page
      → ((j : ℕ) → 64 ≤ j → j < 64 + q → page.ok j ≡ true)
      → Hashed 64 page (hash_leaves platform n q page)
  unfolding hash_leaves
  hash_leaves-Hashed zero q e c before = record {
    grows = record { bytes = refl; keeps = λ j o. o };
    cached = c;
    all_ok = λ j p l. before j p (omega arith);
  }
  hash_leaves-Hashed (suc n) q {page} e c before =
      let step = hash_leaf-Grows q page in
      let rest =
        hash_leaves-Hashed n (q + 1) {page = hash_leaf platform q page} (omega arith)
          (hash_leaf-IsCached q (omega arith) c)
          (λ j p l. elim (Bool-cases (j == 64 + q)) [
            | inl same ↦ let e' : j ≡ 64 + q = ground arith in rw e' (hash_leaf-ok q page)
            | inr other ↦ step.keeps j (before j p (ground arith))
          ]) in
      record { grows = Grows-trans step rest.grows; cached = rest.cached; all_ok = rest.all_ok }

  hash_nodes-Hashed :
      (j : ℕ) {page : CachedPage}
      → j ≤ 64
      → IsCached page
      → ((i : ℕ) → j ≤ i → i < 128 → page.ok i ≡ true)
      → Hashed 0 page (hash_nodes platform j page)
  unfolding hash_nodes
  hash_nodes-Hashed zero h c above = record {
    grows = record { bytes = refl; keeps = λ i o. o };
    cached = c;
    all_ok = above;
  }
  hash_nodes-Hashed (suc j) {page} h c above =
      let step = hash_node-Grows j page in
      let rest =
        hash_nodes-Hashed j {page = hash_node platform j page} (omega arith)
          (hash_node-IsCached j (omega arith) (λ i p l. above i p l) c)
          (λ i p l. elim (Bool-cases (i == j)) [
            | inl same ↦ let e' : i ≡ j = ground arith in rw e' (hash_node-ok j page)
            | inr other ↦ step.keeps i (above i (ground arith) l)
          ]) in
      record { grows = Grows-trans step rest.grows; cached = rest.cached; all_ok = rest.all_ok }

  -- In a page whose nodes are all `ok`, the nodes at height `h` are those of the tree.
  nodes_are_tree :
      {page : CachedPage}
      → IsCached page
      → ((i : ℕ) → i < 128 → page.ok i ≡ true)
      → (h b q : ℕ) → b * 2 ^ h ≡ 64
      → q < b
      → page.cache (b + q) ≡ tree page.data_at h q
  unfolding tree
  nodes_are_tree c all zero b q e l =
      let e' : b ≡ 64 = omega arith in rw e' (c.leaf q (omega arith) (all (64 + q) (omega arith)))
  nodes_are_tree {page} c all (suc h) b q e l =
      c.inner (b + q) (omega arith) small (all (b + q) (omega (arith, small)))
      ∙ ap₂ (hash_pair platform)
          (ap page.cache (omega arith)
            ∙ nodes_are_tree c all h (2 * b) (2 * q) doubled (omega arith))
          (ap page.cache (omega arith)
            ∙ nodes_are_tree c all h (2 * b) (2 * q + 1) doubled (omega arith))
    where
      doubled : 2 * b * 2 ^ h ≡ 64
      doubled = omega (arith, e, ap (λ (t : ℕ). b * t) (pow-suc 2 h))

      small : b + q < 64
      small = grind (arith, pow-suc 2 h, one-le-pow h 2)

  -- In a page whose nodes marked `ok` hold the hashes of what lies below them, `merkle_root`
  -- returns the root of the hash tree over the page's 64-byte blocks, leaves the page's bytes as
  -- they are, and leaves it with its marked nodes right.
  pub merkle_root_lem :
      {page : CachedPage}
      → IsCached page
      → ((merkle_root platform page).0 ≡ tree page.data_at 6 0)
        × IsCached (merkle_root platform page).1
        × ((merkle_root platform page).1.data_at ≡ page.data_at)
  unfolding merkle_root
  merkle_root_lem {page} c =
      let leaves = hash_leaves-Hashed 64 0 {page = page} refl c (λ j p l. absurd (omega arith)) in
      let nodes = hash_nodes-Hashed 64 (omega arith) leaves.cached leaves.all_ok in
      let bytes = nodes.grows.bytes ∙ leaves.grows.bytes in
      (
        nodes_are_tree nodes.cached (λ i l. nodes.all_ok i (omega arith) l) 6 1 0 refl (omega arith)
            ∙ ap (λ f. tree f 6 0) bytes,
        nodes.cached,
        bytes,
      )
