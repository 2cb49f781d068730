-- ===== src/Page/Write.antt =====
-- A write into a page keeps the tree right when `invalidate` or `invalidate_full` goes with it.
use mips_emulator.Prelude.{refl, ℕ, ◌+◌, ◌*◌, ◌/◌, ◌%◌, ◌<◌, ◌≡◌, refl, arith}
use mips_emulator.Prelude.{true, false, ◌≢◌, ◌∙◌, ap, sym}
use mips_emulator.Prelude.{length}
use mips_emulator.Prelude.{done}
use mips_emulator.Prelude.{write_slice_outside, write_slice, slice_ext}
use mips_emulator.Platform.{Platform, Bytes}
use mips_emulator.Page.{CachedPage, invalidate, new}
use mips_emulator.Page.Path.{invalidate_lem, cleared, on_path_parent, on_path_self}
use mips_emulator.Page.Tree.{IsCached, leaf_hash}

module _ (platform : Platform) where
  -- A page with no valid node is right whatever its bytes are.
  pub unmarked-IsCached :
      (page : CachedPage) → ((j : ℕ) → page.ok j ≡ false) → IsCached platform page
  unmarked-IsCached page none_ok = record {
    leaf = λ q p o. cc (none_ok (64 + q));
    inner = λ j p l o. cc (none_ok j);
    left = λ j p l o. cc (none_ok j);
    right = λ j p l o. cc (none_ok j);
  }

  pub new-IsCached : IsCached platform new
  unfolding new
  new-IsCached = unmarked-IsCached new (λ j. refl)

  -- The four bytes of a word at an aligned address, with the way above them cleared.
  pub write-IsCached :
      (page : CachedPage) (a : ℕ) (word : Bytes)
      → a < 4096
      → a % 4 ≡ 0
      → length word ≡ 4
      → IsCached platform page
      → IsCached platform (record page {
        data_at = write_slice page.data_at a word;
        ok = cleared 7 (64 + a / 64) page.ok;
      })
  write-IsCached page a word small aligned len c = record {
    leaf = λ q p o. leaf_kept q p o;
    inner = λ j p l o. ground (arith, c.inner j p l);
    left = λ j p l o. ground (arith, c.left j p l, on_path_parent 7 (64 + a / 64) j (2 * j));
    right = λ j p l o. ground (arith, c.right j p l, on_path_parent 7 (64 + a / 64) j (2 * j + 1));
  }
    where
      other_block : (q : ℕ) → cleared 7 (64 + a / 64) page.ok (64 + q) ≡ true → a / 64 ≢ q
      other_block q o e = ground (arith, on_path_self 7 (64 + a / 64) (omega arith) (omega arith))

      kept :
          (q : ℕ)
          → a / 64 ≢ q
          → leaf_hash platform page.data_at q
            ≡ leaf_hash platform (write_slice page.data_at a word) q
      kept q ne = ap platform.sha3_256 (
          slice_ext page.data_at (write_slice page.data_at a word) (64 * q) 64
            (λ j lo hi. sym (write_slice_outside page.data_at a word j (omega arith))))

      leaf_kept :
          (q : ℕ)
          → q < 64
          → cleared 7 (64 + a / 64) page.ok (64 + q) ≡ true
          → page.cache (64 + q) ≡ leaf_hash platform (write_slice page.data_at a word) q
      leaf_kept q p o = c.leaf q p (ground arith) ∙ kept q (other_block q o)

  -- In a page whose nodes marked `ok` hold the hashes of what lies below them, `invalidate` at an
  -- aligned byte of the page succeeds, and once four bytes are written there every node still
  -- marked `ok` holds the hash of what lies below it in the new bytes.
  pub invalidate-IsCached :
      (page : CachedPage) (a : ℕ) (word : Bytes)
      → a < 4096
      → a % 4 ≡ 0
      → length word ≡ 4
      → IsCached platform page
      → (page' : CachedPage) × (invalidate a page ≡ done page')
        × IsCached platform (record page' { data_at = write_slice page'.data_at a word })
  invalidate-IsCached page a word small aligned len c = (
    record page { ok = cleared 7 (64 + a / 64) page.ok },
    invalidate_lem a page small,
    write-IsCached page a word small aligned len c,
  )
