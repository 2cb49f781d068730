-- ===== src/Stack.antt =====
-- mips-emulator/src/state.rs: `patch_stack`, which sets up the stack of a loaded program. The
-- sixteen random bytes are an argument.
pub mod Image
use mips_emulator.Prelude.{ℕ, ◌+◌, ◌-◌, ◌*◌, replicate, length, update}
use mips_emulator.Prelude.{Outcome, done, ◌>>=◌}
use mips_emulator.Platform.{Platform, Bytes}
use mips_emulator.Word.{to_be_bytes}
use mips_emulator.Page.{page_size}
use mips_emulator.Memory.{Memory}
use mips_emulator.Memory.Io.{set_memory_range}
use mips_emulator.State.{State}

abbrev pub sp : ℕ
sp = 0x7fff_d000

module _ (platform : Platform) where
  -- `set_memory_range` of a slice: one round more than it has bytes is enough.
  unfoldable pub store_bytes : ℕ → Bytes → Memory → Outcome Memory
  store_bytes addr r memory = set_memory_range platform (length r + 1) addr r memory

  unfoldable pub store_mem : ℕ → ℕ → Memory → Outcome Memory
  store_mem addr v memory = store_bytes addr (to_be_bytes 4 v) memory

  unfoldable pub patch_stack : Bytes → State → Outcome State
  patch_stack random s = do
    m0 ← store_bytes (sp - 4 * page_size) (replicate (5 * page_size) 0) s.memory
    m1 ← store_mem (sp + 4 * 1) 0x42 m0
    m2 ← store_mem (sp + 4 * 2) 0x35 m1
    m3 ← store_mem (sp + 4 * 3) 0x00 m2
    m4 ← store_mem (sp + 4 * 4) 0x06 m3
    m5 ← store_mem (sp + 4 * 5) 0x1000 m4
    m6 ← store_mem (sp + 4 * 6) 0x1a m5
    m7 ← store_mem (sp + 4 * 7) (sp + 4 * 9) m6
    m8 ← store_mem (sp + 4 * 8) 0 m7
    m9 ← store_bytes (sp + 4 * 9) random m8
    done (record s { memory = m9; registers = update s.registers 29 sp })
