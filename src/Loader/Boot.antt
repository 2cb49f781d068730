-- ===== src/Loader/Boot.antt =====
-- mips-emulator/src/state.rs: `load_elf`, `patch_go` and `patch_stack`, one after another.
use mips_emulator.Platform.{Platform}
use mips_emulator.State.{State}
use mips_emulator.Program.{Program}
