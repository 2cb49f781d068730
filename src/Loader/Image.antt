-- ===== src/Loader/Image.antt =====
-- mips-emulator/src/state.rs: the machine that `load_elf` builds.
use mips_emulator.Prelude.{ℕ, ◌+◌, ◌-◌, ◌^◌, ◌≤◌, ◌<◌, ◌≡◌}
use mips_emulator.Prelude.{false, ◌⊎◌, some, List, [], ◌∷◌, ◌++◌, length, replicate}
use mips_emulator.Prelude.{◌==◌, ◌!=◌, if◌then◌else◌}
use mips_emulator.Platform.{Platform, Bytes}
use mips_emulator.Memory
use mips_emulator.Memory.{Memory}
use mips_emulator.Memory.Range.{bytes_written}
use mips_emulator.Memory.Loads.{AllBytes}
use mips_emulator.State
use mips_emulator.State.{State}
use mips_emulator.Program
use mips_emulator.Program.{Program, ProgramSegment}
use mips_emulator.Loader.{Segment, ElfBytes, pt_load}

-- What the segment holds in memory.
unfoldable pub contents : Segment → Bytes → Bytes
contents s r = r ++ replicate (s.p_memsz - s.p_filesz) 0

-- A segment of a 32-bit ELF file that can be loaded: its data is there, it is filled with zeros only
-- where it is a load segment, and it ends below 2^32.
pub record Loadable (f : ElfBytes) (s : Segment) : Type 0 where
  pub bytes : Bytes
  pub found : f.segment_data s ≡ some bytes
  pub size : length bytes ≡ s.p_filesz
  pub all : AllBytes bytes
  pub grows : s.p_filesz ≤ s.p_memsz
  pub fills : (s.p_filesz ≡ s.p_memsz) ⊎ (s.p_type ≡ pt_load)
  pub ends : s.p_vaddr + s.p_memsz < 2 ^ 32

-- Every segment but those of type 0x70000003 can be loaded.
pub data AllLoadable (f : ElfBytes) : List Segment → Type 0 where
  nil : AllLoadable f []
  skip :
      (s : Segment) {ss : List Segment}
      → s.p_type ≡ 0x7000_0003
      → AllLoadable f ss
      → AllLoadable f (s ∷ ss)
  load :
      (s : Segment) {ss : List Segment}
      → (s.p_type == 0x7000_0003) ≡ false
      → Loadable f s
      → AllLoadable f ss
      → AllLoadable f (s ∷ ss)

-- The bytes of memory after the segments, the later over the earlier.
unfoldable pub image : {f : ElfBytes} {ss : List Segment} → AllLoadable f ss → (ℕ → ℕ) → ℕ → ℕ
image nil before = before
image (skip s e all) before = image all before
image (load s e l all) before = image all (bytes_written s.p_vaddr (contents s l.bytes) before)

-- The entries of the program table.
unfoldable pub table : {f : ElfBytes} {ss : List Segment} → AllLoadable f ss → List ProgramSegment
table nil = []
table (skip s e all) = table all
table (load s e l all) =
    (if s.p_memsz != 0
      then record { start_addr = s.p_vaddr; segment_size = s.p_memsz; instructions = [] } ∷ []
      else [])
    ++ table all
