-- ===== src/Loader.antt =====
-- mips-emulator/src/state.rs: `load_elf`, which builds the machine and the program table from an ELF
-- file, and `patch_go`. The `elf` crate's parsed file is a parameter.
pub mod Image
pub mod Patches
pub mod Boot
use mips_emulator.Prelude.{ℕ, ◌+◌, ◌-◌, ◌%◌, ◌^◌, Bool, true, false, ◌||◌, Option, none, some}
use mips_emulator.Prelude.{
  List, [], ◌∷◌, ◌++◌, length, replicate, ◌==◌, ◌!=◌, ltb, leb, if◌then◌else◌,
}
use mips_emulator.Prelude.{Outcome, done, panic, ◌>>=◌}
use Prim.Native.Nat.{Ordering}
use Prim.Native.String.{String, compare as compare_String}
use mips_emulator.Platform.{Platform, Bytes}
use mips_emulator.Word.{add32, add64}
use mips_emulator.Memory
use mips_emulator.Memory.{Memory}
use mips_emulator.State
use mips_emulator.State.{State}
use mips_emulator.Stack.{store_bytes}
use mips_emulator.Program
use mips_emulator.Program.{Program, ProgramSegment}

-- What is used of a program header, and of a symbol.
pub record Segment : Type 0 where
  pub p_type : ℕ
  pub p_vaddr : ℕ
  pub p_filesz : ℕ
  pub p_memsz : ℕ

pub record Symbol : Type 0 where
  pub st_name : ℕ
  pub st_value : ℕ

-- `ElfBytes`: what its methods return, `none` where that is an error, or no symbol table.
pub record ElfBytes : Type 0 where
  pub e_entry : ℕ
  pub segments : Option (List Segment)
  pub segment_data : Segment → Option Bytes
  pub symbols : Option (List Symbol)
  pub name_at : ℕ → Option String

abbrev pub pt_load : ℕ
pt_load = 1

abbrev pub expect {ℓ} : {A : Type ℓ} → Option A → Outcome A
expect none = panic
expect (some a) = done a

-- The data of a segment, filled with zeros up to its size in memory.
unfoldable pub filled : Segment → Bytes → Outcome Bytes
filled segment r =
    if segment.p_filesz != segment.p_memsz
    then (if segment.p_type == pt_load
        then (if ltb segment.p_filesz segment.p_memsz
            then done (r ++ replicate (segment.p_memsz - segment.p_filesz) 0)
            else panic)
        else panic)
    else done r

abbrev pub same_name : String → String → Bool
same_name a b = elim (compare_String a b) [ Ordering.eq ↦ true | _ ↦ false ]

-- The functions that return at once.
unfoldable pub is_patched : String → Bool
is_patched name =
    same_name name "runtime.gcenable"
    || same_name name "runtime.init.5"
    || same_name name "runtime.main.func1"
    || same_name name "runtime.deductSweepCredit"
    || same_name name "runtime.(*gcControllerState).commit"
    || same_name name "github.com/prometheus/client_golang/prometheus.init"
    || same_name name "github.com/prometheus/client_golang/prometheus.init.0"
    || same_name name "github.com/prometheus/procfs.init"
    || same_name name "github.com/prometheus/common/model.init"
    || same_name name "github.com/prometheus/client_model/go.init"
    || same_name name "github.com/prometheus/client_model/go.init.0"
    || same_name name "github.com/prometheus/client_model/go.init.1"
    || same_name name "flag.init"
    || same_name name "runtime.check"

-- What is written at a symbol: `jr ra; nop` at a function, 0 at the profile rate.
unfoldable pub patch_of : String → Bytes
patch_of name =
    if is_patched name
    then 0x03 ∷ 0xe0 ∷ 0x00 ∷ 0x08 ∷ 0 ∷ 0 ∷ 0 ∷ 0 ∷ []
    else if same_name name "runtime.MemProfileRate"
    then 0 ∷ 0 ∷ 0 ∷ 0 ∷ []
    else []

module _ (platform : Platform) where
  -- One round of `for segment in segments`.
  unfoldable pub load_segment : ElfBytes → Segment → Memory → Outcome (List ProgramSegment × Memory)
  load_segment f segment memory = if segment.p_type == 0x7000_0003 then done ([], memory) else (do
    data_read ← expect (f.segment_data segment)
    r ← filled segment data_read
    end ← add64 platform segment.p_vaddr segment.p_memsz
    if leb (2 ^ 32) end then panic else (do
      memory1 ← store_bytes platform (segment.p_vaddr % 2 ^ 32) r memory
      done (
        if length r != 0
            then record {
              start_addr = segment.p_vaddr % 2 ^ 32;
              segment_size = length r % 2 ^ 32;
              instructions = [];
            }
              ∷ []
            else [],
        memory1,
      )))

  unfoldable pub load_segments :
      ElfBytes → List Segment → Memory → Outcome (List ProgramSegment × Memory)
  load_segments f [] memory = done ([], memory)
  load_segments f (segment ∷ segments) memory = do
    (first, memory1) ← load_segment f segment memory
    (rest, memory2) ← load_segments f segments memory1
    done (first ++ rest, memory2)

  unfoldable pub load_elf : ElfBytes → Outcome (State × Program)
  load_elf f = do
    next_pc ← add32 platform (f.e_entry % 2 ^ 32) 4
    segments ← expect f.segments
    (loaded, memory) ← load_segments f segments Memory.new
    done (
      record State.new {
        memory = memory;
        pc = f.e_entry % 2 ^ 32;
        next_pc = next_pc;
        heap = 0x2000_0000;
      },
      record Program.new { segments = loaded },
    )

  -- `match symbols.1.get(..)`; where the name is not found there is only a warning.
  unfoldable pub patch_named : Option String → ℕ → Memory → Outcome Memory
  patch_named none st_value memory = done memory
  patch_named (some name) st_value memory =
      if is_patched name || same_name name "runtime.MemProfileRate"
      then store_bytes platform (st_value % 2 ^ 32) (patch_of name) memory
      else done memory

  -- One round of `for symbol in symbols.0`.
  abbrev pub patch_symbol : ElfBytes → Symbol → Memory → Outcome Memory
  patch_symbol f symbol memory = patch_named (f.name_at symbol.st_name) symbol.st_value memory

  unfoldable pub patch_symbols : ElfBytes → List Symbol → Memory → Outcome Memory
  patch_symbols f [] memory = done memory
  patch_symbols f (symbol ∷ symbols) memory = do
    memory1 ← patch_symbol f symbol memory
    patch_symbols f symbols memory1

  unfoldable pub patch_go : ElfBytes → State → Outcome State
  patch_go f s = do
    symbols ← expect f.symbols
    memory ← patch_symbols f symbols s.memory
    done (record s { memory = memory })
