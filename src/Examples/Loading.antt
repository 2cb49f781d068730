-- ===== src/Examples/Loading.antt =====
-- The theorems on loading, ranges of memory and the program's hash at concrete inputs.
use mips_emulator.Prelude.{
  ℕ, ◌+◌, ◌/◌, ◌<◌, ◌≡◌, inr, refl, arith, some, List, [], ◌∷◌, length, slice, done,
}
use mips_emulator.Examples.{platform, addiu, program}
use mips_emulator.Examples.Runs.{program-IsSound}
use mips_emulator.Platform.{Bytes}
use mips_emulator.Memory.{Memory, read_memory_range}
use mips_emulator.Memory.Io.{set_memory_range, read_to_end}
use mips_emulator.Memory.View.{view}
use mips_emulator.Memory.Sound.{IsSound}
use mips_emulator.Memory.Reads.{read_range_lem}
use mips_emulator.Memory.RoundTrip.{read-set_memory_range}
use mips_emulator.State.{State}
use mips_emulator.State
use mips_emulator.State.Sane.{IsSane, new-IsSane}
use mips_emulator.Witness.{Instruction}
use mips_emulator.Program.{Program, ProgramSegment}
use mips_emulator.Program.{load_instructions}
use mips_emulator.Program.Load.{with_instructions, load_instructions_lem}
use mips_emulator.Program.Cursor.{flat}
use mips_emulator.Program.Hash.{Hasher, compute_hash}
use mips_emulator.Program.Hash.Words.{words_of}
use mips_emulator.Program.Hash.Total.{compute_hash-zeros}
use mips_emulator.Program.Hash.Chain.{hash_chain, hashed, returned, compute_hash_lem}
use mips_emulator.Circuit.Field.{Field}
use mips_emulator.Circuit.OpcodeTable.{load_with_region, rows, load_with_region_lem}
use mips_emulator.Loader.{Segment, Symbol, ElfBytes, patch_go}
use mips_emulator.Loader.Image.{AllLoadable, skip, load, nil}
use mips_emulator.Loader.Patches.{patched, patch_go_lem}

buffers : (k : ℕ) → 0 < platform.buffer_size k
buffers k = omega arith

-- Three bytes across the end of a page.
abbrev three : Bytes
three = 1 ∷ 2 ∷ 3 ∷ []

read-set_memory_range_example :
    (m1 m2 : Memory) × (set_memory_range platform 4 4094 three program ≡ done m1)
    × (read_to_end platform 4 0 (read_memory_range 4094 3 m1) ≡ done (three, m2))
    × IsSound platform m2
read-set_memory_range_example =
    read-set_memory_range platform 4094 three {m = program} buffers (omega arith)
      (omega arith, (omega arith, (omega arith, tt))) program-IsSound

read_range_example :
    (m' : Memory) × (read_to_end platform 6 0 (read_memory_range 4094 5 program)
      ≡ done (slice (view program) 4094 5, m'))
    × ((b : ℕ) → view m' b ≡ view program b)
    × IsSound platform m'
read_range_example =
    read_range_lem platform 4094 5 {m = program} buffers (omega arith) program-IsSound

-- An ELF file of a segment that is skipped and one that is loaded, with a function to patch.
abbrev flags : Segment
flags = record { p_type = 0x7000_0003; p_vaddr = 0; p_filesz = 0; p_memsz = 0 }

abbrev text : Segment
text = record { p_type = 1; p_vaddr = 0x1000; p_filesz = 3; p_memsz = 8 }

abbrev init_symbol : Symbol
init_symbol = record { st_name = 1; st_value = 0x1000 }

abbrev elf_file : ElfBytes
elf_file = record {
  e_entry = 0x1000;
  segments = some (flags ∷ text ∷ []);
  segment_data = λ s. some three;
  symbols = some (init_symbol ∷ []);
  name_at = λ n. some "flag.init";
}

abbrev loadable : AllLoadable elf_file (flags ∷ text ∷ [])
loadable = skip flags refl (
    load text refl
      (record {
        bytes = three;
        found = refl;
        size = refl;
        all = (omega arith, (omega arith, (omega arith, tt)));
        grows = omega arith;
        fills = inr refl;
        ends = omega arith;
      })
      nil)

patch_go_example :
    (s' : State) × (patch_go platform elf_file State.new ≡ done s')
    × IsSane platform s'
    × ((b : ℕ) → view s'.memory b ≡ patched elf_file (init_symbol ∷ []) (view (State.new).memory) b)
    × (s' ≡ record State.new { memory = s'.memory })
patch_go_example =
    patch_go_lem platform elf_file State.new refl (omega arith, tt) (new-IsSane platform)

-- A program in one segment, and the same in two with a no-operation at its end.
abbrev word : ℕ → ℕ → Instruction
word addr bytecode = record { addr = addr; bytecode = bytecode }

abbrev table_of : List ProgramSegment → Program
table_of segments = record {
  cur_segment = 0;
  cur_instruction = 0;
  cur_bit = 0;
  segments = segments;
}

abbrev short : Program
short =
    table_of (record { start_addr = 0; segment_size = 4; instructions = word 0 addiu ∷ [] } ∷ [])

abbrev longer : Program
longer = table_of (
    record { start_addr = 64; segment_size = 4; instructions = word 64 addiu ∷ [] }
    ∷ record { start_addr = 128; segment_size = 4; instructions = word 128 0 ∷ [] }
    ∷ [])

abbrev hasher : Hasher ℕ
hasher = record { init = 1; to_le_bits = λ n. []; hash = λ bits. some (length bits) }

-- Natural numbers, whose addition has the laws that are asked for.
abbrev field : Field
field = record {
  F = ℕ;
  zero_f = 0;
  one_f = 1;
  add = ◌+◌;
  double = λ a. a + a;
  add_comm = λ a b. omega arith;
  add_assoc = λ a b c. omega arith;
  add_zero = λ a. omega arith;
  double_lem = λ a. refl;
}

load_with_region_example :
    load_with_region field 3 longer ≡ done (rows field 0 (flat longer.segments))
unfolding flat
load_with_region_example =
    load_with_region_lem field 3 longer (omega arith, (omega arith, tt))
      (omega arith, omega arith, (omega arith, omega arith, tt)) (omega arith)

compute_hash_example :
    compute_hash hasher 3 longer
    ≡ returned hasher (hash_chain hasher (length (hashed longer) / 60) 0 1 (hashed longer))
unfolding words_of flat
compute_hash_example =
    compute_hash_lem hasher 3 longer (omega arith, (omega arith, tt))
      (omega arith, (omega arith, tt)) (omega arith)

compute_hash-zeros_example : compute_hash hasher 3 longer ≡ compute_hash hasher 3 short
unfolding words_of flat
compute_hash-zeros_example =
    compute_hash-zeros hasher 3 1 short longer (omega arith, tt) (omega arith, (omega arith, tt))
      refl (omega arith) (omega arith)

-- The table of a program whose only segment is its first word.
abbrev unread : List ProgramSegment
unread = record { start_addr = 0; segment_size = 4; instructions = [] } ∷ []

load_instructions_example :
    (m' : Memory) × (load_instructions platform unread program
      ≡ done (with_instructions (view program) unread, m'))
    × ((b : ℕ) → view m' b ≡ view program b)
    × IsSound platform m'
load_instructions_example =
    load_instructions_lem platform unread {m = program} buffers (refl, omega arith, tt)
      program-IsSound
