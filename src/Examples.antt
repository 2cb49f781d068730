-- ===== src/Examples.antt =====
-- The theorems at concrete inputs.
mod Runs
mod Instructions
mod Circuits
mod Polys
mod Evaluations
mod Builder
mod Loading
use mips_emulator.Prelude.{ℕ, ◌+◌, ◌-◌, ◌%◌, ◌^◌, ◌≤◌, ◌<◌, ◌≡◌, refl, arith, []}
use mips_emulator.Prelude.{true, false, ◌⊎◌, sym, ap}
use mathlib.Core.Path.{subst}
use mips_emulator.Prelude.{none, ◌∷◌, take}
use mips_emulator.Prelude.{ltb, leb, if◌then◌else◌, update, write_slice}
use mips_emulator.Prelude.{Outcome, done, panic, out_of_fuel}
use mips_emulator.Platform.{Platform}
use mips_emulator.Word
use mips_emulator.Word.{as_i32}
use mips_emulator.Prelude.HashMap
use mips_emulator.Control
use mips_emulator.Alu
use mips_emulator.Page
use mips_emulator.Page.{CachedPage}
use mips_emulator.Page.Tree.{IsCached, tree, merkle_root_lem}
use mips_emulator.Page.Write.{new-IsCached, invalidate-IsCached}
use mips_emulator.Memory
use mips_emulator.Memory.{Memory, get_memory, set_memory}
use mips_emulator.Memory.View.{view, view_word}
use mips_emulator.Memory.Writes.{word_written}
use mips_emulator.Memory.Merkle.{merkle_root, merkle_proof}
use mips_emulator.Memory.Merkle.Proofs.{concat, zero_branch}
use mips_emulator.Memory.Valid.{IsValid, new-IsValid, set_memory-IsValid}
use mips_emulator.Memory.Valid.{get_memory-set_memory, merkle_root-set_memory, merkle_proof-IsValid}
use mips_emulator.State
use mips_emulator.State.{State, InstrumentedState, instrumented}
use mips_emulator.Alu.{
  execute_special, execute_special2, execute_load, execute_store, sign_extension,
}
use mips_emulator.Alu.SignExtension.{sign_extension_lem}
use mips_emulator.Alu.Shifts.{shift_right_ℤ, sra_lem, sra_by_zero}
use mips_emulator.Alu.Counts.{clz_lem}
use mips_emulator.Alu.Words.{byte}
use mips_emulator.Alu.Partial.{from_bytes, swl_lem, swr_lem, lwl_lem, lwr_lem}
use mips_emulator.Syscall
use mips_emulator.Step
use mips_emulator.Syscall.Hints.{stated_len, buffered_len, handed_over, process_hints_lem}
use mips_emulator.Syscall.Mmap.{grown, mmap_lem}
use mips_emulator.Control.Products.{mult-multu}
use mips_emulator.Prelude.{◌*◌, length, out_of_fuel, [], ◌∷◌}
use mips_emulator.Step.Effect.{StepEffect, mips_step-Effect}

-- A platform whose hash keeps the first bytes.
abbrev platform : Platform
platform = record {
  overflow_checks = true;
  sha3_256 = λ bytes. take 32 bytes;
  get_preimage = λ hints key. key;
  buffer_size = λ n. 8192;
}

-- addiu $v0, $zero, 5
abbrev addiu : ℕ
addiu = 0x2402_0005

get_memory-set_memory_example :
    (m1 m2 m3 : Memory) × (set_memory 8 addiu Memory.new ≡ done m1)
    × (get_memory 8 m1 ≡ done (addiu, m2))
    × (get_memory 8 Memory.new ≡ done (view_word Memory.new 8, m3))
get_memory-set_memory_example =
    get_memory-set_memory platform 8 8 addiu {m = Memory.new} (omega arith) (omega arith) refl refl
      (new-IsValid platform)

set_memory-IsValid_example :
    (m' : Memory) × (set_memory 0 addiu Memory.new ≡ done m')
    × ((b : ℕ) → view m' b ≡ word_written 0 addiu (view Memory.new) b)
    × IsValid platform m'
set_memory-IsValid_example =
    set_memory-IsValid platform 0 addiu {m = Memory.new} (omega arith) refl (new-IsValid platform)

-- The value of a call, where it is one.
abbrev value_or : {A : Type 0} → A → Outcome A → A
value_or a (done b) = b
value_or a panic = a
value_or a out_of_fuel = a

-- A memory that holds the instruction at 0.
abbrev program : Memory
program = value_or Memory.new (set_memory 0 addiu Memory.new)

program-IsValid : IsValid platform program
program-IsValid =
    let (m, run, bytes, ok) =
      set_memory-IsValid platform 0 addiu {m = Memory.new} (omega arith) refl
        (new-IsValid platform) in
    subst (λ x. IsValid platform x) (sym (ap (value_or Memory.new) run)) ok

merkle_root-set_memory_example :
    (m1 m2 m3 : Memory) × (set_memory 4096 7 program ≡ done m1)
    × (merkle_root platform program ≡ done (Page.zero_hash platform 28, m2))
    × (merkle_root platform m1 ≡ done (Page.zero_hash platform 28, m3))
merkle_root-set_memory_example =
    merkle_root-set_memory platform 4096 7 {m = program} (omega arith) refl program-IsValid

merkle_proof-IsValid_example :
    (m' : Memory) × (merkle_proof platform 0 program ≡ done (concat (zero_branch platform 27), m'))
    × ((b : ℕ) → view m' b ≡ view program b)
    × IsValid platform m'
merkle_proof-IsValid_example = merkle_proof-IsValid platform 0 {m = program} program-IsValid

merkle_root_example :
    ((Page.merkle_root platform Page.new).0 ≡ tree platform (Page.new.data_at) 6 0)
    × IsCached platform (Page.merkle_root platform Page.new).1
    × ((Page.merkle_root platform Page.new).1.data_at ≡ Page.new.data_at)
merkle_root_example = merkle_root_lem platform {page = Page.new} (new-IsCached platform)

invalidate-IsCached_example :
    (page' : CachedPage) × (Page.invalidate 0x104 Page.new ≡ done page')
    × IsCached platform
        (record page' { data_at = write_slice page'.data_at 0x104 (1 ∷ 2 ∷ 3 ∷ 4 ∷ []) })
invalidate-IsCached_example =
    invalidate-IsCached platform Page.new 0x104 (1 ∷ 2 ∷ 3 ∷ 4 ∷ []) (omega arith) refl refl
      (new-IsCached platform)

sign_extension_example : sign_extension platform 0xfffe 16 ≡ done 0xffff_fffe
sign_extension_example =
    sign_extension_lem platform 0xfffe 16 (omega arith) (omega arith) (omega arith)

-- -8 shifted by 1 is -4.
sra_example :
    (r : ℕ) × (execute_special platform 3 1 0 0xffff_fff8 ≡ done r)
    × (as_i32 r ≡ shift_right_ℤ (as_i32 0xffff_fff8) 1)
sra_example = sra_lem platform 0 0xffff_fff8 1 (omega arith) (omega arith) (omega arith)

sra_by_zero_example : execute_special platform 3 0 0 5 ≡ panic
sra_by_zero_example = sra_by_zero platform 0 5

clz_example :
    (r : ℕ) × (execute_special2 platform 0x20 0x00ff_0000 0 ≡ done r)
    × (r ≤ 32)
    × (0x00ff_0000 < 2 ^ (32 - r))
    × (r < 32 → 2 ^ (31 - r) ≤ 0x00ff_0000)
clz_example = clz_lem platform 0x00ff_0000 0 (omega arith)

swl_example :
    execute_store 0x2a 5 0x1234_5678 0xaabb_ccdd
    ≡ done (
        from_bytes
          (λ k. if ltb k (5 % 4) then byte 0xaabb_ccdd k else byte 0x1234_5678 (k - 5 % 4)))
swl_example = swl_lem 5 0x1234_5678 0xaabb_ccdd (omega arith) (omega arith)

swr_example :
    execute_store 0x2e 5 0x1234_5678 0xaabb_ccdd
    ≡ done (
        from_bytes
          (λ k. if leb k (5 % 4) then byte 0x1234_5678 (k + 3 - 5 % 4) else byte 0xaabb_ccdd k))
swr_example = swr_lem 5 0x1234_5678 0xaabb_ccdd (omega arith) (omega arith)

lwl_example :
    execute_load (sign_extension platform) 0x22 5 0x1234_5678 0xaabb_ccdd
    ≡ done (
        from_bytes
          (λ k. if ltb (k + 5 % 4) 4 then byte 0xaabb_ccdd (k + 5 % 4) else byte 0x1234_5678 k))
lwl_example =
    lwl_lem (sign_extension platform) 5 0x1234_5678 0xaabb_ccdd (omega arith) (omega arith)

lwr_example :
    execute_load (sign_extension platform) 0x26 5 0x1234_5678 0xaabb_ccdd
    ≡ done (
        from_bytes (λ k.
          if leb (3 - 5 % 4) k then byte 0xaabb_ccdd (k - (3 - 5 % 4)) else byte 0x1234_5678 k))
lwr_example =
    lwr_lem (sign_extension platform) 5 0x1234_5678 0xaabb_ccdd (omega arith) (omega arith)

-- The registers at a call of mmap for 5,000 bytes.
abbrev at_mmap : InstrumentedState
at_mmap = instrumented (record State.new { registers = update (λ _. 0) 5 5000; heap = 0x2000_0000 })

-- The program before and after its first step.
abbrev at_start : InstrumentedState
at_start = instrumented (record State.new { memory = program })

abbrev stepped : Step.StepResult
stepped =
    value_or (record { row = none; access = none; is = at_start })
      (Step.mips_step platform 0 at_start)

mips_step_example :
    ((at_start.state.exited ≡ true) × (stepped.is ≡ at_start) × (stepped.row ≡ none))
    ⊎ ((at_start.state.exited ≡ false) × StepEffect platform at_start stepped.is)
unfolding State.new instrumented Memory.new Page.new get_memory set_memory Memory.page_lookup
    Memory.page_for_write Memory.alloc_page Memory.invalidate Memory.invalidate_at
    Memory.invalidate_above Memory.invalidate_nodes Memory.write_word Memory.read_word HashMap.get
    HashMap.insert Page.invalidate Page.clear_path Word.add32 Word.add64 Word.from_be_bytes
    Word.to_be_bytes Word.shl32 Word.shr32 Word.sub32 Step.mips_step Step.fetched_step
    Step.fetched_row Step.decoded_step Step.is_branch Step.fetch_rt Step.alu_step Step.write_back
    Step.store_value Control.handle_rd Control.advance Alu.execute Alu.execute_low
    Alu.execute_special Alu.execute_arith Alu.arith_fun sign_extension
mips_step_example = mips_step-Effect platform 0 at_start {r = stepped} refl

-- A buffer that holds one hint of 1 byte and the start of another.
abbrev two_hints : InstrumentedState
two_hints = instrumented (record State.new { last_hint = 0 ∷ 0 ∷ 0 ∷ 1 ∷ 7 ∷ 8 ∷ [] })

process_hints_example : Syscall.process_hints platform 12 two_hints ≡ (
    if leb (length two_hints.state.last_hint) 4
    then done two_hints
    else if ltb (stated_len two_hints) (buffered_len two_hints)
    then out_of_fuel
    else if ltb (buffered_len two_hints) (stated_len two_hints)
    then panic
    else done (handed_over two_hints))
process_hints_example = process_hints_lem platform 10 two_hints

mmap_example :
    (size : ℕ) × (Syscall.mmap platform 0 5000 at_mmap
      ≡ done (record { is = grown platform size at_mmap; v0 = at_mmap.state.heap; v1 = 0 }))
    × (size % 4096 ≡ 0)
    × (5000 ≤ size)
    × (size < 5000 + 4096)
unfolding State.new instrumented
mmap_example = mmap_lem platform 5000 at_mmap (omega arith)

-- -1 times -1.
mult_example : Control.hilo platform 0x18 0xffff_ffff 0xffff_ffff State.new ≡ (
    if ltb (0xffff_ffff * 0xffff_ffff) (2 ^ 63)
    then Control.hilo platform 0x19 0xffff_ffff 0xffff_ffff State.new
    else if platform.overflow_checks
    then panic
    else Control.hilo platform 0x19 0xffff_ffff 0xffff_ffff State.new)
mult_example = mult-multu platform 0xffff_ffff 0xffff_ffff State.new (omega arith) (omega arith)
