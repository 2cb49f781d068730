-- ===== src/Step.antt =====
-- mips-emulator/src/state.rs: `mips_step`, which executes one instruction, and `step`, which wraps
-- it with the witness. `mips_step` is one function in the source; here each part of it that ends
-- in an early return is one of its own, called in the source's order.
mod Quiet
pub mod Effect
pub mod Sane
pub mod Run
pub mod Reach
pub mod Accesses
pub mod Instruction
use mips_emulator.Prelude.{ℕ, ◌+◌, ◌/◌, ◌%◌, ◌^◌, []}
use mips_emulator.Prelude.{Bool, true, ◌&&◌, ◌||◌}
use mips_emulator.Prelude.{Option, none, some, ◌++◌}
use mips_emulator.Prelude.{◌==◌, ◌!=◌, ltb, leb, if◌then◌else◌}
use mips_emulator.Prelude.{bit_and}
use mips_emulator.Prelude.{Outcome, done, ◌>>=◌, ◌>>◌}
use mips_emulator.Platform.{Platform}
use mips_emulator.Word.{max_u32, shl, add64}
use mips_emulator.Memory.{get_memory, set_memory}
use mips_emulator.Memory.Merkle.{merkle_proof}
use mips_emulator.Witness.{ExecutionRow, MemoryAccess, MemoryOperation, read, write}
use mips_emulator.Witness.{StepWitness}
use mips_emulator.State.{State, InstrumentedState, encode_witness}
use mips_emulator.Alu.{sign_extension, execute}
use mips_emulator.Control.{handle_branch, handle_jump, handle_hilo, handle_rd, set_register}
use mips_emulator.Syscall.{track_memory_access, handle_syscall, set_memory_of}
use mips_emulator.Page.{zero_digest}

-- What `mips_step` returns, with the emulator after it.
pub record StepResult : Type 0 where
  pub row : Option ExecutionRow
  pub access : Option MemoryAccess
  pub is : InstrumentedState

abbrev pub with_state : State → InstrumentedState → InstrumentedState
with_state s is = record is { state = s }

-- The row at the fetch; `pc` and `next_pc` are set at the end.
unfoldable pub fetched_row : ℕ → State → ExecutionRow
fetched_row insn s = record {
  instruction = record { addr = s.pc; bytecode = insn };
  step = s.step;
  registers = s.registers;
  pc = 0;
  next_pc = 0;
  heap = s.heap;
  exited = s.exited;
  hi = s.hi;
  lo = s.lo;
}

abbrev pub row_pcs : State → ExecutionRow → ExecutionRow
row_pcs s row = record row { pc = s.pc; next_pc = s.next_pc }

abbrev pub row_registers : State → ExecutionRow → ExecutionRow
row_registers s row = record (row_pcs s row) { registers = s.registers }

-- The operands of an instruction and what its memory fetch found. `store_addr` is `0xffffffff`
-- where nothing is stored.
pub record Operands : Type 0 where
  pub rs : ℕ
  pub rt : ℕ
  pub rd_reg : ℕ
  pub mem : ℕ
  pub store_addr : ℕ
  pub access : Option MemoryAccess

unfoldable pub is_branch : ℕ → Bool
is_branch opcode = (leb 4 opcode && ltb opcode 8) || opcode == 1

module _ (platform : Platform) where
  unfoldable pub fetch_rt : ℕ → ℕ → ℕ → State → Outcome ℕ
  fetch_rt opcode insn rt_reg s =
      if opcode == 0 || opcode == 0x1c
      then done (s.registers rt_reg)
      else if ltb opcode 0x20
      then (if opcode == 0xc || opcode == 0xd || opcode == 0xe
          then done (bit_and insn 0xffff)
          else sign_extension platform (bit_and insn 0xffff) 16)
      else if leb 0x28 opcode || opcode == 0x22 || opcode == 0x26
      then done (s.registers rt_reg)
      else done 0

  -- The memory fetch of the opcodes from 0x20 on, which stores do too.
  unfoldable pub fetch_memory :
      ℕ → ℕ → Operands → InstrumentedState → Outcome (Operands × InstrumentedState)
  fetch_memory opcode insn operands is = do
    offset ← sign_extension platform (bit_and insn 0xffff) 16
    let rs = (operands.rs + offset) % 2 ^ 32
    let addr = bit_and rs 0xffff_fffc
    is1 ← track_memory_access platform addr is
    (mem, memory) ← get_memory addr is1.state.memory
    let stores = leb 0x28 opcode && opcode != 0x30
    let access : MemoryAccess = record {
      rw_counter = is1.state.step;
      addr = addr;
      op = MemoryOperation.read;
      value = mem;
      value_prev = mem;
    }
    done (
      record operands {
        rs = rs;
        mem = mem;
        store_addr = if stores then addr else operands.store_addr;
        rd_reg = if stores then 0 else operands.rd_reg;
        access = some access;
      },
      set_memory_of memory is1,
    )

  -- The instructions of opcode 0 with a function code from 8 to 0x1b; `none` falls through.
  unfoldable pub special_control :
      ℕ → ℕ → ExecutionRow → Operands → InstrumentedState → Option (Outcome StepResult)
  special_control hint_fuel fun row operands is =
      if fun == 8 || fun == 9
      then some (do
        s ← handle_jump platform (if fun == 9 then operands.rd_reg else 0) operands.rs is.state
        done
            (record { row = some (row_pcs s row); access = operands.access; is = with_state s is }))
      else if fun == 0xa
      then some (do
        s ← handle_rd platform operands.rd_reg operands.rs (operands.rt == 0) is.state
        done (record {
          row = some (row_registers s row);
          access = operands.access;
          is = with_state s is;
        }))
      else if fun == 0xb
      then some (do
        s ← handle_rd platform operands.rd_reg operands.rs (operands.rt != 0) is.state
        done (record {
          row = some (row_registers s row);
          access = operands.access;
          is = with_state s is;
        }))
      else if fun == 0xc
      then some (do
        is' ← handle_syscall platform hint_fuel is
        let s = is'.state
        done (record {
          row = some (record (row_registers s row) { heap = s.heap; exited = s.exited });
          access = operands.access;
          is = is';
        }))
      else if leb 0x10 fun && ltb fun 0x1c
      then some (do
        s ← handle_hilo platform fun operands.rs operands.rt operands.rd_reg is.state
        done (record {
          row = some (record (row_registers s row) { hi = s.hi; lo = s.lo });
          access = operands.access;
          is = with_state s is;
        }))
      else none

  -- `write memory`, where there is an address to store to.
  unfoldable pub store_value :
      ℕ → Operands → InstrumentedState → Outcome (Option MemoryAccess × InstrumentedState)
  store_value val operands is =
      if operands.store_addr != max_u32
      then (do
        (value_prev, memory) ← get_memory operands.store_addr is.state.memory
        is1 ← track_memory_access platform operands.store_addr (set_memory_of memory is)
        memory' ← set_memory operands.store_addr val is1.state.memory
        let access : MemoryAccess = record {
          rw_counter = is1.state.step;
          addr = operands.store_addr;
          op = MemoryOperation.write;
          value = val;
          value_prev = value_prev;
        }
        done (some access, set_memory_of memory' is1))
      else done (operands.access, is)

  -- From the sc hack to the write-back.
  unfoldable pub write_back :
      ℕ → ℕ → ℕ → ExecutionRow → Operands → InstrumentedState → Outcome StepResult
  write_back opcode rt_reg val row operands is = do
    let sc = opcode == 0x38 && rt_reg != 0
    let is1 = if sc then with_state (set_register rt_reg 1 is.state) is else is
    (access, is2) ← store_value val operands is1
    s ← handle_rd platform operands.rd_reg val true is2.state
    done (record { row = some (row_registers s row); access = access; is = with_state s is2 })

  -- The arithmetic and what follows it.
  unfoldable pub alu_step : ℕ → ℕ → ExecutionRow → Operands → InstrumentedState → Outcome StepResult
  alu_step hint_fuel insn row operands is = do
    let opcode = insn / 2 ^ 26
    let fun = bit_and insn 0x3f
    let control = opcode == 0 && (leb 8 fun && ltb fun 0x1c)
    val ← execute platform insn operands.rs operands.rt operands.mem
    elim (if control then special_control hint_fuel fun row operands is else none) [
      | none ↦ write_back opcode (bit_and (insn / 2 ^ 16) 0x1f) val row operands is
      | some result ↦ result
    ]

  -- An instruction that is neither j nor jal.
  unfoldable pub decoded_step : ℕ → ℕ → ExecutionRow → InstrumentedState → Outcome StepResult
  decoded_step hint_fuel insn row is = do
    let opcode = insn / 2 ^ 26
    let rt_reg = bit_and (insn / 2 ^ 16) 0x1f
    let rs = is.state.registers (bit_and (insn / 2 ^ 21) 0x1f)
    rt ← fetch_rt opcode insn rt_reg is.state
    if is_branch opcode
        then (do
          s ← handle_branch platform opcode insn rt_reg rs is.state
          done (record { row = some (row_pcs s row); access = none; is = with_state s is }))
        else (do
          let operands : Operands = record {
            rs = rs;
            rt = rt;
            rd_reg = if opcode == 0 || opcode == 0x1c then bit_and (insn / 2 ^ 11) 0x1f else rt_reg;
            mem = 0;
            store_addr = max_u32;
            access = none;
          }
          (operands', is') ←
              (if leb 0x20 opcode
                then fetch_memory opcode insn operands is
                else done (operands, is))
          alu_step hint_fuel insn row operands' is')

  -- The instruction at `pc`.
  unfoldable pub fetched_step : ℕ → ℕ → InstrumentedState → Outcome StepResult
  fetched_step hint_fuel insn is = do
    let opcode = insn / 2 ^ 26
    let row = fetched_row insn is.state
    if opcode == 2 || opcode == 3
        then (do
          dest ← sign_extension platform (bit_and insn 0x03ff_ffff) 26
          s ← handle_jump platform (if opcode == 3 then 31 else 0) (shl dest 2) is.state
          done (record { row = some (row_pcs s row); access = none; is = with_state s is }))
        else decoded_step hint_fuel insn row is

  unfoldable pub mips_step : ℕ → InstrumentedState → Outcome StepResult
  mips_step hint_fuel is =
      if is.state.exited then done (record { row = none; access = none; is = is }) else (do
        count ← add64 platform is.state.step 1
        (insn, memory) ← get_memory is.state.pc is.state.memory
        fetched_step hint_fuel insn
            (with_state (record (is.state) { step = count; memory = memory }) is))

  -- `if proof` before the step: the instruction's proof and the encoded state.
  unfoldable pub pre_witness : Bool → InstrumentedState → Outcome (StepWitness × InstrumentedState)
  pre_witness proof is =
      let empty : StepWitness = record {
        state = [];
        mem_proof = [];
        preimage_key = zero_digest;
        preimage_value = [];
        preimage_offset = 0;
      } in
      if proof
      then (do
        (insn_proof, memory) ← merkle_proof platform is.state.pc is.state.memory
        (encoded, s) ← encode_witness platform (record (is.state) { memory = memory })
        done (record empty { state = encoded; mem_proof = insn_proof }, with_state s is))
      else done (empty, is)

  -- `if proof` after the step.
  unfoldable pub post_witness : Bool → StepWitness → InstrumentedState → StepWitness
  post_witness proof wit is =
      if proof
      then (let wit' = record wit { mem_proof = wit.mem_proof ++ is.mem_proof } in
          if is.last_preimage_offset != max_u32
          then record wit' {
            preimage_offset = is.last_preimage_offset;
            preimage_key = is.last_preimage_key;
            preimage_value = is.last_preimage;
          }
          else wit')
      else wit

  unfoldable pub step : ℕ → Bool → InstrumentedState → Outcome (StepWitness × StepResult)
  step hint_fuel proof is = do
    (wit, is1) ← pre_witness proof (record is {
      mem_proof_enabled = proof;
      last_mem_access = max_u32;
      last_preimage_offset = max_u32;
    })
    r ← mips_step hint_fuel is1
    done (post_witness proof wit r.is, r)
