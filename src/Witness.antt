-- ===== src/Witness.antt =====
-- mips-emulator/src/witness.rs: the rows of the execution trace and the program's segments.
use mips_emulator.Prelude.{ℕ}
use mips_emulator.Prelude.{Bool}
use mips_emulator.Platform.{Bytes, Digest}

pub record StepWitness : Type 0 where
  pub state : Bytes
  pub mem_proof : Bytes
  pub preimage_key : Digest
  pub preimage_value : Bytes
  pub preimage_offset : ℕ

pub record Instruction : Type 0 where
  pub addr : ℕ
  pub bytecode : ℕ

pub record ExecutionRow : Type 0 where
  pub instruction : Instruction
  pub step : ℕ
  pub registers : ℕ → ℕ
  pub pc : ℕ
  pub next_pc : ℕ
  pub heap : ℕ
  pub exited : Bool
  pub hi : ℕ
  pub lo : ℕ

pub data MemoryOperation : Type 0 where
  read write : MemoryOperation

pub record MemoryAccess : Type 0 where
  pub rw_counter : ℕ
  pub addr : ℕ
  pub op : MemoryOperation
  pub value : ℕ
  pub value_prev : ℕ

-- `MemoryAccess::default`.
unfoldable pub default_access : MemoryAccess
default_access = record { rw_counter = 0; addr = 0; op = read; value = 0; value_prev = 0 }
