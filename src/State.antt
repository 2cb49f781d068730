-- ===== src/State.antt =====
-- mips-emulator/src/state.rs: the state of the machine and of the emulator around it. The 32
-- registers are a function of the register's number, which is always masked to 5 bits.
pub mod Sane
use mips_emulator.Prelude.{ℕ, zero, suc, ◌+◌, ◌*◌, []}
use mips_emulator.Prelude.{Bool, true, false}
use mips_emulator.Prelude.{List, ◌∷◌, ◌++◌, replicate}
use mips_emulator.Prelude.{if◌then◌else◌}
use mips_emulator.Prelude.{Outcome, done, ◌>>=◌}
use mips_emulator.Platform.{Platform, Bytes, Digest}
use mips_emulator.Word.{to_be_bytes, max_u32}
use mips_emulator.Page.{zero_digest}
use mips_emulator.Memory
use mips_emulator.Memory.{Memory}
use mips_emulator.Memory.Merkle.{merkle_root}

pub record State : Type 0 where
  pub memory : Memory
  pub preimage_key : Digest
  pub preimage_offset : ℕ
  pub registers : ℕ → ℕ
  pub pc : ℕ
  pub next_pc : ℕ
  pub hi : ℕ
  pub lo : ℕ
  pub heap : ℕ
  pub step : ℕ
  pub exited : Bool
  pub exit_code : ℕ
  pub last_hint : Bytes

unfoldable pub new : State
unfolding Memory.new
new = record {
  memory = Memory.new;
  preimage_key = zero_digest;
  preimage_offset = 0;
  registers = λ _. 0;
  pc = 0;
  next_pc = 4;
  hi = 0;
  lo = 0;
  heap = 0;
  step = 0;
  exited = false;
  exit_code = 0;
  last_hint = [];
}

-- `for register in self.registers`, from register `i` on.
unfoldable pub encode_registers : ℕ → ℕ → (ℕ → ℕ) → Bytes
encode_registers zero i registers = []
encode_registers (suc left) i registers =
    to_be_bytes 4 (registers i) ++ encode_registers left (i + 1) registers

module _ (platform : Platform) where
  unfoldable pub encode_witness : State → Outcome (Bytes × State)
  encode_witness s = do
    (mem_root, memory) ← merkle_root platform s.memory
    let out =
        mem_root
        ++ (s.preimage_key
            ++ (to_be_bytes 4 s.preimage_offset
                ++ (to_be_bytes 4 s.pc
                    ++ (to_be_bytes 4 s.next_pc
                        ++ (to_be_bytes 4 s.lo
                            ++ (to_be_bytes 4 s.hi
                                ++ (to_be_bytes 4 s.heap
                                    ++ (s.exit_code
                                          ∷ (if s.exited then 1 else 0)
                                          ∷ to_be_bytes 8 s.step
                                        ++ encode_registers 32 0 s.registers))))))))
    done (out, record s { memory = memory })

-- `InstrumentedState`. The writers are the bytes written to them, and the oracle is the list of
-- hints that it was given.
pub record InstrumentedState : Type 0 where
  pub state : State
  pub stdout : Bytes
  pub stderr : Bytes
  pub last_mem_access : ℕ
  pub mem_proof_enabled : Bool
  pub mem_proof : Bytes
  pub hints : List Bytes
  pub last_preimage : Bytes
  pub last_preimage_key : Digest
  pub last_preimage_offset : ℕ

-- `InstrumentedState::new`.
unfoldable pub instrumented : State → InstrumentedState
instrumented s = record {
  state = s;
  stdout = [];
  stderr = [];
  last_mem_access = max_u32;
  mem_proof_enabled = true;
  mem_proof = replicate (28 * 32) 0;
  hints = [];
  last_preimage = [];
  last_preimage_key = zero_digest;
  last_preimage_offset = 0;
}
