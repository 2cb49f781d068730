-- ===== src/State/Sane.antt =====
-- What holds of the machine's state throughout a run: mips-emulator/src/state.rs, `State`.
use mips_emulator.Prelude.{ℕ, ◌^◌, ◌<◌, arith, Bool, update}
use mips_emulator.Platform.{Platform, Bytes, Digest}
use mips_emulator.Memory
use mips_emulator.Memory.{Memory}
use mips_emulator.Memory.Valid.{new-IsValid}
use mips_emulator.Memory.View.{view, byte_in}
use mips_emulator.Prelude.HashMap.{get}
use mips_emulator.Memory.Sound.{IsSound}
use mips_emulator.State
use mips_emulator.State.{State}

module _ (platform : Platform) where
  -- The memory is sound, and every number of the state is in the range of its Rust type.
  pub record IsSane (s : State) : Type 0 where
    pub memory : IsSound platform s.memory
    pub register : (r : ℕ) → s.registers r < 2 ^ 32
    pub pc : s.pc < 2 ^ 32
    pub next_pc : s.next_pc < 2 ^ 32
    pub hi : s.hi < 2 ^ 32
    pub lo : s.lo < 2 ^ 32
    pub heap : s.heap < 2 ^ 32
    pub step : s.step < 2 ^ 64
    pub preimage_offset : s.preimage_offset < 2 ^ 32
    pub exit_code : s.exit_code < 2 ^ 8

  pub new-IsSane : IsSane State.new
  unfolding byte_in get
  new-IsSane =
      unfold State.new in
      record {
        memory = record {
          valid = new-IsValid platform;
          byte = λ b. unfold view Memory.new in omega arith;
        };
        register = λ r. omega arith;
        pc = omega arith;
        next_pc = omega arith;
        hi = omega arith;
        lo = omega arith;
        heap = omega arith;
        step = omega arith;
        preimage_offset = omega arith;
        exit_code = omega arith;
      }

  -- All else may change within its range.
  pub with_rest-IsSane :
      (memory : Memory) (preimage_key : Digest) (preimage_offset heap step : ℕ) (exited : Bool)
      (exit_code : ℕ) (last_hint : Bytes) {s : State}
      → IsSound platform memory
      → preimage_offset < 2 ^ 32
      → heap < 2 ^ 32
      → step < 2 ^ 64
      → exit_code < 2 ^ 8
      → IsSane s
      → IsSane (record s {
        memory = memory;
        preimage_key = preimage_key;
        preimage_offset = preimage_offset;
        heap = heap;
        step = step;
        exited = exited;
        exit_code = exit_code;
        last_hint = last_hint;
      })
  with_rest-IsSane memory key offset heap step exited code hint sound o h t c ok = record {
    memory = sound;
    register = ok.register;
    pc = ok.pc;
    next_pc = ok.next_pc;
    hi = ok.hi;
    lo = ok.lo;
    heap = h;
    step = t;
    preimage_offset = o;
    exit_code = c;
  }

  pub with_memory-IsSane :
      (m : Memory) {s : State} → IsSound platform m → IsSane s → IsSane (record s { memory = m })
  with_memory-IsSane m {s} sound ok =
      with_rest-IsSane m s.preimage_key s.preimage_offset s.heap s.step s.exited s.exit_code
        s.last_hint sound ok.preimage_offset ok.heap ok.step ok.exit_code ok

  pub with_hint-IsSane :
      (hint : Bytes) {s : State} → IsSane s → IsSane (record s { last_hint = hint })
  with_hint-IsSane hint {s} ok =
      with_rest-IsSane s.memory s.preimage_key s.preimage_offset s.heap s.step s.exited s.exit_code
        hint ok.memory ok.preimage_offset ok.heap ok.step ok.exit_code ok

  -- New program counters and registers.
  pub moved-IsSane :
      (pc next_pc : ℕ) (registers : ℕ → ℕ) {s : State}
      → pc < 2 ^ 32
      → next_pc < 2 ^ 32
      → ((r : ℕ) → registers r < 2 ^ 32)
      → IsSane s
      → IsSane (record s { pc = pc; next_pc = next_pc; registers = registers })
  moved-IsSane pc next_pc registers p q r ok = record {
    memory = ok.memory;
    register = r;
    pc = p;
    next_pc = q;
    hi = ok.hi;
    lo = ok.lo;
    heap = ok.heap;
    step = ok.step;
    preimage_offset = ok.preimage_offset;
    exit_code = ok.exit_code;
  }

  -- New hi and lo.
  pub with_hilo-IsSane :
      (hi lo : ℕ) {s : State}
      → hi < 2 ^ 32
      → lo < 2 ^ 32
      → IsSane s
      → IsSane (record s { hi = hi; lo = lo })
  with_hilo-IsSane hi lo p q ok = record {
    memory = ok.memory;
    register = ok.register;
    pc = ok.pc;
    next_pc = ok.next_pc;
    hi = p;
    lo = q;
    heap = ok.heap;
    step = ok.step;
    preimage_offset = ok.preimage_offset;
    exit_code = ok.exit_code;
  }

pub update-lt : (f : ℕ → ℕ) (k v r : ℕ) → v < 2 ^ 32 → f r < 2 ^ 32 → update f k v r < 2 ^ 32
update-lt f k v r p q = ground arith
