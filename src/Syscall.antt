-- ===== src/Syscall.antt =====
-- mips-emulator/src/state.rs: `track_memory_access`, `read_preimage` and `handle_syscall`.
pub mod Untouched
pub mod Hints
pub mod Mmap
pub mod Sane
use mips_emulator.Prelude.{ℕ, zero, suc, ◌+◌, ◌-◌, ◌%◌, ◌^◌, []}
use mips_emulator.Prelude.{Bool, true, false, not, ◌&&◌, ◌||◌}
use mips_emulator.Prelude.{◌∷◌, ◌++◌, length, take, drop}
use mips_emulator.Prelude.{◌==◌, ◌!=◌, ltb, leb, if◌then◌else◌}
use mips_emulator.Prelude.{bit_and}
use mips_emulator.Prelude.{Outcome, done, out_of_fuel, ◌>>=◌, ◌>>◌, ensure}
use mips_emulator.Platform.{Platform, Bytes, Digest}
use mips_emulator.Prelude.{min}
use mips_emulator.Word.{to_be_bytes, from_be_bytes, add32, max_u32}
use mips_emulator.Page.{page_size, page_addr_mask}
use mips_emulator.Memory.{Memory, get_memory, set_memory, read_memory_range}
use mips_emulator.Memory.Merkle.{merkle_proof}
use mips_emulator.Memory.Io.{read_to_end}
use mips_emulator.State.{InstrumentedState}
use mips_emulator.Control.{advance, set_register}

abbrev pub fd_stdin : ℕ
fd_stdin = 0

abbrev pub fd_stdout : ℕ
fd_stdout = 1

abbrev pub fd_stderr : ℕ
fd_stderr = 2

abbrev pub fd_hint_read : ℕ
fd_hint_read = 3

abbrev pub fd_hint_write : ℕ
fd_hint_write = 4

abbrev pub fd_preimage_read : ℕ
fd_preimage_read = 5

abbrev pub fd_preimage_write : ℕ
fd_preimage_write = 6

abbrev pub mips_ebadf : ℕ
mips_ebadf = 9

abbrev pub set_memory_of : Memory → InstrumentedState → InstrumentedState
set_memory_of memory is = record is { state = record (is.state) { memory = memory } }

-- Equality of byte strings.
unfoldable pub bytes_eq : Bytes → Bytes → Bool
bytes_eq [] [] = true
bytes_eq (a ∷ as') (b ∷ bs) = a == b && bytes_eq as' bs
bytes_eq _ _ = false

-- `v0`, `v1` and the emulator's state in the course of a system call.
pub record SyscallState : Type 0 where
  pub v0 : ℕ
  pub v1 : ℕ
  pub is : InstrumentedState

abbrev pub returns : ℕ → ℕ → InstrumentedState → Outcome SyscallState
returns v0 v1 is = done (record { v0 = v0; v1 = v1; is = is })

abbrev pub bad_fd : InstrumentedState → Outcome SyscallState
bad_fd is = returns max_u32 mips_ebadf is

module _ (platform : Platform) where
  unfoldable pub track_memory_access : ℕ → InstrumentedState → Outcome InstrumentedState
  track_memory_access addr is = do
    ensure
        (not (is.mem_proof_enabled && is.last_mem_access != addr && is.last_mem_access != max_u32))
    (proof, memory) ← merkle_proof platform addr is.state.memory
    done (record (set_memory_of memory is) { last_mem_access = addr; mem_proof = proof })

  -- The preimage with its length in front, from the oracle if the key is a new one.
  unfoldable pub fetch_preimage : Digest → InstrumentedState → InstrumentedState
  fetch_preimage key is =
      if bytes_eq key is.last_preimage_key
      then is
      else (let preimage = platform.get_preimage is.hints key in
          record is {
            last_preimage_key = key;
            last_preimage = to_be_bytes 8 (length preimage) ++ preimage;
          })

  -- `copy_size` bytes of the preimage; the array's other bytes, which are 0, are never used.
  unfoldable pub read_preimage :
      Digest → ℕ → InstrumentedState → Outcome (Bytes × InstrumentedState)
  read_preimage key offset is = do
    let is' = record (fetch_preimage key is) { last_preimage_offset = offset }
    ensure (leb offset (length is'.last_preimage))
    done (take 32 (drop offset is'.last_preimage), is')

  -- 4090, mmap.
  unfoldable pub mmap : ℕ → ℕ → InstrumentedState → Outcome SyscallState
  mmap a0 a1 is = do
    size ←
        (if bit_and a1 page_addr_mask != 0
          then add32 platform a1 (page_size - bit_and a1 page_addr_mask)
          else done a1)
    if a0 == 0
        then (do
          heap ← add32 platform is.state.heap size
          returns is.state.heap 0 (record is { state = record (is.state) { heap = heap } }))
        else returns a0 0 is

  -- 4003 from the oracle. The copy panics unless the lengths are equal.
  unfoldable pub read_preimage_word : ℕ → ℕ → InstrumentedState → Outcome SyscallState
  read_preimage_word a1 a2 is = do
    let addr = bit_and a1 0xffff_fffc
    is1 ← track_memory_access addr is
    (mem, memory) ← get_memory addr is1.state.memory
    (bytes, is2) ←
        read_preimage is1.state.preimage_key is1.state.preimage_offset (set_memory_of memory is1)
    let alignment = bit_and a1 3
    let space = 4 - alignment
    let data_len = min (min (length bytes) space) a2
    ensure (data_len == space)
    memory' ←
        set_memory addr
          (from_be_bytes 0 (take alignment (to_be_bytes 4 mem) ++ take data_len bytes))
          is2.state.memory
    offset ← add32 platform is2.state.preimage_offset data_len
    returns data_len 0
        (record is2 { state = record (is2.state) { memory = memory'; preimage_offset = offset } })

  -- 4003, read.
  unfoldable pub syscall_read : ℕ → ℕ → ℕ → InstrumentedState → Outcome SyscallState
  syscall_read a0 a1 a2 is =
      if a0 == fd_stdin
      then returns 0 0 is
      else if a0 == fd_preimage_read
      then read_preimage_word a1 a2 is
      else if a0 == fd_hint_read
      then returns a2 0 is
      else bad_fd is

  -- The bytes of a range of memory, by the reader of the memory.
  unfoldable pub copy_out : ℕ → ℕ → InstrumentedState → Outcome (Bytes × InstrumentedState)
  copy_out a1 a2 is = do
    (bytes, memory) ← read_to_end platform (a2 + 1) 0 (read_memory_range a1 a2 is.state.memory)
    done (bytes, set_memory_of memory is)

  -- `while self.state.last_hint.len() > 4`. A round whose test fails changes nothing.
  unfoldable pub process_hints : ℕ → InstrumentedState → Outcome InstrumentedState
  process_hints zero is = out_of_fuel
  process_hints (suc fuel) is = elim (ltb 4 (length is.state.last_hint)) [
    | false ↦ done is
    | true ↦
        let last_hint = is.state.last_hint in
        let hint_len = from_be_bytes 0 (take 4 last_hint) in
        elim (leb (length last_hint - 4) hint_len) [
          | false ↦ process_hints fuel is
          | true ↦ do
            ensure (leb (4 + hint_len) (length last_hint))
            process_hints fuel (record is {
              state = record (is.state) { last_hint = drop (4 + hint_len) last_hint };
              hints = is.hints ++ take hint_len (drop 4 last_hint) ∷ [];
            })
        ]
  ]

  unfoldable pub write_hint : ℕ → ℕ → ℕ → InstrumentedState → Outcome SyscallState
  write_hint fuel a1 a2 is = do
    (hint_data, is1) ← copy_out a1 a2 is
    is2 ←
        process_hints fuel (record is1 {
          state = record (is1.state) { last_hint = is1.state.last_hint ++ hint_data };
        })
    returns a2 0 is2

  -- 4004 to the oracle: the key moves up by `n` bytes and takes the word's first `n` at its end.
  unfoldable pub write_preimage_key : ℕ → ℕ → InstrumentedState → Outcome SyscallState
  write_preimage_key a1 a2 is = do
    let addr = bit_and a1 0xffff_fffc
    is1 ← track_memory_access addr is
    (out_mem, memory) ← get_memory addr is1.state.memory
    let is2 = set_memory_of memory is1
    let n = min a2 (4 - bit_and a1 3)
    returns n 0 (record is2 {
      state = record (is2.state) {
        preimage_key = drop n is2.state.preimage_key ++ take n (to_be_bytes 4 out_mem);
        preimage_offset = 0;
      };
    })

  -- 4004, write. The fuel is that of the hint loop.
  unfoldable pub syscall_write : ℕ → ℕ → ℕ → ℕ → InstrumentedState → Outcome SyscallState
  syscall_write fuel a0 a1 a2 is =
      if a0 == fd_stdout
      then (do
        (bytes, is') ← copy_out a1 a2 is
        returns a2 0 (record is' { stdout = is'.stdout ++ bytes }))
      else if a0 == fd_stderr
      then (do
        (bytes, is') ← copy_out a1 a2 is
        returns a2 0 (record is' { stderr = is'.stderr ++ bytes }))
      else if a0 == fd_hint_write
      then write_hint fuel a1 a2 is
      else if a0 == fd_preimage_write
      then write_preimage_key a1 a2 is
      else bad_fd is

  -- 4055, fcntl.
  unfoldable pub fcntl : ℕ → ℕ → InstrumentedState → Outcome SyscallState
  fcntl a0 a1 is =
      if a1 == 3
      then (if a0 == fd_stdin || a0 == fd_preimage_read || a0 == fd_hint_read
          then returns 0 0 is
          else if a0 == fd_stdout
              || a0 == fd_stderr
              || a0 == fd_preimage_write
              || a0 == fd_hint_write
          then returns 1 0 is
          else bad_fd is)
      else bad_fd is

  -- `match syscall_num` but for 4246.
  unfoldable pub syscall_result : ℕ → ℕ → InstrumentedState → Outcome SyscallState
  syscall_result fuel syscall_num is =
      let a0 = is.state.registers 4 in
      let a1 = is.state.registers 5 in
      let a2 = is.state.registers 6 in
      if syscall_num == 4090
      then mmap a0 a1 is
      else if syscall_num == 4045
      then returns 0x4000_0000 0 is
      else if syscall_num == 4120
      then returns 1 0 is
      else if syscall_num == 4003
      then syscall_read a0 a1 a2 is
      else if syscall_num == 4004
      then syscall_write fuel a0 a1 a2 is
      else if syscall_num == 4055
      then fcntl a0 a1 is
      else returns 0 0 is

  unfoldable pub handle_syscall : ℕ → InstrumentedState → Outcome InstrumentedState
  handle_syscall fuel is =
      let syscall_num = is.state.registers 2 in
      if syscall_num == 4246
      then done (record is {
        state = record (is.state) { exited = true; exit_code = is.state.registers 4 % 2 ^ 8 };
      })
      else (do
        r ← syscall_result fuel syscall_num is
        s ← advance platform (set_register 7 r.v1 (set_register 2 r.v0 r.is.state))
        done (record (r.is) { state = s }))
