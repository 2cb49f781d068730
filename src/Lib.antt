-- ===== src/Lib.antt =====
-- The MIPS emulator of mips-emulator/: a 32-bit big-endian machine that runs one instruction at a
-- time and, for a fault proof, hashes its memory into a Merkle tree and records a witness per
-- step.
--
-- Parts, and the files that model them:
-- - Prelude: Boolean tests, lists, arrays as functions, association lists, bits, integers, and
--   `Outcome`, the result of a Rust call: a value, a panic, or no end within the fuel.
-- - Platform: what the code takes from outside: whether overflows are checked, SHA3-256, the
--   pre-image oracle and the buffer lengths of std::io. Word: Rust's arithmetic on u32, u64 and
--   i64.
-- - Page (mips-emulator/src/page.rs): `CachedPage`, 4096 bytes with a cache of 128 Merkle nodes.
--   Page/Path is about the nodes that `invalidate` marks, Page/Tree about `merkle_root`,
--   Page/Write about a write with its invalidation.
-- - Memory (mips-emulator/src/memory.rs): `Memory`, the map of pages with its two-entry lookup
--   cache. A shared page (`Rc<RefCell<CachedPage>>`) is an address in `heap`, so that the map and
--   the lookup cache alias as in the source. Memory/View gives the bytes that a memory stands for,
--   Memory/Invalidate and Memory/Writes what a write does, Memory/Words what a read returns,
--   Memory/Merkle the tree above the pages, Memory/Io the byte streams, Memory/Usage the size in a
--   unit to read, Memory/Valid the invariant. Memory/Sound adds that what memory holds are bytes;
--   Memory/Range and Memory/Loads are about `set_memory_range`, Memory/Reads about the reader,
--   Memory/RoundTrip about both.
-- - Witness (mips-emulator/src/witness.rs): the records that a step produces.
-- - State, Alu, Control, Syscall and Step (mips-emulator/src/state.rs): the machine's state and
--   its encoding; `execute` and `sign_extension`; the branch, jump, hi/lo and write-back handlers;
--   the system calls; `mips_step` and `step`. Each function of the source has the same name here.
--   A function with early returns is split where it returns, and called in the source's order.
--   Syscall/Hints and Syscall/Mmap are about the hint loop and mmap, Control/Products about mult
--   and divu, Control/Advance and Syscall/Untouched about what the handlers leave alone.
--   State/Sane has the invariant of a run, and Control/Sane, Syscall/Sane and Step/Sane that every
--   handler keeps it, with Alu/Bounds on the results of `execute`. Step/Accesses is about the
--   memory fetch and the store, Step/Instruction about whole instructions from the fetch on
--   (Instruction/Transfers: loads and stores; Instruction/Arithmetic: registers and immediates;
--   Instruction/Branches: branches and jumps), Step/Run about one call of `step`, Step/Reach about
--   the states that calls of it reach.
-- - Loader (`load_elf` and `patch_go` of mips-emulator/src/state.rs): Loader/Image is about the
--   memory that is loaded, Loader/Patches about the patches, Loader/Boot about both with
--   `patch_stack` after them. The file as the `elf` crate parses it is a record of what the code
--   asks it for.
-- - Stack (`patch_stack` of mips-emulator/src/state.rs, with Stack/Image on what it leaves in
--   memory), Program (the program table of mips-emulator/src/witness.rs, with Program/Bits on its
--   bits, Program/Load on `load_instructions`, Program/Cursor on the places that
--   `next_instruction` goes through, and Program/Hash on `compute_hash`, whose Sinsemilla hasher
--   is a parameter), PreImage (mips-emulator/src/pre_image.rs) and OpcodeId
--   (mips-emulator/src/opcode_id.rs).
-- - Circuit (zkmips-circuits/src/table/ and `int_to_field` of zkmips-circuits/src/util.rs): what
--   the circuit's two tables are filled with. Circuit/Field has the numbers as elements of a field
--   that is a parameter, Circuit/RwTable the memory accesses with their order and padding, and
--   Circuit/OpcodeTable the program's instructions.
-- - Circuit/HashRound (zkmips-circuits/src/program/chip.rs), Circuit/ProgramHash and
--   Circuit/ProgramTable (zkmips-circuits/src/program.rs): the hash of the program in the circuit
--   and its lookup table, in the pass in which values are known. ProgramHash/Laws says what is
--   relied on of `pallas::Base` and of halo2's Sinsemilla chip, ProgramHash/Digits reads the high
--   half of a word from an element's text, ProgramHash/Parts is about the packing of words,
--   ProgramHash/Collected and ProgramHash/Agrees about the agreement with Program/Hash, where
--   Program/Hash/Numbers has the emulator's bits as numbers and Program/Hash/Chain the hashes as a
--   chain; nothing is assumed of where a hash is defined.
-- - Circuit/ConstraintBuilder (constraint_builder.rs, table.rs and util.rs of
--   zkmips-circuits/src/mips_circuit/): `MIPSConstraintBuilder`, the look-ups and the random linear
--   combinations. Circuit/Expression has what is used of halo2's `Expression` and of the cell
--   manager, as records. ConstraintBuilder/Stored is about stored expressions,
--   ConstraintBuilder/Split about `split_expression`, ConstraintBuilder/Lookups about `add_lookup`.
-- - Examples: the theorems at concrete inputs.
--
-- State is passed explicitly: an operation takes the state and returns it with its result. Words
-- are natural numbers below 2^32, wrapped where the source wraps. Where an overflow is checked the
-- result is a panic in a checked build and wraps in another, as `overflow_checks` says.
--
-- Fuel: `clear_path` has 8 rounds for a node below 128, `invalidate_nodes` 22 for a node of 21
-- bits, `merklelize_subtree` 29 levels and `traverse_branch` 28 for a tree of depth 28,
-- `count_ones` 33 for a word: each is one more than the longest run. `set_memory_range` and
-- `read_to_end` take one round more than there are bytes. `process_hints` takes its fuel from the
-- caller, since the loop of the source does not end on every input. `compute_hash` takes one
-- number for both of its loops: a round for 60 words and two more are enough.
-- `calculate_final_hash` needs one more. `split_expression` has fuel for the size of the expression,
-- and 5 rounds for its loop on a product: with a maximal degree of 2 or more an operand is split
-- twice at most. With a smaller one the loop of the source does not end on a product of cells.
--
-- Not modelled: the Sinsemilla hash, a copy of a library's, printing, logging and the tests; of
-- zkmips-circuits/, the gadgets and the cell manager, copies of a library's, the layout and the
-- columns, which are the proof system's, and `MipsCircuitConfig` and the add gadget, which are
-- unfinished. Expressions with simple selectors, on which halo2's operators panic, are left out.
-- `sort_by_key` of the standard library is an insertion sort, since it is stable. Where a row stands
-- in a region is its place in the list. A HashMap is an association list, and `for_each_page` goes
-- through it in that order, where the source's order is arbitrary.
pub mod Prelude
pub mod Platform
pub mod Word
pub mod Page
pub mod Memory
pub mod Witness
pub mod State
pub mod Alu
pub mod Control
pub mod Syscall
pub mod Step
pub mod Stack
pub mod Program
pub mod Loader
pub mod Circuit
pub mod PreImage
pub mod OpcodeId
pub mod Examples
