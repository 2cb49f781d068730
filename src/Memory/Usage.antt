-- ===== src/Memory/Usage.antt =====
-- mips-emulator/src/memory.rs: `usage`, the size of the pages in a unit to read.
use mips_emulator.Prelude.{ℕ, zero, suc, ◌+◌, ◌*◌, ◌/◌, ◌^◌}
use mips_emulator.Prelude.{ltb, if◌then◌else◌, Outcome, done, panic, out_of_fuel, ◌>>=◌}
use mips_emulator.Page.{page_size}
use mips_emulator.Memory.{Memory, page_count}

-- The text is "n B", or "n, LiB" with a letter L of "KMGTPE", which is given by its index.
pub data Usage : Type 0 where
  in_bytes : ℕ → Usage
  in_units : ℕ → ℕ → Usage

-- `while n >= unit`, which ends with `div` and `exp`. Seven rounds are enough below 2^64.
unfoldable pub scale : ℕ → ℕ → ℕ → ℕ → Outcome (ℕ × ℕ)
scale zero n div exp = out_of_fuel
scale (suc fuel) n div exp =
    let rest = scale fuel (n / 2 ^ 10) (div * 2 ^ 10) (exp + 1) in
    if ltb n (2 ^ 10) then done (div, exp) else rest

-- An index behind the letters panics.
unfoldable pub usage : Memory → Outcome Usage
usage m =
    let total = page_count m * page_size in
    if ltb total (2 ^ 10) then done (in_bytes total) else (do
      (div, exp) ← scale 7 (total / 2 ^ 10) (2 ^ 10) 0
      if ltb exp 6 then done (in_units (total / div) exp) else panic)
