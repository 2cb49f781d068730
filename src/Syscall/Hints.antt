-- ===== src/Syscall/Hints.antt =====
-- When the loop over the hints ends: mips-emulator/src/state.rs, `handle_syscall`, hint writes.
use mips_emulator.Prelude.{ℕ, zero, suc, ◌+◌, ◌-◌, ◌≤◌, ◌<◌, ◌≡◌, refl, arith, inl, inr}
use mips_emulator.Prelude.{[], ◌∷◌, ◌++◌, length, take, drop, length-drop}
use mips_emulator.Prelude.{
  ltb, leb, if◌then◌else◌, ltb_of_lt, ltb_of_le, leb_of_le, leb_of_lt, Bool-cases,
}
use mips_emulator.Prelude.{done, panic, out_of_fuel}
use mips_emulator.Platform.{Platform}
use mips_emulator.Word.{from_be_bytes}
use mips_emulator.State.{InstrumentedState}
use mips_emulator.Syscall.{process_hints}

-- The length that the first hint in the buffer states.
abbrev pub stated_len : InstrumentedState → ℕ
stated_len is = from_be_bytes 0 (take 4 is.state.last_hint)

-- The bytes behind the length.
abbrev pub buffered_len : InstrumentedState → ℕ
buffered_len is = length is.state.last_hint - 4

-- The whole buffer handed to the oracle as one hint.
abbrev pub handed_over : InstrumentedState → InstrumentedState
handed_over is = record is {
  state = record (is.state) { last_hint = drop (4 + stated_len is) is.state.last_hint };
  hints = is.hints ++ take (stated_len is) (drop 4 is.state.last_hint) ∷ [];
}

module _ (platform : Platform) where
  no_more :
      (fuel : ℕ) (is : InstrumentedState)
      → length is.state.last_hint ≤ 4
      → process_hints platform (suc fuel) is ≡ done is
  unfolding process_hints
  no_more fuel is short = rw (process_hints, ltb_of_le 4 (length is.state.last_hint) short) refl

  -- A round that finds more than one hint changes nothing.
  never_ends :
      (fuel : ℕ) (is : InstrumentedState)
      → 4 < length is.state.last_hint
      → stated_len is < buffered_len is
      → process_hints platform fuel is ≡ out_of_fuel
  unfolding process_hints
  never_ends zero is long more = refl
  never_ends (suc fuel) is long more =
      rw
        (
          process_hints,
          ltb_of_lt 4 (length is.state.last_hint) long,
          leb_of_lt (buffered_len is) (stated_len is) more,
        )
        (never_ends fuel is long more)

  incomplete :
      (fuel : ℕ) (is : InstrumentedState)
      → 4 < length is.state.last_hint
      → buffered_len is < stated_len is
      → process_hints platform (suc fuel) is ≡ panic
  unfolding process_hints
  incomplete fuel is long less =
      rw
        (
          process_hints,
          ltb_of_lt 4 (length is.state.last_hint) long,
          leb_of_le (buffered_len is) (stated_len is) (omega arith),
          leb_of_lt (4 + stated_len is) (length is.state.last_hint) (omega arith),
        )
        refl

  exact :
      (fuel : ℕ) (is : InstrumentedState)
      → 4 < length is.state.last_hint
      → stated_len is ≡ buffered_len is
      → process_hints platform (suc (suc fuel)) is ≡ done (handed_over is)
  unfolding process_hints
  exact fuel is long same =
      rw
        (
          process_hints,
          ltb_of_lt 4 (length is.state.last_hint) long,
          leb_of_le (buffered_len is) (stated_len is) (omega arith),
          leb_of_le (4 + stated_len is) (length is.state.last_hint) (omega arith),
        )
        (no_more fuel (handed_over is)
          (omega (arith, length-drop (4 + stated_len is) is.state.last_hint)))

  -- With fuel for two rounds or more, the hint loop ends at once where the buffer holds at most 4
  -- bytes; runs on without end where more bytes follow the length than it states; panics where
  -- fewer follow; and hands the buffer to the oracle as one hint and ends where just as many
  -- follow.
  pub process_hints_lem :
      (fuel : ℕ) (is : InstrumentedState)
      → process_hints platform (suc (suc fuel)) is ≡ (
          if leb (length is.state.last_hint) 4
          then done is
          else if ltb (stated_len is) (buffered_len is)
          then out_of_fuel
          else if ltb (buffered_len is) (stated_len is)
          then panic
          else done (handed_over is))
  process_hints_lem fuel is = elim (Bool-cases (leb (length is.state.last_hint) 4)) [
    | inl short ↦ rw short (no_more (suc fuel) is (ground (arith, short)))
    | inr long ↦ elim (Bool-cases (ltb (stated_len is) (buffered_len is))) [
      | inl more ↦
          rw (long, more)
            (never_ends (suc (suc fuel)) is (ground (arith, long)) (ground (arith, more)))
      | inr not_more ↦ elim (Bool-cases (ltb (buffered_len is) (stated_len is))) [
        | inl less ↦
            rw (long, not_more, less)
              (incomplete (suc fuel) is (ground (arith, long)) (ground (arith, less)))
        | inr not_less ↦
            rw (long, not_more, not_less)
              (exact fuel is (ground (arith, long)) (ground (arith, not_more, not_less)))
      ]
    ]
  ]
