-- ===== src/Step/Run.antt =====
-- What one `step`, witness and instruction, does: mips-emulator/src/state.rs.
use mips_emulator.Prelude.{ℕ, ◌+◌, ◌%◌, ◌^◌, ◌≡◌, refl, Bool, true, false, ap, sym, ◌∙◌}
use mips_emulator.Prelude.{Outcome, done, after, bind_done, inl, inr}
use mips_emulator.Platform.{Platform, Bytes}
use mips_emulator.Word.{max_u32}
use mips_emulator.Word.Laws.{add64-value}
use mips_emulator.Memory.{Memory}
use mips_emulator.Memory.View.{view}
use mips_emulator.Memory.Merkle.{merkle_proof, merkle_root}
use mips_emulator.Memory.Sound.{IsSound, merkle_proof_succeeds, merkle_root_succeeds}
use mips_emulator.Witness.{StepWitness}
use mips_emulator.State.{State, InstrumentedState, encode_witness}
use mips_emulator.State.Sane.{IsSane, with_memory-IsSane}
use mips_emulator.Step
use mips_emulator.Step.Effect.{mips_step-Effect, StepEffect}
use mips_emulator.Step.Sane.{mips_step-IsSane}

module _ (platform : Platform) where
  -- Only the memory may differ, and not in any of its bytes.
  pub record SameBut (s s' : State) : Type 0 where
    pub memory : Memory
    pub same : s' ≡ record s { memory = memory }
    pub bytes : (b : ℕ) → view memory b ≡ view s.memory b
    pub sound : IsSound platform memory

  encode_witness_succeeds :
      (s : State)
      → IsSane platform s
      → (out : Bytes) × (s' : State) × (encode_witness platform s ≡ done (out, s')) × SameBut s s'
  unfolding encode_witness
  encode_witness_succeeds s ok =
      let (root, m, run, sound, bytes) = merkle_root_succeeds platform ok.memory in
      (
        _,
        record s { memory = m },
        bind_done (merkle_root platform s.memory) _ run,
        record { memory = m; same = refl; bytes = bytes; sound = sound },
      )

  -- From a sane state the witness before a step, with proof or without, can always be computed:
  -- `pre_witness` returns, and the state after it differs in the memory alone, which is sound and
  -- the same in every byte.
  pub pre_witness_succeeds :
      (proof : Bool) (is : InstrumentedState)
      → IsSane platform is.state
      → (wit : StepWitness) × (s : State) × (Step.pre_witness platform proof is
          ≡ done (wit, Step.with_state s is))
        × SameBut is.state s
  unfolding Step.pre_witness
  pre_witness_succeeds false is ok = (
    _,
    is.state,
    refl,
    record { memory = is.state.memory; same = refl; bytes = λ _. refl; sound = ok.memory },
  )
  pre_witness_succeeds true is ok =
      let (proof, m, run, sound, bytes) = merkle_proof_succeeds platform is.state.pc ok.memory in
      let (out, s, run', b) =
        encode_witness_succeeds (record (is.state) { memory = m })
          (with_memory-IsSane platform m sound ok) in
      (
        _,
        s,
        bind_done (merkle_proof platform is.state.pc is.state.memory) _ run
            ∙ bind_done (encode_witness platform (record (is.state) { memory = m })) _ run',
        record {
          memory = b.memory;
          same = b.same;
          bytes = λ x. b.bytes x ∙ bytes x;
          sound = b.sound;
        },
      )

  -- What a step is called with before the witness.
  abbrev armed : Bool → InstrumentedState → InstrumentedState
  armed proof is = record is {
    mem_proof_enabled = proof;
    last_mem_access = max_u32;
    last_preimage_offset = max_u32;
  }

  -- A step is its instruction's, from the state that the witness leaves.
  step-parts :
      (fuel : ℕ) (proof : Bool) (is : InstrumentedState) {wit : StepWitness} {r : Step.StepResult}
      → IsSane platform is.state
      → Step.step platform fuel proof is ≡ done (wit, r)
      → (s : State) × SameBut is.state s
        × (Step.mips_step platform fuel (Step.with_state s (armed proof is)) ≡ done r)
  unfolding Step.step
  step-parts fuel proof is {wit} {r} ok e =
      let (w, s, run, same) = pre_witness_succeeds proof (armed proof is) ok in
      after (Step.pre_witness platform proof (armed proof is)) _ e λ (w1, is1) run1 e1.
        after (Step.mips_step platform fuel is1) _ e1
          λ r1 run2 e2. (s, same, found w1 is1 r1 (sym run ∙ run1) run2 e2)
    where
      found :
          {w : StepWitness} {s : State} (w1 : StepWitness) (is1 : InstrumentedState)
          (r1 : Step.StepResult)
          → ◌≡◌ {A = Outcome (StepWitness × InstrumentedState)}
              (done (w, Step.with_state s (armed proof is)))
              (done (w1, is1))
          → Step.mips_step platform fuel is1 ≡ done r1
          → ◌≡◌ {A = Outcome (StepWitness × Step.StepResult)}
              (done (Step.post_witness platform proof w1 r1.is, r1))
              (done (wit, r))
          → Step.mips_step platform fuel (Step.with_state s (armed proof is)) ≡ done r
      found w1 is1 r1 h run g = cc

  SameBut-IsSane : {s s' : State} → SameBut s s' → IsSane platform s → IsSane platform s'
  SameBut-IsSane b ok = rw b.same (with_memory-IsSane platform b.memory b.sound ok)

  pub SameBut-trans : {s t u : State} → SameBut s t → SameBut t u → SameBut s u
  SameBut-trans {s} {t} {u} f g = record {
    memory = g.memory;
    same = joined f.memory g.memory f.same g.same;
    bytes = λ b. g.bytes b ∙ ap (λ (x : State). view x.memory b) f.same ∙ f.bytes b;
    sound = g.sound;
  }
    where
      joined :
          (m n : Memory)
          → t ≡ record s { memory = m }
          → u ≡ record t { memory = n }
          → u ≡ record s { memory = n }
      joined m n p q = q ∙ ap (λ (x : State). record x { memory = n }) p

  -- What a step that succeeds does to the machine.
  pub record StepLaw (is is' : InstrumentedState) : Type 0 where
    pub sane : IsSane platform is'.state
    pub zero_register : is'.state.registers 0 ≡ is.state.registers 0
    pub halted : is.state.exited ≡ true → SameBut is.state is'.state
    pub running :
        is'.state.exited ≡ false
        → (is.state.exited ≡ false)
          × (is'.state.pc ≡ is.state.next_pc)
          × (is'.state.step ≡ (is.state.step + 1) % 2 ^ 64)

  pub step-StepLaw :
      (fuel : ℕ) (proof : Bool) (is : InstrumentedState) {wit : StepWitness} {r : Step.StepResult}
      → IsSane platform is.state
      → Step.step platform fuel proof is ≡ done (wit, r)
      → StepLaw is r.is
  step-StepLaw fuel proof is {wit} {r} ok e =
      let (s, same, run) = step-parts fuel proof is ok e in
      let sane =
        mips_step-IsSane platform fuel (Step.with_state s (armed proof is)) (SameBut-IsSane same ok)
          run in
      elim (mips_step-Effect platform fuel (Step.with_state s (armed proof is)) run) [
        | inl (exited, stays, row) ↦
            let state : r.is.state ≡ s = ap (λ (x : InstrumentedState). x.state) stays in
            record {
              sane = sane;
              zero_register = ap (λ (x : State). x.registers 0) (state ∙ same.same);
              halted = λ _. rw (sym state) at same;
              running = λ on. absurd (stays_on s same.memory same.same state exited on);
            }
        | inr (exited, effect) ↦ record {
          sane = sane;
          zero_register = effect.zero_register ∙ ap (λ (x : State). x.registers 0) same.same;
          halted = λ off. absurd (was_on s same.memory same.same exited off);
          running = λ on. (
            was s same.memory same.same exited,
            moved s same.memory same.same effect on,
            counted s same.memory same.same effect,
          );
        }
      ]
    where
      stays_on :
          (s : State) (m : Memory)
          → s ≡ record (is.state) { memory = m }
          → r.is.state ≡ s
          → s.exited ≡ true
          → r.is.state.exited ≡ false
          → ⊥
      stays_on s m f g h k = cc

      was :
          (s : State) (m : Memory)
          → s ≡ record (is.state) { memory = m }
          → s.exited ≡ false
          → is.state.exited ≡ false
      was s m f h = sym (ap (λ (x : State). x.exited) f) ∙ h

      was_on :
          (s : State) (m : Memory)
          → s ≡ record (is.state) { memory = m }
          → s.exited ≡ false
          → is.state.exited ≡ true
          → ⊥
      was_on s m f h k = let e = was s m f h in cc

      moved :
          (s : State) (m : Memory)
          → s ≡ record (is.state) { memory = m }
          → StepEffect platform (Step.with_state s (armed proof is)) r.is
          → r.is.state.exited ≡ false
          → r.is.state.pc ≡ is.state.next_pc
      moved s m f effect on = elim effect.pc [
        | inl (p, q) ↦ p ∙ ap (λ (x : State). x.next_pc) f
        | inr (p, q) ↦ absurd (cc)
      ]

      counted :
          (s : State) (m : Memory)
          → s ≡ record (is.state) { memory = m }
          → StepEffect platform (Step.with_state s (armed proof is)) r.is
          → r.is.state.step ≡ (is.state.step + 1) % 2 ^ 64
      counted s m f effect =
          add64-value platform s.step 1 effect.step ∙ ap (λ (x : State). (x.step + 1) % 2 ^ 64) f
