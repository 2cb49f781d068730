-- ===== src/Stack/Image.antt =====
-- mips-emulator/src/state.rs: what `patch_stack` leaves in memory.
use mips_emulator.Prelude.{ℕ, ◌+◌, ◌-◌, ◌*◌, ◌^◌, ◌<◌, ◌≡◌, refl, arith, ap, ◌∙◌, fun_ext}
use mips_emulator.Prelude.{length, replicate, length-replicate, update, Outcome, done, bind_done}
use mips_emulator.Platform.{Platform, Bytes}
use mips_emulator.Word.{to_be_bytes}
use mips_emulator.Word.Laws.{length-to_be_bytes}
use mips_emulator.Page.{page_size}
use mips_emulator.Memory.{Memory}
use mips_emulator.Memory.View.{view}
use mips_emulator.Memory.Sound.{IsSound}
use mips_emulator.Memory.Range.{bytes_written}
use mips_emulator.Memory.Loads.{AllBytes, AllBytes-zeros, set_memory_range-IsSound}
use mips_emulator.State.{State}
use mips_emulator.State.Sane.{IsSane, moved-IsSane, with_memory-IsSane, update-lt}
use mips_emulator.Stack.{sp, store_bytes, store_mem, patch_stack}

-- The big-endian word written at an address.
abbrev pub put : ℕ → ℕ → (ℕ → ℕ) → ℕ → ℕ
put a v before = bytes_written a (to_be_bytes 4 v) before

-- Five pages of zeros, of which four lie below the stack pointer; above it argc, the end of argv, that
-- of the environment, the auxiliary vector, and the random bytes that it points to.
unfoldable pub stack_image : Bytes → (ℕ → ℕ) → ℕ → ℕ
stack_image random before = bytes_written (sp + 36) random (
    put (sp + 32) 0 (
      put (sp + 28) (sp + 36) (
        put (sp + 24) 26 (
          put (sp + 20) 4096 (
            put (sp + 16) 6 (
              put (sp + 12) 0 (
                put (sp + 8) 0x35 (
                  put (sp + 4) 0x42 (
                    bytes_written (sp - 4 * page_size) (replicate (5 * page_size) 0) before)))))))))

word-AllBytes : (v : ℕ) → AllBytes (to_be_bytes 4 v)
unfolding to_be_bytes
word-AllBytes v = (omega arith, (omega arith, (omega arith, (omega arith, tt))))

module _ (platform : Platform) where
  -- What a store leaves, and one after another.
  record Stored (f : ℕ → ℕ) (call : Outcome Memory) : Type 0 where
    memory : Memory
    run : call ≡ done memory
    bytes : (b : ℕ) → view memory b ≡ f b
    sound : IsSound platform memory

  store_bytes_lem :
      (a : ℕ) (r : Bytes) (m : Memory) (f : ℕ → ℕ)
      → a + length r < 2 ^ 32
      → AllBytes r
      → IsSound platform m
      → ((b : ℕ) → view m b ≡ f b)
      → Stored (bytes_written a r f) (store_bytes platform a r m)
  unfolding store_bytes
  store_bytes_lem a r m f small all ok same =
      let (m', run, bytes, ok') =
        set_memory_range-IsSound platform (length r + 1) a r {m = m} small (omega arith) all ok in
      record {
        memory = m';
        run = run;
        bytes = λ b. bytes b ∙ ap (λ (g : ℕ → ℕ). bytes_written a r g b) (fun_ext same);
        sound = ok';
      }

  store_mem_lem :
      (a v : ℕ) {f : ℕ → ℕ} {call : Outcome Memory}
      → a + 4 < 2 ^ 32
      → (s : Stored f call) → Stored (put a v f) (store_mem platform a v s.memory)
  unfolding store_mem
  store_mem_lem a v {f} small s =
      store_bytes_lem a (to_be_bytes 4 v) s.memory f (omega (arith, length-to_be_bytes 4 v))
        (word-AllBytes v) s.sound s.bytes

  -- The stack.
  pub patch_stack_lem :
      (random : Bytes) (s : State)
      → length random < 2 ^ 16
      → AllBytes random
      → IsSane platform s
      → (s' : State) × (patch_stack platform random s ≡ done s')
        × IsSane platform s'
        × (s' ≡ record s { memory = s'.memory; registers = update s.registers 29 sp })
        × ((b : ℕ) → view s'.memory b ≡ stack_image random (view s.memory) b)
  unfolding patch_stack stack_image
  patch_stack_lem random s small all ok =
      let zeros =
        store_bytes_lem (sp - 4 * page_size) (replicate (5 * page_size) 0) s.memory (view s.memory)
          (omega (arith, length-replicate {A = ℕ} (5 * page_size) 0))
          (AllBytes-zeros (5 * page_size)) ok.memory (λ b. refl) in
      let m1 = store_mem_lem (sp + 4) 0x42 (omega arith) zeros in
      let m2 = store_mem_lem (sp + 8) 0x35 (omega arith) m1 in
      let m3 = store_mem_lem (sp + 12) 0 (omega arith) m2 in
      let m4 = store_mem_lem (sp + 16) 6 (omega arith) m3 in
      let m5 = store_mem_lem (sp + 20) 4096 (omega arith) m4 in
      let m6 = store_mem_lem (sp + 24) 26 (omega arith) m5 in
      let m7 = store_mem_lem (sp + 28) (sp + 36) (omega arith) m6 in
      let m8 = store_mem_lem (sp + 32) 0 (omega arith) m7 in
      let m9 = store_bytes_lem (sp + 36) random m8.memory _ (omega arith) all m8.sound m8.bytes in
      (
        record s { memory = m9.memory; registers = update s.registers 29 sp },
        bind_done (store_bytes platform (sp - 4 * page_size) (replicate (5 * page_size) 0) s.memory)
              _ zeros.run
            ∙ (bind_done (store_mem platform (sp + 4 * 1) 0x42 zeros.memory) _ m1.run
                ∙ (bind_done (store_mem platform (sp + 4 * 2) 0x35 m1.memory) _ m2.run
                    ∙ (bind_done (store_mem platform (sp + 4 * 3) 0 m2.memory) _ m3.run
                        ∙ (bind_done (store_mem platform (sp + 4 * 4) 6 m3.memory) _ m4.run
                            ∙ (bind_done (store_mem platform (sp + 4 * 5) 0x1000 m4.memory) _ m5.run
                                ∙ (bind_done (store_mem platform (sp + 4 * 6) 0x1a m5.memory) _
                                      m6.run
                                    ∙ (bind_done
                                          (store_mem platform (sp + 4 * 7) (sp + 4 * 9) m6.memory) _
                                          m7.run
                                        ∙ (bind_done (store_mem platform (sp + 4 * 8) 0 m7.memory) _
                                              m8.run
                                            ∙ (bind_done
                                                (store_bytes platform (sp + 4 * 9) random m8.memory)
                                                _ m9.run))))))))),
        with_stack m9.memory m9.sound,
        refl,
        m9.bytes,
      )
    where
      with_stack :
          (m : Memory)
          → IsSound platform m
          → IsSane platform (record s { memory = m; registers = update s.registers 29 sp })
      with_stack m sound =
          moved-IsSane platform s.pc s.next_pc (update s.registers 29 sp) ok.pc ok.next_pc
            (λ r. update-lt s.registers 29 sp r (omega arith) (ok.register r))
            (with_memory-IsSane platform m sound ok)
