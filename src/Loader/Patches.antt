-- ===== src/Loader/Patches.antt =====
-- mips-emulator/src/state.rs: what `patch_go` does to memory.
use mips_emulator.Prelude.{
  ℕ, ◌+◌, ◌%◌, ◌^◌, ◌<◌, ◌≡◌, refl, arith, ap, sym, ◌∙◌, fun_ext, true, false, Bool-cases, ◌||◌,
}
use mips_emulator.Prelude.{
  inl, inr, Option, none, some, List, [], ◌∷◌, length, ◌++◌, Bool, if◌then◌else◌, Outcome, done,
  bind_done,
}
use Prim.Native.Nat.{Ordering}
use Prim.Native.String.{String, compare as compare_String}
use mips_emulator.Word.{to_be_bytes}
use mips_emulator.Platform.{Platform, Bytes}
use mips_emulator.Memory.{Memory}
use mips_emulator.Memory.Io.{set_memory_range}
use mips_emulator.Memory.View.{view}
use mips_emulator.Memory.Sound.{IsSound}
use mips_emulator.Memory.Range.{bytes_written}
use mips_emulator.Memory.Loads.{AllBytes, set_memory_range-IsSound}
use mips_emulator.State.{State}
use mips_emulator.State.Sane.{IsSane, with_memory-IsSane}
use mips_emulator.Stack.{store_bytes}
use mips_emulator.Loader.{
  ElfBytes, Symbol, expect, is_patched, same_name, patch_of, patch_symbol, patch_named,
  patch_symbols, patch_go,
}

-- The functions that are made to return at once.
abbrev pub stubbed : List String
stubbed =
    "runtime.gcenable" ∷ "runtime.init.5" ∷ "runtime.main.func1" ∷ "runtime.deductSweepCredit"
    ∷ "runtime.(*gcControllerState).commit" ∷ "github.com/prometheus/client_golang/prometheus.init"
    ∷ "github.com/prometheus/client_golang/prometheus.init.0" ∷ "github.com/prometheus/procfs.init"
    ∷ "github.com/prometheus/common/model.init" ∷ "github.com/prometheus/client_model/go.init"
    ∷ "github.com/prometheus/client_model/go.init.0"
    ∷ "github.com/prometheus/client_model/go.init.1" ∷ "flag.init" ∷ "runtime.check" ∷ []

listed : String → List String → Bool
listed name [] = false
listed name (x ∷ xs) =
    elim (compare_String name x) [ Ordering.eq ↦ true | _ ↦ false ] || listed name xs

-- The bytes at a symbol of that name: the words `jr $ra` and `nop` at such a function, the word 0 at
-- the profile rate, and nothing elsewhere or where there is no name.
unfoldable pub bytes_of : Option String → Bytes
unfolding listed
bytes_of none = []
bytes_of (some name) =
    if listed name stubbed
    then to_be_bytes 4 0x03e0_0008 ++ to_be_bytes 4 0
    else if listed name ("runtime.MemProfileRate" ∷ [])
    then to_be_bytes 4 0
    else []

or_false : (b : Bool) → (b || false) ≡ b
or_false true = refl
or_false false = refl

or_assoc : (a b c : Bool) → ((a || b) || c) ≡ (a || (b || c))
or_assoc true b c = refl
or_assoc false b c = refl

listed-stubbed : (name : String) → listed name stubbed ≡ is_patched name
unfolding listed is_patched
listed-stubbed name = simp (or_assoc, or_false) refl

listed_rate :
    (name : String)
    → listed name ("runtime.MemProfileRate" ∷ []) ≡ same_name name "runtime.MemProfileRate"
unfolding listed
listed_rate name = or_false (same_name name "runtime.MemProfileRate")

bytes_of_lem : (name : String) → bytes_of (some name) ≡ patch_of name
unfolding bytes_of patch_of to_be_bytes
bytes_of_lem name = rw (listed-stubbed name, listed_rate name) refl

-- The bytes of memory after the patches, the later over the earlier.
unfoldable pub patched : ElfBytes → List Symbol → (ℕ → ℕ) → ℕ → ℕ
patched f [] before = before
patched f (symbol ∷ symbols) before =
    patched f symbols (bytes_written symbol.st_value (bytes_of (f.name_at symbol.st_name)) before)

-- No symbol is within 8 bytes of 2^32.
abbrev pub AllBelow : List Symbol → Type 0
AllBelow [] = Unit {0}
AllBelow (symbol ∷ symbols) = (symbol.st_value + 8 < 2 ^ 32) × AllBelow symbols

patch_of-AllBytes : (name : String) → AllBytes (patch_of name)
unfolding patch_of
patch_of-AllBytes name = elim (Bool-cases (is_patched name)) [
  | inl e ↦ rw e (
    omega arith,
    (
      omega arith,
      (omega arith, (omega arith, (omega arith, (omega arith, (omega arith, (omega arith, tt)))))),
    ),
  )
  | inr e ↦ elim (Bool-cases (same_name name "runtime.MemProfileRate")) [
    | inl g ↦ rw (e, g) (omega arith, (omega arith, (omega arith, (omega arith, tt))))
    | inr g ↦ rw (e, g) tt
  ]
]

length-patch_of : (name : String) → length (patch_of name) < 9
unfolding patch_of
length-patch_of name = elim (Bool-cases (is_patched name)) [
  | inl e ↦ rw e (omega arith)
  | inr e ↦ elim (Bool-cases (same_name name "runtime.MemProfileRate")) [
    | inl g ↦ rw (e, g) (omega arith)
    | inr g ↦ rw (e, g) (omega arith)
  ]
]

nothing_written : (a b : ℕ) (g : ℕ → ℕ) → bytes_written a [] g b ≡ g b
unfolding bytes_written
nothing_written a b g = ground arith

module _ (platform : Platform) where
  -- A symbol's patch.
  Patched : Bytes → ℕ → Memory → Outcome Memory → Type 0
  Patched r a m call =
      (m' : Memory) × (call ≡ done m')
      × ((b : ℕ) → view m' b ≡ bytes_written a r (view m) b)
      × IsSound platform m'

  not_patched :
      (name : String)
      → (is_patched name || same_name name "runtime.MemProfileRate") ≡ false
      → patch_of name ≡ []
  unfolding patch_of
  not_patched name g = elim (Bool-cases (is_patched name)) [
    | inl e ↦ absurd (ground arith)
    | inr e ↦ elim (Bool-cases (same_name name "runtime.MemProfileRate")) [
      | inl h ↦ absurd (ground arith)
      | inr h ↦ rw (e, h) refl
    ]
  ]

  patch_named_lem :
      (name : Option String) (a : ℕ) {m : Memory}
      → a + 8 < 2 ^ 32
      → IsSound platform m
      → Patched (bytes_of name) a m (patch_named platform name a m)
  unfolding Patched patch_named bytes_of store_bytes
  patch_named_lem none a {m} small ok = (m, refl, λ b. sym (nothing_written a b (view m)), ok)
  patch_named_lem (some name) a {m} small ok =
      elim (Bool-cases (is_patched name || same_name name "runtime.MemProfileRate")) [
        | inl g ↦
            let whole : a % 2 ^ 32 ≡ a = omega arith in
            let (m', run, bytes, ok') =
              set_memory_range-IsSound platform (length (patch_of name) + 1) a (patch_of name)
                {m = m} (omega (arith, length-patch_of name)) (omega arith) (patch_of-AllBytes name)
                ok in
            (m', opened name g whole ∙ run, λ b. bytes b ∙ renamed name a b m, ok')
        | inr g ↦ (
          m,
          rw g refl,
          λ b. sym (
              ap (λ (r : Bytes). bytes_written a r (view m) b)
                (bytes_of_lem name ∙ not_patched name g)
              ∙ nothing_written a b (view m)),
          ok,
        )
      ]
    where
      renamed :
          (name : String) (a b : ℕ) (m : Memory)
          → bytes_written a (patch_of name) (view m) b
            ≡ bytes_written a (bytes_of (some name)) (view m) b
      renamed name a b m =
          ap (λ (r : Bytes). bytes_written a r (view m) b) (sym (bytes_of_lem name))

      opened :
          (name : String)
          → (is_patched name || same_name name "runtime.MemProfileRate") ≡ true
          → a % 2 ^ 32 ≡ a
          → patch_named platform (some name) a m
            ≡ set_memory_range platform (length (patch_of name) + 1) a (patch_of name) m
      opened name g whole = rw (g, whole) refl

  patch_symbols_lem :
      (f : ElfBytes) (symbols : List Symbol) {m : Memory}
      → AllBelow symbols
      → IsSound platform m
      → (m' : Memory) × (patch_symbols platform f symbols m ≡ done m')
        × ((b : ℕ) → view m' b ≡ patched f symbols (view m) b)
        × IsSound platform m'
  unfolding patch_symbols patched Patched
  patch_symbols_lem f [] {m} below ok = (m, refl, λ b. refl, ok)
  patch_symbols_lem f (symbol ∷ symbols) {m} below ok =
      let (m1, run, bytes, ok1) =
        patch_named_lem (f.name_at symbol.st_name) symbol.st_value {m = m} below.0 ok in
      let (m2, run2, bytes2, ok2) = patch_symbols_lem f symbols {m = m1} below.1 ok1 in
      (
        m2,
        bind_done (patch_symbol platform f symbol m) _ run ∙ run2,
        λ b. bytes2 b ∙ ap (λ (g : ℕ → ℕ). patched f symbols g b) (fun_ext bytes),
        ok2,
      )

  -- `patch_go` of a sane state succeeds, where the file has a symbol table and no symbol is within
  -- 8 bytes of 2^32: the memory alone changes, each of the 14 functions named for patching starts
  -- with the words `jr $ra` and `nop`, the profile rate is the word 0, nothing is written at any
  -- other symbol, later symbols go over earlier, and the state is sane.
  pub patch_go_lem :
      (f : ElfBytes) {symbols : List Symbol} (s : State)
      → f.symbols ≡ some symbols
      → AllBelow symbols
      → IsSane platform s
      → (s' : State) × (patch_go platform f s ≡ done s')
        × IsSane platform s'
        × ((b : ℕ) → view s'.memory b ≡ patched f symbols (view s.memory) b)
        × (s' ≡ record s { memory = s'.memory })
  unfolding patch_go
  patch_go_lem f {symbols} s found below ok =
      let (m, run, bytes, sound) = patch_symbols_lem f symbols below ok.memory in
      (
        record s { memory = m },
        bind_done (expect f.symbols) _ (ap expect found)
            ∙ bind_done (patch_symbols platform f symbols s.memory) _ run,
        with_memory-IsSane platform m sound ok,
        bytes,
        refl,
      )
