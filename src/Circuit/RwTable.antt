-- ===== src/Circuit/RwTable.antt =====
-- zkmips-circuits/src/table/rw_table.rs: the rows of the read-write table. A row is a memory access
-- of the emulator, or a default one in front of them.
use mips_emulator.Prelude.{ℕ, ◌-◌, ◌≤◌, ◌<◌, ◌≡◌, refl, arith, inl, inr, ◌⊎◌}
use mips_emulator.Prelude.{
  Bool, true, false, ◌&&◌, ◌||◌, Bool-cases, List, [], ◌∷◌, ◌++◌, length, replicate,
}
use mips_emulator.Prelude.{◌==◌, ◌!=◌, ltb, leb, if◌then◌else◌, length-append, length-replicate}
use mips_emulator.Prelude.{◌>>=◌}
use mips_emulator.Prelude.{Outcome, done, panic}
use mathlib.Core.List.{Perm}
use mathlib.Core.List.Perm
use mips_emulator.Witness.{MemoryAccess, MemoryOperation, default_access}
use mips_emulator.Circuit.Field.{Field, int_to_field}

-- `RwRow<Value<F>>`.
pub record RwRow (field : Field) : Type 0 where
  pub rw_counter : field.F
  pub is_write : field.F
  pub address : field.F
  pub value : field.F
  pub value_prev : field.F
  pub init_value : field.F

unfoldable pub table_assignment : (field : Field) → MemoryAccess → RwRow field
table_assignment field mem_access = record {
  rw_counter = int_to_field field 64 mem_access.rw_counter;
  is_write = elim mem_access.op [ MemoryOperation.write ↦ field.one_f | _ ↦ field.zero_f ];
  address = int_to_field field 32 mem_access.addr;
  value = int_to_field field 32 mem_access.value;
  value_prev = int_to_field field 32 mem_access.value_prev;
  init_value = field.zero_f;
}

unfoldable pub padding_len : ℕ → ℕ → Outcome ℕ
padding_len rows_len target_len =
    if ltb rows_len target_len
    then done (target_len - rows_len)
    else if target_len != 0
    then panic
    else done 1

unfoldable pub table_assignments_prepad : List MemoryAccess → ℕ → Outcome (List MemoryAccess × ℕ)
table_assignments_prepad rows target_len = do
  padding_length ← padding_len (length rows) target_len
  done (replicate padding_length default_access ++ rows, padding_length)

-- The order of the keys `(addr, rw_counter)`.
unfoldable pub key_leb : MemoryAccess → MemoryAccess → Bool
key_leb a b = ltb a.addr b.addr || (a.addr == b.addr && leb a.rw_counter b.rw_counter)

unfoldable pub insert_row : MemoryAccess → List MemoryAccess → List MemoryAccess
insert_row row [] = row ∷ []
insert_row row (r ∷ rows) = if key_leb row r then row ∷ r ∷ rows else r ∷ insert_row row rows

-- `sort_by_key`, which is stable.
unfoldable pub table_assignments : List MemoryAccess → List MemoryAccess
table_assignments [] = []
table_assignments (r ∷ rows) = insert_row r (table_assignments rows)

-- What `assign` writes for each row, in order of the offsets.
unfoldable pub assigned_rows : (field : Field) → List MemoryAccess → List (RwRow field)
assigned_rows field [] = []
assigned_rows field (row ∷ rows) = table_assignment field row ∷ assigned_rows field rows

unfoldable pub load_with_region :
    (field : Field) → List MemoryAccess → ℕ → Outcome (List (RwRow field))
load_with_region field rws n_rows = do
  (rows, padding) ← table_assignments_prepad rws n_rows
  done (assigned_rows field rows)

-- Padding gives the target length, one row more where the target is 0, or panics.
table_assignments_prepad_lem :
    (rows : List MemoryAccess) (target_len : ℕ)
    → ((length rows < target_len)
        × (table_assignments_prepad rows target_len
            ≡ done (
              replicate (target_len - length rows) default_access ++ rows,
              target_len - length rows,
            ))
        × (length (replicate (target_len - length rows) default_access ++ rows) ≡ target_len))
      ⊎ ((target_len ≡ 0)
          × (table_assignments_prepad rows target_len ≡ done (default_access ∷ rows, 1)))
      ⊎ ((0 < target_len)
          × (target_len ≤ length rows)
          × (table_assignments_prepad rows target_len ≡ panic))
unfolding table_assignments_prepad padding_len
table_assignments_prepad_lem rows target_len = elim (Bool-cases (ltb (length rows) target_len)) [
  | inl e ↦
      let less : length rows < target_len = ground arith in
      inl (
        less,
        rw e refl,
        omega (
          arith,
          length-append (replicate (target_len - length rows) default_access) rows,
          length-replicate (target_len - length rows) default_access,
        ),
      )
  | inr e ↦ elim (Bool-cases (target_len != 0)) [
    | inl f ↦ inr (inr (ground arith, ground arith, rw (e, f) refl))
    | inr f ↦ inr (inl (ground arith, rw (e, f) refl))
  ]
]

-- The keys do not descend, from one that is not above them.
abbrev pub AllAbove : MemoryAccess → List MemoryAccess → Type 0
AllAbove a [] = Unit {0}
AllAbove a (r ∷ rows) = (key_leb a r ≡ true) × AllAbove a rows

abbrev pub IsSorted : List MemoryAccess → Type 0
IsSorted [] = Unit {0}
IsSorted (r ∷ rows) = AllAbove r rows × IsSorted rows

key_leb_trans :
    (a b c : MemoryAccess) → key_leb a b ≡ true → key_leb b c ≡ true → key_leb a c ≡ true
unfolding key_leb
key_leb_trans a b c p q = ground arith

key_leb_total : (a b : MemoryAccess) → key_leb a b ≡ false → key_leb b a ≡ true
unfolding key_leb
key_leb_total a b p = ground arith

AllAbove-trans :
    (a b : MemoryAccess) (rows : List MemoryAccess)
    → key_leb a b ≡ true
    → AllAbove b rows
    → AllAbove a rows
AllAbove-trans a b [] p h = tt
AllAbove-trans a b (r ∷ rows) p h = (key_leb_trans a b r p h.0, AllAbove-trans a b rows p h.1)

insert_row-AllAbove :
    (a row : MemoryAccess) (rows : List MemoryAccess)
    → key_leb a row ≡ true
    → AllAbove a rows
    → AllAbove a (insert_row row rows)
unfolding insert_row
insert_row-AllAbove a row [] p h = (p, tt)
insert_row-AllAbove a row (r ∷ rows) p h = elim (Bool-cases (key_leb row r)) [
  | inl e ↦ rw e (p, h)
  | inr e ↦ rw e (h.0, insert_row-AllAbove a row rows p h.1)
]

insert_row-IsSorted :
    (row : MemoryAccess) (rows : List MemoryAccess) → IsSorted rows → IsSorted (insert_row row rows)
unfolding insert_row
insert_row-IsSorted row [] h = (tt, tt)
insert_row-IsSorted row (r ∷ rows) h = elim (Bool-cases (key_leb row r)) [
  | inl e ↦ rw e ((e, AllAbove-trans row r rows e h.0), h)
  | inr e ↦
      rw e (
        insert_row-AllAbove r row rows (key_leb_total row r e) h.0,
        insert_row-IsSorted row rows h.1,
      )
]

insert_row-perm :
    (row : MemoryAccess) (rows : List MemoryAccess) → Perm (insert_row row rows) (row ∷ rows)
unfolding insert_row
insert_row-perm row [] = Perm.refl (row ∷ [])
insert_row-perm row (r ∷ rows) = elim (Bool-cases (key_leb row r)) [
  | inl e ↦ rw e (Perm.refl (row ∷ r ∷ rows))
  | inr e ↦ rw e (Perm.trans (Perm.cons r (insert_row-perm row rows)) (Perm.swap row r rows))
]

-- Sorting keeps the rows and puts them in order.
table_assignments_lem :
    (rows : List MemoryAccess)
    → IsSorted (table_assignments rows) × Perm (table_assignments rows) rows
unfolding table_assignments
table_assignments_lem [] = (tt, Perm.refl [])
table_assignments_lem (r ∷ rows) =
    let (sorted, same) = table_assignments_lem rows in
    (
      insert_row-IsSorted r (table_assignments rows) sorted,
      Perm.trans (insert_row-perm r (table_assignments rows)) (Perm.cons r same),
    )
