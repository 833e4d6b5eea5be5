-- ===== src/Table/Changes.antt =====
-- The change list and the blocks that it points to: when the readers' vector can be gathered.
use ribdriver.Base.{
  suc, ◌≡◌, refl, ◌≢◌, false, Option, none, some, List, [], ◌∷◌, arith, length, Option-cases, inl,
  inr,
}
use ribdriver.Memory.{Ptr, update}
use ribdriver.Table.{
  Layout, Entry, Update, Preserved, Table, live, add_rt_table_entry_by_val, purge_rt_table,
  free_all, gather, rt_get_updated_rt_entries,
}

-- Every change points to a live block.
abbrev pub Live : List Preserved → (Ptr → Option Entry) → Type 0
Live [] memory = Unit
Live (c ∷ cs) memory = (memory c.entry ≢ none) × Live cs memory

-- No change points to `p`.
abbrev pub Unused : Ptr → List Preserved → Type 0
Unused p [] = Unit
Unused p (c ∷ cs) = (c.entry ≢ p) × Unused p cs

gather-update :
    (cs : List Preserved) (memory : Ptr → Option Entry) (p : Ptr) (e : Option Entry)
    → Unused p cs
    → gather cs (update memory p e) ≡ gather cs memory
gather-update [] memory p e u = refl
gather-update (c ∷ cs) memory p e (ne, u) = ground (arith, gather-update cs memory p e u)

Live-Unused :
    (cs : List Preserved) (memory : Ptr → Option Entry) (p : Ptr)
    → Live cs memory
    → memory p ≡ none
    → Unused p cs
Live-Unused [] memory p l free = tt
Live-Unused (c ∷ cs) memory p (x, l) free = (ground arith, Live-Unused cs memory p l free)

pub gather_total :
    (cs : List Preserved) (memory : Ptr → Option Entry)
    → Live cs memory
    → (us : List Update) × (gather cs memory ≡ some us) × (length us ≡ length cs)
gather_total [] memory l = ([], refl, refl)
gather_total (c ∷ cs) memory (x, l) = elim (Option-cases (memory c.entry)) [
  | inl dead ↦ absurd (x dead)
  | inr (e, at_c) ↦
      let (us, got, same) = gather_total cs memory l in
      (record { op_code = c.op_code; entry = e } ∷ us, ground arith, omega (arith, same))
]

pub gather_nonempty :
    (cs : List Preserved) (memory : Ptr → Option Entry) (us : List Update)
    → length cs ≢ 0
    → gather cs memory ≡ some us
    → us ≢ []
gather_nonempty [] memory us some_in got = absurd (some_in refl)
gather_nonempty (c ∷ cs) memory us some_in got = elim (Option-cases (memory c.entry)) [
  | inl gone ↦ absurd (ground (arith, got, gone))
  | inr (e, is) ↦ elim (Option-cases (gather cs memory)) [
    | inl gone ↦ absurd (ground (arith, got, is, gone))
    | inr (vs, rest) ↦
        let front : record { op_code = c.op_code; entry = e } ∷ vs ≡ us =
          ground (arith, got, is, rest) in
        λ none_in. cc
  ]
]

module _ ⦃lay : Layout⦄ where
  pub gather-added :
      (fresh : Ptr) (entry : Entry) (t : Table) (us : List Update)
      → Live t.rt_change_list t.memory
      → t.memory fresh ≡ none
      → gather t.rt_change_list t.memory ≡ some us
      → let t' : Table = add_rt_table_entry_by_val fresh entry t in
        gather t'.rt_change_list t'.memory
        ≡ some (record { op_code = lay.route_add; entry = entry } ∷ us)
  unfolding add_rt_table_entry_by_val
  gather-added fresh entry t us l free got = ground (
    arith,
    gather-update t.rt_change_list t.memory fresh (some entry)
        (Live-Unused t.rt_change_list t.memory fresh l free),
  )

  -- While every change points to a live entry, adding an entry in an unused block keeps that so,
  -- and the readers' vector is the new entry, as an addition, in front of the vector that there
  -- was.
  pub added_then_gathered :
      (fresh : Ptr) (entry : Entry) (t : Table) (us : List Update)
      → Live t.rt_change_list t.memory
      → t.memory fresh ≡ none
      → gather t.rt_change_list t.memory ≡ some us
      → let t' : Table = add_rt_table_entry_by_val fresh entry t in
        Live t'.rt_change_list t'.memory
        × (rt_get_updated_rt_entries false t'
            ≡ some (live (record { op_code = lay.route_add; entry = entry } ∷ us), suc (length us)))
  unfolding add_rt_table_entry_by_val rt_get_updated_rt_entries
  added_then_gathered fresh entry t us l free got = (
    (ground arith, Live-update t.rt_change_list t.memory l),
    ground (arith, gather-added fresh entry t us l free got),
  )
    where
      Live-update :
          (cs : List Preserved) (memory : Ptr → Option Entry)
          → Live cs memory
          → Live cs (update memory fresh (some entry))
      Live-update [] memory l = tt
      Live-update (c ∷ cs) memory (x, l) = (ground arith, Live-update cs memory l)

free_all-none :
    (ps : List Ptr) (memory : Ptr → Option Entry) (p : Ptr)
    → memory p ≡ none
    → free_all ps memory p ≡ none
free_all-none [] memory p h = h
free_all-none (q ∷ ps) memory p h = free_all-none ps (update memory q none) p (ground arith)

module _ ⦃lay : Layout⦄ where
  -- If the table is purged after an entry was added by value and before the change list was
  -- emptied, the next gathering of updates reads the freed entry.
  pub purge_dangles :
      (fresh : Ptr) (entry : Entry) (t : Table)
      → rt_get_updated_rt_entries false (purge_rt_table (add_rt_table_entry_by_val fresh entry t))
        ≡ none
  unfolding add_rt_table_entry_by_val rt_get_updated_rt_entries purge_rt_table
  purge_dangles fresh entry t =
      ground
        (arith, free_all-none t.rt (update (update t.memory fresh (some entry)) fresh none) fresh)
