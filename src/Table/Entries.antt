-- ===== src/Table/Entries.antt =====
-- The entries of the table: what looking up, deleting and copying them to a user do.
use native.Mathlib.Nat.{div-mul-le_self, lt-div-mul-add, mul-le-mul_right, le_trans}
use ribdriver.Base.{
  ℕ, suc, zero, ◌+◌, ◌/◌, ◌*◌, ◌≤◌, ◌≡◌, refl, ◌≢◌, Bool, true, false, Option, none, some, List, [],
  ◌∷◌, ◌==◌, arith, if◌then◌else◌, length, take, Option-cases, inl, inr, ltb, Bool-cases, ◌<◌, ◌⊎◌,
}
use ribdriver.Memory.{Ptr, Bytes, update}
use ribdriver.Table.{
  Layout, Entry, Table, sizeof_entry, overwrite_key, lookup_loop, lookup_rt_table, read_entries,
  copy_rt_table_to_user_space,
}

-- The block at `p` is live, and so are those of the list.
abbrev pub Live : List Ptr → (Ptr → Option Entry) → Type 0
Live [] memory = Unit
Live (p ∷ ps) memory = (memory p ≢ none) × Live ps memory

abbrev pub listed : Ptr → List Ptr → Bool
listed p [] = false
listed p (q ∷ qs) = if p == q then true else listed p qs

Live-update :
    (ps : List Ptr) (memory : Ptr → Option Entry) (p : Ptr) (e : Entry)
    → Live ps memory
    → Live ps (update memory p (some e))
Live-update [] memory p e l = tt
Live-update (q ∷ qs) memory p e (x, l) = (ground arith, Live-update qs memory p e l)

-- The key field of a listed entry after the look-up, and the entries of the other blocks.
lookup_loop-keys :
    (ip_key : Bytes) (ps : List Ptr) (memory : Ptr → Option Entry)
    → Live ps memory
    → (memory' : Ptr → Option Entry) × (lookup_loop ip_key ps memory ≡ some (none, memory'))
      × ((p : Ptr) → listed p ps ≡ false → memory' p ≡ memory p)
      × ((p : Ptr) (e : Entry)
          → memory p ≡ some e
          → memory' p ≡ some (if listed p ps then overwrite_key ip_key e else e))
unfolding lookup_loop overwrite_key
lookup_loop-keys ip_key [] memory l = (memory, refl, (λ p h. refl), λ p e h. h)
lookup_loop-keys ip_key (q ∷ qs) memory (x, l) = elim (Option-cases (memory q)) [
  | inl dead ↦ absurd (x dead)
  | inr (e, at_q) ↦
      let (memory', ran, others, keys) =
        lookup_loop-keys ip_key qs (update memory q (some (overwrite_key ip_key e)))
          (Live-update qs memory q (overwrite_key ip_key e) l) in
      (
        memory',
        rw (at_q, lookup_loop) ran,
        (λ p h. ground (arith, others p)),
        λ p e' h. ground (arith, keys p (overwrite_key ip_key e), keys p e'),
      )
]

-- `lookup_rt_table` finds no entry, whatever the key and whatever the table holds, so long as its
-- blocks are live: it returns NULL. It writes the key, filled up to 16 bytes, into `dst_ip` of
-- every entry of the table, and leaves the entries' other fields, the blocks outside the table and
-- the lists.
pub lookup_rt_table-null :
    (ip_key : Bytes) (t : Table)
    → Live t.rt t.memory
    → (memory' : Ptr → Option Entry) × (lookup_rt_table ip_key t
        ≡ some (none, record t { memory = memory' }))
      × ((p : Ptr) → listed p t.rt ≡ false → memory' p ≡ t.memory p)
      × ((p : Ptr) (e : Entry)
          → listed p t.rt ≡ true
          → t.memory p ≡ some e
          → memory' p ≡ some (overwrite_key ip_key e))
unfolding lookup_rt_table
lookup_rt_table-null ip_key t l =
    let (memory', ran, others, keys) = lookup_loop-keys ip_key t.rt t.memory l in
    (memory', rw (ran, lookup_rt_table), others, λ p e i h. ground (arith, keys p e))

-- The entries of a live table, in order.
abbrev pub AreEntries : List Ptr → (Ptr → Option Entry) → List Entry → Type 0
AreEntries [] memory es = es ≡ []
AreEntries (p ∷ ps) memory [] = ⊥
AreEntries (p ∷ ps) memory (e ∷ es) = (memory p ≡ some e) × AreEntries ps memory es

read_entries-take :
    (n : ℕ) (ps : List Ptr) (memory : Ptr → Option Entry) (es : List Entry)
    → AreEntries ps memory es
    → read_entries n ps memory ≡ some (take n es)
read_entries-take zero ps memory es a = refl
read_entries-take (suc n) [] memory es a = rw a refl
read_entries-take (suc n) (p ∷ ps) memory [] a = absurd a
read_entries-take (suc n) (p ∷ ps) memory (e ∷ es) (x, a) =
    ground (arith, read_entries-take n ps memory es a)

-- How many entries of `size` bytes fit into `bytes`, of `n` that there are.
abbrev fitting : (bytes size n : ℕ) → ℕ
fitting bytes size n = if ltb (bytes / size) n then bytes / size else n

fitting_bounds :
    (bytes size n : ℕ)
    → 0 < size
    → (fitting bytes size n * size ≤ bytes)
      × (fitting bytes size n ≤ n)
      × (bytes < (fitting bytes size n + 1) * size ⊎ (fitting bytes size n ≡ n))
fitting_bounds bytes size n pos = elim (Bool-cases (ltb (bytes / size) n)) [
  | inl few ↦ rw few (
    div-mul-le_self bytes size,
    ground arith,
    inl (omega (arith, lt-div-mul-add {a = bytes} pos)),
  )
  | inr all ↦ rw all (
    le_trans (mul-le-mul_right size (ground arith)) (div-mul-le_self bytes size),
    omega arith,
    inr refl,
  )
]

module _ ⦃lay : Layout⦄ where
  -- For a good user pointer, `copy_rt_table_to_user_space` copies the first entries of the table,
  -- as many as fit into the buffer, and returns their number; no more than `buf_size` bytes are
  -- written. For a bad pointer it copies nothing and returns 0.
  pub copy_rt_table-take :
      (access_ok : Bool) (buf_size : ℕ) (t : Table) (es : List Entry)
      → AreEntries t.rt t.memory es
      → (n : ℕ) × (copy_rt_table_to_user_space access_ok buf_size t ≡ some (take n es, n))
        × (n * sizeof_entry ≤ buf_size)
        × (n ≤ length t.rt)
        × (access_ok ≡ false → n ≡ 0)
        × (access_ok ≡ true → buf_size < (n + 1) * sizeof_entry ⊎ (n ≡ length t.rt))
  unfolding copy_rt_table_to_user_space
  copy_rt_table-take access_ok buf_size t es a = elim (Bool-cases access_ok) [
    | inl good ↦
        let units : ℕ = fitting buf_size sizeof_entry (length t.rt) in
        let (within, few, full) =
          fitting_bounds buf_size sizeof_entry (length t.rt) (omega arith) in
        (
          units,
          ground (arith, read_entries-take units t.rt t.memory es a),
          within,
          few,
          ground arith,
          λ _. full,
        )
    | inr bad ↦ (0, ground arith, omega arith, omega arith, (λ _. refl), λ ok. cc)
  ]
