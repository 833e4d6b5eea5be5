-- ===== src/Table/OnHeap/Gathers.antt =====
-- The updates for the readers, read through the pointers of the change list.
use ribdriver.Base.{
  ℕ, ◌≡◌, sym, ◌∙◌, ap, Bool, true, false, Option, none, some, List, [], ◌∷◌, ◌++◌, map, arith,
  length, take, Option-cases, inl, inr,
}
use ribdriver.Memory.{Ptr, null, Bytes, Heap, done, memcpy}
use ribdriver.Memory.Chain.{
  Cell, Chain, first, values, load_ll-IsList, load_node-Holds, load_block-Holds,
}
use ribdriver.Table.{
  Layout, Entry, sizeof_entry, Preserved, Update, Table, gather, Vector, null as no_vector, freed,
  live, rt_get_updated_rt_entries,
}
use ribdriver.Table.OnHeap.{
  entry_bytes, preserved_bytes, sizeof_preserved, update_bytes, gather_nodes, get_updated_entries,
}
use ribdriver.Table.OnHeap.Encoded.{
  take-entry_bytes, length-entry_bytes, length-preserved_bytes, take-preserved_bytes,
  take-preserved_bytes_code, entry_pointer-preserved_bytes,
}
use ribdriver.Table.OnHeap.Stored.{Stores, IsAt, ArePreserved, load_block-IsAt, length-changes}

memcpy-whole :
    (h : Heap) (b : Bytes) (n : ℕ) → length b ≡ n → take n b ≡ b → memcpy b n h ≡ done b h
unfolding memcpy
memcpy-whole h b n same all = ground (arith, same, all)

-- What the loop appends for one preserved update.
update_bytes-preserved :
    (c : Preserved) (e : Entry)
    → take 4 (preserved_bytes c) ++ entry_bytes e
      ≡ update_bytes (record { op_code = c.op_code; entry = e })
unfolding update_bytes
update_bytes-preserved c e = ap (◌++ entry_bytes e) (take-preserved_bytes_code c)

length-gather :
    (cs : List Preserved) (memory : Ptr → Option Entry) (us : List Update)
    → gather cs memory ≡ some us
    → length us ≡ length cs
length-gather [] memory us got = ground (arith, got)
length-gather (c ∷ cs) memory us got = elim (Option-cases (memory c.entry)) [
  | inl gone ↦ absurd (ground (arith, got, gone))
  | inr (e, is) ↦ elim (Option-cases (gather cs memory)) [
    | inl gone ↦ absurd (ground (arith, got, is, gone))
    | inr (vs, rest) ↦ ground (arith, got, is, rest, length-gather cs memory vs rest)
  ]
]

-- What the vector holds.
abbrev pub vector_bytes : Vector → Option (List Bytes)
vector_bytes no_vector = none
vector_bytes freed = none
vector_bytes (live us) = some (map update_bytes us)

module _ {h : Heap} ⦃lay : Layout⦄ where
  gather_nodes-gather :
      (xs : List Cell) (cs : List Preserved) (memory : Ptr → Option Entry) (us : List Update)
      → Chain h xs null
      → values xs ≡ map preserved_bytes cs
      → ArePreserved cs
      → ((p : Ptr) (e : Entry) → memory p ≡ some e → IsAt h p e)
      → gather cs memory ≡ some us
      → gather_nodes (length xs) (first xs null) h ≡ done (map update_bytes us) h
  unfolding gather_nodes
  gather_nodes-gather [] [] memory us ch same ok at got = ground (arith, got)
  gather_nodes-gather [] (c ∷ cs) memory us ch same ok at got = cc
  gather_nodes-gather (x ∷ xs) [] memory us ch same ok at got = cc
  gather_nodes-gather (x ∷ xs) (c ∷ cs) memory us (here, ch) same (pc, ok) at got =
      elim (Option-cases (memory c.entry)) [
        | inl gone ↦ absurd (ground (arith, got, gone))
        | inr (e, is) ↦ elim (Option-cases (gather cs memory)) [
          | inl gone ↦ absurd (ground (arith, got, is, gone))
          | inr (vs, rest) ↦
              let bytes : x.bytes ≡ preserved_bytes c = cc in
              let total : record { op_code = c.op_code; entry = e } ∷ vs ≡ us =
                ground (arith, got, is, rest) in
              let stored = at c.entry e is in
              rw
                (
                  load_node-Holds here,
                  load_block-Holds here,
                  bytes,
                  memcpy-whole h (preserved_bytes c) sizeof_preserved (length-preserved_bytes c)
                      (take-preserved_bytes c),
                  entry_pointer-preserved_bytes c pc,
                  load_block-IsAt stored,
                  memcpy-whole h (entry_bytes e) sizeof_entry (length-entry_bytes e stored.whole)
                      (take-entry_bytes e stored.whole),
                  gather_nodes-gather xs cs memory vs ch (cc) ok at rest,
                  update_bytes-preserved c e,
                )
                (ap (λ ws. done (map update_bytes ws) h) total)
        ]
      ]

  -- When Table's function reads no freed entry, `rt_get_updated_rt_entries` on the heap ends without
  -- a fault, leaves the heap as it is, and returns the bytes of the same vector with the same count.
  pub get_updated_entries-refines :
      {rt_ll change_ll : Ptr} {t : Table} (no_mem : Bool) (v : Vector) (n : ℕ)
      → Stores h rt_ll change_ll t
      → rt_get_updated_rt_entries no_mem t ≡ some (v, n)
      → get_updated_entries no_mem change_ll h ≡ done (vector_bytes v, n) h
  unfolding get_updated_entries rt_get_updated_rt_entries
  get_updated_entries-refines {t} true v n s got =
      let found : (no_vector, 0) ≡ (v, n) = cc in
      rw (load_ll-IsList s.change_list)
        (ap (λ (r : Vector × ℕ). done (vector_bytes r.0, r.1) h) found)
  get_updated_entries-refines {t} false v n s got =
      elim (Option-cases (gather t.rt_change_list t.memory)) [
        | inl gone ↦ absurd (ground (arith, got, gone))
        | inr (us, is) ↦
            let found : (live us, length us) ≡ (v, n) = ground (arith, got, is) in
            let same : length s.change_cells ≡ length us =
              length-changes s.change_cells t.rt_change_list s.changes
              ∙ sym (length-gather t.rt_change_list t.memory us is) in
            rw
              (
                load_ll-IsList s.change_list,
                gather_nodes-gather s.change_cells t.rt_change_list t.memory us s.change_list.chain
                    s.changes s.pointers s.entries is,
                same,
              )
              (ap (λ (r : Vector × ℕ). done (vector_bytes r.0, r.1) h) found)
      ]
