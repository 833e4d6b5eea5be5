-- ===== src/Table/OnHeap/Deleting.antt =====
-- Deleting an entry by its key, on the heap and in the model.
use ribdriver.Base.{
  ℕ, ◌≤◌, ◌≡◌, refl, ◌≢◌, sym, ap, ◌∙◌, true, Option, none, some, List, [], ◌∷◌, arith, length,
  Bool-cases, Option-cases, inl, inr, if◌then◌else◌,
}
use ribdriver.Memory.{Ptr, null, Bytes, Heap}
use ribdriver.Memory.Total
use ribdriver.Memory.Total.{Ends}
use ribdriver.Memory.Chain.{Cell, Chain, IsList-frame, has_block, values}
use ribdriver.Table.{Layout, Entry, Table, has_key, delete_loop, delete_rt_table_entry}
use ribdriver.Table.Entries.{Live}
use ribdriver.LinkedList.Find.{
  Wide, Erased, matches, kept, owned, holds_value, delete_node_by_value-Erased,
}
use ribdriver.Table.OnHeap.{entry_bytes, delete_entry}
use ribdriver.Table.OnHeap.Encoded.{IsEntry, take-entry_bytes_key, entry_bytes-wide}
use ribdriver.Table.OnHeap.Stored.{Stores, IsAt, blocks_of}
use ribdriver.Table.OnHeap.Owned.{Backed, Chain-Backed, Backed-kept, Backed-agree, blocks_of-owned}

-- The key is found at a cell's entry when it is found at the start of its bytes.
abbrev Compared : Bytes → List Cell → (Ptr → Option Entry) → Type 0
Compared key [] memory = Unit
Compared key (c ∷ xs) memory =
    (has_key key (memory c.block) ≡ matches key 16 c.bytes) × Compared key xs memory

-- What the model's loop has done to the blocks of `xs`: it returns `rest`, `after` and `n`.
record Deleted (key : Bytes) (xs : List Cell) (memory : Ptr → Option Entry) (rest : List Ptr)
    (after : Ptr → Option Entry) (n : ℕ) : Type 0 where
  blocks : blocks_of (kept key 16 xs) ≡ rest
  count : n ≡ (if holds_value key 16 (values xs) then 1 else 0)
  same : (p : Ptr) (e : Entry) → after p ≡ some e → memory p ≡ some e
  still :
      (p : Ptr) (e : Entry)
      → after p ≡ some e
      → has_block p xs ≡ true
      → has_block p (kept key 16 xs) ≡ true

delete_loop-Deleted :
    (key : Bytes) (xs : List Cell) (memory : Ptr → Option Entry)
    → Compared key xs memory
    → let r = delete_loop key (blocks_of xs) memory in Deleted key xs memory r.0 r.1 r.2
unfolding delete_loop
delete_loop-Deleted key [] memory cmp = record {
  blocks = refl;
  count = refl;
  same = λ p e q. q;
  still = λ p e q i. i;
}
delete_loop-Deleted key (c ∷ xs) memory (here, cmp) =
    let d = delete_loop-Deleted key xs memory cmp in
    elim (Bool-cases (matches key 16 c.bytes)) [
      | inl hit ↦
          rw (here, hit)
            (record {
              blocks = rw hit refl;
              count = rw hit refl;
              same = λ p e q. ground (arith, q);
              still = λ p e q i. ground (arith, q, i);
            })
      | inr miss ↦
          rw (here, miss)
            (record {
              blocks = rw miss (ap (c.block ∷◌) d.blocks);
              count = rw miss d.count;
              same = d.same;
              still = λ p e q i. ground (arith, i, d.still p e q);
            })
    ]

-- The cells of the table hold the model's entries.
module _ {h : Heap} ⦃lay : Layout⦄ {memory : Ptr → Option Entry} (key : Bytes)
    (at : (p : Ptr) (e : Entry) → memory p ≡ some e → IsAt h p e) where
  entry_of :
      (c : Cell)
      → h.blocks c.block ≡ some c.bytes
      → memory c.block ≢ none
      → (e : Entry) × (memory c.block ≡ some e) × IsEntry e × (c.bytes ≡ entry_bytes e)
  entry_of c here live = elim (Option-cases (memory c.block)) [
    | inl gone ↦ absurd (live gone)
    | inr (e, is) ↦
        let stored = at c.block e is in
        let same : some c.bytes ≡ some (entry_bytes e) = sym here ∙ stored.block_is in
        (e, is, stored.whole, cc)
  ]

  cells-Compared :
      (xs : List Cell) → Chain h xs null → Live (blocks_of xs) memory → Compared key xs memory
  cells-Compared [] ch l = tt
  cells-Compared (c ∷ xs) (here, ch) (live, l) =
      let (e, is, whole, bytes) = entry_of c here.block_is live in
      (rw (is, bytes, take-entry_bytes_key e whole) refl, cells-Compared xs ch l)

  cells-Wide : (xs : List Cell) → Chain h xs null → Live (blocks_of xs) memory → Wide 16 xs
  cells-Wide [] ch l = tt
  cells-Wide (c ∷ xs) (here, ch) (live, l) =
      let (e, is, whole, bytes) = entry_of c here.block_is live in
      (rw bytes (entry_bytes-wide e whole), cells-Wide xs ch l)

module _ {h g : Heap} {rt_ll change_ll : Ptr} ⦃lay : Layout⦄ {t : Table} {key : Bytes} {n : ℕ}
    (enough : 16 ≤ length key) (s : Stores h rt_ll change_ll t)
    (e : Erased key 16 enough h rt_ll s.rt_cells n g) {rest : List Ptr} {after : Ptr → Option Entry}
    {m : ℕ} (d : Deleted key s.rt_cells t.memory rest after m) where
  -- An entry that is left is where it was.
  left_IsAt : (p : Ptr) (v : Entry) → after p ≡ some v → IsAt g p v
  left_IsAt p v q =
      let was = s.entries p v (d.same p v q) in
      record { not_null = was.not_null; block_is = kept_block ∙ was.block_is; whole = was.whole }
    where
      backed : Backed h (owned s.rt_cells)
      backed = Chain-Backed h s.rt_cells null s.rt_list.chain

      kept_block : g.blocks p ≡ h.blocks p
      kept_block = elim (Bool-cases (has_block p s.rt_cells)) [
        | inl inside ↦
            Backed-agree h g (kept key 16 s.rt_cells) p (Backed-kept h key 16 s.rt_cells backed)
              (subst_Backed (Chain-Backed g e.cells null e.shrunk.list.chain))
              (d.still p v q inside)
        | inr outside ↦ e.shrunk.untouched.blocks p outside
      ]
        where
          subst_Backed : Backed g (owned e.cells) → Backed g (owned (kept key 16 s.rt_cells))
          subst_Backed b = rw (sym e.remaining) b

  deleted-Stores : Stores g rt_ll change_ll (record t { rt = rest; memory = after })
  deleted-Stores = record {
    rt_cells = e.cells;
    change_cells = s.change_cells;
    rt_list = e.shrunk.list;
    change_list = IsList-frame e.shrunk.untouched (λ z. s.two (sym z)) s.apart s.change_list;
    rt_blocks = blocks_of-owned e.cells (kept key 16 s.rt_cells) e.remaining ∙ d.blocks;
    changes = s.changes;
    pointers = s.pointers;
    entries = left_IsAt;
    apart = record {
      nodes = λ a i. ground (arith, s.apart.nodes a, e.within.nodes a);
      blocks = λ a i. ground (arith, s.apart.blocks a, e.within.blocks a);
    };
    two = s.two;
  }

-- `delete_rt_table_entry` on the heap, where the table and its change list are stored and no listed
-- entry is freed, with a key of at least 16 bytes: it ends without a fault, the table's list and
-- the entries' blocks become those of Table's function, the change list stays as it is, with its
-- pointers, and the result is that of Table's function.
pub delete_entry-refines :
    {h : Heap} {rt_ll change_ll : Ptr} ⦃lay : Layout⦄ {t : Table} (key : Bytes)
    → Stores h rt_ll change_ll t
    → Live t.rt t.memory
    → 16 ≤ length key
    → let (t', n) = delete_rt_table_entry key t in
      Ends (λ m g. (m ≡ n) × Stores g rt_ll change_ll t') (delete_entry rt_ll key h)
unfolding delete_rt_table_entry delete_entry
delete_entry-refines {h} {t} key s live enough =
    let live' : Live (blocks_of s.rt_cells) t.memory = rw s.rt_blocks live in
    let chain = s.rt_list.chain in
    let d =
      delete_loop-Deleted key s.rt_cells t.memory
        (cells-Compared key s.entries s.rt_cells chain live') in
    rw (sym s.rt_blocks) (
      Total.weaken
        (delete_node_by_value-Erased key 16 enough s.rt_list
          (cells-Wide key s.entries s.rt_cells chain live'))
        λ m g e. (e.count ∙ sym d.count, deleted-Stores enough s e d))
