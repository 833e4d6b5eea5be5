-- ===== src/Table/OnHeap/Adding.antt =====
-- A node is put in front of the table, or in front of the change list.
use ribdriver.Base.{
  suc, ◌^◌, ◌<◌, ◌≡◌, sym, ap, ◌∙◌, ◌≢◌, false, ◌||◌, none, some, [], ◌∷◌, ◌==◌, arith, length,
  take, Bool-cases, inl, inr,
}
use ribdriver.Memory.{Ptr, null, Heap, update}
use ribdriver.Memory.Total
use ribdriver.Memory.Total.{Ends}
use ribdriver.Memory.Chain.{Cell, Untouched, IsList-frame, unused_node, unused_block}
use ribdriver.Memory.Unused.{Unused, Unused-frame, Disjoint-new}
use ribdriver.Table.{Layout, Entry, sizeof_entry, Preserved, Table}
use ribdriver.LinkedList.{ll_success, singly_ll_add_node_by_val}
use ribdriver.LinkedList.Add.{add_node_by_val-IsList}
use ribdriver.Table.OnHeap.{entry_bytes, preserved_bytes, sizeof_preserved}
use ribdriver.Table.OnHeap.Encoded.{
  IsEntry, IsPreserved, take-entry_bytes, length-preserved_bytes, take-preserved_bytes,
  length-entry_bytes,
}
use ribdriver.Table.OnHeap.Stored.{Stores, IsAt, length-blocks_of, length-changes}

not_one : (a b : Ptr) → a ≢ b → ((a == b) || false) ≡ false
not_one a b ne = ground arith

-- A new cell does not touch an entry's block.
IsAt-frame :
    {ll : Ptr} {h g : Heap} (c : Cell) (p : Ptr) ⦃lay : Layout⦄ {e : Entry}
    → Untouched ll (c ∷ []) h g
    → h.blocks c.block ≡ none
    → IsAt h p e
    → IsAt g p e
IsAt-frame {h} c p u new is = record {
  not_null = is.not_null;
  block_is =
      let ne : p ≢ c.block = λ q. let gone = ap h.blocks q ∙ new in ground (arith, is.block_is) in
      u.blocks p (not_one p c.block ne) ∙ is.block_is;
  whole = is.whole;
}

module _ {h : Heap} {rt_ll change_ll : Ptr} ⦃lay : Layout⦄ {t : Table}
    (s : Stores h rt_ll change_ll t) (node block : Ptr) (unused : Unused node block h) where
  -- The update is put in front of the change list.
  pub change_added :
      (c : Preserved)
      → IsPreserved c
      → suc (length t.rt_change_list) < 2 ^ 32
      → Ends
          (λ rc g. Stores g rt_ll change_ll (record t { rt_change_list = c ∷ t.rt_change_list }))
          (singly_ll_add_node_by_val node block change_ll (preserved_bytes c) sizeof_preserved h)
  change_added c pc room =
      Total.weaken
        (add_node_by_val-IsList node block (preserved_bytes c) sizeof_preserved s.change_list
          (omega (arith, length-changes s.change_cells t.rt_change_list s.changes)) unused.node_ne
          unused.block_ne unused.node_new unused.block_new
          (omega (arith, length-preserved_bytes c)))
        λ rc g (ok, list, u).
          let x : Cell = record {
            node = node;
            block = block;
            size = sizeof_preserved;
            bytes = take sizeof_preserved (preserved_bytes c);
          } in
          let new =
            Disjoint-new x s.rt_cells
              (unused_node h node s.rt_cells null s.rt_list.chain unused.node_new)
              (unused_block h block s.rt_cells null s.rt_list.chain unused.block_new) in
          record {
            rt_cells = s.rt_cells;
            change_cells = x ∷ s.change_cells;
            rt_list = IsList-frame u s.two new s.rt_list;
            change_list = list;
            rt_blocks = s.rt_blocks;
            changes = λ i. take-preserved_bytes c i ∷ s.changes i;
            pointers = (pc, s.pointers);
            entries = λ p e q. IsAt-frame x p u unused.block_new (s.entries p e q);
            apart = record {
              nodes = λ a i. ground (arith, s.apart.nodes a, new.nodes a);
              blocks = λ a i. ground (arith, s.apart.blocks a, new.blocks a);
            };
            two = s.two;
          }

  -- The model's memory with the new entry is on the heap.
  entered :
      {g : Heap} (entry : Entry)
      → IsEntry entry
      → let x : Cell = record {
        node = node;
        block = block;
        size = sizeof_entry;
        bytes = take sizeof_entry (entry_bytes entry);
      } in
        Untouched rt_ll (x ∷ []) h g
        → g.blocks block ≡ some (take sizeof_entry (entry_bytes entry))
        → (p : Ptr) (e : Entry) → update t.memory block (some entry) p ≡ some e
        → IsAt g p e
  entered {g} entry is u here p e q = elim (Bool-cases (p == block)) [
    | inl same ↦
        let at_block : p ≡ block = ground arith in
        let held : entry ≡ e = ground arith in
        rw (sym held) (record {
          not_null = λ z. unused.block_ne (sym at_block ∙ z);
          block_is = ap g.blocks at_block ∙ here ∙ ap some (take-entry_bytes entry is);
          whole = is;
        })
    | inr other ↦ IsAt-frame _ p u unused.block_new (s.entries p e (ground arith))
  ]

  -- The entry is put in front of the table, at whose head its block then is.
  pub entry_added :
      (entry : Entry)
      → IsEntry entry
      → suc (length t.rt) < 2 ^ 32
      → Ends
          (λ rc g.
            (rc ≡ ll_success)
            × Stores g rt_ll change_ll
                (record t { rt = block ∷ t.rt; memory = update t.memory block (some entry) })
            × ((a b : Ptr) → Unused a b h → a ≢ node → b ≢ block → Unused a b g))
          (singly_ll_add_node_by_val node block rt_ll (entry_bytes entry) sizeof_entry h)
  entry_added entry is room =
      Total.weaken
        (add_node_by_val-IsList node block (entry_bytes entry) sizeof_entry s.rt_list
          (omega (arith, length-blocks_of s.rt_cells t.rt s.rt_blocks)) unused.node_ne
          unused.block_ne unused.node_new unused.block_new
          (omega (arith, length-entry_bytes entry is)))
        λ rc g (ok, list, u).
          let x : Cell = record {
            node = node;
            block = block;
            size = sizeof_entry;
            bytes = take sizeof_entry (entry_bytes entry);
          } in
          let new =
            Disjoint-new x s.change_cells
              (unused_node h node s.change_cells null s.change_list.chain unused.node_new)
              (unused_block h block s.change_cells null s.change_list.chain unused.block_new) in
          (
            ok,
            record {
              rt_cells = x ∷ s.rt_cells;
              change_cells = s.change_cells;
              rt_list = list;
              change_list = IsList-frame u (λ e. s.two (sym e)) new s.change_list;
              rt_blocks = ap (block ∷◌) s.rt_blocks;
              changes = s.changes;
              pointers = s.pointers;
              entries = entered entry is u list.chain.0.block_is;
              apart = record {
                nodes = λ a i. ground (arith, s.apart.nodes a, new.nodes a);
                blocks = λ a i. ground (arith, s.apart.blocks a, new.blocks a);
              };
              two = s.two;
            },
            λ a b free other_node other_block.
                Unused-frame a b (x ∷ []) u (not_one a node other_node)
                  (not_one b block other_block) free,
          )
