-- ===== src/Table/OnHeap/Refines.antt =====
-- The operations on the heap do what Table's functions do.
use ribdriver.Base.{suc, ◌^◌, ◌<◌, ◌≡◌, ◌≢◌, List, [], ◌∷◌, length}
use ribdriver.Memory.{Ptr, Heap, Ll, Node, done, load_ll, load_node}
use ribdriver.Memory.Total
use ribdriver.Memory.Total.{Ends, ends}
use ribdriver.Memory.Chain.{Cell, IsList, load_ll-IsList, load_node-Holds}
use ribdriver.Memory.Unused.{Unused}
use ribdriver.Table.{Layout, Entry, Table, add_rt_table_entry_by_val}
use ribdriver.LinkedList.{ll_success}
use ribdriver.Table.OnHeap.{add_entry_by_val}
use ribdriver.Table.OnHeap.Encoded.{IsEntry, IsPreserved}
use ribdriver.Table.OnHeap.Stored.{Stores, blocks_of}
use ribdriver.Table.OnHeap.Adding.{entry_added, change_added}

-- The head of a list is read.
record Heads (h : Heap) (ll p : Ptr) : Type 0 where
  l : Ll
  n : Node
  descriptor : load_ll ll h ≡ done l h
  node : load_node l.head h ≡ done n h
  block : n.block ≡ p

IsList-Heads :
    {h : Heap} {ll p : Ptr} {ps : List Ptr} (xs : List Cell)
    → IsList h ll xs
    → blocks_of xs ≡ p ∷ ps
    → Heads h ll p
IsList-Heads [] is e = cc
IsList-Heads (x ∷ xs) is e = record {
  l = _;
  n = _;
  descriptor = load_ll-IsList is;
  node = load_node-Holds is.chain.0;
  block = cc;
}

-- Given unused addresses from `kmalloc` that differ, the block's one of 64 bits, and room for the
-- counts, adding an entry whose arrays have their sizes returns LL_SUCCESS on the heap, and the
-- table's two lists and blocks become those of Table's function.
pub add_entry_by_val-refines :
    {h : Heap} {rt_ll change_ll : Ptr} ⦃lay : Layout⦄ {t : Table} (node block node2 block2 : Ptr)
    (entry : Entry)
    → Stores h rt_ll change_ll t
    → IsEntry entry
    → IsPreserved (record { op_code = lay.route_add; entry = block })
    → Unused node block h
    → Unused node2 block2 h
    → node2 ≢ node
    → block2 ≢ block
    → suc (length t.rt) < 2 ^ 32
    → suc (length t.rt_change_list) < 2 ^ 32
    → Ends
        (λ rc g.
          (rc ≡ ll_success) × Stores g rt_ll change_ll (add_rt_table_entry_by_val block entry t))
        (add_entry_by_val node block node2 block2 rt_ll change_ll entry h)
unfolding add_entry_by_val add_rt_table_entry_by_val
add_entry_by_val-refines node block node2 block2 entry s is pc u u2 other_node other_block room
      room2 =
    Total.and_then (entry_added s node block u entry is room) λ rc g (ok, s', still).
      let top = IsList-Heads s'.rt_cells s'.rt_list s'.rt_blocks in
      rw (top.descriptor, top.node, top.block)
        (Total.and_then
          (change_added s' node2 block2 (still node2 block2 u2 other_node other_block) _ pc room2)
          λ rc2 g2 s2. ends (ok, s2))
