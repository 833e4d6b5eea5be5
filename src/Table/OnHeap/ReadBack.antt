-- ===== src/Table/OnHeap/ReadBack.antt =====
-- An added entry is read back through the change list.
use ribdriver.Base.{
  suc, ◌^◌, ◌<◌, ◌≡◌, ◌≢◌, false, none, some, List, ◌∷◌, map, arith, length, Option-cases, inl, inr,
}
use ribdriver.Memory.{Ptr, Heap, done}
use ribdriver.Memory.Total
use ribdriver.Memory.Total.{Ends}
use ribdriver.Memory.Unused.{Unused}
use ribdriver.Table.{Layout, Entry, Update, Table, gather, add_rt_table_entry_by_val}
use ribdriver.Table.Changes.{Live, added_then_gathered}
use ribdriver.LinkedList.{ll_success}
use ribdriver.Table.OnHeap.{update_bytes, add_entry_by_val, get_updated_entries}
use ribdriver.Table.OnHeap.Encoded.{IsEntry, IsPreserved}
use ribdriver.Table.OnHeap.Stored.{Stores}
use ribdriver.Table.OnHeap.Refines.{add_entry_by_val-refines}
use ribdriver.Table.OnHeap.Gathers.{get_updated_entries-refines}

-- A free address on the heap is free in the model.
unused-memory :
    {h : Heap} {rt_ll change_ll : Ptr} ⦃lay : Layout⦄ {t : Table} (p : Ptr)
    → Stores h rt_ll change_ll t
    → h.blocks p ≡ none
    → t.memory p ≡ none
unused-memory {t} p s new = elim (Option-cases (t.memory p)) [
  | inl gone ↦ gone
  | inr (e, is) ↦ absurd (ground (arith, new, (s.entries p e is).block_is))
]

-- `add_rt_table_entry_by_val` on the heap, where the table and its change list are stored and the
-- change list has no freed entry, for an entry whose arrays have their sizes, with unused addresses
-- from `kmalloc` that differ from each other, the block's one of 64 bits, and room for the counts: it
-- ends without a fault and returns LL_SUCCESS, the two lists and the entries' blocks become those of
-- Table's function, and `rt_get_updated_rt_entries`, unless its `kzalloc` fails, then reads through
-- the pointers of the change list the bytes of the new entry first and of the earlier updates after
-- it, and changes nothing.
pub added_then_read :
    {h : Heap} {rt_ll change_ll : Ptr} ⦃lay : Layout⦄ {t : Table} (node block node2 block2 : Ptr)
    (entry : Entry) (us : List Update)
    → Stores h rt_ll change_ll t
    → Live t.rt_change_list t.memory
    → gather t.rt_change_list t.memory ≡ some us
    → IsEntry entry
    → IsPreserved (record { op_code = lay.route_add; entry = block })
    → Unused node block h
    → Unused node2 block2 h
    → node2 ≢ node
    → block2 ≢ block
    → suc (length t.rt) < 2 ^ 32
    → suc (length t.rt_change_list) < 2 ^ 32
    → Ends
        (λ rc g.
          (rc ≡ ll_success)
          × Stores g rt_ll change_ll (add_rt_table_entry_by_val block entry t)
          × (get_updated_entries false change_ll g
              ≡ done
                  (
                    some
                        (map update_bytes (record { op_code = lay.route_add; entry = entry } ∷ us)),
                    suc (length us),
                  )
                  g))
        (add_entry_by_val node block node2 block2 rt_ll change_ll entry h)
added_then_read {t} node block node2 block2 entry us s l got is pc u u2 other_node other_block room
      room2 =
    Total.weaken
      (add_entry_by_val-refines node block node2 block2 entry s is pc u u2 other_node other_block
        room room2)
      λ rc g (ok, s'). (
        ok,
        s',
        get_updated_entries-refines false _ _ s'
            (added_then_gathered block entry t us l (unused-memory block s u.block_new) got).1,
      )
