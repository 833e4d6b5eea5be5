-- ===== src/Table/OnHeap/Tests.antt =====
-- A table with a route that gets another one, or loses the one it has.
use ribdriver.Base.{
  ◌≡◌, refl, sym, ap, ◌≢◌, false, none, some, [], ◌∷◌, map, ◌==◌, arith, replicate, Bool-cases, inl,
  inr,
}
use ribdriver.Memory.{Ptr, null, Heap, done, update}
use ribdriver.Memory.Total.{Ends}
use ribdriver.Memory.Chain.{Cell, IsList, node_of}
use ribdriver.Memory.Unused.{Unused}
use ribdriver.Table.{
  rt_layout, Entry, Table, add_rt_table_entry_by_val, delete_rt_table_entry, delete_loop,
}
use ribdriver.LinkedList.{ll_success}
use ribdriver.Table.OnHeap.{
  entry_bytes, preserved_bytes, update_bytes, add_entry_by_val, get_updated_entries, delete_entry,
}
use ribdriver.Table.OnHeap.Encoded.{IsEntry, IsPreserved}
use ribdriver.Table.OnHeap.Stored.{Stores, IsAt}
use ribdriver.Table.OnHeap.ReadBack.{added_then_read}
use ribdriver.Table.OnHeap.Deleting.{delete_entry-refines}

abbrev route : Entry
route = record {
  dst_ip = 1 ∷ replicate 15 0;
  nxt_hop_ip = 2 ∷ replicate 15 0;
  oif = 3 ∷ replicate 15 0;
}

route-IsEntry : IsEntry ⦃lay = rt_layout⦄ route
unfolding IsEntry entry_bytes
route-IsEntry = (refl, refl)

twenty-IsPreserved : IsPreserved (record { op_code = 1; entry = 20 })
unfolding IsPreserved
twenty-IsPreserved = refl

abbrev with_route : Table
with_route = record {
  rt = 20 ∷ [];
  rt_change_list = record { op_code = 1; entry = 20 } ∷ [];
  poll_readers_list = [];
  memory = update (λ _. none) 20 (some route);
}

abbrev route_cell : Cell
route_cell = record { node = 10; block = 20; size = 48; bytes = entry_bytes route }

abbrev change_cell : Cell
change_cell = record {
  node = 11;
  block = 21;
  size = 16;
  bytes = preserved_bytes (record { op_code = 1; entry = 20 });
}

abbrev heap : Heap
heap = record {
  lists =
      update (update (λ _. none) 2 (some (record { node_count = 1; head = 11 }))) 1
        (some (record { node_count = 1; head = 10 }));
  nodes =
      update (update (λ _. none) 11 (some (node_of change_cell null))) 10
        (some (node_of route_cell null));
  blocks = update (update (λ _. none) 21 (some change_cell.bytes)) 20 (some route_cell.bytes);
}

one_node :
    (ll : Ptr) (c : Cell)
    → ll ≢ null
    → c.node ≢ null
    → c.block ≢ null
    → heap.lists ll ≡ some (record { node_count = 1; head = c.node })
    → heap.nodes c.node ≡ some (node_of c null)
    → heap.blocks c.block ≡ some c.bytes
    → IsList heap ll (c ∷ [])
one_node ll c ne node_ne block_ne is node_is block_is = record {
  ll_ne = ne;
  descriptor = is;
  fits = omega arith;
  chain = (
    record { node_ne = node_ne; block_ne = block_ne; node_is = node_is; block_is = block_is },
    tt,
  );
  distinct = (refl, refl, tt);
}

route-IsAt : (p : Ptr) (e : Entry) → with_route.memory p ≡ some e → IsAt heap p ⦃lay = rt_layout⦄ e
route-IsAt p e q = elim (Bool-cases (p == 20)) [
  | inl same ↦
      let at : p ≡ 20 = ground arith in
      let held : route ≡ e = ground arith in
      rw (sym held)
        (record { not_null = ground arith; block_is = ap heap.blocks at; whole = route-IsEntry })
  | inr other ↦ absurd (ground arith)
]

heap-Stores : Stores heap 1 2 ⦃lay = rt_layout⦄ with_route
heap-Stores = record {
  rt_cells = route_cell ∷ [];
  change_cells = change_cell ∷ [];
  rt_list = one_node 1 route_cell (ground arith) (ground arith) (ground arith) refl refl refl;
  change_list = one_node 2 change_cell (ground arith) (ground arith) (ground arith) refl refl refl;
  rt_blocks = refl;
  changes = refl;
  pointers = (twenty-IsPreserved, tt);
  entries = route-IsAt;
  apart = record { nodes = λ a i. ground arith; blocks = λ a i. ground arith };
  two = ground arith;
}

twenty_two-IsPreserved : IsPreserved (record { op_code = 1; entry = 22 })
unfolding IsPreserved
twenty_two-IsPreserved = refl

heap-Unused :
    (node block : Ptr)
    → node ≢ null
    → block ≢ null
    → heap.nodes node ≡ none
    → heap.blocks block ≡ none
    → Unused node block heap
heap-Unused node block node_ne block_ne node_new block_new = record {
  node_ne = node_ne;
  block_ne = block_ne;
  node_new = node_new;
  block_new = block_new;
}

abbrev other : Entry
other = record {
  dst_ip = 4 ∷ replicate 15 0;
  nxt_hop_ip = 2 ∷ replicate 15 0;
  oif = 3 ∷ replicate 15 0;
}

other-IsEntry : IsEntry ⦃lay = rt_layout⦄ other
unfolding IsEntry entry_bytes
other-IsEntry = (refl, refl)

added_then_read_example :
    Ends
      (λ rc g.
        (rc ≡ ll_success)
        × Stores g 1 2 ⦃lay = rt_layout⦄
            (add_rt_table_entry_by_val ⦃lay = rt_layout⦄ 22 other with_route)
        × (get_updated_entries ⦃lay = rt_layout⦄ false 2 g
            ≡ done
                (
                  some (
                      map update_bytes (
                        record { op_code = 1; entry = other }
                        ∷ record { op_code = 1; entry = route }
                        ∷ [])),
                  2,
                )
                g))
      (add_entry_by_val ⦃lay = rt_layout⦄ 12 22 13 23 1 2 other heap)
added_then_read_example =
    added_then_read ⦃lay = rt_layout⦄ 12 22 13 23 other (record { op_code = 1; entry = route } ∷ [])
      heap-Stores (λ gone. cc, tt) refl other-IsEntry twenty_two-IsPreserved
      (heap-Unused 12 22 (ground arith) (ground arith) refl refl)
      (heap-Unused 13 23 (ground arith) (ground arith) refl refl) (ground arith) (ground arith)
      (omega arith) (omega arith)

delete_entry-refines_example :
    Ends
      (λ m g.
        (m ≡ 1)
        × Stores g 1 2 ⦃lay = rt_layout⦄
            (record with_route { rt = []; memory = update with_route.memory 20 none }))
      (delete_entry 1 route.dst_ip heap)
unfolding delete_rt_table_entry delete_loop
delete_entry-refines_example =
    delete_entry-refines ⦃lay = rt_layout⦄ route.dst_ip heap-Stores (λ gone. cc, tt) (omega arith)
