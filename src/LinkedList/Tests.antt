-- ===== src/LinkedList/Tests.antt =====
-- The list operations' theorems at a list of two nodes, and at an empty one.
use ribdriver.Base.{◌≡◌, refl, none, some, List, [], ◌∷◌, arith}
use ribdriver.Memory.{null, Heap, update, done}
use ribdriver.Memory.Total.{Ends}
use ribdriver.Memory.Chain.{Cell, IsList, Untouched, node_of}
use ribdriver.LinkedList.{ll_success, singly_ll_delete_node, singly_ll_delete_node_by_value}
use ribdriver.LinkedList.Unlink.{less}
use ribdriver.LinkedList.Delete.{Shrunk, delete_node-Shrunk}
use ribdriver.LinkedList.Find.{Wide, Erased, delete_node_by_value-Erased}
use ribdriver.LinkedList.Clear.{delete_singly_ll, delete_singly_ll-Shrunk}
use ribdriver.LinkedList.Reverse.{reverse_singly_ll, reverse_singly_ll-IsList}
use ribdriver.LinkedList.Remove.{singly_ll_remove_node, Removed}
use ribdriver.LinkedList.Remove.AnyNode.{remove_node-Removed}
use ribdriver.LinkedList.Remove.ByValue.{
  singly_ll_remove_node_by_value, Leaked, remove_node_by_value-Leaked,
}
use ribdriver.LinkedList.Reverse.Recursive.{reverse_singly_ll2, reverse_singly_ll3}
use ribdriver.LinkedList.Reverse.Agreement.{Same, reversals_agree}

abbrev front : Cell
front = record { node = 10; block = 20; size = 2; bytes = 1 ∷ 2 ∷ [] }

abbrev back : Cell
back = record { node = 11; block = 21; size = 2; bytes = 3 ∷ 4 ∷ [] }

abbrev cells : List Cell
cells = front ∷ back ∷ []

abbrev heap : Heap
heap = record {
  lists = update (λ _. none) 1 (some (record { node_count = 2; head = 10 }));
  nodes = update (update (λ _. none) 11 (some (node_of back null))) 10 (some (node_of front 11));
  blocks = update (update (λ _. none) 21 (some (3 ∷ 4 ∷ []))) 20 (some (1 ∷ 2 ∷ []));
}

cells-IsList : IsList heap 1 cells
cells-IsList = record {
  ll_ne = ground arith;
  descriptor = refl;
  fits = omega arith;
  chain = (
    record { node_ne = ground arith; block_ne = ground arith; node_is = refl; block_is = refl },
    (
      record { node_ne = ground arith; block_ne = ground arith; node_is = refl; block_is = refl },
      tt,
    ),
  );
  distinct = (refl, refl, (refl, refl, tt));
}

cells-Wide : Wide 1 cells
cells-Wide = (ground arith, (ground arith, tt))

delete_node-Shrunk_example :
    Ends
      (λ rc g. (rc ≡ ll_success) × Shrunk heap 1 cells (less front (back ∷ [])) g)
      (singly_ll_delete_node 1 10 heap)
delete_node-Shrunk_example = delete_node-Shrunk [] front (back ∷ []) cells-IsList

delete_node_by_value-Erased_example :
    Ends
      (Erased (3 ∷ []) 1 (omega arith) heap 1 cells)
      (singly_ll_delete_node_by_value 1 (3 ∷ []) 1 heap)
delete_node_by_value-Erased_example =
    delete_node_by_value-Erased (3 ∷ []) 1 (omega arith) cells-IsList cells-Wide

delete_singly_ll-Shrunk_example : Ends (λ _ g. Shrunk heap 1 cells [] g) (delete_singly_ll 1 heap)
delete_singly_ll-Shrunk_example = delete_singly_ll-Shrunk cells cells-IsList

reverse_singly_ll-IsList_example :
    Ends
      (λ _ g. IsList g 1 (back ∷ front ∷ []) × Untouched 1 cells heap g)
      (reverse_singly_ll 1 heap)
reverse_singly_ll-IsList_example = reverse_singly_ll-IsList cells cells-IsList

remove_node-Removed_example :
    Ends
      (λ rc g. (rc ≡ ll_success) × Removed heap 1 (front ∷ []) back [] g)
      (singly_ll_remove_node 1 11 heap)
remove_node-Removed_example = remove_node-Removed (front ∷ []) back [] cells-IsList

remove_node_by_value-Leaked_example :
    Ends
      (Leaked (3 ∷ []) 1 (omega arith) heap 1 cells)
      (singly_ll_remove_node_by_value 1 (3 ∷ []) 1 heap)
remove_node_by_value-Leaked_example =
    remove_node_by_value-Leaked (3 ∷ []) 1 (omega arith) cells-IsList cells-Wide

reversals_agree_example :
    (g1 g2 g3 : Heap) × (reverse_singly_ll 1 heap ≡ done tt g1)
    × (reverse_singly_ll2 1 heap ≡ done tt g2)
    × (reverse_singly_ll3 1 heap ≡ done tt g3)
    × Same g1 g2
    × Same g2 g3
reversals_agree_example = reversals_agree cells cells-IsList
