-- ===== src/LinkedList/Delete.antt =====
-- `singly_ll_delete_node` removes one element, wherever its node stands in the list.
mod Shape
mod Inner
mod Last
pub use Shape.{Freed, Shrunk, first-ne, ne_of_out, snoc}
use Inner.{inner-Shrunk}
use Last.{only-Shrunk, last-Shrunk}
use ribdriver.Base.{
  ℕ, suc, ◌+◌, ◌^◌, ◌≤◌, ◌<◌, ◌≡◌, refl, ◌≢◌, true, false, none, some, List, [], ◌∷◌, ◌++◌, arith,
  dec32, length, length-append, append-nil, append_assoc, ap,
}
use ribdriver.Memory.{Ptr, null, Heap, done}
use ribdriver.Memory.Total.{Ends, ends}
use ribdriver.Memory.Chain.{
  Cell, has_node, has_block, first, first-append, Chain, Chain-split, Chain-append, Chain-frame,
  IsList, Untouched, Distinct,
}
use ribdriver.Memory.Distinct.{has_node-append, has_block-append, Distinct-split, Distinct-append}
use ribdriver.LinkedList.{find_prev, ll_success, singly_ll_delete_node}
use ribdriver.LinkedList.Unlink.{
  find_prev-last, merged, less, takes_inner, takes_only, takes_last, inner_heap, delete_inner-heap,
  delete_only-heap, last_heap, delete_last-heap,
}

last_of :
    {h : Heap} {ll : Ptr} (xs init : List Cell) (l c : Cell)
    → xs ≡ init ++ l ∷ []
    → IsList h ll (xs ++ c ∷ [])
    → Ends
        (λ rc g. (rc ≡ ll_success) × Shrunk h ll (xs ++ c ∷ []) xs g)
        (singly_ll_delete_node ll c.node h)
last_of {h} {ll} xs init l c e is =
    rw (e, append_assoc) (last-Shrunk h ll init l c (rw (e, append_assoc) at is))

-- For a node anywhere in a list, `singly_ll_delete_node` returns LL_SUCCESS and removes exactly
-- that element from the list: the element's block and one node are freed, nothing outside the list is
-- touched. The node that is freed is the successor's, if there is one, which the element's node then
-- stands for.
pub delete_node-Shrunk :
    {h : Heap} {ll : Ptr} (pre : List Cell) (c : Cell) (post : List Cell)
    → IsList h ll (pre ++ c ∷ post)
    → Ends
        (λ rc g. (rc ≡ ll_success) × Shrunk h ll (pre ++ c ∷ post) (pre ++ less c post) g)
        (singly_ll_delete_node ll c.node h)
delete_node-Shrunk {h} {ll} pre c (d ∷ rest) is = inner-Shrunk h ll pre c d rest is
delete_node-Shrunk {h} {ll} [] c [] is = only-Shrunk h ll c is
delete_node-Shrunk {h} {ll} (x ∷ pre) c [] is =
    let (init, l, e) = snoc x pre in rw append-nil (last_of (x ∷ pre) init l c e is)
