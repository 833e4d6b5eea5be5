-- ===== src/LinkedList/ByBlock.antt =====
-- `singly_ll_get_node_by_data_ptr` against the cells of a list.
use ribdriver.Base.{
  ℕ, suc, zero, ◌≡◌, refl, List, [], ◌∷◌, arith, ◌==◌, length, if◌then◌else◌, eq_of_ne,
}
use ribdriver.Memory.{Ptr, null, Heap, done}
use ribdriver.Memory.Chain.{Cell, first, Chain, IsList, load_ll-IsList, load_node-Holds}
use ribdriver.LinkedList.{get_node_loop, singly_ll_get_node_by_data_ptr}

-- The first node that has the block, or NULL.
abbrev pub owner : Ptr → List Cell → Ptr
owner block [] = null
owner block (c ∷ xs) = if c.block == block then c.node else owner block xs

get_node_loop-owner :
    (k : ℕ) (h : Heap) (block : Ptr) (xs : List Cell)
    → Chain h xs null
    → length xs ≡ k
    → get_node_loop k block (first xs null) h ≡ done (owner block xs) h
unfolding get_node_loop
get_node_loop-owner zero h block [] ch e = refl
get_node_loop-owner zero h block (c ∷ xs) ch e = absurd (omega arith)
get_node_loop-owner (suc k) h block [] ch e = absurd (omega arith)
get_node_loop-owner (suc k) h block (c ∷ xs) (here, ch) e =
    ground (arith, load_node-Holds here, get_node_loop-owner k h block xs ch)

-- `singly_ll_get_node_by_data_ptr` returns the first node of the list whose data pointer is the
-- given one, or NULL if there is none, and changes nothing; the loop reads no node but the list's.
pub get_node_by_data_ptr-owner :
    {h : Heap} {ll : Ptr} (xs : List Cell) (block : Ptr)
    → IsList h ll xs
    → singly_ll_get_node_by_data_ptr ll block h ≡ done (owner block xs) h
unfolding singly_ll_get_node_by_data_ptr
get_node_by_data_ptr-owner {h} [] block is = rw (load_ll-IsList is, eq_of_ne _ _ is.ll_ne)
get_node_by_data_ptr-owner {h} (c ∷ xs) block is =
    rw (load_ll-IsList is, eq_of_ne _ _ is.ll_ne, eq_of_ne _ _ is.chain.0.node_ne)
      (get_node_loop-owner (length (c ∷ xs)) h block (c ∷ xs) is.chain refl)
