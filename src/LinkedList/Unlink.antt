-- ===== src/LinkedList/Unlink.antt =====
-- The heap that `singly_ll_delete_node` leaves, on each of its three ways.
use ribdriver.Base.{
  ℕ, suc, zero, ◌+◌, ◌<◌, ◌≡◌, refl, ◌≢◌, false, none, some, List, [], ◌∷◌, arith, length, dec32,
}
use ribdriver.Memory.{
  Ptr, null, Heap, Ll, done, update, load_ll, store_ll, load_node, store_node, load_block,
  free_node, free_block,
}
use ribdriver.Memory.Chain.{Cell, has_node, first, Holds, Chain, node_of, load_node-Holds}
use ribdriver.LinkedList.{
  ll_success, find_prev, delete_inner, delete_only, delete_last, singly_ll_delete_node,
}

-- From the first node, the walk stops at the node before the target.
pub find_prev-last :
    (k : ℕ) (h : Heap) (init : List Cell) (l : Cell) (target : Ptr)
    → Chain h init l.node
    → Holds h l target
    → has_node target init ≡ false
    → l.node ≢ target
    → length init < k
    → find_prev k target (first init l.node) h ≡ done l.node h
unfolding find_prev load_node
find_prev-last zero h init l target c e out ne fuel = absurd (omega arith)
find_prev-last (suc k) h [] l target c e out ne fuel = ground (arith, e.node_is, e.node_ne)
find_prev-last (suc k) h (x ∷ []) l target (ex, c) e out ne fuel =
    ground (arith, ex.node_is, ex.node_ne, find_prev-last k h [] l target tt e refl ne)
find_prev-last (suc k) h (x ∷ y ∷ ys) l target (ex, c) e out ne fuel =
    ground (arith, ex.node_is, ex.node_ne, find_prev-last k h (y ∷ ys) l target c e)

-- The cells that are left when the node of `c` is deleted: its address stays in use if it has a
-- successor.
abbrev pub merged : Cell → Cell → Cell
merged c d = record c { block = d.block; bytes = d.bytes }

abbrev pub less : Cell → List Cell → List Cell
less c [] = []
less c (d ∷ rest) = merged c d ∷ rest

-- Which way a node takes.
module _ (h : Heap) (ll : Ptr) (l : Ll) (c : Cell) (q : Ptr) (ll_ne : ll ≢ null)
    (is : h.lists ll ≡ some l) (head_ne : l.head ≢ null) (e : Holds h c q) where
  pub takes_inner :
      q ≢ null → singly_ll_delete_node ll c.node h ≡ delete_inner ll c.node (node_of c q) h
  unfolding singly_ll_delete_node load_ll
  takes_inner ne = ground (arith, load_node-Holds e, e.node_ne)

  pub takes_only :
      q ≡ null
      → l.node_count ≡ 1
      → l.head ≡ c.node
      → singly_ll_delete_node ll c.node h ≡ delete_only ll c.node (node_of c q) h
  unfolding singly_ll_delete_node load_ll
  takes_only end one head = ground (arith, load_node-Holds e, e.node_ne)

  pub takes_last :
      q ≡ null
      → l.node_count ≢ 1
      → singly_ll_delete_node ll c.node h ≡ delete_last ll c.node (node_of c q) l h
  unfolding singly_ll_delete_node load_ll
  takes_last end many = ground (arith, load_node-Holds e, e.node_ne)

abbrev pub inner_heap : Heap → Ptr → Ll → Cell → Cell → Ptr → Heap
inner_heap h ll l c d q = record {
  lists = update h.lists ll (some (record { node_count = dec32 l.node_count; head = l.head }));
  nodes = update (update h.nodes c.node (some (node_of (merged c d) q))) d.node none;
  blocks = update h.blocks c.block none;
}

pub delete_inner-heap :
    (h : Heap) (ll : Ptr) (l : Ll) (c d : Cell) (q : Ptr)
    → ll ≢ null
    → h.lists ll ≡ some l
    → Holds h c d.node
    → Holds h d q
    → c.node ≢ d.node
    → delete_inner ll c.node (node_of c d.node) h ≡ done ll_success (inner_heap h ll l c d q)
unfolding delete_inner load_ll store_ll load_node store_node load_block free_node free_block
delete_inner-heap h ll l c d q ll_ne is ec ed ne =
    ground (arith, ec.node_is, ec.node_ne, ed.node_is, ed.node_ne, ec.block_is, ec.block_ne)

abbrev pub only_heap : Heap → Ptr → Ll → Cell → Heap
only_heap h ll l c = record {
  lists =
      update (update h.lists ll (some (record l { head = null }))) ll
        (some (record { node_count = dec32 l.node_count; head = null }));
  nodes = update h.nodes c.node none;
  blocks = update h.blocks c.block none;
}

pub delete_only-heap :
    (h : Heap) (ll : Ptr) (l : Ll) (c : Cell)
    → ll ≢ null
    → h.lists ll ≡ some l
    → Holds h c null
    → delete_only ll c.node (node_of c null) h ≡ done ll_success (only_heap h ll l c)
unfolding delete_only load_ll store_ll load_node store_node load_block free_node free_block
delete_only-heap h ll l c ll_ne is ec =
    ground (arith, ec.node_is, ec.node_ne, ec.block_is, ec.block_ne)

abbrev pub last_heap : Heap → Ptr → Ll → Cell → Cell → Heap
last_heap h ll l p c = record {
  lists = update h.lists ll (some (record { node_count = dec32 l.node_count; head = l.head }));
  nodes = update (update h.nodes p.node (some (node_of p null))) c.node none;
  blocks = update h.blocks c.block none;
}

pub delete_last-heap :
    (h : Heap) (ll : Ptr) (l : Ll) (p c : Cell)
    → ll ≢ null
    → h.lists ll ≡ some l
    → find_prev (l.node_count + 1) c.node l.head h ≡ done p.node h
    → Holds h p c.node
    → Holds h c null
    → p.node ≢ c.node
    → delete_last ll c.node (node_of c null) l h ≡ done ll_success (last_heap h ll l p c)
unfolding delete_last load_ll store_ll load_node store_node load_block free_node free_block
delete_last-heap h ll l p c ll_ne is walk ep ec ne =
    ground (arith, ep.node_is, ep.node_ne, ec.node_is, ec.node_ne, ec.block_is, ec.block_ne, walk)
