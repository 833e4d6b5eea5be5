-- ===== src/LinkedList/Add.antt =====
-- `singly_ll_add_node` and `singly_ll_add_node_by_val`.
use ribdriver.Base.{
  ℕ, ◌⊎◌, suc, ◌^◌, ◌≤◌, ◌<◌, ◌≡◌, refl, ◌≢◌, false, none, some, List, [], ◌∷◌, arith, length, take,
  inc32,
}
use ribdriver.Memory.{
  Ptr, null, Bytes, Heap, Ll, done, update, store_node, memcpy, new_node, new_block, load_ll,
  store_ll, load_node,
}
use ribdriver.Memory.Total.{Ends, ends}
use ribdriver.Memory.Total
use ribdriver.Memory.Chain.{
  Cell, has_node, has_block, Holds, IsList, Chain-frame, node_of, Untouched, unused_node,
  unused_block,
}
use ribdriver.LinkedList.{Rc, ll_success, ll_failure, singly_ll_add_node, singly_ll_add_node_by_val}

-- A node that is to be put in front of `xs`: on the heap, unshared, and with no successor.
pub record Spare (h : Heap) (c : Cell) (xs : List Cell) : Type 0 where
  pub holds : Holds h c null
  pub new_node : has_node c.node xs ≡ false
  pub new_block : has_block c.block xs ≡ false

-- The heap after the descriptor's head and then its count are written.
abbrev with_head : Heap → Ptr → Ll → Ptr → Heap
with_head h ll l p = record h {
  lists =
      update (update h.lists ll (some (record l { head = p }))) ll
        (some (record { node_count = inc32 l.node_count; head = p }));
}

add_empty :
    (h : Heap) (ll p : Ptr) (l : Ll)
    → ll ≢ null
    → p ≢ null
    → h.lists ll ≡ some l
    → l.head ≡ null
    → singly_ll_add_node ll p h ≡ done ll_success (with_head h ll l p)
unfolding singly_ll_add_node load_ll store_ll
add_empty h ll p l ll_ne p_ne is e = ground arith

add_front :
    (h : Heap) (ll : Ptr) (c : Cell) (q : Ptr) (l : Ll)
    → ll ≢ null
    → Holds h c q
    → h.lists ll ≡ some l
    → l.head ≢ null
    → singly_ll_add_node ll c.node h
      ≡ done ll_success (
          with_head
            (record h { nodes = update h.nodes c.node (some (node_of c l.head)) })
            ll
            l
            c.node)
unfolding singly_ll_add_node load_ll store_ll load_node store_node
add_front h ll c q l ll_ne e is ne = ground (arith, e.node_is, e.node_ne)

with_head-lists :
    (h : Heap) (ll p : Ptr) (n : ℕ) (q : Ptr)
    → suc n < 2 ^ 32
    → (with_head h ll (record { node_count = n; head = q }) p).lists ll
      ≡ some (record { node_count = suc n; head = p })
with_head-lists h ll p n q room = ground arith

-- What adding the node of `c` to the list `xs` at `ll` leads to.
abbrev pub Added : Heap → Ptr → Cell → List Cell → Rc → Heap → Type 0
Added h ll c xs rc g = (rc ≡ ll_success) × IsList g ll (c ∷ xs) × Untouched ll (c ∷ []) h g

add_node-cons :
    {h : Heap} {ll : Ptr} {c : Cell} (xs : List Cell)
    → IsList h ll xs
    → Spare h c xs
    → suc (length xs) < 2 ^ 32
    → Ends (Added h ll c xs) (singly_ll_add_node ll c.node h)
add_node-cons {h} {ll} {c} [] is sp room =
    rw (add_empty h ll c.node _ is.ll_ne sp.holds.node_ne is.descriptor refl) (
      ends (
        refl,
        record {
          ll_ne = is.ll_ne;
          descriptor = with_head-lists h ll c.node 0 null room;
          fits = room;
          chain =
              (Chain-frame (c ∷ []) null (record { nodes = λ a i. refl; blocks = λ a i. refl })
                (sp.holds, tt));
          distinct = (refl, refl, tt);
        },
        record { lists = λ a ne. ground arith; nodes = λ a o. refl; blocks = λ a o. refl },
      ))
add_node-cons {h} {ll} {c} (x ∷ xs) is sp room =
    rw (add_front h ll c null _ is.ll_ne sp.holds is.descriptor is.chain.0.node_ne) (
      ends (
        refl,
        record {
          ll_ne = is.ll_ne;
          descriptor = with_head-lists h ll c.node (length (x ∷ xs)) x.node room;
          fits = room;
          chain = (
            record {
              node_ne = sp.holds.node_ne;
              block_ne = sp.holds.block_ne;
              node_is = ground arith;
              block_is = sp.holds.block_is;
            },
            Chain-frame (x ∷ xs) null
                (record { nodes = λ a i. ground (arith, sp.new_node); blocks = λ a i. refl })
                is.chain,
          );
          distinct = (sp.new_node, sp.new_block, is.distinct);
        },
        record { lists = λ a ne. ground arith; nodes = λ a o. ground arith; blocks = λ a o. refl },
      ))

-- The heap once `singly_ll_add_node_by_val` has made its node and its copy.
abbrev with_cell : Heap → Cell → Heap
with_cell h c = record h {
  nodes =
      update (update h.nodes c.node (some (record { block = null; data_size = 0; next = null })))
        c.node (some (node_of c null));
  blocks = update h.blocks c.block (some c.bytes);
}

add_by_val :
    (h : Heap) (p b ll : Ptr) (src : Bytes) (size : ℕ)
    → p ≢ null
    → b ≢ null
    → size ≤ length src
    → let c : Cell = record { node = p; block = b; size = size; bytes = take size src } in
      singly_ll_add_node_by_val p b ll src size h ≡ singly_ll_add_node ll p (with_cell h c)
unfolding singly_ll_add_node_by_val new_node new_block memcpy load_node store_node
add_by_val h p b ll src size p_ne b_ne enough = ground arith

add-IsList :
    {h : Heap} {ll : Ptr} (c : Cell) (xs : List Cell)
    → IsList h ll xs
    → has_node c.node xs ≡ false
    → has_block c.block xs ≡ false
    → IsList (with_cell h c) ll xs
add-IsList c xs is out_node out_block = record {
  ll_ne = is.ll_ne;
  descriptor = is.descriptor;
  fits = is.fits;
  chain =
      Chain-frame xs null
        (record {
          nodes = λ a i. ground (arith, out_node);
          blocks = λ a i. ground (arith, out_block);
        })
        is.chain;
  distinct = is.distinct;
}

add-Spare :
    (h : Heap) (c : Cell) (xs : List Cell)
    → c.node ≢ null
    → c.block ≢ null
    → has_node c.node xs ≡ false
    → has_block c.block xs ≡ false
    → Spare (with_cell h c) c xs
add-Spare h c xs node_ne block_ne out_node out_block = record {
  holds = record {
    node_ne = node_ne;
    block_ne = block_ne;
    node_is = ground arith;
    block_is = ground arith;
  };
  new_node = out_node;
  new_block = out_block;
}

Added-back :
    {h : Heap} {ll : Ptr} {c : Cell} {xs : List Cell} (rc : Rc) (g : Heap)
    → Added (with_cell h c) ll c xs rc g
    → Added h ll c xs rc g
Added-back rc g (ok, list, u) = (
  ok,
  list,
  record {
    lists = u.lists;
    nodes = λ a o. ground (arith, u.nodes a);
    blocks = λ a o. ground (arith, u.blocks a);
  },
)

-- Given unused addresses from `kmalloc` and a source of at least `size` bytes,
-- `singly_ll_add_node_by_val` returns LL_SUCCESS, puts a copy of the first `size` bytes in front of
-- the list, counts it, and touches nothing but the descriptor and the new node and block.
pub add_node_by_val-IsList :
    {h : Heap} {ll : Ptr} {xs : List Cell} (p b : Ptr) (src : Bytes) (size : ℕ)
    → IsList h ll xs
    → suc (length xs) < 2 ^ 32
    → p ≢ null
    → b ≢ null
    → h.nodes p ≡ none
    → h.blocks b ≡ none
    → size ≤ length src
    → Ends
        (Added h ll (record { node = p; block = b; size = size; bytes = take size src }) xs)
        (singly_ll_add_node_by_val p b ll src size h)
add_node_by_val-IsList {h} {ll} {xs} p b src size is room p_ne b_ne p_new b_new enough =
    let c : Cell = record { node = p; block = b; size = size; bytes = take size src } in
    let out_node = unused_node h p xs null is.chain p_new in
    let out_block = unused_block h b xs null is.chain b_new in
    rw (add_by_val h p b ll src size p_ne b_ne enough) (
      Total.weaken
        (add_node-cons {c = c} xs (add-IsList c xs is out_node out_block)
          (add-Spare h c xs p_ne b_ne out_node out_block) room)
        Added-back)

-- A NULL list or a NULL node is refused with LL_FAILURE, and nothing changes.
pub add_node-null :
    (h : Heap) (ll node : Ptr)
    → ((ll ≡ null) ⊎ (node ≡ null))
    → singly_ll_add_node ll node h ≡ done ll_failure h
unfolding singly_ll_add_node
add_node-null h ll node e = ground arith
