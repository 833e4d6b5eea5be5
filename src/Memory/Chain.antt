-- ===== src/Memory/Chain.antt =====
-- Chains of list nodes on the heap, and the rules of the heap commands at a node of a chain.
use ribdriver.Base.{
  ℕ, ◌^◌, ◌<◌, ◌≡◌, refl, ◌≢◌, Bool, true, false, ◌||◌, none, some, List, [], ◌∷◌, ◌++◌, ◌∙◌, map,
  arith, ◌==◌, length,
}
use ribdriver.Memory.{
  Ptr, null, Bytes, Ll, Node, Heap, update, done, load_ll, load_node, load_block, store_ll,
  store_node, free_node, free_block,
}

-- What one node stands for: its address, its data block and the block's bytes, and `data_size`.
pub record Cell : Type 0 where
  pub node : Ptr
  pub block : Ptr
  pub size : ℕ
  pub bytes : Bytes

abbrev pub node_of : Cell → Ptr → Node
node_of c q = record { block = c.block; data_size = c.size; next = q }

abbrev pub has_node : Ptr → List Cell → Bool
has_node a [] = false
has_node a (c ∷ xs) = (a == c.node) || has_node a xs

abbrev pub has_block : Ptr → List Cell → Bool
has_block a [] = false
has_block a (c ∷ xs) = (a == c.block) || has_block a xs

-- No address occurs twice.
abbrev pub Distinct : List Cell → Type 0
Distinct [] = Unit
Distinct (c ∷ xs) = (has_node c.node xs ≡ false) × (has_block c.block xs ≡ false) × Distinct xs

abbrev pub first : List Cell → Ptr → Ptr
first [] stop = stop
first (c ∷ xs) stop = c.node

-- The node of `c` is on the heap, with successor `q`, and so is its block.
pub record Holds (h : Heap) (c : Cell) (q : Ptr) : Type 0 where
  pub node_ne : c.node ≢ null
  pub block_ne : c.block ≢ null
  pub node_is : h.nodes c.node ≡ some (node_of c q)
  pub block_is : h.blocks c.block ≡ some c.bytes

-- The nodes of `xs` are linked in this order, and the last one points to `stop`.
abbrev pub Chain : Heap → List Cell → Ptr → Type 0
Chain h [] stop = Unit
Chain h (c ∷ xs) stop = Holds h c (first xs stop) × Chain h xs stop

-- The descriptor at `ll` heads a NULL-terminated chain of distinct nodes, and counts them.
pub record IsList (h : Heap) (ll : Ptr) (xs : List Cell) : Type 0 where
  pub ll_ne : ll ≢ null
  pub descriptor : h.lists ll ≡ some (record { node_count = length xs; head = first xs null })
  pub fits : length xs < 2 ^ 32
  pub chain : Chain h xs null
  pub distinct : Distinct xs

abbrev pub values : List Cell → List Bytes
values xs = map (λ (c : Cell). c.bytes) xs

module _ {h : Heap} {c : Cell} {q : Ptr} (e : Holds h c q) where
  pub load_node-Holds : load_node c.node h ≡ done (node_of c q) h
  unfolding load_node
  load_node-Holds = ground (arith, e.node_is, e.node_ne)

  pub load_block-Holds : load_block c.block h ≡ done c.bytes h
  unfolding load_block
  load_block-Holds = ground (arith, e.block_is, e.block_ne)

  pub store_node-Holds :
      (n : Node)
      → store_node c.node n h ≡ done tt (record h { nodes = update h.nodes c.node (some n) })
  unfolding store_node
  store_node-Holds n = ground (arith, e.node_is, e.node_ne)

  pub free_node-Holds :
      free_node c.node h ≡ done tt (record h { nodes = update h.nodes c.node none })
  unfolding free_node
  free_node-Holds = ground (arith, e.node_is, e.node_ne)

  pub free_block-Holds :
      free_block c.block h ≡ done tt (record h { blocks = update h.blocks c.block none })
  unfolding free_block
  free_block-Holds = ground (arith, e.block_is, e.block_ne)

-- `g` has what `h` has at every address of `xs`.
pub record Agree (xs : List Cell) (h g : Heap) : Type 0 where
  pub nodes : (a : Ptr) → has_node a xs ≡ true → g.nodes a ≡ h.nodes a
  pub blocks : (a : Ptr) → has_block a xs ≡ true → g.blocks a ≡ h.blocks a

pub Chain-frame :
    {h g : Heap} (xs : List Cell) (stop : Ptr) → Agree xs h g → Chain h xs stop → Chain g xs stop
Chain-frame [] stop same c = tt
Chain-frame (c ∷ xs) stop same (e, rest) = (
  record {
    node_ne = e.node_ne;
    block_ne = e.block_ne;
    node_is = ground (arith, same.nodes c.node, e.node_is);
    block_is = ground (arith, same.blocks c.block, e.block_is);
  },
  Chain-frame xs stop
      (record {
        nodes = λ a i. same.nodes a (ground arith);
        blocks = λ a i. same.blocks a (ground arith);
      })
      rest,
)

pub first-append :
    (xs ys : List Cell) (stop : Ptr) → first (xs ++ ys) stop ≡ first xs (first ys stop)
first-append [] ys stop = refl
first-append (c ∷ xs) ys stop = refl

pub Chain-append :
    (h : Heap) (xs ys : List Cell) (stop : Ptr)
    → Chain h xs (first ys stop)
    → Chain h ys stop
    → Chain h (xs ++ ys) stop
Chain-append h [] ys stop cx cy = cy
Chain-append h (c ∷ xs) ys stop (e, cx) cy =
    (rw (first-append xs ys stop) e, Chain-append h xs ys stop cx cy)

pub Chain-split :
    (h : Heap) (xs ys : List Cell) (stop : Ptr)
    → Chain h (xs ++ ys) stop
    → Chain h xs (first ys stop) × Chain h ys stop
Chain-split h [] ys stop c = (tt, c)
Chain-split h (c ∷ xs) ys stop (e, rest) =
    let (cx, cy) = Chain-split h xs ys stop rest in ((rw (first-append xs ys stop) at e, cx), cy)

-- An address that holds nothing is none of the chain's.
pub unused_node :
    (h : Heap) (a : Ptr) (xs : List Cell) (stop : Ptr)
    → Chain h xs stop
    → h.nodes a ≡ none
    → has_node a xs ≡ false
unused_node h a [] stop c free = refl
unused_node h a (x ∷ xs) stop (e, rest) free =
    ground (arith, e.node_is, unused_node h a xs stop rest free)

pub unused_block :
    (h : Heap) (a : Ptr) (xs : List Cell) (stop : Ptr)
    → Chain h xs stop
    → h.blocks a ≡ none
    → has_block a xs ≡ false
unused_block h a [] stop c free = refl
unused_block h a (x ∷ xs) stop (e, rest) free =
    ground (arith, e.block_is, unused_block h a xs stop rest free)

-- `g` differs from `h` at most at the descriptor `ll` and at the addresses of `xs`.
pub record Untouched (ll : Ptr) (xs : List Cell) (h g : Heap) : Type 0 where
  pub lists : (a : Ptr) → a ≢ ll → g.lists a ≡ h.lists a
  pub nodes : (a : Ptr) → has_node a xs ≡ false → g.nodes a ≡ h.nodes a
  pub blocks : (a : Ptr) → has_block a xs ≡ false → g.blocks a ≡ h.blocks a

-- Two lists share no node and no block.
pub record Disjoint (xs ys : List Cell) : Type 0 where
  pub nodes : (a : Ptr) → has_node a ys ≡ true → has_node a xs ≡ false
  pub blocks : (a : Ptr) → has_block a ys ≡ true → has_block a xs ≡ false

pub Untouched-Agree :
    {ll : Ptr} {h g : Heap} (xs ys : List Cell)
    → Untouched ll xs h g
    → Disjoint xs ys
    → Agree ys h g
Untouched-Agree xs ys u d = record {
  nodes = λ a i. u.nodes a (d.nodes a i);
  blocks = λ a i. u.blocks a (d.blocks a i);
}

-- A list that shares nothing with what an operation touches is the same list afterwards.
pub IsList-frame :
    {ll other : Ptr} {h g : Heap} {xs ys : List Cell}
    → Untouched ll xs h g
    → other ≢ ll
    → Disjoint xs ys
    → IsList h other ys
    → IsList g other ys
IsList-frame {other} {xs} {ys} u ne d is = record {
  ll_ne = is.ll_ne;
  descriptor = u.lists other ne ∙ is.descriptor;
  fits = is.fits;
  chain = Chain-frame ys null (Untouched-Agree xs ys u d) is.chain;
  distinct = is.distinct;
}

module _ {h : Heap} {ll : Ptr} {xs : List Cell} (is : IsList h ll xs) where
  pub load_ll-IsList :
      load_ll ll h ≡ done (record { node_count = length xs; head = first xs null }) h
  unfolding load_ll
  load_ll-IsList = ground (arith, is.ll_ne, is.descriptor)

  pub store_ll-IsList :
      (l : Ll) → store_ll ll l h ≡ done tt (record h { lists = update h.lists ll (some l) })
  unfolding store_ll
  store_ll-IsList l = ground (arith, is.ll_ne, is.descriptor)
