-- ===== src/LinkedList/Remove.antt =====
-- `singly_ll_remove_node`: unlinks a node, which the caller then owns, with its data.
pub mod AnyNode
pub mod ByValue
use ribdriver.Base.{
  ℕ, suc, zero, ◌+◌, ◌-◌, ◌<◌, ◌^◌, ◌≡◌, refl, ◌≢◌, false, true, some, List, [], ◌∷◌, ◌++◌, arith,
  ◌==◌, dec32, length, length-append, if◌then◌else◌, eq_of_ne, ◌∙◌, append_assoc, Bool, ◌||◌,
}
use ribdriver.Memory.{
  Ptr, null, Heap, Ll, Node, Cmd, done, pure, update, ◌>>=◌, ◌>>◌, load_ll, store_ll, load_node,
  store_node, then_do,
}
use ribdriver.Memory.Total.{Ends, ends}
use ribdriver.Memory.Chain.{
  Cell, first, first-append, Holds, Chain, Chain-append, Chain-frame, Chain-split, IsList, Distinct,
  Disjoint, has_node, has_block, node_of, load_ll-IsList, load_node-Holds,
}
use ribdriver.Memory.Distinct.{has_node-append, has_block-append, Distinct-append, Distinct-split}
use ribdriver.LinkedList.{Rc, ll_success, ll_failure, set_next, set_head, dec_node_count}

-- `prev->next = head->next; head->next = NULL;` and so on, where `head` is the node that was looked
-- for.
pub unlink : (ll node prev head next : Ptr) → Cmd Rc
unfolding set_next dec_node_count
unlink ll node prev head next = do
  set_next prev next
  set_next head null
  dec_node_count ll
  set_next node null
  pure ll_success

-- The rounds of the loop that are left; the count does not change before the loop returns.
pub remove_loop : ℕ → (ll node prev head : Ptr) → Cmd Rc
unfolding unlink
remove_loop zero ll node prev head = pure ll_failure
remove_loop (suc k) ll node prev head =
    let rest = remove_loop k ll node in
    do
      n ← load_node head
      if head == node then unlink ll node prev head n.next else rest head n.next

pub remove_head : (ll node head : Ptr) → Cmd Rc
unfolding set_head set_next dec_node_count
remove_head ll node head = do
  n ← load_node head
  set_head ll n.next
  dec_node_count ll
  set_next node null
  pure ll_success

pub singly_ll_remove_node : Ptr → Ptr → Cmd Rc
singly_ll_remove_node ll node = if ll == null then pure ll_success else do
  l ← load_ll ll
  if l.head == null
      then pure ll_success
      else if node == null
      then pure ll_failure
      else if l.head == node
      then remove_head ll node l.head
      else (do n ← load_node l.head; remove_loop (l.node_count - 1) ll node l.head n.next)

-- The list `pre ++ c ∷ post` at `ll` has become `pre ++ post`; the node of `c` is on its own, every
-- block is as it was, and nothing else has changed.
pub record Removed (h : Heap) (ll : Ptr) (pre : List Cell) (c : Cell) (post : List Cell) (g : Heap)
    : Type 0 where
  pub list : IsList g ll (pre ++ post)
  pub alone : g.nodes c.node ≡ some (node_of c null)
  pub lists : (a : Ptr) → a ≢ ll → g.lists a ≡ h.lists a
  pub nodes : (a : Ptr) → has_node a (pre ++ c ∷ post) ≡ false → g.nodes a ≡ h.nodes a
  pub blocks : (a : Ptr) → g.blocks a ≡ h.blocks a

-- The successor of the first node of `init ++ l ∷ []`, where `l` points to `target`.
abbrev pub second : List Cell → Cell → Ptr → Ptr
second [] l target = target
second (x ∷ init) l target = first init l.node

-- The walk finds the target behind its predecessor `l`.
pub remove_loop-walk :
    (k : ℕ) (h : Heap) (ll : Ptr) (init : List Cell) (l c : Cell) (q : Ptr)
    → Chain h init l.node
    → Holds h l c.node
    → Holds h c q
    → has_node c.node init ≡ false
    → l.node ≢ c.node
    → length init < k
    → remove_loop k ll c.node (first init l.node) (second init l c.node) h
      ≡ unlink ll c.node l.node c.node q h
unfolding remove_loop
remove_loop-walk zero h ll init l c q ch el ec out ne fuel = absurd (omega arith)
remove_loop-walk (suc k) h ll [] l c q ch el ec out ne fuel = ground (arith, load_node-Holds ec)
remove_loop-walk (suc k) h ll (x ∷ []) l c q (ex, ch) el ec out ne fuel =
    ground (arith, load_node-Holds el, remove_loop-walk k h ll [] l c q tt el ec refl ne)
remove_loop-walk (suc k) h ll (x ∷ y ∷ ys) l c q (ex, (ey, ch)) el ec out ne fuel =
    ground (arith, load_node-Holds ey, remove_loop-walk k h ll (y ∷ ys) l c q (ey, ch) el ec)

abbrev pub unlinked : Heap → Ptr → Ll → Cell → Cell → Ptr → Heap
unlinked h ll d l c q = record h {
  lists = update h.lists ll (some (record d { node_count = dec32 d.node_count }));
  nodes =
      update (update (update h.nodes l.node (some (node_of l q))) c.node (some (node_of c null)))
        c.node (some (node_of c null));
}

pub unlink-heap :
    (h : Heap) (ll : Ptr) (d : Ll) (l c : Cell) (q : Ptr)
    → ll ≢ null
    → h.lists ll ≡ some d
    → Holds h l c.node
    → Holds h c q
    → l.node ≢ c.node
    → unlink ll c.node l.node c.node q h ≡ done ll_success (unlinked h ll d l c q)
unfolding unlink set_next dec_node_count load_ll store_ll load_node store_node
unlink-heap h ll d l c q ll_ne is el ec ne =
    ground (arith, el.node_is, el.node_ne, ec.node_is, ec.node_ne)

abbrev pub headless : Heap → Ptr → Ll → Cell → Ptr → Heap
headless h ll d c q = record h {
  lists =
      update (update h.lists ll (some (record d { head = q }))) ll
        (some (record { node_count = dec32 d.node_count; head = q }));
  nodes = update h.nodes c.node (some (node_of c null));
}

pub remove_head-heap :
    (h : Heap) (ll : Ptr) (d : Ll) (c : Cell) (q : Ptr)
    → ll ≢ null
    → h.lists ll ≡ some d
    → Holds h c q
    → remove_head ll c.node c.node h ≡ done ll_success (headless h ll d c q)
unfolding remove_head set_head set_next dec_node_count load_ll store_ll load_node store_node
remove_head-heap h ll d c q ll_ne is ec = ground (arith, ec.node_is, ec.node_ne)
