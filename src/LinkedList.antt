-- ===== src/LinkedList.antt =====
-- common/LinkedListApi.c: the operations of the singly linked list, on the heap of `Memory`.
-- An address that `kmalloc` returns is an argument. A loop over the nodes takes fuel, the node count
-- and one more round; a data block that is only compared or copied is given by its bytes.
pub mod Add
pub mod Find
pub mod ByBlock
pub mod Unlink
pub mod Delete
pub mod Clear
pub mod Relink
pub mod Reverse
pub mod Remove
mod Tests
use ribdriver.Base.{
  ℕ, zero, suc, ◌+◌, ◌-◌, Bool, true, false, not, ◌&&◌, ◌||◌, ◌==◌, if◌then◌else◌, inc32, dec32,
  sub32,
}
use ribdriver.Memory.{
  Ptr, null, Bytes, Ll, Node, Cmd, stuck, fault, pure, ◌>>=◌, ◌>>◌, load_ll, load_node, load_block,
  store_ll, store_node, free_node, free_block, new_ll, new_node, new_block, memcmp_zero, memcpy,
}

-- `enum rc_t`
pub data Rc : Type 0 where
  ll_success ll_failure : Rc

abbrev out_of_fuel : {A : Type 0} → Cmd A
out_of_fuel h = stuck

-- `node->next = next`
pub set_next : Ptr → Ptr → Cmd (Unit {0})
set_next p q = do n ← load_node p; store_node p (record n { next = q })

-- `GET_HEAD_SINGLY_LL(ll) = head`, with INC_NODE_COUNT and DEC_NODE_COUNT
pub set_head : Ptr → Ptr → Cmd (Unit {0})
set_head ll p = do l ← load_ll ll; store_ll ll (record l { head = p })

pub inc_node_count : Ptr → Cmd (Unit {0})
inc_node_count ll = do l ← load_ll ll; store_ll ll (record l { node_count = inc32 l.node_count })

pub dec_node_count : Ptr → Cmd (Unit {0})
dec_node_count ll = do l ← load_ll ll; store_ll ll (record l { node_count = dec32 l.node_count })

pub init_singly_ll : (fresh : Ptr) → Cmd Ptr
init_singly_ll fresh = do new_ll fresh (record { node_count = 0; head = null }); pure fresh

pub singly_ll_init_node : (fresh : Ptr) → Cmd Ptr
singly_ll_init_node fresh = do
  new_node fresh (record { block = null; data_size = 0; next = null })
  pure fresh

pub is_singly_ll_empty : Ptr → Cmd Bool
is_singly_ll_empty ll = do l ← load_ll ll; pure (l.node_count == 0)

pub singly_ll_add_node : Ptr → Ptr → Cmd Rc
unfolding set_next set_head inc_node_count
singly_ll_add_node ll node =
    if ll == null then pure ll_failure else if node == null then pure ll_failure else do
      l ← load_ll ll
      if l.head == null
          then (do set_head ll node; inc_node_count ll; pure ll_success)
          else (do set_next node l.head; set_head ll node; inc_node_count ll; pure ll_success)

pub singly_ll_add_node_by_val :
    (fresh_node fresh_block ll : Ptr) (src : Bytes) (data_size : ℕ) → Cmd Rc
unfolding singly_ll_init_node singly_ll_add_node
singly_ll_add_node_by_val fresh_node fresh_block ll src data_size = do
  node ← singly_ll_init_node fresh_node
  n ← load_node node
  store_node node (record n { block = fresh_block; data_size = data_size })
  copy ← memcpy src data_size
  new_block fresh_block copy
  singly_ll_add_node ll node

-- `while(trav->next != node) trav = trav->next;`
pub find_prev : ℕ → (node trav : Ptr) → Cmd Ptr
find_prev zero node trav = out_of_fuel
find_prev (suc k) node trav = do
  t ← load_node trav
  elim (t.next == node) [ true ↦ pure trav | false ↦ find_prev k node t.next ]

-- The three ways of `singly_ll_delete_node`: a node with a successor takes over the successor's
-- data, the only node is freed, and the last of several is unlinked from its predecessor.
pub delete_inner : (ll node : Ptr) → Node → Cmd Rc
unfolding dec_node_count
delete_inner ll node n = do
  free_block n.block
  t ← load_node n.next
  store_node node (record n { block = t.block; next = t.next })
  free_node n.next
  dec_node_count ll
  pure ll_success

pub delete_only : (ll node : Ptr) → Node → Cmd Rc
unfolding dec_node_count set_head
delete_only ll node n = do
  free_block n.block
  free_node node
  set_head ll null
  dec_node_count ll
  pure ll_success

pub delete_last : (ll node : Ptr) → Node → Ll → Cmd Rc
unfolding dec_node_count set_next
delete_last ll node n l = do
  trav ← find_prev (l.node_count + 1) node l.head
  set_next trav null
  free_block n.block
  free_node node
  dec_node_count ll
  pure ll_success

-- The early `return 0` is LL_SUCCESS.
pub singly_ll_delete_node : Ptr → Ptr → Cmd Rc
singly_ll_delete_node ll node = if ll == null then pure ll_failure else do
  l ← load_ll ll
  if (l.head == null) || (node == null) then pure ll_success else do
    n ← load_node node
    if not (n.next == null)
        then delete_inner ll node n
        else if (l.node_count == 1) && (l.head == node)
        then delete_only ll node n
        else delete_last ll node n l

pub delete_by_value_loop : ℕ → (ll : Ptr) (key : Bytes) (size before : ℕ) (trav : Ptr) → Cmd ℕ
delete_by_value_loop zero ll key size before trav = out_of_fuel
delete_by_value_loop (suc k) ll key size before trav =
    let rest = delete_by_value_loop k ll key size before in
    if trav == null then (do l ← load_ll ll; pure (sub32 before l.node_count)) else do
      t ← load_node trav
      b ← load_block t.block
      hit ← memcmp_zero b key size
      if hit
          then (do
            _ ← singly_ll_delete_node ll trav
            l ← load_ll ll
            pure (sub32 before l.node_count))
          else rest t.next

-- The count and the head are read before `ll` is tested, so a NULL list faults.
pub singly_ll_delete_node_by_value : Ptr → Bytes → ℕ → Cmd ℕ
singly_ll_delete_node_by_value ll key size = do
  l ← load_ll ll
  if (ll == null) || (l.head == null)
      then pure 0
      else delete_by_value_loop (l.node_count + 1) ll key size l.node_count l.head

pub get_node_loop : ℕ → (block head : Ptr) → Cmd Ptr
get_node_loop zero block head = pure null
get_node_loop (suc k) block head = do
  n ← load_node head
  elim (n.block == block) [ true ↦ pure head | false ↦ get_node_loop k block n.next ]

-- Bounded by the node count, so no fuel.
pub singly_ll_get_node_by_data_ptr : Ptr → Ptr → Cmd Ptr
unfolding get_node_loop
singly_ll_get_node_by_data_ptr ll block = do
  l ← load_ll ll
  if (ll == null) || (l.head == null) then pure null else get_node_loop l.node_count block l.head

pub present_loop : ℕ → (key : Bytes) (size : ℕ) (head : Ptr) → Cmd Ptr
present_loop zero key size head = out_of_fuel
present_loop (suc k) key size head = if head == null then pure null else do
  n ← load_node head
  b ← load_block n.block
  hit ← memcmp_zero b key size
  elim hit [ true ↦ pure head | false ↦ present_loop k key size n.next ]

-- `assert(0)` on a NULL list is a fault.
pub singly_ll_is_value_present : Ptr → Bytes → ℕ → Cmd Ptr
unfolding present_loop
singly_ll_is_value_present ll key size = do
  l ← load_ll ll
  present_loop (l.node_count + 1) key size l.head
