-- ===== src/Table/OnHeap.antt =====
-- RT/rt_table.c on the heap of `Memory`: how an entry gets into the table and into the change list,
-- and how the updates for the readers are read through the pointers of the change list. Addresses
-- that `kmalloc` returns are arguments.
pub mod Encoded
pub mod Stored
pub mod Adding
pub mod Refines
pub mod Gathers
pub mod ReadBack
pub mod Owned
pub mod Deleting
mod Tests
use ribdriver.Base.{
  ℕ, zero, suc, ◌+◌, ◌*◌, Bool, true, false, Option, none, some, List, [], ◌∷◌, ◌++◌, if◌then◌else◌,
  take, drop, replicate,
}
use ribdriver.Memory.{Ptr, Bytes, Cmd, pure, ◌>>=◌, ◌>>◌, load_ll, load_node, load_block, memcpy}
use ribdriver.Memory.Encoding.{little_endian, from_little_endian}
use ribdriver.Table.{Layout, Entry, sizeof_entry, Preserved, Update}
use ribdriver.LinkedList.{Rc, singly_ll_add_node_by_val, singly_ll_delete_node_by_value}

-- A `struct rt_entry` as it lies in memory.
unfoldable pub entry_bytes : Entry → Bytes
entry_bytes e = e.dst_ip ++ (e.nxt_hop_ip ++ e.oif)

abbrev pub sizeof_preserved : ℕ
sizeof_preserved = 16

-- A `struct rt_preserve_updates_t`, set to 0 at first: between the code and the pointer are four
-- bytes of padding.
unfoldable pub preserved_bytes : Preserved → Bytes
unfolding little_endian
preserved_bytes c = little_endian 4 c.op_code ++ (replicate 4 0 ++ little_endian 8 c.entry)

-- `msg.entry`
unfoldable pub entry_pointer : Bytes → Ptr
unfolding from_little_endian
entry_pointer msg = from_little_endian 8 (drop 8 msg)

-- A `struct rt_update_t`
unfoldable pub update_bytes : Update → Bytes
unfolding little_endian entry_bytes
update_bytes u = little_endian 4 u.op_code ++ entry_bytes u.entry

module _ ⦃lay : Layout⦄ where
  -- `add_rt_table_entry_by_val`
  pub add_entry_by_val : (node block node2 block2 rt_ll change_ll : Ptr) → Entry → Cmd Rc
  add_entry_by_val node block node2 block2 rt_ll change_ll entry = do
    rc ← singly_ll_add_node_by_val node block rt_ll (entry_bytes entry) sizeof_entry
    l ← load_ll rt_ll
    n ← load_node l.head
    _ ←
        singly_ll_add_node_by_val node2 block2 change_ll
          (preserved_bytes (record { op_code = lay.route_add; entry = n.block })) sizeof_preserved
    pure rc

  -- The loop of `rt_get_updated_rt_entries`, over the nodes that the change list counts.
  pub gather_nodes : ℕ → (head : Ptr) → Cmd (List Bytes)
  gather_nodes zero head = pure []
  gather_nodes (suc k) head = do
    n ← load_node head
    data_block ← load_block n.block
    msg ← memcpy data_block sizeof_preserved
    e ← load_block (entry_pointer msg)
    copy ← memcpy e sizeof_entry
    rest ← gather_nodes k n.next
    pure ((take 4 msg ++ copy) ∷ rest)

  -- `rt_get_updated_rt_entries`; `none` is the NULL vector.
  pub get_updated_entries : (no_mem : Bool) (change_ll : Ptr) → Cmd (Option (List Bytes) × ℕ)
  unfolding gather_nodes
  get_updated_entries no_mem change_ll = do
    l ← load_ll change_ll
    if no_mem
        then pure (none, 0)
        else (do us ← gather_nodes l.node_count l.head; pure (some us, l.node_count))

-- `delete_rt_table_entry`
pub delete_entry : (rt_ll : Ptr) (ip_key : Bytes) → Cmd ℕ
delete_entry rt_ll ip_key = singly_ll_delete_node_by_value rt_ll ip_key 16
