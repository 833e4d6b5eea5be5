-- ===== src/Fops/OnHeap.antt =====
-- The lists of polling readers as the driver keeps them: lists of common/LinkedListApi.c whose blocks
-- hold a `struct file *`. Addresses that `kmalloc` returns are arguments.
pub mod Pointers
pub mod Readers
pub mod Lists
pub mod TakeOver
pub mod Refines
mod Tests
use ribdriver.Base.{ℕ, zero, suc, ◌%◌, ◌/◌, Bool, true, false, List, [], ◌∷◌, ◌==◌, if◌then◌else◌}
use ribdriver.Memory.{Ptr, null, Bytes, Cmd, pure, ◌>>=◌, ◌>>◌, load_ll, store_ll}
use ribdriver.Memory.Encoding.{little_endian}
use ribdriver.Table.{File}
use ribdriver.LinkedList.{
  Rc, singly_ll_add_node_by_val, singly_ll_delete_node_by_value, singly_ll_is_value_present,
}

abbrev pub sizeof_pointer : ℕ
sizeof_pointer = 8

-- What `&filep` leads to.
unfoldable pub pointer_bytes : File → Bytes
unfolding little_endian
pointer_bytes filep = little_endian sizeof_pointer filep

-- `add_rt_table_unique_poll_reader`
pub add_unique_poll_reader : (node block poll_readers_list : Ptr) → File → Cmd (Unit {0})
add_unique_poll_reader node block poll_readers_list filep = do
  found ← singly_ll_is_value_present poll_readers_list (pointer_bytes filep) sizeof_pointer
  if found == null
      then (do
        _ ←
            singly_ll_add_node_by_val node block poll_readers_list (pointer_bytes filep)
              sizeof_pointer
        pure tt)
      else pure tt

-- The end of `rt_read`: the reader goes from the list of polling readers, if it is there, to the black
-- list.
pub move_poll_reader : (node block poll_readers_list black_list : Ptr) → File → Cmd (Unit {0})
move_poll_reader node block poll_readers_list black_list filp = do
  found ← singly_ll_is_value_present poll_readers_list (pointer_bytes filp) sizeof_pointer
  if found == null then pure tt else (do
    _ ← singly_ll_delete_node_by_value poll_readers_list (pointer_bytes filp) sizeof_pointer
    pure tt)
  _ ← singly_ll_add_node_by_val node block black_list (pointer_bytes filp) sizeof_pointer
  pure tt

-- The end of `rt_poll`: the list of polling readers takes over the black list's nodes, if it is empty.
pub take_over : (poll_readers_list black_list : Ptr) → Cmd (Unit {0})
take_over poll_readers_list black_list = do
  l ← load_ll poll_readers_list
  if l.node_count == 0
      then (do
        b ← load_ll black_list
        store_ll poll_readers_list (record { node_count = b.node_count; head = b.head })
        store_ll black_list (record { node_count = 0; head = null }))
      else pure tt
