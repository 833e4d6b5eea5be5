-- ===== src/Table.antt =====
-- RT/rt_table.c and RT/rt_table.h: the routing table with its change list and its polling readers,
-- and MAC/mac_table.c, which is the same code for another entry. A `Layout` says in what they
-- differ, and the functions carry the routing table's names; `Mac.Table` has the others. The lists
-- are the sequences that `LinkedList` proves the list operations to keep, first node first. `rt`
-- lists the addresses of the entries' data blocks, since the change list points to the same blocks;
-- `memory` says which blocks are live. Addresses that `kmalloc` returns, whether a user pointer
-- passes `access_ok`, and whether a lock is interrupted are arguments.
pub mod Entries
pub mod Changes
pub mod OnHeap
mod Tests
use ribdriver.Base.{
  ℕ, suc, zero, ◌+◌, ◌*◌, ◌/◌, Bool, true, false, Option, none, some, List, [], ◌∷◌, ◌++◌, map,
  ◌==◌, ltb, if◌then◌else◌, length, take, replicate,
}
use ribdriver.Base.Members.{present}
use ribdriver.Memory.{Ptr, Bytes, update, same_bytes}

-- What distinguishes the two tables: the width of an entry's second field, and the update codes.
pub record Layout : Type 0 where
  pub width : ℕ
  pub route_update : ℕ
  pub route_add : ℕ
  pub route_del : ℕ
  pub delete : ℕ

-- rtkernusr.h and the first part of cmdcodes.h
abbrev pub rt_layout : Layout
rt_layout = record { width = 16; route_update = 0; route_add = 1; route_del = 2; delete = 3 }

-- `struct rt_entry`: `dst_ip` and `oif` have 16 bytes, `nxt_hop_ip` as many as the layout says. In a
-- `struct mac_entry` the first two are called `vlan_id` and `mac`.
pub record Entry : Type 0 where
  pub dst_ip : Bytes
  pub nxt_hop_ip : Bytes
  pub oif : Bytes

abbrev pub sizeof_entry : ⦃lay : Layout⦄ → ℕ
sizeof_entry ⦃lay⦄ = 16 + lay.width + 16

-- `struct rt_update_t`
pub record Update : Type 0 where
  pub op_code : ℕ
  pub entry : Entry

abbrev pub sizeof_update : ⦃lay : Layout⦄ → ℕ
sizeof_update ⦃lay⦄ = 4 + sizeof_entry

-- `struct rt_preserve_updates_t`
pub record Preserved : Type 0 where
  pub op_code : ℕ
  pub entry : Ptr

-- A `struct file *`.
abbrev pub File : Type 0
File = ℕ

pub record Table : Type 0 where
  pub rt : List Ptr
  pub rt_change_list : List Preserved
  pub poll_readers_list : List File
  pub memory : Ptr → Option Entry

-- A C `int` that is a count or a negative error code.
pub data Status : Type 0 where
  value : ℕ → Status
  erestartsys : Status

-- The three lists are made empty.
unfoldable pub init_rt_table : (Ptr → Option Entry) → Table
init_rt_table memory = record {
  rt = [];
  rt_change_list = [];
  poll_readers_list = [];
  memory = memory;
}

unfoldable pub mutex_rt_get_pollar_readers_count : (interrupted : Bool) → Table → Status
mutex_rt_get_pollar_readers_count interrupted t =
    if interrupted then erestartsys else value (length t.poll_readers_list)

unfoldable pub add_rt_table_unique_poll_reader : File → Table → Table
add_rt_table_unique_poll_reader filep t =
    if present filep t.poll_readers_list
    then t
    else record t { poll_readers_list = filep ∷ t.poll_readers_list }

module _ ⦃lay : Layout⦄ where
  -- The new node is the head of the table, so the change list gets the address of its block.
  unfoldable pub add_rt_table_entry_by_val : (fresh : Ptr) → Entry → Table → Table
  add_rt_table_entry_by_val fresh entry t = record t {
    rt = fresh ∷ t.rt;
    rt_change_list = record { op_code = lay.route_add; entry = fresh } ∷ t.rt_change_list;
    memory = update t.memory fresh (some entry);
  }

-- No copy is made, and the change list is left alone.
unfoldable pub add_rt_table_entry_by_ref : (entry : Ptr) → Table → Table
add_rt_table_entry_by_ref entry t = record t { rt = entry ∷ t.rt }

-- `strncpy(dst, src, n)`: the bytes before the first NUL, filled up with NULs to `n` bytes.
abbrev pub strncpy : Bytes → ℕ → Bytes
strncpy src zero = []
strncpy [] (suc n) = 0 ∷ strncpy [] n
strncpy (b ∷ src) (suc n) = if b == 0 then 0 ∷ replicate n 0 else b ∷ strncpy src n

-- `_rt_entry->dst_ip` as `lookup_rt_table` leaves it.
unfoldable pub overwrite_key : Bytes → Entry → Entry
overwrite_key ip_key e = record e { dst_ip = strncpy ip_key 16 }

-- The loop calls `strncpy`, which returns its destination, and tests that against 0: it writes the
-- key into each entry and finds none. `none` is a read of a freed block, and the inner `none` NULL.
unfoldable pub lookup_loop :
    Bytes → List Ptr → (Ptr → Option Entry) → Option (Option Ptr × (Ptr → Option Entry))
unfolding overwrite_key
lookup_loop ip_key [] memory = some (none, memory)
lookup_loop ip_key (p ∷ ps) memory = elim (memory p) [
  | none ↦ none
  | some e ↦ lookup_loop ip_key ps (update memory p (some (overwrite_key ip_key e)))
]

unfoldable pub lookup_rt_table : Bytes → Table → Option (Option Ptr × Table)
unfolding lookup_loop
lookup_rt_table ip_key t = elim (lookup_loop ip_key t.rt t.memory) [
  | none ↦ none
  | some (found, memory) ↦ some (found, record t { memory = memory })
]

-- `memcmp` of an entry's first 16 bytes, its `dst_ip`, with the key.
abbrev pub has_key : Bytes → Option Entry → Bool
has_key ip_key none = false
has_key ip_key (some e) = same_bytes (take 16 e.dst_ip) (take 16 ip_key)

-- The first entry with the key goes, and its block is freed.
unfoldable pub delete_loop :
    Bytes → List Ptr → (Ptr → Option Entry) → List Ptr × (Ptr → Option Entry) × ℕ
delete_loop ip_key [] memory = ([], memory, 0)
delete_loop ip_key (p ∷ ps) memory =
    let (rest, memory', n) = delete_loop ip_key ps memory in
    if has_key ip_key (memory p) then (ps, update memory p none, 1) else (p ∷ rest, memory', n)

unfoldable pub delete_rt_table_entry : Bytes → Table → Table × ℕ
unfolding delete_loop
delete_rt_table_entry ip_key t =
    let (rest, memory, n) = delete_loop ip_key t.rt t.memory in
    (record t { rt = rest; memory = memory }, n)

-- The entries of the first `n` blocks; `none` is a read of a freed block.
abbrev pub read_entries : ℕ → List Ptr → (Ptr → Option Entry) → Option (List Entry)
read_entries zero ps memory = some []
read_entries (suc n) [] memory = some []
read_entries (suc n) (p ∷ ps) memory = elim (memory p) [
  | none ↦ none
  | some e ↦ elim (read_entries n ps memory) [ none ↦ none | some es ↦ some (e ∷ es) ]
]

module _ ⦃lay : Layout⦄ where
  -- What is copied to the user buffer, with the number of entries that is returned.
  unfoldable pub copy_rt_table_to_user_space :
      (access_ok : Bool) (buf_size : ℕ) → Table → Option (List Entry × ℕ)
  copy_rt_table_to_user_space access_ok buf_size t =
      if length t.rt == 0
      then some ([], 0)
      else if access_ok
      then (let fits = buf_size / sizeof_entry in
          let units = if ltb fits (length t.rt) then fits else length t.rt in
          elim (read_entries units t.rt t.memory) [ none ↦ none | some es ↦ some (es, units) ])
      else some ([], 0)

-- `kfree` of every block of a list.
abbrev pub free_all : List Ptr → (Ptr → Option Entry) → Ptr → Option Entry
free_all [] memory = memory
free_all (p ∷ ps) memory = free_all ps (update memory p none)

-- The change list keeps its pointers.
unfoldable pub purge_rt_table : Table → Table
purge_rt_table t = record t { rt = []; memory = free_all t.rt t.memory }

unfoldable pub mutex_is_rt_updated : (interrupted : Bool) → Table → Status
mutex_is_rt_updated interrupted t =
    if interrupted then erestartsys else if length t.rt_change_list == 0 then value 0 else value 1

module _ ⦃lay : Layout⦄ where
  -- Of the codes only RT_ROUTE_ADD does anything.
  unfoldable pub apply_rt_updates : (fresh : Ptr) → Update → Table → Table
  unfolding add_rt_table_entry_by_val
  apply_rt_updates fresh msg t =
      if msg.op_code == lay.route_add then add_rt_table_entry_by_val fresh msg.entry t else t

unfoldable pub rt_empty_change_list : Table → Table
rt_empty_change_list t = record t { rt_change_list = [] }

-- The vector of updates for the readers; `none` is a read through a pointer to a freed entry.
abbrev pub gather : List Preserved → (Ptr → Option Entry) → Option (List Update)
gather [] memory = some []
gather (c ∷ cs) memory = elim (memory c.entry) [
  | none ↦ none
  | some e ↦ elim (gather cs memory) [
    | none ↦ none
    | some us ↦ some (record { op_code = c.op_code; entry = e } ∷ us)
  ]
]

-- What the pointer `rt_update_vector` leads to.
pub data Vector : Type 0 where
  null freed : Vector
  live : List Update → Vector

-- The new vector and its count; without memory the vector is NULL and the count 0.
unfoldable pub rt_get_updated_rt_entries : (no_mem : Bool) → Table → Option (Vector × ℕ)
rt_get_updated_rt_entries no_mem t =
    if no_mem then some (null, 0) else elim (gather t.rt_change_list t.memory) [
      | none ↦ none
      | some us ↦ some (live us, length us)
    ]
