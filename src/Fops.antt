-- ===== src/Fops.antt =====
-- RT/rt_fops.c: `rt_write`, `rt_poll` and `rt_read`, by which polling readers learn of updates.
-- `rt_read` has three parts, cut where it takes and gives up its semaphore; `none` is a kernel
-- fault, a use or a second free of a freed block.
pub mod Poll
pub mod Round
pub mod Faults
pub mod Delivery
pub mod Again
pub mod Calls
pub mod Reads
pub mod OnHeap
mod Tests
use ribdriver.Base.{
  ℕ, ◌+◌, ◌-◌, ◌*◌, ◌/◌, ◌%◌, ◌^◌, Bool, true, false, not, Option, none, some, List, [], ◌∷◌, ◌++◌,
  ◌==◌, ltb, if◌then◌else◌, length, take,
}
use ribdriver.Memory.{Ptr, Bytes}
use ribdriver.Base.Members.{present, erase}
use ribdriver.Table.{
  Layout, File, Update, Table, Vector, null, freed, live, Status, value, erestartsys, sizeof_entry,
  sizeof_update, rt_empty_change_list, rt_get_updated_rt_entries, apply_rt_updates,
  mutex_is_rt_updated, add_rt_table_unique_poll_reader,
}

-- RT_MAX_ENTRIES_FETCH
abbrev pub rt_max_entries_fetch : ℕ
rt_max_entries_fetch = 20

-- The table and the file's static variables. `rw_readers` counts who holds `rt->rw_sem` for reading.
pub record Driver : Type 0 where
  pub table : Table
  pub rt_update_vector : Vector
  pub rt_update_vector_count : ℕ
  pub black_listed_poll_readers_list : List File
  pub rw_readers : ℕ

-- `struct rt_update_t` in memory: the code in four bytes, lowest first, then the entry.
abbrev pub serialize : Update → Bytes
serialize u =
    (u.op_code % 256)
    ∷ (u.op_code / 256 % 256)
    ∷ (u.op_code / 65536 % 256)
    ∷ (u.op_code / 16777216 % 256)
    ∷ (u.entry.dst_ip ++ (u.entry.nxt_hop_ip ++ u.entry.oif))

abbrev pub serialize_all : List Update → Bytes
serialize_all [] = []
serialize_all (u ∷ us) = serialize u ++ serialize_all us

-- `copy_to_user` of `count` bytes from the vector.
unfoldable pub copy_vector : Vector → ℕ → Option Bytes
copy_vector (live us) count = some (take count (serialize_all us))
copy_vector null count = if count == 0 then some [] else none
copy_vector freed count = if count == 0 then some [] else none

-- `kfree`. A vector of no updates is `kzalloc(0)`, whose pointer can be freed again and again.
unfoldable pub kfree_vector : Vector → Option Vector
kfree_vector (live []) = some (live [])
kfree_vector (live (u ∷ us)) = some freed
kfree_vector null = some null
kfree_vector freed = none

abbrev pub clamp_count : ℕ → ℕ
clamp_count n = if ltb rt_max_entries_fetch n then rt_max_entries_fetch else n

-- Up to the first SEM_UNLOCK: the first reader of an update gathers it.
unfoldable pub read_enter : (no_mem : Bool) → Driver → Option Driver
read_enter no_mem d =
    if length d.black_listed_poll_readers_list == 0
    then elim (rt_get_updated_rt_entries no_mem d.table) [
      | none ↦ none
      | some (v, count) ↦
          some (record d { rt_update_vector = v; rt_update_vector_count = clamp_count count })
    ]
    else some d

module _ ⦃lay : Layout⦄ where
  -- The copy, with no semaphore but `rw_sem`; `sizeof(struct rt_entry)` bytes for each update.
  unfoldable pub read_copy : Driver → Option Bytes
  unfolding copy_vector
  read_copy d = copy_vector d.rt_update_vector (sizeof_entry * d.rt_update_vector_count)

-- From the second SEM_LOCK on: the last registered reader clears the change list, and the reader goes
-- from the list of polling readers to the black list.
unfoldable pub read_leave : File → Driver → Option Driver
read_leave filp d =
    let move = λ (e : Driver). record e {
      table = record (e.table) { poll_readers_list = erase filp d.table.poll_readers_list };
      black_listed_poll_readers_list = filp ∷ d.black_listed_poll_readers_list;
    } in
    if length d.table.poll_readers_list == 1
    then elim (kfree_vector d.rt_update_vector) [
      | none ↦ none
      | some v ↦ some (
          move (record d {
            table = rt_empty_change_list d.table;
            rt_update_vector = v;
            rt_update_vector_count = 0;
          }))
    ]
    else some (move d)

-- What a call of `rt_read` meets: no memory, or a signal at one of its two SEM_LOCKs.
pub record ReadEnv : Type 0 where
  pub no_mem : Bool
  pub signal_enter : Bool
  pub signal_leave : Bool

module _ ⦃lay : Layout⦄ where
  -- `rt_read` with nobody in between: what is in the user buffer, what is returned, and the new
  -- state. A signal makes it return with `rw_sem` still held.
  unfoldable pub rt_read : ReadEnv → File → Driver → Option (Bytes × Status × Driver)
  unfolding read_copy
  rt_read env filp d =
      let d0 : Driver = record d { rw_readers = d.rw_readers + 1 } in
      if env.signal_enter then some ([], erestartsys, d0) else elim (read_enter env.no_mem d0) [
        | none ↦ none
        | some d1 ↦ elim (read_copy d1) [
          | none ↦ none
          | some bytes ↦
              if env.signal_leave
              then some (bytes, erestartsys, d1)
              else elim (read_leave filp d1) [
                | none ↦ none
                | some d2 ↦ some (
                  bytes,
                  value d1.rt_update_vector_count,
                  record d2 { rw_readers = d2.rw_readers - 1 },
                )
              ]
        ]
      ]

  -- `rt_write`. For a bad user pointer 0 is returned and nothing happens. `none` is a wait in
  -- `down_write`, while someone holds `rw_sem` for reading. Otherwise the size of the message is
  -- returned, and the polling readers are woken.
  unfoldable pub rt_write : (access_ok : Bool) (fresh : Ptr) → Update → Driver → Option (ℕ × Driver)
  rt_write access_ok fresh kmsg d =
      if not access_ok
      then some (0, d)
      else if d.rw_readers == 0
      then some (sizeof_update, record d { table = apply_rt_updates fresh kmsg d.table })
      else none

-- What `rt_poll` returns: `ready` is POLLIN | POLLRDNORM, `wait` 0.
pub data Mask : Type 0 where
  ready wait eagain restart : Mask

-- `if (isDataAvailable)`, where the variable is unsigned: an error code is not 0.
abbrev pub is_nonzero : Status → Bool
is_nonzero (value n) = not (n == 0)
is_nonzero erestartsys = true

-- `rt->poll_readers_list` takes over the nodes of the black list, if it has none itself.
unfoldable pub recycle : Driver → Driver
recycle d =
    if length d.table.poll_readers_list == 0
    then record d {
      table = record (d.table) { poll_readers_list = d.black_listed_poll_readers_list };
      black_listed_poll_readers_list = [];
    }
    else d

-- A signal at SEM_LOCK, a signal while the table is tested, and O_NONBLOCK.
pub record PollEnv : Type 0 where
  pub signal_enter : Bool
  pub signal_table : Bool
  pub nonblock : Bool

unfoldable pub rt_poll : PollEnv → File → Driver → Mask × Driver
unfolding recycle
rt_poll env filep d =
    if env.signal_enter
    then (restart, d)
    else (let available = is_nonzero (mutex_is_rt_updated env.signal_table d.table) in
        if not (present filep d.black_listed_poll_readers_list)
        then (if available
            then (ready, d)
            else if env.nonblock
            then (eagain, d)
            else (wait, record d { table = add_rt_table_unique_poll_reader filep d.table }))
        else if available
        then (wait, d)
        else (wait, recycle d))
