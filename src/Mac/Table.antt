-- ===== src/Mac/Table.antt =====
-- MAC/mac_table.c, MAC/mackernusr.h and the second part of cmdcodes.h: the MAC table's names for the
-- functions of `Table`.
use ribdriver.Base.{ℕ, Bool, Option, List}
use ribdriver.Memory.{Ptr, Bytes}
use ribdriver.Table.{
  Layout, Entry, Update, Table, File, Status, Vector, init_rt_table,
  mutex_rt_get_pollar_readers_count, add_rt_table_unique_poll_reader, add_rt_table_entry_by_val,
  add_rt_table_entry_by_ref, lookup_rt_table, delete_rt_table_entry, copy_rt_table_to_user_space,
  purge_rt_table, mutex_is_rt_updated, apply_rt_updates, rt_empty_change_list,
  rt_get_updated_rt_entries,
}

instance abbrev pub mac_layout : Layout
mac_layout = record { width = 48; route_update = 4; route_add = 5; route_del = 6; delete = 7 }

abbrev pub MacEntry : Type 0
MacEntry = Entry

abbrev pub MacUpdate : Type 0
MacUpdate = Update

abbrev pub MacTable : Type 0
MacTable = Table

abbrev pub init_mac_table : (Ptr → Option MacEntry) → MacTable
init_mac_table = init_rt_table

abbrev pub mutex_mac_get_pollar_readers_count : (interrupted : Bool) → MacTable → Status
mutex_mac_get_pollar_readers_count = mutex_rt_get_pollar_readers_count

abbrev pub add_mac_table_unique_poll_reader : File → MacTable → MacTable
add_mac_table_unique_poll_reader = add_rt_table_unique_poll_reader

abbrev pub add_mac_table_entry_by_val : (fresh : Ptr) → MacEntry → MacTable → MacTable
add_mac_table_entry_by_val = add_rt_table_entry_by_val

abbrev pub add_mac_table_entry_by_ref : (entry : Ptr) → MacTable → MacTable
add_mac_table_entry_by_ref = add_rt_table_entry_by_ref

abbrev pub lookup_mac_table : Bytes → MacTable → Option (Option Ptr × MacTable)
lookup_mac_table = lookup_rt_table

abbrev pub delete_mac_table_entry : Bytes → MacTable → MacTable × ℕ
delete_mac_table_entry = delete_rt_table_entry

abbrev pub copy_mac_table_to_user_space :
    (access_ok : Bool) (buf_size : ℕ) → MacTable → Option (List MacEntry × ℕ)
copy_mac_table_to_user_space = copy_rt_table_to_user_space

abbrev pub purge_mac_table : MacTable → MacTable
purge_mac_table = purge_rt_table

abbrev pub mutex_is_mac_updated : (interrupted : Bool) → MacTable → Status
mutex_is_mac_updated = mutex_is_rt_updated

abbrev pub apply_mac_updates : (fresh : Ptr) → MacUpdate → MacTable → MacTable
apply_mac_updates = apply_rt_updates

abbrev pub mac_empty_change_list : MacTable → MacTable
mac_empty_change_list = rt_empty_change_list

abbrev pub mac_get_updated_mac_entries : (no_mem : Bool) → MacTable → Option (Vector × ℕ)
mac_get_updated_mac_entries = rt_get_updated_rt_entries
