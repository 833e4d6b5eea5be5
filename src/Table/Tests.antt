-- ===== src/Table/Tests.antt =====
-- The theorems on the routing table at a table of two entries.
use ribdriver.Base.{
  ℕ, ◌+◌, ◌*◌, ◌≤◌, ◌<◌, ◌≡◌, refl, ◌⊎◌, true, false, Option, none, some, [], ◌∷◌, arith, take,
  replicate,
}
use ribdriver.Memory.{Ptr, update}
use ribdriver.Table.{
  Layout, rt_layout, Entry, Table, overwrite_key, lookup_rt_table, copy_rt_table_to_user_space,
  sizeof_entry,
}
use ribdriver.Table.Entries.{listed, lookup_rt_table-null, copy_rt_table-take}

instance abbrev layout : Layout
layout = rt_layout

abbrev route : ℕ → Entry
route n = record { dst_ip = n ∷ replicate 15 0; nxt_hop_ip = replicate 16 1; oif = replicate 16 2 }

abbrev table : Table
table = record {
  rt = 5 ∷ 6 ∷ [];
  rt_change_list = record { op_code = 1; entry = 5 } ∷ [];
  poll_readers_list = [];
  memory = update (update (λ _. none) 6 (some (route 50))) 5 (some (route 49));
}

lookup_rt_table-null_example :
    (memory' : Ptr → Option Entry) × (lookup_rt_table (49 ∷ []) table
      ≡ some (none, record table { memory = memory' }))
    × ((p : Ptr) → listed p (5 ∷ 6 ∷ []) ≡ false → memory' p ≡ table.memory p)
    × ((p : Ptr) (e : Entry)
        → listed p (5 ∷ 6 ∷ []) ≡ true
        → table.memory p ≡ some e
        → memory' p ≡ some (overwrite_key (49 ∷ []) e))
lookup_rt_table-null_example =
    lookup_rt_table-null (49 ∷ []) table (ground arith, (ground arith, tt))

copy_rt_table-take_example :
    (n : ℕ) × (copy_rt_table_to_user_space true 60 table
      ≡ some (take n (route 49 ∷ route 50 ∷ []), n))
    × (n * sizeof_entry ≤ 60)
    × (n ≤ 2)
    × (true ≡ false → n ≡ 0)
    × (true ≡ true → 60 < (n + 1) * sizeof_entry ⊎ (n ≡ 2))
copy_rt_table-take_example =
    copy_rt_table-take true 60 table (route 49 ∷ route 50 ∷ []) (refl, (refl, refl))
