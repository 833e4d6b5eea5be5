-- ===== src/DrTest/Tests.antt =====
-- Lines that a user types, and a driver that already has one update, on which the theorems are applied.
use ribdriver.Base.{◌≡◌, refl, none, some, [], ◌∷◌, ◌++◌, arith}
use ribdriver.Memory.{Bytes, update}
use ribdriver.Table.{Layout, rt_layout, null}
use ribdriver.Fops.{Driver, rt_poll, ready}
use ribdriver.Fops.Round.{calm_read, calm_poll, last_driver}
use ribdriver.Fops.Delivery.{written}
use ribdriver.DrTest.{
  print_one_entry, filled, read_field, write_route, rt_read_all, success, rt_hop_size,
  print_fetched_entries,
}
use ribdriver.DrTest.Input.{IsText, read_field-long}
use ribdriver.DrTest.Rows.{numbered, print_fetched_entries-first}
use ribdriver.DrTest.EndToEnd.{typed_then_printed}
use ribdriver.DrTest.Buffer.{typed, typed_row}

instance abbrev layout : Layout
layout = rt_layout

-- "10.1", "10.2" and "eth0".
abbrev dst : Bytes
dst = 49 ∷ 48 ∷ 46 ∷ 49 ∷ []

abbrev hop : Bytes
hop = 49 ∷ 48 ∷ 46 ∷ 50 ∷ []

abbrev oif : Bytes
oif = 101 ∷ 116 ∷ 104 ∷ 48 ∷ []

-- The newline behind the choice, and the three lines.
abbrev input : Bytes
input = 10 ∷ (dst ++ 10 ∷ (hop ++ 10 ∷ (oif ++ 10 ∷ [])))

dst-IsText : IsText dst
dst-IsText = ground arith

hop-IsText : IsText hop
hop-IsText = ground arith

oif-IsText : IsText oif
oif-IsText = ground arith

-- A field whose `fgets` gets 4 bytes: of "10.12" the field gets "10", and "12" is left.
read_field-long_example :
    read_field 4 16 (49 ∷ 48 ∷ 46 ∷ 49 ∷ 50 ∷ 10 ∷ [])
    ≡ some (filled 16 (49 ∷ 48 ∷ []), 49 ∷ 50 ∷ 10 ∷ [])
read_field-long_example =
    read_field-long 4 16 49 46 (48 ∷ []) (49 ∷ 50 ∷ 10 ∷ []) (ground arith) refl (omega arith)

-- Two updates in the buffer; the second one is for "eth0" and is not shown.
abbrev two_updates : Bytes
two_updates =
    filled 4 (1 ∷ [])
    ++ filled 16 dst
    ++ filled 16 hop
    ++ filled 16 (101 ∷ [])
    ++ (filled 4 (1 ∷ []) ++ filled 16 hop ++ filled 16 dst ++ filled 16 oif)

print_fetched_entries-first_example :
    print_fetched_entries two_updates 2 ≡ some (numbered (typed_row dst hop (101 ∷ [])) 0 2)
unfolding print_one_entry
print_fetched_entries-first_example =
    print_fetched_entries-first two_updates 2 (typed_row dst hop (101 ∷ [])) refl

abbrev driver : Driver
driver = record {
  table = record {
    rt = 5 ∷ [];
    rt_change_list = record { op_code = 1; entry = 5 } ∷ [];
    poll_readers_list = 3 ∷ [];
    memory = update (λ _. none) 5 (some (typed hop dst oif));
  };
  rt_update_vector = null;
  rt_update_vector_count = 0;
  black_listed_poll_readers_list = [];
  rw_readers = 0;
}

typed_then_printed_example :
    (write_route rt_hop_size 6 input driver ≡ (success, [], written 6 (typed dst hop oif) driver))
    × (rt_poll calm_poll 3 (written 6 (typed dst hop oif) driver)
        ≡ (ready, written 6 (typed dst hop oif) driver))
    × (rt_read_all calm_read 3 (written 6 (typed dst hop oif) driver)
        ≡ some (
          numbered (typed_row dst hop oif) 0 2,
          last_driver 3 (written 6 (typed dst hop oif) driver),
        ))
typed_then_printed_example =
    typed_then_printed rt_hop_size 10 dst hop oif [] dst-IsText hop-IsText oif-IsText (omega arith)
      (omega arith) (omega arith) (omega arith) 6
      (record { op_code = 1; entry = typed hop dst oif } ∷ []) 3 driver refl refl refl
      (ground arith) refl refl
