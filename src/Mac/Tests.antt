-- ===== src/Mac/Tests.antt =====
-- A MAC address is written and read by the two readers that poll for it.
use ribdriver.Base.{◌≡◌, refl, true, none, some, [], ◌∷◌, replicate}
use ribdriver.Table.{Update, null, add_rt_table_entry_by_val}
use ribdriver.Fops.{ready, wait}
use ribdriver.Fops.Round.{share, turns, all_same, after_round, calm_poll}
use ribdriver.Fops.Delivery.{written}
use ribdriver.Fops.Again.{recycled, delivered_again}
use ribdriver.Mac.Table.{mac_layout, MacEntry, MacTable}
use ribdriver.Mac.Fops.{MacDriver, mac_write, mac_poll}

abbrev address : MacEntry
address = record { dst_ip = 49 ∷ replicate 15 0; nxt_hop_ip = replicate 48 1; oif = replicate 16 2 }

abbrev table : MacTable
table = record { rt = []; rt_change_list = []; poll_readers_list = 3 ∷ 4 ∷ []; memory = λ _. none }

abbrev driver : MacDriver
driver = record {
  table = table;
  rt_update_vector = null;
  rt_update_vector_count = 0;
  black_listed_poll_readers_list = [];
  rw_readers = 0;
}

abbrev news : Update
news = record { op_code = 5; entry = address }

-- The second address, in the block 10.
abbrev other : MacEntry
other = record { dst_ip = 50 ∷ replicate 15 0; nxt_hop_ip = replicate 48 3; oif = replicate 16 4 }

abbrev news' : Update
news' = record { op_code = 5; entry = other }

abbrev written_once : MacDriver
written_once = written 9 address driver

abbrev again : MacDriver
again = recycled (4 ∷ 3 ∷ []) written_once

abbrev written_twice : MacDriver
written_twice = written 10 other again

delivered_again_example :
    (mac_write true 9 news driver ≡ some (84, written_once))
    × (turns (4 ∷ 3 ∷ []) written_once
        ≡ some (
          all_same (4 ∷ 3 ∷ []) (ready, some (share (news ∷ []))),
          after_round (4 ∷ 3 ∷ []) written_once,
        ))
    × (mac_poll calm_poll 3 (after_round (4 ∷ 3 ∷ []) written_once) ≡ (wait, again))
    × (mac_write true 10 news' again ≡ some (84, written_twice))
    × (turns (3 ∷ 4 ∷ []) written_twice
        ≡ some (
          all_same (3 ∷ 4 ∷ []) (ready, some (share (news' ∷ []))),
          after_round (3 ∷ 4 ∷ []) written_twice,
        ))
unfolding add_rt_table_entry_by_val
delivered_again_example =
    delivered_again 9 10 address other [] 4 3 3 (3 ∷ []) (4 ∷ []) driver refl refl refl refl tt refl
      (refl, (refl, refl)) (refl, (refl, tt)) refl (refl, (refl, refl)) (refl, (refl, tt))
