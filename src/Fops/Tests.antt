-- ===== src/Fops/Tests.antt =====
-- Polls and reads of a driver with one pending update, on which the theorems are applied.
use ribdriver.Base.{◌≡◌, refl, true, false, none, some, List, [], ◌∷◌, arith, replicate}
use ribdriver.Memory.{update, set_at}
use ribdriver.Table.{Layout, live, rt_layout, File, Entry, Update, Table, null, erestartsys}
use ribdriver.Fops.{Driver, ReadEnv, rt_read, rt_write, ready}
use ribdriver.Fops.Poll.{IsOrderly}
use ribdriver.Fops.Round.{share, turns, all_same, after_round, round}
use ribdriver.Fops.Faults.{interrupted_read_blocks}
use ribdriver.Fops.Calls.{none_yet, have_read, Calls-IsOrderly}
use ribdriver.Fops.Reads.{Reads, outside, entered}

instance abbrev layout : Layout
layout = rt_layout

abbrev route : Entry
route = record { dst_ip = 49 ∷ replicate 15 0; nxt_hop_ip = replicate 16 1; oif = replicate 16 2 }

abbrev news : List Update
news = record { op_code = 1; entry = route } ∷ []

-- The readers 3 and 4 are registered; one entry has been added.
abbrev table : List File → Table
table readers = record {
  rt = 5 ∷ [];
  rt_change_list = record { op_code = 1; entry = 5 } ∷ [];
  poll_readers_list = readers;
  memory = update (λ _. none) 5 (some route);
}

abbrev driver : List File → Driver
driver readers = record {
  table = table readers;
  rt_update_vector = null;
  rt_update_vector_count = 0;
  black_listed_poll_readers_list = [];
  rw_readers = 0;
}

driver-IsOrderly : IsOrderly (driver (3 ∷ 4 ∷ []))
driver-IsOrderly = record { polling = (refl, (refl, tt)); black = tt; apart = λ f h. refl }

abbrev interrupted : ReadEnv
interrupted = record { no_mem = false; signal_enter = true; signal_leave = false }

abbrev held : Driver
held = record (driver (3 ∷ 4 ∷ [])) { rw_readers = 1 }

interrupted_read : rt_read interrupted 3 (driver (3 ∷ 4 ∷ [])) ≡ some ([], erestartsys, held)
unfolding rt_read
interrupted_read = refl

round_example :
    turns (4 ∷ 3 ∷ []) (driver (3 ∷ 4 ∷ []))
    ≡ some (
      all_same (4 ∷ 3 ∷ []) (ready, some (share news)),
      after_round (4 ∷ 3 ∷ []) (driver (3 ∷ 4 ∷ [])),
    )
round_example =
    round news 4 (3 ∷ []) (driver (3 ∷ 4 ∷ [])) refl (ground arith) refl (refl, (refl, refl))
      (refl, (refl, tt))

interrupted_read_blocks_example :
    rt_write true 9 (record { op_code = 1; entry = route }) held ≡ none
interrupted_read_blocks_example =
    interrupted_read_blocks interrupted 3 (driver (3 ∷ 4 ∷ [])) held [] 9
      (record { op_code = 1; entry = route }) interrupted_read

-- Both readers are in the middle of a read.
abbrev overlapping : Reads
overlapping = record {
  driver = record (driver (3 ∷ 4 ∷ [])) {
    rt_update_vector = live news;
    rt_update_vector_count = 1;
    rw_readers = 2;
  };
  at = set_at (set_at (λ _. outside) 3 entered) 4 entered;
}

-- 3 reads, and a signal comes.
Calls-IsOrderly_example : IsOrderly held
Calls-IsOrderly_example =
    Calls-IsOrderly (driver (3 ∷ 4 ∷ [])) held driver-IsOrderly
      (have_read interrupted 3 [] erestartsys none_yet refl interrupted_read)
