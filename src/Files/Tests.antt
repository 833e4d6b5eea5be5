-- ===== src/Files/Tests.antt =====
-- Two readers of an update, of which one is closed, on which the theorems are applied.
use ribdriver.Base.{refl, ◌≢◌, none, some, [], ◌∷◌, replicate, arith}
use ribdriver.Memory.{update}
use ribdriver.Table.{Layout, rt_layout, Entry, live}
use ribdriver.Fops.{Driver, rt_poll, ready}
use ribdriver.Fops.Round.{calm_poll}
use ribdriver.Files.{Files, rt_release}
use ribdriver.Files.Closed.{stay, polls, closed_reader-starves}

instance abbrev layout : Layout
layout = rt_layout

abbrev route : Entry
route = record { dst_ip = replicate 16 0; nxt_hop_ip = replicate 16 1; oif = replicate 16 2 }

-- 3 has read the update and is black-listed; 4 has not.
abbrev driver : Driver
driver = record {
  table = record {
    rt = 5 ∷ [];
    rt_change_list = record { op_code = 1; entry = 5 } ∷ [];
    poll_readers_list = 4 ∷ [];
    memory = update (λ _. none) 5 (some route);
  };
  rt_update_vector = live (record { op_code = 1; entry = route } ∷ []);
  rt_update_vector_count = 1;
  black_listed_poll_readers_list = 3 ∷ [];
  rw_readers = 0;
}

abbrev files : Files
files = record { driver = driver; threads = λ _. none; private_data = λ _. 0 }

-- 4 is closed and 3 polls.
closed_reader-starves_example :
    (rt_poll calm_poll 3 (rt_poll calm_poll 3 (rt_release 4 files).driver).1).0 ≢ ready
unfolding rt_release
closed_reader-starves_example =
    closed_reader-starves 4 3 files (record files { driver = (rt_poll calm_poll 3 driver).1 })
      calm_poll refl refl (polls calm_poll 3 stay (omega arith))
