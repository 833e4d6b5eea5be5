-- ===== src/DrTest/Poll.antt =====
-- `poll_rt_mac_table`, which reads both drivers.
use ribdriver.Base.{Bool, Option, none, some, List, [], if◌then◌else◌}
use ribdriver.Table.{rt_layout, File}
use ribdriver.Mac.Table.{mac_layout}
use ribdriver.Fops.{Driver, ReadEnv}
use ribdriver.DrTest.{Row, rt_read_all}

-- One round of `poll_rt_mac_table`: `select` says which of the files are ready.
pub poll_rt_mac_table :
    (rt_ready mac_ready : Bool)
    → ReadEnv
    → (rt_file mac_file : File) → (rt_driver mac_driver : Driver)
    → Option (List Row × List Row × Driver × Driver)
unfolding rt_read_all
poll_rt_mac_table rt_ready mac_ready env rt_file mac_file rt_driver mac_driver =
    elim (if rt_ready
      then rt_read_all ⦃lay = rt_layout⦄ env rt_file rt_driver
      else some ([], rt_driver)) [
        | none ↦ none
        | some (rt_rows, rt_driver') ↦
            elim (if mac_ready
              then rt_read_all ⦃lay = mac_layout⦄ env mac_file mac_driver
              else some ([], mac_driver)) [
                | none ↦ none
                | some (mac_rows, mac_driver') ↦ some (rt_rows, mac_rows, rt_driver', mac_driver')
              ]
      ]
