-- ===== src/Fops/Delivery.antt =====
-- From a write to its readers: `rt_write`, then a round of polls and reads.
use ribdriver.Base.{◌≡◌, true, none, some, List, [], ◌∷◌, arith}
use ribdriver.Memory.{Ptr}
use ribdriver.Table.{
  Layout, File, Entry, Update, sizeof_update, gather, add_rt_table_entry_by_val, apply_rt_updates,
}
use ribdriver.Table.Changes
use ribdriver.Table.Changes.{gather-added}
use ribdriver.Fops.{Driver, rt_write, ready}
use ribdriver.Fops.Round.{share, turns, all_same, after_round, Covers, Unread, round}

module _ ⦃lay : Layout⦄ where
  -- The driver after the write.
  abbrev pub written : Ptr → Entry → Driver → Driver
  written fresh entry d = record d { table = add_rt_table_entry_by_val fresh entry d.table }

  -- While no reader holds `rw_sem` and nobody is black-listed, a route that is written is
  -- delivered: `rt_write` returns the size of the message, and then every registered reader, in
  -- whatever order they poll and read, is told that there is news and gets the new route in front
  -- of the updates that were pending, 20 of them at most; afterwards nothing is pending.
  pub delivered :
      (fresh : Ptr) (entry : Entry) (us : List Update) (f : File) (fs : List File) (d : Driver)
      → d.rw_readers ≡ 0
      → d.black_listed_poll_readers_list ≡ []
      → d.table.memory fresh ≡ none
      → Changes.Live d.table.rt_change_list d.table.memory
      → gather d.table.rt_change_list d.table.memory ≡ some us
      → Covers (f ∷ fs) d.table.poll_readers_list
      → Unread (f ∷ fs) []
      → let news : Update = record { op_code = lay.route_add; entry = entry } in
        let d' : Driver = written fresh entry d in
        (rt_write true fresh news d ≡ some (sizeof_update, d'))
        × (turns (f ∷ fs) d'
            ≡ some (all_same (f ∷ fs) (ready, some (share (news ∷ us))), after_round (f ∷ fs) d'))
  unfolding rt_write apply_rt_updates
  delivered fresh entry us f fs d quiet clean free live got cover unread =
      let news : Update = record { op_code = lay.route_add; entry = entry } in
      (
        ground (arith, quiet),
        round (news ∷ us) f fs (written fresh entry d) clean (ground arith)
            (gather-added fresh entry d.table us live free got) cover (rw clean unread),
      )
