-- ===== src/Fops/Again.antt =====
-- A second write after a round: the polling readers are served again.
use mathlib.Core.List.{reverse_aux}
use ribdriver.Base.{◌≡◌, refl, true, none, some, List, [], ◌∷◌, if◌then◌else◌, arith}
use ribdriver.Memory.{Ptr}
use ribdriver.Base.Members.{present}
use ribdriver.Table.{Layout, File, Entry, Update, sizeof_update, gather, mutex_is_rt_updated}
use ribdriver.Table.Changes
use ribdriver.Fops.{Driver, rt_write, rt_poll, recycle, ready, wait}
use ribdriver.Fops.Round.{calm_poll, share, turns, all_same, after_round, Covers, Unread}
use ribdriver.Fops.Delivery.{written, delivered}

present-reverse_aux :
    (h : File) (fs acc : List File)
    → present h (reverse_aux fs acc) ≡ (if present h fs then true else present h acc)
present-reverse_aux h [] acc = refl
present-reverse_aux h (f ∷ fs) acc = ground (arith, present-reverse_aux h fs (f ∷ acc))

-- The driver after a round and one poll of a reader that was served.
abbrev pub recycled : List File → Driver → Driver
recycled fs d = record (after_round fs d) {
  table = record (d.table) {
    rt_change_list = [];
    poll_readers_list = reverse_aux fs d.black_listed_poll_readers_list;
  };
  black_listed_poll_readers_list = [];
}

module _ ⦃lay : Layout⦄ where
  poll-recycled :
      (h : File) (fs : List File) (d : Driver)
      → present h fs ≡ true
      → rt_poll calm_poll h (after_round fs d) ≡ (wait, recycled fs d)
  unfolding rt_poll recycle mutex_is_rt_updated
  poll-recycled h fs d here =
      ground (arith, here, present-reverse_aux h fs d.black_listed_poll_readers_list)

  -- Nobody holds `rw_sem` or is black-listed, the changes point to live entries, and two writes of a
  -- route into unused blocks have a round after each, in which every reader that is registered polls
  -- and then reads before the next one polls; no signal interrupts anyone, the user pointers are good,
  -- and there is memory for the vectors. After the first round
  -- every reader waits, and one poll of any reader that was served puts all of them on the list of
  -- polling readers again. A second write is then delivered to the same readers, in whatever order
  -- they come this time: each is told that there is news and of one update, and gets the first
  -- bytes of that update, as many as an entry has.
  pub delivered_again :
      (fresh fresh' : Ptr) (entry entry' : Entry) (us : List Update) (f g h : File)
      (fs gs : List File) (d : Driver)
      → d.rw_readers ≡ 0
      → d.black_listed_poll_readers_list ≡ []
      → d.table.memory fresh ≡ none
      → (written fresh entry d).table.memory fresh' ≡ none
      → Changes.Live d.table.rt_change_list d.table.memory
      → gather d.table.rt_change_list d.table.memory ≡ some us
      → Covers (f ∷ fs) d.table.poll_readers_list
      → Unread (f ∷ fs) []
      → present h (f ∷ fs) ≡ true
      → Covers (g ∷ gs) (reverse_aux (f ∷ fs) [])
      → Unread (g ∷ gs) []
      → let news : Update = record { op_code = lay.route_add; entry = entry } in
        let news' : Update = record { op_code = lay.route_add; entry = entry' } in
        let d1 : Driver = written fresh entry d in
        let d2 : Driver = recycled (f ∷ fs) d1 in
        let d3 : Driver = written fresh' entry' d2 in
        (rt_write true fresh news d ≡ some (sizeof_update, d1))
        × (turns (f ∷ fs) d1
            ≡ some (all_same (f ∷ fs) (ready, some (share (news ∷ us))), after_round (f ∷ fs) d1))
        × (rt_poll calm_poll h (after_round (f ∷ fs) d1) ≡ (wait, d2))
        × (rt_write true fresh' news' d2 ≡ some (sizeof_update, d3))
        × (turns (g ∷ gs) d3
            ≡ some (all_same (g ∷ gs) (ready, some (share (news' ∷ []))), after_round (g ∷ gs) d3))
  delivered_again fresh fresh' entry entry' us f g h fs gs d quiet clean free free' live got cover
        unread served cover' unread' =
      let d1 : Driver = written fresh entry d in
      let (sent, told) = delivered fresh entry us f fs d quiet clean free live got cover unread in
      let (sent', told') =
        delivered fresh' entry' [] g gs (recycled (f ∷ fs) d1) quiet refl free' tt refl
          (rw clean cover') unread' in
      (sent, told, poll-recycled h (f ∷ fs) d1 served, sent', told')
