-- ===== src/DrTest/EndToEnd.antt =====
-- From what one user types to what another sees.
use ribdriver.Base.{
  ℕ, zero, suc, ◌+◌, ◌-◌, ◌*◌, ◌≤◌, ◌<◌, ◌≡◌, refl, ap, false, none, some, List, [], ◌∷◌, ◌++◌,
  length, arith, length-take_bound,
}
use ribdriver.Memory.{Ptr, Bytes}
use ribdriver.Table.{Layout, File, Entry, Update, sizeof_entry, gather, add_rt_table_entry_by_val}
use ribdriver.Table.Changes
use ribdriver.Table.Changes.{gather-added}
use ribdriver.Base.Members.{present}
use ribdriver.Fops.{Driver, serialize_all, clamp_count, ready, rt_poll}
use ribdriver.Fops.Round.{
  calm_read, calm_poll, share, Serving, last_driver, rt_read-last, poll-ready, Covers,
}
use ribdriver.Fops.Delivery.{written, delivered}
use ribdriver.DrTest.{
  newline, filled, print_one_entry, buffer_size, rt_read_all, write_route, success,
}
use ribdriver.DrTest.Buffer.{typed, typed_row, buffer, entry_printed}
use ribdriver.DrTest.Input.{IsText, read_update-lines}
use ribdriver.DrTest.Rows.{numbered, print_fetched_entries-first}

times-bound : (s c m : ℕ) → c ≤ m → s * c ≤ s * m
times-bound zero c m le = omega arith
times-bound (suc s) c m le = omega (arith, times-bound s c m le)

clamp-some : (n : ℕ) → 1 ≤ clamp_count (suc n)
clamp-some n = ground arith

clamp-bound : (n : ℕ) → clamp_count n ≤ 20
clamp-bound n = ground arith

module _ ⦃lay : Layout⦄ where
  share-fits : (us : List Update) → length (share us).0 ≤ sizeof_entry * 20
  share-fits us = omega (
    arith,
    length-take_bound (sizeof_entry * clamp_count (length us)) (serialize_all us),
    times-bound sizeof_entry (clamp_count (length us)) 20 (clamp-bound (length us)),
  )

  times-some : (s c : ℕ) → 1 ≤ c → s ≤ s * c
  times-some zero c le = omega arith
  times-some (suc s) c le = omega (arith, times-some s c le)

  -- The reader's buffer after the read, and the first row that is printed of it.
  module _ (dst hop oif : Bytes) (us : List Update) where
    abbrev news : Update
    news = record { op_code = lay.route_add; entry = typed dst hop oif }

    held_row :
        IsText dst
        → IsText hop
        → IsText oif
        → length dst ≤ 13
        → length hop < lay.width
        → length oif ≤ 12
        → print_one_entry 1 (filled buffer_size (share (news ∷ us)).0)
          ≡ some (typed_row dst hop oif)
    unfolding buffer
    held_row dst_text hop_text oif_text dst_le hop_lt oif_le =
        entry_printed lay.route_add dst hop oif (serialize_all us)
          (sizeof_entry * clamp_count (length (news ∷ us)))
          (buffer_size - length (share (news ∷ us)).0) dst_text hop_text oif_text dst_le hop_lt
          oif_le
          (omega (
            arith,
            times-some sizeof_entry (clamp_count (length (news ∷ us))) (clamp-some (length us)),
          ))
          (omega (arith, share-fits (news ∷ us)))

  -- The updates that the reader is served with.
  Serving-written :
      (fresh : Ptr) (entry : Entry) (us : List Update) (d : Driver)
      → d.black_listed_poll_readers_list ≡ []
      → d.table.memory fresh ≡ none
      → Changes.Live d.table.rt_change_list d.table.memory
      → gather d.table.rt_change_list d.table.memory ≡ some us
      → Serving (record { op_code = lay.route_add; entry = entry } ∷ us) (written fresh entry d)
  unfolding add_rt_table_entry_by_val
  Serving-written fresh entry us d clean free live got = record {
    pending = ground arith;
    gathered = gather-added fresh entry d.table us live free got;
    vector = λ ne. absurd (ne clean);
    count = λ ne. absurd (ne clean);
  }

  alone : (f : File) → Covers (f ∷ []) (f ∷ [])
  alone f = (ground arith, ground arith)

  -- No signal interrupts the reader, there is memory for the vector, nobody holds `rw_sem`, none is black-listed, one polling reader is registered, the block is
  -- unused, the changes point to live entries, and three lines of text that fit their fields are
  -- behind the newline that is consumed, of at most 13, `hop_size - 2` and 12 characters. Then the user
  -- program's write succeeds and leaves the rest of the input; the reader is told that there is news;
  -- and of what it reads it prints as many rows as there are updates, 20 at most, each of them with the
  -- three lines that were typed. Then nothing is pending.
  pub typed_then_printed :
      (hop_size x : ℕ) (dst hop oif rest : Bytes)
      → IsText dst
      → IsText hop
      → IsText oif
      → length dst ≤ 13
      → length hop + 2 ≤ hop_size
      → length oif ≤ 12
      → hop_size ≤ lay.width
      → (fresh : Ptr) (us : List Update) (f : File) (d : Driver) → d.rw_readers ≡ 0
      → d.black_listed_poll_readers_list ≡ []
      → d.table.memory fresh ≡ none
      → Changes.Live d.table.rt_change_list d.table.memory
      → gather d.table.rt_change_list d.table.memory ≡ some us
      → d.table.poll_readers_list ≡ f ∷ []
      → let d' : Driver = written fresh (typed dst hop oif) d in
        (write_route hop_size fresh
            (x ∷ (dst ++ newline ∷ (hop ++ newline ∷ (oif ++ newline ∷ rest))))
            d
          ≡ (success, rest, d'))
        × (rt_poll calm_poll f d' ≡ (ready, d'))
        × (rt_read_all calm_read f d'
            ≡ some (
              numbered (typed_row dst hop oif) 0 (clamp_count (suc (length us))),
              last_driver f d',
            ))
  unfolding write_route rt_read_all add_rt_table_entry_by_val
  typed_then_printed hop_size x dst hop oif rest dst_text hop_text oif_text dst_le hop_le oif_le
        fits fresh us f d quiet clean free live got readers =
      let typed_news =
        read_update-lines hop_size x dst hop oif rest dst_text hop_text oif_text dst_le hop_le
          (omega arith) fits in
      let us' : List Update = news dst hop oif us ∷ us in
      let d' : Driver = written fresh (typed dst hop oif) d in
      let (sent, told) =
        delivered fresh (typed dst hop oif) us f [] d quiet clean free live got
          (rw readers (alone f)) (ground arith) in
      let serving : Serving us' d' =
        Serving-written fresh (typed dst hop oif) us d clean free live got in
      let unread : present f d'.black_listed_poll_readers_list ≡ false = rw clean refl in
      let one : length d'.table.poll_readers_list ≡ 1 = ap length readers in
      let row = held_row dst hop oif us dst_text hop_text oif_text dst_le (omega arith) oif_le in
      (
        ground (arith, typed_news, sent),
        poll-ready us' f d' serving unread,
        ground (
          arith,
          rt_read-last us' f d' serving unread one,
          print_fetched_entries-first (filled buffer_size (share us').0)
              (clamp_count (suc (length us))) (typed_row dst hop oif) row,
        ),
      )
