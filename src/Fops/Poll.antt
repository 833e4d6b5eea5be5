-- ===== src/Fops/Poll.antt =====
-- The lists of polling and of black-listed readers: when `rt_poll` announces news, and that no
-- reader is ever listed twice.
use ribdriver.Base.{
  ◌≡◌, refl, ◌≢◌, ◌↔◌, Bool, true, false, some, List, [], ◌∷◌, ◌==◌, arith, length, Bool-cases, inl,
  inr, ◌⊎◌,
}
use ribdriver.Memory.{Bytes}
use ribdriver.Base.Members.{present, erase, Distinct, present-erase, Distinct-erase}
use ribdriver.Table.{
  Layout, File, Status, mutex_is_rt_updated, add_rt_table_unique_poll_reader, rt_empty_change_list,
}
use ribdriver.Fops.{
  Driver, ReadEnv, read_enter, read_leave, rt_read, PollEnv, ready, recycle, rt_poll,
}

-- A poll that no signal interrupts announces news exactly to the readers that are not black-listed,
-- and exactly when an update is pending.
pub rt_poll-ready_iff :
    (nonblock : Bool) (f : File) (d : Driver)
    → let env : PollEnv = record {
      signal_enter = false;
      signal_table = false;
      nonblock = nonblock;
    } in
      ((rt_poll env f d).0 ≡ ready)
      ↔ ((present f d.black_listed_poll_readers_list ≡ false) × (length d.table.rt_change_list ≢ 0))
unfolding rt_poll mutex_is_rt_updated
rt_poll-ready_iff nonblock f d = ground arith

-- No reader is listed twice.
pub record IsOrderly (d : Driver) : Type 0 where
  pub polling : Distinct d.table.poll_readers_list
  pub black : Distinct d.black_listed_poll_readers_list
  pub apart :
      (f : File)
      → present f d.table.poll_readers_list ≡ true
      → present f d.black_listed_poll_readers_list ≡ false

pub empty_of_length : (xs : List File) → length xs ≡ 0 → xs ≡ []
empty_of_length [] h = refl
empty_of_length (x ∷ xs) h = absurd (omega arith)

recycle-IsOrderly : (d : Driver) → IsOrderly d → IsOrderly (recycle d)
unfolding recycle
recycle-IsOrderly d o = elim (Bool-cases (length d.table.poll_readers_list == 0)) [
  | inl free ↦ rw free (record { polling = o.black; black = tt; apart = λ f h. refl })
  | inr busy ↦ rw busy o
]

-- `rt_poll` lists no reader twice, on any of its branches.
pub rt_poll-IsOrderly :
    (env : PollEnv) (f : File) (d : Driver) → IsOrderly d → IsOrderly (rt_poll env f d).1
unfolding rt_poll add_rt_table_unique_poll_reader
rt_poll-IsOrderly env f d o = record {
  polling = ground (arith, o.polling, o.black);
  black = ground (arith, o.polling, o.black);
  apart = λ g h. ground (arith, o.apart g);
}

-- The first part of a read leaves both lists, and the last part moves the reader.
read_enter-lists :
    (no_mem : Bool) (d d' : Driver)
    → read_enter no_mem d ≡ some d'
    → (d'.table.poll_readers_list ≡ d.table.poll_readers_list)
      × (d'.black_listed_poll_readers_list ≡ d.black_listed_poll_readers_list)
unfolding read_enter
read_enter-lists no_mem d d' e = ground arith

pub read_leave-lists :
    (f : File) (d d' : Driver)
    → read_leave f d ≡ some d'
    → (d'.table.poll_readers_list ≡ erase f d.table.poll_readers_list)
      × (d'.black_listed_poll_readers_list ≡ f ∷ d.black_listed_poll_readers_list)
unfolding read_leave rt_empty_change_list
read_leave-lists f d d' e = ground arith

-- A driver with the lists of an orderly one, or with those after a move.
same-IsOrderly :
    (d d' : Driver)
    → IsOrderly d
    → d'.table.poll_readers_list ≡ d.table.poll_readers_list
    → d'.black_listed_poll_readers_list ≡ d.black_listed_poll_readers_list
    → IsOrderly d'
same-IsOrderly d d' o p b = record {
  polling = rw p o.polling;
  black = rw b o.black;
  apart = λ g h. rw b (o.apart g (rw p at h));
}

moved-IsOrderly :
    (f : File) (d d' : Driver)
    → IsOrderly d
    → present f d.black_listed_poll_readers_list ≡ false
    → d'.table.poll_readers_list ≡ erase f d.table.poll_readers_list
    → d'.black_listed_poll_readers_list ≡ f ∷ d.black_listed_poll_readers_list
    → IsOrderly d'
moved-IsOrderly f d d' o unread p b = record {
  polling = rw p (Distinct-erase f d.table.poll_readers_list o.polling);
  black = rw b (unread, o.black);
  apart = λ g h.
      let h' = rw p at h in
      rw b (ground (arith, o.apart g, present-erase g f d.table.poll_readers_list o.polling));
}

abbrev Moved : File → Driver → Driver → Type 0
Moved f d d' =
    ((d'.table.poll_readers_list ≡ d.table.poll_readers_list)
      × (d'.black_listed_poll_readers_list ≡ d.black_listed_poll_readers_list))
    ⊎ ((d'.table.poll_readers_list ≡ erase f d.table.poll_readers_list)
        × (d'.black_listed_poll_readers_list ≡ f ∷ d.black_listed_poll_readers_list))

module _ ⦃lay : Layout⦄ where
  rt_read-Moved :
      (env : ReadEnv) (f : File) (d d' : Driver) (bytes : Bytes) (rc : Status)
      → rt_read env f d ≡ some (bytes, rc, d')
      → Moved f d d'
  unfolding rt_read
  rt_read-Moved env f d d' bytes rc e = grind (arith, read_enter-lists, read_leave-lists)

  -- `rt_read` lists no reader twice, whatever it meets, if the reader is not black-listed.
  pub rt_read-IsOrderly :
      (env : ReadEnv) (f : File) (d d' : Driver) (bytes : Bytes) (rc : Status)
      → IsOrderly d
      → present f d.black_listed_poll_readers_list ≡ false
      → rt_read env f d ≡ some (bytes, rc, d')
      → IsOrderly d'
  rt_read-IsOrderly env f d d' bytes rc o unread e = elim (rt_read-Moved env f d d' bytes rc e) [
    | inl (p, b) ↦ same-IsOrderly d d' o p b
    | inr (p, b) ↦ moved-IsOrderly f d d' o unread p b
  ]
