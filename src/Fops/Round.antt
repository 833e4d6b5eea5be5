-- ===== src/Fops/Round.antt =====
-- One update and its polling readers: each registered reader is told once that there is news, reads
-- all of it, and is black-listed; the last one clears the change list.
use mathlib.Core.List.{reverse_aux}
use ribdriver.Base.{
  ◌+◌, ◌*◌, ◌≤◌, ◌≡◌, refl, ◌≢◌, true, false, Option, none, some, List, [], ◌∷◌, ap, arith, length,
  take,
}
use ribdriver.Memory.{Bytes}
use ribdriver.Base.Members.{present, erase, length-erase}
use ribdriver.Table.Changes.{gather_nonempty}
use ribdriver.Table.{
  Layout, File, Update, freed, live, Status, value, gather, sizeof_entry, rt_empty_change_list,
  rt_get_updated_rt_entries, mutex_is_rt_updated, add_rt_table_unique_poll_reader,
}
use ribdriver.Fops.{
  Driver, serialize_all, clamp_count, ReadEnv, read_enter, read_copy, read_leave, kfree_vector,
  rt_read, PollEnv, Mask, ready, wait, rt_poll,
}

-- No signal and enough memory.
abbrev pub calm_read : ReadEnv
calm_read = record { no_mem = false; signal_enter = false; signal_leave = false }

abbrev pub calm_poll : PollEnv
calm_poll = record { signal_enter = false; signal_table = false; nonblock = false }

module _ ⦃lay : Layout⦄ where
  -- What each reader of the updates `us` gets: the bytes and the number that `rt_read` returns.
  abbrev pub share : List Update → Bytes × Status
  share us = (
    take (sizeof_entry * clamp_count (length us)) (serialize_all us),
    value (clamp_count (length us)),
  )

-- The updates `us` are pending, and gathered if a reader has been served.
pub record Serving (us : List Update) (d : Driver) : Type 0 where
  pub pending : length d.table.rt_change_list ≢ 0
  pub gathered : gather d.table.rt_change_list d.table.memory ≡ some us
  pub vector : (d.black_listed_poll_readers_list ≢ []) → d.rt_update_vector ≡ live us
  pub count :
      (d.black_listed_poll_readers_list ≢ []) → d.rt_update_vector_count ≡ clamp_count (length us)

pub kfree_vector-live : (us : List Update) → us ≢ [] → kfree_vector (live us) ≡ some freed
unfolding kfree_vector
kfree_vector-live [] some_in = absurd (some_in refl)
kfree_vector-live (u ∷ us) some_in = refl

module _ ⦃lay : Layout⦄ where
  -- One reader polls, and reads when it is told to.
  pub turn : File → Driver → Option (Mask × Option (Bytes × Status) × Driver)
  turn f d =
      let (mask, d1) = rt_poll calm_poll f d in
      elim mask [
        | ready ↦ elim (rt_read calm_read f d1) [
          | none ↦ none
          | some (bytes, rc, d2) ↦ some (ready, some (bytes, rc), d2)
        ]
        | other ↦ some (other, none, d1)
      ]

-- The driver after a reader that is not the last one, and after the last one.
abbrev pub next_driver : List Update → File → Driver → Driver
next_driver us f d = record {
  table = record (d.table) { poll_readers_list = erase f d.table.poll_readers_list };
  rt_update_vector = live us;
  rt_update_vector_count = clamp_count (length us);
  black_listed_poll_readers_list = f ∷ d.black_listed_poll_readers_list;
  rw_readers = d.rw_readers;
}

abbrev pub last_driver : File → Driver → Driver
last_driver f d = record {
  table = record (d.table) {
    rt_change_list = [];
    poll_readers_list = erase f d.table.poll_readers_list;
  };
  rt_update_vector = freed;
  rt_update_vector_count = 0;
  black_listed_poll_readers_list = f ∷ d.black_listed_poll_readers_list;
  rw_readers = d.rw_readers;
}

module _ ⦃lay : Layout⦄ where
  module _ (us : List Update) (f : File) (d : Driver) (s : Serving us d)
      (unread : present f d.black_listed_poll_readers_list ≡ false) where
    pub poll-ready : rt_poll calm_poll f d ≡ (ready, d)
    unfolding rt_poll mutex_is_rt_updated
    poll-ready = ground (arith, s.pending)

    enter : Driver
    enter = record d {
      rt_update_vector = live us;
      rt_update_vector_count = clamp_count (length us);
      rw_readers = d.rw_readers + 1;
    }

    read_enter-live : read_enter false (record d { rw_readers = d.rw_readers + 1 }) ≡ some enter
    unfolding read_enter rt_get_updated_rt_entries enter
    read_enter-live = ground (arith, s.gathered, s.vector, s.count)

    turn-next :
        2 ≤ length d.table.poll_readers_list
        → turn f d ≡ some (ready, some (share us), next_driver us f d)
    unfolding turn rt_read read_copy read_leave enter
    turn-next many = ground (arith, poll-ready, read_enter-live)

    read_copy-live : read_copy enter ≡ some (share us).0
    unfolding read_copy enter
    read_copy-live = refl

    read_leave-last :
        length d.table.poll_readers_list ≡ 1
        → read_leave f enter ≡ some (record (last_driver f d) { rw_readers = d.rw_readers + 1 })
    unfolding read_leave enter rt_empty_change_list kfree_vector
    read_leave-last one =
        let freed_now = kfree_vector-live us (
          gather_nonempty d.table.rt_change_list d.table.memory us (ground (arith, s.pending))
            s.gathered) in
        ground (arith, freed_now)

    pub rt_read-last :
        length d.table.poll_readers_list ≡ 1
        → rt_read calm_read f d ≡ some ((share us).0, (share us).1, last_driver f d)
    unfolding rt_read enter
    rt_read-last one = ground (arith, read_enter-live, read_copy-live, read_leave-last one)

    pub turn-last :
        length d.table.poll_readers_list ≡ 1
        → turn f d ≡ some (ready, some (share us), last_driver f d)
    unfolding turn
    turn-last one = ground (arith, poll-ready, rt_read-last one)

    Serving-next : Serving us (next_driver us f d)
    Serving-next = record {
      pending = s.pending;
      gathered = s.gathered;
      vector = λ ne. refl;
      count = λ ne. refl;
    }

  -- With nothing pending, a registered reader is told to wait, and nothing changes.
  pub turn-wait :
      (g : File) (d : Driver)
      → length d.table.rt_change_list ≡ 0
      → present g d.table.poll_readers_list ≡ true
      → present g d.black_listed_poll_readers_list ≡ false
      → turn g d ≡ some (wait, none, d)
  unfolding turn rt_poll mutex_is_rt_updated add_rt_table_unique_poll_reader
  turn-wait g d nothing registered unread = ground arith

-- `fs` names the registered readers `ps`, each once, in the order in which they come.
abbrev pub Covers : List File → List File → Type 0
Covers [] ps = ps ≡ []
Covers (f ∷ fs) ps = (present f ps ≡ true) × Covers fs (erase f ps)

-- None of `fs` is on the list `bs`, and none comes twice.
abbrev pub Unread : List File → List File → Type 0
Unread [] bs = Unit
Unread (f ∷ fs) bs = (present f bs ≡ false) × Unread fs (f ∷ bs)

module _ ⦃lay : Layout⦄ where
  -- The readers' turns one after another, with what each was told and got.
  unfoldable pub turns :
      List File → Driver → Option (List (Mask × Option (Bytes × Status)) × Driver)
  turns [] d = some ([], d)
  turns (f ∷ fs) d = elim (turn f d) [
    | none ↦ none
    | some (mask, got, d1) ↦ elim (turns fs d1) [
      | none ↦ none
      | some (rest, d2) ↦ some ((mask, got) ∷ rest, d2)
    ]
  ]

abbrev pub all_same {ℓ} : {A : Type ℓ} → List File → A → List A
all_same [] a = []
all_same (_ ∷ fs) a = a ∷ all_same fs a

-- How the round leaves the driver: nothing pending, no registered reader, and `fs` black-listed.
abbrev pub after_round : List File → Driver → Driver
after_round fs d = record {
  table = record (d.table) { rt_change_list = []; poll_readers_list = [] };
  rt_update_vector = freed;
  rt_update_vector_count = 0;
  black_listed_poll_readers_list = reverse_aux fs d.black_listed_poll_readers_list;
  rw_readers = d.rw_readers;
}

module _ ⦃lay : Layout⦄ where
  round_from :
      (us : List Update) (f : File) (fs : List File) (d : Driver)
      → Serving us d
      → Covers (f ∷ fs) d.table.poll_readers_list
      → Unread (f ∷ fs) d.black_listed_poll_readers_list
      → turns (f ∷ fs) d ≡ some (all_same (f ∷ fs) (ready, some (share us)), after_round (f ∷ fs) d)
  unfolding turns
  round_from us f [] d s (here, empty) (unread, _) =
      let one : length d.table.poll_readers_list ≡ 1 =
        omega (arith, length-erase f d.table.poll_readers_list here, ap length empty) in
      rw (turn-last us f d s unread one, turns) (rw empty)
  round_from us f (g ∷ fs) d s (here, cover) (unread, rest) =
      let many : 2 ≤ length d.table.poll_readers_list = omega (
        arith,
        length-erase f d.table.poll_readers_list here,
        length-erase g (erase f d.table.poll_readers_list) cover.0,
      ) in
      rw (turn-next us f d s unread many, turns)
        (rw (
          round_from us g fs (next_driver us f d) (Serving-next us f d s unread) cover rest,
          turns,
        ))

  -- With updates pending, nobody black-listed and every polling reader registered, each reader polls
  -- once and then reads before the next one polls; no signal interrupts them, and there is memory for
  -- the vector. Then in whatever order the readers come, each is told that there is news and gets the
  -- same bytes and the same number of updates, at most 20; afterwards the change list and the list of
  -- polling readers are empty, the vector is freed once, and all the readers are black-listed.
  pub round :
      (us : List Update) (f : File) (fs : List File) (d : Driver)
      → d.black_listed_poll_readers_list ≡ []
      → length d.table.rt_change_list ≢ 0
      → gather d.table.rt_change_list d.table.memory ≡ some us
      → Covers (f ∷ fs) d.table.poll_readers_list
      → Unread (f ∷ fs) d.black_listed_poll_readers_list
      → turns (f ∷ fs) d ≡ some (all_same (f ∷ fs) (ready, some (share us)), after_round (f ∷ fs) d)
  round us f fs d clean pending gathered cover unread =
      round_from us f fs d
        (record {
          pending = pending;
          gathered = gathered;
          vector = λ ne. absurd (ne clean);
          count = λ ne. absurd (ne clean);
        })
        cover unread
