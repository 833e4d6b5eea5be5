-- ===== src/Fops/Reads/Underway.antt =====
-- What stays true while the registered readers' reads overlap.
use ribdriver.Base.{
  ℕ, ◌+◌, ◌-◌, ◌≡◌, refl, ap, ◌≢◌, true, false, some, List, [], ◌∷◌, arith, length,
}
use native.Mathlib.Decide.{ℕ_discrete}
use ribdriver.Memory.{Bytes, set_at}
use ribdriver.Base.Members.{present, erase, Distinct, length-erase, present-erase, Distinct-erase}
use ribdriver.Table.{
  Layout, File, Update, freed, live, value, gather, rt_empty_change_list, rt_get_updated_rt_entries,
}
use ribdriver.Fops.{
  Driver, clamp_count, read_enter, read_copy, read_leave, kfree_vector, copy_vector,
}
use ribdriver.Fops.Round.{share, kfree_vector-live}
use ribdriver.Table.Changes.{gather_nonempty}
use ribdriver.Fops.Poll.{empty_of_length}
use ribdriver.Fops.Reads.{
  Progress, outside, entered, copied, returned, Reads, enters, copies, leaves,
}

-- The vector has the updates.
abbrev pub IsFresh : List Update → Driver → Type 0
IsFresh us d = (d.rt_update_vector ≡ live us) × (d.rt_update_vector_count ≡ clamp_count (length us))

module _ ⦃lay : Layout⦄ where
  -- Who is in the middle of a read is registered and finds the vector; what it has is its share.
  abbrev pub Placed : List Update → File → Driver → Progress → Type 0
  Placed us f d outside = Unit
  Placed us f d entered = (present f d.table.poll_readers_list ≡ true) × IsFresh us d
  Placed us f d (copied bytes rc) =
      (present f d.table.poll_readers_list ≡ true) × IsFresh us d × ((bytes, value rc) ≡ share us)
  Placed us f d (returned bytes rc) =
      (present f d.table.poll_readers_list ≡ false) × ((bytes, value rc) ≡ share us)

  pub record Underway (us : List Update) (s : Reads) : Type 0 where
    pub once : Distinct s.driver.table.poll_readers_list
    pub pending :
        s.driver.table.poll_readers_list ≢ []
        → (length s.driver.table.rt_change_list ≢ 0)
          × (gather s.driver.table.rt_change_list s.driver.table.memory ≡ some us)
    pub served :
        s.driver.table.poll_readers_list ≢ []
        → s.driver.black_listed_poll_readers_list ≢ []
        → IsFresh us s.driver
    pub over :
        s.driver.table.poll_readers_list ≡ []
        → (s.driver.table.rt_change_list ≡ [])
          × (s.driver.rt_update_vector ≡ freed)
          × (s.driver.rt_update_vector_count ≡ 0)
    pub placed : (f : File) → Placed us f s.driver (s.at f)

only-one :
    (f g : File) (ps : List File)
    → length ps ≡ 1
    → present f ps ≡ true
    → present g ps ≡ true
    → f ≡ g
only-one f g [] one i j = absurd (omega arith)
only-one f g (p ∷ []) one i j = ground arith
only-one f g (p ∷ q ∷ ps) one i j = absurd (omega arith)

some-left : (f : File) (ps : List File) → present f ps ≡ true → ps ≢ []
some-left f [] i = cc
some-left f (p ∷ ps) i = ground arith

module _ ⦃lay : Layout⦄ where
  module _ {us : List Update} {s : Reads} (u : Underway us s) where
    -- The driver after the first section.
    abbrev pub inside : Driver
    inside = record (s.driver) {
      rt_update_vector = live us;
      rt_update_vector_count = clamp_count (length us);
      rw_readers = s.driver.rw_readers + 1;
    }

    pub enters-live :
        (f : File)
        → present f s.driver.table.poll_readers_list ≡ true
        → enters false f s ≡ some (record { driver = inside; at = set_at s.at f entered })
    unfolding enters read_enter rt_get_updated_rt_entries
    enters-live f here =
        let left = some-left f s.driver.table.poll_readers_list here in
        let (p, got) = u.pending left in ground (arith, u.served left)

    pub enter-Underway :
        (f : File)
        → present f s.driver.table.poll_readers_list ≡ true
        → Underway us (record { driver = inside; at = set_at s.at f entered })
    enter-Underway f here = record {
      once = u.once;
      pending = u.pending;
      served = λ p b. (refl, refl);
      over = λ e. absurd (some-left f s.driver.table.poll_readers_list here e);
      placed = λ g. ground (arith, u.placed g);
    }

    pub copies-live :
        (f : File)
        → s.at f ≡ entered
        → copies f s
          ≡ some (record s { at = set_at s.at f (copied (share us).0 (clamp_count (length us))) })
    unfolding copies read_copy copy_vector
    copies-live f at_f = ground (arith, u.placed f)

    pub copy-Underway :
        (f : File)
        → s.at f ≡ entered
        → Underway us
            (record s { at = set_at s.at f (copied (share us).0 (clamp_count (length us))) })
    copy-Underway f at_f = record {
      once = u.once;
      pending = u.pending;
      served = u.served;
      over = u.over;
      placed = λ g. ground (arith, u.placed g, u.placed f);
    }

    -- The driver after a reader that is not the last one, and after the last one.
    abbrev left_driver : File → Driver
    left_driver f = record (s.driver) {
      table = record (s.driver.table) {
        poll_readers_list = erase f s.driver.table.poll_readers_list;
      };
      black_listed_poll_readers_list = f ∷ s.driver.black_listed_poll_readers_list;
      rw_readers = s.driver.rw_readers - 1;
    }

    abbrev last_left_driver : File → Driver
    last_left_driver f = record (left_driver f) {
      table = record (s.driver.table) {
        rt_change_list = [];
        poll_readers_list = erase f s.driver.table.poll_readers_list;
      };
      rt_update_vector = freed;
      rt_update_vector_count = 0;
    }

    module _ (f : File) (bytes : Bytes) (rc : ℕ) (at_f : s.at f ≡ copied bytes rc) where
      -- The reader is registered, finds the vector, and has its share.
      held : Placed us f s.driver (copied bytes rc)
      held = rw at_f at (u.placed f)

      leaves-next :
          length s.driver.table.poll_readers_list ≢ 1
          → leaves f bytes rc s
            ≡ some (record { driver = left_driver f; at = set_at s.at f (returned bytes rc) })
      unfolding leaves read_leave
      leaves-next many = ground arith

      leaves-last :
          length s.driver.table.poll_readers_list ≡ 1
          → leaves f bytes rc s
            ≡ some (record {
              driver = last_left_driver f;
              at = set_at s.at f (returned bytes (clamp_count (length us)));
            })
      unfolding leaves read_leave rt_empty_change_list kfree_vector
      leaves-last one =
          let (here, fresh, mine) = held in
          let (some_in, got) = u.pending (some-left f s.driver.table.poll_readers_list here) in
          let freed_now =
            kfree_vector-live us (
              gather_nonempty s.driver.table.rt_change_list s.driver.table.memory us some_in got) in
          ground (arith, freed_now)

      next-Underway :
          length s.driver.table.poll_readers_list ≢ 1
          → Underway us (record { driver = left_driver f; at = set_at s.at f (returned bytes rc) })
      next-Underway many =
          let (here, fresh, mine) = held in
          record {
            once = Distinct-erase f s.driver.table.poll_readers_list u.once;
            pending = λ p. u.pending (some-left f s.driver.table.poll_readers_list here);
            served = λ p b. fresh;
            over = λ e. absurd (
                omega
                  (arith, many, length-erase f s.driver.table.poll_readers_list here, ap length e));
            placed = λ g.
                ground
                  (arith, u.placed g, present-erase g f s.driver.table.poll_readers_list u.once);
          }

      last-Underway :
          length s.driver.table.poll_readers_list ≡ 1
          → Underway us (record {
            driver = last_left_driver f;
            at = set_at s.at f (returned bytes (clamp_count (length us)));
          })
      last-Underway one =
          let (here, fresh, mine) = held in
          record {
            once = Distinct-erase f s.driver.table.poll_readers_list u.once;
            pending = λ p. absurd (p (nobody here));
            served = λ p b. absurd (p (nobody here));
            over = λ e. (refl, refl, refl);
            placed = λ g. ground (
              arith,
              u.placed g,
              present-erase g f s.driver.table.poll_readers_list u.once,
              only-one f g s.driver.table.poll_readers_list one here,
            );
          }
        where
          nobody :
              present f s.driver.table.poll_readers_list ≡ true
              → erase f s.driver.table.poll_readers_list ≡ []
          nobody here =
              empty_of_length _
                (omega (arith, one, length-erase f s.driver.table.poll_readers_list here))

      pub leaves-Underway : (t : Reads) × (leaves f bytes rc s ≡ some t) × Underway us t
      leaves-Underway = elim (ℕ_discrete (length s.driver.table.poll_readers_list) 1) [
        | yes one ↦ (_, leaves-last one, last-Underway one)
        | no many ↦ (_, leaves-next many, next-Underway many)
      ]
