-- ===== src/Files/Closed.antt =====
-- What becomes of the other readers when a registered reader is closed.
use ribdriver.Base.{ℕ, ◌≡◌, refl, ◌≢◌, Bool, true, some, List, [], ◌∷◌, arith, length}
use ribdriver.Memory.{Ptr, Bytes}
use ribdriver.Base.Members.{present, erase}
use ribdriver.Table.{
  Layout, File, Update, Status, rt_empty_change_list, apply_rt_updates, add_rt_table_entry_by_val,
  add_rt_table_unique_poll_reader,
}
use ribdriver.Fops.{
  Driver, ReadEnv, PollEnv, read_enter, read_copy, read_leave, rt_read, rt_write, rt_poll, recycle,
  ready,
}
use ribdriver.Files.{Files, rt_open, rt_release}

module _ ⦃lay : Layout⦄ where
  -- What processes do with other files than `g`; any file may be closed.
  pub data Others (g : File) (s : Files) : Files → Type 0 where
    stay : Others g s s
    opens :
        (kernthread task : Ptr) (h : File) {t u : Files}
        → Others g s t
        → h ≢ g
        → rt_open kernthread task h t ≡ some u
        → Others g s u
    closes : (h : File) {t : Files} → Others g s t → Others g s (rt_release h t)
    writes :
        (access_ok : Bool) (fresh : Ptr) (kmsg : Update) {t : Files} {n : ℕ} {d : Driver}
        → Others g s t
        → rt_write access_ok fresh kmsg t.driver ≡ some (n, d)
        → Others g s (record t { driver = d })
    polls :
        (env : PollEnv) (h : File) {t : Files}
        → Others g s t
        → h ≢ g
        → Others g s (record t { driver = (rt_poll env h t.driver).1 })
    reads :
        (env : ReadEnv) (h : File) {t : Files} {bytes : Bytes} {rc : Status} {d : Driver}
        → Others g s t
        → h ≢ g
        → rt_read env h t.driver ≡ some (bytes, rc, d)
        → Others g s (record t { driver = d })

-- `g` is registered, and `f` is black-listed.
pub record Starving (g f : File) (d : Driver) : Type 0 where
  pub registered : present g d.table.poll_readers_list ≡ true
  pub blacklisted : present f d.black_listed_poll_readers_list ≡ true

present-erase_ne : (g h : File) (ps : List File) → h ≢ g → present g (erase h ps) ≡ present g ps
present-erase_ne g h [] ne = refl
present-erase_ne g h (p ∷ ps) ne = ground (arith, present-erase_ne g h ps ne)

some-left : (g : File) (ps : List File) → present g ps ≡ true → length ps ≢ 0
some-left g [] here = cc
some-left g (p ∷ ps) here = omega arith

module _ ⦃lay : Layout⦄ where
  module _ (g f : File) {d : Driver} (s : Starving g f d) where
    poll-Starving : (env : PollEnv) (h : File) → Starving g f (rt_poll env h d).1
    unfolding rt_poll recycle add_rt_table_unique_poll_reader
    poll-Starving env h = record {
      registered = ground (arith, s.registered, some-left g d.table.poll_readers_list s.registered);
      blacklisted =
          ground (arith, s.blacklisted, some-left g d.table.poll_readers_list s.registered);
    }

    write-Starving :
        (access_ok : Bool) (fresh : Ptr) (kmsg : Update) {n : ℕ} {e : Driver}
        → rt_write access_ok fresh kmsg d ≡ some (n, e)
        → Starving g f e
    unfolding rt_write apply_rt_updates add_rt_table_entry_by_val
    write-Starving access_ok fresh kmsg done = record {
      registered = ground (arith, s.registered);
      blacklisted = ground (arith, s.blacklisted);
    }

    read-Starving :
        (env : ReadEnv) (h : File) {bytes : Bytes} {rc : Status} {e : Driver}
        → h ≢ g
        → rt_read env h d ≡ some (bytes, rc, e)
        → Starving g f e
    unfolding rt_read read_enter read_copy read_leave rt_empty_change_list
    read-Starving env h ne done = record {
      registered = ground (arith, s.registered, present-erase_ne g h d.table.poll_readers_list ne);
      blacklisted = ground (arith, s.blacklisted);
    }

    not_ready : (env : PollEnv) → (rt_poll env f d).0 ≢ ready
    unfolding rt_poll
    not_ready env = ground (arith, s.blacklisted)

  opened-driver :
      (kernthread task : Ptr) (h : File) (t u : Files)
      → rt_open kernthread task h t ≡ some u
      → u.driver ≡ t.driver
  unfolding rt_open
  opened-driver kernthread task h t u opened = ground (arith)

  Others-Starving :
      (g f : File) {s t : Files} → Starving g f s.driver → Others g s t → Starving g f t.driver
  unfolding rt_open rt_release
  Others-Starving g f st stay = st
  Others-Starving g f st (opens kernthread task h run ne opened) =
      rw (opened-driver kernthread task h _ _ opened) (Others-Starving g f st run)
  Others-Starving g f st (closes h run) = Others-Starving g f st run
  Others-Starving g f st (writes access_ok fresh kmsg run done) =
      write-Starving g f (Others-Starving g f st run) access_ok fresh kmsg done
  Others-Starving g f st (polls env h run ne) = poll-Starving g f (Others-Starving g f st run) env h
  Others-Starving g f st (reads env h run ne done) =
      read-Starving g f (Others-Starving g f st run) env h ne done

  -- A registered reader `g` is closed while another reader `f`, which has read, is black-listed. As
  -- long as the address of `g` is not given to a file that is opened later, and whatever processes
  -- write, poll and read through other files, open and close: a poll of `f` is not told that there is
  -- news, because `g` stays on the list of polling readers.
  pub closed_reader-starves :
      (g f : File) (s t : Files) (env : PollEnv)
      → present g s.driver.table.poll_readers_list ≡ true
      → present f s.driver.black_listed_poll_readers_list ≡ true
      → Others g (rt_release g s) t
      → (rt_poll env f t.driver).0 ≢ ready
  unfolding rt_release
  closed_reader-starves g f s t env registered blacklisted run =
      not_ready g f
        (Others-Starving g f (record { registered = registered; blacklisted = blacklisted }) run)
        env
