-- ===== src/Fops/Calls.antt =====
-- Any calls of the polling interface one after another.
use ribdriver.Base.{ℕ, ◌≡◌, Bool, false, some, arith}
use ribdriver.Base.Members.{present}
use ribdriver.Memory.{Ptr, Bytes}
use ribdriver.Table.{Layout, File, Update, Status, apply_rt_updates, add_rt_table_entry_by_val}
use ribdriver.Fops.{Driver, ReadEnv, PollEnv, rt_read, rt_write, rt_poll}
use ribdriver.Fops.Poll.{IsOrderly, rt_poll-IsOrderly, rt_read-IsOrderly}

module _ ⦃lay : Layout⦄ where
  -- Polls, reads and writes, whatever they meet; a file is read while it is not black-listed.
  pub data Calls (d : Driver) : Driver → Type 0 where
    none_yet : Calls d d
    polled : {e : Driver} (env : PollEnv) (f : File) → Calls d e → Calls d (rt_poll env f e).1
    have_read :
        {e e' : Driver} (env : ReadEnv) (f : File) (bytes : Bytes) (rc : Status)
        → Calls d e
        → present f e.black_listed_poll_readers_list ≡ false
        → rt_read env f e ≡ some (bytes, rc, e')
        → Calls d e'
    wrote :
        {e e' : Driver} (access_ok : Bool) (fresh : Ptr) (kmsg : Update) (n : ℕ)
        → Calls d e
        → rt_write access_ok fresh kmsg e ≡ some (n, e')
        → Calls d e'

  write-IsOrderly :
      (access_ok : Bool) (fresh : Ptr) (kmsg : Update) (n : ℕ) (e e' : Driver)
      → IsOrderly e
      → rt_write access_ok fresh kmsg e ≡ some (n, e')
      → IsOrderly e'
  unfolding rt_write apply_rt_updates add_rt_table_entry_by_val
  write-IsOrderly access_ok fresh kmsg n e e' o done = record {
    polling = ground (arith, o.polling);
    black = ground (arith, o.black);
    apart = λ f h. ground (arith, o.apart f);
  }

  -- From a driver in which no reader is listed twice, polls, reads and writes in any order and with any
  -- errors, where a reader that is black-listed does not read: no reader is ever listed twice, neither on
  -- one of the two lists nor on both.
  pub Calls-IsOrderly : (d e : Driver) → IsOrderly d → Calls d e → IsOrderly e
  Calls-IsOrderly d e o none_yet = o
  Calls-IsOrderly d e o (polled {e = e0} env f run) =
      rt_poll-IsOrderly env f e0 (Calls-IsOrderly d e0 o run)
  Calls-IsOrderly d e o (have_read {e = e0} env f bytes rc run unread done) =
      rt_read-IsOrderly env f e0 e bytes rc (Calls-IsOrderly d e0 o run) unread done
  Calls-IsOrderly d e o (wrote {e = e0} access_ok fresh kmsg n run done) =
      write-IsOrderly access_ok fresh kmsg n e0 e (Calls-IsOrderly d e0 o run) done
