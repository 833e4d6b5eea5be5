-- ===== src/Scheduler.antt =====
-- RT/rt_fops.c: `rt_worker_fn` and the blocking commands of `ioctl_rt_handler1`, the readers-writer
-- scheduler. Each thread calls on its own open file, so that a thread is named by its `struct
-- kernthread *`. A function is what one thread does between two points at which it can wait; `Step`
-- lets any thread that can go on do so. Here a reader's way out is one step,
-- so that nothing comes between the last reader's `complete` and its decrement of
-- `n_readers_to_be_service`. `Race` has the way out as the code has it, with that gap and with a signal
-- at the semaphore, and `Prompt` says which of its runs are like those of `Step`.
pub mod Invariant
pub mod Steps
pub mod Work
pub mod Moves
pub mod Safety
pub mod Sound
pub mod Steady
pub mod Stall
pub mod Settling
pub mod Order
pub mod Race
pub mod Prompt
mod Tests
use ribdriver.Base.{
  ℕ, suc, zero, ◌+◌, ◌-◌, ◌≤◌, ◌<◌, ◌≡◌, ◌≢◌, Bool, true, false, Option, none, some, List, [], ◌∷◌,
  ◌==◌, ltb, if◌then◌else◌, length,
}
use ribdriver.Memory.{set_at, Ptr, Bytes}
use ribdriver.Queue.Fifo
use ribdriver.Queue.Fifo.{Fifo}
use ribdriver.Table.{
  Layout, Entry, Update, Table, Vector, null, apply_rt_updates, add_rt_table_entry_by_val,
  purge_rt_table, rt_empty_change_list, rt_get_updated_rt_entries,
}
use ribdriver.Fops.{Driver, clamp_count, read_copy, kfree_vector}

-- What a writer asks for: RT_IOC_COMMON_UPDATE_RT, RT_IOC_RTPURGE or RT_IOC_CR_RTENTRY, with the
-- address of the block that an addition allocates.
pub data Request : Type 0 where
  common_update : Ptr → Update → Request
  rtpurge : Request
  cr_rtentry : Ptr → Entry → Request

-- Where a thread is in `ioctl_rt_handler1`.
pub data Pc : Type 0 where
  outside : Pc
  w_waiting : Request → Pc
  w_granted : Request → Pc
  w_updated : Pc
  r_waiting : Pc
  r_granted : Pc
  r_copied : Pc

-- Where the worker thread is. In `writing` it waits for the writer that it has picked, and in
-- `granting` it has so many readers left to let in.
pub data Worker : Type 0 where
  idle : Worker
  writing : Ptr → Worker
  counting : Worker
  gathering : Worker
  granting : ℕ → Worker
  reading : Worker

-- `enum busy_mode_t`
pub data BusyMode : Type 0 where
  busy_with_writers busy_with_readers mode_idle : BusyMode

-- A completion counts the calls of `complete` that no wait has used up.
pub record System : Type 0 where
  pub driver : Driver
  pub n_readers_to_be_service : ℕ
  pub writer_q : Fifo
  pub reader_q : Fifo
  pub worker : Worker
  pub worker_completion : ℕ
  pub pc : Ptr → Pc
  pub completion : Ptr → ℕ

-- A writer enqueues itself and waits. The result of `enqueue` is not looked at.
unfoldable pub writer_enters : Ptr → Request → System → System
unfolding Fifo.push
writer_enters p req s = record s {
  writer_q = (Fifo.push s.writer_q p).1;
  pc = set_at s.pc p (w_waiting req);
}

-- `complete` has been called for the waiting thread, which goes on.
unfoldable pub writer_resumes : Ptr → Request → System → System
writer_resumes p req s = record s {
  completion = set_at s.completion p (s.completion p - 1);
  pc = set_at s.pc p (w_granted req);
}

module _ ⦃lay : Layout⦄ where
  unfoldable pub perform : Request → Table → Table
  perform (common_update fresh msg) t = apply_rt_updates fresh msg t
  perform rtpurge t = purge_rt_table t
  perform (cr_rtentry fresh entry) t = add_rt_table_entry_by_val fresh entry t

  unfoldable pub writer_updates : Ptr → Request → System → System
  writer_updates p req s = record s {
    driver = record (s.driver) { table = perform req s.driver.table };
    pc = set_at s.pc p w_updated;
  }

-- RT_LOCK_SEM is interrupted: the writer returns at once, and does not wake the worker.
unfoldable pub writer_gives_up : Ptr → System → System
writer_gives_up p s = record s { pc = set_at s.pc p outside }

unfoldable pub writer_finishes : Ptr → System → System
writer_finishes p s = record s {
  worker_completion = s.worker_completion + 1;
  pc = set_at s.pc p outside;
}

-- The worker takes the oldest writer and calls `complete` for it.
unfoldable pub worker_picks : System → System
unfolding Fifo.pop
worker_picks s =
    let (p, q) = Fifo.pop s.writer_q in
    record s {
      writer_q = q;
      completion = set_at s.completion p (s.completion p + 1);
      worker = writing p;
    }

unfoldable pub worker_resumes : System → System
worker_resumes s = record s { worker_completion = s.worker_completion - 1; worker = counting }

-- With no reader the change list is emptied, and the worker waits for the next writer.
unfoldable pub worker_counts : System → System
unfolding rt_empty_change_list
worker_counts s =
    let n = length s.reader_q in
    if n == 0
    then record s {
      n_readers_to_be_service = 0;
      driver = record (s.driver) { table = rt_empty_change_list s.driver.table };
      worker = idle;
    }
    else record s { n_readers_to_be_service = n; worker = gathering }

-- `none` is a read of a freed entry. The count is not limited here.
unfoldable pub worker_gathers : (no_mem : Bool) → System → Option System
unfolding rt_get_updated_rt_entries
worker_gathers no_mem s = elim (rt_get_updated_rt_entries no_mem s.driver.table) [
  | none ↦ none
  | some (v, count) ↦ some (record s {
    driver = record (s.driver) { rt_update_vector = v; rt_update_vector_count = count };
    worker = granting s.n_readers_to_be_service;
  })
]

-- One round of `allow_rt_access_to_readers`; with `k` rounds to follow.
unfoldable pub worker_grants : ℕ → System → System
unfolding Fifo.pop
worker_grants k s =
    let (p, q) = Fifo.pop s.reader_q in
    record s {
      reader_q = q;
      completion = set_at s.completion p (s.completion p + 1);
      worker = granting k;
    }

unfoldable pub worker_waits : System → System
worker_waits s = record s { worker = reading }

unfoldable pub worker_ends : System → System
worker_ends s = record s { worker_completion = s.worker_completion - 1; worker = idle }

-- A subscriber limits the count as it is now, enqueues itself and waits.
unfoldable pub reader_enters : Ptr → System → System
unfolding Fifo.push
reader_enters p s = record s {
  driver = record (s.driver) {
    rt_update_vector_count = clamp_count s.driver.rt_update_vector_count;
  };
  reader_q = (Fifo.push s.reader_q p).1;
  pc = set_at s.pc p r_waiting;
}

unfoldable pub reader_resumes : Ptr → System → System
reader_resumes p s = record s {
  completion = set_at s.completion p (s.completion p - 1);
  pc = set_at s.pc p r_granted;
}

module _ ⦃lay : Layout⦄ where
  -- The copy to the user buffer; `none` is a read of a freed vector.
  unfoldable pub reader_copies : Ptr → System → Option (Bytes × System)
  reader_copies p s = elim (read_copy s.driver) [
    | none ↦ none
    | some bytes ↦ some (bytes, record s { pc = set_at s.pc p r_copied })
  ]

-- What the last reader does to the table and the vector; `none` is a second free.
unfoldable pub last_reader : Driver → Option Driver
unfolding rt_empty_change_list
last_reader d = elim (kfree_vector d.rt_update_vector) [
  | none ↦ none
  | some _ ↦ some (record d {
    table = rt_empty_change_list d.table;
    rt_update_vector = null;
    rt_update_vector_count = 0;
  })
]

-- A way out of the critical section in which nobody comes between; `Race` has its parts.
unfoldable pub reader_leaves : Ptr → System → Option System
reader_leaves p s =
    if s.n_readers_to_be_service == 1
    then elim (last_reader s.driver) [
      | none ↦ none
      | some d ↦ some (record s {
        driver = d;
        worker_completion = s.worker_completion + 1;
        n_readers_to_be_service = 0;
        pc = set_at s.pc p outside;
      })
    ]
    else some (record s {
      n_readers_to_be_service = s.n_readers_to_be_service - 1;
      pc = set_at s.pc p outside;
    })

-- `busy_mode`, as the worker has last set it: it keeps BUSY_WITH_WRITERS until the readers are let
-- in.
abbrev pub busy_mode : Worker → BusyMode
busy_mode idle = mode_idle
busy_mode reading = busy_with_readers
busy_mode _ = busy_with_writers

module _ ⦃lay : Layout⦄ where
  -- One move of some thread or of the worker.
  pub data Step (s t : System) : Type 0 where
    writer_enter :
        (p : Ptr) (req : Request) → p ≢ 0 → s.pc p ≡ outside → t ≡ writer_enters p req s → Step s t
    writer_resume :
        (p : Ptr) (req : Request)
        → s.pc p ≡ w_waiting req
        → 0 < s.completion p
        → t ≡ writer_resumes p req s
        → Step s t
    writer_update :
        (p : Ptr) (req : Request) → s.pc p ≡ w_granted req → t ≡ writer_updates p req s → Step s t
    writer_give_up :
        (p fresh : Ptr) (msg : Update)
        → s.pc p ≡ w_granted (common_update fresh msg)
        → t ≡ writer_gives_up p s
        → Step s t
    writer_finish : (p : Ptr) → s.pc p ≡ w_updated → t ≡ writer_finishes p s → Step s t
    worker_pick : s.worker ≡ idle → s.writer_q ≢ [] → t ≡ worker_picks s → Step s t
    worker_resume :
        (p : Ptr) → s.worker ≡ writing p → 0 < s.worker_completion → t ≡ worker_resumes s → Step s t
    worker_count : s.worker ≡ counting → t ≡ worker_counts s → Step s t
    worker_gather :
        (no_mem : Bool) → s.worker ≡ gathering → worker_gathers no_mem s ≡ some t → Step s t
    worker_grant : (k : ℕ) → s.worker ≡ granting (suc k) → t ≡ worker_grants k s → Step s t
    worker_wait : s.worker ≡ granting 0 → t ≡ worker_waits s → Step s t
    worker_end : s.worker ≡ reading → 0 < s.worker_completion → t ≡ worker_ends s → Step s t
    reader_enter : (p : Ptr) → p ≢ 0 → s.pc p ≡ outside → t ≡ reader_enters p s → Step s t
    reader_resume :
        (p : Ptr) → s.pc p ≡ r_waiting → 0 < s.completion p → t ≡ reader_resumes p s → Step s t
    reader_copy :
        (p : Ptr) (bytes : Bytes)
        → s.pc p ≡ r_granted
        → reader_copies p s ≡ some (bytes, t)
        → Step s t
    reader_leave : (p : Ptr) → s.pc p ≡ r_copied → reader_leaves p s ≡ some t → Step s t

-- Nobody has called yet.
abbrev pub start : Driver → System
start d = record {
  driver = d;
  n_readers_to_be_service = 0;
  writer_q = [];
  reader_q = [];
  worker = idle;
  worker_completion = 0;
  pc = λ _. outside;
  completion = λ _. 0;
}

module _ ⦃lay : Layout⦄ where
  pub data Reach (d : Driver) : System → Type 0 where
    begin : Reach d (start d)
    more : {s t : System} → Reach d s → Step s t → Reach d t
