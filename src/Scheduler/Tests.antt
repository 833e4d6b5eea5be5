-- ===== src/Scheduler/Tests.antt =====
-- A run of the scheduler with one writer and one subscriber, on which its theorems are applied.
use ribdriver.Base.{ℕ, zero, suc, ◌≡◌, refl, none, [], ◌++◌, arith}
use ribdriver.Table.{Layout, rt_layout, null}
use ribdriver.Queue.Fifo
use ribdriver.Fops.{Driver}
use ribdriver.Scheduler.{
  rtpurge, System, start, writer_enters, writer_resumes, writer_updates, writer_finishes,
  worker_picks, worker_resumes, worker_counts, reader_enters, Reach, begin, more, writer_enter,
  writer_resume, writer_update, writer_finish, worker_pick, worker_resume, worker_count,
  reader_enter,
}
use ribdriver.Scheduler.Order.{
  writers_came, writers_let_in, readers_came, readers_let_in, first_come-first_served,
}

instance abbrev layout : Layout
layout = rt_layout

abbrev driver : Driver
driver = record {
  table = record { rt = []; rt_change_list = []; poll_readers_list = []; memory = λ _. none };
  rt_update_vector = null;
  rt_update_vector_count = 0;
  black_listed_poll_readers_list = [];
  rw_readers = 0;
}

-- The subscriber 8 and the writer 7 have called, and the writer has been let in.
abbrev granted : System
granted =
    writer_resumes 7 rtpurge
      (worker_picks (writer_enters 7 rtpurge (reader_enters 8 (start driver))))

granted-Reach : Reach driver granted
unfolding reader_enters writer_enters worker_picks Fifo.push Fifo.pop
granted-Reach =
    more
      (more
        (more (more begin (reader_enter 8 (ground arith) refl refl))
          (writer_enter 7 rtpurge (ground arith) refl refl))
        (worker_pick refl (ground arith) refl))
      (writer_resume 7 rtpurge refl (ground arith) refl)

-- The writer has left, and the worker has counted one reader.
abbrev counted : System
counted = worker_counts (worker_resumes (writer_finishes 7 (writer_updates 7 rtpurge granted)))

counted-Reach : Reach driver counted
unfolding writer_resumes writer_updates writer_finishes worker_picks worker_resumes writer_enters
    reader_enters
counted-Reach =
    more
      (more
        (more (more granted-Reach (writer_update 7 rtpurge refl refl)) (writer_finish 7 refl refl))
        (worker_resume 7 refl (ground arith) refl))
      (worker_count refl refl)

first_come-first_served_example :
    (writers_came counted-Reach ≡ writers_let_in counted-Reach ++ counted.writer_q)
    × (readers_came counted-Reach ≡ readers_let_in counted-Reach ++ counted.reader_q)
first_come-first_served_example = first_come-first_served counted-Reach

-- The writers 1 to `n` have called.
abbrev filled : ℕ → System
filled zero = start driver
filled (suc n) = writer_enters (suc n) rtpurge (filled n)
