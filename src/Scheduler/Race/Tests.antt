-- ===== src/Scheduler/Race/Tests.antt =====
-- A run with two writers and two subscribers in which the last reader is late, and the theorem there.
use ribdriver.Base.{◌+◌, refl, ◌≢◌, true, false, none, [], arith}
use ribdriver.Memory.{Ptr, set_at}
use ribdriver.Table.{
  Layout, rt_layout, null, live, rt_get_updated_rt_entries, rt_empty_change_list, purge_rt_table,
}
use ribdriver.Queue.Fifo
use ribdriver.Fops.{Driver, read_copy, copy_vector, kfree_vector}
use ribdriver.Scheduler.{
  rtpurge, r_copied, idle, granting, System, start, last_reader, writer_enters, writer_resumes,
  writer_updates, writer_finishes, worker_picks, worker_resumes, worker_counts, worker_gathers,
  worker_grants, worker_waits, worker_ends, reader_enters, reader_resumes, reader_copies, perform,
  writer_enter, writer_resume, writer_update, writer_finish, worker_pick, worker_resume,
  worker_count, worker_gather, worker_grant, worker_wait, worker_end, reader_enter, reader_resume,
  reader_copy,
}
use ribdriver.Scheduler.Safety.{HasAccess}
use ribdriver.Scheduler.Race.{
  Fine, decremented, last_completes, passed, FineSteps, here, then_step, other, last_complete,
  last_reader-races,
}

instance abbrev layout : Layout
layout = rt_layout

abbrev driver : Driver
driver = record {
  table = record { rt = []; rt_change_list = []; poll_readers_list = []; memory = λ _. none };
  rt_update_vector = null;
  rt_update_vector_count = 0;
  black_listed_poll_readers_list = [];
  rw_readers = 0;
}

-- The subscriber 8 waits, the writer 7 is served, and the worker counts one subscriber.
abbrev counted : System
counted = worker_counts (
    worker_resumes (
      writer_finishes 7 (
        writer_updates 7 rtpurge (
          writer_resumes 7 rtpurge
            (worker_picks (writer_enters 7 rtpurge (reader_enters 8 (start driver))))))))

-- 8 is let in and copies; the writer 9 and the subscriber 6 come.
abbrev let_in : System
let_in = worker_waits (
    worker_grants 0 (record counted {
      driver = record (counted.driver) { rt_update_vector = live []; rt_update_vector_count = 0 };
      worker = granting counted.n_readers_to_be_service;
    }))

abbrev copied : System
copied =
    let s = reader_resumes 8 let_in in
    reader_enters 6 (writer_enters 9 rtpurge (record s { pc = set_at s.pc 8 r_copied }))

-- 8 completes the worker, which serves 9 and counts 6.
abbrev completed : System
completed = record copied {
  driver = record (copied.driver) {
    table = rt_empty_change_list copied.driver.table;
    rt_update_vector = null;
    rt_update_vector_count = 0;
  };
  worker_completion = copied.worker_completion + 1;
}

abbrev raced : Fine
raced = record {
  system = worker_counts (
      worker_resumes (
        writer_finishes 9 (
          writer_updates 9 rtpurge
            (writer_resumes 9 rtpurge (worker_picks (worker_ends completed))))));
  permits = 0;
  leaving = set_at (λ _. false) 8 true;
}

abbrev started : Fine
started = record { system = start driver; permits = 1; leaving = λ _. false }

abbrev fine : System → Fine
fine s = record { system = s; permits = 1; leaving = λ _. false }

counted-FineSteps : FineSteps started (fine counted)
unfolding writer_enters writer_resumes writer_updates writer_finishes worker_picks worker_resumes
    worker_counts reader_enters perform Fifo.push Fifo.pop purge_rt_table
counted-FineSteps =
    then_step
      (then_step
        (then_step
          (then_step
            (then_step
              (then_step
                (then_step
                  (then_step here (other (reader_enter 8 (ground arith) refl refl) tt refl))
                  (other (writer_enter 7 rtpurge (ground arith) refl refl) tt refl))
                (other (worker_pick refl (ground arith) refl) tt refl))
              (other (writer_resume 7 rtpurge refl (ground arith) refl) tt refl))
            (other (writer_update 7 rtpurge refl refl) tt refl))
          (other (writer_finish 7 refl refl) tt refl))
        (other (worker_resume 7 refl (ground arith) refl) tt refl))
      (other (worker_count refl refl) tt refl)

copied-FineSteps : FineSteps started (fine copied)
unfolding writer_enters writer_resumes writer_updates writer_finishes worker_picks worker_resumes
    worker_counts worker_gathers worker_grants worker_waits reader_enters reader_resumes
    reader_copies perform Fifo.push Fifo.pop purge_rt_table rt_get_updated_rt_entries read_copy
    copy_vector
copied-FineSteps =
    then_step
      (then_step
        (then_step
          (then_step
            (then_step
              (then_step
                (then_step counted-FineSteps (other (worker_gather false refl refl) tt refl))
                (other (worker_grant 0 refl refl) tt refl))
              (other (worker_wait refl refl) tt refl))
            (other (reader_resume 8 refl (ground arith) refl) tt refl))
          (other (reader_copy 8 [] refl refl) tt refl))
        (other (writer_enter 9 rtpurge (ground arith) refl refl) tt refl))
      (other (reader_enter 6 (ground arith) refl refl) tt refl)

-- The theorem's state is reached.
raced-FineSteps : FineSteps started raced
unfolding writer_enters writer_resumes writer_updates writer_finishes worker_picks worker_resumes
    worker_counts worker_gathers worker_grants worker_waits worker_ends reader_enters reader_resumes
    perform Fifo.push Fifo.pop purge_rt_table last_completes passed last_reader kfree_vector
raced-FineSteps =
    then_step
      (then_step
        (then_step
          (then_step
            (then_step
              (then_step
                (then_step
                  (then_step copied-FineSteps
                    (last_complete 8 false refl refl (ground arith) refl refl))
                  (other (worker_end refl (ground arith) refl) tt refl))
                (other (worker_pick refl (ground arith) refl) tt refl))
              (other (writer_resume 9 rtpurge refl (ground arith) refl) tt refl))
            (other (writer_update 9 rtpurge refl refl) tt refl))
          (other (writer_finish 9 refl refl) tt refl))
        (other (worker_resume 9 refl (ground arith) refl) tt refl))
      (other (worker_count refl refl) tt refl)

last_reader-races_example :
    ((decremented 8 raced).system.worker ≢ idle)
    × ((q : Ptr) → ¬ HasAccess ((decremented 8 raced).system.pc q))
unfolding writer_enters writer_resumes writer_updates writer_finishes worker_picks worker_resumes
    worker_counts worker_gathers worker_grants worker_waits worker_ends reader_enters reader_resumes
    Fifo.push Fifo.pop
last_reader-races_example =
    last_reader-races 8 raced (decremented 8 raced) refl (λ q ne. ground arith) refl refl refl
      (λ q ne. ground arith) (λ q. ground arith) here
