-- ===== src/Scheduler/Order.antt =====
-- The order in which threads come and are let in.
use ribdriver.Base.{
  ℕ, suc, ◌≡◌, refl, ap, sym, ◌∙◌, ◌≢◌, List, [], ◌∷◌, ◌++◌, append-nil, append_assoc, ◌==◌,
  if◌then◌else◌, arith, length,
}
use ribdriver.Memory.{Ptr}
use ribdriver.Table.{Layout}
use ribdriver.Queue.Fifo
use ribdriver.Queue.Fifo.{Fifo}
use ribdriver.Fops.{Driver}
use ribdriver.Scheduler.{
  System, Step, writer_enter, writer_resume, writer_update, writer_give_up, writer_finish,
  worker_pick, worker_resume, worker_count, worker_gather, worker_grant, worker_wait, worker_end,
  reader_enter, reader_resume, reader_copy, reader_leave, Reach, begin, more, writer_enters,
  writer_resumes, writer_updates, writer_gives_up, writer_finishes, worker_picks, worker_resumes,
  worker_counts, worker_gathers, worker_grants, worker_waits, worker_ends, reader_enters,
  reader_resumes, reader_copies, reader_leaves, granting,
}
use ribdriver.Scheduler.Safety.{grants_available}

-- A thread that finds its queue full is not on it.
abbrev queued : Fifo → Ptr → List Ptr
queued q p = if length q == 50 then [] else p ∷ []

module _ ⦃lay : Layout⦄ where
  -- The thread that a step puts on a queue, and the one for which the worker calls `complete`.
  unfoldable writer_comes : {s t : System} → Step s t → List Ptr
  writer_comes {s = s} (writer_enter p req ne at_p e) = queued s.writer_q p
  writer_comes _ = []

  unfoldable writer_let_in : {s t : System} → Step s t → List Ptr
  writer_let_in {s = s} (worker_pick free some_in e) = (Fifo.pop s.writer_q).0 ∷ []
  writer_let_in _ = []

  unfoldable reader_comes : {s t : System} → Step s t → List Ptr
  reader_comes {s = s} (reader_enter p ne at_p e) = queued s.reader_q p
  reader_comes _ = []

  unfoldable reader_let_in : {s t : System} → Step s t → List Ptr
  reader_let_in {s = s} (worker_grant k at_w e) = (Fifo.pop s.reader_q).0 ∷ []
  reader_let_in _ = []

  -- The threads of a run, in the order of its steps.
  unfoldable pub writers_came : {d : Driver} {s : System} → Reach d s → List Ptr
  unfolding writer_comes
  writers_came begin = []
  writers_came (more r step) = writers_came r ++ writer_comes step

  unfoldable pub writers_let_in : {d : Driver} {s : System} → Reach d s → List Ptr
  unfolding writer_let_in
  writers_let_in begin = []
  writers_let_in (more r step) = writers_let_in r ++ writer_let_in step

  unfoldable pub readers_came : {d : Driver} {s : System} → Reach d s → List Ptr
  unfolding reader_comes
  readers_came begin = []
  readers_came (more r step) = readers_came r ++ reader_comes step

  unfoldable pub readers_let_in : {d : Driver} {s : System} → Reach d s → List Ptr
  unfolding reader_let_in
  readers_let_in begin = []
  readers_let_in (more r step) = readers_let_in r ++ reader_let_in step

  push-queued : (q : Fifo) (p : Ptr) → p ≢ 0 → (Fifo.push q p).1 ≡ q ++ queued q p
  unfolding Fifo.push
  push-queued q p ne = ground (arith, append-nil q)

  pop-front : (q : Fifo) → q ≢ [] → (Fifo.pop q).0 ∷ (Fifo.pop q).1 ≡ q
  unfolding Fifo.pop
  pop-front [] some_in = absurd (some_in refl)
  pop-front (p ∷ q) some_in = refl

  module _ {s t : System}
      (some_left : (k : ℕ) → s.worker ≡ granting (suc k) → s.reader_q ≢ []) where
    -- What a step does to the queues.
    Step-queues :
        (step : Step s t)
        → (s.writer_q ++ writer_comes step ≡ writer_let_in step ++ t.writer_q)
          × (s.reader_q ++ reader_comes step ≡ reader_let_in step ++ t.reader_q)
    unfolding writer_comes writer_let_in reader_comes reader_let_in writer_enters writer_resumes
        writer_updates writer_gives_up writer_finishes worker_picks worker_resumes worker_counts
        worker_gathers worker_grants worker_waits worker_ends reader_enters reader_resumes
        reader_copies reader_leaves
    Step-queues (writer_enter p req ne at_p e) =
        ground (arith, append-nil s.writer_q, append-nil s.reader_q, push-queued s.writer_q p ne)
    Step-queues (writer_resume p req at_p m e) =
        ground (arith, append-nil s.writer_q, append-nil s.reader_q)
    Step-queues (writer_update p req at_p e) =
        ground (arith, append-nil s.writer_q, append-nil s.reader_q)
    Step-queues (writer_give_up p fresh msg at_p e) =
        ground (arith, append-nil s.writer_q, append-nil s.reader_q)
    Step-queues (writer_finish p at_p e) =
        ground (arith, append-nil s.writer_q, append-nil s.reader_q)
    Step-queues (worker_pick free some_in e) =
        ground (arith, append-nil s.writer_q, append-nil s.reader_q, pop-front s.writer_q some_in)
    Step-queues (worker_resume p at_w m e) =
        ground (arith, append-nil s.writer_q, append-nil s.reader_q)
    Step-queues (worker_count at_w e) = ground (arith, append-nil s.writer_q, append-nil s.reader_q)
    Step-queues (worker_gather no_mem at_w e) =
        ground (arith, append-nil s.writer_q, append-nil s.reader_q)
    Step-queues (worker_grant k at_w e) = ground (
      arith,
      append-nil s.writer_q,
      append-nil s.reader_q,
      pop-front s.reader_q (some_left k at_w),
    )
    Step-queues (worker_wait at_w e) = ground (arith, append-nil s.writer_q, append-nil s.reader_q)
    Step-queues (worker_end at_w m e) = ground (arith, append-nil s.writer_q, append-nil s.reader_q)
    Step-queues (reader_enter p ne at_p e) =
        ground (arith, append-nil s.writer_q, append-nil s.reader_q, push-queued s.reader_q p ne)
    Step-queues (reader_resume p at_p m e) =
        ground (arith, append-nil s.writer_q, append-nil s.reader_q)
    Step-queues (reader_copy p bytes at_p e) =
        ground (arith, append-nil s.writer_q, append-nil s.reader_q)
    Step-queues (reader_leave p at_p e) =
        ground (arith, append-nil s.writer_q, append-nil s.reader_q)

  some-left :
      {d : Driver} {s : System} (k : ℕ) → Reach d s → s.worker ≡ granting (suc k) → s.reader_q ≢ []
  some-left k r at_w = let left = grants_available (suc k) r at_w in ground (arith, left)

  -- A new arrival at the end, and one let in from the front.
  in_order :
      (came before q new gone q' : List Ptr)
      → came ≡ before ++ q
      → q ++ new ≡ gone ++ q'
      → came ++ new ≡ (before ++ gone) ++ q'
  in_order came before q new gone q' e step =
      ap (◌++ new) e
      ∙ append_assoc before q new
      ∙ ap (before ++◌) step
      ∙ sym (append_assoc before gone q')

  -- First come, first served, in every run of the scheduler from its start in which a reader's way out
  -- is one step: the writers that were
  -- put on their queue, in the order in which they came, are those that the worker has let in, in the
  -- order in which it did, followed by those that are on the queue; and so are the readers.
  pub first_come-first_served :
      {d : Driver} {s : System} (r : Reach d s)
      → (writers_came r ≡ writers_let_in r ++ s.writer_q)
        × (readers_came r ≡ readers_let_in r ++ s.reader_q)
  unfolding writers_came writers_let_in readers_came readers_let_in
  first_come-first_served begin = (refl, refl)
  first_come-first_served (more {s = s} {t = t} r step) =
      let (writers, readers) = first_come-first_served r in
      let (w, q) = Step-queues (λ k. some-left k r) step in
      (
        in_order (writers_came r) (writers_let_in r) s.writer_q (writer_comes step)
            (writer_let_in step) t.writer_q writers w,
        in_order (readers_came r) (readers_let_in r) s.reader_q (reader_comes step)
            (reader_let_in step) t.reader_q readers q,
      )
