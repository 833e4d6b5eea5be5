-- ===== src/Scheduler/Steady.antt =====
-- Runs in which no writer is interrupted and no queue is full: then nobody who waits is forgotten.
use ribdriver.Base.{ℕ, ◌<◌, ◌≡◌, ◌≢◌, ◌⊎◌, Bool, true, List, ◌==◌, arith, length, if◌then◌else◌}
use ribdriver.Memory.{Ptr}
use ribdriver.Base.Members.{present, present-append}
use ribdriver.Queue.Fifo
use ribdriver.Table.{Layout}
use ribdriver.Fops.{Driver}
use ribdriver.Scheduler.{
  Pc, outside, w_waiting, w_granted, w_updated, r_waiting, r_granted, r_copied, Worker, idle,
  writing, counting, gathering, granting, reading, System, start, Step, writer_enter, writer_resume,
  writer_update, writer_give_up, writer_finish, worker_pick, worker_resume, worker_count,
  worker_gather, worker_grant, worker_wait, worker_end, reader_enter, reader_resume, reader_copy,
  reader_leave, Reach, begin, more, writer_enters, writer_resumes, writer_updates, writer_finishes,
  worker_picks, worker_resumes, worker_counts, worker_gathers, worker_grants, worker_waits,
  worker_ends, reader_enters, reader_resumes, reader_copies, reader_leaves,
}
use ribdriver.Scheduler.Invariant.{Inv}
use ribdriver.Scheduler.Moves.{Reach-Good, nonempty}

-- A step that forgets no thread: the queue of a thread that calls has room, and no signal ends a
-- writer's turn.
abbrev pub IsSteady : ⦃lay : Layout⦄ → {s t : System} → Step s t → Type 0
IsSteady {s} (writer_enter p req ne at_p e) = length s.writer_q < 50
IsSteady {s} (reader_enter p ne at_p e) = length s.reader_q < 50
IsSteady (writer_give_up p fresh msg at_p e) = ⊥
IsSteady (writer_resume p req at_p m e) = Unit
IsSteady (writer_update p req at_p e) = Unit
IsSteady (writer_finish p at_p e) = Unit
IsSteady (worker_pick free some_in e) = Unit
IsSteady (worker_resume p at_w m e) = Unit
IsSteady (worker_count at_w e) = Unit
IsSteady (worker_gather no_mem at_w e) = Unit
IsSteady (worker_grant k at_w e) = Unit
IsSteady (worker_wait at_w e) = Unit
IsSteady (worker_end at_w m e) = Unit
IsSteady (reader_resume p at_p m e) = Unit
IsSteady (reader_copy p bytes at_p e) = Unit
IsSteady (reader_leave p at_p e) = Unit

module _ ⦃lay : Layout⦄ where
  pub data Run (d : Driver) : System → Type 0 where
    calm : Run d (start d)
    next : {s t : System} → Run d s → (step : Step s t) → IsSteady step → Run d t

  pub Run-Reach : {d : Driver} {s : System} → Run d s → Reach d s
  Run-Reach calm = begin
  Run-Reach (next r step ok) = more (Run-Reach r) step

-- The writer that the worker waits for has been let in and has not finished.
abbrev pub IsAtWork : Pc → (completion : ℕ) → Type 0
IsAtWork (w_waiting _) c = c ≡ 1
IsAtWork (w_granted _) c = Unit
IsAtWork w_updated c = Unit
IsAtWork outside c = ⊥
IsAtWork r_waiting c = ⊥
IsAtWork r_granted c = ⊥
IsAtWork r_copied c = ⊥

abbrev pub Awaited : Worker → (wc : ℕ) → (Ptr → Pc) → (Ptr → ℕ) → Type 0
Awaited (writing p) wc pc completion = (wc ≡ 1) ⊎ IsAtWork (pc p) (completion p)
Awaited idle wc pc completion = Unit
Awaited counting wc pc completion = Unit
Awaited gathering wc pc completion = Unit
Awaited (granting k) wc pc completion = Unit
Awaited reading wc pc completion = Unit

-- A thread that waits has been let in, or stands in its queue.
abbrev pub Kept : Pc → (completion : ℕ) → (in_writers in_readers : Bool) → Type 0
Kept (w_waiting _) c w r = (c ≡ 1) ⊎ (w ≡ true)
Kept r_waiting c w r = (c ≡ 1) ⊎ (r ≡ true)
Kept outside c w r = Unit
Kept (w_granted _) c w r = Unit
Kept w_updated c w r = Unit
Kept r_granted c w r = Unit
Kept r_copied c w r = Unit

pub record Steady (s : System) : Type 0 where
  pub awaited : Awaited s.worker s.worker_completion s.pc s.completion
  pub kept :
      (p : Ptr) → Kept (s.pc p) (s.completion p) (present p s.writer_q) (present p s.reader_q)

pushed :
    (xs : List Ptr) (p q : Ptr)
    → p ≢ 0
    → length xs < 50
    → present q (Fifo.push xs p).1 ≡ (if q == p then true else present q xs)
unfolding Fifo.push
pushed xs p q ne room = ground (arith, present-append q xs p)

module _ ⦃lay : Layout⦄ where
  module _ {s t : System} {active : List Ptr} (i : Inv s active) (o : Steady s) where
    Step-Awaited :
        (step : Step s t) → IsSteady step → Awaited t.worker t.worker_completion t.pc t.completion
    unfolding writer_enters writer_resumes writer_updates writer_finishes worker_picks
        worker_resumes worker_counts worker_gathers worker_grants worker_waits worker_ends
        reader_enters reader_resumes reader_copies reader_leaves Fifo.pop
    Step-Awaited (writer_enter p req ne at_p e) ok = ground arith
    Step-Awaited (writer_resume p req at_p m e) ok = ground (arith, i.placed p)
    Step-Awaited (writer_update p req at_p e) ok = ground (arith, i.placed p)
    Step-Awaited (writer_give_up p fresh msg at_p e) ok = absurd ok
    Step-Awaited (writer_finish p at_p e) ok = ground (arith, i.placed p)
    Step-Awaited (worker_pick free some_in e) ok =
        let (p, rest, at) = nonempty s.writer_q some_in in ground (arith, at, i.writers p)
    Step-Awaited (worker_resume p at_w m e) ok = ground arith
    Step-Awaited (worker_count at_w e) ok = ground arith
    Step-Awaited (worker_gather no_mem at_w e) ok = ground arith
    Step-Awaited (worker_grant k at_w e) ok = ground arith
    Step-Awaited (worker_wait at_w e) ok = ground arith
    Step-Awaited (worker_end at_w m e) ok = ground arith
    Step-Awaited (reader_enter p ne at_p e) ok = ground arith
    Step-Awaited (reader_resume p at_p m e) ok = ground (arith, i.placed p)
    Step-Awaited (reader_copy p bytes at_p e) ok = ground (arith, i.placed p)
    Step-Awaited (reader_leave p at_p e) ok = ground (arith, i.placed p)

    Step-Kept :
        (step : Step s t)
        → IsSteady step
        → (q : Ptr) → Kept (t.pc q) (t.completion q) (present q t.writer_q) (present q t.reader_q)
    unfolding writer_enters writer_resumes writer_updates writer_finishes worker_picks
        worker_resumes worker_counts worker_gathers worker_grants worker_waits worker_ends
        reader_enters reader_resumes reader_copies reader_leaves Fifo.pop
    Step-Kept (writer_enter p req ne at_p e) ok q =
        ground (arith, o.kept q, pushed s.writer_q p q ne ok)
    Step-Kept (writer_resume p req at_p m e) ok q = ground (arith, o.kept q)
    Step-Kept (writer_update p req at_p e) ok q = ground (arith, o.kept q)
    Step-Kept (writer_give_up p fresh msg at_p e) ok q = absurd ok
    Step-Kept (writer_finish p at_p e) ok q = ground (arith, o.kept q)
    Step-Kept (worker_pick free some_in e) ok q =
        let (p, rest, at) = nonempty s.writer_q some_in in ground (arith, at, o.kept q, i.writers p)
    Step-Kept (worker_resume p at_w m e) ok q = ground (arith, o.kept q)
    Step-Kept (worker_count at_w e) ok q = ground (arith, o.kept q)
    Step-Kept (worker_gather no_mem at_w e) ok q = ground (arith, o.kept q)
    Step-Kept (worker_grant k at_w e) ok q =
        let (p, rest, at) = nonempty s.reader_q (ground (arith, i.turn)) in
        ground (arith, at, o.kept q, i.readers p)
    Step-Kept (worker_wait at_w e) ok q = ground (arith, o.kept q)
    Step-Kept (worker_end at_w m e) ok q = ground (arith, o.kept q)
    Step-Kept (reader_enter p ne at_p e) ok q =
        ground (arith, o.kept q, pushed s.reader_q p q ne ok)
    Step-Kept (reader_resume p at_p m e) ok q = ground (arith, o.kept q)
    Step-Kept (reader_copy p bytes at_p e) ok q = ground (arith, o.kept q)
    Step-Kept (reader_leave p at_p e) ok q = ground (arith, o.kept q)

  pub Run-Steady : {d : Driver} {s : System} → Run d s → Steady s
  Run-Steady calm = record { awaited = tt; kept = λ p. tt }
  Run-Steady (next r step ok) =
      let (active, i) = Reach-Good (Run-Reach r) in
      let o = Run-Steady r in
      record { awaited = Step-Awaited i o step ok; kept = Step-Kept i o step ok }
