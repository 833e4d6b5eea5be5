-- ===== src/Scheduler/Stall.antt =====
-- What an interrupted writer and a full queue do to the threads: they wait for ever.
use ribdriver.Base.{ℕ, ◌≡◌, refl, false, List, arith}
use ribdriver.Memory.{Ptr}
use ribdriver.Base.Members.{present}
use ribdriver.Queue.Fifo
use ribdriver.Table.{Layout, Update}
use ribdriver.Fops.{Driver}
use ribdriver.Scheduler.{
  Request, common_update, Pc, outside, w_waiting, w_granted, w_updated, r_waiting, r_granted,
  r_copied, writing, System, Step, writer_enter, writer_resume, writer_update, writer_give_up,
  writer_finish, worker_pick, worker_resume, worker_count, worker_gather, worker_grant, worker_wait,
  worker_end, reader_enter, reader_resume, reader_copy, reader_leave, Reach, more, writer_enters,
  writer_resumes, writer_updates, writer_gives_up, writer_finishes, worker_picks, worker_resumes,
  worker_counts, worker_gathers, worker_grants, worker_waits, worker_ends, reader_enters,
  reader_resumes, reader_copies, reader_leaves,
}
use ribdriver.Scheduler.Invariant.{Inv}
use ribdriver.Scheduler.Moves.{Reach-Good}
use ribdriver.Scheduler.Safety.{HasAccess}

module _ ⦃lay : Layout⦄ where
  -- Any number of steps.
  pub data Steps (s : System) : System → Type 0 where
    here : Steps s s
    then_step : {t u : System} → Steps s t → Step t u → Steps s u

  pub Steps-Reach : {d : Driver} {s t : System} → Reach d s → Steps s t → Reach d t
  Steps-Reach r here = r
  Steps-Reach r (then_step run step) = more (Steps-Reach r run) step

-- The thread has no access, and nothing is on the way to it.
abbrev IsOut : Pc → (completion : ℕ) → Type 0
IsOut outside c = Unit
IsOut (w_waiting _) c = c ≡ 0
IsOut r_waiting c = c ≡ 0
IsOut (w_granted _) c = ⊥
IsOut w_updated c = ⊥
IsOut r_granted c = ⊥
IsOut r_copied c = ⊥

-- The worker waits for `p`, which does not know of it.
abbrev Stalled : Ptr → System → Type 0
Stalled p s = (s.worker ≡ writing p) × (s.worker_completion ≡ 0) × IsOut (s.pc p) (s.completion p)

module _ ⦃lay : Layout⦄ where
  Step-Stalled :
      {s t : System} {active : List Ptr} (q : Ptr)
      → Inv s active
      → Stalled q s
      → Step s t
      → Stalled q t
  unfolding writer_enters writer_resumes writer_updates writer_gives_up writer_finishes worker_picks
      worker_resumes worker_counts worker_gathers worker_grants worker_waits worker_ends
      reader_enters reader_resumes reader_copies reader_leaves
  Step-Stalled q i o (writer_enter p req ne at_p e) = ground (arith, i.placed q)
  Step-Stalled q i o (writer_resume p req at_p m e) = ground (arith, i.placed q, i.placed p)
  Step-Stalled q i o (writer_update p req at_p e) = ground (arith, i.placed p)
  Step-Stalled q i o (writer_give_up p fresh msg at_p e) = ground (arith, i.placed p)
  Step-Stalled q i o (writer_finish p at_p e) = ground (arith, i.placed p)
  Step-Stalled q i o (worker_pick free some_in e) = ground arith
  Step-Stalled q i o (worker_resume p at_w m e) = ground arith
  Step-Stalled q i o (worker_count at_w e) = ground arith
  Step-Stalled q i o (worker_gather no_mem at_w e) = ground arith
  Step-Stalled q i o (worker_grant k at_w e) = ground arith
  Step-Stalled q i o (worker_wait at_w e) = ground arith
  Step-Stalled q i o (worker_end at_w m e) = ground arith
  Step-Stalled q i o (reader_enter p ne at_p e) = ground (arith, i.placed q)
  Step-Stalled q i o (reader_resume p at_p m e) = ground (arith, i.placed q, i.placed p, i.turn)
  Step-Stalled q i o (reader_copy p bytes at_p e) = ground (arith, i.placed p, i.turn)
  Step-Stalled q i o (reader_leave p at_p e) = ground (arith, i.placed p, i.turn)

  Steps-Stalled :
      {d : Driver} {s t : System} (p : Ptr) → Reach d s → Stalled p s → Steps s t → Stalled p t
  Steps-Stalled p r o here = o
  Steps-Stalled p r o (then_step run step) =
      let (active, i) = Reach-Good (Steps-Reach r run) in
      Step-Stalled p i (Steps-Stalled p r o run) step

  -- When a signal ends the turn of a writer that has been let in, in any state that the scheduler's
  -- steps reach: whatever happens then, the worker waits for that writer, and no thread ever has access
  -- again, as a writer or as a reader.
  pub give_up-stalls :
      {d : Driver} {s t : System} (p fresh : Ptr) (msg : Update)
      → Reach d s
      → s.pc p ≡ w_granted (common_update fresh msg)
      → Steps (writer_gives_up p s) t
      → (t.worker ≡ writing p) × ((q : Ptr) → ¬ HasAccess (t.pc q))
  unfolding writer_gives_up
  give_up-stalls {d} {s} {t} p fresh msg r at_p run =
      let (active, i) = Reach-Good r in
      let r' : Reach d (writer_gives_up p s) = more r (writer_give_up p fresh msg at_p refl) in
      let o : Stalled p t = Steps-Stalled p r' (ground (arith, i.placed p)) run in
      let (active', i') = Reach-Good (Steps-Reach r' run) in
      (o.0, λ q v. ground (arith, i'.placed p, i'.placed q, i'.turn))

-- The thread waits as a writer, with nothing on the way to it, in no queue.
abbrev Lost : Ptr → Request → System → Type 0
Lost p req s = (s.pc p ≡ w_waiting req) × (s.completion p ≡ 0) × (present p s.writer_q ≡ false)
