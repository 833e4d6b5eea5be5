-- ===== src/Scheduler/Race.antt =====
-- The last reader's way out in two steps: it completes the worker before it decrements
-- n_readers_to_be_service, and the worker goes on in between.
mod Tests
use ribdriver.Base.{
  ℕ, ◌+◌, ◌-◌, ◌%◌, ◌^◌, ◌<◌, ◌≡◌, refl, ◌≢◌, Bool, true, false, Option, none, some, List, [], ◌∷◌,
  ◌==◌, if◌then◌else◌, arith, length,
}
use ribdriver.Memory.{Ptr, set_at}
use ribdriver.Queue.Fifo
use ribdriver.Table.{Layout}
use ribdriver.Fops.{Driver}
use ribdriver.Scheduler.{
  Pc, outside, w_waiting, w_granted, w_updated, r_waiting, r_granted, r_copied, Worker, idle,
  writing, counting, gathering, granting, reading, System, start, last_reader, Step, writer_enter,
  writer_resume, writer_update, writer_give_up, writer_finish, worker_pick, worker_resume,
  worker_count, worker_gather, worker_grant, worker_wait, worker_end, reader_enter, reader_resume,
  reader_copy, reader_leave, writer_enters, writer_resumes, writer_updates, writer_gives_up,
  writer_finishes, worker_picks, worker_resumes, worker_counts, worker_gathers, worker_grants,
  worker_waits, worker_ends, reader_enters, reader_resumes, reader_copies,
}
use ribdriver.Scheduler.Safety.{HasAccess}

-- `permits` is the count of rt_serialize_readers_cs_sem, and `leaving` says which readers have
-- completed the worker and have not yet decremented n_readers_to_be_service.
pub record Fine : Type 0 where
  pub system : System
  pub permits : ℕ
  pub leaving : Ptr → Bool

-- The result of `down_interruptible` is not looked at: a reader that a signal interrupts goes on
-- without the semaphore, and gives it back all the same.
abbrev pub MayPass : (signal : Bool) → (permits : ℕ) → Type 0
MayPass true n = Unit
MayPass false n = 0 < n

unfoldable pub passed : (signal : Bool) → Fine → Fine
passed signal s = record s { permits = if signal then s.permits else s.permits - 1 }

-- An unsigned decrement, and `up`.
unfoldable pub decremented : Ptr → Fine → Fine
decremented p s = record {
  system = record (s.system) {
    n_readers_to_be_service = (s.system.n_readers_to_be_service + (2 ^ 32 - 1)) % 2 ^ 32;
    pc = set_at s.system.pc p outside;
  };
  permits = s.permits + 1;
  leaving = set_at s.leaving p false;
}

-- What the last reader does before.
unfoldable pub last_completes : Ptr → Fine → Option Fine
last_completes p s = elim (last_reader s.system.driver) [
  | none ↦ none
  | some d ↦ some (record s {
    system = record (s.system) { driver = d; worker_completion = s.system.worker_completion + 1 };
    leaving = set_at s.leaving p true;
  })
]

module _ ⦃lay : Layout⦄ where
  -- Every step but a reader's way out.
  abbrev pub IsOther : {s t : System} → Step s t → Type 0
  IsOther (reader_leave p at_p e) = ⊥
  IsOther _ = Unit

  pub data FineStep (s t : Fine) : Type 0 where
    other :
        {u : System} (step : Step s.system u)
        → IsOther step
        → t ≡ record s { system = u }
        → FineStep s t
    one_leaves :
        (p : Ptr) (signal : Bool)
        → s.leaving p ≡ false
        → s.system.pc p ≡ r_copied
        → MayPass signal s.permits
        → s.system.n_readers_to_be_service ≢ 1
        → t ≡ decremented p (passed signal s)
        → FineStep s t
    last_complete :
        (p : Ptr) (signal : Bool)
        → s.leaving p ≡ false
        → s.system.pc p ≡ r_copied
        → MayPass signal s.permits
        → s.system.n_readers_to_be_service ≡ 1
        → last_completes p (passed signal s) ≡ some t
        → FineStep s t
    last_decrement : (p : Ptr) → s.leaving p ≡ true → t ≡ decremented p s → FineStep s t

  pub data FineSteps (s : Fine) : Fine → Type 0 where
    here : FineSteps s s
    then_step : {t u : Fine} → FineSteps s t → FineStep t u → FineSteps s u

-- No reader is left to be let in before the worker waits.
abbrev LetsNobodyIn : Worker → ℕ → Type 0
LetsNobodyIn gathering n = n ≡ 0
LetsNobodyIn (granting k) n = k ≡ 0
LetsNobodyIn reading n = Unit
LetsNobodyIn _ n = ⊥

-- The thread has no access to the table.
abbrev pub Waits : Pc → Type 0
Waits outside = Unit
Waits (w_waiting _) = Unit
Waits r_waiting = Unit
Waits (w_granted _) = ⊥
Waits w_updated = ⊥
Waits r_granted = ⊥
Waits r_copied = ⊥

record Starved (s : Fine) : Type 0 where
  pub worker : LetsNobodyIn s.system.worker s.system.n_readers_to_be_service
  pub uncalled : s.system.worker_completion ≡ 0
  pub nobody : (q : Ptr) → s.leaving q ≡ false
  pub out : (q : Ptr) → Waits (s.system.pc q)
  pub ungranted : (q : Ptr) → s.system.completion q ≡ 0

module _ ⦃lay : Layout⦄ where
  Step-Starved :
      {s : Fine} {u : System} → Starved s → Step s.system u → Starved (record s { system = u })
  unfolding writer_enters writer_resumes writer_updates writer_gives_up writer_finishes worker_picks
      worker_resumes worker_counts worker_gathers worker_grants worker_waits worker_ends
      reader_enters reader_resumes reader_copies
  Step-Starved v (writer_enter p req ne at_p e) = record {
    worker = ground (arith, v.worker);
    uncalled = ground (arith, v.uncalled);
    nobody = v.nobody;
    out = λ q. ground (arith, v.out q);
    ungranted = λ q. ground (arith, v.ungranted q);
  }
  Step-Starved v (writer_resume p req at_p m e) = absurd (ground (arith, v.out p, v.ungranted p))
  Step-Starved v (writer_update p req at_p e) = absurd (ground (arith, v.out p, v.ungranted p))
  Step-Starved v (writer_give_up p fresh msg at_p e) =
      absurd (ground (arith, v.out p, v.ungranted p))
  Step-Starved v (writer_finish p at_p e) = absurd (ground (arith, v.out p, v.ungranted p))
  Step-Starved v (worker_pick free some_in e) = absurd (ground (arith, v.worker, v.uncalled))
  Step-Starved v (worker_resume p at_w m e) = absurd (ground (arith, v.worker, v.uncalled))
  Step-Starved v (worker_count at_w e) = absurd (ground (arith, v.worker, v.uncalled))
  Step-Starved v (worker_gather no_mem at_w e) = record {
    worker = ground (arith, v.worker);
    uncalled = ground (arith, v.uncalled);
    nobody = v.nobody;
    out = λ q. ground (arith, v.out q);
    ungranted = λ q. ground (arith, v.ungranted q);
  }
  Step-Starved v (worker_grant k at_w e) = absurd (ground (arith, v.worker, v.uncalled))
  Step-Starved v (worker_wait at_w e) = record {
    worker = ground (arith, v.worker);
    uncalled = ground (arith, v.uncalled);
    nobody = v.nobody;
    out = λ q. ground (arith, v.out q);
    ungranted = λ q. ground (arith, v.ungranted q);
  }
  Step-Starved v (worker_end at_w m e) = absurd (ground (arith, v.worker, v.uncalled))
  Step-Starved v (reader_enter p ne at_p e) = record {
    worker = ground (arith, v.worker);
    uncalled = ground (arith, v.uncalled);
    nobody = v.nobody;
    out = λ q. ground (arith, v.out q);
    ungranted = λ q. ground (arith, v.ungranted q);
  }
  Step-Starved v (reader_resume p at_p m e) = absurd (ground (arith, v.out p, v.ungranted p))
  Step-Starved v (reader_copy p bytes at_p e) = absurd (ground (arith, v.out p, v.ungranted p))
  Step-Starved v (reader_leave p at_p e) = absurd (ground (arith, v.out p, v.ungranted p))

  FineStep-Starved : {s t : Fine} → Starved s → FineStep s t → Starved t
  FineStep-Starved v (other step o e) = rw e (Step-Starved v step)
  FineStep-Starved v (one_leaves p signal free at_p may many e) = absurd (ground (arith, v.out p))
  FineStep-Starved v (last_complete p signal free at_p may one e) = absurd (ground (arith, v.out p))
  FineStep-Starved v (last_decrement p at_l e) = absurd (ground (arith, v.nobody p))

  FineSteps-Starved : {s t : Fine} → Starved s → FineSteps s t → Starved t
  FineSteps-Starved v here = v
  FineSteps-Starved v (then_step run step) = FineStep-Starved (FineSteps-Starved v run) step

  -- The last reader of an update, and no other thread, has completed the worker and not yet decremented
  -- n_readers_to_be_service; meanwhile the worker has served the next writer and counted one waiting
  -- subscriber, and nobody else is in the middle of a command. Then the late decrement takes that
  -- subscriber's place: whatever happens afterwards, the worker lets nobody in, never gets back to the
  -- writers, and no thread ever has access to the table again.
  pub last_reader-races :
      (p : Ptr) (s t : Fine)
      → s.leaving p ≡ true
      → ((q : Ptr) → q ≢ p → s.leaving q ≡ false)
      → s.system.worker ≡ gathering
      → s.system.n_readers_to_be_service ≡ 1
      → s.system.worker_completion ≡ 0
      → ((q : Ptr) → q ≢ p → Waits (s.system.pc q))
      → ((q : Ptr) → s.system.completion q ≡ 0)
      → FineSteps (decremented p s) t
      → (t.system.worker ≢ idle) × ((q : Ptr) → ¬ HasAccess (t.system.pc q))
  unfolding decremented
  last_reader-races p s t at_l alone at_w one uncalled waits ungranted run =
      let v : Starved t =
        FineSteps-Starved
          (record {
            worker = ground arith;
            uncalled = uncalled;
            nobody = λ q. ground (arith, alone q);
            out = λ q. ground (arith, waits q);
            ungranted = ungranted;
          })
          run in
      (ground (arith, v.worker), λ q a. ground (arith, v.out q))
