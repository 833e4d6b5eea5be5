-- ===== src/Scheduler/Prompt.antt =====
-- Runs of the relation in which the last reader's way out is two steps, that are spared the race: no
-- signal interrupts a reader at rt_serialize_readers_cs_sem, and once the last reader has completed
-- the worker it decrements n_readers_to_be_service before another thread goes on. Behind such a run
-- is one of the relation in which the way out is one step.
pub mod Spared
mod Tests
use ribdriver.Base.{
  ℕ, ◌+◌, ◌-◌, ◌%◌, ◌^◌, ◌≤◌, ◌<◌, ◌≡◌, refl, ◌≢◌, ◌⊎◌, inl, inr, Bool, true, false, Option, none,
  some, List, [], ◌∷◌, ◌==◌, arith, length, length-append, Bool-cases, Option-cases, sym,
}
use ribdriver.Memory.{Ptr, set_at}
use ribdriver.Queue.Fifo
use ribdriver.Table.{Layout}
use ribdriver.Fops.{Driver}
use ribdriver.Scheduler.{
  r_copied, System, start, last_reader, Step, writer_enter, writer_resume, writer_update,
  writer_give_up, writer_finish, worker_pick, worker_resume, worker_count, worker_gather,
  worker_grant, worker_wait, worker_end, reader_enter, reader_resume, reader_copy, reader_leave,
  Reach, begin, more, writer_enters, writer_resumes, writer_updates, writer_gives_up,
  writer_finishes, worker_picks, worker_resumes, worker_counts, worker_gathers, worker_grants,
  worker_waits, worker_ends, reader_enters, reader_resumes, reader_copies, reader_leaves,
}
use ribdriver.Scheduler.Moves.{enters, Reach-Good}
use ribdriver.Scheduler.Invariant.{Inv}
use ribdriver.Scheduler.Steady.{IsSteady, Run, calm, next, Run-Reach}
use ribdriver.Scheduler.Stall.{Steps, here, then_step, Steps-Reach}
use ribdriver.Scheduler.Race.{
  Fine, passed, decremented, last_completes, IsOther, FineStep, other, one_leaves, last_complete,
  last_decrement,
}

-- The queue and the counter are small, so that the unsigned decrement does not wrap around.
pub record Few (s : System) : Type 0 where
  pub queued : length s.reader_q ≤ 50
  pub counted : s.n_readers_to_be_service ≤ 50

push-few : (q : Fifo.Fifo) (p : ℕ) → length q ≤ 50 → length (Fifo.push q p).1 ≤ 50
unfolding Fifo.push
push-few q p few = ground (arith, length-append q (p ∷ []))

pop-few : (q : Fifo.Fifo) → length q ≤ 50 → length (Fifo.pop q).1 ≤ 50
unfolding Fifo.pop
pop-few [] few = few
pop-few (x ∷ q) few = omega (arith, few)

-- No reader is on the way out, and the semaphore is free.
abbrev pub IsLevel : Fine → Type 0
IsLevel s = ((q : Ptr) → s.leaving q ≡ false) × (s.permits ≡ 1)

module _ ⦃lay : Layout⦄ where
  Step-Few : {s t : System} → Few s → Step s t → Few t
  unfolding writer_enters writer_resumes writer_updates writer_gives_up writer_finishes worker_picks
      worker_resumes worker_counts worker_gathers worker_grants worker_waits worker_ends
      reader_enters reader_resumes reader_copies reader_leaves
  Step-Few f (writer_enter p req ne at_p e) =
      rw e (record { queued = f.queued; counted = f.counted })
  Step-Few f (writer_resume p req at_p m e) =
      rw e (record { queued = f.queued; counted = f.counted })
  Step-Few f (writer_update p req at_p e) = rw e (record { queued = f.queued; counted = f.counted })
  Step-Few f (writer_give_up p fresh msg at_p e) =
      rw e (record { queued = f.queued; counted = f.counted })
  Step-Few f (writer_finish p at_p e) = rw e (record { queued = f.queued; counted = f.counted })
  Step-Few f (worker_pick free some_in e) = rw e (record { queued = f.queued; counted = f.counted })
  Step-Few f (worker_resume p at_w m e) = rw e (record { queued = f.queued; counted = f.counted })
  Step-Few f (worker_count at_w e) = record {
    queued = ground (arith, f.queued);
    counted = ground (arith, f.queued);
  }
  Step-Few f (worker_gather no_mem at_w e) = record {
    queued = ground (arith, f.queued);
    counted = ground (arith, f.counted);
  }
  Step-Few {s} f (worker_grant k at_w e) =
      rw e (record { queued = pop-few s.reader_q f.queued; counted = f.counted })
  Step-Few f (worker_wait at_w e) = rw e (record { queued = f.queued; counted = f.counted })
  Step-Few f (worker_end at_w m e) = rw e (record { queued = f.queued; counted = f.counted })
  Step-Few {s} f (reader_enter p ne at_p e) =
      rw e (record { queued = push-few s.reader_q p f.queued; counted = f.counted })
  Step-Few f (reader_resume p at_p m e) = rw e (record { queued = f.queued; counted = f.counted })
  Step-Few f (reader_copy p bytes at_p e) = record {
    queued = ground (arith, f.queued);
    counted = ground (arith, f.counted);
  }
  Step-Few f (reader_leave p at_p e) = record {
    queued = ground (arith, f.queued);
    counted = ground (arith, f.counted);
  }

  -- No signal, and the last reader is not kept from its decrement.
  abbrev pub IsPrompt : {s t : Fine} → FineStep s t → Type 0
  IsPrompt {s} (other step o e) = (q : Ptr) → s.leaving q ≡ false
  IsPrompt {s} (one_leaves p signal free at_p may many e) =
      (signal ≡ false) × ((q : Ptr) → s.leaving q ≡ false)
  IsPrompt {s} (last_complete p signal free at_p may one e) =
      (signal ≡ false) × ((q : Ptr) → s.leaving q ≡ false)
  IsPrompt (last_decrement p at_l e) = Unit

  -- No signal ends a writer's turn, and no queue is full.
  abbrev pub IsCalm : {s t : Fine} → FineStep s t → Type 0
  IsCalm (other step o e) = IsSteady step
  IsCalm (one_leaves p signal free at_p may many e) = Unit
  IsCalm (last_complete p signal free at_p may one e) = Unit
  IsCalm (last_decrement p at_l e) = Unit

  -- The last reader `p` is between its two steps; at `u` it has yet to leave.
  pub record Between (u : System) (s : Fine) (p : Ptr) : Type 0 where
    pub at_p : u.pc p ≡ r_copied
    pub leaves : reader_leaves p u ≡ some (decremented p s).system
    pub pc : u.pc ≡ s.system.pc
    pub driver : (decremented p s).system.driver ≡ s.system.driver
    pub alone : (q : Ptr) → q ≢ p → s.leaving q ≡ false
    pub going : s.leaving p ≡ true
    pub taken : s.permits ≡ 0

  -- `s` is `u`, or is on its way from `u` to what a way out leads to.
  abbrev pub Behind : System → Fine → Type 0
  Behind u s = (IsLevel s × (s.system ≡ u)) ⊎ ((p : Ptr) × Between u s p)

  abbrev pub Follows : Type 0 → System → Fine → Type 0
  Follows C u t = Behind u t ⊎ ((v : System) × (step : Step u v) × (C → IsSteady step) × Behind v t)

  -- A reader that is not the last leaves in one step.
  left :
      (s : Fine) (p : Ptr)
      → Few s.system
      → 0 < s.system.n_readers_to_be_service
      → s.system.n_readers_to_be_service ≢ 1
      → reader_leaves p s.system ≡ some (decremented p (passed false s)).system
  unfolding reader_leaves decremented passed
  left s p f some_in many =
      let n = s.system.n_readers_to_be_service in
      let less : (n + (2 ^ 32 - 1)) % 2 ^ 32 ≡ n - 1 = omega (arith, f.counted) in
      let other : (n == 1) ≡ false = ground arith in rw (less, other) refl

  -- The last reader completes the worker.
  completes :
      (s t : Fine) (p : Ptr)
      → IsLevel s
      → s.system.pc p ≡ r_copied
      → s.system.n_readers_to_be_service ≡ 1
      → last_completes p (passed false s) ≡ some t
      → Between s.system t p
  unfolding reader_leaves last_completes decremented passed
  completes s t p (nobody, one_permit) at_p one e =
      elim (Option-cases (last_reader s.system.driver)) [
        | inl gone ↦ absurd (ground (arith, e))
        | inr (d, is) ↦
            let u : Fine = record s {
              system = record (s.system) {
                driver = d;
                worker_completion = s.system.worker_completion + 1;
              };
              permits = s.permits - 1;
              leaving = set_at s.leaving p true;
            } in
            let then_t : u ≡ t = ground (arith, e, is) in
            rw (sym then_t) (record {
              at_p = at_p;
              leaves = rw (one, is) refl;
              pc = refl;
              driver = refl;
              alone = λ q ne. ground (arith, nobody q);
              going = ground arith;
              taken = ground (arith, one_permit);
            })
      ]

  IsLevel-Follows :
      {d : Driver} {s t : Fine}
      → Reach d s.system
      → Few s.system
      → IsLevel s
      → (step : FineStep s t) → IsPrompt step
      → Follows (IsCalm step) s.system t
  unfolding decremented passed
  IsLevel-Follows r f level (other {u} step o e) ok =
      inr (u, step, (λ c. c), inl (rw e level, rw e refl))
  IsLevel-Follows {s} r f (nobody, permit) (one_leaves p signal free at_p may many e)
        (unsignalled, _) =
      let (active, i) = Reach-Good r in
      let some_in : 0 < s.system.n_readers_to_be_service = ground (arith, i.placed p, i.turn) in
      rw (e, unsignalled)
        (inr (
          _,
          reader_leave p at_p (left s p f some_in many),
          (λ c. tt),
          inl (((λ q. ground (arith, nobody q)), omega (arith, permit)), refl),
        ))
  IsLevel-Follows {s} {t} r f level (last_complete p signal free at_p may one e) (unsignalled, _) =
      inl (inr (p, completes s t p level at_p one (rw unsignalled at e)))
  IsLevel-Follows r f (nobody, permit) (last_decrement p at_l e) ok =
      absurd (ground (arith, nobody p))

  Between-Follows :
      {u : System} {s t : Fine} {p : Ptr}
      → Between u s p
      → (step : FineStep s t) → IsPrompt step
      → Follows (IsCalm step) u t
  unfolding decremented
  Between-Follows {p} b (other step o e) nobody = absurd (ground (arith, nobody p, b.going))
  Between-Follows {p} b (one_leaves q signal free at_p may many e) (unsignalled, nobody) =
      absurd (ground (arith, nobody p, b.going))
  Between-Follows {p} b (last_complete q signal free at_p may one e) (unsignalled, nobody) =
      absurd (ground (arith, nobody p, b.going))
  Between-Follows {s} {p} b (last_decrement q at_l e) ok =
      let same : q ≡ p = ground (arith, b.alone q) in
      rw (e, same)
        (inr (
          _,
          reader_leave p b.at_p b.leaves,
          (λ c. tt),
          inl (((λ a. ground (arith, b.alone a)), omega (arith, b.taken)), refl),
        ))

  pub start-Few : (d : Driver) → Few (start d)
  start-Few d = record { queued = omega arith; counted = omega arith }

  -- A run of prompt steps.
  pub data Prompt (s : Fine) : Fine → Type 0 where
    still : Prompt s s
    prompt : {t u : Fine} → Prompt s t → (step : FineStep t u) → IsPrompt step → Prompt s u

-- Nobody has called yet.
abbrev pub fine_start : Driver → Fine
fine_start d = record { system = start d; permits = 1; leaving = λ _. false }

module _ ⦃lay : Layout⦄ where
  -- A run of prompt and calm steps.
  pub data CalmPrompt (d : Driver) : Fine → Type 0 where
    calm_start : CalmPrompt d (fine_start d)
    calm_step :
        {s t : Fine}
        → CalmPrompt d s
        → (step : FineStep s t) → IsPrompt step
        → IsCalm step
        → CalmPrompt d t

  -- The run of the scheduler's steps behind a prompt run.
  pub Prompt-Steps :
      {d : Driver} {s t : Fine}
      → Reach d s.system
      → Few s.system
      → IsLevel s
      → Prompt s t
      → (u : System) × Steps s.system u × Few u × Behind u t
  Prompt-Steps {s} r f level still = (s.system, here, f, inl (level, refl))
  Prompt-Steps {s} r f level (prompt {t} run step ok) =
      let (u, behind, few, at) = Prompt-Steps r f level run in
      elim at [
        | inl (level', e) ↦
            let behind' : Steps s.system t.system = rw e behind in
            let few' : Few t.system = rw e few in
            extends _ behind' few' (IsLevel-Follows (Steps-Reach r behind') few' level' step ok)
        | inr (p, b) ↦ extends _ behind few (Between-Follows b step ok)
      ]
    where
      extends :
          (C : Type 0) {u : System} {t : Fine}
          → Steps s.system u
          → Few u
          → Follows C u t
          → (v : System) × Steps s.system v × Few v × Behind v t
      extends C {u} behind few (inl stays) = (u, behind, few, stays)
      extends C behind few (inr (v, step, steady, at)) =
          (v, then_step behind step, Step-Few few step, at)

  -- The same for a calm run.
  pub CalmPrompt-Run :
      {d : Driver} {s : Fine} → CalmPrompt d s → (u : System) × Run d u × Few u × Behind u s
  CalmPrompt-Run {d} calm_start = (start d, calm, start-Few d, inl (((λ q. refl), refl), refl))
  CalmPrompt-Run {d} (calm_step {s} run step ok still_calm) =
      let (u, behind, few, at) = CalmPrompt-Run run in
      elim at [
        | inl (level, e) ↦
            let behind' : Run d s.system = rw e behind in
            let few' : Few s.system = rw e few in
            extends still_calm behind' few' (IsLevel-Follows (Run-Reach behind') few' level step ok)
        | inr (p, b) ↦ extends still_calm behind few (Between-Follows b step ok)
      ]
    where
      extends :
          {C : Type 0} {u : System} {t : Fine}
          → C
          → Run d u
          → Few u
          → Follows C u t
          → (v : System) × Run d v × Few v × Behind v t
      extends {u} c behind few (inl stays) = (u, behind, few, stays)
      extends c behind few (inr (v, step, steady, at)) =
          (v, next behind step (steady c), Step-Few few step, at)
