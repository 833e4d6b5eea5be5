-- ===== src/Scheduler/Settling.antt =====
-- Without new calls the scheduler comes to rest: there is always a step to take until then, and there
-- are only so many.
use ribdriver.Base.{
  ℕ, zero, suc, ◌+◌, ◌*◌, ◌≤◌, ◌≡◌, refl, ◌⊎◌, inl, inr, Bool, true, false, List, [], ◌==◌, arith,
  length, Bool-cases,
}
use ribdriver.Memory.{Ptr}
use ribdriver.Base.Members.{present}
use ribdriver.Table.{Layout}
use ribdriver.Fops.{Driver}
use ribdriver.Scheduler.{
  Pc, outside, w_waiting, w_granted, w_updated, r_waiting, r_granted, r_copied, Worker, idle,
  writing, counting, gathering, granting, reading, System, Step, writer_resume, writer_update,
  writer_finish, worker_pick, worker_resume, worker_count, worker_gather, worker_grant, worker_wait,
  worker_end, reader_resume, reader_copy, reader_leave, Reach,
}
use ribdriver.Scheduler.Invariant.{Inv}
use ribdriver.Scheduler.Work.{work}
use ribdriver.Scheduler.Work.Less.{work-le}
use ribdriver.Scheduler.Moves.{enters, Step-Moved, Reach-Good, nonempty}
use ribdriver.Scheduler.Sound.{IsUsable, Sound, Reach-Sound, gathers, copies, leaves}
use ribdriver.Scheduler.Steady.{IsSteady, Run, next, Run-Reach, Steady, Run-Steady}

-- Nothing is left to do: a thread is outside, or waits in the readers' queue for the next update.
abbrev pub Rests : Pc → (in_readers : Bool) → Type 0
Rests outside r = Unit
Rests r_waiting r = r ≡ true
Rests (w_waiting _) r = ⊥
Rests (w_granted _) r = ⊥
Rests w_updated r = ⊥
Rests r_granted r = ⊥
Rests r_copied r = ⊥

abbrev pub AtRest : System → Type 0
AtRest s =
    (s.worker ≡ idle) × (s.writer_q ≡ []) × ((p : Ptr) → Rests (s.pc p) (present p s.reader_q))

module _ ⦃lay : Layout⦄ where
  -- `n` steps without a new call.
  abbrev pub Continues : ℕ → System → System → Type 0
  Continues zero s t = s ≡ t
  Continues (suc n) s t = (u : System) × (step : Step s u) × (enters step ≡ false) × Continues n u t

  -- A step that serves the threads which have called.
  abbrev pub Serves : System → System → Type 0
  Serves s t = (step : Step s t) × (enters step ≡ false) × IsSteady step

  steps-le :
      (n : ℕ) {s : System} (t : System) {active : List Ptr}
      → Inv s active
      → Continues n s t
      → n ≤ work s active
  steps-le zero t i run = omega arith
  steps-le (suc n) t i (u, step, old, run) =
      let (active', i', less) = Step-Moved i step in omega (arith, steps-le n t i' run, less old)

  module _ {s : System} {active : List Ptr} (i : Inv s active) (o : Sound s) (y : Steady s) where
    reader-Serves : (p : Ptr) → present p active ≡ true → (t : System) × Serves s t
    reader-Serves p i_p = at (s.pc p) refl
      where
        at : (pc : Pc) → s.pc p ≡ pc → (t : System) × Serves s t
        at outside e = absurd (ground (arith, i.placed p))
        at (w_waiting req) e = absurd (ground (arith, i.placed p))
        at (w_granted req) e = absurd (ground (arith, i.placed p))
        at w_updated e = absurd (ground (arith, i.placed p))
        at r_waiting e = (_, (reader_resume p e (ground (arith, i.placed p)) refl, refl, tt))
        at r_granted e =
            let ((bytes, t), done) = copies o p in (t, (reader_copy p bytes e done, refl, tt))
        at r_copied e = let (t, done) = leaves o p in (t, (reader_leave p e done, refl, tt))

    writer-Serves :
        (p : Ptr) → s.worker ≡ writing p → s.worker_completion ≡ 0 → (t : System) × Serves s t
    writer-Serves p at_w none_told = at (s.pc p) refl
      where
        at : (pc : Pc) → s.pc p ≡ pc → (t : System) × Serves s t
        at outside e = absurd (ground (arith, y.awaited))
        at (w_waiting req) e =
            (_, (writer_resume p req e (ground (arith, y.awaited)) refl, refl, tt))
        at (w_granted req) e = (_, (writer_update p req e refl, refl, tt))
        at w_updated e = (_, (writer_finish p e refl, refl, tt))
        at r_waiting e = absurd (ground (arith, y.awaited))
        at r_granted e = absurd (ground (arith, y.awaited))
        at r_copied e = absurd (ground (arith, y.awaited))

    at_rest : s.worker ≡ idle → s.writer_q ≡ [] → AtRest s
    at_rest free none_in = (free, none_in, λ p. ground (arith, i.placed p, y.kept p, i.turn))

    reading-Serves : s.worker ≡ reading → (t : System) × Serves s t
    reading-Serves at_w = elim (Bool-cases (s.worker_completion == 0)) [
      | inl none_told ↦
          let (p, rest, are) = nonempty active (ground (arith, i.turn)) in
          reader-Serves p (ground (arith, are))
      | inr told ↦ (_, (worker_end at_w (ground arith) refl, refl, tt))
    ]

    writing-Serves : (p : Ptr) → s.worker ≡ writing p → (t : System) × Serves s t
    writing-Serves p at_w = elim (Bool-cases (s.worker_completion == 0)) [
      | inl none_told ↦ writer-Serves p at_w (ground arith)
      | inr told ↦ (_, (worker_resume p at_w (ground arith) refl, refl, tt))
    ]

    Inv-progress : AtRest s ⊎ ((t : System) × Serves s t)
    Inv-progress = at s.worker refl
      where
        at : (w : Worker) → s.worker ≡ w → AtRest s ⊎ ((t : System) × Serves s t)
        at idle e = elim (Bool-cases (length s.writer_q == 0)) [
          | inl none_in ↦ inl (at_rest e (ground arith))
          | inr some_in ↦ inr (_, (worker_pick e (ground arith) refl, refl, tt))
        ]
        at (writing p) e = inr (writing-Serves p e)
        at counting e = inr (_, (worker_count e refl, refl, tt))
        at gathering e =
            let (t, done) = gathers o false in inr (t, (worker_gather false e done, refl, tt))
        at (granting zero) e = inr (_, (worker_wait e refl, refl, tt))
        at (granting (suc k)) e = inr (_, (worker_grant k e refl, refl, tt))
        at reading e = inr (reading-Serves e)

  -- From any state that the scheduler's steps reach, with interrupted writers and full queues among
  -- them, a run without a new call is at most so many steps long: nine for each queued writer, four for
  -- each queued reader, three for each reader still to be serviced, and eight.
  pub Continues-bound :
      {d : Driver} {s : System} (n : ℕ) (t : System)
      → Reach d s
      → Continues n s t
      → n ≤ 9 * length s.writer_q + 4 * length s.reader_q + 3 * s.n_readers_to_be_service + 8
  Continues-bound n t r run =
      let (active, i) = Reach-Good r in omega (arith, steps-le n t i run, work-le i)

  -- In every state of a run from a driver whose change list is empty and whose vector is not freed, in
  -- which no writer was interrupted and no queue was full, and a way out is one step: either the scheduler
  -- is at rest, with the worker idle, the writers' queue empty and every thread outside or waiting in
  -- the readers' queue, or some thread or the worker can take a step that is not a new call.
  pub Run-progress :
      {d : Driver} {s : System}
      → d.table.rt_change_list ≡ []
      → IsUsable d.rt_update_vector d.rt_update_vector_count
      → Run d s
      → AtRest s ⊎ ((t : System) × Serves s t)
  Run-progress none_left usable r =
      let (active, i) = Reach-Good (Run-Reach r) in
      Inv-progress i (Reach-Sound none_left usable (Run-Reach r)) (Run-Steady r)

  -- A state from which a run of serving steps leads to rest.
  abbrev pub Settles : ℕ → System → Type 0
  Settles bound s = (n : ℕ) × (t : System) × (n ≤ bound) × Continues n s t × AtRest t

  settle_within :
      {d : Driver} (fuel : ℕ) {s : System} {active : List Ptr}
      → d.table.rt_change_list ≡ []
      → IsUsable d.rt_update_vector d.rt_update_vector_count
      → Run d s
      → Inv s active
      → work s active ≤ fuel
      → Settles fuel s
  settle_within zero {s} none_left usable r i le = elim (Run-progress none_left usable r) [
    | inl rest ↦ (0, s, omega arith, refl, rest)
    | inr (t, (step, old, ok)) ↦
        let (active', i', less) = Step-Moved i step in absurd (omega (arith, le, less old))
  ]
  settle_within (suc fuel) {s} none_left usable r i le = elim (Run-progress none_left usable r) [
    | inl rest ↦ (0, s, omega arith, refl, rest)
    | inr (t, (step, old, ok)) ↦
        let (active', i', less) = Step-Moved i step in
        let (n, u, few, run, rest) =
          settle_within fuel {s = t} {active = active'} none_left usable (next r step ok) i'
            (omega (arith, le, less old)) in
        (suc n, u, omega (arith, few), (t, step, old, run), rest)
  ]

  -- In every state of a run from a driver whose change list is empty and whose vector is not freed, in
  -- which no writer was interrupted and no queue was full: there is a run without a new call, of at
  -- most so many steps, after which the worker is idle, no writer waits or has access, and every thread
  -- that is not outside is a subscriber that waits in the readers' queue.
  pub settles :
      {d : Driver} {s : System}
      → d.table.rt_change_list ≡ []
      → IsUsable d.rt_update_vector d.rt_update_vector_count
      → Run d s
      → Settles
          (9 * length s.writer_q + 4 * length s.reader_q + 3 * s.n_readers_to_be_service + 8)
          s
  settles {s} none_left usable r =
      let (active, i) = Reach-Good (Run-Reach r) in
      settle_within
        (9 * length s.writer_q + 4 * length s.reader_q + 3 * s.n_readers_to_be_service + 8)
        none_left usable r i (work-le i)
