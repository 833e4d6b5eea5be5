-- ===== src/Scheduler/Moves.antt =====
-- Each step keeps the invariant, and each step but a new call leaves less work.
use ribdriver.Base.{
  ◌∙◌, ℕ, suc, ◌<◌, ◌≡◌, true, false, refl, ◌≢◌, inl, inr, Bool, some, List, [], ◌∷◌, ◌==◌, arith,
  Bool-cases, Option-cases,
}
use ribdriver.Memory.{Ptr, Bytes}
use ribdriver.Base.Members.{erase}
use ribdriver.Table.{Layout, rt_get_updated_rt_entries}
use ribdriver.Queue.Fifo
use ribdriver.Fops.{Driver, read_copy}
use ribdriver.Scheduler.{
  r_granted, r_copied, idle, gathering, granting, System, worker_picks, worker_gathers,
  worker_grants, reader_copies, reader_leaves, last_reader, Step, writer_enter, writer_resume,
  writer_update, writer_give_up, writer_finish, worker_pick, worker_resume, worker_count,
  worker_gather, worker_grant, worker_wait, worker_end, reader_enter, reader_resume, reader_copy,
  reader_leave, Reach, begin, more,
}
use ribdriver.Scheduler.Invariant.{Inv, start-Inv}
use ribdriver.Scheduler.Work.{work}
use ribdriver.Scheduler.Work.Less.{
  writer_resumes-work, writer_updates-work, writer_gives_up-work, writer_finishes-work, picked-work,
  worker_resumes-work, worker_counts-work, gathered-work, granted-work, worker_waits-work,
  worker_ends-work, reader_resumes-work, copied-work, last_left-work, left-work,
}
use ribdriver.Scheduler.Steps.{
  writer_enters-Inv, writer_resumes-Inv, writer_updates-Inv, writer_gives_up-Inv,
  writer_finishes-Inv, picked-Inv, worker_resumes-Inv, worker_counts-Inv, gathered-Inv, granted-Inv,
  worker_waits-Inv, worker_ends-Inv, reader_enters-Inv, reader_resumes-Inv, copied-Inv,
  last_left-Inv, left-Inv,
}

-- A call, which puts a thread into the system, or a signal, which takes a writer out of it.
abbrev pub enters : ⦃lay : Layout⦄ → {s t : System} → Step s t → Bool
enters (writer_enter p req ne at_p e) = true
enters (reader_enter p ne at_p e) = true
enters (writer_resume p req at_p m e) = false
enters (writer_update p req at_p e) = false
enters (writer_give_up p fresh msg at_p e) = false
enters (writer_finish p at_p e) = false
enters (worker_pick free some_in e) = false
enters (worker_resume p at_w m e) = false
enters (worker_count at_w e) = false
enters (worker_gather no_mem at_w e) = false
enters (worker_grant k at_w e) = false
enters (worker_wait at_w e) = false
enters (worker_end at_w m e) = false
enters (reader_resume p at_p m e) = false
enters (reader_copy p bytes at_p e) = false
enters (reader_leave p at_p e) = false

-- Some set of readers has been let in.
abbrev pub Good : System → Type 0
Good s = (active : List Ptr) × Inv s active

-- From `s`, where the readers of `active` are in, to `t` with a bound on the work that is left.
abbrev pub Moved : System → List Ptr → System → Bool → Type 0
Moved s active t new =
    (active' : List Ptr) × Inv t active' × (new ≡ false → work t active' < work s active)

pub nonempty : (xs : List Ptr) → xs ≢ [] → (p : Ptr) × (rest : List Ptr) × (xs ≡ p ∷ rest)
nonempty [] ne = absurd (ne refl)
nonempty (p ∷ rest) ne = (p, rest, refl)

module _ ⦃lay : Layout⦄ where
  module _ {s t : System} {active : List Ptr} (i : Inv s active) where
    moved :
        {t' : System} (active' : List Ptr)
        → t ≡ t'
        → Inv t' active'
        → work t' active' < work s active
        → Moved s active t false
    moved active' e i' less = (active', rw e i', λ _. rw e less)

    entered : {t' : System} → t ≡ t' → Inv t' active → Moved s active t true
    entered e i' = (active, rw e i', λ old. cc old)

    picked-Moved : s.worker ≡ idle → s.writer_q ≢ [] → t ≡ worker_picks s → Moved s active t false
    unfolding worker_picks Fifo.pop
    picked-Moved free some_in e =
        let (p, rest, at) = nonempty s.writer_q some_in in
        moved active (e ∙ ground (arith, at)) (picked-Inv i p rest free at)
          (picked-work i p rest free at)

    granted-Moved :
        (k : ℕ) → s.worker ≡ granting (suc k) → t ≡ worker_grants k s → Moved s active t false
    unfolding worker_grants Fifo.pop
    granted-Moved k at_w e =
        let (p, rest, at) = nonempty s.reader_q (ground (arith, i.turn)) in
        moved (p ∷ active) (e ∙ ground (arith, at)) (granted-Inv i k p rest at_w at)
          (granted-work i k p rest at_w at)

    gathered-Moved :
        (no_mem : Bool)
        → s.worker ≡ gathering
        → worker_gathers no_mem s ≡ some t
        → Moved s active t false
    unfolding worker_gathers
    gathered-Moved no_mem at_w e =
        elim (Option-cases (rt_get_updated_rt_entries no_mem s.driver.table)) [
          | inl failed ↦ absurd (ground arith)
          | inr ((v, count), got) ↦
              let d : Driver = record (s.driver) {
                rt_update_vector = v;
                rt_update_vector_count = count;
              } in
              moved active (ground arith) (gathered-Inv i d at_w) (gathered-work i d at_w)
        ]

    copied-Moved :
        (p : Ptr) (bytes : Bytes)
        → s.pc p ≡ r_granted
        → reader_copies p s ≡ some (bytes, t)
        → Moved s active t false
    unfolding reader_copies
    copied-Moved p bytes at_p e = elim (Option-cases (read_copy s.driver)) [
      | inl failed ↦ absurd (ground arith)
      | inr (w, got) ↦ moved active (ground arith) (copied-Inv i p at_p) (copied-work i p at_p)
    ]

    left-Moved : (p : Ptr) → s.pc p ≡ r_copied → reader_leaves p s ≡ some t → Moved s active t false
    unfolding reader_leaves
    left-Moved p at_p e = elim (Bool-cases (s.n_readers_to_be_service == 1)) [
      | inl one ↦ elim (Option-cases (last_reader s.driver)) [
        | inl failed ↦ absurd (ground arith)
        | inr (d, got) ↦
            moved (erase p active) (ground arith) (last_left-Inv i p d at_p (ground arith))
              (last_left-work i p d at_p (ground arith))
      ]
      | inr many ↦
          moved (erase p active) (ground arith) (left-Inv i p at_p (ground arith))
            (left-work i p at_p)
    ]

    pub Step-Moved : (step : Step s t) → Moved s active t (enters step)
    Step-Moved (writer_enter p req ne at_p e) = entered e (writer_enters-Inv i p req at_p)
    Step-Moved (writer_resume p req at_p m e) =
        moved active e (writer_resumes-Inv i p req at_p m) (writer_resumes-work i p req at_p m)
    Step-Moved (writer_update p req at_p e) =
        moved active e (writer_updates-Inv i p req at_p) (writer_updates-work i p req at_p)
    Step-Moved (writer_give_up p fresh msg at_p e) =
        moved active e (writer_gives_up-Inv i p _ at_p) (writer_gives_up-work i p _ at_p)
    Step-Moved (writer_finish p at_p e) =
        moved active e (writer_finishes-Inv i p at_p) (writer_finishes-work i p at_p)
    Step-Moved (worker_pick free some_in e) = picked-Moved free some_in e
    Step-Moved (worker_resume p at_w m e) =
        moved active e (worker_resumes-Inv i p at_w m) (worker_resumes-work i p at_w m)
    Step-Moved (worker_count at_w e) =
        moved active e (worker_counts-Inv i at_w) (worker_counts-work i at_w)
    Step-Moved (worker_gather no_mem at_w e) = gathered-Moved no_mem at_w e
    Step-Moved (worker_grant k at_w e) = granted-Moved k at_w e
    Step-Moved (worker_wait at_w e) =
        moved active e (worker_waits-Inv i at_w) (worker_waits-work i at_w)
    Step-Moved (worker_end at_w m e) =
        moved active e (worker_ends-Inv i at_w m) (worker_ends-work i at_w m)
    Step-Moved (reader_enter p ne at_p e) = entered e (reader_enters-Inv i p at_p)
    Step-Moved (reader_resume p at_p m e) =
        moved active e (reader_resumes-Inv i p at_p m) (reader_resumes-work i p at_p m)
    Step-Moved (reader_copy p bytes at_p e) = copied-Moved p bytes at_p e
    Step-Moved (reader_leave p at_p e) = left-Moved p at_p e

  pub Reach-Good : {d : Driver} {s : System} → Reach d s → Good s
  Reach-Good {d} begin = ([], start-Inv d)
  Reach-Good (more r step) =
      let (active, i) = Reach-Good r in let (active', i', less) = Step-Moved i step in (active', i')
