-- ===== src/Scheduler/Work/Less.antt =====
-- Each step but a new call makes the work that is left less.
use ribdriver.Base.{ℕ, suc, ◌+◌, ◌-◌, ◌*◌, ◌≤◌, ◌<◌, ◌≡◌, true, List, ◌∷◌, arith, length}
use ribdriver.Memory.{set_at, Ptr}
use ribdriver.Base.Members.{present, erase, present-erase}
use ribdriver.Table.{Layout}
use ribdriver.Fops.{Driver}
use ribdriver.Scheduler.{
  Pc, outside, w_waiting, w_granted, w_updated, r_waiting, r_granted, r_copied, idle, writing,
  counting, gathering, granting, reading, System, Request, writer_resumes, writer_updates,
  writer_gives_up, writer_finishes, worker_resumes, worker_counts, worker_waits, worker_ends,
  reader_resumes,
}
use ribdriver.Scheduler.Invariant.{Inv}
use ribdriver.Scheduler.Work.{
  writer_left, reader_left, readers_left, work, readers_left-absent, readers_left-set_at,
  readers_left-erase, readers_left-le, worker_left-le,
}

module _ {s : System} {active : List Ptr} (i : Inv s active) where
  pub writer_resumes-work :
      (p : Ptr) (req : Request)
      → s.pc p ≡ w_waiting req
      → 0 < s.completion p
      → work (writer_resumes p req s) active < work s active
  unfolding writer_resumes writer_left
  writer_resumes-work p req at_p more =
      ground (arith, readers_left-absent s.pc p (w_granted req) active, i.placed p)

  module _ ⦃lay : Layout⦄ where
    pub writer_updates-work :
        (p : Ptr) (req : Request)
        → s.pc p ≡ w_granted req
        → work (writer_updates p req s) active < work s active
    unfolding writer_updates writer_left
    writer_updates-work p req at_p =
        ground (arith, readers_left-absent s.pc p w_updated active, i.placed p)

  pub writer_gives_up-work :
      (p : Ptr) (req : Request)
      → s.pc p ≡ w_granted req
      → work (writer_gives_up p s) active < work s active
  unfolding writer_gives_up writer_left
  writer_gives_up-work p req at_p =
      ground (arith, readers_left-absent s.pc p outside active, i.placed p)

  pub writer_finishes-work :
      (p : Ptr) → s.pc p ≡ w_updated → work (writer_finishes p s) active < work s active
  unfolding writer_finishes writer_left
  writer_finishes-work p at_p =
      ground (arith, readers_left-absent s.pc p outside active, i.placed p)

  pub picked-work :
      (p : Ptr) (rest : List Ptr)
      → s.worker ≡ idle
      → s.writer_q ≡ p ∷ rest
      → work
          (record s {
            writer_q = rest;
            completion = set_at s.completion p (s.completion p + 1);
            worker = writing p;
          })
          active
        < work s active
  unfolding writer_left
  picked-work p rest free e = ground (arith, i.writers p, i.turn, e)

  pub worker_resumes-work :
      (p : Ptr)
      → s.worker ≡ writing p
      → 0 < s.worker_completion
      → work (worker_resumes s) active < work s active
  unfolding worker_resumes
  worker_resumes-work p at_w more = ground arith

  pub worker_counts-work : s.worker ≡ counting → work (worker_counts s) active < work s active
  unfolding worker_counts
  worker_counts-work at_w = ground arith

  pub gathered-work :
      (d : Driver)
      → s.worker ≡ gathering
      → work (record s { driver = d; worker = granting s.n_readers_to_be_service }) active
        < work s active
  gathered-work d at_w = ground arith

  pub granted-work :
      (k : ℕ) (p : Ptr) (rest : List Ptr)
      → s.worker ≡ granting (suc k)
      → s.reader_q ≡ p ∷ rest
      → work
          (record s {
            reader_q = rest;
            completion = set_at s.completion p (s.completion p + 1);
            worker = granting k;
          })
          (p ∷ active)
        < work s active
  unfolding readers_left reader_left
  granted-work k p rest at_w e = ground (arith, i.readers p, e)

  pub worker_waits-work : s.worker ≡ granting 0 → work (worker_waits s) active < work s active
  unfolding worker_waits
  worker_waits-work at_w = ground arith

  pub worker_ends-work :
      s.worker ≡ reading → 0 < s.worker_completion → work (worker_ends s) active < work s active
  unfolding worker_ends
  worker_ends-work at_w more = ground arith

  pub reader_moves-work :
      (p : Ptr) (at : Pc)
      → present p active ≡ true
      → reader_left at < reader_left (s.pc p)
      → readers_left (set_at s.pc p at) active < readers_left s.pc active
  reader_moves-work p at i_p less =
      omega (arith, readers_left-set_at s.pc p at active i.active_once i_p)

  pub reader_resumes-work :
      (p : Ptr)
      → s.pc p ≡ r_waiting
      → 0 < s.completion p
      → work (reader_resumes p s) active < work s active
  unfolding reader_resumes reader_left writer_left
  reader_resumes-work p at_p more = ground (arith, reader_moves-work p r_granted, i.placed p)

  pub copied-work :
      (p : Ptr)
      → s.pc p ≡ r_granted
      → work (record s { pc = set_at s.pc p r_copied }) active < work s active
  unfolding reader_left writer_left
  copied-work p at_p = ground (arith, reader_moves-work p r_copied, i.placed p)

  -- The reader that leaves has one step less to come, and no others.
  leaver-left :
      (p : Ptr)
      → s.pc p ≡ r_copied
      → suc (readers_left (set_at s.pc p outside) (erase p active)) ≡ readers_left s.pc active
  unfolding reader_left
  leaver-left p at_p = ground (
    arith,
    readers_left-erase s.pc p active,
    readers_left-absent s.pc p outside (erase p active),
    present-erase p p active i.active_once,
    i.placed p,
  )

  pub last_left-work :
      (p : Ptr) (d : Driver)
      → s.pc p ≡ r_copied
      → s.n_readers_to_be_service ≡ 1
      → work
          (record s {
            driver = d;
            worker_completion = s.worker_completion + 1;
            n_readers_to_be_service = 0;
            pc = set_at s.pc p outside;
          })
          (erase p active)
        < work s active
  last_left-work p d at_p one = ground (arith, leaver-left p, i.placed p, i.turn)

  pub left-work :
      (p : Ptr)
      → s.pc p ≡ r_copied
      → work
          (record s {
            n_readers_to_be_service = s.n_readers_to_be_service - 1;
            pc = set_at s.pc p outside;
          })
          (erase p active)
        < work s active
  left-work p at_p = ground (arith, leaver-left p, i.placed p, i.turn)

  active-le : length active ≤ s.n_readers_to_be_service
  active-le = ground (arith, i.turn)

  -- A bound that does not name the readers that are in.
  pub work-le :
      work s active
      ≤ 9 * length s.writer_q + 4 * length s.reader_q + 3 * s.n_readers_to_be_service + 8
  work-le = omega (
    arith,
    worker_left-le s.worker s.worker_completion s.pc,
    readers_left-le s.pc active,
    active-le,
  )
