-- ===== src/Scheduler/Steps/Writers.antt =====
-- A writer that goes on, updates the table and leaves keeps the invariant.
use ribdriver.Base.{◌<◌, ◌≡◌, List, arith}
use ribdriver.Memory.{Ptr}
use ribdriver.Table.{Layout}
use ribdriver.Scheduler.{
  Request, w_waiting, w_granted, w_updated, System, writer_resumes, writer_updates, writer_gives_up,
  writer_finishes,
}
use ribdriver.Scheduler.Invariant.{Inv}

module _ {s : System} {active : List Ptr} (i : Inv s active) where
  pub writer_resumes-Inv :
      (p : Ptr) (req : Request)
      → s.pc p ≡ w_waiting req
      → 0 < s.completion p
      → Inv (writer_resumes p req s) active
  unfolding writer_resumes
  writer_resumes-Inv p req at_p more = record {
    writers = λ q h. ground (arith, i.writers q, i.placed p, i.placed q);
    readers = λ q h. ground (arith, i.readers q, i.placed p, i.placed q);
    writers_once = i.writers_once;
    readers_once = i.readers_once;
    active_once = i.active_once;
    placed = λ q. ground (arith, i.placed p, i.placed q);
    turn = i.turn;
  }

  module _ ⦃lay : Layout⦄ where
    pub writer_updates-Inv :
        (p : Ptr) (req : Request) → s.pc p ≡ w_granted req → Inv (writer_updates p req s) active
    unfolding writer_updates
    writer_updates-Inv p req at_p = record {
      writers = λ q h. ground (arith, i.writers q);
      readers = λ q h. ground (arith, i.readers q);
      writers_once = i.writers_once;
      readers_once = i.readers_once;
      active_once = i.active_once;
      placed = λ q. ground (arith, i.placed p, i.placed q);
      turn = i.turn;
    }

  pub writer_finishes-Inv : (p : Ptr) → s.pc p ≡ w_updated → Inv (writer_finishes p s) active
  unfolding writer_finishes
  writer_finishes-Inv p at_p = record {
    writers = λ q h. ground (arith, i.writers q, i.placed p, i.placed q);
    readers = λ q h. ground (arith, i.readers q, i.placed p, i.placed q);
    writers_once = i.writers_once;
    readers_once = i.readers_once;
    active_once = i.active_once;
    placed = λ q. ground (arith, i.placed q, i.placed p);
    turn = ground (arith, i.turn, i.placed p);
  }

  pub writer_gives_up-Inv :
      (p : Ptr) (req : Request) → s.pc p ≡ w_granted req → Inv (writer_gives_up p s) active
  unfolding writer_gives_up
  writer_gives_up-Inv p req at_p = record {
    writers = λ q h. ground (arith, i.writers q);
    readers = λ q h. ground (arith, i.readers q);
    writers_once = i.writers_once;
    readers_once = i.readers_once;
    active_once = i.active_once;
    placed = λ q. ground (arith, i.placed p, i.placed q);
    turn = i.turn;
  }
