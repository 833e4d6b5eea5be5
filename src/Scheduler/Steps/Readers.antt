-- ===== src/Scheduler/Steps/Readers.antt =====
-- A subscriber that goes on, copies and leaves keeps the invariant.
use ribdriver.Base.{◌+◌, ◌-◌, ◌<◌, ◌≡◌, ◌≢◌, List, arith}
use ribdriver.Memory.{set_at, Ptr}
use ribdriver.Base.Members.{erase, length-erase, present-erase, Distinct-erase}
use ribdriver.Fops.{Driver}
use ribdriver.Scheduler.{outside, r_waiting, r_granted, r_copied, System, reader_resumes}
use ribdriver.Scheduler.Invariant.{Inv}

module _ {s : System} {active : List Ptr} (i : Inv s active) where
  pub reader_resumes-Inv :
      (p : Ptr) → s.pc p ≡ r_waiting → 0 < s.completion p → Inv (reader_resumes p s) active
  unfolding reader_resumes
  reader_resumes-Inv p at_p more = record {
    writers = λ q h. ground (arith, i.writers q, i.placed p, i.placed q);
    readers = λ q h. ground (arith, i.readers q, i.placed p, i.placed q);
    writers_once = i.writers_once;
    readers_once = i.readers_once;
    active_once = i.active_once;
    placed = λ q. ground (arith, i.placed q, i.placed p);
    turn = ground (arith, i.turn, i.placed p);
  }

  pub copied-Inv :
      (p : Ptr) → s.pc p ≡ r_granted → Inv (record s { pc = set_at s.pc p r_copied }) active
  copied-Inv p at_p = record {
    writers = λ q h. ground (arith, i.writers q, i.placed p, i.placed q);
    readers = λ q h. ground (arith, i.readers q, i.placed p, i.placed q);
    writers_once = i.writers_once;
    readers_once = i.readers_once;
    active_once = i.active_once;
    placed = λ q. ground (arith, i.placed q, i.placed p);
    turn = ground (arith, i.turn, i.placed p);
  }

  pub last_left-Inv :
      (p : Ptr) (d : Driver)
      → s.pc p ≡ r_copied
      → s.n_readers_to_be_service ≡ 1
      → Inv
          (record s {
            driver = d;
            worker_completion = s.worker_completion + 1;
            n_readers_to_be_service = 0;
            pc = set_at s.pc p outside;
          })
          (erase p active)
  last_left-Inv p d at_p one = record {
    writers = λ q h. ground (arith, i.writers q);
    readers = λ q h. ground (arith, i.readers q);
    writers_once = i.writers_once;
    readers_once = i.readers_once;
    active_once = Distinct-erase p active i.active_once;
    placed = λ q. ground (
      arith,
      i.placed q,
      i.placed p,
      i.turn,
      length-erase p active,
      present-erase q p active i.active_once,
    );
    turn = ground (arith, i.turn, i.placed p, length-erase p active);
  }

  pub left-Inv :
      (p : Ptr)
      → s.pc p ≡ r_copied
      → s.n_readers_to_be_service ≢ 1
      → Inv
          (record s {
            n_readers_to_be_service = s.n_readers_to_be_service - 1;
            pc = set_at s.pc p outside;
          })
          (erase p active)
  left-Inv p at_p many = record {
    writers = λ q h. ground (arith, i.writers q);
    readers = λ q h. ground (arith, i.readers q);
    writers_once = i.writers_once;
    readers_once = i.readers_once;
    active_once = Distinct-erase p active i.active_once;
    placed = λ q. ground (arith, i.placed q, i.placed p, present-erase q p active i.active_once);
    turn = ground (arith, i.turn, i.placed p, length-erase p active);
  }
