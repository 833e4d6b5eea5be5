-- ===== src/Scheduler/Steps/Worker.antt =====
-- The worker's steps keep the invariant.
use ribdriver.Base.{
  ℕ, suc, ◌+◌, ◌<◌, ◌≡◌, ◌≢◌, List, ◌∷◌, ◌==◌, arith, length, Bool-cases, inl, inr,
}
use ribdriver.Memory.{set_at, Ptr}
use ribdriver.Fops.{Driver}
use ribdriver.Scheduler.{
  idle, writing, counting, gathering, granting, reading, System, worker_resumes, worker_counts,
  worker_waits, worker_ends,
}
use ribdriver.Scheduler.Invariant.{Inv}

module _ {s : System} {active : List Ptr} (i : Inv s active) where
  pub picked-Inv :
      (p : Ptr) (rest : List Ptr)
      → s.worker ≡ idle
      → s.writer_q ≡ p ∷ rest
      → Inv
          (record s {
            writer_q = rest;
            completion = set_at s.completion p (s.completion p + 1);
            worker = writing p;
          })
          active
  picked-Inv p rest free e = record {
    writers = λ q h. ground (arith, i.writers q, i.writers_once, e);
    readers = λ q h. ground (arith, i.readers q, i.writers p, e);
    writers_once = ground (arith, i.writers_once, e);
    readers_once = i.readers_once;
    active_once = i.active_once;
    placed = λ q. ground (arith, i.placed q, i.writers p, i.turn, e);
    turn = ground (arith, i.turn);
  }

  pub worker_resumes-Inv :
      (p : Ptr) → s.worker ≡ writing p → 0 < s.worker_completion → Inv (worker_resumes s) active
  unfolding worker_resumes
  worker_resumes-Inv p at_w more = record {
    writers = λ q h. ground (arith, i.writers q);
    readers = λ q h. ground (arith, i.readers q);
    writers_once = i.writers_once;
    readers_once = i.readers_once;
    active_once = i.active_once;
    placed = λ q. ground (arith, i.placed q, i.turn);
    turn = ground (arith, i.turn);
  }

  pub counted_none-Inv :
      (d : Driver)
      → s.worker ≡ counting
      → Inv (record s { n_readers_to_be_service = 0; driver = d; worker = idle }) active
  counted_none-Inv d at_w = record {
    writers = i.writers;
    readers = i.readers;
    writers_once = i.writers_once;
    readers_once = i.readers_once;
    active_once = i.active_once;
    placed = λ q. ground (arith, i.placed q);
    turn = ground (arith, i.turn);
  }

  pub counted_some-Inv :
      s.worker ≡ counting
      → length s.reader_q ≢ 0
      → Inv (record s { n_readers_to_be_service = length s.reader_q; worker = gathering }) active
  counted_some-Inv at_w some_in = record {
    writers = i.writers;
    readers = i.readers;
    writers_once = i.writers_once;
    readers_once = i.readers_once;
    active_once = i.active_once;
    placed = λ q. ground (arith, i.placed q);
    turn = ground (arith, i.turn);
  }

  pub worker_counts-Inv : s.worker ≡ counting → Inv (worker_counts s) active
  unfolding worker_counts
  worker_counts-Inv at_w = elim (Bool-cases (length s.reader_q == 0)) [
    | inl e ↦ rw e (counted_none-Inv _ at_w)
    | inr e ↦ rw e (counted_some-Inv at_w (ground arith))
  ]

  pub gathered-Inv :
      (d : Driver)
      → s.worker ≡ gathering
      → Inv (record s { driver = d; worker = granting s.n_readers_to_be_service }) active
  gathered-Inv d at_w = record {
    writers = λ q h. ground (arith, i.writers q);
    readers = λ q h. ground (arith, i.readers q);
    writers_once = i.writers_once;
    readers_once = i.readers_once;
    active_once = i.active_once;
    placed = λ q. ground (arith, i.placed q);
    turn = ground (arith, i.turn);
  }

  pub granted-Inv :
      (k : ℕ) (p : Ptr) (rest : List Ptr)
      → s.worker ≡ granting (suc k)
      → s.reader_q ≡ p ∷ rest
      → Inv
          (record s {
            reader_q = rest;
            completion = set_at s.completion p (s.completion p + 1);
            worker = granting k;
          })
          (p ∷ active)
  granted-Inv k p rest at_w e = record {
    writers = λ q h. ground (arith, i.writers q, i.readers p, e);
    readers = λ q h. ground (arith, i.readers q, i.readers_once, e);
    writers_once = i.writers_once;
    readers_once = ground (arith, i.readers_once, e);
    active_once = ground (arith, i.active_once, i.readers p, i.placed p, e);
    placed = λ q. ground (arith, i.placed q, i.readers p, i.turn, e);
    turn = ground (arith, i.turn, e);
  }

  pub worker_waits-Inv : s.worker ≡ granting 0 → Inv (worker_waits s) active
  unfolding worker_waits
  worker_waits-Inv at_w = record {
    writers = λ q h. ground (arith, i.writers q);
    readers = λ q h. ground (arith, i.readers q);
    writers_once = i.writers_once;
    readers_once = i.readers_once;
    active_once = i.active_once;
    placed = λ q. ground (arith, i.placed q);
    turn = ground (arith, i.turn);
  }

  pub worker_ends-Inv : s.worker ≡ reading → 0 < s.worker_completion → Inv (worker_ends s) active
  unfolding worker_ends
  worker_ends-Inv at_w more = record {
    writers = λ q h. ground (arith, i.writers q);
    readers = λ q h. ground (arith, i.readers q);
    writers_once = i.writers_once;
    readers_once = i.readers_once;
    active_once = i.active_once;
    placed = λ q. ground (arith, i.placed q, i.turn);
    turn = ground (arith, i.turn);
  }
