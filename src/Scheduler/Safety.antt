-- ===== src/Scheduler/Safety.antt =====
-- What holds in every reachable state of the scheduler: writers and readers exclude each other.
use ribdriver.Base.{ℕ, ◌≤◌, ◌≡◌, ◌≢◌, arith, length}
use ribdriver.Memory.{Ptr}
use ribdriver.Table.{Layout}
use ribdriver.Fops.{Driver}
use ribdriver.Scheduler.{Pc, w_granted, w_updated, r_granted, r_copied, granting, System, Reach}
use ribdriver.Scheduler.Moves.{Reach-Good}

-- The thread is between the grant of access to the table and its return: as a writer, or as either.
abbrev pub IsWriting : Pc → Type 0
IsWriting (w_granted _) = Unit
IsWriting w_updated = Unit
IsWriting _ = ⊥

abbrev pub HasAccess : Pc → Type 0
HasAccess (w_granted _) = Unit
HasAccess w_updated = Unit
HasAccess r_granted = Unit
HasAccess r_copied = Unit
HasAccess _ = ⊥

module _ ⦃lay : Layout⦄ where
  -- In every state that `Step` reaches, while a thread has access to the table as a
  -- writer no other thread has access, as a writer or as a reader.
  pub exclusion :
      {d : Driver} {s : System} (p q : Ptr)
      → p ≢ q
      → Reach d s
      → IsWriting (s.pc p)
      → ¬ HasAccess (s.pc q)
  exclusion p q ne r w =
      let (active, i) = Reach-Good r in λ v. ground (arith, i.placed p, i.placed q, i.turn)

  -- In every state that the scheduler's steps reach, the worker has no more readers left to let in
  -- than there are in the readers' queue, so that it never takes one from an empty queue.
  pub grants_available :
      {d : Driver} {s : System} (k : ℕ) → Reach d s → s.worker ≡ granting k → k ≤ length s.reader_q
  grants_available k r at_w = let (active, i) = Reach-Good r in ground (arith, i.turn)
