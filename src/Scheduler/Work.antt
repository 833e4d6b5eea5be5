-- ===== src/Scheduler/Work.antt =====
-- How much work is left: each step but a new call makes it less.
pub mod Less
use ribdriver.Base.{
  ℕ, suc, ◌+◌, ◌-◌, ◌*◌, ◌≤◌, ◌<◌, ◌≡◌, refl, inl, inr, true, false, List, [], ◌∷◌, ◌==◌, arith,
  length, if◌then◌else◌, Bool-cases,
}
use ribdriver.Memory.{set_at, Ptr}
use ribdriver.Base.Members.{present, erase, Distinct, present-erase}
use ribdriver.Table.{Layout}
use ribdriver.Fops.{Driver}
use ribdriver.Scheduler.{
  Pc, outside, w_waiting, w_granted, w_updated, r_waiting, r_granted, r_copied, Worker, idle,
  writing, counting, gathering, granting, reading, System, Request, writer_resumes, writer_updates,
  writer_gives_up, writer_finishes, worker_resumes, worker_counts, worker_waits, worker_ends,
  reader_resumes,
}
use ribdriver.Scheduler.Invariant.{Inv}

-- The steps to its return that a thread has left once it has been let in, as a writer and as a reader.
pub writer_left : Pc → ℕ
writer_left (w_waiting _) = 3
writer_left (w_granted _) = 2
writer_left w_updated = 1
writer_left outside = 0
writer_left r_waiting = 0
writer_left r_granted = 0
writer_left r_copied = 0

pub reader_left : Pc → ℕ
reader_left r_waiting = 3
reader_left r_granted = 2
reader_left r_copied = 1
reader_left outside = 0
reader_left (w_waiting _) = 0
reader_left (w_granted _) = 0
reader_left w_updated = 0

pub readers_left : (Ptr → Pc) → List Ptr → ℕ
readers_left pc [] = 0
readers_left pc (p ∷ ps) = reader_left (pc p) + readers_left pc ps

-- The worker's own steps and those of the writer that it waits for.
abbrev pub worker_left : Worker → (wc : ℕ) → (Ptr → Pc) → ℕ
worker_left idle wc pc = 0
worker_left (writing p) wc pc = if wc == 0 then 5 + writer_left (pc p) else 5
worker_left counting wc pc = 4
worker_left gathering wc pc = 3
worker_left (granting k) wc pc = 2
worker_left reading wc pc = 1

-- A queued writer has nine steps to come with those of the worker, a queued reader four.
abbrev pub work : System → List Ptr → ℕ
work s active =
    9 * length s.writer_q
    + 4 * length s.reader_q
    + worker_left s.worker s.worker_completion s.pc
    + readers_left s.pc active

pub readers_left-absent :
    (pc : Ptr → Pc) (p : Ptr) (at : Pc) (ps : List Ptr)
    → present p ps ≡ false
    → readers_left (set_at pc p at) ps ≡ readers_left pc ps
unfolding readers_left
readers_left-absent pc p at [] out = refl
readers_left-absent pc p at (q ∷ ps) out = ground (arith, readers_left-absent pc p at ps)

pub readers_left-set_at :
    (pc : Ptr → Pc) (p : Ptr) (at : Pc) (ps : List Ptr)
    → Distinct ps
    → present p ps ≡ true
    → readers_left (set_at pc p at) ps + reader_left (pc p) ≡ readers_left pc ps + reader_left at
unfolding readers_left
readers_left-set_at pc p at [] d i = cc
readers_left-set_at pc p at (q ∷ ps) (out, d) i = elim (Bool-cases (p == q)) [
  | inl here ↦ ground (arith, readers_left-absent pc p at ps)
  | inr elsewhere ↦ ground (arith, readers_left-set_at pc p at ps)
]

pub readers_left-erase :
    (pc : Ptr → Pc) (p : Ptr) (ps : List Ptr)
    → present p ps ≡ true
    → readers_left pc ps ≡ reader_left (pc p) + readers_left pc (erase p ps)
unfolding readers_left
readers_left-erase pc p [] i = cc
readers_left-erase pc p (q ∷ ps) i = ground (arith, readers_left-erase pc p ps)

pub reader_left-le : (at : Pc) → reader_left at ≤ 3
unfolding reader_left
reader_left-le at = ground arith

pub readers_left-le : (pc : Ptr → Pc) (ps : List Ptr) → readers_left pc ps ≤ 3 * length ps
unfolding readers_left
readers_left-le pc [] = omega arith
readers_left-le pc (p ∷ ps) = omega (arith, reader_left-le (pc p), readers_left-le pc ps)

pub worker_left-le : (w : Worker) (wc : ℕ) (pc : Ptr → Pc) → worker_left w wc pc ≤ 8
unfolding writer_left
worker_left-le w wc pc = ground arith
