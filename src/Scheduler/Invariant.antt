-- ===== src/Scheduler/Invariant.antt =====
-- Who may be where: the invariant of the readers-writer scheduler.
use ribdriver.Base.{ℕ, ◌+◌, ◌≤◌, ◌<◌, ◌≡◌, refl, ◌⊎◌, Bool, true, false, List, [], length}
use ribdriver.Memory.{Ptr}
use ribdriver.Base.Members.{present, Distinct}
use ribdriver.Fops.{Driver}
use ribdriver.Scheduler.{
  Pc, outside, w_waiting, w_granted, w_updated, r_waiting, r_granted, r_copied, Worker, idle,
  writing, counting, gathering, granting, reading, System, start,
}

-- A thread `p` at `pc`, with `c` completions to use up, given where the worker is, its completions,
-- and whether `p` is a reader that has been let in.
abbrev pub Placed : Ptr → Pc → ℕ → Worker → ℕ → Bool → Type 0
Placed p outside c w wc a = (c ≡ 0) × (a ≡ false)
Placed p (w_waiting _) c w wc a = ((c ≡ 0) ⊎ ((c ≡ 1) × (w ≡ writing p) × (wc ≡ 0))) × (a ≡ false)
Placed p (w_granted _) c w wc a = (c ≡ 0) × (w ≡ writing p) × (wc ≡ 0) × (a ≡ false)
Placed p w_updated c w wc a = (c ≡ 0) × (w ≡ writing p) × (wc ≡ 0) × (a ≡ false)
Placed p r_waiting c w wc a = ((c ≡ 0) × (a ≡ false)) ⊎ ((c ≡ 1) × (a ≡ true))
Placed p r_granted c w wc a = (c ≡ 0) × (a ≡ true)
Placed p r_copied c w wc a = (c ≡ 0) × (a ≡ true)

-- While `k` readers are still to be let in and those of `active` are in: all have yet to leave, or
-- the last one has left and has told the worker.
abbrev pub Serving : ℕ → ℕ → ℕ → List Ptr → Type 0
Serving wc n k active =
    ((wc ≡ 0) × (0 < n) × (n ≡ length active + k)) ⊎ ((wc ≡ 1) × (n ≡ 0) × (k ≡ 0) × (active ≡ []))

abbrev pub Turn : Worker → ℕ → ℕ → List Ptr → List Ptr → Type 0
Turn idle wc n active rq = (wc ≡ 0) × (active ≡ [])
Turn (writing p) wc n active rq = (wc ≤ 1) × (active ≡ [])
Turn counting wc n active rq = (wc ≡ 0) × (active ≡ [])
Turn gathering wc n active rq = (wc ≡ 0) × (active ≡ []) × (0 < n) × (n ≤ length rq)
Turn (granting k) wc n active rq = Serving wc n k active × (k ≤ length rq)
Turn reading wc n active rq = Serving wc n 0 active

-- In a writer's queue stand threads that wait as writers, and have not been let in.
abbrev pub IsQueuedWriter : Pc → ℕ → Type 0
IsQueuedWriter (w_waiting _) c = c ≡ 0
IsQueuedWriter _ c = ⊥

abbrev pub IsQueuedReader : Pc → ℕ → Type 0
IsQueuedReader r_waiting c = c ≡ 0
IsQueuedReader _ c = ⊥

pub record Inv (s : System) (active : List Ptr) : Type 0 where
  pub writers : (p : Ptr) → present p s.writer_q ≡ true → IsQueuedWriter (s.pc p) (s.completion p)
  pub readers : (p : Ptr) → present p s.reader_q ≡ true → IsQueuedReader (s.pc p) (s.completion p)
  pub writers_once : Distinct s.writer_q
  pub readers_once : Distinct s.reader_q
  pub active_once : Distinct active
  pub placed :
      (p : Ptr) → Placed p (s.pc p) (s.completion p) s.worker s.worker_completion (present p active)
  pub turn : Turn s.worker s.worker_completion s.n_readers_to_be_service active s.reader_q

pub start-Inv : (d : Driver) → Inv (start d) []
start-Inv d = record {
  writers = λ p h. cc;
  readers = λ p h. cc;
  writers_once = tt;
  readers_once = tt;
  active_once = tt;
  placed = λ p. (refl, refl);
  turn = (refl, refl);
}
