-- ===== src/Queue/Refine.antt =====
-- The circular queue of common/Queue.c behaves as a bounded first-in first-out list.
use ribdriver.Base.{
  Option, ◌+◌, ◌-◌, ◌%◌, ◌≤◌, ◌<◌, ◌≡◌, refl, some, List, [], ◌∷◌, arith, ◌==◌, if◌then◌else◌,
  length, length-set,
}
use ribdriver.Queue.{Queue, Ptr, init_q, enqueue_body, enqueue, deque_body, deque}
use ribdriver.Queue.Window.{
  down, window, length-window, window_of_ne_zero, window-set_outside, window-set,
}
use ribdriver.Queue.Fifo
use ribdriver.Queue.Fifo.{Fifo, Op, put, get, Reply, flag, pointer}

-- The slot that the oldest but `count - 1` pointer takes is `rear`.
pub record IsValid (q : Queue) : Type 0 where
  pub slots : length q.elem ≡ 50
  pub front_in : q.front < 50
  pub rear_in : q.rear < 50
  pub count_le : q.count ≤ 50
  pub gap : (q.rear + q.count + (if q.count == 0 then 1 else 0)) % 50 ≡ (q.front + 1) % 50

abbrev pub contents : Queue → Fifo
contents q = window q.elem q.front q.count

pub enqueue_body-IsValid : {q : Queue} (p : Ptr) → IsValid q → IsValid (enqueue_body q p).1
unfolding enqueue_body
enqueue_body-IsValid {q} p v =
    ground
      (arith, length-set q.elem q.rear p, length-set q.elem 49 p, length-set q.elem (q.rear - 1) p)

pub deque_body-IsValid : {q : Queue} → IsValid q → IsValid (deque_body q).1
unfolding deque_body
deque_body-IsValid {q} v = ground (arith, length-set q.elem q.front 0)

-- What `enqueue` stores ends the contents; a full queue is left alone.
pub enqueue_body-refines :
    {q : Queue} (p : Ptr)
    → IsValid q
    → let (rc, q') = enqueue_body q p in (rc, contents q') ≡ Fifo.push (contents q) p
unfolding enqueue_body Fifo.push
enqueue_body-refines {q} p v = ground (
  arith,
  length-window elem front count,
  window-set elem p count front rear slots,
  window-set elem p count front 49 slots,
  window-set elem p count front (rear - 1) slots,
)
  where
    open q use {elem, front, rear, count}
    open v use {slots}

pub deque_body-refines :
    {q : Queue} → IsValid q → let (p, q') = deque_body q in (p, contents q') ≡ Fifo.pop (contents q)
unfolding deque_body Fifo.pop
deque_body-refines {q} v = ground (
  arith,
  window_of_ne_zero elem front count,
  window-set_outside elem 0 (count - 1) (down front) front,
)
  where
    open q use {elem, front, rear, count}

-- The calls of a client in order, with what each returns.
unfoldable pub run : Option Queue → List Op → List Reply
run q [] = []
run q (put p ∷ ops) = let (rc, q') = enqueue q p in flag rc ∷ run q' ops
run q (get ∷ ops) = let (p, q') = deque q in pointer p ∷ run q' ops

pub run_refines :
    (ops : List Op) {q : Queue} → IsValid q → run (some q) ops ≡ Fifo.run (contents q) ops
unfolding run Fifo.run deque enqueue
run_refines [] v = refl
run_refines (put p ∷ ops) {q} v =
    rw (run_refines ops (enqueue_body-IsValid p v), ← enqueue_body-refines p v)
run_refines (get ∷ ops) {q} v = rw (run_refines ops (deque_body-IsValid v), ← deque_body-refines v)

init_q-IsValid : IsValid init_q
unfolding init_q
init_q-IsValid = omega arith

-- From `initQ` on, whatever is enqueued and dequeued, in any order, every reply of the circular
-- queue is that of a first-in first-out list that holds at most 50 pointers: `enqueue` returns 1
-- exactly when the pointer is not NULL and fewer than 50 are stored, and `deque` returns the
-- oldest pointer, or NULL when there is none.
pub init_q-refines : (ops : List Op) → run (some init_q) ops ≡ Fifo.run [] ops
unfolding init_q
init_q-refines ops = run_refines ops init_q-IsValid
