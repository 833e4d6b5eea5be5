-- ===== src/Queue.antt =====
-- common/Queue.c and common/Queue.h: a circular queue of pointers, filled downwards from slot 49.
-- The semaphore of `struct Queue_t` guards calls from outside and is not part of these functions.
pub mod Fifo
pub mod Window
pub mod Refine
mod Tests
use ribdriver.Base.{
  ℕ, ◌+◌, ◌-◌, Bool, true, false, ◌&&◌, ◌||◌, Option, none, some, List, ◌==◌, if◌then◌else◌, inc32,
  dec32, get_or, set, replicate,
}

-- A `void *`; `null` is NULL.
abbrev pub Ptr : Type 0
Ptr = ℕ

abbrev pub null : Ptr
null = 0

abbrev pub q_default_size : ℕ
q_default_size = 50

pub record Queue : Type 0 where
  pub elem : List Ptr
  pub front : ℕ
  pub rear : ℕ
  pub count : ℕ

-- `initQ`; `kzalloc` clears every slot and the count.
unfoldable pub init_q : Queue
init_q = record {
  elem = replicate q_default_size null;
  front = q_default_size - 1;
  rear = q_default_size - 1;
  count = 0;
}

unfoldable pub is_queue_empty : Queue → Bool
is_queue_empty q = if q.count == 0 then true else false

unfoldable pub is_queue_full : Queue → Bool
is_queue_full q = if q.count == q_default_size then true else false

-- The body of `enqueue` at a queue that is not NULL.
pub enqueue_body : Queue → Ptr → Bool × Queue
unfolding is_queue_empty is_queue_full
enqueue_body q ptr =
    if ptr == null
    then (false, q)
    else if is_queue_full q
    then (false, q)
    else if is_queue_empty q
    then (true, record q { elem = set q.elem q.rear ptr; count = inc32 q.count })
    else if q.rear == 0
    then (if (q.front == q_default_size - 1) && is_queue_full q then (false, q) else (
      true,
      record q {
        rear = q_default_size - 1;
        elem = set q.elem (q_default_size - 1) ptr;
        count = inc32 q.count;
      },
    ))
    else (
      true,
      record q { rear = q.rear - 1; elem = set q.elem (q.rear - 1) ptr; count = inc32 q.count },
    )

-- `enqueue`: `none` is a NULL queue; the flag is the C function's 1 or 0.
unfoldable pub enqueue : Option Queue → Ptr → Bool × Option Queue
unfolding enqueue_body
enqueue none ptr = (false, none)
enqueue (some q) ptr = let (rc, q') = enqueue_body q ptr in (rc, some q')

-- The body of `deque` at a queue that is not NULL.
pub deque_body : Queue → Ptr × Queue
unfolding is_queue_empty
deque_body q =
    if is_queue_empty q
    then (null, q)
    else if q.front == q.rear
    then (
      get_or q.elem q.front null,
      record q { elem = set q.elem q.front null; count = dec32 q.count },
    )
    else (
      get_or q.elem q.front null,
      record q {
        elem = set q.elem q.front null;
        front = if q.front == 0 then q_default_size - 1 else q.front - 1;
        count = dec32 q.count;
      },
    )

unfoldable pub deque : Option Queue → Ptr × Option Queue
unfolding deque_body
deque none = (null, none)
deque (some q) = let (elem, q') = deque_body q in (elem, some q')
