-- ===== src/ThreadPool/Signal.antt =====
-- The flags of a thread that waits and is signalled.
use ribdriver.Base.{◌≡◌, refl, ◌≢◌, true, false, List, [], ◌∷◌, arith}
use ribdriver.Memory.{Ptr}
use ribdriver.ThreadPool.{Threads, Pool, slots, wait_t, signal_t}
use ribdriver.ThreadPool.Slots.{ids}
use ribdriver.ThreadPool.Invariant.{held}

ids-selfid :
    (before after : Threads) (ps : List Ptr)
    → ((q : Ptr) → (after q).selfid ≡ (before q).selfid)
    → ids after ps ≡ ids before ps
ids-selfid before after [] same = refl
ids-selfid before after (p ∷ ps) same = rw (ids-selfid before after ps same, same p) refl

signalled-selfid :
    (threads : Threads) (s p q : Ptr)
    → (signal_t s p (wait_t p threads) q).selfid ≡ (threads q).selfid
unfolding signal_t wait_t
signalled-selfid threads s p q = ground arith

-- A thread that waits and that another thread signals then no longer waits and has the id of the
-- thread that signalled it, the other threads are as they were, and so are the ids that a pool
-- holds.
pub signal_t-wait_t :
    (threads : Threads) (s p : Ptr) (pool : Pool)
    → let after = signal_t s p (wait_t p threads) in
      ((wait_t p threads p).is_waiting ≡ true)
      × ((after p).is_waiting ≡ false)
      × ((after p).resume_thread_id ≡ (threads s).selfid)
      × ((q : Ptr) → q ≢ p → after q ≡ threads q)
      × (held after pool ≡ held threads pool)
unfolding signal_t wait_t
signal_t-wait_t threads s p pool = (
  ground arith,
  ground arith,
  ground arith,
  (λ q ne. ground arith),
  ids-selfid threads (signal_t s p (wait_t p threads)) (slots pool) (signalled-selfid threads s p),
)
