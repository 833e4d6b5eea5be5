-- ===== src/ThreadPool.antt =====
-- userspace/threadApi.c: the pool of blocked threads, and the flags that `wait_t` and `signal_t` set.
-- The mutex makes each operation one step. A loop over the slots is a recursion on the slots that it
-- visits; a negative result, FAILURE, is `none`.
pub mod Slots
pub mod Invariant
pub mod Adding
pub mod Removing
mod Signal
mod Tests
use ribdriver.Base.{
  ℕ, suc, zero, ◌+◌, ◌-◌, ◌%◌, ◌^◌, Bool, true, false, not, ◌&&◌, Option, none, some, List, [], ◌∷◌,
  ◌==◌, ltb, leb, if◌then◌else◌, length, take, drop, set, replicate, ◌++◌, sub32,
}
use ribdriver.Memory.{Ptr, null}

-- `_pthread_t`, less what the thread library keeps in it.
pub record Thread : Type 0 where
  pub selfid : ℕ
  pub is_waiting : Bool
  pub resume_thread_id : ℕ

-- The threads at their addresses.
abbrev pub Threads : Type 0
Threads = Ptr → Thread

abbrev pub max_pool_size : ℕ
max_pool_size = 100

-- `blocked_pool_t`; the array has `max_pool_size` slots.
pub record Pool : Type 0 where
  pub pool_size : ℕ
  pub blocked_thread_collection : List Ptr

-- The slots below `pool_size`.
abbrev pub slots : Pool → List Ptr
slots pool = take pool.pool_size pool.blocked_thread_collection

-- The loops of `is_thread_in_block_pool`, upwards from slot `i`, and of `get_empty_slot_from_pool`
-- and `get_blocked_thread_from_pool`, which go downwards and so prefer what the slots above give.
pub find_thread : Threads → (thid i : ℕ) → List Ptr → Option ℕ
find_thread threads thid i [] = none
find_thread threads thid i (p ∷ ps) =
    if not (p == null) && ((threads p).selfid == thid)
    then some i
    else find_thread threads thid (suc i) ps

pub last_empty : (i : ℕ) → List Ptr → Option ℕ
last_empty i [] = none
last_empty i (p ∷ ps) = elim (last_empty (suc i) ps) [
  | some j ↦ some j
  | none ↦ if p == null then some i else none
]

pub last_blocked : List Ptr → Ptr
last_blocked [] = null
last_blocked (p ∷ ps) = let later = last_blocked ps in if later == null then p else later

pub is_thread_in_block_pool : Threads → (thid : ℕ) → Pool → Option ℕ
unfolding find_thread
is_thread_in_block_pool threads thid pool = find_thread threads thid 0 (slots pool)

pub get_empty_slot_from_pool : Pool → Option ℕ
unfolding last_empty
get_empty_slot_from_pool pool = last_empty 0 (slots pool)

pub get_blocked_thread_from_pool : Pool → Ptr
unfolding last_blocked
get_blocked_thread_from_pool pool = last_blocked (slots pool)

-- `none` is a write past the end of the array.
pub init_blocked_pool : (pool_size : ℕ) → Pool → Option Pool
init_blocked_pool pool_size pool =
    if ltb max_pool_size pool_size
    then none
    else some (record {
      pool_size = pool_size;
      blocked_thread_collection =
          replicate pool_size null ++ drop pool_size pool.blocked_thread_collection;
    })

-- `thread->selfid > pool_size - 1`, on unsigned numbers.
pub beyond : (selfid : ℕ) → Pool → Bool
beyond selfid pool = ltb (sub32 pool.pool_size 1) selfid

pub pool_add : Threads → Ptr → Pool → Option ℕ × Pool
unfolding beyond
pool_add threads thread pool =
    if beyond (threads thread).selfid pool
    then (none, pool)
    else elim (get_empty_slot_from_pool pool) [
      | none ↦ (none, pool)
      | some loc ↦ (
        some loc,
        record pool { blocked_thread_collection = set pool.blocked_thread_collection loc thread },
      )
    ]

-- `none` for the pool is a NULL pointer.
pub add_thread_to_pool : Threads → Ptr → Option Pool → Option ℕ × Option Pool
unfolding pool_add
add_thread_to_pool threads thread none = (none, none)
add_thread_to_pool threads thread (some pool) =
    elim (is_thread_in_block_pool threads (threads thread).selfid pool) [
      | none ↦ let (rc, pool') = pool_add threads thread pool in (rc, some pool')
      | some _ ↦ (none, some pool)
    ]

pub remove_thread_from_pool : Threads → Ptr → Pool → Option ℕ × Pool
unfolding beyond
remove_thread_from_pool threads thread pool =
    if beyond (threads thread).selfid pool
    then (none, pool)
    else elim (is_thread_in_block_pool threads (threads thread).selfid pool) [
      | none ↦ (none, pool)
      | some loc ↦ (
        some loc,
        record pool { blocked_thread_collection = set pool.blocked_thread_collection loc null },
      )
    ]

abbrev put_thread : Threads → Ptr → Thread → Threads
put_thread threads p t q = if q == p then t else threads q

-- `resume_thread_id` is unsigned, so -1 is 2 ^ 32 - 1.
pub pthread_init : (tid : ℕ) → Ptr → Threads → Threads
pthread_init tid p threads =
    put_thread threads p
      (record { selfid = tid; is_waiting = false; resume_thread_id = 2 ^ 32 - 1 })

-- Up to the wait, and after a wait that fails; a thread that wakes up returns without a change.
pub wait_t : Ptr → Threads → Threads
wait_t p threads = put_thread threads p (record (threads p) { is_waiting = true })

pub wait_fails : Ptr → Threads → Threads
wait_fails p threads = put_thread threads p (record (threads p) { is_waiting = false })

-- The signal has been sent; a thread that fails to send it ends, without a change.
pub signal_t : (signalling signalled : Ptr) → Threads → Threads
signal_t signalling signalled threads = put_thread threads signalled (record (threads signalled) {
  is_waiting = false;
  resume_thread_id = (threads signalling).selfid;
})
