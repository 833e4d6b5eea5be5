-- ===== src/ThreadPool/Invariant.antt =====
-- The pool's invariant: no thread twice, and every id below `pool_size`. It is what makes the pool
-- large enough for every thread that it accepts.
use ribdriver.Base.{
  ℕ, ◌<◌, ◌≤◌, ◌≡◌, ap, ◌≢◌, false, none, some, List, [], ◌∷◌, length, set, get_or, arith,
  Option-cases, inl, inr, ◌∙◌, replicate, take-set, ◌++◌, drop, length-append, length-drop_le,
  take-replicate_append, length-set, length-take_le, length-replicate,
}
use ribdriver.Base.Members.{present, Distinct, Below, pigeonhole}
use ribdriver.Memory.{Ptr, null}
use ribdriver.ThreadPool.{
  Threads, Pool, max_pool_size, slots, is_thread_in_block_pool, get_empty_slot_from_pool, pool_add,
  add_thread_to_pool, init_blocked_pool, beyond,
}
use ribdriver.ThreadPool.Slots.{
  ids, ids-replicate, last_empty-full, last_empty-slot, find_thread-none, Distinct-set, Below-set,
}

-- The ids of the threads that the pool holds.
abbrev pub held : Threads → Pool → List ℕ
held threads pool = ids threads (slots pool)

pub record IsPool (threads : Threads) (pool : Pool) : Type 0 where
  pub in_bounds : pool.pool_size ≤ max_pool_size
  pub collection : length pool.blocked_thread_collection ≡ max_pool_size
  pub all_different : Distinct (held threads pool)
  pub all_below : Below pool.pool_size (held threads pool)

-- The pool with a slot overwritten.
abbrev pub with_slot : Pool → ℕ → Ptr → Pool
with_slot pool loc t = record pool {
  blocked_thread_collection = set pool.blocked_thread_collection loc t;
}

pub slots-with_slot :
    (pool : Pool) (loc : ℕ) (t : Ptr) → slots (with_slot pool loc t) ≡ set (slots pool) loc t
slots-with_slot pool loc t = take-set pool.pool_size pool.blocked_thread_collection loc t

module _ {threads : Threads} {pool : Pool} (is_pool : IsPool threads pool) where
  pub length-slots : length (slots pool) ≡ pool.pool_size
  length-slots =
      length-take_le pool.pool_size pool.blocked_thread_collection
        (omega (arith, is_pool.in_bounds, is_pool.collection))

  -- A thread with an id below `pool_size` that the pool does not hold finds an empty slot: were the
  -- pool full, the ids and the new one would be too many numbers below `pool_size`.
  pub get_empty_slot_from_pool-room :
      (n : ℕ)
      → n < pool.pool_size
      → present n (held threads pool) ≡ false
      → (loc : ℕ) × (get_empty_slot_from_pool pool ≡ some loc)
        × (loc < length (slots pool))
        × (get_or (slots pool) loc null ≡ null)
  unfolding get_empty_slot_from_pool
  get_empty_slot_from_pool-room n lt out = elim (Option-cases (get_empty_slot_from_pool pool)) [
    | inl full ↦ absurd (
        omega (
          arith,
          length-slots,
          last_empty-full threads 0 (slots pool) full,
          pigeonhole pool.pool_size (n ∷ held threads pool) (out, is_pool.all_different)
              (lt, is_pool.all_below),
        ))
    | inr (loc, found) ↦
        let (k, sum, inside, empty) = last_empty-slot 0 (slots pool) found in
        (k, ground (arith, found, sum), inside, empty)
  ]

pub not_beyond :
    {threads : Threads} {pool : Pool} {selfid : ℕ}
    → IsPool threads pool
    → selfid < pool.pool_size
    → beyond selfid pool ≡ false
unfolding beyond
not_beyond is_pool lt = ground (arith, is_pool.in_bounds)

-- The pool takes a thread that it can hold, whatever it holds so far.
pub add_thread_to_pool-takes :
    (threads : Threads) (pool : Pool) (t : Ptr)
    → IsPool threads pool
    → t ≢ null
    → (threads t).selfid < pool.pool_size
    → present (threads t).selfid (held threads pool) ≡ false
    → (loc : ℕ) × (loc < length (slots pool))
      × (get_or (slots pool) loc null ≡ null)
      × (is_thread_in_block_pool threads (threads t).selfid pool ≡ none)
      × (add_thread_to_pool threads t (some pool) ≡ (some loc, some (with_slot pool loc t)))
unfolding add_thread_to_pool pool_add is_thread_in_block_pool beyond
add_thread_to_pool-takes threads pool t is_pool ne lt out =
    let (loc, room, inside, empty) =
      get_empty_slot_from_pool-room is_pool (threads t).selfid lt out in
    let unknown : is_thread_in_block_pool threads (threads t).selfid pool ≡ none =
      find_thread-none threads (threads t).selfid 0 (slots pool) out in
    (loc, inside, empty, unknown, ground (arith, unknown, not_beyond is_pool lt, room))

-- Adding a thread keeps the invariant
pub with_slot-IsPool :
    (threads : Threads) (pool : Pool) (t : Ptr) (loc : ℕ)
    → IsPool threads pool
    → t ≢ null
    → (threads t).selfid < pool.pool_size
    → present (threads t).selfid (held threads pool) ≡ false
    → loc < length (slots pool)
    → get_or (slots pool) loc null ≡ null
    → IsPool threads (with_slot pool loc t)
with_slot-IsPool threads pool t loc is_pool ne lt out inside empty = record {
  in_bounds = is_pool.in_bounds;
  collection = length-set pool.blocked_thread_collection loc t ∙ is_pool.collection;
  all_different =
      rw (slots-with_slot pool loc t)
        (Distinct-set threads (slots pool) loc t inside empty ne out is_pool.all_different);
  all_below =
      rw (slots-with_slot pool loc t)
        (Below-set threads pool.pool_size (slots pool) loc t lt is_pool.all_below);
}

-- `init_blocked_pool` of a size that the array has room for makes a pool with the invariant that
-- holds no thread, whatever the array held before.
pub init_blocked_pool-IsPool :
    (threads : Threads) (pool_size : ℕ) (pool : Pool)
    → length pool.blocked_thread_collection ≡ max_pool_size
    → pool_size ≤ max_pool_size
    → (pool' : Pool) × (init_blocked_pool pool_size pool ≡ some pool')
      × IsPool threads pool'
      × (held threads pool' ≡ [])
unfolding init_blocked_pool
init_blocked_pool-IsPool threads pool_size pool full le = (
  pool',
  ground arith,
  record {
    in_bounds = le;
    collection = omega (
      arith,
      le,
      full,
      length-append (replicate pool_size null) (drop pool_size pool.blocked_thread_collection),
      length-replicate pool_size null,
      length-drop_le pool_size pool.blocked_thread_collection,
    );
    all_different = rw empty tt;
    all_below = rw empty tt;
  },
  empty,
)
  where
    pool' : Pool
    pool' = record {
      pool_size = pool_size;
      blocked_thread_collection =
          replicate pool_size null ++ drop pool_size pool.blocked_thread_collection;
    }

    empty : held threads pool' ≡ []
    empty =
        ap (ids threads) (take-replicate_append pool_size null _) ∙ ids-replicate threads pool_size
