-- ===== src/ThreadPool/Adding.antt =====
-- Adding a thread to the pool, and taking it out again.
use ribdriver.Base.{
  ℕ, ◌<◌, ◌≤◌, ◌≡◌, refl, ap, sym, ◌≢◌, true, false, not, ◌&&◌, none, some, ◌==◌, ltb,
  if◌then◌else◌, length, get_or, arith, Option-cases, Bool-cases, inl, inr, set-set_back, ◌∙◌,
}
use ribdriver.Base.Members.{present}
use ribdriver.Memory.{Ptr, null}
use ribdriver.ThreadPool.{
  Threads, Pool, slots, is_thread_in_block_pool, add_thread_to_pool, pool_add,
  remove_thread_from_pool, beyond, find_thread, get_empty_slot_from_pool, last_empty,
}
use ribdriver.ThreadPool.Slots.{find_thread-set, find_thread-absent, ids-set}
use ribdriver.ThreadPool.Invariant.{
  held, IsPool, with_slot, slots-with_slot, with_slot-IsPool, add_thread_to_pool-takes,
}

-- In a pool with the invariant there is room for every thread with an id below `pool_size` that the
-- pool does not hold: `add_thread_to_pool` returns a slot that was empty. The invariant is kept, and
-- the pool then holds that thread's id besides those that it held.
pub add_thread_to_pool-room :
    (threads : Threads) (pool : Pool) (t : Ptr)
    → IsPool threads pool
    → t ≢ null
    → (threads t).selfid < pool.pool_size
    → present (threads t).selfid (held threads pool) ≡ false
    → (loc : ℕ) × (pool' : Pool) × (add_thread_to_pool threads t (some pool)
        ≡ (some loc, some pool'))
      × (get_or (slots pool) loc null ≡ null)
      × IsPool threads pool'
      × ((n : ℕ)
          → present n (held threads pool')
            ≡ (if n == (threads t).selfid then true else present n (held threads pool)))
add_thread_to_pool-room threads pool t is_pool ne lt out =
    let (loc, inside, empty, unknown, added) =
      add_thread_to_pool-takes threads pool t is_pool ne lt out in
    (
      loc,
      with_slot pool loc t,
      added,
      empty,
      with_slot-IsPool threads pool t loc is_pool ne lt out inside empty,
      λ n. rw (slots-with_slot pool loc t) (ids-set threads (slots pool) loc t n inside empty ne),
    )

pub is_thread_in_block_pool-absent :
    (threads : Threads) (pool : Pool) (t : Ptr)
    → is_thread_in_block_pool threads (threads t).selfid pool ≡ none
    → present (threads t).selfid (held threads pool) ≡ false
unfolding is_thread_in_block_pool
is_thread_in_block_pool-absent threads pool t unknown =
    find_thread-absent threads (threads t).selfid 0 (slots pool) unknown

empty_pool : (pool : Pool) → pool.pool_size ≡ 0 → get_empty_slot_from_pool pool ≡ none
unfolding get_empty_slot_from_pool last_empty
empty_pool pool e = rw e refl

pool_add-beyond :
    {threads : Threads} {pool : Pool} (t : Ptr)
    → IsPool threads pool
    → pool.pool_size ≤ (threads t).selfid
    → pool_add threads t pool ≡ (none, pool)
unfolding pool_add beyond
pool_add-beyond {threads} {pool} t is_pool le = elim (Bool-cases (pool.pool_size == 0)) [
  | inl e ↦ ground (arith, empty_pool pool (ground arith))
  | inr ne ↦ ground (arith, is_pool.in_bounds)
]

-- A thread that the pool holds by its id, or one with an id that is not below `pool_size`, is
-- refused, and the pool stays as it is.
pub add_thread_to_pool-refuses :
    (threads : Threads) (pool : Pool) (t : Ptr)
    → IsPool threads pool
    → ltb (threads t).selfid pool.pool_size && not (present (threads t).selfid (held threads pool))
      ≡ false
    → add_thread_to_pool threads t (some pool) ≡ (none, some pool)
unfolding add_thread_to_pool
add_thread_to_pool-refuses threads pool t is_pool refused =
    elim (Option-cases (is_thread_in_block_pool threads (threads t).selfid pool)) [
      | inr (j, known) ↦ ground (arith, known)
      | inl unknown ↦
          let out = is_thread_in_block_pool-absent threads pool t unknown in
          ground (arith, pool_add-beyond t is_pool (ground (arith, out, refused)), unknown)
    ]

is_thread_in_block_pool-with_slot :
    (threads : Threads) (pool : Pool) (t loc : ℕ)
    → t ≢ null
    → loc < length (slots pool)
    → is_thread_in_block_pool threads (threads t).selfid pool ≡ none
    → is_thread_in_block_pool threads (threads t).selfid (with_slot pool loc t) ≡ some loc
unfolding is_thread_in_block_pool
is_thread_in_block_pool-with_slot threads pool t loc ne inside unknown =
    ap (find_thread threads (threads t).selfid 0) (slots-with_slot pool loc t)
    ∙ find_thread-set threads t 0 (slots pool) loc unknown inside ne
    ∙ ap some (omega arith)

remove_thread_from_pool-with_slot :
    {threads : Threads} {pool : Pool} {t loc : ℕ}
    → IsPool threads pool
    → t ≢ null
    → (threads t).selfid < pool.pool_size
    → loc < length (slots pool)
    → get_or (slots pool) loc null ≡ null
    → is_thread_in_block_pool threads (threads t).selfid pool ≡ none
    → remove_thread_from_pool threads t (with_slot pool loc t) ≡ (some loc, pool)
unfolding remove_thread_from_pool beyond
remove_thread_from_pool-with_slot {threads} {pool} {t} {loc} is_pool ne lt inside empty unknown =
    let back = set-set_back pool.pool_size pool.blocked_thread_collection loc t null inside empty in
    let restored : with_slot (with_slot pool loc t) loc null ≡ pool =
      ap (λ xs. record pool { blocked_thread_collection = xs }) back in
    ground (
      arith,
      is_pool.in_bounds,
      restored,
      is_thread_in_block_pool-with_slot threads pool t loc ne inside unknown,
    )

-- A thread that was added is removed from the slot that it was put into, and the pool is as it was.
pub remove_thread_from_pool-add :
    (threads : Threads) (pool pool' : Pool) (t : Ptr) (loc : ℕ)
    → IsPool threads pool
    → t ≢ null
    → (threads t).selfid < pool.pool_size
    → add_thread_to_pool threads t (some pool) ≡ (some loc, some pool')
    → remove_thread_from_pool threads t pool' ≡ (some loc, pool)
unfolding add_thread_to_pool
remove_thread_from_pool-add threads pool pool' t loc is_pool ne lt added =
    elim (Option-cases (is_thread_in_block_pool threads (threads t).selfid pool)) [
      | inr (j, known) ↦ ground (arith, known, added)
      | inl unknown ↦
          let out = is_thread_in_block_pool-absent threads pool t unknown in
          let (loc', inside, empty, _, added') =
            add_thread_to_pool-takes threads pool t is_pool ne lt out in
          let same = sym added ∙ added' in
          cc (same, remove_thread_from_pool-with_slot is_pool ne lt inside empty unknown)
    ]
