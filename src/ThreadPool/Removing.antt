-- ===== src/ThreadPool/Removing.antt =====
-- Removing the threads that a pool holds.
use ribdriver.Base.{
  ℕ, suc, ◌≡◌, refl, sym, ◌↔◌, ◌⊎◌, true, false, none, some, [], ◌==◌, leb, length, arith,
  Option-cases, Bool-cases, inl, inr, length-set, ◌∙◌,
}
use ribdriver.Base.Members.{
  present, erase, Below-present, erase-absent, Distinct-erase, Below-erase_of, length-erase,
}
use ribdriver.Memory.{Ptr, null}
use ribdriver.ThreadPool.{
  Threads, Pool, slots, is_thread_in_block_pool, remove_thread_from_pool,
  get_blocked_thread_from_pool, beyond, last_blocked,
}
use ribdriver.ThreadPool.Slots.{find_thread-slot, last_blocked-present, last_blocked-none}
use ribdriver.ThreadPool.Invariant.{held, IsPool, with_slot, slots-with_slot, not_beyond}
use ribdriver.ThreadPool.Adding.{is_thread_in_block_pool-absent}

remove_thread_from_pool-unknown :
    (threads : Threads) (pool : Pool) (t : Ptr)
    → is_thread_in_block_pool threads (threads t).selfid pool ≡ none
    → remove_thread_from_pool threads t pool ≡ (none, pool)
unfolding remove_thread_from_pool
remove_thread_from_pool-unknown threads pool t unknown = ground (arith, unknown)

-- The slot of a thread that the pool holds, emptied.
with_slot-erase :
    (threads : Threads) (pool : Pool) (t : Ptr) {j : ℕ}
    → is_thread_in_block_pool threads (threads t).selfid pool ≡ some j
    → (present (threads t).selfid (held threads pool) ≡ true)
      × (held threads (with_slot pool j null) ≡ erase (threads t).selfid (held threads pool))
unfolding is_thread_in_block_pool
with_slot-erase threads pool t {j} known =
    let (k, sum, _, there, erased) =
      find_thread-slot threads (threads t).selfid 0 (slots pool) known in
    let same : j ≡ k = omega (arith, sum) in (there, rw (same, slots-with_slot pool k null) erased)

remove_thread_from_pool-known :
    (threads : Threads) (pool : Pool) (t : Ptr) {j : ℕ}
    → IsPool threads pool
    → is_thread_in_block_pool threads (threads t).selfid pool ≡ some j
    → remove_thread_from_pool threads t pool ≡ (some j, with_slot pool j null)
unfolding remove_thread_from_pool
remove_thread_from_pool-known threads pool t {j} is_pool known =
    elim (Bool-cases (leb pool.pool_size (threads t).selfid)) [
      | inl out ↦ ground (
        arith,
        with_slot-erase threads pool t known,
        Below-present (threads t).selfid pool.pool_size (held threads pool) is_pool.all_below,
      )
      | inr inside ↦
          let low : beyond (threads t).selfid pool ≡ false =
            not_beyond is_pool (ground (arith, inside)) in
          ground (arith, known, low)
    ]

drained :
    (threads : Threads) (pool : Pool) (t : Ptr)
    → IsPool threads pool
    → present (threads t).selfid (held threads pool) ≡ true
    → (loc : ℕ) × (pool' : Pool) × (remove_thread_from_pool threads t pool ≡ (some loc, pool'))
      × (suc (length (held threads pool')) ≡ length (held threads pool))
drained threads pool t is_pool there =
    elim (Option-cases (is_thread_in_block_pool threads (threads t).selfid pool)) [
      | inl unknown ↦ absurd (cc (there, is_thread_in_block_pool-absent threads pool t unknown))
      | inr (j, known) ↦
          let (_, erased) = with_slot-erase threads pool t known in
          (
            j,
            with_slot pool j null,
            remove_thread_from_pool-known threads pool t is_pool known,
            rw erased (length-erase _ _ there),
          )
    ]

with_slot-null-IsPool :
    (threads : Threads) (pool : Pool) (t : Ptr) (j : ℕ)
    → IsPool threads pool
    → held threads (with_slot pool j null) ≡ erase (threads t).selfid (held threads pool)
    → IsPool threads (with_slot pool j null)
with_slot-null-IsPool threads pool t j is_pool erased = record {
  in_bounds = is_pool.in_bounds;
  collection = length-set pool.blocked_thread_collection j null ∙ is_pool.collection;
  all_different = rw erased (Distinct-erase _ _ is_pool.all_different);
  all_below = rw erased (Below-erase_of _ _ _ is_pool.all_below);
}

-- `remove_thread_from_pool` erases the thread's id from those that the pool holds, keeps the
-- invariant, and fails when the pool does not hold the id.
pub remove_thread_from_pool-Erased :
    (threads : Threads) (pool : Pool) (t : Ptr)
    → IsPool threads pool
    → let (rc, pool') = remove_thread_from_pool threads t pool in
      IsPool threads pool'
      × (held threads pool' ≡ erase (threads t).selfid (held threads pool))
      × ((rc ≡ none) ↔ (present (threads t).selfid (held threads pool) ≡ false))
remove_thread_from_pool-Erased threads pool t is_pool =
    elim (Option-cases (is_thread_in_block_pool threads (threads t).selfid pool)) [
      | inl unknown ↦
          let out = is_thread_in_block_pool-absent threads pool t unknown in
          rw (remove_thread_from_pool-unknown threads pool t unknown)
            (is_pool, sym (erase-absent _ _ out), (λ _. out, λ _. refl))
      | inr (j, known) ↦
          let (there, erased) = with_slot-erase threads pool t known in
          rw (remove_thread_from_pool-known threads pool t is_pool known) (
            with_slot-null-IsPool threads pool t j is_pool erased,
            erased,
            (λ e. cc e, λ e. cc (there, e)),
          )
    ]

-- `get_blocked_thread_from_pool` returns NULL only when the pool holds no thread. Otherwise the
-- removal of the thread that it returns succeeds and leaves the pool with one thread less.
pub get_blocked_thread_from_pool-drains :
    (threads : Threads) (pool : Pool)
    → IsPool threads pool
    → let p = get_blocked_thread_from_pool pool in
      ((p ≡ null) × (held threads pool ≡ []))
      ⊎ ((loc : ℕ) × (pool' : Pool) × (remove_thread_from_pool threads p pool ≡ (some loc, pool'))
          × (suc (length (held threads pool')) ≡ length (held threads pool)))
unfolding get_blocked_thread_from_pool
get_blocked_thread_from_pool-drains threads pool is_pool =
    elim (Bool-cases (last_blocked (slots pool) == null)) [
      | inl none_left ↦
          inl (ground (arith, none_left), last_blocked-none threads (slots pool) none_left)
      | inr one_left ↦ inr (
          drained threads pool (last_blocked (slots pool)) is_pool
            (last_blocked-present threads (slots pool) one_left))
    ]
