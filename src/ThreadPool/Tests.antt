-- ===== src/ThreadPool/Tests.antt =====
-- A pool of three slots that holds the thread with id 1, in the slot that it took.
use ribdriver.Base.{
  ℕ, ◌≡◌, ◌-◌, ◌^◌, refl, true, false, some, ◌∷◌, ◌==◌, if◌then◌else◌, get_or, replicate, arith,
}
use ribdriver.Base.Members.{present}
use ribdriver.Memory.{null}
use ribdriver.ThreadPool.{
  Thread, Threads, Pool, max_pool_size, slots, add_thread_to_pool, remove_thread_from_pool,
  get_blocked_thread_from_pool, init_blocked_pool, wait_t, signal_t,
}
use ribdriver.ThreadPool.Invariant.{held, IsPool}
use ribdriver.ThreadPool.Adding.{add_thread_to_pool-room, remove_thread_from_pool-add}

-- The thread at address p + 10 has the id p.
abbrev threads : Threads
threads p = record { selfid = p - 10; is_waiting = false; resume_thread_id = 2 ^ 32 - 1 }

abbrev pool : Pool
pool = record { pool_size = 3; blocked_thread_collection = null ∷ null ∷ 11 ∷ replicate 97 null }

pool-IsPool : IsPool threads pool
pool-IsPool = record {
  in_bounds = omega arith;
  collection = refl;
  all_different = (refl, tt);
  all_below = (omega arith, tt);
}

add_thread_to_pool-room_example :
    (loc : ℕ) × (pool' : Pool) × (add_thread_to_pool threads 12 (some pool)
      ≡ (some loc, some pool'))
    × (get_or (slots pool) loc null ≡ null)
    × IsPool threads pool'
    × ((n : ℕ)
        → present n (held threads pool') ≡ (if n == 2 then true else present n (held threads pool)))
add_thread_to_pool-room_example =
    add_thread_to_pool-room threads pool 12 pool-IsPool (ground arith) (omega arith) refl

taken : add_thread_to_pool threads 12 (some pool) ≡ (
  some 1,
  some (record { pool_size = 3; blocked_thread_collection = null ∷ 12 ∷ 11 ∷ replicate 97 null }),
)
unfolding add_thread_to_pool ribdriver.ThreadPool.is_thread_in_block_pool
    ribdriver.ThreadPool.get_empty_slot_from_pool
taken = refl

remove_thread_from_pool-add_example :
    remove_thread_from_pool threads 12
      (record { pool_size = 3; blocked_thread_collection = null ∷ 12 ∷ 11 ∷ replicate 97 null })
    ≡ (some 1, pool)
remove_thread_from_pool-add_example =
    remove_thread_from_pool-add threads pool _ 12 1 pool-IsPool (ground arith) (omega arith) taken
