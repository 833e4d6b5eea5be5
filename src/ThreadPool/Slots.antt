-- ===== src/ThreadPool/Slots.antt =====
-- The slots of a pool: where a thread is found, and which slot is empty.
use ribdriver.Base.{
  ℕ, suc, zero, ◌+◌, ◌<◌, ◌≡◌, refl, ◌≢◌, true, false, not, ◌&&◌, none, some, List, [], ◌∷◌, ◌==◌,
  if◌then◌else◌, length, set, get_or, arith, Option-cases, Bool-cases, inl, inr, replicate,
}
use ribdriver.Base.Members.{present, erase, Distinct, Below}
use ribdriver.Memory.{Ptr, null}
use ribdriver.ThreadPool.{Threads, find_thread, last_empty, last_blocked}

-- The ids of the threads in the slots.
abbrev pub ids : Threads → List Ptr → List ℕ
ids threads [] = []
ids threads (p ∷ ps) = if p == null then ids threads ps else (threads p).selfid ∷ ids threads ps

pub ids-replicate : (threads : Threads) (n : ℕ) → ids threads (replicate n null) ≡ []
ids-replicate threads zero = refl
ids-replicate threads (suc n) = ids-replicate threads n

-- A thread that is not found is not in the slots.
pub find_thread-absent :
    (threads : Threads) (thid i : ℕ) (ps : List Ptr)
    → find_thread threads thid i ps ≡ none
    → present thid (ids threads ps) ≡ false
unfolding find_thread
find_thread-absent threads thid i [] e = refl
find_thread-absent threads thid i (p ∷ ps) e =
    ground (arith, find_thread-absent threads thid (suc i) ps)

pub find_thread-none :
    (threads : Threads) (thid i : ℕ) (ps : List Ptr)
    → present thid (ids threads ps) ≡ false
    → find_thread threads thid i ps ≡ none
unfolding find_thread
find_thread-none threads thid i [] e = refl
find_thread-none threads thid i (p ∷ ps) e =
    ground (arith, find_thread-none threads thid (suc i) ps)

-- The slot that is found, counted from `i`. What it holds is taken out of the ids by a NULL.
pub find_thread-slot :
    (threads : Threads) (thid i : ℕ) (ps : List Ptr) {j : ℕ}
    → find_thread threads thid i ps ≡ some j
    → (k : ℕ) × (j ≡ i + k)
      × (k < length ps)
      × (present thid (ids threads ps) ≡ true)
      × (ids threads (set ps k null) ≡ erase thid (ids threads ps))
unfolding find_thread
find_thread-slot threads thid i [] e = cc
find_thread-slot threads thid i (p ∷ ps) {j} e =
    elim (Bool-cases (not (p == null) && ((threads p).selfid == thid))) [
      | inl here ↦ (0, ground arith, omega arith, ground arith, ground arith)
      | inr elsewhere ↦
          let (k, sum, lt, there, erased) =
            find_thread-slot threads thid (suc i) ps {j = j} (ground (arith, elsewhere, e)) in
          (suc k, ground arith, omega (arith, lt), ground arith, ground arith)
    ]

-- A thread that is absent is found in the slot that it is put into.
pub find_thread-set :
    (threads : Threads) (t i : ℕ) (ps : List Ptr) (k : ℕ)
    → find_thread threads (threads t).selfid i ps ≡ none
    → k < length ps
    → t ≢ null
    → find_thread threads (threads t).selfid i (set ps k t) ≡ some (i + k)
unfolding find_thread
find_thread-set threads t i [] k e lt ne = absurd (omega arith)
find_thread-set threads t i (p ∷ ps) zero e lt ne = ground arith
find_thread-set threads t i (p ∷ ps) (suc k) e lt ne =
    ground (arith, find_thread-set threads t (suc i) ps k)

-- Without an empty slot, there are as many ids as slots.
pub last_empty-full :
    (threads : Threads) (i : ℕ) (ps : List Ptr)
    → last_empty i ps ≡ none
    → length (ids threads ps) ≡ length ps
unfolding last_empty
last_empty-full threads i [] e = refl
last_empty-full threads i (p ∷ ps) e = ground (arith, last_empty-full threads (suc i) ps)

-- The empty slot that is found, counted from `i`.
pub last_empty-slot :
    (i : ℕ) (ps : List Ptr) {j : ℕ}
    → last_empty i ps ≡ some j
    → (k : ℕ) × (j ≡ i + k) × (k < length ps) × (get_or ps k null ≡ null)
unfolding last_empty
last_empty-slot i [] e = cc
last_empty-slot i (p ∷ ps) {j} e = elim (Option-cases (last_empty (suc i) ps)) [
  | inl none_above ↦ (0, ground arith, omega arith, ground arith)
  | inr (j', at) ↦
      let (k, sum, lt, empty) = last_empty-slot (suc i) ps at in
      (suc k, ground arith, omega (arith, lt), empty)
]

-- A thread put into an empty slot.
pub ids-set :
    (threads : Threads) (ps : List Ptr) (k : ℕ) (t : Ptr) (n : ℕ)
    → k < length ps
    → get_or ps k null ≡ null
    → t ≢ null
    → present n (ids threads (set ps k t))
      ≡ (if n == (threads t).selfid then true else present n (ids threads ps))
ids-set threads [] k t n lt empty ne = absurd (omega arith)
ids-set threads (p ∷ ps) zero t n lt empty ne = ground arith
ids-set threads (p ∷ ps) (suc k) t n lt empty ne = ground (arith, ids-set threads ps k t n)

pub Distinct-set :
    (threads : Threads) (ps : List Ptr) (k : ℕ) (t : Ptr)
    → k < length ps
    → get_or ps k null ≡ null
    → t ≢ null
    → present (threads t).selfid (ids threads ps) ≡ false
    → Distinct (ids threads ps)
    → Distinct (ids threads (set ps k t))
Distinct-set threads [] k t lt empty ne out d = absurd (omega arith)
Distinct-set threads (p ∷ ps) zero t lt empty ne out d = ground arith
Distinct-set threads (p ∷ ps) (suc k) t lt empty ne out d = elim (Bool-cases (p == null)) [
  | inl gap ↦
      rw gap
        (Distinct-set threads ps k t (omega (arith, lt)) empty ne (ground arith) (ground arith))
  | inr used ↦ rw used (
    ground (arith, ids-set threads ps k t (threads p).selfid (omega (arith, lt)) empty ne),
    Distinct-set threads ps k t (omega (arith, lt)) empty ne (ground arith) (ground arith),
  )
]

pub Below-set :
    (threads : Threads) (b : ℕ) (ps : List Ptr) (k : ℕ) (t : Ptr)
    → (threads t).selfid < b
    → Below b (ids threads ps)
    → Below b (ids threads (set ps k t))
Below-set threads b [] k t lt bs = tt
Below-set threads b (p ∷ ps) zero t lt bs = ground arith
Below-set threads b (p ∷ ps) (suc k) t lt bs = ground (arith, Below-set threads b ps k t)

-- A thread that is returned is in the slots; NULL is returned when none is.
pub last_blocked-present :
    (threads : Threads) (ps : List Ptr)
    → (last_blocked ps == null) ≡ false
    → present (threads (last_blocked ps)).selfid (ids threads ps) ≡ true
unfolding last_blocked
last_blocked-present threads [] some_thread = cc
last_blocked-present threads (p ∷ ps) some_thread = ground (arith, last_blocked-present threads ps)

pub last_blocked-none :
    (threads : Threads) (ps : List Ptr) → (last_blocked ps == null) ≡ true → ids threads ps ≡ []
unfolding last_blocked
last_blocked-none threads [] no_thread = refl
last_blocked-none threads (p ∷ ps) no_thread = ground (arith, last_blocked-none threads ps)
