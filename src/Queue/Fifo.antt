-- ===== src/Queue/Fifo.antt =====
-- What a queue promises: a first-in first-out list of at most `q_default_size` pointers.
use ribdriver.Base.{ℕ, Bool, true, false, List, [], ◌∷◌, ◌++◌, ◌==◌, if◌then◌else◌, length}

abbrev pub Fifo : Type 0
Fifo = List ℕ

-- What a caller can ask of the queue.
pub data Op : Type 0 where
  put : ℕ → Op
  get : Op

-- The flag that `enqueue` returns, or the pointer that `deque` returns.
pub data Reply : Type 0 where
  flag : Bool → Reply
  pointer : ℕ → Reply

unfoldable pub push : Fifo → ℕ → Bool × Fifo
push xs p =
    if p == 0 then (false, xs) else if length xs == 50 then (false, xs) else (true, xs ++ p ∷ [])

unfoldable pub pop : Fifo → ℕ × Fifo
pop [] = (0, [])
pop (x ∷ xs) = (x, xs)

unfoldable pub run : Fifo → List Op → List Reply
run xs [] = []
run xs (put p ∷ ops) = let (rc, ys) = push xs p in flag rc ∷ run ys ops
run xs (get ∷ ops) = let (p, ys) = pop xs in pointer p ∷ run ys ops
