-- ===== src/Queue/Tests.antt =====
-- Runs of the circular queue, and its theorems at concrete queues.
use ribdriver.Base.{◌≡◌, refl, true, false, some, List, [], ◌∷◌}
use ribdriver.Queue.{init_q, enqueue, deque}
use ribdriver.Queue.Fifo
use ribdriver.Queue.Fifo.{Op, put, get, flag, pointer}
use ribdriver.Queue.Refine.{run, init_q-refines}

abbrev script : List Op
script = put 7 ∷ put 0 ∷ put 8 ∷ get ∷ get ∷ get ∷ put 9 ∷ get ∷ []

script_replies :
    run (some init_q) script
    ≡ flag true
      ∷ flag false
      ∷ flag true
      ∷ pointer 7
      ∷ pointer 8
      ∷ pointer 0
      ∷ flag true
      ∷ pointer 9
      ∷ []
unfolding run init_q enqueue deque
script_replies = refl

init_q-refines_example : run (some init_q) script ≡ Fifo.run [] script
init_q-refines_example = init_q-refines script
