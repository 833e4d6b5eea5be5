-- ===== src/Scheduler/Steps/Arrivals.antt =====
-- A thread that comes and enqueues itself keeps the invariant.
use ribdriver.Base.{◌≤◌, ◌≡◌, ◌⊎◌, true, false, List, [], ◌∷◌, arith, length, length-append}
use ribdriver.Memory.{Ptr}
use ribdriver.Base.Members.{present, Distinct, present-append, Distinct-append}
use ribdriver.Queue.Fifo
use ribdriver.Scheduler.{Request, outside, System, writer_enters, reader_enters}
use ribdriver.Scheduler.Invariant.{Inv}

push-present :
    (xs : List Ptr) (p q : Ptr)
    → present q (Fifo.push xs p).1 ≡ true
    → (present q xs ≡ true) ⊎ (q ≡ p)
unfolding Fifo.push
push-present xs p q h = ground (arith, present-append q xs p)

push-Distinct :
    (xs : List Ptr) (p : Ptr) → Distinct xs → present p xs ≡ false → Distinct (Fifo.push xs p).1
unfolding Fifo.push
push-Distinct xs p d out = ground (arith, Distinct-append xs p d out)

push-length : (xs : List Ptr) (p : Ptr) → length xs ≤ length (Fifo.push xs p).1
unfolding Fifo.push
push-length xs p = ground (arith, length-append xs (p ∷ []))

module _ {s : System} {active : List Ptr} (i : Inv s active) where
  outside-unqueued :
      (p : Ptr) → s.pc p ≡ outside → (present p s.writer_q ≡ false) × (present p s.reader_q ≡ false)
  outside-unqueued p at_p = (ground (arith, i.writers p), ground (arith, i.readers p))

  pub writer_enters-Inv :
      (p : Ptr) (req : Request) → s.pc p ≡ outside → Inv (writer_enters p req s) active
  unfolding writer_enters
  writer_enters-Inv p req at_p =
      let (no_w, no_r) = outside-unqueued p at_p in
      record {
        writers = λ q h. ground (arith, push-present s.writer_q p q h, i.writers q, i.placed p);
        readers = λ q h. ground (arith, i.readers q);
        writers_once = push-Distinct s.writer_q p i.writers_once no_w;
        readers_once = i.readers_once;
        active_once = i.active_once;
        placed = λ q. ground (arith, i.placed q);
        turn = i.turn;
      }

  pub reader_enters-Inv : (p : Ptr) → s.pc p ≡ outside → Inv (reader_enters p s) active
  unfolding reader_enters
  reader_enters-Inv p at_p =
      let (no_w, no_r) = outside-unqueued p at_p in
      record {
        writers = λ q h. ground (arith, i.writers q);
        readers = λ q h. ground (arith, push-present s.reader_q p q h, i.readers q, i.placed p);
        writers_once = i.writers_once;
        readers_once = push-Distinct s.reader_q p i.readers_once no_r;
        active_once = i.active_once;
        placed = λ q. ground (arith, i.placed q);
        turn = ground (arith, i.turn, push-length s.reader_q p);
      }
