-- ===== src/Memory/Total.antt =====
-- Total correctness of a command: no fault, enough fuel, and a postcondition.
use ribdriver.Base.{◌≡◌, refl}
use ribdriver.Memory.{Heap, Outcome, done, Cmd, then_do}

pub data Ends {A : Type 0} (P : A → Heap → Type 0) : Outcome A → Type 0 where
  ends : {a : A} {h : Heap} → P a h → Ends P (done a h)

module _ {A : Type 0} {P : A → Heap → Type 0} where
  pub and_then :
      {B : Type 0} {Q : B → Heap → Type 0} {r : Outcome A} {k : A → Cmd B}
      → Ends P r
      → ((a : A) (h : Heap) → P a h → Ends Q (k a h))
      → Ends Q (then_do r k)
  and_then (ends p) rest = rest _ _ p

  pub weaken :
      {Q : A → Heap → Type 0} {r : Outcome A}
      → Ends P r
      → ((a : A) (h : Heap) → P a h → Q a h)
      → Ends Q r
  weaken (ends p) f = ends (f _ _ p)

  pub returns : {r : Outcome A} → Ends P r → (a : A) × (h : Heap) × (r ≡ done a h) × P a h
  returns (ends {a} {h} p) = (a, h, refl, p)
