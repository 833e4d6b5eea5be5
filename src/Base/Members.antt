-- ===== src/Base/Members.antt =====
-- Lists of numbers as sets: membership, removal of one, no repetition.
use Prim.Native.Nat.{ℕ, zero, suc, ◌<◌, ◌≤◌}
use mathlib.Core.Path.{◌≡◌, refl}
use mathlib.Core.Bool.{Bool, true, false}
use mathlib.Core.Logic.{inl, inr}
use mathlib.Core.List.{List, [], ◌∷◌, ◌++◌}
use native.Mathlib.Omega.{arith}
use ribdriver.Base.Logic.{◌==◌, if◌then◌else◌, Bool-cases}
use ribdriver.Base.Arrays.{length}

abbrev pub present : ℕ → List ℕ → Bool
present f [] = false
present f (g ∷ gs) = if f == g then true else present f gs

abbrev pub erase : ℕ → List ℕ → List ℕ
erase f [] = []
erase f (g ∷ gs) = if f == g then gs else g ∷ erase f gs

abbrev pub Distinct : List ℕ → Type 0
Distinct [] = Unit
Distinct (p ∷ ps) = (present p ps ≡ false) × Distinct ps

pub present-append :
    (p : ℕ) (xs : List ℕ) (q : ℕ)
    → present p (xs ++ q ∷ []) ≡ (if p == q then true else present p xs)
present-append p [] q = refl
present-append p (x ∷ xs) q = ground (arith, present-append p xs q)

pub Distinct-append :
    (xs : List ℕ) (q : ℕ) → Distinct xs → present q xs ≡ false → Distinct (xs ++ q ∷ [])
Distinct-append [] q d out = (refl, tt)
Distinct-append (x ∷ xs) q (o, d) out =
    (ground (arith, present-append x xs q), Distinct-append xs q d (ground arith))

pub length-erase :
    (f : ℕ) (ps : List ℕ) → present f ps ≡ true → suc (length (erase f ps)) ≡ length ps
length-erase f [] h = cc
length-erase f (p ∷ ps) h = ground (arith, length-erase f ps)

pub present-erase :
    (g f : ℕ) (xs : List ℕ)
    → Distinct xs
    → present g (erase f xs) ≡ (if g == f then false else present g xs)
present-erase g f [] d = ground arith
present-erase g f (x ∷ xs) (o, d) = ground (arith, present-erase g f xs d)

pub Distinct-erase : (f : ℕ) (xs : List ℕ) → Distinct xs → Distinct (erase f xs)
Distinct-erase f [] d = tt
Distinct-erase f (x ∷ xs) (o, d) = ground (arith, present-erase x f xs d, Distinct-erase f xs d)

abbrev pub Below : ℕ → List ℕ → Type 0
Below n [] = Unit
Below n (x ∷ xs) = (x < n) × Below n xs

Below-absent : (n : ℕ) (xs : List ℕ) → present n xs ≡ false → Below (suc n) xs → Below n xs
Below-absent n [] o b = tt
Below-absent n (x ∷ xs) o (lt, b) = (ground arith, Below-absent n xs (ground arith) b)

Below-erase : (n : ℕ) (xs : List ℕ) → Distinct xs → Below (suc n) xs → Below n (erase n xs)
Below-erase n [] d b = tt
Below-erase n (x ∷ xs) (o, d) (lt, b) = elim (Bool-cases (n == x)) [
  | inl e ↦ rw e (Below-absent n xs (ground arith) b)
  | inr ne ↦ rw ne (ground arith, Below-erase n xs d b)
]

-- Numbers below `n` that are all different are `n` at most.
pub pigeonhole : (n : ℕ) (xs : List ℕ) → Distinct xs → Below n xs → length xs ≤ n
pigeonhole zero [] d b = omega arith
pigeonhole zero (x ∷ xs) d b = absurd (omega arith)
pigeonhole (suc n) xs d b = elim (Bool-cases (present n xs)) [
  | inl i ↦ omega (
    arith,
    length-erase n xs i,
    pigeonhole n (erase n xs) (Distinct-erase n xs d) (Below-erase n xs d b),
  )
  | inr o ↦ omega (arith, pigeonhole n xs d (Below-absent n xs o b))
]

pub Below-present : (n b : ℕ) (xs : List ℕ) → Below b xs → b ≤ n → present n xs ≡ false
Below-present n b [] bs le = refl
Below-present n b (x ∷ xs) (lt, bs) le = ground (arith, Below-present n b xs bs le)

pub erase-absent : (n : ℕ) (xs : List ℕ) → present n xs ≡ false → erase n xs ≡ xs
erase-absent n [] out = refl
erase-absent n (x ∷ xs) out = ground (arith, erase-absent n xs)

pub Below-erase_of : (n b : ℕ) (xs : List ℕ) → Below b xs → Below b (erase n xs)
Below-erase_of n b [] bs = tt
Below-erase_of n b (x ∷ xs) (lt, bs) = ground (arith, Below-erase_of n b xs bs)
