-- ===== src/Table/OnHeap/Owned.antt =====
-- The blocks of a list that has lost a cell still hold what they held.
use ribdriver.Base.{ℕ, ◌≡◌, refl, true, some, List, [], ◌∷◌, arith, Bool-cases, inl, inr}
use ribdriver.Memory.{Ptr, Bytes, Heap}
use ribdriver.Memory.Chain.{Cell, Chain, has_block}
use ribdriver.LinkedList.Find.{matches, kept, owned}
use ribdriver.Table.OnHeap.Stored.{blocks_of}

-- The blocks are on the heap, with these bytes.
abbrev pub Backed : Heap → List (Ptr × Bytes) → Type 0
Backed h [] = Unit
Backed h ((b, bytes) ∷ os) = (h.blocks b ≡ some bytes) × Backed h os

pub Chain-Backed : (h : Heap) (xs : List Cell) (stop : Ptr) → Chain h xs stop → Backed h (owned xs)
Chain-Backed h [] stop ch = tt
Chain-Backed h (c ∷ xs) stop (here, ch) = (here.block_is, Chain-Backed h xs stop ch)

pub Backed-kept :
    (h : Heap) (key : Bytes) (size : ℕ) (xs : List Cell)
    → Backed h (owned xs)
    → Backed h (owned (kept key size xs))
Backed-kept h key size [] b = tt
Backed-kept h key size (c ∷ xs) (here, b) = elim (Bool-cases (matches key size c.bytes)) [
  | inl hit ↦ rw hit b
  | inr miss ↦ rw miss (here, Backed-kept h key size xs b)
]

-- Two heaps that back a list agree at its blocks.
pub Backed-agree :
    (h g : Heap) (ys : List Cell) (p : Ptr)
    → Backed h (owned ys)
    → Backed g (owned ys)
    → has_block p ys ≡ true
    → g.blocks p ≡ h.blocks p
Backed-agree h g [] p bh bg i = cc
Backed-agree h g (c ∷ ys) p (eh, bh) (eg, bg) i =
    ground (arith, eh, eg, Backed-agree h g ys p bh bg)

pub blocks_of-owned : (xs ys : List Cell) → owned xs ≡ owned ys → blocks_of xs ≡ blocks_of ys
blocks_of-owned [] [] e = refl
blocks_of-owned [] (d ∷ ys) e = cc
blocks_of-owned (c ∷ xs) [] e = cc
blocks_of-owned (c ∷ xs) (d ∷ ys) e =
    let same : c.block ≡ d.block = cc in let rest = blocks_of-owned xs ys (cc) in cc
