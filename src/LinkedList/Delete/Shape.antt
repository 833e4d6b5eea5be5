-- ===== src/LinkedList/Delete/Shape.antt =====
-- What a deletion does to a list, and what each way of deleting has to show for it.
use ribdriver.Base.{
  ◌≤◌, ◌≡◌, refl, ◌≢◌, true, false, none, some, List, [], ◌∷◌, ◌++◌, arith, length, ap,
}
use ribdriver.Memory.{Ptr, null, Heap, done}
use ribdriver.Memory.Total.{Ends, ends}
use ribdriver.Memory.Chain.{Cell, has_node, has_block, first, Chain, IsList, Untouched, Distinct}
use ribdriver.LinkedList.{ll_success}

-- What was in `xs` and is not in `ys` has been freed.
pub record Freed (xs ys : List Cell) (g : Heap) : Type 0 where
  pub nodes : (a : Ptr) → has_node a xs ≡ true → has_node a ys ≡ false → g.nodes a ≡ none
  pub blocks : (a : Ptr) → has_block a xs ≡ true → has_block a ys ≡ false → g.blocks a ≡ none

-- The list `xs` at `ll` has become `ys`, in place.
pub record Shrunk (h : Heap) (ll : Ptr) (xs ys : List Cell) (g : Heap) : Type 0 where
  pub list : IsList g ll ys
  pub untouched : Untouched ll xs h g
  pub freed : Freed xs ys g

pub first-ne :
    (h : Heap) (pre : List Cell) (c : Cell) (post : List Cell) (stop : Ptr)
    → Chain h (pre ++ c ∷ post) stop
    → first (pre ++ c ∷ post) stop ≢ null
first-ne h [] c post stop (e, rest) = e.node_ne
first-ne h (x ∷ pre) c post stop (e, rest) = e.node_ne

pub ne_of_out : (a : Ptr) (d : Cell) (rest : List Cell) → has_node a (d ∷ rest) ≡ false → a ≢ d.node
ne_of_out a d rest out = ground arith

-- A list that is not empty ends with some cell.
pub snoc : (x : Cell) (xs : List Cell) → (init : List Cell) × (l : Cell) × (x ∷ xs ≡ init ++ l ∷ [])
snoc x [] = ([], x, refl)
snoc x (y ∷ ys) = let (init, l, e) = snoc y ys in (x ∷ init, l, ap (λ r. x ∷ r) e)

module _ (h : Heap) (ll : Ptr) where
  -- The two heaps agree but for the descriptor: what is left is the chain, and who is gone.
  pub record Rest (xs ys : List Cell) (g : Heap) : Type 0 where
    pub chain : Chain g ys null
    pub distinct : Distinct ys
    pub untouched : Untouched ll xs h g
    pub freed : Freed xs ys g

  pub finish :
      (xs ys : List Cell) (g : Heap)
      → IsList h ll xs
      → g.lists ll ≡ some (record { node_count = length ys; head = first ys null })
      → length ys ≤ length xs
      → Rest xs ys g
      → Ends (λ rc g. (rc ≡ ll_success) × Shrunk h ll xs ys g) (done ll_success g)
  finish xs ys g is descriptor le r = ends (
    refl,
    record {
      list = record {
        ll_ne = is.ll_ne;
        descriptor = descriptor;
        fits = omega (arith, is.fits);
        chain = r.chain;
        distinct = r.distinct;
      };
      untouched = r.untouched;
      freed = r.freed;
    },
  )
