-- ===== src/Memory/Distinct.antt =====
-- Addresses of concatenated chains.
use mathlib.Core.Bool.{or_assoc}
use ribdriver.Base.{◌≡◌, refl, ◌||◌, List, [], ◌∷◌, ◌++◌, arith, ap}
use ribdriver.Memory.{Ptr}
use ribdriver.Memory.Chain.{Cell, has_node, has_block, Distinct, Disjoint, values}

pub has_node-append :
    (a : Ptr) (xs ys : List Cell) → has_node a (xs ++ ys) ≡ (has_node a xs || has_node a ys)
has_node-append a [] ys = refl
has_node-append a (c ∷ xs) ys = rw (has_node-append a xs ys, or_assoc)

pub has_block-append :
    (a : Ptr) (xs ys : List Cell) → has_block a (xs ++ ys) ≡ (has_block a xs || has_block a ys)
has_block-append a [] ys = refl
has_block-append a (c ∷ xs) ys = rw (has_block-append a xs ys, or_assoc)

pub Distinct-split :
    (xs ys : List Cell) → Distinct (xs ++ ys) → Distinct xs × Distinct ys × Disjoint xs ys
Distinct-split [] ys d = (tt, d, record { nodes = λ a i. refl; blocks = λ a i. refl })
Distinct-split (c ∷ xs) ys (n, b, d) =
    let (dx, dy, apart) = Distinct-split xs ys d in
    let n' = has_node-append c.node xs ys in
    let b' = has_block-append c.block xs ys in
    (
      (ground arith, ground arith, dx),
      dy,
      record {
        nodes = λ a i. ground (arith, apart.nodes a);
        blocks = λ a i. ground (arith, apart.blocks a);
      },
    )

pub Distinct-append :
    (xs ys : List Cell) → Distinct xs → Distinct ys → Disjoint xs ys → Distinct (xs ++ ys)
Distinct-append [] ys dx dy apart = dy
Distinct-append (c ∷ xs) ys (n, b, dx) dy apart = (
  ground (arith, has_node-append c.node xs ys, apart.nodes c.node),
  ground (arith, has_block-append c.block xs ys, apart.blocks c.block),
  Distinct-append xs ys dx dy (record {
    nodes = λ a i. ground (arith, apart.nodes a);
    blocks = λ a i. ground (arith, apart.blocks a);
  }),
)

pub values-append : (xs ys : List Cell) → values (xs ++ ys) ≡ values xs ++ values ys
values-append [] ys = refl
values-append (c ∷ xs) ys = ap (λ r. c.bytes ∷ r) (values-append xs ys)
