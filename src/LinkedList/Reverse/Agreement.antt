-- ===== src/LinkedList/Reverse/Agreement.antt =====
-- The three reversals do the same.
use mathlib.Core.List
use mathlib.Core.List.{reverse_aux}
use ribdriver.Base.{
  ◌≡◌, refl, true, false, List, [], ◌∷◌, ◌∙◌, sym, arith, Bool-cases, inl, inr, ◌==◌,
}
use ribdriver.Memory.{Ptr, Heap, done}
use ribdriver.Memory.Total.{returns}
use ribdriver.Memory.Chain.{Cell, Chain, IsList, Untouched, has_node, has_block}
use ribdriver.LinkedList.Reverse.{reverse_singly_ll, reverse_singly_ll-IsList}
use ribdriver.LinkedList.Reverse.Recursive.{
  reverse_singly_ll2, reverse_singly_ll3, reverse_singly_ll2-IsList, reverse_singly_ll3-IsList,
}

-- Two heaps that hold the same at every address.
pub record Same (g g' : Heap) : Type 0 where
  pub lists : (a : Ptr) → g.lists a ≡ g'.lists a
  pub nodes : (a : Ptr) → g.nodes a ≡ g'.nodes a
  pub blocks : (a : Ptr) → g.blocks a ≡ g'.blocks a

module _ (g g' : Heap) where
  Chain-nodes :
      (a : Ptr) (xs : List Cell) (stop : Ptr)
      → Chain g xs stop
      → Chain g' xs stop
      → has_node a xs ≡ true
      → g.nodes a ≡ g'.nodes a
  Chain-nodes a [] stop ch ch' i = cc
  Chain-nodes a (c ∷ xs) stop (e, ch) (e', ch') i =
      ground (arith, e.node_is, e'.node_is, Chain-nodes a xs stop ch ch')

  Chain-blocks :
      (a : Ptr) (xs : List Cell) (stop : Ptr)
      → Chain g xs stop
      → Chain g' xs stop
      → has_block a xs ≡ true
      → g.blocks a ≡ g'.blocks a
  Chain-blocks a [] stop ch ch' i = cc
  Chain-blocks a (c ∷ xs) stop (e, ch) (e', ch') i =
      ground (arith, e.block_is, e'.block_is, Chain-blocks a xs stop ch ch')

has_node-reverse :
    (a : Ptr) (xs ys : List Cell)
    → has_node a (reverse_aux xs ys) ≡ false
    → (has_node a xs ≡ false) × (has_node a ys ≡ false)
has_node-reverse a [] ys o = (refl, o)
has_node-reverse a (x ∷ xs) ys o = ground (arith, has_node-reverse a xs (x ∷ ys) o)

has_block-reverse :
    (a : Ptr) (xs ys : List Cell)
    → has_block a (reverse_aux xs ys) ≡ false
    → (has_block a xs ≡ false) × (has_block a ys ≡ false)
has_block-reverse a [] ys o = (refl, o)
has_block-reverse a (x ∷ xs) ys o = ground (arith, has_block-reverse a xs (x ∷ ys) o)

-- What a reversal leaves is determined.
reversed-Same :
    {h g g' : Heap} {ll : Ptr} (xs : List Cell)
    → IsList g ll (List.reverse xs) × Untouched ll xs h g
    → IsList g' ll (List.reverse xs) × Untouched ll xs h g'
    → Same g g'
reversed-Same {h} {g} {g'} {ll} xs (is, u) (is', u') = record {
  lists = λ a. elim (Bool-cases (a == ll)) [
    | inl e ↦ ground (arith, is.descriptor, is'.descriptor)
    | inr ne ↦ u.lists a (ground arith) ∙ sym (u'.lists a (ground arith))
  ];
  nodes = λ a. elim (Bool-cases (has_node a (reverse_aux xs []))) [
    | inl i ↦ Chain-nodes g g' a (List.reverse xs) _ is.chain is'.chain i
    | inr o ↦
        u.nodes a (has_node-reverse a xs [] o).0 ∙ sym (u'.nodes a (has_node-reverse a xs [] o).0)
  ];
  blocks = λ a. elim (Bool-cases (has_block a (reverse_aux xs []))) [
    | inl i ↦ Chain-blocks g g' a (List.reverse xs) _ is.chain is'.chain i
    | inr o ↦
        u.blocks a (has_block-reverse a xs [] o).0
        ∙ sym (u'.blocks a (has_block-reverse a xs [] o).0)
  ];
}

-- On a well-formed list the three reversals end without a fault, and the three heaps that they
-- leave are the same at every address.
pub reversals_agree :
    {h : Heap} {ll : Ptr} (xs : List Cell)
    → IsList h ll xs
    → (g1 g2 g3 : Heap) × (reverse_singly_ll ll h ≡ done tt g1)
      × (reverse_singly_ll2 ll h ≡ done tt g2)
      × (reverse_singly_ll3 ll h ≡ done tt g3)
      × Same g1 g2
      × Same g2 g3
reversals_agree xs is =
    let (_, g1, at1, r1) = returns (reverse_singly_ll-IsList xs is) in
    let (_, g2, at2, r2) = returns (reverse_singly_ll2-IsList xs is) in
    let (_, g3, at3, r3) = returns (reverse_singly_ll3-IsList xs is) in
    (g1, g2, g3, at1, at2, at3, reversed-Same xs r1 r2, reversed-Same xs r2 r3)
