-- ===== src/Memory/Unused.antt =====
-- Addresses at which there is nothing, as `kmalloc` returns them.
use ribdriver.Base.{
  ◌≡◌, refl, ◌≢◌, ◌∙◌, false, none, List, [], ◌∷◌, ◌==◌, arith, Bool-cases, inl, inr,
}
use ribdriver.Memory.{Ptr, null, Heap}
use ribdriver.Memory.Chain.{Cell, has_node, has_block, Disjoint, Untouched}

-- Nothing is at the address of a node, nor at that of a block.
pub record Unused (node block : Ptr) (h : Heap) : Type 0 where
  pub node_ne : node ≢ null
  pub block_ne : block ≢ null
  pub node_new : h.nodes node ≡ none
  pub block_new : h.blocks block ≡ none

-- What was unused still is, if it was not touched.
pub Unused-frame :
    {ll : Ptr} {h g : Heap} (node block : Ptr) (xs : List Cell)
    → Untouched ll xs h g
    → has_node node xs ≡ false
    → has_block block xs ≡ false
    → Unused node block h
    → Unused node block g
Unused-frame node block xs u out_node out_block unused = record {
  node_ne = unused.node_ne;
  block_ne = unused.block_ne;
  node_new = u.nodes node out_node ∙ unused.node_new;
  block_new = u.blocks block out_block ∙ unused.block_new;
}

-- A new cell shares nothing with the cells that do not have its addresses.
pub Disjoint-new :
    (c : Cell) (ys : List Cell)
    → has_node c.node ys ≡ false
    → has_block c.block ys ≡ false
    → Disjoint (c ∷ []) ys
Disjoint-new c ys out_node out_block = record {
  nodes = λ a i. elim (Bool-cases (a == c.node)) [
    | inl e ↦ let same : a ≡ c.node = ground arith in cc
    | inr ne ↦ rw ne refl
  ];
  blocks = λ a i. elim (Bool-cases (a == c.block)) [
    | inl e ↦ let same : a ≡ c.block = ground arith in cc
    | inr ne ↦ rw ne refl
  ];
}
