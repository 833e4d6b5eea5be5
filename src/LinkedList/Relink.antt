-- ===== src/LinkedList/Relink.antt =====
-- Links that are turned round: what the three reversals share.
use mathlib.Core.List.{reverse_aux}
use ribdriver.Base.{◌+◌, ◌≡◌, refl, ◌≢◌, false, some, List, [], ◌∷◌, arith, length}
use ribdriver.Memory.{Ptr, null, Heap, Ll, done, update, load_ll, store_ll, load_node, store_node}
use ribdriver.Memory.Chain.{
  Cell, first, Holds, Chain, Chain-frame, IsList, Untouched, Distinct, Disjoint, has_node,
  has_block, node_of,
}
use ribdriver.LinkedList.{set_next, set_head}

abbrev pub relinked : Heap → Cell → Ptr → Heap
relinked h c q = record h { nodes = update h.nodes c.node (some (node_of c q)) }

pub set_next-Holds :
    {h : Heap} {c : Cell} {q : Ptr}
    → Holds h c q
    → (r : Ptr) → set_next c.node r h ≡ done tt (relinked h c r)
unfolding set_next load_node store_node
set_next-Holds e r = ground (arith, e.node_is, e.node_ne)

pub Holds-relinked :
    {h : Heap} {c : Cell} {q : Ptr} → Holds h c q → (r : Ptr) → Holds (relinked h c r) c r
Holds-relinked e r = record {
  node_ne = e.node_ne;
  block_ne = e.block_ne;
  node_is = ground arith;
  block_is = e.block_is;
}

pub Chain-relinked :
    (h : Heap) (c : Cell) (r : Ptr) (xs : List Cell) (stop : Ptr)
    → has_node c.node xs ≡ false
    → Chain h xs stop
    → Chain (relinked h c r) xs stop
Chain-relinked h c r xs stop out ch =
    Chain-frame {h = h} xs stop
      (record { nodes = λ a i. ground (arith, out); blocks = λ a i. refl }) ch

-- Nodes outside `xs`, every block and every descriptor are as they were.
pub record Turned (xs : List Cell) (h g : Heap) : Type 0 where
  pub lists : (a : Ptr) → g.lists a ≡ h.lists a
  pub nodes : (a : Ptr) → has_node a xs ≡ false → g.nodes a ≡ h.nodes a
  pub blocks : (a : Ptr) → g.blocks a ≡ h.blocks a

pub Turned-cons :
    (h g : Heap) (c : Cell) (r : Ptr) (xs : List Cell)
    → Turned xs (relinked h c r) g
    → Turned (c ∷ xs) h g
Turned-cons h g c r xs t = record {
  lists = t.lists;
  nodes = λ a o. ground (arith, t.nodes a);
  blocks = t.blocks;
}

pub out_of_apart :
    (c : Cell) (xs ys : List Cell) → Disjoint (c ∷ xs) ys → has_node c.node ys ≡ false
out_of_apart c xs ys apart = ground (arith, apart.nodes c.node)

pub out_of_apart_block :
    (c : Cell) (xs ys : List Cell) → Disjoint (c ∷ xs) ys → has_block c.block ys ≡ false
out_of_apart_block c xs ys apart = ground (arith, apart.blocks c.block)

pub Disjoint-shift :
    (c : Cell) (xs ys : List Cell)
    → has_node c.node xs ≡ false
    → has_block c.block xs ≡ false
    → Disjoint (c ∷ xs) ys
    → Disjoint xs (c ∷ ys)
Disjoint-shift c xs ys nc bc apart = record {
  nodes = λ a i. ground (arith, apart.nodes a);
  blocks = λ a i. ground (arith, apart.blocks a);
}

pub Distinct-reverse :
    (xs ys : List Cell) → Distinct xs → Distinct ys → Disjoint xs ys → Distinct (reverse_aux xs ys)
Distinct-reverse [] ys dx dy apart = dy
Distinct-reverse (c ∷ xs) ys (nc, bc, dx) dy apart =
    Distinct-reverse xs (c ∷ ys) dx
      (out_of_apart c xs ys apart, out_of_apart_block c xs ys apart, dy)
      (Disjoint-shift c xs ys nc bc apart)

pub length-reverse : (xs ys : List Cell) → length (reverse_aux xs ys) ≡ length xs + length ys
length-reverse [] ys = omega arith
length-reverse (c ∷ xs) ys = omega (arith, length-reverse xs (c ∷ ys))

pub set_head-at :
    (g : Heap) (ll p : Ptr) (l : Ll)
    → ll ≢ null
    → g.lists ll ≡ some l
    → set_head ll p g
      ≡ done tt (record g { lists = update g.lists ll (some (record l { head = p })) })
unfolding set_head store_ll load_ll
set_head-at g ll p l ne is = ground arith

pub unchanged : (ll : Ptr) (xs : List Cell) (h : Heap) → Untouched ll xs h h
unchanged ll xs h = record { lists = λ a ne. refl; nodes = λ a o. refl; blocks = λ a o. refl }

pub reversed :
    {h : Heap} {ll : Ptr} (c : Cell) (xs : List Cell) (p : Ptr) (g : Heap)
    → IsList h ll (c ∷ xs)
    → p ≡ first (reverse_aux xs (c ∷ [])) null
    → Chain g (reverse_aux xs (c ∷ [])) null
    → Turned (c ∷ xs) h g
    → let l : Ll = record { node_count = length (c ∷ xs); head = p } in
      let g' : Heap = record g { lists = update g.lists ll (some l) } in
      IsList g' ll (reverse_aux xs (c ∷ [])) × Untouched ll (c ∷ xs) h g'
reversed {h} {ll} c xs p g is at_p turned same = (
  record {
    ll_ne = is.ll_ne;
    descriptor = ground (arith, length-reverse xs (c ∷ []));
    fits = omega (arith, is.fits, length-reverse xs (c ∷ []));
    chain =
        Chain-frame {h = g} (reverse_aux xs (c ∷ [])) null
          (record { nodes = λ a i. refl; blocks = λ a i. refl }) turned;
    distinct =
        Distinct-reverse (c ∷ xs) [] is.distinct tt
          (record { nodes = λ a i. cc; blocks = λ a i. cc });
  },
  record {
    lists = λ a ne. ground (arith, same.lists a);
    nodes = λ a o. same.nodes a o;
    blocks = λ a o. same.blocks a;
  },
)
