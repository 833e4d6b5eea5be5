-- ===== src/LinkedList/Reverse.antt =====
-- `reverse_singly_ll`: turns the links of a list round, node by node.
pub mod Recursive
pub mod Agreement
use mathlib.Core.List
use mathlib.Core.List.{reverse_aux}
use ribdriver.Base.{
  ℕ, suc, zero, ◌+◌, ◌<◌, ◌≡◌, refl, List, [], ◌∷◌, arith, ◌==◌, ◌∙◌, length, if◌then◌else◌,
  eq_of_ne,
}
use ribdriver.Memory.{
  Ptr, null, Heap, Node, Cmd, done, then_do, pure, ◌>>=◌, ◌>>◌, load_ll, load_node,
}
use ribdriver.Memory.Total
use ribdriver.Memory.Total.{Ends, ends}
use ribdriver.Memory.Chain.{
  Cell, first, Chain, IsList, Untouched, Distinct, Disjoint, load_ll-IsList, load_node-Holds,
}
use ribdriver.LinkedList.{out_of_fuel, is_singly_ll_empty, set_next, set_head}
use ribdriver.LinkedList.Relink.{
  set_next-Holds, Holds-relinked, Chain-relinked, Turned, Turned-cons, out_of_apart, Disjoint-shift,
  set_head-at, unchanged, reversed,
}

-- The `do … while(p3)` loop; the result is the last `p1`.
pub reverse_loop : ℕ → (p1 p2 : Ptr) → Cmd Ptr
reverse_loop zero p1 p2 = out_of_fuel
reverse_loop (suc k) p1 p2 =
    let rest = reverse_loop k in
    do n ← load_node p2; set_next p2 p1; if n.next == null then pure p2 else rest p2 n.next

pub reverse_singly_ll : Ptr → Cmd (Unit {0})
reverse_singly_ll ll = do
  empty ← is_singly_ll_empty ll
  if empty then pure tt else do
    l ← load_ll ll
    if l.node_count == 1 then pure tt else do
      n ← load_node l.head
      set_next l.head null
      p1 ← reverse_loop (l.node_count + 1) l.head n.next
      set_head ll p1

reverse_loop-Chain :
    (k : ℕ) {h : Heap} (c : Cell) (xs ys : List Cell)
    → Chain h (c ∷ xs) null
    → Chain h ys null
    → Distinct (c ∷ xs)
    → Disjoint (c ∷ xs) ys
    → length xs < k
    → Ends
        (λ p g.
          (p ≡ first (reverse_aux (c ∷ xs) ys) null)
          × Chain g (reverse_aux (c ∷ xs) ys) null
          × Turned (c ∷ xs) h g)
        (reverse_loop k (first ys null) c.node h)
unfolding reverse_loop
reverse_loop-Chain zero c xs ys ch cy d apart fuel = absurd (omega arith)
reverse_loop-Chain (suc k) {h} c [] ys (e, ch) cy d apart fuel =
    rw (load_node-Holds e, set_next-Holds e)
      (ends (
        refl,
        (Holds-relinked e _, Chain-relinked h c _ ys null (out_of_apart c [] ys apart) cy),
        record { lists = λ a. refl; nodes = λ a o. ground arith; blocks = λ a. refl },
      ))
reverse_loop-Chain (suc k) {h} c (x ∷ xs) ys (e, ch) cy (nc, bc, d) apart fuel =
    rw (load_node-Holds e, set_next-Holds e)
      (rw (eq_of_ne _ _ ch.0.node_ne) (
        Total.weaken
          (reverse_loop-Chain k x xs (c ∷ ys)
            (Chain-relinked h c (first ys null) (x ∷ xs) null nc ch)
            (
              Holds-relinked e _,
              Chain-relinked h c (first ys null) ys null (out_of_apart c (x ∷ xs) ys apart) cy,
            )
            d (Disjoint-shift c (x ∷ xs) ys nc bc apart) (omega arith))
          λ p g (at_p, turned, same).
            (at_p, turned, Turned-cons h g c (first ys null) (x ∷ xs) same)))

-- The whole call at a list of two or more nodes.
reverse_singly_ll-loop :
    (h : Heap) (ll p : Ptr) (n : ℕ) (d : Node) (g : Heap)
    → load_ll ll h ≡ done (record { node_count = suc (suc n); head = p }) h
    → load_node p h ≡ done d h
    → set_next p null h ≡ done tt g
    → reverse_singly_ll ll h
      ≡ then_do (reverse_loop (suc (suc n) + 1) p d.next g) (λ p1. set_head ll p1)
unfolding reverse_singly_ll is_singly_ll_empty
reverse_singly_ll-loop h ll p n d g list node cut = ground arith

-- A list of no or one node is left as it is.
reverse_singly_ll-short :
    {h : Heap} {ll : Ptr} (xs : List Cell)
    → IsList h ll xs
    → length xs < 2
    → reverse_singly_ll ll h ≡ done tt h
unfolding reverse_singly_ll is_singly_ll_empty
reverse_singly_ll-short [] is short = ground (arith, load_ll-IsList is)
reverse_singly_ll-short (c ∷ []) is short = ground (arith, load_ll-IsList is)
reverse_singly_ll-short (c ∷ x ∷ xs) is short = absurd (omega arith)

-- `reverse_singly_ll` leaves the same nodes, with the same data, linked in reverse order; the count
-- is unchanged, no block is written, and nothing outside the list is touched.
pub reverse_singly_ll-IsList :
    {h : Heap} {ll : Ptr} (xs : List Cell)
    → IsList h ll xs
    → Ends (λ _ g. IsList g ll (List.reverse xs) × Untouched ll xs h g) (reverse_singly_ll ll h)
reverse_singly_ll-IsList {h} {ll} [] is =
    rw (reverse_singly_ll-short [] is (omega arith)) (ends (is, unchanged ll [] h))
reverse_singly_ll-IsList {h} {ll} (c ∷ []) is =
    rw (reverse_singly_ll-short (c ∷ []) is (omega arith)) (ends (is, unchanged ll (c ∷ []) h))
reverse_singly_ll-IsList {h} {ll} (c ∷ x ∷ xs) is =
    rw
      (reverse_singly_ll-loop h ll c.node (length xs) _ _ (load_ll-IsList is)
        (load_node-Holds is.chain.0) (set_next-Holds is.chain.0 null))
      (Total.and_then
        (reverse_loop-Chain (suc (suc (length xs)) + 1) x xs (c ∷ [])
          (Chain-relinked h c null (x ∷ xs) null is.distinct.0 is.chain.1)
          (Holds-relinked is.chain.0 null, tt) is.distinct.2
          (Disjoint-shift c (x ∷ xs) [] is.distinct.0 is.distinct.1
            (record { nodes = λ a i. cc; blocks = λ a i. cc }))
          (omega arith))
        λ p g (at_p, turned, same).
          rw (set_head-at g ll p _ is.ll_ne (same.lists ll ∙ is.descriptor))
            (ends (reversed c (x ∷ xs) p g is at_p turned (Turned-cons h g c null (x ∷ xs) same))))
