-- ===== src/LinkedList/Reverse/Recursive.antt =====
-- `reverse_singly_ll2` and `reverse_singly_ll3`, which walk to the last node and turn the links
-- round on the way back from a recursion.
use mathlib.Core.List
use mathlib.Core.List.{reverse_aux}
use ribdriver.Base.{
  ℕ, suc, zero, ◌+◌, ◌<◌, ◌≡◌, refl, false, true, List, [], ◌∷◌, ◌++◌, arith, ◌==◌, ◌∙◌, length,
  sym, if◌then◌else◌, eq_of_ne,
}
use ribdriver.Memory.{
  Ptr, null, Heap, Cmd, done, stuck, then_do, pure, ◌>>=◌, ◌>>◌, load_ll, load_node,
}
use ribdriver.Memory.Total
use ribdriver.Memory.Total.{Ends, ends}
use ribdriver.Memory.Chain.{
  Cell, first, Holds, Chain, Chain-append, IsList, Untouched, Distinct, has_node, load_ll-IsList,
  load_node-Holds,
}
use ribdriver.LinkedList.{is_singly_ll_empty, set_next, set_head}
use ribdriver.LinkedList.Relink.{
  relinked, set_next-Holds, Holds-relinked, Chain-relinked, Turned, set_head-at, unchanged,
  reversed,
}

-- `while(last_node->next) last_node = last_node->next;`
pub last_loop : ℕ → (last_node : Ptr) → Cmd Ptr
last_loop zero last_node = λ h. stuck
last_loop (suc k) last_node = do
  n ← load_node last_node
  elim (n.next == null) [ true ↦ pure last_node | false ↦ last_loop k n.next ]

-- `_reverse_singly_ll2`
pub recurse2 : ℕ → (head : Ptr) → Cmd (Unit {0})
unfolding set_next
recurse2 zero head = λ h. stuck
recurse2 (suc k) head =
    let rest = recurse2 k in
    do
      n ← load_node head
      m ← load_node n.next
      if m.next == null then pure tt else rest n.next
      n' ← load_node head
      set_next n'.next head

pub reverse_singly_ll2 : Ptr → Cmd (Unit {0})
reverse_singly_ll2 ll = do
  empty ← is_singly_ll_empty ll
  if empty then pure tt else do
    l ← load_ll ll
    if l.node_count == 1 then pure tt else do
      last_node ← last_loop (l.node_count + 1) l.head
      recurse2 (l.node_count + 1) l.head
      set_next l.head null
      set_head ll last_node

-- `_reverse_singly_ll3`
pub recurse3 : ℕ → (prev next : Ptr) → Cmd (Unit {0})
unfolding set_next
recurse3 zero prev next = λ h. stuck
recurse3 (suc k) prev next =
    let rest = recurse3 k in
    do n ← load_node next; if n.next == null then pure tt else rest next n.next; set_next next prev

pub reverse_singly_ll3 : Ptr → Cmd (Unit {0})
reverse_singly_ll3 ll = do
  empty ← is_singly_ll_empty ll
  if empty then pure tt else do
    l ← load_ll ll
    if l.node_count == 1 then pure tt else do
      last_node ← last_loop (l.node_count + 1) l.head
      recurse3 (l.node_count + 1) null l.head
      set_head ll last_node

has_node-reverse :
    (a : Ptr) (xs ys : List Cell)
    → has_node a xs ≡ false
    → has_node a ys ≡ false
    → has_node a (reverse_aux xs ys) ≡ false
has_node-reverse a [] ys ox oy = oy
has_node-reverse a (x ∷ xs) ys ox oy = has_node-reverse a xs (x ∷ ys) (ground arith) (ground arith)

reverse-snoc : (xs ys zs : List Cell) → reverse_aux xs (ys ++ zs) ≡ reverse_aux xs ys ++ zs
reverse-snoc [] ys zs = refl
reverse-snoc (x ∷ xs) ys zs = reverse-snoc xs (x ∷ ys) zs

first-reverse :
    (x : Cell) (xs ys : List Cell)
    → first (reverse_aux xs (x ∷ ys)) null ≡ first (reverse_aux xs (x ∷ [])) null
first-reverse x [] ys = refl
first-reverse x (y ∷ xs) ys = first-reverse y xs (x ∷ ys) ∙ sym (first-reverse y xs (x ∷ []))

last_loop-first :
    (k : ℕ) (h : Heap) (c : Cell) (xs : List Cell)
    → Chain h (c ∷ xs) null
    → length xs < k
    → last_loop k c.node h ≡ done (first (reverse_aux xs (c ∷ [])) null) h
unfolding last_loop
last_loop-first zero h c xs ch fuel = absurd (omega arith)
last_loop-first (suc k) h c [] (e, ch) fuel = rw (load_node-Holds e)
last_loop-first (suc k) h c (x ∷ xs) (e, ch) fuel = ground (
  arith,
  load_node-Holds e,
  ch.0.node_ne,
  last_loop-first k h x xs ch,
  first-reverse x xs (c ∷ []),
)

Holds-Turned :
    {h g : Heap} {d : Cell} {q : Ptr} (xs : List Cell)
    → Turned xs h g
    → has_node d.node xs ≡ false
    → Holds h d q
    → Holds g d q
Holds-Turned {d} xs t out e = record {
  node_ne = e.node_ne;
  block_ne = e.block_ne;
  node_is = t.nodes d.node out ∙ e.node_is;
  block_is = t.blocks d.block ∙ e.block_is;
}

-- When the nodes behind `d` are turned round, its own link is turned to `p`.
turn_link :
    {h g : Heap} {d : Cell} {q : Ptr} (p : Ptr) (xs : List Cell)
    → has_node d.node xs ≡ false
    → Holds h d q
    → Chain g (reverse_aux xs []) d.node
    → Turned xs h g
    → Ends
        (λ _ g'. Chain g' (reverse_aux (d ∷ xs) []) p × Turned (d ∷ xs) h g')
        (set_next d.node p g)
turn_link {h} {g} {d} p xs out e ch t = rw (set_next-Holds (Holds-Turned xs t out e) p) (
    ends (
      rw (reverse-snoc xs [] (d ∷ [])) (
          Chain-append (relinked g d p) (reverse_aux xs []) (d ∷ []) p
            (Chain-relinked g d p (reverse_aux xs []) d.node
              (has_node-reverse d.node xs [] out refl) ch)
            (Holds-relinked (Holds-Turned xs t out e) p, tt)),
      record { lists = t.lists; nodes = λ a o. ground (arith, t.nodes a); blocks = t.blocks },
    ))

recurse3-Chain :
    (k : ℕ) {h : Heap} (prev : Ptr) (c : Cell) (xs : List Cell)
    → Chain h (c ∷ xs) null
    → Distinct (c ∷ xs)
    → length xs < k
    → Ends
        (λ _ g. Chain g (reverse_aux (c ∷ xs) []) prev × Turned (c ∷ xs) h g)
        (recurse3 k prev c.node h)
unfolding recurse3
recurse3-Chain zero prev c xs ch d fuel = absurd (omega arith)
recurse3-Chain (suc k) {h} prev c [] (e, ch) d fuel = rw (load_node-Holds e) (
    turn_link prev [] refl e tt
      (record { lists = λ a. refl; nodes = λ a o. refl; blocks = λ a. refl }))
recurse3-Chain (suc k) {h} prev c (x ∷ xs) (e, ch) (nc, bc, d) fuel =
    rw (load_node-Holds e, eq_of_ne _ _ ch.0.node_ne)
      (Total.and_then (recurse3-Chain k c.node x xs ch d (omega arith))
        λ _ g (turned, t). turn_link prev (x ∷ xs) nc e turned t)

recurse2-Chain :
    (k : ℕ) {h : Heap} (c x : Cell) (xs : List Cell)
    → Chain h (c ∷ x ∷ xs) null
    → Distinct (c ∷ x ∷ xs)
    → length xs < k
    → Ends
        (λ _ g. Chain g (reverse_aux (x ∷ xs) []) c.node × Turned (x ∷ xs) h g)
        (recurse2 k c.node h)
unfolding recurse2
recurse2-Chain zero c x xs ch d fuel = absurd (omega arith)
recurse2-Chain (suc k) {h} c x [] (e, (ex, ch)) d fuel =
    rw (load_node-Holds e, load_node-Holds ex, load_node-Holds e)
      (turn_link c.node [] refl ex tt
        (record { lists = λ a. refl; nodes = λ a o. refl; blocks = λ a. refl }))
recurse2-Chain (suc k) {h} c x (y ∷ xs) (e, (ex, ch)) (nc, bc, (nx, bx, d)) fuel =
    rw (load_node-Holds e, load_node-Holds ex, eq_of_ne _ _ ch.0.node_ne)
      (Total.and_then (recurse2-Chain k x y xs (ex, ch) (nx, bx, d) (omega arith))
        λ _ g (turned, t).
          rw (load_node-Holds (Holds-Turned {d = c} (y ∷ xs) t (ground arith) e))
            (turn_link c.node (y ∷ xs) nx ex turned t))

-- The calls at a list of two or more nodes.
reverse_singly_ll2-steps :
    (h : Heap) (ll p last : Ptr) (n : ℕ)
    → load_ll ll h ≡ done (record { node_count = suc (suc n); head = p }) h
    → last_loop (suc (suc n) + 1) p h ≡ done last h
    → reverse_singly_ll2 ll h
      ≡ then_do
          (recurse2 (suc (suc n) + 1) p h)
          (λ _ g. then_do (set_next p null g) λ _ g'. set_head ll last g')
unfolding reverse_singly_ll2 is_singly_ll_empty
reverse_singly_ll2-steps h ll p last n list walk = ground arith

reverse_singly_ll3-steps :
    (h : Heap) (ll p last : Ptr) (n : ℕ)
    → load_ll ll h ≡ done (record { node_count = suc (suc n); head = p }) h
    → last_loop (suc (suc n) + 1) p h ≡ done last h
    → reverse_singly_ll3 ll h
      ≡ then_do (recurse3 (suc (suc n) + 1) null p h) (λ _ g. set_head ll last g)
unfolding reverse_singly_ll3 is_singly_ll_empty
reverse_singly_ll3-steps h ll p last n list walk = ground arith

reverse_singly_ll2-short :
    {h : Heap} {ll : Ptr} (xs : List Cell)
    → IsList h ll xs
    → length xs < 2
    → reverse_singly_ll2 ll h ≡ done tt h
unfolding reverse_singly_ll2 is_singly_ll_empty
reverse_singly_ll2-short [] is short = ground (arith, load_ll-IsList is)
reverse_singly_ll2-short (c ∷ []) is short = ground (arith, load_ll-IsList is)
reverse_singly_ll2-short (c ∷ x ∷ xs) is short = absurd (omega arith)

reverse_singly_ll3-short :
    {h : Heap} {ll : Ptr} (xs : List Cell)
    → IsList h ll xs
    → length xs < 2
    → reverse_singly_ll3 ll h ≡ done tt h
unfolding reverse_singly_ll3 is_singly_ll_empty
reverse_singly_ll3-short [] is short = ground (arith, load_ll-IsList is)
reverse_singly_ll3-short (c ∷ []) is short = ground (arith, load_ll-IsList is)
reverse_singly_ll3-short (c ∷ x ∷ xs) is short = absurd (omega arith)

-- The last step of both: the head becomes the node that was the last.
finished :
    {h g : Heap} {ll : Ptr} (c : Cell) (xs : List Cell)
    → IsList h ll (c ∷ xs)
    → Chain g (reverse_aux xs (c ∷ [])) null
    → Turned (c ∷ xs) h g
    → Ends
        (λ _ g. IsList g ll (List.reverse (c ∷ xs)) × Untouched ll (c ∷ xs) h g)
        (set_head ll (first (reverse_aux xs (c ∷ [])) null) g)
finished {h} {g} {ll} c xs is turned same =
    rw (set_head-at g ll _ _ is.ll_ne (same.lists ll ∙ is.descriptor))
      (ends (reversed c xs _ g is refl turned same))

-- `reverse_singly_ll2` leaves the same nodes, with the same data, linked in reverse order; the
-- count is unchanged, no block is written, and nothing outside the list is touched.
pub reverse_singly_ll2-IsList :
    {h : Heap} {ll : Ptr} (xs : List Cell)
    → IsList h ll xs
    → Ends (λ _ g. IsList g ll (List.reverse xs) × Untouched ll xs h g) (reverse_singly_ll2 ll h)
reverse_singly_ll2-IsList {h} {ll} [] is =
    rw (reverse_singly_ll2-short [] is (omega arith)) (ends (is, unchanged ll [] h))
reverse_singly_ll2-IsList {h} {ll} (c ∷ []) is =
    rw (reverse_singly_ll2-short (c ∷ []) is (omega arith)) (ends (is, unchanged ll (c ∷ []) h))
reverse_singly_ll2-IsList {h} {ll} (c ∷ x ∷ xs) is =
    rw
      (reverse_singly_ll2-steps h ll c.node _ (length xs) (load_ll-IsList is)
        (last_loop-first _ h c (x ∷ xs) is.chain (omega arith)))
      (Total.and_then (recurse2-Chain _ c x xs is.chain is.distinct (omega arith))
        λ _ g (turned, t).
          Total.and_then (turn_link null (x ∷ xs) is.distinct.0 is.chain.0 turned t)
            λ _ g' (all, t'). finished c (x ∷ xs) is all t')

-- `reverse_singly_ll3` leaves the same nodes, with the same data, linked in reverse order; the
-- count is unchanged, no block is written, and nothing outside the list is touched.
pub reverse_singly_ll3-IsList :
    {h : Heap} {ll : Ptr} (xs : List Cell)
    → IsList h ll xs
    → Ends (λ _ g. IsList g ll (List.reverse xs) × Untouched ll xs h g) (reverse_singly_ll3 ll h)
reverse_singly_ll3-IsList {h} {ll} [] is =
    rw (reverse_singly_ll3-short [] is (omega arith)) (ends (is, unchanged ll [] h))
reverse_singly_ll3-IsList {h} {ll} (c ∷ []) is =
    rw (reverse_singly_ll3-short (c ∷ []) is (omega arith)) (ends (is, unchanged ll (c ∷ []) h))
reverse_singly_ll3-IsList {h} {ll} (c ∷ x ∷ xs) is =
    rw
      (reverse_singly_ll3-steps h ll c.node _ (length xs) (load_ll-IsList is)
        (last_loop-first _ h c (x ∷ xs) is.chain (omega arith)))
      (Total.and_then (recurse3-Chain _ null c (x ∷ xs) is.chain is.distinct (omega arith))
        λ _ g (turned, t). finished c (x ∷ xs) is turned t)
