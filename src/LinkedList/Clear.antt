-- ===== src/LinkedList/Clear.antt =====
-- `delete_singly_ll`: frees every node and block of a list.
use ribdriver.Base.{
  ℕ, suc, zero, ◌+◌, ◌<◌, ◌≡◌, refl, ◌≢◌, none, some, List, [], ◌∷◌, arith, ◌==◌, ◌∙◌, length,
  if◌then◌else◌, eq_of_ne,
}
use ribdriver.Memory.{
  Ptr, null, Ll, Node, then_do, Heap, Cmd, done, pure, update, ◌>>=◌, ◌>>◌, load_ll, store_ll,
  load_node, free_node, free_block,
}
use ribdriver.Memory.Total
use ribdriver.Memory.Total.{Ends, ends}
use ribdriver.Memory.Chain.{
  Cell, first, Holds, Chain, Chain-frame, IsList, Distinct, has_node, has_block, load_ll-IsList,
  load_node-Holds, free_block-Holds,
}
use ribdriver.LinkedList.{out_of_fuel, is_singly_ll_empty}
use ribdriver.LinkedList.Delete.{Shrunk}

-- The `do … while(head)` loop: `next` is read one node ahead of `head`.
pub delete_ll_loop : ℕ → (head next : Ptr) → Cmd (Unit {0})
delete_ll_loop zero head next = out_of_fuel
delete_ll_loop (suc k) head next =
    let rest = delete_ll_loop k in
    do
      n ← load_node head
      free_block n.block
      free_node head
      if next == null then pure tt else (do m ← load_node next; rest next m.next)

pub delete_singly_ll : Ptr → Cmd (Unit {0})
delete_singly_ll ll = if ll == null then pure tt else do
  empty ← is_singly_ll_empty ll
  if empty then pure tt else do
    l ← load_ll ll
    n ← load_node l.head
    delete_ll_loop (l.node_count + 1) l.head n.next
    store_ll ll (record { node_count = 0; head = null })

-- `g` is `h` less the nodes and blocks of `xs`.
record Gone (xs : List Cell) (h g : Heap) : Type 0 where
  lists : (a : Ptr) → g.lists a ≡ h.lists a
  nodes : (a : Ptr) → g.nodes a ≡ (if has_node a xs then none else h.nodes a)
  blocks : (a : Ptr) → g.blocks a ≡ (if has_block a xs then none else h.blocks a)

abbrev drop_heap : Heap → Cell → Heap
drop_heap h c = record h {
  nodes = update h.nodes c.node none;
  blocks = update h.blocks c.block none;
}

free_node-drop :
    {h : Heap} {c : Cell} {q : Ptr}
    → Holds h c q
    → free_node c.node (record h { blocks = update h.blocks c.block none })
      ≡ done tt (drop_heap h c)
unfolding free_node load_node
free_node-drop e = ground (arith, e.node_is, e.node_ne)

Gone-cons : (h g : Heap) (c : Cell) (xs : List Cell) → Gone xs (drop_heap h c) g → Gone (c ∷ xs) h g
Gone-cons h g c xs gone = record {
  lists = gone.lists;
  nodes = λ a. ground (arith, gone.nodes a);
  blocks = λ a. ground (arith, gone.blocks a);
}

delete_ll_loop-Gone :
    (k : ℕ) {h : Heap} (c : Cell) (xs : List Cell)
    → Chain h (c ∷ xs) null
    → Distinct (c ∷ xs)
    → length xs < k
    → Ends (λ _ g. Gone (c ∷ xs) h g) (delete_ll_loop k c.node (first xs null) h)
unfolding delete_ll_loop
delete_ll_loop-Gone zero c xs ch d fuel = absurd (omega arith)
delete_ll_loop-Gone (suc k) {h} c [] (e, ch) d fuel =
    rw (load_node-Holds e, free_block-Holds e)
      (rw (free_node-drop e) (
        ends (record { lists = λ a. refl; nodes = λ a. ground arith; blocks = λ a. ground arith })))
delete_ll_loop-Gone (suc k) {h} c (x ∷ xs) (e, ch) (nc, bc, d) fuel =
    let ch' =
      Chain-frame {h = h} {g = drop_heap h c} (x ∷ xs) null
        (record { nodes = λ a i. ground (arith, nc); blocks = λ a i. ground (arith, bc) }) ch in
    rw (load_node-Holds e, free_block-Holds e)
      (rw (free_node-drop e) (
        rw (eq_of_ne _ _ ch.0.node_ne) (
          rw (load_node-Holds ch'.0) (
            Total.weaken (delete_ll_loop-Gone k x xs ch' d (omega arith))
              λ _ g gone. Gone-cons h g c (x ∷ xs) gone))))

store_ll-at :
    (g : Heap) (ll : Ptr) (l old : Ll)
    → ll ≢ null
    → g.lists ll ≡ some old
    → store_ll ll l g ≡ done tt (record g { lists = update g.lists ll (some l) })
unfolding store_ll load_ll
store_ll-at g ll l old ne is = ground arith

delete_singly_ll-loop :
    (h : Heap) (ll p : Ptr) (n : ℕ) (d : Node)
    → ll ≢ null
    → load_ll ll h ≡ done (record { node_count = suc n; head = p }) h
    → load_node p h ≡ done d h
    → delete_singly_ll ll h
      ≡ then_do
          (delete_ll_loop (suc n + 1) p d.next h)
          (λ _. store_ll ll (record { node_count = 0; head = null }))
unfolding delete_singly_ll is_singly_ll_empty
delete_singly_ll-loop h ll p n d ne list node = ground arith

emptied :
    (h g : Heap) (ll : Ptr) (xs : List Cell)
    → ll ≢ null
    → Gone xs h g
    → Shrunk h ll xs []
        (record g { lists = update g.lists ll (some (record { node_count = 0; head = null })) })
emptied h g ll xs ne gone = record {
  list = record {
    ll_ne = ne;
    descriptor = ground arith;
    fits = omega arith;
    chain = tt;
    distinct = tt;
  };
  untouched = record {
    lists = λ a ne. ground (arith, gone.lists a);
    nodes = λ a o. ground (arith, gone.nodes a);
    blocks = λ a o. ground (arith, gone.blocks a);
  };
  freed = record {
    nodes = λ a i o. ground (arith, gone.nodes a);
    blocks = λ a i o. ground (arith, gone.blocks a);
  };
}

-- `delete_singly_ll` empties a list of any length: every node and every block of it is freed, each
-- once, the count and the head are reset, and nothing else on the heap changes.
pub delete_singly_ll-Shrunk :
    {h : Heap} {ll : Ptr} (xs : List Cell)
    → IsList h ll xs
    → Ends (λ _ g. Shrunk h ll xs [] g) (delete_singly_ll ll h)
unfolding delete_singly_ll is_singly_ll_empty
delete_singly_ll-Shrunk [] is =
    rw (eq_of_ne _ _ is.ll_ne, load_ll-IsList is)
      (ends (record {
        list = is;
        untouched = record { lists = λ a ne. refl; nodes = λ a o. refl; blocks = λ a o. refl };
        freed = record { nodes = λ a i o. cc; blocks = λ a i o. cc };
      }))
delete_singly_ll-Shrunk {h} {ll} (c ∷ xs) is =
    rw
      (delete_singly_ll-loop h ll c.node (length xs) _ is.ll_ne (load_ll-IsList is)
        (load_node-Holds is.chain.0))
      (Total.and_then
        (delete_ll_loop-Gone (suc (length xs) + 1) c xs is.chain is.distinct (omega arith))
        λ _ g gone.
          rw (store_ll-at g ll _ _ is.ll_ne (gone.lists ll ∙ is.descriptor))
            (ends (emptied h g ll (c ∷ xs) is.ll_ne gone)))
