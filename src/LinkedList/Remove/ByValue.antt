-- ===== src/LinkedList/Remove/ByValue.antt =====
-- `singly_ll_remove_node_by_value`, which frees the node and not its data.
use ribdriver.Base.{
  ℕ, suc, zero, ◌+◌, ◌≤◌, ◌<◌, ◌≡◌, refl, ◌≢◌, true, false, none, Bool-cases, inl, inr, List, [],
  ◌∷◌, ◌++◌, arith, ◌==◌, sub32, length, length-append, append-nil, append_assoc, sym,
  if◌then◌else◌, eq_of_ne,
}
use ribdriver.Memory.{
  Ptr, null, Bytes, Heap, Cmd, pure, then_do, stuck, ◌>>=◌, ◌>>◌, load_ll, load_node, load_block,
  free_node, memcmp_zero,
}
use ribdriver.Memory.Total
use ribdriver.Memory.Total.{Ends, ends}
use ribdriver.Memory.Chain.{
  Cell, first, Chain-split, Chain-frame, IsList, values, has_node, load_ll-IsList, load_node-Holds,
  load_block-Holds,
}
use ribdriver.Memory.Distinct.{values-append, has_node-append, Distinct-split}
use ribdriver.LinkedList.Find.{
  matches, holds_value, erase, Wide, memcmp_zero-ok, erase-append, holds_value-append,
}
use ribdriver.LinkedList.Remove.{singly_ll_remove_node, Removed}
use ribdriver.LinkedList.Remove.AnyNode.{remove_node-Removed}

pub remove_by_value_loop : ℕ → (ll : Ptr) (key : Bytes) (size before : ℕ) (trav : Ptr) → Cmd ℕ
remove_by_value_loop zero ll key size before trav = λ h. stuck
remove_by_value_loop (suc k) ll key size before trav =
    let rest = remove_by_value_loop k ll key size before in
    if trav == null then (do l ← load_ll ll; pure (sub32 before l.node_count)) else do
      t ← load_node trav
      b ← load_block t.block
      hit ← memcmp_zero b key size
      if hit
          then (do
            _ ← singly_ll_remove_node ll trav
            free_node trav
            l ← load_ll ll
            pure (sub32 before l.node_count))
          else rest t.next

pub singly_ll_remove_node_by_value : Ptr → Bytes → ℕ → Cmd ℕ
unfolding remove_by_value_loop
singly_ll_remove_node_by_value ll key size = if ll == null then pure 0 else do
  l ← load_ll ll
  if l.head == null
      then pure 0
      else remove_by_value_loop (l.node_count + 1) ll key size l.node_count l.head

-- The node of `c` has gone from the list and from the heap; every block is as it was.
record Dropped (h : Heap) (ll : Ptr) (pre : List Cell) (c : Cell) (post : List Cell) (g : Heap)
    : Type 0 where
  list : IsList g ll (pre ++ post)
  gone : g.nodes c.node ≡ none
  lists : (a : Ptr) → a ≢ ll → g.lists a ≡ h.lists a
  nodes : (a : Ptr) → has_node a (pre ++ c ∷ post) ≡ false → g.nodes a ≡ h.nodes a
  blocks : (a : Ptr) → g.blocks a ≡ h.blocks a

apart_from :
    (pre : List Cell) (c : Cell) (post : List Cell) (h : Heap) (ll : Ptr)
    → IsList h ll (pre ++ c ∷ post)
    → has_node c.node (pre ++ post) ≡ false
apart_from pre c post h ll is =
    let (dp, (nc, bc, dr), apart) = Distinct-split pre (c ∷ post) is.distinct in
    ground (arith, has_node-append c.node pre post, apart.nodes c.node)

freed-Dropped :
    {h : Heap} {ll : Ptr} (pre : List Cell) (c : Cell) (post : List Cell) (g : Heap)
    → IsList h ll (pre ++ c ∷ post)
    → c.node ≢ null
    → Removed h ll pre c post g
    → Ends (λ _ g'. Dropped h ll pre c post g') (free_node c.node g)
unfolding free_node load_node
freed-Dropped {h} {ll} pre c post g is ne r =
    rw (eq_of_ne _ _ ne, eq_of_ne _ _ ne, r.alone)
      (ends (record {
        list = record {
          ll_ne = r.list.ll_ne;
          descriptor = r.list.descriptor;
          fits = r.list.fits;
          chain =
              Chain-frame {h = g} (pre ++ post) null
                (record {
                  nodes = λ a i. ground (arith, apart_from pre c post h ll is);
                  blocks = λ a i. refl;
                })
                r.list.chain;
          distinct = r.list.distinct;
        };
        gone = ground arith;
        lists = r.lists;
        nodes = λ a o. ground (arith, r.nodes a, has_node-append a pre (c ∷ post));
        blocks = r.blocks;
      }))

module _ (key : Bytes) (size : ℕ) (enough : size ≤ length key) where
  -- The list `xs` has lost its first match, and `n` says how many elements that is; the blocks stay.
  pub record Leaked (h : Heap) (ll : Ptr) (xs : List Cell) (n : ℕ) (g : Heap) : Type 0 where
    pub cells : List Cell
    pub erased : values cells ≡ erase key size (values xs)
    pub count : n ≡ (if holds_value key size (values xs) then 1 else 0)
    pub list : IsList g ll cells
    pub lists : (a : Ptr) → a ≢ ll → g.lists a ≡ h.lists a
    pub nodes : (a : Ptr) → has_node a xs ≡ false → g.nodes a ≡ h.nodes a
    pub blocks : (a : Ptr) → g.blocks a ≡ h.blocks a

  module _ {h : Heap} {ll : Ptr} (pre : List Cell) (c : Cell) (rest : List Cell)
      (is : IsList h ll (pre ++ c ∷ rest)) (none_in : holds_value key size (values pre) ≡ false)
      (hit : matches key size c.bytes ≡ true) (ne : c.node ≢ null) where
    hit-Leaked : Ends (Leaked h ll (pre ++ c ∷ rest)) (
        then_do (singly_ll_remove_node ll c.node h) λ _ g.
          then_do (free_node c.node g) λ _ g'.
            then_do (load_ll ll g') λ l. pure (sub32 (length (pre ++ c ∷ rest)) l.node_count))
    hit-Leaked = Total.and_then (remove_node-Removed pre c rest is) λ rc g (ok, r).
        Total.and_then (freed-Dropped pre c rest g is ne r) λ _ g' s. rw (load_ll-IsList s.list) (
          ends (record {
            cells = pre ++ rest;
            erased =
                rw
                  (
                    values-append,
                    values-append,
                    erase-append key size (values pre) (c.bytes ∷ values rest) none_in,
                    hit,
                  )
                  refl;
            count =
                rw
                  (
                    values-append,
                    holds_value-append key size (values pre) (c.bytes ∷ values rest) none_in,
                    hit,
                  )
                  (omega (arith, is.fits, length-append pre (c ∷ rest), length-append pre rest));
            list = s.list;
            lists = s.lists;
            nodes = s.nodes;
            blocks = s.blocks;
          }))

  kept :
      {h : Heap} {ll : Ptr} (pre : List Cell)
      → IsList h ll pre
      → holds_value key size (values pre) ≡ false
      → Leaked h ll pre (sub32 (length pre) (length pre)) h
  kept pre is none_in = record {
    cells = pre;
    erased = sym (rw append-nil at (erase-append key size (values pre) [] none_in));
    count = rw none_in (omega (arith, is.fits));
    list = is;
    lists = λ a ne. refl;
    nodes = λ a o. refl;
    blocks = λ a. refl;
  }

  loop-Leaked :
      (k : ℕ) {h : Heap} {ll : Ptr} (pre rest : List Cell)
      → IsList h ll (pre ++ rest)
      → holds_value key size (values pre) ≡ false
      → Wide size rest
      → length rest < k
      → Ends
          (Leaked h ll (pre ++ rest))
          (remove_by_value_loop k ll key size (length (pre ++ rest)) (first rest null) h)
  unfolding remove_by_value_loop
  loop-Leaked zero pre rest is none_in w fuel = absurd (omega arith)
  loop-Leaked (suc k) pre [] is none_in w fuel =
      let is' = rw append-nil at is in
      rw (append-nil, load_ll-IsList is') (ends (kept pre is' none_in))
  loop-Leaked (suc k) {h} {ll} pre (c ∷ rest) is none_in (wide, w) fuel =
      let (_, (e, _)) = Chain-split h pre (c ∷ rest) null is.chain in
      rw
        (
          eq_of_ne _ _ e.node_ne,
          load_node-Holds e,
          load_block-Holds e,
          memcmp_zero-ok c.bytes key size h wide enough,
        )
        (elim (Bool-cases (matches key size c.bytes)) [
          | inl hit ↦ rw hit (hit-Leaked pre c rest is none_in hit e.node_ne)
          | inr miss ↦
              rw (miss, ← append_assoc pre (c ∷ []) rest)
                (loop-Leaked k (pre ++ c ∷ []) rest (rw (← append_assoc pre (c ∷ []) rest) at is)
                  (rw
                    (
                      values-append,
                      holds_value-append key size (values pre) (c.bytes ∷ []) none_in,
                      miss,
                    )
                    refl)
                  w (omega arith))
        ])

  -- `singly_ll_remove_node_by_value` takes the first element out whose block starts with the key's
  -- first `size` bytes, and returns 1; if there is none the list keeps its values and the result is
  -- 0. No block is freed, not even that of the element, and nothing outside the list is touched.
  -- The key and every block must hold `size` bytes.
  pub remove_node_by_value-Leaked :
      {h : Heap} {ll : Ptr} {xs : List Cell}
      → IsList h ll xs
      → Wide size xs
      → Ends (Leaked h ll xs) (singly_ll_remove_node_by_value ll key size h)
  unfolding singly_ll_remove_node_by_value
  remove_node_by_value-Leaked {h} {ll} {xs} is w =
      rw (eq_of_ne _ _ is.ll_ne, load_ll-IsList is) (top xs is w)
    where
      top :
          (xs : List Cell)
          → IsList h ll xs
          → Wide size xs
          → Ends (Leaked h ll xs) (
              (if first xs null == null
                  then pure 0
                  else remove_by_value_loop (length xs + 1) ll key size (length xs) (first xs null))
                h)
      top [] is w = ends (kept [] is refl)
      top (c ∷ rest) is w =
          rw (eq_of_ne _ _ is.chain.0.node_ne)
            (loop-Leaked (length (c ∷ rest) + 1) [] (c ∷ rest) is refl w (omega arith))
