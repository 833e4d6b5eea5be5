-- ===== src/LinkedList/Find.antt =====
-- `singly_ll_is_value_present` and `singly_ll_delete_node_by_value` against the values of a list.
mod Values
pub use Values.{
  matches, find, holds_value, erase, kept, owned, Wide, memcmp_zero-ok, Within, erase-append,
  holds_value-append,
}
use Values.{owned-append, owned-less, less-Within, values-less, length-less, kept-append}
use ribdriver.Base.{
  ℕ, suc, zero, ◌+◌, ◌≤◌, ◌<◌, ◌≡◌, refl, Bool, true, false, inl, inr, Bool-cases, List, [], ◌∷◌,
  ◌++◌, map, ap, arith, ◌==◌, take, sub32, length, length-append, append-nil, append_assoc, sym,
  if◌then◌else◌, ◌||◌, eq_of_ne,
}
use ribdriver.Memory.{Ptr, null, Bytes, then_do, pure, Heap, done, same_bytes, load_ll, memcmp_zero}
use ribdriver.Memory.Total
use ribdriver.Memory.Total.{Ends, ends}
use ribdriver.Memory.Chain.{
  Cell, has_node, has_block, first, Chain, Chain-split, IsList, values, load_ll-IsList,
  load_node-Holds, load_block-Holds,
}
use ribdriver.Memory.Distinct.{has_node-append, has_block-append, values-append}
use ribdriver.LinkedList.{
  singly_ll_delete_node, delete_by_value_loop, singly_ll_delete_node_by_value, present_loop,
  singly_ll_is_value_present,
}
use ribdriver.LinkedList.Unlink.{less}
use ribdriver.LinkedList.Delete.{Shrunk, delete_node-Shrunk}

module _ (key : Bytes) (size : ℕ) (enough : size ≤ length key) where
  present_loop-find :
      (k : ℕ) (h : Heap) (xs : List Cell)
      → Chain h xs null
      → Wide size xs
      → length xs < k
      → present_loop k key size (first xs null) h ≡ done (find key size xs) h
  unfolding present_loop
  present_loop-find zero h xs ch w fuel = absurd (omega arith)
  present_loop-find (suc k) h [] ch w fuel = refl
  present_loop-find (suc k) h (c ∷ xs) (e, ch) (wide, w) fuel = ground (
    arith,
    e.node_ne,
    load_node-Holds e,
    load_block-Holds e,
    memcmp_zero-ok c.bytes key size h wide enough,
    present_loop-find k h xs ch w,
  )

  -- `singly_ll_is_value_present` returns the first node whose block starts with the key's first
  -- `size` bytes, or NULL if there is none, and changes nothing; the key and every block must hold
  -- `size` bytes.
  pub is_value_present-find :
      {h : Heap} {ll : Ptr} {xs : List Cell}
      → IsList h ll xs
      → Wide size xs
      → singly_ll_is_value_present ll key size h ≡ done (find key size xs) h
  unfolding singly_ll_is_value_present
  is_value_present-find {h} {ll} {xs} is w =
      rw (load_ll-IsList is) (present_loop-find (length xs + 1) h xs is.chain w (omega arith))

  -- The list `xs` has lost its first match, and `n` says how many elements that is.
  pub record Erased (h : Heap) (ll : Ptr) (xs : List Cell) (n : ℕ) (g : Heap) : Type 0 where
    pub cells : List Cell
    pub erased : values cells ≡ erase key size (values xs)
    pub remaining : owned cells ≡ owned (kept key size xs)
    pub count : n ≡ (if holds_value key size (values xs) then 1 else 0)
    pub within : Within cells xs
    pub shrunk : Shrunk h ll xs cells g

  -- The loop at `c`, which no cell before matches.
  module _ {h : Heap} {ll : Ptr} (pre : List Cell) (c : Cell) (rest : List Cell)
      (is : IsList h ll (pre ++ c ∷ rest)) (none_in : holds_value key size (values pre) ≡ false)
      (hit : matches key size c.bytes ≡ true) where
    hit-Erased : Ends (Erased h ll (pre ++ c ∷ rest)) (
        then_do
          (singly_ll_delete_node ll c.node h)
          λ _ g. then_do (load_ll ll g) λ l. pure (sub32 (length (pre ++ c ∷ rest)) l.node_count))
    hit-Erased = Total.and_then (delete_node-Shrunk pre c rest is) λ rc g (ok, s).
        rw (load_ll-IsList s.list) (
          ends (record {
            cells = pre ++ less c rest;
            erased = erased;
            remaining = remaining;
            count = count;
            within = less-Within pre c rest;
            shrunk = s;
          }))
      where
        erased : values (pre ++ less c rest) ≡ erase key size (values (pre ++ c ∷ rest))
        erased =
            rw
              (
                values-append,
                values-append,
                values-less,
                erase-append key size (values pre) (c.bytes ∷ values rest) none_in,
                hit,
              )
              refl

        remaining : owned (pre ++ less c rest) ≡ owned (kept key size (pre ++ c ∷ rest))
        remaining =
            rw
              (
                kept-append key size pre (c ∷ rest) none_in,
                hit,
                owned-append,
                owned-append,
                owned-less,
              )
              refl

        count :
            sub32 (length (pre ++ c ∷ rest)) (length (pre ++ less c rest))
            ≡ (if holds_value key size (values (pre ++ c ∷ rest)) then 1 else 0)
        count =
            rw
              (
                values-append,
                holds_value-append key size (values pre) (c.bytes ∷ values rest) none_in,
                hit,
              )
              (omega (
                arith,
                is.fits,
                length-append pre (c ∷ rest),
                length-append pre (less c rest),
                length-less c rest,
              ))

  unfound :
      {h : Heap} {ll : Ptr} (pre : List Cell)
      → IsList h ll pre
      → holds_value key size (values pre) ≡ false
      → Erased h ll pre (sub32 (length pre) (length pre)) h
  unfound pre is none_in = record {
    cells = pre;
    erased = sym (rw append-nil at (erase-append key size (values pre) [] none_in));
    remaining = sym (ap owned (rw append-nil at (kept-append key size pre [] none_in)));
    count = rw none_in (omega (arith, is.fits));
    within = record { nodes = λ a i. i; blocks = λ a i. i };
    shrunk = record {
      list = is;
      untouched = record { lists = λ a ne. refl; nodes = λ a o. refl; blocks = λ a o. refl };
      freed = record { nodes = λ a i o. cc; blocks = λ a i o. cc };
    };
  }

  loop-Erased :
      (k : ℕ) {h : Heap} {ll : Ptr} (pre rest : List Cell)
      → IsList h ll (pre ++ rest)
      → holds_value key size (values pre) ≡ false
      → Wide size rest
      → length rest < k
      → Ends
          (Erased h ll (pre ++ rest))
          (delete_by_value_loop k ll key size (length (pre ++ rest)) (first rest null) h)
  unfolding delete_by_value_loop
  loop-Erased zero pre rest is none_in w fuel = absurd (omega arith)
  loop-Erased (suc k) pre [] is none_in w fuel =
      let is' = rw append-nil at is in
      rw (append-nil, load_ll-IsList is') (ends (unfound pre is' none_in))
  loop-Erased (suc k) {h} {ll} pre (c ∷ rest) is none_in (wide, w) fuel =
      let (_, (e, _)) = Chain-split h pre (c ∷ rest) null is.chain in
      rw
        (
          eq_of_ne _ _ e.node_ne,
          load_node-Holds e,
          load_block-Holds e,
          memcmp_zero-ok c.bytes key size h wide enough,
        )
        (elim (Bool-cases (matches key size c.bytes)) [
          | inl hit ↦ rw hit (hit-Erased pre c rest is none_in hit)
          | inr miss ↦
              rw (miss, ← append_assoc pre (c ∷ []) rest)
                (loop-Erased k (pre ++ c ∷ []) rest (rw (← append_assoc pre (c ∷ []) rest) at is)
                  (rw
                    (
                      values-append,
                      holds_value-append key size (values pre) (c.bytes ∷ []) none_in,
                      miss,
                    )
                    refl)
                  w (omega arith))
        ])

  -- `singly_ll_delete_node_by_value` removes the first element whose block starts with the key's
  -- first `size` bytes, frees what it held, touches nothing outside the list, and returns 1; if there
  -- is none the list keeps its values and the result is 0. The key and every block must hold `size`
  -- bytes.
  pub delete_node_by_value-Erased :
      {h : Heap} {ll : Ptr} {xs : List Cell}
      → IsList h ll xs
      → Wide size xs
      → Ends (Erased h ll xs) (singly_ll_delete_node_by_value ll key size h)
  unfolding singly_ll_delete_node_by_value
  delete_node_by_value-Erased {h} {ll} {xs} is w = rw (load_ll-IsList is) (top xs is w)
    where
      top :
          (xs : List Cell)
          → IsList h ll xs
          → Wide size xs
          → Ends (Erased h ll xs) (
              (if (ll == null) || (first xs null == null)
                  then pure 0
                  else delete_by_value_loop (length xs + 1) ll key size (length xs) (first xs null))
                h)
      top [] is w = rw (eq_of_ne _ _ is.ll_ne) (ends (unfound [] is refl))
      top (c ∷ rest) is w =
          rw (eq_of_ne _ _ is.ll_ne, eq_of_ne _ _ is.chain.0.node_ne)
            (loop-Erased (length (c ∷ rest) + 1) [] (c ∷ rest) is refl w (omega arith))
