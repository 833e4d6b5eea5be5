-- ===== src/LinkedList/Delete/Last.antt =====
-- Deleting the last node, on its own or behind others.
use ribdriver.Base.{◌+◌, ◌≡◌, refl, some, List, [], ◌∷◌, ◌++◌, arith, length, length-append}
use ribdriver.Memory.{Ptr, null, Heap, done}
use ribdriver.Memory.Total.{Ends}
use ribdriver.Memory.Chain.{
  Cell, first, first-append, Chain-split, Chain-append, Chain-frame, IsList,
}
use ribdriver.Memory.Distinct.{has_node-append, has_block-append, Distinct-split, Distinct-append}
use ribdriver.LinkedList.{find_prev, ll_success, singly_ll_delete_node}
use ribdriver.LinkedList.Unlink.{
  find_prev-last, takes_only, takes_last, delete_only-heap, last_heap, delete_last-heap,
}
use ribdriver.LinkedList.Delete.Shape.{Shrunk, first-ne, ne_of_out, Rest, finish}

module _ (h : Heap) (ll : Ptr) where
  pub only-Shrunk :
      (c : Cell)
      → IsList h ll (c ∷ [])
      → Ends
          (λ rc g. (rc ≡ ll_success) × Shrunk h ll (c ∷ []) [] g)
          (singly_ll_delete_node ll c.node h)
  only-Shrunk c is =
      rw
        (takes_only h ll _ c null is.ll_ne is.descriptor is.chain.0.node_ne is.chain.0 refl refl
          refl)
        (rw (delete_only-heap h ll _ c is.ll_ne is.descriptor is.chain.0) (
          finish h ll (c ∷ []) [] _ is (ground arith) (omega arith) (record {
            chain = tt;
            distinct = tt;
            untouched = record {
              lists = λ a ne. ground arith;
              nodes = λ a o. ground arith;
              blocks = λ a o. ground arith;
            };
            freed = record { nodes = λ a i o. ground arith; blocks = λ a i o. ground arith };
          })))

  module _ (init : List Cell) (l c : Cell) (is : IsList h ll (init ++ l ∷ c ∷ [])) where
    abbrev cut : Heap
    cut =
        last_heap h ll
          (record {
            node_count = length (init ++ l ∷ c ∷ []);
            head = first (init ++ l ∷ c ∷ []) null;
          })
          l c

    last-Rest : Rest h ll (init ++ l ∷ c ∷ []) (init ++ l ∷ []) cut
    last-Rest =
        let (cp, (el, (ec, _))) = Chain-split h init (l ∷ c ∷ []) null is.chain in
        let (dp, (nl, bl, dc), apart) = Distinct-split init (l ∷ c ∷ []) is.distinct in
        record {
          chain =
              Chain-append cut init (l ∷ []) null
                (Chain-frame init l.node
                  (record {
                    nodes = λ a i. ground (arith, apart.nodes a);
                    blocks = λ a i. ground (arith, apart.blocks a);
                  })
                  cp)
                (
                  record {
                    node_ne = el.node_ne;
                    block_ne = el.block_ne;
                    node_is = ground arith;
                    block_is = ground (arith, el.block_is);
                  },
                  tt,
                );
          distinct =
              Distinct-append init (l ∷ []) dp (refl, refl, tt)
                (record {
                  nodes = λ a i. ground (arith, apart.nodes a);
                  blocks = λ a i. ground (arith, apart.blocks a);
                });
          untouched = record {
            lists = λ a ne. ground arith;
            nodes = λ a o. ground (arith, has_node-append a init (l ∷ c ∷ []));
            blocks = λ a o. ground (arith, has_block-append a init (l ∷ c ∷ []));
          };
          freed = record {
            nodes = λ a i o.
                ground
                  (arith, has_node-append a init (l ∷ c ∷ []), has_node-append a init (l ∷ []));
            blocks = λ a i o.
                ground
                  (arith, has_block-append a init (l ∷ c ∷ []), has_block-append a init (l ∷ []));
          };
        }

    last-walk :
        find_prev (length (init ++ l ∷ c ∷ []) + 1) c.node (first (init ++ l ∷ c ∷ []) null) h
        ≡ done l.node h
    last-walk =
        let (cp, (el, _)) = Chain-split h init (l ∷ c ∷ []) null is.chain in
        let (dp, (nl, _, _), apart) = Distinct-split init (l ∷ c ∷ []) is.distinct in
        rw (first-append init (l ∷ c ∷ []) null) (
          find_prev-last _ h init l c.node cp el (apart.nodes c.node (ground arith))
            (ne_of_out l.node c [] nl) (omega (arith, length-append init (l ∷ c ∷ []))))

    pub last-Shrunk :
        Ends
          (λ rc g. (rc ≡ ll_success) × Shrunk h ll (init ++ l ∷ c ∷ []) (init ++ l ∷ []) g)
          (singly_ll_delete_node ll c.node h)
    last-Shrunk =
        let (cp, (el, (ec, _))) = Chain-split h init (l ∷ c ∷ []) null is.chain in
        let (dp, (nl, bl, dc), apart) = Distinct-split init (l ∷ c ∷ []) is.distinct in
        let head_ne = first-ne h init l (c ∷ []) null is.chain in
        let long = length-append init (l ∷ c ∷ []) in
        rw (takes_last h ll _ c null is.ll_ne is.descriptor head_ne ec refl (omega (arith, long))) (
          rw
            (delete_last-heap h ll _ l c is.ll_ne is.descriptor last-walk el ec
              (ne_of_out l.node c [] nl))
            (finish h ll _ _ cut is descriptor (omega (arith, long, length-append init (l ∷ [])))
              last-Rest))
      where
        descriptor :
            cut.lists ll
            ≡ some (record {
              node_count = length (init ++ l ∷ []);
              head = first (init ++ l ∷ []) null;
            })
        descriptor = ground (
          arith,
          is.fits,
          first-append init (l ∷ c ∷ []) null,
          first-append init (l ∷ []) null,
          length-append init (l ∷ c ∷ []),
          length-append init (l ∷ []),
        )
