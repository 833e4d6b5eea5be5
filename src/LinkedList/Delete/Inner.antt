-- ===== src/LinkedList/Delete/Inner.antt =====
-- Deleting a node that has a successor: the successor's data moves into it, and the successor goes.
use ribdriver.Base.{◌≡◌, refl, some, List, [], ◌∷◌, ◌++◌, arith, length, length-append}
use ribdriver.Memory.{Ptr, null, Heap}
use ribdriver.Memory.Total.{Ends}
use ribdriver.Memory.Chain.{Cell, first, Chain-split, Chain-append, Chain-frame, IsList}
use ribdriver.Memory.Distinct.{has_node-append, has_block-append, Distinct-split, Distinct-append}
use ribdriver.LinkedList.{ll_success, singly_ll_delete_node}
use ribdriver.LinkedList.Unlink.{merged, takes_inner, inner_heap, delete_inner-heap}
use ribdriver.LinkedList.Delete.Shape.{Shrunk, first-ne, ne_of_out, Rest, finish}

first-less :
    (pre : List Cell) (c d : Cell) (rest : List Cell) (stop : Ptr)
    → first (pre ++ c ∷ d ∷ rest) stop ≡ first (pre ++ merged c d ∷ rest) stop
first-less [] c d rest stop = refl
first-less (x ∷ pre) c d rest stop = refl

module _ (h : Heap) (ll : Ptr) where
  module _ (pre : List Cell) (c d : Cell) (rest : List Cell)
      (is : IsList h ll (pre ++ c ∷ d ∷ rest)) where
    abbrev left : Heap
    left =
        inner_heap h ll
          (record {
            node_count = length (pre ++ c ∷ d ∷ rest);
            head = first (pre ++ c ∷ d ∷ rest) null;
          })
          c d (first rest null)

    inner-Rest : Rest h ll (pre ++ c ∷ d ∷ rest) (pre ++ merged c d ∷ rest) left
    inner-Rest =
        let (cp, (ec, (ed, cr))) = Chain-split h pre (c ∷ d ∷ rest) null is.chain in
        let (dp, (nc, bc, (nd, bd, dr)), apart) = Distinct-split pre (c ∷ d ∷ rest) is.distinct in
        record {
          chain =
              Chain-append left pre (merged c d ∷ rest) null
                (Chain-frame pre c.node
                  (record {
                    nodes = λ a i. ground (arith, apart.nodes a);
                    blocks = λ a i. ground (arith, apart.blocks a);
                  })
                  cp)
                (
                  record {
                    node_ne = ec.node_ne;
                    block_ne = ed.block_ne;
                    node_is = ground arith;
                    block_is = ground (arith, ed.block_is);
                  },
                  Chain-frame rest null
                      (record { nodes = λ a i. ground arith; blocks = λ a i. ground arith }) cr,
                );
          distinct =
              Distinct-append pre (merged c d ∷ rest) dp (ground arith, ground arith, dr)
                (record {
                  nodes = λ a i. ground (arith, apart.nodes a);
                  blocks = λ a i. ground (arith, apart.blocks a);
                });
          untouched = record {
            lists = λ a ne. ground arith;
            nodes = λ a o. ground (arith, has_node-append a pre (c ∷ d ∷ rest));
            blocks = λ a o. ground (arith, has_block-append a pre (c ∷ d ∷ rest));
          };
          freed = record {
            nodes = λ a i o. ground (
              arith,
              has_node-append a pre (c ∷ d ∷ rest),
              has_node-append a pre (merged c d ∷ rest),
            );
            blocks = λ a i o. ground (
              arith,
              has_block-append a pre (c ∷ d ∷ rest),
              has_block-append a pre (merged c d ∷ rest),
            );
          };
        }

    pub inner-Shrunk :
        Ends
          (λ rc g.
            (rc ≡ ll_success) × Shrunk h ll (pre ++ c ∷ d ∷ rest) (pre ++ merged c d ∷ rest) g)
          (singly_ll_delete_node ll c.node h)
    inner-Shrunk =
        let (cp, (ec, (ed, cr))) = Chain-split h pre (c ∷ d ∷ rest) null is.chain in
        let (dp, (nc, bc, (nd, bd, dr)), apart) = Distinct-split pre (c ∷ d ∷ rest) is.distinct in
        let head_ne = first-ne h pre c (d ∷ rest) null is.chain in
        rw (takes_inner h ll _ c d.node is.ll_ne is.descriptor head_ne ec ed.node_ne) (
          rw
            (delete_inner-heap h ll _ c d (first rest null) is.ll_ne is.descriptor ec ed
              (ne_of_out c.node d rest nc))
            (finish h ll _ _ left is descriptor
              (omega
                (arith, length-append pre (c ∷ d ∷ rest), length-append pre (merged c d ∷ rest)))
              inner-Rest))
      where
        descriptor :
            left.lists ll
            ≡ some (record {
              node_count = length (pre ++ merged c d ∷ rest);
              head = first (pre ++ merged c d ∷ rest) null;
            })
        descriptor = ground (
          arith,
          first-less pre c d rest null,
          is.fits,
          length-append pre (c ∷ d ∷ rest),
          length-append pre (merged c d ∷ rest),
        )
