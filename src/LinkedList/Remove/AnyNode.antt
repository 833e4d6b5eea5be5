-- ===== src/LinkedList/Remove/AnyNode.antt =====
-- `singly_ll_remove_node` at a node of a list, and at an address that is none of the list's.
use ribdriver.Base.{
  ℕ, suc, zero, ◌-◌, ◌<◌, ◌^◌, ◌≡◌, refl, ◌≢◌, false, some, List, [], ◌∷◌, ◌++◌, arith, ◌==◌, dec32,
  length, length-append, if◌then◌else◌, eq_of_ne, eq_refl, sym, ◌∙◌, append_assoc,
}
use ribdriver.Memory.{Ptr, null, Heap, Ll, Node, done, update, load_ll, load_node}
use ribdriver.Memory.Total.{Ends, ends}
use ribdriver.Memory.Chain.{
  Cell, first, first-append, Chain, Chain-append, Chain-frame, Chain-split, IsList, Distinct,
  has_node, node_of, load_ll-IsList, load_node-Holds,
}
use ribdriver.Memory.Distinct.{has_node-append, Distinct-append, Distinct-split}
use ribdriver.LinkedList.{ll_success, ll_failure}
use ribdriver.LinkedList.Delete.{snoc, first-ne, ne_of_out}
use ribdriver.LinkedList.Remove.{
  remove_loop, singly_ll_remove_node, Removed, second, unlinked, remove_loop-walk, unlink-heap,
  remove_head-heap,
}

remove_node-walks :
    (h : Heap) (ll : Ptr) (l : Ll) (node : Ptr) (n : Node)
    → ll ≢ null
    → h.lists ll ≡ some l
    → l.head ≢ null
    → node ≢ null
    → l.head ≢ node
    → load_node l.head h ≡ done n h
    → singly_ll_remove_node ll node h ≡ remove_loop (l.node_count - 1) ll node l.head n.next h
unfolding singly_ll_remove_node load_ll
remove_node-walks h ll l node n ll_ne is head_ne node_ne ne at = ground (arith, is)

-- The descriptor after one node has gone.
headless_list :
    (h : Heap) (ll : Ptr) (n p q : ℕ)
    → suc n < 2 ^ 32
    → update
        (update h.lists ll (some (record { node_count = suc n; head = q })))
        ll
        (some (record { node_count = dec32 (suc n); head = q }))
        ll
      ≡ some (record { node_count = n; head = q })
headless_list h ll n p q fits = ground arith

unlinked_list :
    (h : Heap) (ll : Ptr) (m n p : ℕ)
    → m < 2 ^ 32
    → m ≡ suc n
    → update h.lists ll (some (record { node_count = dec32 m; head = p })) ll
      ≡ some (record { node_count = n; head = p })
unlinked_list h ll m n p fits one = ground arith

module _ (h : Heap) (ll : Ptr) where
  -- The first node.
  head-Removed :
      (c : Cell) (post : List Cell)
      → IsList h ll (c ∷ post)
      → Ends
          (λ rc g. (rc ≡ ll_success) × Removed h ll [] c post g)
          (singly_ll_remove_node ll c.node h)
  unfolding singly_ll_remove_node
  head-Removed c post is =
      let (ec, ch) = is.chain in
      let (nc, bc, d) = is.distinct in
      rw (eq_of_ne _ _ is.ll_ne, load_ll-IsList is)
        (rw (eq_of_ne _ _ ec.node_ne, eq_refl c.node)
          (rw (remove_head-heap h ll _ c (first post null) is.ll_ne is.descriptor ec) (
            ends (
              refl,
              record {
                list = record {
                  ll_ne = is.ll_ne;
                  descriptor =
                      headless_list h ll (length post) c.node (first post null)
                        (omega (arith, is.fits));
                  fits = omega (arith, is.fits);
                  chain =
                      Chain-frame {h = h} post null
                        (record { nodes = λ a i. ground arith; blocks = λ a i. refl }) ch;
                  distinct = d;
                };
                alone = ground arith;
                lists = λ a ne. ground arith;
                nodes = λ a o. ground arith;
                blocks = λ a. refl;
              },
            ))))

  -- A node behind another one.
  module _ (init : List Cell) (l c : Cell) (post : List Cell)
      (is : IsList h ll (init ++ l ∷ c ∷ post)) where
    abbrev left : Heap
    left =
        unlinked h ll
          (record {
            node_count = length (init ++ l ∷ c ∷ post);
            head = first (init ++ l ∷ c ∷ post) null;
          })
          l c (first post null)

    left-Chain : Chain left (init ++ l ∷ post) null
    left-Chain =
        let (cp, (el, (ec, cr))) = Chain-split h init (l ∷ c ∷ post) null is.chain in
        let (dp, (nl, bl, (nc, bc, dr)), apart) = Distinct-split init (l ∷ c ∷ post) is.distinct in
        Chain-append left init (l ∷ post) null
          (Chain-frame {h = h} init l.node
            (record { nodes = λ a i. ground (arith, apart.nodes a); blocks = λ a i. refl }) cp)
          (
            record {
              node_ne = el.node_ne;
              block_ne = el.block_ne;
              node_is = ground arith;
              block_is = el.block_is;
            },
            Chain-frame {h = h} post null
                (record { nodes = λ a i. ground arith; blocks = λ a i. refl }) cr,
          )

    left-Distinct : Distinct (init ++ l ∷ post)
    left-Distinct =
        let (dp, (nl, bl, (nc, bc, dr)), apart) = Distinct-split init (l ∷ c ∷ post) is.distinct in
        Distinct-append init (l ∷ post) dp (ground arith, ground arith, dr)
          (record {
            nodes = λ a i. ground (arith, apart.nodes a);
            blocks = λ a i. ground (arith, apart.blocks a);
          })

    walked :
        remove_loop
          (length (init ++ l ∷ c ∷ post) - 1)
          ll
          c.node
          (first init l.node)
          (second init l c.node)
          h
        ≡ done ll_success left
    walked =
        let (cp, (el, (ec, cr))) = Chain-split h init (l ∷ c ∷ post) null is.chain in
        let (dp, (nl, bl, (nc, bc, dr)), apart) = Distinct-split init (l ∷ c ∷ post) is.distinct in
        remove_loop-walk _ h ll init l c (first post null) cp el ec
          (apart.nodes c.node (ground arith)) (ne_of_out l.node c post nl)
          (omega (arith, length-append init (l ∷ c ∷ post)))
        ∙ unlink-heap h ll _ l c (first post null) is.ll_ne is.descriptor el ec
            (ne_of_out l.node c post nl)

    left-Removed : Removed h ll (init ++ l ∷ []) c post left
    left-Removed = record {
      list = rw append_assoc (record {
        ll_ne = is.ll_ne;
        descriptor = rw (← first-after) (
            unlinked_list h ll (length (init ++ l ∷ c ∷ post)) (length (init ++ l ∷ post)) _ is.fits
              (omega (arith, length-append init (l ∷ c ∷ post), length-append init (l ∷ post))));
        fits =
            omega
              (arith, is.fits, length-append init (l ∷ c ∷ post), length-append init (l ∷ post));
        chain = left-Chain;
        distinct = left-Distinct;
      });
      alone = ground arith;
      lists = λ a ne. ground arith;
      nodes = λ a o.
          ground
            (arith, has_node-append a (init ++ l ∷ []) (c ∷ post), has_node-append a init (l ∷ []));
      blocks = λ a. refl;
    }
      where
        first-after : first (init ++ l ∷ c ∷ post) null ≡ first (init ++ l ∷ post) null
        first-after =
            first-append init (l ∷ c ∷ post) null ∙ sym (first-append init (l ∷ post) null)

    at_head : first (init ++ l ∷ c ∷ post) null ≡ first init l.node
    at_head = first-append init (l ∷ c ∷ post) null

    after_head :
        (n : Node) × (load_node (first init l.node) h ≡ done n h) × (n.next ≡ second init l c.node)
    after_head = successor init (Chain-split h init (l ∷ c ∷ post) null is.chain)
      where
        successor :
            (init : List Cell)
            → Chain h init l.node × Chain h (l ∷ c ∷ post) null
            → (n : Node) × (load_node (first init l.node) h ≡ done n h)
              × (n.next ≡ second init l c.node)
        successor [] (_, (el, _)) = (node_of l c.node, load_node-Holds el, refl)
        successor (x ∷ xs) ((ex, _), _) = (node_of x (first xs l.node), load_node-Holds ex, refl)

    inner-Removed :
        Ends
          (λ rc g. (rc ≡ ll_success) × Removed h ll (init ++ l ∷ []) c post g)
          (singly_ll_remove_node ll c.node h)
    inner-Removed =
        let (cp, (el, (ec, cr))) = Chain-split h init (l ∷ c ∷ post) null is.chain in
        let (dp, (nl, bl, dc), apart) = Distinct-split init (l ∷ c ∷ post) is.distinct in
        let (n, at, next) = after_head in
        let out = apart.nodes c.node (ground arith) in
        rw
          (remove_node-walks h ll _ c.node n is.ll_ne is.descriptor
            (first-ne h init l (c ∷ post) null is.chain) ec.node_ne
            (rw at_head (other init out (ne_of_out l.node c post nl))) (rw at_head at))
          (rw (at_head, next, walked) (ends (refl, left-Removed)))
      where
        other :
            (xs : List Cell)
            → has_node c.node xs ≡ false
            → l.node ≢ c.node
            → first xs l.node ≢ c.node
        other [] out ne = ne
        other (x ∷ xs) out ne = ground arith

behind-Removed :
    {h : Heap} {ll : Ptr} (pre init : List Cell) (l c : Cell) (post : List Cell)
    → pre ≡ init ++ l ∷ []
    → IsList h ll (pre ++ c ∷ post)
    → Ends
        (λ rc g. (rc ≡ ll_success) × Removed h ll pre c post g)
        (singly_ll_remove_node ll c.node h)
behind-Removed {h} {ll} pre init l c post e is =
    rw e (inner-Removed h ll init l c post (rw (e, append_assoc) at is))

-- For a node anywhere in a list, `singly_ll_remove_node` returns LL_SUCCESS and takes exactly that
-- node out of the list; it keeps its data and its next pointer is NULL. No block is written or
-- freed, and nothing outside the list is touched.
pub remove_node-Removed :
    {h : Heap} {ll : Ptr} (pre : List Cell) (c : Cell) (post : List Cell)
    → IsList h ll (pre ++ c ∷ post)
    → Ends
        (λ rc g. (rc ≡ ll_success) × Removed h ll pre c post g)
        (singly_ll_remove_node ll c.node h)
remove_node-Removed {h} {ll} [] c post is = head-Removed h ll c post is
remove_node-Removed {h} {ll} (x ∷ pre) c post is =
    let (init, l, e) = snoc x pre in behind-Removed (x ∷ pre) init l c post e is

remove_loop-absent :
    (k : ℕ) (h : Heap) (ll node prev : Ptr) (xs : List Cell)
    → Chain h xs null
    → has_node node xs ≡ false
    → length xs ≡ k
    → remove_loop k ll node prev (first xs null) h ≡ done ll_failure h
unfolding remove_loop
remove_loop-absent zero h ll node prev xs ch out fuel = refl
remove_loop-absent (suc k) h ll node prev [] ch out fuel = absurd (omega arith)
remove_loop-absent (suc k) h ll node prev (c ∷ xs) (e, ch) out fuel =
    ground (arith, load_node-Holds e, remove_loop-absent k h ll node c.node xs ch)

-- An address that is none of the list's, or NULL, is refused with LL_FAILURE, but for an empty
-- list, where the result is LL_SUCCESS; nothing changes.
pub remove_node-absent :
    {h : Heap} {ll : Ptr} (xs : List Cell) (node : Ptr)
    → IsList h ll xs
    → has_node node xs ≡ false
    → singly_ll_remove_node ll node h ≡ done (if length xs == 0 then ll_success else ll_failure) h
unfolding singly_ll_remove_node
remove_node-absent {h} {ll} [] node is out = rw (eq_of_ne _ _ is.ll_ne, load_ll-IsList is)
remove_node-absent {h} {ll} (c ∷ xs) node is out =
    rw (eq_of_ne _ _ is.ll_ne, load_ll-IsList is, eq_of_ne _ _ is.chain.0.node_ne)
      (ground (
        arith,
        load_node-Holds is.chain.0,
        remove_loop-absent (length xs) h ll node c.node xs is.chain.1,
      ))
