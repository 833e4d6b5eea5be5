-- ===== src/Fops/OnHeap/Lists.antt =====
-- A file is added to one of the lists on the heap, or taken off one.
use ribdriver.Base.{suc, ◌^◌, ◌<◌, sym, ap, ◌∙◌, List, ◌∷◌, arith, length, take}
use ribdriver.Memory.{Ptr, null, Heap}
use ribdriver.Memory.Total
use ribdriver.Memory.Total.{Ends, ends}
use ribdriver.Memory.Chain.{Cell, IsList-frame, unused_node, unused_block}
use ribdriver.Memory.Unused.{Unused, Unused-frame, Disjoint-new}
use ribdriver.Base.Members.{erase}
use ribdriver.Table.{File}
use ribdriver.LinkedList.{singly_ll_add_node_by_val, singly_ll_delete_node_by_value}
use ribdriver.LinkedList.Add.{add_node_by_val-IsList}
use ribdriver.LinkedList.Find
use ribdriver.LinkedList.Find.{find, Erased, delete_node_by_value-Erased, is_value_present-find}
use ribdriver.Fops.OnHeap.{sizeof_pointer, pointer_bytes}
use ribdriver.Fops.OnHeap.Pointers.{IsPointer, length-pointer_bytes, take-pointer_bytes}
use ribdriver.Fops.OnHeap.Readers.{Readers, length-holds, holds-Wide, erase-map, erase-ArePointers}

module _ {h : Heap} {poll_ll black_ll : Ptr} {ps bs : List File}
    (r : Readers h poll_ll black_ll ps bs) where
  -- A file is put in front of the first list.
  pub added :
      (node block : Ptr) (f : File)
      → IsPointer f
      → Unused node block h
      → suc (length ps) < 2 ^ 32
      → Ends
          (λ rc g. Readers g poll_ll black_ll (f ∷ ps) bs)
          (singly_ll_add_node_by_val node block poll_ll (pointer_bytes f) sizeof_pointer h)
  added node block f pf unused room =
      Total.weaken
        (add_node_by_val-IsList node block (pointer_bytes f) sizeof_pointer r.poll_list
          (omega (arith, length-holds r.poll_cells ps r.poll_holds)) unused.node_ne unused.block_ne
          unused.node_new unused.block_new (omega (arith, length-pointer_bytes f)))
        λ rc g (ok, list, u).
          let c : Cell = record {
            node = node;
            block = block;
            size = sizeof_pointer;
            bytes = take sizeof_pointer (pointer_bytes f);
          } in
          let out_node = unused_node h node r.black_cells null r.black_list.chain unused.node_new in
          let out_block =
            unused_block h block r.black_cells null r.black_list.chain unused.block_new in
          let new = Disjoint-new c r.black_cells out_node out_block in
          record {
            poll_cells = c ∷ r.poll_cells;
            black_cells = r.black_cells;
            poll_list = list;
            black_list = IsList-frame u (λ e. r.two (sym e)) new r.black_list;
            poll_holds = λ i. take-pointer_bytes f i ∷ r.poll_holds i;
            black_holds = r.black_holds;
            poll_pointers = (pf, r.poll_pointers);
            black_pointers = r.black_pointers;
            apart = record {
              nodes = λ a i. ground (arith, r.apart.nodes a, new.nodes a);
              blocks = λ a i. ground (arith, r.apart.blocks a, new.blocks a);
            };
            two = r.two;
          }

  -- The first list loses a file; what was unused still is.
  pub removed :
      (f : File)
      → IsPointer f
      → Ends
          (λ n g.
            Readers g poll_ll black_ll (erase f ps) bs
            × ((node block : Ptr) → Unused node block h → Unused node block g))
          (singly_ll_delete_node_by_value poll_ll (pointer_bytes f) sizeof_pointer h)
  removed f pf =
      Total.weaken
        (delete_node_by_value-Erased (pointer_bytes f) sizeof_pointer
          (omega (arith, length-pointer_bytes f)) r.poll_list
          (holds-Wide r.poll_cells ps r.poll_holds))
        λ n g e. (
          record {
            poll_cells = e.cells;
            black_cells = r.black_cells;
            poll_list = e.shrunk.list;
            black_list = IsList-frame e.shrunk.untouched (λ q. r.two (sym q)) r.apart r.black_list;
            poll_holds =
                e.erased
                ∙ ap (Find.erase (pointer_bytes f) sizeof_pointer) r.poll_holds
                ∙ erase-map f ps pf r.poll_pointers;
            black_holds = r.black_holds;
            poll_pointers = erase-ArePointers f ps r.poll_pointers;
            black_pointers = r.black_pointers;
            apart = record {
              nodes = λ a i. ground (arith, r.apart.nodes a, e.within.nodes a);
              blocks = λ a i. ground (arith, r.apart.blocks a, e.within.blocks a);
            };
            two = r.two;
          },
          λ node block unused.
              Unused-frame node block r.poll_cells e.shrunk.untouched
                (unused_node h node r.poll_cells null r.poll_list.chain unused.node_new)
                (unused_block h block r.poll_cells null r.poll_list.chain unused.block_new) unused,
        )
