-- ===== src/Fops/OnHeap/TakeOver.antt =====
-- One list on the heap takes over the nodes of the other.
use ribdriver.Base.{◌≡◌, refl, ◌≢◌, some, List, [], ◌==◌, arith, length, Bool-cases, inl, inr}
use ribdriver.Memory.{Ptr, null, Heap, update, load_ll, store_ll, done}
use ribdriver.Memory.Total.{Ends, ends}
use ribdriver.Memory.Chain.{Cell, Agree, first, Chain-frame}
use ribdriver.Table.{File}
use ribdriver.Fops.{Driver, recycle}
use ribdriver.Fops.OnHeap.{take_over}
use ribdriver.Fops.OnHeap.Readers.{Readers, length-holds}

module _ {h : Heap} {poll_ll black_ll : Ptr} {ps bs : List File}
    (r : Readers h poll_ll black_ll ps bs) where
  -- The heap after the nodes have changed lists.
  abbrev handed_over : Heap
  handed_over = record h {
    lists =
        update
          (update h.lists poll_ll
            (some (record { node_count = length r.black_cells; head = first r.black_cells null })))
          black_ll (some (record { node_count = 0; head = null }));
  }

  same_nodes : (xs : List Cell) → Agree xs h handed_over
  same_nodes xs = record { nodes = λ a i. refl; blocks = λ a i. refl }

  handed_over-Readers : Readers handed_over poll_ll black_ll bs []
  handed_over-Readers = record {
    poll_cells = r.black_cells;
    black_cells = [];
    poll_list = record {
      ll_ne = r.poll_list.ll_ne;
      descriptor = ground (arith, r.two);
      fits = r.black_list.fits;
      chain = Chain-frame r.black_cells null (same_nodes r.black_cells) r.black_list.chain;
      distinct = r.black_list.distinct;
    };
    black_list = record {
      ll_ne = r.black_list.ll_ne;
      descriptor = ground arith;
      fits = omega arith;
      chain = tt;
      distinct = tt;
    };
    poll_holds = r.black_holds;
    black_holds = refl;
    poll_pointers = r.black_pointers;
    black_pointers = tt;
    apart = record { nodes = λ a i. cc; blocks = λ a i. cc };
    two = r.two;
  }

  takes_over : length ps ≡ 0 → take_over poll_ll black_ll h ≡ done tt handed_over
  unfolding take_over store_ll load_ll
  takes_over none_left =
      let count : length r.poll_cells ≡ length ps = length-holds r.poll_cells ps r.poll_holds in
      ground (
        arith, r.poll_list.descriptor, r.black_list.descriptor, r.poll_list.ll_ne,
        r.black_list.ll_ne, r.two,
      )

  stays : length ps ≢ 0 → take_over poll_ll black_ll h ≡ done tt h
  unfolding take_over load_ll
  stays some_left =
      let count : length r.poll_cells ≡ length ps = length-holds r.poll_cells ps r.poll_holds in
      ground (arith, r.poll_list.descriptor, r.poll_list.ll_ne)

  -- The taking over on the heap: no fault, and the two lists become those of Fops' function, whether the
  -- list of polling readers is empty or not.
  pub take_over-refines :
      (d : Driver)
      → d.table.poll_readers_list ≡ ps
      → d.black_listed_poll_readers_list ≡ bs
      → Ends
          (λ u g.
            Readers g poll_ll black_ll
              (recycle d).table.poll_readers_list
              (recycle d).black_listed_poll_readers_list)
          (take_over poll_ll black_ll h)
  unfolding recycle
  take_over-refines d same same' =
      rw (same, same')
        (elim (Bool-cases (length ps == 0)) [
          | inl free ↦ rw (takes_over (ground arith), free) (ends handed_over-Readers)
          | inr busy ↦ rw (stays (ground arith), busy) (ends r)
        ])
