-- ===== src/Info/Tests.antt =====
-- The information on a table with one entry and nothing pending.
use ribdriver.Base.{◌≡◌, ◌≢◌, refl, true, none, some, [], ◌∷◌, arith}
use ribdriver.Memory.{Ptr, null, Heap, update, done}
use ribdriver.Memory.Chain.{Cell, IsList, node_of}
use ribdriver.Info.{Lists, RtInfo, get_rt_info, get_rt_info-counts}

abbrev entry : Cell
entry = record { node = 10; block = 20; size = 2; bytes = 1 ∷ 2 ∷ [] }

abbrev heap : Heap
heap = record {
  lists =
      update
        (update
          (update (update (λ _. none) 4 (some (record { node_count = 0; head = null }))) 3
            (some (record { node_count = 0; head = null })))
          2 (some (record { node_count = 0; head = null })))
        1 (some (record { node_count = 1; head = 10 }));
  nodes = update (λ _. none) 10 (some (node_of entry null));
  blocks = update (λ _. none) 20 (some (1 ∷ 2 ∷ []));
}

abbrev lists : Lists
lists = record {
  rt = 1;
  rt_change_list = 2;
  poll_readers_list = 3;
  black_listed_poll_readers_list = 4;
}

table-IsList : IsList heap 1 (entry ∷ [])
table-IsList = record {
  ll_ne = ground arith;
  descriptor = refl;
  fits = omega arith;
  chain = (
    record { node_ne = ground arith; block_ne = ground arith; node_is = refl; block_is = refl },
    tt,
  );
  distinct = (refl, refl, tt);
}

empty-IsList :
    (ll : Ptr)
    → ll ≢ null
    → heap.lists ll ≡ some (record { node_count = 0; head = null })
    → IsList heap ll []
empty-IsList ll ne at = record {
  ll_ne = ne;
  descriptor = at;
  fits = omega arith;
  chain = tt;
  distinct = tt;
}

abbrev info : RtInfo
info = record {
  node_count = 9;
  actual_node_count = 9;
  no_of_pending_updates = 9;
  no_of_polling_readers = 9;
  no_of_blacklisted_polling_readers = 9;
}

get_rt_info-counts_example :
    get_rt_info lists true info heap
    ≡ done
        (record {
          node_count = 1;
          actual_node_count = 1;
          no_of_pending_updates = 0;
          no_of_polling_readers = 0;
          no_of_blacklisted_polling_readers = 0;
        })
        heap
get_rt_info-counts_example =
    get_rt_info-counts lists table-IsList (empty-IsList 2 (ground arith) refl)
      (empty-IsList 4 (ground arith) refl) info (empty-IsList 3 (ground arith) refl)
