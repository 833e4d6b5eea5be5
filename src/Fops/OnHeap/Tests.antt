-- ===== src/Fops/OnHeap/Tests.antt =====
-- One polling reader, on the heap and in the model, on which the refinement is applied.
use ribdriver.Base.{refl, none, some, [], ◌∷◌, arith}
use ribdriver.Memory.{null, Heap, update}
use ribdriver.Memory.Total.{Ends}
use ribdriver.Memory.Chain.{Cell, node_of}
use ribdriver.Table.{live, freed, rt_empty_change_list}
use ribdriver.Fops.{Driver, read_leave, kfree_vector}
use ribdriver.Fops.OnHeap.{pointer_bytes}
use ribdriver.Fops.OnHeap.Pointers.{IsPointer}
use ribdriver.Fops.OnHeap.Readers.{Readers}
use ribdriver.Fops.OnHeap.Refines.{leave, on_heap, on_heap-refines}

-- The reader 3 is registered, and has read.
abbrev driver : Driver
driver = record {
  table = record { rt = []; rt_change_list = []; poll_readers_list = 3 ∷ []; memory = λ _. none };
  rt_update_vector =
      live (record { op_code = 1; entry = record { dst_ip = []; nxt_hop_ip = []; oif = [] } } ∷ []);
  rt_update_vector_count = 0;
  black_listed_poll_readers_list = [];
  rw_readers = 1;
}

abbrev moved : Driver
moved = record driver {
  table = record { rt = []; rt_change_list = []; poll_readers_list = []; memory = λ _. none };
  rt_update_vector = freed;
  black_listed_poll_readers_list = 3 ∷ [];
}

abbrev cell : Cell
cell = record { node = 10; block = 20; size = 8; bytes = pointer_bytes 3 }

abbrev heap : Heap
heap = record {
  lists =
      update (update (λ _. none) 2 (some (record { node_count = 0; head = null }))) 1
        (some (record { node_count = 1; head = 10 }));
  nodes = update (λ _. none) 10 (some (node_of cell null));
  blocks = update (λ _. none) 20 (some (pointer_bytes 3));
}

three-IsPointer : IsPointer 3
unfolding IsPointer
three-IsPointer = refl

heap-Readers : Readers heap 1 2 (3 ∷ []) []
heap-Readers = record {
  poll_cells = cell ∷ [];
  black_cells = [];
  poll_list = record {
    ll_ne = ground arith;
    descriptor = refl;
    fits = omega arith;
    chain = (
      record { node_ne = ground arith; block_ne = ground arith; node_is = refl; block_is = refl },
      tt,
    );
    distinct = (refl, refl, tt);
  };
  black_list = record {
    ll_ne = ground arith;
    descriptor = refl;
    fits = omega arith;
    chain = tt;
    distinct = tt;
  };
  poll_holds = refl;
  black_holds = refl;
  poll_pointers = (three-IsPointer, tt);
  black_pointers = tt;
  apart = record { nodes = λ a i. cc; blocks = λ a i. cc };
  two = ground arith;
}

on_heap-refines_example : Ends (λ u g. Readers g 1 2 [] (3 ∷ [])) (on_heap 11 21 1 2 (leave 3) heap)
unfolding read_leave kfree_vector rt_empty_change_list
on_heap-refines_example =
    on_heap-refines heap 11 21 1 2 (leave 3) driver moved heap-Readers three-IsPointer
      (record {
        node_ne = ground arith;
        block_ne = ground arith;
        node_new = refl;
        block_new = refl;
      })
      (omega arith) (omega arith) refl
