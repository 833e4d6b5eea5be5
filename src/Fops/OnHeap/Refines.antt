-- ===== src/Fops/OnHeap/Refines.antt =====
-- The driver's operations on the lists on the heap do to them what Table and Fops do.
use ribdriver.Base.{
  suc, ◌^◌, ◌<◌, ◌≡◌, refl, not, Option, some, List, ◌∷◌, ◌==◌, if◌then◌else◌, arith, length,
  Bool-cases, inl, inr,
}
use ribdriver.Memory.{Ptr, Cmd, null, Heap, done, pure, ◌>>=◌}
use ribdriver.Memory.Total
use ribdriver.Memory.Total.{Ends, ends}
use ribdriver.Base.Members.{present, erase, erase-absent}
use ribdriver.Table.{File, Table, add_rt_table_unique_poll_reader}
use ribdriver.Fops.Poll.{read_leave-lists}
use ribdriver.Fops.{Driver, recycle, read_leave}
use ribdriver.LinkedList.{
  singly_ll_add_node_by_val, singly_ll_delete_node_by_value, singly_ll_is_value_present,
}
use ribdriver.LinkedList.Find.{find, is_value_present-find}
use ribdriver.Fops.OnHeap.{
  sizeof_pointer, pointer_bytes, add_unique_poll_reader, move_poll_reader, take_over,
}
use ribdriver.Fops.OnHeap.Pointers.{IsPointer, length-pointer_bytes}
use ribdriver.Fops.OnHeap.Readers.{Readers, Readers-swap, holds-Wide, find-present}
use ribdriver.Memory.Unused.{Unused}
use ribdriver.Fops.OnHeap.Lists.{added, removed}
use ribdriver.Fops.OnHeap.TakeOver.{take_over-refines}

module _ {h : Heap} {poll_ll black_ll : Ptr} {ps bs : List File}
    (r : Readers h poll_ll black_ll ps bs) where
  is_present :
      (f : File)
      → IsPointer f
      → singly_ll_is_value_present poll_ll (pointer_bytes f) sizeof_pointer h
        ≡ done (find (pointer_bytes f) sizeof_pointer r.poll_cells) h
  is_present f pf =
      is_value_present-find (pointer_bytes f) sizeof_pointer (omega (arith, length-pointer_bytes f))
        r.poll_list (holds-Wide r.poll_cells ps r.poll_holds)

  found :
      (f : File)
      → IsPointer f
      → (find (pointer_bytes f) sizeof_pointer r.poll_cells == null) ≡ not (present f ps)
  found f pf = find-present h f r.poll_cells ps pf r.poll_pointers r.poll_list.chain r.poll_holds

  -- `add_rt_table_unique_poll_reader` on the heap, with unused addresses from `kmalloc`: no fault, and
  -- the list of polling readers becomes that of Table's function, with the black list as it was.
  pub add_unique_poll_reader-refines :
      (node block : Ptr) (f : File) (t : Table)
      → t.poll_readers_list ≡ ps
      → IsPointer f
      → Unused node block h
      → suc (length ps) < 2 ^ 32
      → Ends
          (λ u g.
            Readers g poll_ll black_ll (add_rt_table_unique_poll_reader f t).poll_readers_list bs)
          (add_unique_poll_reader node block poll_ll f h)
  unfolding add_unique_poll_reader add_rt_table_unique_poll_reader
  add_unique_poll_reader-refines node block f t same pf unused room =
      rw (same, is_present f pf, found f pf)
        (elim (Bool-cases (present f ps)) [
          | inl here ↦ rw here (ends r)
          | inr new ↦ rw new (Total.and_then (added r node block f pf unused room) λ rc g q. ends q)
        ])

  -- The reader's node goes, if there is one.
  without :
      (f : File)
      → IsPointer f
      → Ends
          (λ u g.
            Readers g poll_ll black_ll (erase f ps) bs
            × ((node block : Ptr) → Unused node block h → Unused node block g))
          ((if not (present f ps) then pure tt else (do
            _ ← singly_ll_delete_node_by_value poll_ll (pointer_bytes f) sizeof_pointer
            pure tt))
            h)
  without f pf = elim (Bool-cases (present f ps)) [
    | inl here ↦ rw here (Total.and_then (removed r f pf) λ n g q. ends q)
    | inr out ↦ rw (out, erase-absent f ps out) (ends (r, λ node block unused. unused))
  ]

  -- The end of a read on the heap, with unused addresses from `kmalloc`: no fault, and the two lists
  -- become those of Fops' function.
  pub move_poll_reader-refines :
      (node block : Ptr) (f : File) (d d' : Driver)
      → d.table.poll_readers_list ≡ ps
      → d.black_listed_poll_readers_list ≡ bs
      → read_leave f d ≡ some d'
      → IsPointer f
      → Unused node block h
      → suc (length bs) < 2 ^ 32
      → Ends
          (λ u g.
            Readers g poll_ll black_ll d'.table.poll_readers_list d'.black_listed_poll_readers_list)
          (move_poll_reader node block poll_ll black_ll f h)
  unfolding move_poll_reader
  move_poll_reader-refines node block f d d' same same' left pf unused room =
      let (polling, black) = read_leave-lists f d d' left in
      rw (polling, black, same, same', is_present f pf, found f pf)
        (Total.and_then (without f pf) λ u g (q, still).
          Total.and_then (Added-black q (still node block unused)) λ rc g' q'. ends q')
    where
      Added-black :
          {g : Heap}
          → Readers g poll_ll black_ll (erase f ps) bs
          → Unused node block g
          → Ends
              (λ rc g'. Readers g' poll_ll black_ll (erase f ps) (f ∷ bs))
              (singly_ll_add_node_by_val node block black_ll (pointer_bytes f) sizeof_pointer g)
      Added-black q free =
          Total.weaken (added (Readers-swap q) node block f pf free room)
            λ rc g' q'. Readers-swap q'

-- What the driver does with the two lists.
pub data ListOp : Type 0 where
  register : File → ListOp
  leave : File → ListOp
  recycles : ListOp

abbrev pub ArePointersOf : ListOp → Type 0
ArePointersOf (register f) = IsPointer f
ArePointersOf (leave f) = IsPointer f
ArePointersOf recycles = Unit

-- It, as Table and Fops say, and on the heap.
abbrev pub on_lists : ListOp → Driver → Option Driver
on_lists (register f) d = some (record d { table = add_rt_table_unique_poll_reader f d.table })
on_lists (leave f) d = read_leave f d
on_lists recycles d = some (recycle d)

abbrev pub on_heap : (node block poll_ll black_ll : Ptr) → ListOp → Cmd (Unit {0})
on_heap node block poll_ll black_ll (register f) = add_unique_poll_reader node block poll_ll f
on_heap node block poll_ll black_ll (leave f) = move_poll_reader node block poll_ll black_ll f
on_heap node block poll_ll black_ll recycles = take_over poll_ll black_ll

-- The lists of polling and of black-listed readers on the heap: when they hold what the driver's model
-- has, the files are 64-bit pointers, the addresses that `kmalloc` returns are unused, and neither list
-- is about to reach 2 ^ 32 readers, then registering a reader, the end of its read and the taking over
-- of the black list end without a fault, and the lists then hold what the model has.
pub on_heap-refines :
    (h : Heap) (node block poll_ll black_ll : Ptr) (op : ListOp) (d d' : Driver)
    → Readers h poll_ll black_ll d.table.poll_readers_list d.black_listed_poll_readers_list
    → ArePointersOf op
    → Unused node block h
    → suc (length d.table.poll_readers_list) < 2 ^ 32
    → suc (length d.black_listed_poll_readers_list) < 2 ^ 32
    → on_lists op d ≡ some d'
    → Ends
        (λ u g.
          Readers g poll_ll black_ll d'.table.poll_readers_list d'.black_listed_poll_readers_list)
        (on_heap node block poll_ll black_ll op h)
on_heap-refines h node block poll_ll black_ll (register f) d d' r pf unused room room' e =
    let same : record d { table = add_rt_table_unique_poll_reader f d.table } ≡ d' = cc in
    rw (← same) (add_unique_poll_reader-refines r node block f d.table refl pf unused room)
on_heap-refines h node block poll_ll black_ll (leave f) d d' r pf unused room room' e =
    move_poll_reader-refines r node block f d d' refl refl e pf unused room'
on_heap-refines h node block poll_ll black_ll recycles d d' r pf unused room room' e =
    let same : recycle d ≡ d' = cc in rw (← same) (take_over-refines r d refl refl)
