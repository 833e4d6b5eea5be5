-- ===== src/Fops/OnHeap/Readers.antt =====
-- What the two lists on the heap stand for, and the list operations on them.
use ribdriver.Base.{suc, ◌≡◌, refl, sym, ap, ◌≢◌, not, List, [], ◌∷◌, map, ◌==◌, arith, length}
use ribdriver.Memory.{Ptr, null, Heap}
use ribdriver.Memory.Chain.{Cell, IsList, Chain, values, Disjoint}
use ribdriver.Base.Members
use ribdriver.Base.Members.{present}
use ribdriver.Table.{File}
use ribdriver.LinkedList.Find
use ribdriver.LinkedList.Find.{
  Wide, Within, find, Erased, delete_node_by_value-Erased, is_value_present-find,
}
use ribdriver.Fops.OnHeap.{sizeof_pointer, pointer_bytes}
use ribdriver.Fops.OnHeap.Pointers.{IsPointer, matches-pointer_bytes, length-pointer_bytes}

abbrev pub ArePointers : List File → Type 0
ArePointers [] = Unit
ArePointers (f ∷ fs) = IsPointer f × ArePointers fs

-- The list at `poll_ll` holds the files `ps`, and that at `black_ll` the files `bs`.
pub record Readers (h : Heap) (poll_ll black_ll : Ptr) (ps bs : List File) : Type 0 where
  pub poll_cells : List Cell
  pub black_cells : List Cell
  pub poll_list : IsList h poll_ll poll_cells
  pub black_list : IsList h black_ll black_cells
  pub poll_holds : values poll_cells ≡ map pointer_bytes ps
  pub black_holds : values black_cells ≡ map pointer_bytes bs
  pub poll_pointers : ArePointers ps
  pub black_pointers : ArePointers bs
  pub apart : Disjoint poll_cells black_cells
  pub two : poll_ll ≢ black_ll

Disjoint-sym : (xs ys : List Cell) → Disjoint xs ys → Disjoint ys xs
Disjoint-sym xs ys d = record {
  nodes = λ a i. ground (arith, d.nodes a);
  blocks = λ a i. ground (arith, d.blocks a);
}

pub Readers-swap :
    {h : Heap} {poll_ll black_ll : Ptr} {ps bs : List File}
    → Readers h poll_ll black_ll ps bs
    → Readers h black_ll poll_ll bs ps
Readers-swap r = record {
  poll_cells = r.black_cells;
  black_cells = r.poll_cells;
  poll_list = r.black_list;
  black_list = r.poll_list;
  poll_holds = r.black_holds;
  black_holds = r.poll_holds;
  poll_pointers = r.black_pointers;
  black_pointers = r.poll_pointers;
  apart = Disjoint-sym r.poll_cells r.black_cells r.apart;
  two = λ e. r.two (sym e);
}

pub length-holds :
    (xs : List Cell) (fs : List File) → values xs ≡ map pointer_bytes fs → length xs ≡ length fs
length-holds [] [] e = refl
length-holds [] (f ∷ fs) e = cc
length-holds (c ∷ xs) [] e = cc
length-holds (c ∷ xs) (f ∷ fs) e = ap suc (length-holds xs fs (cc))

pub holds-Wide :
    (xs : List Cell) (fs : List File) → values xs ≡ map pointer_bytes fs → Wide sizeof_pointer xs
holds-Wide [] fs e = tt
holds-Wide (c ∷ xs) [] e = cc
holds-Wide (c ∷ xs) (f ∷ fs) e =
    let same : c.bytes ≡ pointer_bytes f = cc in
    (rw same (omega (arith, length-pointer_bytes f)), holds-Wide xs fs (cc))

-- A file's node is found if the file is on the list.
pub find-present :
    (h : Heap) (f : File) (xs : List Cell) (fs : List File)
    → IsPointer f
    → ArePointers fs
    → Chain h xs null
    → values xs ≡ map pointer_bytes fs
    → (find (pointer_bytes f) sizeof_pointer xs == null) ≡ not (present f fs)
find-present h f [] [] pf ok ch e = refl
find-present h f [] (g ∷ fs) pf ok ch e = cc
find-present h f (c ∷ xs) [] pf ok ch e = cc
find-present h f (c ∷ xs) (g ∷ fs) pf (pg, ok) (here, ch) e =
    let same : c.bytes ≡ pointer_bytes g = cc in
    rw (same, matches-pointer_bytes f g pf pg)
      (ground (arith, here.node_ne, find-present h f xs fs pf ok ch (cc)))

pub erase-map :
    (f : File) (fs : List File)
    → IsPointer f
    → ArePointers fs
    → Find.erase (pointer_bytes f) sizeof_pointer (map pointer_bytes fs)
      ≡ map pointer_bytes (Members.erase f fs)
erase-map f [] pf ok = refl
erase-map f (g ∷ fs) pf (pg, ok) =
    rw (matches-pointer_bytes f g pf pg) (ground (arith, erase-map f fs pf ok))

pub erase-ArePointers :
    (f : File) (fs : List File) → ArePointers fs → ArePointers (Members.erase f fs)
erase-ArePointers f [] ok = tt
erase-ArePointers f (g ∷ fs) (pg, ok) = ground (arith, erase-ArePointers f fs ok)
