-- ===== src/Table/OnHeap/Stored.antt =====
-- The table on the heap: its two lists, and a block for each entry that is live in the model.
use ribdriver.Base.{◌≡◌, ◌≢◌, refl, some, List, [], ◌∷◌, map, arith, ap, suc, length}
use ribdriver.Memory.{Ptr, null, Heap, load_block, done}
use ribdriver.Memory.Chain.{Cell, IsList, values, Disjoint}
use ribdriver.Table.{Layout, Entry, Preserved, Table}
use ribdriver.Table.OnHeap.{entry_bytes, preserved_bytes}
use ribdriver.Table.OnHeap.Encoded.{IsEntry, IsPreserved}

abbrev pub ArePreserved : List Preserved → Type 0
ArePreserved [] = Unit
ArePreserved (c ∷ cs) = IsPreserved c × ArePreserved cs

abbrev pub blocks_of : List Cell → List Ptr
blocks_of xs = map (λ (c : Cell). c.block) xs

-- At `p` there is a block with the entry's bytes.
pub record IsAt (h : Heap) (p : Ptr) ⦃lay : Layout⦄ (e : Entry) : Type 0 where
  pub not_null : p ≢ null
  pub block_is : h.blocks p ≡ some (entry_bytes e)
  pub whole : IsEntry e

-- The list at `rt_ll` has the table's blocks, and that at `change_ll` its preserved updates.
pub record Stores (h : Heap) (rt_ll change_ll : Ptr) ⦃lay : Layout⦄ (t : Table) : Type 0 where
  pub rt_cells : List Cell
  pub change_cells : List Cell
  pub rt_list : IsList h rt_ll rt_cells
  pub change_list : IsList h change_ll change_cells
  pub rt_blocks : blocks_of rt_cells ≡ t.rt
  pub changes : values change_cells ≡ map preserved_bytes t.rt_change_list
  pub pointers : ArePreserved t.rt_change_list
  pub entries : (p : Ptr) (e : Entry) → t.memory p ≡ some e → IsAt h p e
  pub apart : Disjoint rt_cells change_cells
  pub two : rt_ll ≢ change_ll

pub load_block-IsAt :
    {h : Heap} {p : Ptr} ⦃lay : Layout⦄ {e : Entry}
    → IsAt h p e
    → load_block p h ≡ done (entry_bytes e) h
unfolding load_block
load_block-IsAt is = ground (arith, is.block_is, is.not_null)

pub length-blocks_of : (xs : List Cell) (ps : List Ptr) → blocks_of xs ≡ ps → length xs ≡ length ps
length-blocks_of [] [] e = refl
length-blocks_of [] (p ∷ ps) e = cc
length-blocks_of (x ∷ xs) [] e = cc
length-blocks_of (x ∷ xs) (p ∷ ps) e = ap suc (length-blocks_of xs ps (cc))

pub length-changes :
    (xs : List Cell) (cs : List Preserved)
    → values xs ≡ map preserved_bytes cs
    → length xs ≡ length cs
length-changes [] [] e = refl
length-changes [] (c ∷ cs) e = cc
length-changes (x ∷ xs) [] e = cc
length-changes (x ∷ xs) (c ∷ cs) e = ap suc (length-changes xs cs (cc))
