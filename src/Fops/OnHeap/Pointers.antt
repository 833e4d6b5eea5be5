-- ===== src/Fops/OnHeap/Pointers.antt =====
-- A pointer is told from another by its bytes.
use ribdriver.Base.{ℕ, ◌≡◌, refl, ◌∙◌, ◌==◌, arith, length, take}
use ribdriver.Memory.Encoding.{little_endian, Fits, same-little_endian, length-little_endian}
use ribdriver.Table.{File}
use ribdriver.LinkedList.Find.{matches}
use ribdriver.Fops.OnHeap.{sizeof_pointer, pointer_bytes}

==-comm : (m n : ℕ) → (m == n) ≡ (n == m)
==-comm m n = ground arith

-- An address of 64 bits.
unfoldable pub IsPointer : File → Type 0
IsPointer f = Fits sizeof_pointer f

pub matches-pointer_bytes :
    (f g : File)
    → IsPointer f
    → IsPointer g
    → matches (pointer_bytes f) sizeof_pointer (pointer_bytes g) ≡ (f == g)
unfolding pointer_bytes IsPointer
matches-pointer_bytes f g pf pg = same-little_endian sizeof_pointer g f pg pf ∙ ==-comm g f

pub length-pointer_bytes : (f : File) → length (pointer_bytes f) ≡ sizeof_pointer
unfolding pointer_bytes
length-pointer_bytes f = length-little_endian sizeof_pointer f

pub take-pointer_bytes : (f : File) → take sizeof_pointer (pointer_bytes f) ≡ pointer_bytes f
unfolding pointer_bytes little_endian
take-pointer_bytes f = refl
