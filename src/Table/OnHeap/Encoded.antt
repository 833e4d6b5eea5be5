-- ===== src/Table/OnHeap/Encoded.antt =====
-- What the bytes of an entry and of a preserved update hold.
use ribdriver.Base.{ℕ, zero, suc, ◌≤◌, ◌≡◌, refl, ap, List, [], ◌∷◌, ◌++◌, arith, length, take}
use ribdriver.Memory.Encoding.{little_endian, Fits, from_little_endian-little_endian}
use ribdriver.Table.{Layout, Entry, sizeof_entry, Preserved}
use ribdriver.Table.OnHeap.{entry_bytes, sizeof_preserved, preserved_bytes, entry_pointer}

-- The entry's arrays have their sizes.
unfoldable pub IsEntry : ⦃lay : Layout⦄ → Entry → Type 0
IsEntry e = (length e.dst_ip ≡ 16) × (length (entry_bytes e) ≡ sizeof_entry)

-- The pointer has 64 bits.
unfoldable pub IsPreserved : Preserved → Type 0
IsPreserved c = Fits 8 c.entry

take-length : {A : Type 0} (n : ℕ) (xs : List A) → length xs ≡ n → take n xs ≡ xs
take-length zero [] e = refl
take-length zero (x ∷ xs) e = absurd (omega arith)
take-length (suc n) [] e = refl
take-length (suc n) (x ∷ xs) e = ap (x ∷◌) (take-length n xs (omega arith))

pub take-entry_bytes :
    ⦃lay : Layout⦄ → (e : Entry) → IsEntry e → take sizeof_entry (entry_bytes e) ≡ entry_bytes e
unfolding IsEntry
take-entry_bytes e is = take-length sizeof_entry (entry_bytes e) is.1

pub length-preserved_bytes : (c : Preserved) → length (preserved_bytes c) ≡ sizeof_preserved
unfolding preserved_bytes little_endian
length-preserved_bytes c = refl

pub take-preserved_bytes :
    (c : Preserved) → take sizeof_preserved (preserved_bytes c) ≡ preserved_bytes c
unfolding preserved_bytes little_endian
take-preserved_bytes c = refl

pub take-preserved_bytes_code :
    (c : Preserved) → take 4 (preserved_bytes c) ≡ little_endian 4 c.op_code
unfolding preserved_bytes little_endian
take-preserved_bytes_code c = refl

pub entry_pointer-preserved_bytes :
    (c : Preserved) → IsPreserved c → entry_pointer (preserved_bytes c) ≡ c.entry
unfolding preserved_bytes entry_pointer IsPreserved little_endian
entry_pointer-preserved_bytes c is = from_little_endian-little_endian 8 c.entry is

pub length-entry_bytes :
    ⦃lay : Layout⦄ → (e : Entry) → IsEntry e → length (entry_bytes e) ≡ sizeof_entry
unfolding IsEntry
length-entry_bytes e is = is.1

take-append_enough :
    {A : Type 0} (n : ℕ) (xs ys : List A) → length xs ≡ n → take n (xs ++ ys) ≡ take n xs
take-append_enough zero xs ys e = refl
take-append_enough (suc n) [] ys e = absurd (omega arith)
take-append_enough (suc n) (x ∷ xs) ys e = ap (x ∷◌) (take-append_enough n xs ys (omega arith))

-- The key is compared with the destination.
pub take-entry_bytes_key :
    ⦃lay : Layout⦄ → (e : Entry) → IsEntry e → take 16 (entry_bytes e) ≡ take 16 e.dst_ip
unfolding IsEntry entry_bytes
take-entry_bytes_key e is = take-append_enough 16 e.dst_ip (e.nxt_hop_ip ++ e.oif) is.0

pub entry_bytes-wide : ⦃lay : Layout⦄ → (e : Entry) → IsEntry e → 16 ≤ length (entry_bytes e)
unfolding IsEntry
entry_bytes-wide e is = omega (arith, is.1)
