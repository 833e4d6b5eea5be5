-- ===== src/DrTest/Rows.antt =====
-- What is printed of the updates that are read.
use ribdriver.Base.{
  ℕ, zero, suc, ◌+◌, ◌-◌, ◌≤◌, ◌<◌, ◌≡◌, refl, ap, ◌∙◌, some, List, [], ◌∷◌, ◌++◌, length, take,
  replicate, arith,
}
use ribdriver.Memory.{Bytes}
use ribdriver.Table.{Layout}
use ribdriver.DrTest.{filled, c_string, Row, print_one_entry, print_loop, print_fetched_entries}
use ribdriver.DrTest.Input.{IsText}

-- The same row `k` times, with its numbers from `j + 1` on.
abbrev pub numbered : Row → (j k : ℕ) → List Row
numbered row j zero = []
numbered row j (suc k) = record row { number = j + 1 } ∷ numbered row (j + 1) k

module _ ⦃lay : Layout⦄ where
  print_one_entry-number :
      (i : ℕ) (buf : Bytes) (row : Row)
      → print_one_entry 1 buf ≡ some row
      → print_one_entry i buf ≡ some (record row { number = i })
  unfolding print_one_entry
  print_one_entry-number i buf row e = ground arith

  print_loop-first :
      (k j : ℕ) (buf : Bytes) (row : Row)
      → print_one_entry 1 buf ≡ some row
      → print_loop k j buf ≡ some (numbered row j k)
  unfolding print_loop
  print_loop-first zero j buf row e = refl
  print_loop-first (suc k) j buf row e =
      ground (arith, print_one_entry-number (j + 1) buf row e, print_loop-first k (j + 1) buf row e)

  -- Whatever updates were read, as many rows are printed as there are updates, and each shows the first
  -- update's entry: the later ones are not shown.
  pub print_fetched_entries-first :
      (buf : Bytes) (units : ℕ) (row : Row)
      → print_one_entry 1 buf ≡ some row
      → print_fetched_entries buf units ≡ some (numbered row 0 units)
  unfolding print_fetched_entries
  print_fetched_entries-first buf units row e = print_loop-first units 0 buf row e

c_string-zeros :
    (z : ℕ) (cs rest : Bytes) → IsText cs → c_string ((cs ++ replicate (suc z) 0) ++ rest) ≡ some cs
c_string-zeros z [] rest text = refl
c_string-zeros z (c ∷ cs) rest (nz, nl, text) = ground (arith, c_string-zeros z cs rest text)

cut-zeros :
    (k j z : ℕ) (cs rest : Bytes)
    → IsText cs
    → length cs ≤ k
    → c_string (take k ((cs ++ replicate (suc z) 0) ++ rest) ++ replicate (suc j) 0) ≡ some cs
cut-zeros zero j z [] rest text le = refl
cut-zeros (suc k) j z [] rest text le = refl
cut-zeros zero j z (c ∷ cs) rest text le = absurd (omega arith)
cut-zeros (suc k) j z (c ∷ cs) rest (nz, nl, text) le = ground (arith, cut-zeros k j z cs rest text)

room :
    (w : ℕ) (cs : Bytes) → length cs < w → filled w cs ≡ cs ++ replicate (suc (w - length cs - 1)) 0
room w cs lt =
    let more : w - length cs ≡ suc (w - length cs - 1) = omega arith in
    ap (λ (n : ℕ). cs ++ replicate n 0) more

-- A string in its field, and one whose field has been cut behind it, in front of zeros.
pub c_string-filled :
    (w : ℕ) (cs rest : Bytes) → IsText cs → length cs < w → c_string (filled w cs ++ rest) ≡ some cs
c_string-filled w cs rest text lt =
    ap (λ (field : Bytes). c_string (field ++ rest)) (room w cs lt)
    ∙ c_string-zeros (w - length cs - 1) cs rest text

pub c_string-cut :
    (k j w : ℕ) (cs rest : Bytes)
    → IsText cs
    → length cs < w
    → length cs ≤ k
    → 0 < j
    → c_string (take k (filled w cs ++ rest) ++ replicate j 0) ≡ some cs
c_string-cut k j w cs rest text lt le some_left =
    let more : j ≡ suc (j - 1) = omega arith in
    ap (λ (field : Bytes). c_string (take k (field ++ rest) ++ replicate j 0)) (room w cs lt)
    ∙ ap
        (λ (n : ℕ).
          c_string
            (take k ((cs ++ replicate (suc (w - length cs - 1)) 0) ++ rest) ++ replicate n 0))
        more
    ∙ cut-zeros k (j - 1) (w - length cs - 1) cs rest text le
