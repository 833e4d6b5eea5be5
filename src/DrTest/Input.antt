-- ===== src/DrTest/Input.antt =====
-- What becomes of the lines that the user types.
use ribdriver.Base.{
  ℕ, zero, suc, ◌+◌, ◌-◌, ◌≤◌, ◌<◌, ◌≡◌, refl, ap, sym, ◌∙◌, ◌≢◌, some, [], ◌∷◌, ◌++◌, length, set,
  replicate, arith, length-append,
}
use ribdriver.Memory.{Bytes}
use ribdriver.Table.{Layout}
use ribdriver.DrTest.{newline, line_of, fgets, filled, strlen, chop, read_field, read_update}

-- Bytes that end neither a string nor a line.
abbrev pub IsText : Bytes → Type 0
IsText [] = Unit
IsText (b ∷ bs) = (b ≢ 0) × (b ≢ newline) × IsText bs

line_of-line :
    (n : ℕ) (cs rest : Bytes)
    → IsText cs
    → length cs < n
    → line_of n (cs ++ newline ∷ rest) ≡ (cs ++ newline ∷ [], rest)
line_of-line zero cs rest text lt = absurd (omega arith)
line_of-line (suc n) [] rest text lt = refl
line_of-line (suc n) (c ∷ cs) rest (nz, nl, text) lt = ground (arith, line_of-line n cs rest text)

line_of-cut : (cs rest : Bytes) → IsText cs → line_of (length cs) (cs ++ rest) ≡ (cs, rest)
line_of-cut [] rest text = refl
line_of-cut (c ∷ cs) rest (nz, nl, text) = ground (arith, line_of-cut cs rest text)

-- The string that a field holds, up to a last character.
strlen-filled :
    (cs : Bytes) (c k : ℕ)
    → IsText cs
    → c ≢ 0
    → strlen ((cs ++ c ∷ []) ++ replicate k 0) ≡ suc (length cs)
strlen-filled [] c zero text nz = ground arith
strlen-filled [] c (suc k) text nz = ground arith
strlen-filled (b ∷ cs) c k (nb, nl, text) nz = ground (arith, strlen-filled cs c k text nz)

set-last :
    (cs : Bytes) (c : ℕ) (zs : Bytes) → set ((cs ++ c ∷ []) ++ zs) (length cs) 0 ≡ cs ++ 0 ∷ zs
set-last [] c zs = refl
set-last (b ∷ cs) c zs = ap (b ∷◌) (set-last cs c zs)

filled-zero :
    (w : ℕ) (cs : Bytes) (c : ℕ)
    → length cs < w
    → cs ++ 0 ∷ replicate (w - length (cs ++ c ∷ [])) 0 ≡ filled w cs
filled-zero w cs c lt =
    let more : w - length cs ≡ suc (w - length (cs ++ c ∷ [])) =
      omega (arith, length-append cs (c ∷ [])) in
    ap (λ (k : ℕ). cs ++ replicate k 0) (sym more)

-- `chop` takes the last character of a field's string away.
chop-filled :
    (w : ℕ) (cs : Bytes) (c : ℕ)
    → IsText cs
    → c ≢ 0
    → length cs < w
    → chop (filled w (cs ++ c ∷ [])) ≡ filled w cs
unfolding chop
chop-filled w cs c text nz lt =
    rw (strlen-filled cs c (w - length (cs ++ c ∷ [])) text nz, chop)
      (set-last cs c _ ∙ filled-zero w cs c lt)

fgets-line :
    (size : ℕ) (cs rest : Bytes)
    → IsText cs
    → length cs + 2 ≤ size
    → fgets size (cs ++ newline ∷ rest) ≡ some (cs ++ newline ∷ [], rest)
unfolding fgets
fgets-line size [] rest text short =
    ap some (line_of-line (size - 1) [] rest text (omega (arith, short)))
fgets-line size (c ∷ cs) rest text short =
    ap some (line_of-line (size - 1) (c ∷ cs) rest text (omega (arith, short)))

fgets-cut :
    (size : ℕ) (c : ℕ) (cs rest : Bytes)
    → IsText (c ∷ cs)
    → length (c ∷ cs) + 1 ≡ size
    → fgets size ((c ∷ cs) ++ rest) ≡ some (c ∷ cs, rest)
unfolding fgets
fgets-cut size c cs rest text full =
    let same : size - 1 ≡ length (c ∷ cs) = omega (arith, full) in
    ap some (ap (λ n. line_of n ((c ∷ cs) ++ rest)) same ∙ line_of-cut (c ∷ cs) rest text)

-- A line that fits, with its newline, becomes the field.
pub read_field-line :
    (size w : ℕ) (cs rest : Bytes)
    → IsText cs
    → length cs + 2 ≤ size
    → size ≤ w
    → read_field size w (cs ++ newline ∷ rest) ≡ some (filled w cs, rest)
unfolding read_field
read_field-line size w cs rest text short fits =
    ground (arith, fgets-line size cs rest text short, chop-filled w cs newline text)

IsText-split : (cs : Bytes) (d : ℕ) → IsText (cs ++ d ∷ []) → IsText cs × d ≢ 0
IsText-split [] d (nz, nl, t) = (tt, nz)
IsText-split (c ∷ cs) d (nz, nl, t) = let (u, last) = IsText-split cs d t in ((nz, nl, u), last)

-- When the user types more characters in front of the newline than `fgets` takes, one less than its
-- size: the field gets these characters without the last one, which is lost, and what was typed after
-- them is left for the next field.
pub read_field-long :
    (size w c d : ℕ) (cs rest : Bytes)
    → IsText (c ∷ cs ++ d ∷ [])
    → length (c ∷ cs) + 2 ≡ size
    → size ≤ w
    → read_field size w ((c ∷ cs ++ d ∷ []) ++ rest) ≡ some (filled w (c ∷ cs), rest)
unfolding read_field
read_field-long size w c d cs rest text full fits =
    let (front, last) = IsText-split (c ∷ cs) d text in
    ground (
      arith,
      fgets-cut size c (cs ++ d ∷ []) rest text (omega (arith, full, length-append cs (d ∷ []))),
      chop-filled w (c ∷ cs) d front last,
    )

module _ ⦃lay : Layout⦄ where
  -- Three lines of text behind the newline that is consumed, the first and the third of 13 characters at
  -- most and the second at least two shorter than the size that `fgets` gets: they become the three
  -- fields of an addition, each followed by zeros, and the rest of the input is left.
  pub read_update-lines :
      (hop_size x : ℕ) (dst hop oif rest : Bytes)
      → IsText dst
      → IsText hop
      → IsText oif
      → length dst ≤ 13
      → length hop + 2 ≤ hop_size
      → length oif ≤ 13
      → hop_size ≤ lay.width
      → read_update hop_size (x ∷ (dst ++ newline ∷ (hop ++ newline ∷ (oif ++ newline ∷ rest))))
        ≡ some (
          record {
            op_code = lay.route_add;
            entry = record {
              dst_ip = filled 16 dst;
              nxt_hop_ip = filled lay.width hop;
              oif = filled 16 oif;
            };
          },
          rest,
        )
  unfolding read_update
  read_update-lines hop_size x dst hop oif rest dst_text hop_text oif_text dst_le hop_le oif_le
        fits =
      ground (
        arith,
        read_field-line 15 16 dst (hop ++ newline ∷ (oif ++ newline ∷ rest)) dst_text,
        read_field-line hop_size lay.width hop (oif ++ newline ∷ rest) hop_text,
        read_field-line 15 16 oif rest oif_text,
      )
