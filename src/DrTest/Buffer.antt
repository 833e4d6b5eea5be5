-- ===== src/DrTest/Buffer.antt =====
-- The buffer of a reader whose first update was typed, and the row that is printed of it.
use ribdriver.Base.{
  ℕ, ◌+◌, ◌-◌, ◌/◌, ◌%◌, ◌≤◌, ◌<◌, ◌≡◌, ap, sym, ◌∙◌, some, ◌∷◌, ◌++◌, length, take, drop,
  replicate, arith, length-append, append_assoc, length-replicate, take-append, drop-append,
}
use ribdriver.Memory.{Bytes}
use ribdriver.Table.{Layout, Entry}
use ribdriver.Fops.{serialize}
use ribdriver.DrTest.{filled, c_string, Row, print_one_entry}
use ribdriver.DrTest.Input.{IsText}
use ribdriver.DrTest.Rows.{c_string-filled, c_string-cut}

length-filled : (w : ℕ) (cs : Bytes) → length cs ≤ w → length (filled w cs) ≡ w
length-filled w cs le = omega (
  arith,
  length-append cs (replicate (w - length cs) 0),
  length-replicate {A = ℕ} (w - length cs) 0,
)

-- The entry that lines become.
abbrev pub typed : ⦃lay : Layout⦄ → (dst hop oif : Bytes) → Entry
typed ⦃lay⦄ dst hop oif = record {
  dst_ip = filled 16 dst;
  nxt_hop_ip = filled lay.width hop;
  oif = filled 16 oif;
}

abbrev pub typed_row : (dst hop oif : Bytes) → Row
typed_row dst hop oif = record { number = 1; dst_ip = dst; nxt_hop_ip = hop; oif = oif }

module _ ⦃lay : Layout⦄ where
  module _ (op : ℕ) (dst hop oif rest : Bytes) (k j : ℕ) where
    before : Bytes
    before =
        ((op % 256) ∷ (op / 256 % 256) ∷ (op / 65536 % 256) ∷ (op / 16777216 % 256) ∷ filled 16 dst)
        ++ filled lay.width hop

    length-before : length dst ≤ 13 → length hop < lay.width → length before ≡ 20 + lay.width
    unfolding before
    length-before dst_le hop_lt = omega (
      arith,
      length-append (filled 16 dst) (filled lay.width hop),
      length-filled 16 dst (omega arith),
      length-filled lay.width hop (omega arith),
    )

    serialize-before :
        serialize (record { op_code = op; entry = typed dst hop oif }) ++ rest
        ≡ before ++ (filled 16 oif ++ rest)
    unfolding before
    serialize-before =
        ap
          (λ (bytes : Bytes).
            (op % 256) ∷ (op / 256 % 256) ∷ (op / 65536 % 256) ∷ (op / 16777216 % 256) ∷ bytes)
          (simp append_assoc)

    -- What the reader's buffer holds.
    unfoldable pub buffer : Bytes
    buffer =
        take k (serialize (record { op_code = op; entry = typed dst hop oif }) ++ rest)
        ++ replicate j 0

    buffer-before :
        length before ≤ k
        → buffer ≡ before ++ (take (k - length before) (filled 16 oif ++ rest) ++ replicate j 0)
    unfolding buffer
    buffer-before le =
        ap (λ (bytes : Bytes). take k bytes ++ replicate j 0) serialize-before
        ∙ ap (◌++ replicate j 0) (take-append k before (filled 16 oif ++ rest) (omega (arith, le)))
        ∙ append_assoc before (take (k - length before) (filled 16 oif ++ rest)) (replicate j 0)

    module _ (dst_text : IsText dst) (hop_text : IsText hop) (oif_text : IsText oif)
        (dst_le : length dst ≤ 13) (hop_lt : length hop < lay.width) (oif_le : length oif ≤ 12)
        (whole : 32 + lay.width ≤ k) (more : 0 < j) where
      long : length before ≡ 20 + lay.width
      long = length-before dst_le hop_lt

      tail : Bytes
      tail = take (k - length before) (filled 16 oif ++ rest) ++ replicate j 0

      held : buffer ≡ before ++ tail
      unfolding tail
      held = buffer-before (omega (arith, whole, long))

      dst_printed : c_string (drop 4 buffer) ≡ some dst
      unfolding before
      dst_printed =
          ap (λ (bytes : Bytes). c_string (drop 4 bytes)) held
          ∙ ap c_string (append_assoc (filled 16 dst) (filled lay.width hop) tail)
          ∙ c_string-filled 16 dst (filled lay.width hop ++ tail) dst_text (omega arith)

      hop_printed : c_string (drop 20 buffer) ≡ some hop
      unfolding before
      hop_printed =
          ap (λ (bytes : Bytes). c_string (drop 20 bytes)) held
          ∙ ap (λ (bytes : Bytes). c_string (drop 16 bytes))
              (append_assoc (filled 16 dst) (filled lay.width hop) tail)
          ∙ ap c_string (
              drop-append 16 (filled 16 dst) (filled lay.width hop ++ tail)
                (sym (length-filled 16 dst (omega arith))))
          ∙ c_string-filled lay.width hop tail hop_text hop_lt

      oif_printed : c_string (drop (20 + lay.width) buffer) ≡ some oif
      unfolding tail
      oif_printed =
          ap (λ (bytes : Bytes). c_string (drop (20 + lay.width) bytes)) held
          ∙ ap c_string (drop-append (20 + lay.width) before tail (sym long))
          ∙ c_string-cut (k - length before) j 16 oif rest oif_text (omega arith)
              (omega (arith, whole, long)) more

      pub entry_printed : print_one_entry 1 buffer ≡ some (typed_row dst hop oif)
      unfolding print_one_entry
      entry_printed = ground (arith, dst_printed, hop_printed, oif_printed)
