-- ===== src/LinkedList/Find/Values.antt =====
-- What `memcmp` finds among the values of a list, and what is left when its first match goes.
use ribdriver.Base.{
  ℕ, ◌≤◌, ◌≡◌, refl, Bool, true, false, List, [], ◌∷◌, ◌++◌, map, ap, arith, take, length,
  if◌then◌else◌,
}
use ribdriver.Memory.{Ptr, null, Bytes, Heap, done, same_bytes, memcmp_zero}
use ribdriver.Memory.Chain.{Cell, has_node, has_block, values}
use ribdriver.Memory.Distinct.{has_node-append, has_block-append}
use ribdriver.LinkedList.Unlink.{less}

-- `memcmp` over `size` bytes finds no difference.
abbrev pub matches : Bytes → ℕ → Bytes → Bool
matches key size b = same_bytes (take size b) (take size key)

-- The first node whose block matches, or NULL.
abbrev pub find : Bytes → ℕ → List Cell → Ptr
find key size [] = null
find key size (c ∷ xs) = if matches key size c.bytes then c.node else find key size xs

abbrev pub holds_value : Bytes → ℕ → List Bytes → Bool
holds_value key size [] = false
holds_value key size (b ∷ bs) = if matches key size b then true else holds_value key size bs

-- Every value but the first that matches.
abbrev pub erase : Bytes → ℕ → List Bytes → List Bytes
erase key size [] = []
erase key size (b ∷ bs) = if matches key size b then bs else b ∷ erase key size bs

-- Every cell but the first that matches.
abbrev pub kept : Bytes → ℕ → List Cell → List Cell
kept key size [] = []
kept key size (c ∷ xs) = if matches key size c.bytes then xs else c ∷ kept key size xs

-- The blocks with their bytes.
abbrev pub owned : List Cell → List (Ptr × Bytes)
owned xs = map (λ (c : Cell). (c.block, c.bytes)) xs

pub owned-append : (xs ys : List Cell) → owned (xs ++ ys) ≡ owned xs ++ owned ys
owned-append [] ys = refl
owned-append (c ∷ xs) ys = ap ((c.block, c.bytes) ∷◌) (owned-append xs ys)

pub owned-less : (c : Cell) (rest : List Cell) → owned (less c rest) ≡ owned rest
owned-less c [] = refl
owned-less c (d ∷ rest) = refl

-- Every block has at least `size` bytes.
abbrev pub Wide : ℕ → List Cell → Type 0
Wide size [] = Unit
Wide size (c ∷ xs) = (size ≤ length c.bytes) × Wide size xs

pub memcmp_zero-ok :
    (b key : Bytes) (size : ℕ) (h : Heap)
    → size ≤ length b
    → size ≤ length key
    → memcmp_zero b key size h ≡ done (matches key size b) h
unfolding memcmp_zero
memcmp_zero-ok b key size h hb hk = ground arith

-- The addresses of `ys` are among those of `xs`.
pub record Within (ys xs : List Cell) : Type 0 where
  pub nodes : (a : Ptr) → has_node a ys ≡ true → has_node a xs ≡ true
  pub blocks : (a : Ptr) → has_block a ys ≡ true → has_block a xs ≡ true

pub less-Within :
    (pre : List Cell) (c : Cell) (rest : List Cell) → Within (pre ++ less c rest) (pre ++ c ∷ rest)
less-Within pre c [] = record {
  nodes = λ a i. ground (arith, has_node-append a pre [], has_node-append a pre (c ∷ []));
  blocks = λ a i. ground (arith, has_block-append a pre [], has_block-append a pre (c ∷ []));
}
less-Within pre c (d ∷ rest) = record {
  nodes = λ a i.
      ground
        (arith, has_node-append a pre (less c (d ∷ rest)), has_node-append a pre (c ∷ d ∷ rest));
  blocks = λ a i.
      ground
        (arith, has_block-append a pre (less c (d ∷ rest)), has_block-append a pre (c ∷ d ∷ rest));
}

pub values-less : (c : Cell) (rest : List Cell) → values (less c rest) ≡ values rest
values-less c [] = refl
values-less c (d ∷ rest) = refl

pub length-less : (c : Cell) (rest : List Cell) → length (less c rest) ≡ length rest
length-less c [] = refl
length-less c (d ∷ rest) = refl

module _ (key : Bytes) (size : ℕ) where
  pub erase-append :
      (bs cs : List Bytes)
      → holds_value key size bs ≡ false
      → erase key size (bs ++ cs) ≡ bs ++ erase key size cs
  erase-append [] cs none_in = refl
  erase-append (b ∷ bs) cs none_in = ground (arith, erase-append bs cs)

  pub kept-append :
      (xs ys : List Cell)
      → holds_value key size (values xs) ≡ false
      → kept key size (xs ++ ys) ≡ xs ++ kept key size ys
  kept-append [] ys none_in = refl
  kept-append (c ∷ xs) ys none_in = ground (arith, kept-append xs ys)

  pub holds_value-append :
      (bs cs : List Bytes)
      → holds_value key size bs ≡ false
      → holds_value key size (bs ++ cs) ≡ holds_value key size cs
  holds_value-append [] cs none_in = refl
  holds_value-append (b ∷ bs) cs none_in = ground (arith, holds_value-append bs cs)
