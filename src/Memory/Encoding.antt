-- ===== src/Memory/Encoding.antt =====
-- Numbers as bytes.
use ribdriver.Base.{
  ℕ, zero, suc, ◌+◌, ◌*◌, ◌%◌, ◌/◌, ◌≡◌, refl, sym, ap, [], ◌∷◌, ◌==◌, arith, length, take,
}
use ribdriver.Memory.{Bytes, same_bytes}

-- The bytes of a number, the lowest first.
unfoldable pub little_endian : (width : ℕ) → ℕ → Bytes
little_endian zero n = []
little_endian (suc w) n = (n % 256) ∷ little_endian w (n / 256)

-- The number has no more than `w` bytes.
abbrev pub Fits : (w : ℕ) → ℕ → Type 0
Fits zero n = n ≡ 0
Fits (suc w) n = Fits w (n / 256)

pub same-little_endian :
    (w m n : ℕ)
    → Fits w m
    → Fits w n
    → same_bytes (take w (little_endian w m)) (take w (little_endian w n)) ≡ (m == n)
unfolding little_endian
same-little_endian zero m n fm fn = ground arith
same-little_endian (suc w) m n fm fn =
    ground (arith, same-little_endian w (m / 256) (n / 256) fm fn)

pub length-little_endian : (w n : ℕ) → length (little_endian w n) ≡ w
unfolding little_endian
length-little_endian zero n = refl
length-little_endian (suc w) n = ap suc (length-little_endian w (n / 256))

-- The number that `width` bytes stand for.
unfoldable pub from_little_endian : (width : ℕ) → Bytes → ℕ
from_little_endian zero bs = 0
from_little_endian (suc w) [] = 0
from_little_endian (suc w) (b ∷ bs) = b + 256 * from_little_endian w bs

pub from_little_endian-little_endian :
    (w n : ℕ) → Fits w n → from_little_endian w (little_endian w n) ≡ n
unfolding from_little_endian little_endian
from_little_endian-little_endian zero n fits = sym fits
from_little_endian-little_endian (suc w) n fits =
    let rest = from_little_endian-little_endian w (n / 256) fits in omega (arith, rest)
