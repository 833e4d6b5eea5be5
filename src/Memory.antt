-- ===== src/Memory.antt =====
-- The kernel heap that common/LinkedListApi.c works on: list descriptors, nodes and data blocks at
-- addresses, and commands that read, write and free them. A command that follows NULL or a dangling
-- pointer, or that frees one, faults.
pub mod Total
pub mod Chain
pub mod Distinct
pub mod Unused
pub mod Encoding
use ribdriver.Base.{
  ℕ, Bool, true, false, ◌||◌, Option, none, some, List, ◌==◌, if◌then◌else◌, inc32, dec32, length,
  ltb, take,
}

abbrev pub Ptr : Type 0
Ptr = ℕ

abbrev pub null : Ptr
null = 0

abbrev pub Bytes : Type 0
Bytes = List ℕ

-- `struct ll_t`
pub record Ll : Type 0 where
  pub node_count : ℕ
  pub head : Ptr

-- `struct singly_ll_node_t`; its field `data` is `block` here.
pub record Node : Type 0 where
  pub block : Ptr
  pub data_size : ℕ
  pub next : Ptr

pub record Heap : Type 0 where
  pub lists : Ptr → Option Ll
  pub nodes : Ptr → Option Node
  pub blocks : Ptr → Option Bytes

abbrev pub set_at : {A : Type 0} → (Ptr → A) → Ptr → A → Ptr → A
set_at f p a q = if q == p then a else f q

abbrev pub update : {A : Type 0} → (Ptr → Option A) → Ptr → Option A → Ptr → Option A
update f p v q = if q == p then v else f q

-- `stuck` is a loop that ran out of fuel.
pub data Outcome (A : Type 0) : Type 0 where
  done : A → Heap → Outcome A
  fault : Outcome A
  stuck : Outcome A

abbrev pub Cmd : Type 0 → Type 0
Cmd A = Heap → Outcome A

module _ {A : Type 0} where
  abbrev pub pure : A → Cmd A
  pure a h = done a h

  -- A NULL or dangling pointer has no value.
  abbrev pub demand : Option A → Cmd A
  demand none h = fault
  demand (some a) h = done a h

module _ {A B : Type 0} where
  abbrev pub then_do : Outcome A → (A → Cmd B) → Outcome B
  then_do (done a h) k = k a h
  then_do fault k = fault
  then_do stuck k = stuck

  infixl 5 ◌>>=◌ ◌>>◌
  abbrev pub ◌>>=◌ : Cmd A → (A → Cmd B) → Cmd B
  ◌>>=◌ m k h = then_do (m h) k

  abbrev pub ◌>>◌ : Cmd A → Cmd B → Cmd B
  m >> n = m >>= λ _. n

-- What an address holds; nothing is stored at NULL.
abbrev pub at : {A : Type 0} → (Ptr → Option A) → Ptr → Option A
at f p = if p == null then none else f p

unfoldable pub load_ll : Ptr → Cmd Ll
load_ll p h = demand (at h.lists p) h

unfoldable pub load_node : Ptr → Cmd Node
load_node p h = demand (at h.nodes p) h

unfoldable pub load_block : Ptr → Cmd Bytes
load_block p h = demand (at h.blocks p) h

unfoldable pub store_ll : Ptr → Ll → Cmd (Unit {0})
unfolding load_ll
store_ll p l = load_ll p >> λ h. done tt (record h { lists = update h.lists p (some l) })

unfoldable pub store_node : Ptr → Node → Cmd (Unit {0})
unfolding load_node
store_node p n = load_node p >> λ h. done tt (record h { nodes = update h.nodes p (some n) })

-- `kfree` of a node, and of a block; `kfree(NULL)` does nothing.
unfoldable pub free_node : Ptr → Cmd (Unit {0})
unfolding load_node
free_node p =
    if p == null
    then pure tt
    else (load_node p >> λ h. done tt (record h { nodes = update h.nodes p none }))

unfoldable pub free_block : Ptr → Cmd (Unit {0})
unfolding load_block
free_block p =
    if p == null
    then pure tt
    else (load_block p >> λ h. done tt (record h { blocks = update h.blocks p none }))

-- `kmalloc` of a node, a block or a descriptor: `fresh` is the address that it returns. A write
-- through NULL faults.
unfoldable pub new_ll : Ptr → Ll → Cmd (Unit {0})
new_ll fresh l h =
    if fresh == null then fault else done tt (record h { lists = update h.lists fresh (some l) })

unfoldable pub new_node : Ptr → Node → Cmd (Unit {0})
new_node fresh n h =
    if fresh == null then fault else done tt (record h { nodes = update h.nodes fresh (some n) })

unfoldable pub new_block : Ptr → Bytes → Cmd (Unit {0})
new_block fresh b h =
    if fresh == null then fault else done tt (record h { blocks = update h.blocks fresh (some b) })

-- `memcmp(a, b, size) == 0`; both blocks must hold `size` bytes.
abbrev pub same_bytes : List ℕ → List ℕ → Bool
same_bytes List.[] List.[] = true
same_bytes (List.◌∷◌ x xs) (List.◌∷◌ y ys) = if x == y then same_bytes xs ys else false
same_bytes _ _ = false

unfoldable pub memcmp_zero : Bytes → Bytes → ℕ → Cmd Bool
memcmp_zero a b size =
    if ltb (length a) size || ltb (length b) size
    then (λ h. fault)
    else pure (same_bytes (take size a) (take size b))

-- The first `size` bytes of a source block, as `memcpy` copies them.
unfoldable pub memcpy : Bytes → ℕ → Cmd Bytes
memcpy src size = if ltb (length src) size then (λ h. fault) else pure (take size src)
