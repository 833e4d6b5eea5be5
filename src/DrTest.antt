-- ===== src/DrTest.antt =====
-- userspace/dr_test.c: the user program of both drivers. A `Layout` says for which driver; the
-- functions carry the routing table's names. Standard input is the bytes that are still to come, and
-- what is printed is the rows of the tables.
pub mod Input
pub mod Rows
pub mod Poll
pub mod Menu
pub mod Buffer
pub mod EndToEnd
mod Tests
use ribdriver.Base.{
  ℕ, zero, suc, ◌+◌, ◌-◌, ◌*◌, ◌/◌, ◌%◌, ◌^◌, Bool, true, false, Option, none, some, List, [], ◌∷◌,
  ◌++◌, ◌==◌, ltb, if◌then◌else◌, length, take, drop, set, replicate,
}
use ribdriver.Memory.{Ptr, Bytes}
use ribdriver.Table.{
  Layout, File, Entry, Update, Status, value, erestartsys, sizeof_entry, sizeof_update,
}
use ribdriver.Fops.{Driver, ReadEnv, rt_read, rt_write, rt_max_entries_fetch}
use ribdriver.Scheduler.{Request, common_update, rtpurge}

abbrev pub newline : ℕ
newline = 10

-- What `fgets` reads into `n` bytes: up to `n - 1` of them, and no further than a newline.
abbrev pub line_of : ℕ → Bytes → Bytes × Bytes
line_of zero input = ([], input)
line_of (suc n) [] = ([], [])
line_of (suc n) (b ∷ input) =
    if b == newline
    then (b ∷ [], input)
    else (let (line, rest) = line_of n input in (b ∷ line, rest))

-- `none` is NULL, at the end of the input.
pub fgets : ℕ → Bytes → Option (Bytes × Bytes)
fgets n [] = none
fgets n (b ∷ input) = some (line_of (n - 1) (b ∷ input))

-- A field or a buffer of `width` bytes, all 0 before, with these bytes in front.
abbrev pub filled : (width : ℕ) → Bytes → Bytes
filled width bytes = bytes ++ replicate (width - length bytes) 0

abbrev pub strlen : Bytes → ℕ
strlen [] = 0
strlen (b ∷ bs) = if b == 0 then 0 else suc (strlen bs)

-- `field[strlen(field) - 1] = '\0'`. For an empty string it is the byte before the field that is
-- written, and that is 0 already.
pub chop : Bytes → Bytes
chop field = elim (strlen field) [ zero ↦ field | suc k ↦ set field k 0 ]

-- The lines that are read into a field, with the sizes that `fgets` gets. `none` is the call of
-- `exit`.
pub read_field : (size width : ℕ) → Bytes → Option (Bytes × Bytes)
unfolding fgets chop
read_field size width input = elim (fgets size input) [
  | none ↦ none
  | some (line, rest) ↦ some (chop (filled width line), rest)
]

-- The newline behind the choice, which is consumed; its absence is not looked at.
abbrev pub consume_new_line : Bytes → Bytes
consume_new_line [] = []
consume_new_line (b ∷ input) = input

-- The size that `fgets` gets for the second field: that of the address in a routing table is 15.
abbrev pub rt_hop_size : ℕ
rt_hop_size = 15

abbrev pub mac_hop_size : ℕ
mac_hop_size = 48

module _ ⦃lay : Layout⦄ where
  -- The first part of `rt_write`, `mac_write`, `ioctl_add_rt_route` and `ioctl_add_mac_route`.
  pub read_update : (hop_size : ℕ) → Bytes → Option (Update × Bytes)
  read_update hop_size input = elim (read_field 15 16 (consume_new_line input)) [
    | none ↦ none
    | some (dst_ip, input1) ↦ elim (read_field hop_size lay.width input1) [
      | none ↦ none
      | some (nxt_hop_ip, input2) ↦ elim (read_field 15 16 input2) [
        | none ↦ none
        | some (oif, input3) ↦ some (
          record {
            op_code = lay.route_add;
            entry = record { dst_ip = dst_ip; nxt_hop_ip = nxt_hop_ip; oif = oif };
          },
          input3,
        )
      ]
    ]
  ]

-- How a call of the user program ends; `blocked` has not ended.
pub data Outcome : Type 0 where
  success failure exited blocked : Outcome

module _ ⦃lay : Layout⦄ where
  -- `rt_write` and `mac_write` of the user program.
  pub write_route : (hop_size : ℕ) (fresh : Ptr) → Bytes → Driver → Outcome × Bytes × Driver
  write_route hop_size fresh input d = elim (read_update hop_size input) [
    | none ↦ (exited, [], d)
    | some (msg, rest) ↦ elim (rt_write true fresh msg d) [
      | none ↦ (blocked, rest, d)
      | some (ret, d') ↦ (if ret == sizeof_update then success else failure, rest, d')
    ]
  ]

  -- What `ioctl_add_rt_route` and `ioctl_add_mac_route` ask of the driver.
  pub ioctl_add_route : (hop_size : ℕ) (fresh : Ptr) → Bytes → Option (Request × Bytes)
  ioctl_add_route hop_size fresh input = elim (read_update hop_size input) [
    | none ↦ none
    | some (msg, rest) ↦ some (common_update fresh msg, rest)
  ]

abbrev pub ioctl_purge_device : Request
ioctl_purge_device = rtpurge

-- `%s`: the bytes up to a 0; `none` runs past the end of the buffer.
abbrev pub c_string : Bytes → Option Bytes
c_string [] = none
c_string (b ∷ bs) =
    if b == 0 then some [] else elim (c_string bs) [ none ↦ none | some s ↦ some (b ∷ s) ]

-- A row of the table as it is printed.
pub record Row : Type 0 where
  pub number : ℕ
  pub dst_ip : Bytes
  pub nxt_hop_ip : Bytes
  pub oif : Bytes

module _ ⦃lay : Layout⦄ where
  -- `print_rt_one_entry` of the first entry of a buffer, and `print_mac_one_entry`.
  pub print_one_entry : ℕ → Bytes → Option Row
  print_one_entry i buf = elim (c_string (drop 4 buf)) [
    | none ↦ none
    | some dst_ip ↦ elim (c_string (drop 20 buf)) [
      | none ↦ none
      | some nxt_hop_ip ↦ elim (c_string (drop (20 + lay.width) buf)) [
        | none ↦ none
        | some oif ↦
            some (record { number = i; dst_ip = dst_ip; nxt_hop_ip = nxt_hop_ip; oif = oif })
      ]
    ]
  ]

  -- The loop of `print_rt_fetched_entries`, with `k` rounds to go; the pointer is not moved on.
  pub print_loop : (k j : ℕ) → Bytes → Option (List Row)
  unfolding print_one_entry
  print_loop zero j buf = some []
  print_loop (suc k) j buf = elim (print_one_entry (j + 1) buf) [
    | none ↦ none
    | some row ↦ elim (print_loop k (j + 1) buf) [ none ↦ none | some rows ↦ some (row ∷ rows) ]
  ]

  pub print_fetched_entries : Bytes → (units : ℕ) → Option (List Row)
  unfolding print_loop
  print_fetched_entries buf units = print_loop units 0 buf

  -- `RT_MAX_ENTRIES_FETCH * sizeof(struct rt_update_t)`
  abbrev pub buffer_size : ℕ
  buffer_size = rt_max_entries_fetch * sizeof_update

  -- A read into a buffer that is all 0, and what is printed of it. An error code is printed as so many
  -- rows as the unsigned number has; -ERESTARTSYS is -512.
  pub rt_read_all : ReadEnv → File → Driver → Option (List Row × Driver)
  unfolding print_fetched_entries
  rt_read_all env filp d = elim (rt_read env filp d) [
    | none ↦ none
    | some (bytes, value n, d') ↦ elim (print_fetched_entries (filled buffer_size bytes) n) [
      | none ↦ none
      | some rows ↦ some (rows, d')
    ]
    | some (bytes, erestartsys, d') ↦
        elim (print_fetched_entries (filled buffer_size bytes) (2 ^ 32 - 512)) [
          | none ↦ none
          | some rows ↦ some (rows, d')
        ]
  ]

  -- One round of the loop of `rt_subscrption_fn`, with `k` rows to go: the code of the first update is
  -- printed with each. The buffer is as `ioctl` has filled it.
  pub subscription_loop : (k i : ℕ) → Bytes → Option (List (Bytes × Row))
  unfolding print_one_entry
  subscription_loop zero i buf = some []
  subscription_loop (suc k) i buf = elim (print_one_entry (i + 1) buf) [
    | none ↦ none
    | some row ↦ elim (subscription_loop k (i + 1) buf) [
      | none ↦ none
      | some rows ↦ some ((take 4 buf, row) ∷ rows)
    ]
  ]

  pub subscription_round : Bytes → (n : ℕ) → Option (List (Bytes × Row))
  unfolding subscription_loop
  subscription_round bytes n = subscription_loop n 0 (filled buffer_size bytes)
