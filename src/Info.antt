-- ===== src/Info.antt =====
-- RT_IOC_GET_RT_INFO of RT/rt_fops.c and MAC_IOC_GET_MAC_INFO of MAC/mac_fops.c, on the heap of the
-- lists. The command is run as a whole, although the table's first node is read before
-- `down_read`.
mod Tests
use ribdriver.Base.{
  ◌^◌, ℕ, suc, zero, ◌+◌, ◌≡◌, ◌<◌, Bool, true, false, List, [], ◌∷◌, ◌==◌, if◌then◌else◌, inc32,
  length, arith, ◌∙◌, refl, eq_of_ne,
}
use ribdriver.Memory.{Ptr, null, Cmd, Heap, done, stuck, pure, ◌>>=◌, load_ll, load_node}
use ribdriver.Memory.Chain.{Cell, first, Chain, IsList, load_ll-IsList, load_node-Holds}

-- The descriptors that a driver works on.
pub record Lists : Type 0 where
  pub rt : Ptr
  pub rt_change_list : Ptr
  pub poll_readers_list : Ptr
  pub black_listed_poll_readers_list : Ptr

-- `struct rt_info_t` in user space
pub record RtInfo : Type 0 where
  pub node_count : ℕ
  pub actual_node_count : ℕ
  pub no_of_pending_updates : ℕ
  pub no_of_polling_readers : ℕ
  pub no_of_blacklisted_polling_readers : ℕ

-- `while(head)`, with fuel
pub count_loop : ℕ → (head : Ptr) (actual_count : ℕ) → Cmd ℕ
count_loop zero head actual_count = λ h. stuck
count_loop (suc k) head actual_count =
    if head == null
    then pure actual_count
    else do n ← load_node head; count_loop k n.next (inc32 actual_count)

-- The head is read before `access_ok`. The user's structure is `rt_info` before the call.
pub get_rt_info : Lists → (access_ok : Bool) → RtInfo → Cmd RtInfo
unfolding count_loop
get_rt_info lists access_ok rt_info = do
  rt ← load_ll lists.rt
  if access_ok
      then (do
        actual_count ← count_loop (rt.node_count + 1) rt.head 0
        change_list ← load_ll lists.rt_change_list
        poll ← load_ll lists.poll_readers_list
        black ← load_ll lists.black_listed_poll_readers_list
        pure (record {
          node_count = rt.node_count;
          actual_node_count = actual_count;
          no_of_pending_updates = change_list.node_count;
          no_of_polling_readers = poll.node_count;
          no_of_blacklisted_polling_readers = black.node_count;
        }))
      else pure rt_info

-- The MAC driver does not write the number of polling readers.
pub get_mac_info : Lists → (access_ok : Bool) → RtInfo → Cmd RtInfo
unfolding count_loop
get_mac_info lists access_ok mac_info = do
  mac ← load_ll lists.rt
  if access_ok
      then (do
        actual_count ← count_loop (mac.node_count + 1) mac.head 0
        change_list ← load_ll lists.rt_change_list
        black ← load_ll lists.black_listed_poll_readers_list
        pure (record mac_info {
          node_count = mac.node_count;
          actual_node_count = actual_count;
          no_of_pending_updates = change_list.node_count;
          no_of_blacklisted_polling_readers = black.node_count;
        }))
      else pure mac_info

count_loop-length :
    (k n : ℕ) (h : Heap) (xs : List Cell)
    → Chain h xs null
    → length xs < k
    → n + length xs < 2 ^ 32
    → count_loop k (first xs null) n h ≡ done (n + length xs) h
unfolding count_loop
count_loop-length zero n h xs ch fuel room = absurd (omega arith)
count_loop-length (suc k) n h [] ch fuel room = ground arith
count_loop-length (suc k) n h (c ∷ xs) (e, ch) fuel room =
    rw (eq_of_ne _ _ e.node_ne, load_node-Holds e)
      (rw (inc_below n (omega arith))
        (count_loop-length k (n + 1) h xs ch (omega arith) (omega arith) ∙ ground arith))
  where
    inc_below : (m : ℕ) → m + 1 < 2 ^ 32 → inc32 m ≡ m + 1
    inc_below m lt = omega arith

module _ {h : Heap} (lists : Lists) {rt change_list black : List Cell}
    (is_rt : IsList h lists.rt rt) (is_change : IsList h lists.rt_change_list change_list)
    (is_black : IsList h lists.black_listed_poll_readers_list black) (info : RtInfo) where
  counted : count_loop (length rt + 1) (first rt null) 0 h ≡ done (length rt) h
  counted =
      count_loop-length (length rt + 1) 0 h rt is_rt.chain (omega arith) (omega (arith, is_rt.fits))
      ∙ ground arith

  -- On well-formed lists, the information on the routing table gives the lengths of the four lists;
  -- the counter of the table and the number of nodes that are linked are the same.
  pub get_rt_info-counts :
      {poll : List Cell}
      → IsList h lists.poll_readers_list poll
      → get_rt_info lists true info h
        ≡ done
            (record {
              node_count = length rt;
              actual_node_count = length rt;
              no_of_pending_updates = length change_list;
              no_of_polling_readers = length poll;
              no_of_blacklisted_polling_readers = length black;
            })
            h
  unfolding get_rt_info
  get_rt_info-counts is_poll = rw (
    load_ll-IsList is_rt,
    counted,
    load_ll-IsList is_change,
    load_ll-IsList is_poll,
    load_ll-IsList is_black,
  )

  -- On well-formed lists, the information on the MAC table gives the lengths of the table, twice,
  -- of the change list and of the black list, and leaves the number of polling readers as it was in
  -- the user's structure.
  pub get_mac_info-counts :
      get_mac_info lists true info h
      ≡ done
          (record info {
            node_count = length rt;
            actual_node_count = length rt;
            no_of_pending_updates = length change_list;
            no_of_blacklisted_polling_readers = length black;
          })
          h
  unfolding get_mac_info
  get_mac_info-counts =
      rw (load_ll-IsList is_rt, counted, load_ll-IsList is_change, load_ll-IsList is_black)
