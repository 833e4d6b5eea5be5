-- ===== src/DrTest/Menu.antt =====
-- The menu: its operations on each of the two devices, which are those of DrTest at one layout, and its
-- loop.
pub mod Repeats
mod Tests
use ribdriver.Base.{
  ℕ, zero, suc, Bool, true, false, Option, none, some, List, [], ◌∷◌, ◌==◌, if◌then◌else◌,
}
use ribdriver.Memory.{Ptr, Bytes, Cmd}
use ribdriver.Table.{rt_layout, File, Update}
use ribdriver.Mac.Table.{mac_layout}
use ribdriver.Fops.{Driver, ReadEnv}
use ribdriver.Scheduler.{Request}
use ribdriver.Files.{Files, rt_open, rt_release}
use ribdriver.Info.{Lists, RtInfo, get_rt_info}
use ribdriver.DrTest.{
  Outcome, exited, success, read_update, Row, rt_hop_size, mac_hop_size, write_route,
  ioctl_add_route, print_fetched_entries, rt_read_all,
}

-- The user program's `rt_write` and `mac_write`.
abbrev pub menu_rt_write : (fresh : Ptr) → Bytes → Driver → Outcome × Bytes × Driver
menu_rt_write = write_route ⦃lay = rt_layout⦄ rt_hop_size

abbrev pub menu_mac_write : (fresh : Ptr) → Bytes → Driver → Outcome × Bytes × Driver
menu_mac_write = write_route ⦃lay = mac_layout⦄ mac_hop_size

abbrev pub ioctl_add_rt_route : (fresh : Ptr) → Bytes → Option (Request × Bytes)
ioctl_add_rt_route = ioctl_add_route ⦃lay = rt_layout⦄ rt_hop_size

abbrev pub ioctl_add_mac_route : (fresh : Ptr) → Bytes → Option (Request × Bytes)
ioctl_add_mac_route = ioctl_add_route ⦃lay = mac_layout⦄ mac_hop_size

abbrev pub print_mac_fetched_entries : Bytes → (units : ℕ) → Option (List Row)
print_mac_fetched_entries = print_fetched_entries ⦃lay = mac_layout⦄

abbrev pub mac_read_all : ReadEnv → File → Driver → Option (List Row × Driver)
mac_read_all = rt_read_all ⦃lay = mac_layout⦄

-- `rt_open` and `mac_open` of the user program. `fd` is what the system's `open` gives, `none` for -1;
-- the outer `none` is the driver's write through NULL.
pub open_device :
    (fd : Option File) (kernthread task : Ptr) → Files → Option (Outcome × Option File × Files)
open_device none kernthread task s = some (exited, none, s)
open_device (some filp) kernthread task s = elim (rt_open kernthread task filp s) [
  | none ↦ none
  | some s' ↦ some (success, some filp, s')
]

abbrev pub mac_open_device :
    (fd : Option File) (kernthread task : Ptr) → Files → Option (Outcome × Option File × Files)
mac_open_device = open_device

abbrev pub rt_close : File → Files → Files
rt_close = rt_release

-- `memset`, the driver's command, and the five numbers that are printed.
pub ioctl_get_rt_info : Lists → Cmd RtInfo
ioctl_get_rt_info lists = get_rt_info lists true (record {
  node_count = 0;
  actual_node_count = 0;
  no_of_pending_updates = 0;
  no_of_polling_readers = 0;
  no_of_blacklisted_polling_readers = 0;
})

-- What a choice calls; `nothing` is a case that only breaks, or the default.
pub data Call : Type 0 where
  open_rt purge_rt subscribe_rt read_rt close_rt fork_process add_rt rt_info : Call
  add_mac open_mac read_mac poll_both write_rt write_mac exits nothing : Call

pub menu_call : ℕ → Call
menu_call choice =
    if choice == 1
    then open_rt
    else if choice == 12
    then open_mac
    else if choice == 2
    then purge_rt
    else if choice == 3
    then subscribe_rt
    else if choice == 4
    then read_rt
    else if choice == 13
    then read_mac
    else if choice == 5
    then close_rt
    else if choice == 6
    then fork_process
    else if choice == 7
    then add_rt
    else if choice == 10
    then rt_info
    else if choice == 11
    then add_mac
    else if choice == 14
    then poll_both
    else if choice == 15
    then write_rt
    else if choice == 16
    then write_mac
    else if choice == 17
    then exits
    else nothing

abbrev rest_of : Option (Update × Bytes) → Option Bytes
rest_of none = none
rest_of (some (msg, rest)) = some rest

-- What a call leaves of the standard input; `none` does not come back to the menu. `opened` says whether
-- an `open` of the device succeeds: `rt_open` and `mac_open` end the program if it does not.
pub consumes : (opened : Bool) → Call → Bytes → Option Bytes
consumes opened open_rt input = if opened then some input else none
consumes opened open_mac input = if opened then some input else none
consumes opened add_rt input = rest_of (read_update ⦃lay = rt_layout⦄ rt_hop_size input)
consumes opened write_rt input = rest_of (read_update ⦃lay = rt_layout⦄ rt_hop_size input)
consumes opened add_mac input = rest_of (read_update ⦃lay = mac_layout⦄ mac_hop_size input)
consumes opened write_mac input = rest_of (read_update ⦃lay = mac_layout⦄ mac_hop_size input)
consumes opened poll_both input = none
consumes opened exits input = none
consumes opened other input = some input

-- The calls of the first `rounds` rounds of `main_menu`. `scanf` is the C library's, which gets the
-- variable's old value and the input and gives its new value and the rest; `opened k` says whether a device
-- can be opened when `k` rounds are to follow.
pub main_menu :
    (scanf : ℕ → Bytes → ℕ × Bytes) (opened : ℕ → Bool) (rounds : ℕ)
    → (choice : ℕ) → Bytes
    → List Call
main_menu scanf opened zero choice input = []
main_menu scanf opened (suc k) choice input =
    let (choice', input') = scanf choice input in
    elim (consumes (opened k) (menu_call choice') input') [
      | none ↦ menu_call choice' ∷ []
      | some rest ↦ menu_call choice' ∷ main_menu scanf opened k choice' rest
    ]
