-- ===== src/Mac/Fops.antt =====
-- MAC/mac_fops.c: the MAC driver's names for the functions of `Fops` and `Scheduler`. Its code
-- differs from the routing driver's in the table only, and in RT_IOC_GET_RT_INFO, which is in
-- `Info`.
use ribdriver.Base.{ℕ, Bool, Option}
use ribdriver.Memory.{Ptr, Bytes}
use ribdriver.Table.{File, Status}
use ribdriver.Fops.{Driver, ReadEnv, PollEnv, Mask, rt_read, rt_write, rt_poll}
use ribdriver.Scheduler
use ribdriver.Scheduler.{System, Request}
use ribdriver.Mac.Table.{mac_layout, MacUpdate, MacTable}

abbrev pub MacDriver : Type 0
MacDriver = Driver

abbrev pub mac_read : ReadEnv → File → MacDriver → Option (Bytes × Status × MacDriver)
mac_read = rt_read

abbrev pub mac_write :
    (access_ok : Bool) (fresh : Ptr) → MacUpdate → MacDriver → Option (ℕ × MacDriver)
mac_write = rt_write

abbrev pub mac_poll : PollEnv → File → MacDriver → Mask × MacDriver
mac_poll = rt_poll

-- What a blocking writer of `ioctl_mac_handler1` does to the table.
abbrev pub mac_perform : Request → MacTable → MacTable
mac_perform = Scheduler.perform

-- MAC_IOC_SUBSCRIBE_MAC's copy to the user.
abbrev pub mac_reader_copies : Ptr → System → Option (Bytes × System)
mac_reader_copies = Scheduler.reader_copies

-- `mac_worker_fn`, with the threads that it schedules.
abbrev pub MacStep : System → System → Type 0
MacStep = Scheduler.Step
