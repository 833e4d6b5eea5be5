-- ===== src/Files.antt =====
-- Opening and closing a device: `rt_open`, `rt_release`, `mac_open` and `mac_release`, with the
-- `struct kernthread` of common/kernthread.c that each open file gets.
pub mod Closed
mod Tests
use ribdriver.Base.{ℕ, Bool, true, false, Option, none, some, ◌==◌, if◌then◌else◌}
use ribdriver.Memory.{set_at, Ptr, update}
use ribdriver.Table.{File}
use ribdriver.Fops.{Driver}
use ribdriver.Scheduler.{BusyMode, mode_idle}

-- `struct kernthread`: the calls of `complete` that no wait has used up, what the semaphore lets in,
-- the holders of `rw_sem` and of the spin lock. `task` is the kernel's.
pub record KernThread : Type 0 where
  pub task : Ptr
  pub completion : ℕ
  pub sem : ℕ
  pub rw_sem : ℕ
  pub spin_lock : Bool
  pub busy_mode : BusyMode
  pub fn_arg : Ptr

-- What `rt_open` and `new_kern_thread` write into a new `struct kernthread`.
abbrev pub init_kern_thread : (task fn_arg : Ptr) → KernThread
init_kern_thread task fn_arg = record {
  task = task;
  completion = 0;
  sem = 1;
  rw_sem = 0;
  spin_lock = false;
  busy_mode = mode_idle;
  fn_arg = fn_arg;
}

-- `kernthread` is what `kzalloc` returns and `task` what `kthread_create` returns; `none` is the
-- write through NULL without memory.
unfoldable pub new_kern_thread :
    (kernthread task fn_arg : Ptr)
    → (Ptr → Option KernThread)
    → Option (Ptr × (Ptr → Option KernThread))
new_kern_thread kernthread task fn_arg threads =
    if kernthread == 0
    then none
    else some (kernthread, update threads kernthread (some (init_kern_thread task fn_arg)))

-- It has an empty body.
abbrev pub cleanup_kernthread : Ptr → (Ptr → Option KernThread) → Ptr → Option KernThread
cleanup_kernthread kernthread threads = threads

-- `none` is a pointer that leads nowhere.
unfoldable pub get_kern_thread_busy_mode : Ptr → (Ptr → Option KernThread) → Option BusyMode
get_kern_thread_busy_mode kernthread threads = elim (threads kernthread) [
  | none ↦ none
  | some k ↦ some k.busy_mode
]

-- A driver, the blocks with a `struct kernthread`, and the field `private_data` of the files.
pub record Files : Type 0 where
  pub driver : Driver
  pub threads : Ptr → Option KernThread
  pub private_data : File → Ptr

-- `rt_open`, which returns 0. `kernthread` is what `kzalloc` returns and `task` the current process;
-- `none` is the write through NULL without memory.
unfoldable pub rt_open : (kernthread task : Ptr) → File → Files → Option Files
rt_open kernthread task filp s =
    if kernthread == 0
    then none
    else some (record s {
      threads = update s.threads kernthread (some (init_kern_thread task 0));
      private_data = set_at s.private_data filp kernthread;
    })

-- `rt_release`, which returns 0: it only prints.
unfoldable pub rt_release : File → Files → Files
rt_release filp s = s

-- `mac_open` and `mac_release`, which are the same.
abbrev pub mac_open : (kernthread task : Ptr) → File → Files → Option Files
mac_open = rt_open

abbrev pub mac_release : File → Files → Files
mac_release = rt_release
