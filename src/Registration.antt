-- ===== src/Registration.antt =====
-- rt_register_drv.c and mac_register_drv.c: how a module is loaded and unloaded. The two files are
-- the same code for different numbers and tables; `rt_ids` and `mac_ids` are the numbers of
-- dev_majors.h. What the kernel does about device numbers is an interface, with the laws that the
-- theorems need. A result of 0 is success, any other is the negated error.
pub mod Reload
mod Tests
use ribdriver.Base.{
  ℕ, ◌+◌, ◌-◌, ◌≡◌, ◌≢◌, Bool, true, false, not, Option, none, some, ◌==◌, if◌then◌else◌,
}

-- The kernel's side: `reserved` says which regions of device numbers, of one unit, are taken.
pub record Chrdev : Type 1 where
  pub State : Type 0
  pub mkdev : (major minor : ℕ) → ℕ
  pub reserved : State → ℕ → Bool
  pub register_chrdev_region : (dev units : ℕ) → State → ℕ × State
  pub unregister_chrdev_region : (dev units : ℕ) → State → State
  pub cdev_add : (dev units : ℕ) → State → ℕ × State
  pub cdev_del : State → State
  pub mkdev-minor : (major : ℕ) → mkdev major 0 ≢ mkdev major 1
  pub register-reserved :
      (dev units : ℕ) (s : State)
      → (register_chrdev_region dev units s).0 ≡ 0
      → reserved (register_chrdev_region dev units s).1 dev ≡ true
  pub register-taken :
      (dev units : ℕ) (s : State)
      → reserved s dev ≡ true
      → (register_chrdev_region dev units s).0 ≢ 0
  pub unregister-other :
      (dev units other : ℕ) (s : State)
      → dev ≢ other
      → reserved (unregister_chrdev_region dev units s) other ≡ reserved s other
  pub cdev_add-reserved :
      (dev units other : ℕ) (s : State) → reserved (cdev_add dev units s).1 other ≡ reserved s other
  pub cdev_del-reserved : (other : ℕ) (s : State) → reserved (cdev_del s) other ≡ reserved s other

-- RT_MAJOR_NUMBER, RT_MINOR_UNITS and the MAC table's.
pub record Ids : Type 0 where
  pub major_number : ℕ
  pub minor_units : ℕ

abbrev pub rt_ids : Ids
rt_ids = record { major_number = 245; minor_units = 1 }

abbrev pub mac_ids : Ids
mac_ids = record { major_number = 246; minor_units = 1 }

-- What a loaded module has allocated: the table with its two queues, three lists and worker thread,
-- and the driver's list of readers.
pub data Object : Type 0 where
  table : Object
  reader_queue : Object
  writer_queue : Object
  entries : Object
  change_list : Object
  poll_readers_list : Object
  worker_thread : Object
  black_listed_poll_readers_list : Object

-- The global pointer to the table.
pub data TablePtr : Type 0 where
  null_table : TablePtr
  live_table : TablePtr
  freed_table : TablePtr

-- How many objects of each kind are allocated.
abbrev pub Counts : Type 0
Counts = Object → ℕ

abbrev pub of_init_rt_table : Counts
of_init_rt_table black_listed_poll_readers_list = 0
of_init_rt_table _ = 1

abbrev pub of_rt_driver_init : Counts
of_rt_driver_init black_listed_poll_readers_list = 1
of_rt_driver_init _ = 0

-- The table and the list of the entries.
abbrev pub of_cleanup_rt_table : Counts
of_cleanup_rt_table table = 1
of_cleanup_rt_table entries = 1
of_cleanup_rt_table _ = 0

module _ ⦃chr : Chrdev⦄ where
  pub record Module : Type 0 where
    pub kernel : chr.State
    pub dev : ℕ
    pub rt : TablePtr
    pub live : Counts

  -- A module that is loaded starts from its initial globals.
  abbrev pub loaded_afresh : chr.State → Counts → Module
  loaded_afresh kernel live = record { kernel = kernel; dev = 0; rt = null_table; live = live }

  -- Through a pointer that is not to a table: `none`, a fault. The global pointer is left as it
  -- was, since NULL is assigned to a copy of it.
  pub cleanup_rt_table : Module → Option Module
  cleanup_rt_table m = elim m.rt [
    | live_table ↦
        some (record m { rt = freed_table; live = λ o. m.live o - of_cleanup_rt_table o })
    | _ ↦ none
  ]

  -- `cdev_del` gets the address of a member of the table.
  pub char_driver_cleanup_module : Ids → Module → Option Module
  unfolding cleanup_rt_table
  char_driver_cleanup_module ids m =
      let k = chr.unregister_chrdev_region m.dev ids.minor_units m.kernel in
      elim m.rt [ live_table ↦ cleanup_rt_table (record m { kernel = chr.cdev_del k }) | _ ↦ none ]

  -- The end of the function behind NO_MEM and CDEV_ADD_FAILED.
  abbrev after_cleanup : ℕ → Option Module → Option (ℕ × Module)
  after_cleanup rc none = none
  after_cleanup rc (some m) = some (rc, m)

  -- The device is added under another number than the region's.
  pub add_device : Ids → Module → Option (ℕ × Module)
  unfolding char_driver_cleanup_module
  add_device ids m =
      let dev = chr.mkdev ids.major_number 1 in
      let (rc, k) = chr.cdev_add dev ids.minor_units m.kernel in
      let added = record m { kernel = k; dev = dev } in
      if rc == 0
      then some (0, record added { live = λ o. m.live o + of_rt_driver_init o })
      else after_cleanup rc (char_driver_cleanup_module ids added)

  -- `enough` says whether there is memory for the table.
  pub char_driver_init_module : Ids → (enough : Bool) → Module → Option (ℕ × Module)
  unfolding char_driver_cleanup_module add_device
  char_driver_init_module ids enough m =
      let dev = chr.mkdev ids.major_number 0 in
      let (rc, k) = chr.register_chrdev_region dev ids.minor_units m.kernel in
      let registered = record m { kernel = k; dev = dev } in
      if not (rc == 0)
      then some (rc, registered)
      else if enough
      then add_device ids
          (record registered { rt = live_table; live = λ o. m.live o + of_init_rt_table o })
      else after_cleanup rc (char_driver_cleanup_module ids registered)

  abbrev pub cleanup_mac_table : Module → Option Module
  cleanup_mac_table = cleanup_rt_table

  -- mac_register_drv.c, whose functions have the same names
  abbrev pub mac_cleanup_module : Module → Option Module
  mac_cleanup_module = char_driver_cleanup_module mac_ids

  abbrev pub mac_init_module : (enough : Bool) → Module → Option (ℕ × Module)
  mac_init_module = char_driver_init_module mac_ids
