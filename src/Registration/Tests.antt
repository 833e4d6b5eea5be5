-- ===== src/Registration/Tests.antt =====
-- A kernel that lists the regions that are taken.
use ribdriver.Base.{
  ℕ, ◌+◌, ◌*◌, ◌-◌, ◌^◌, ◌≡◌, ◌≢◌, refl, Bool, true, some, List, [], ◌∷◌, if◌then◌else◌, arith,
}
use ribdriver.Base.Members.{present, erase}
use ribdriver.Registration.{
  Chrdev, Ids, rt_ids, mac_ids, Object, Counts, Module, live_table, freed_table,
  of_cleanup_rt_table, of_init_rt_table, of_rt_driver_init, loaded_afresh,
  char_driver_cleanup_module, char_driver_init_module, mac_init_module,
}
use ribdriver.Registration.Reload.{
  char_driver_cleanup_module-reload, char_driver_cleanup_module-leaks,
}

present-erase_other :
    (d other : ℕ) (s : List ℕ) → d ≢ other → present other (erase d s) ≡ present other s
present-erase_other d other [] ne = refl
present-erase_other d other (x ∷ xs) ne = ground (arith, present-erase_other d other xs ne)

abbrev make_dev : ℕ → ℕ → ℕ
make_dev major minor = major * 2 ^ 20 + minor

abbrev register : ℕ → List ℕ → ℕ × List ℕ
register d s = if present d s then (16, s) else (0, d ∷ s)

make_dev-minor : (major : ℕ) → make_dev major 0 ≢ make_dev major 1
make_dev-minor major = ground arith

present-register : (d : ℕ) (s : List ℕ) → (register d s).0 ≡ 0 → present d (register d s).1 ≡ true
present-register d s = ground arith

register-present : (d : ℕ) (s : List ℕ) → present d s ≡ true → (register d s).0 ≢ 0
register-present d s = ground arith

instance abbrev kernel : Chrdev
kernel = record {
  State = List ℕ;
  mkdev = make_dev;
  reserved = λ s d. present d s;
  register_chrdev_region = λ d n s. register d s;
  unregister_chrdev_region = λ d n s. erase d s;
  cdev_add = λ d n s. (0, s);
  cdev_del = λ s. s;
  mkdev-minor = make_dev-minor;
  register-reserved = λ d n s. present-register d s;
  register-taken = λ d n s. register-present d s;
  unregister-other = λ d n other s. present-erase_other d other s;
  cdev_add-reserved = λ d n other s. refl;
  cdev_del-reserved = λ other s. refl;
}

abbrev nothing : Counts
nothing o = 0

abbrev module_loaded : Module
module_loaded = record {
  kernel = 256901120 ∷ [];
  dev = 256901121;
  rt = live_table;
  live = λ o. 0 + of_init_rt_table o + of_rt_driver_init o;
}

loads : char_driver_init_module rt_ids true (loaded_afresh [] nothing) ≡ some (0, module_loaded)
unfolding char_driver_init_module
loads = refl

char_driver_cleanup_module-reload_example :
    (m' : Module) × (char_driver_cleanup_module rt_ids module_loaded ≡ some m')
    × ((enough' : Bool)
        → (rc : ℕ) × (m'' : Module) × (char_driver_init_module rt_ids enough'
              (loaded_afresh m'.kernel m'.live)
            ≡ some (rc, m''))
          × rc ≢ 0)
char_driver_cleanup_module-reload_example =
    char_driver_cleanup_module-reload rt_ids true [] nothing module_loaded loads

abbrev module_unloaded : Module
module_unloaded = record {
  kernel = 256901120 ∷ [];
  dev = 256901121;
  rt = freed_table;
  live = λ o. 0 + of_init_rt_table o + of_rt_driver_init o - of_cleanup_rt_table o;
}

unloads : char_driver_cleanup_module rt_ids module_loaded ≡ some module_unloaded
unfolding char_driver_cleanup_module ribdriver.Registration.cleanup_rt_table
unloads = refl

char_driver_cleanup_module-leaks_example :
    (module_unloaded.live Object.reader_queue ≡ 1)
    × (module_unloaded.live Object.writer_queue ≡ 1)
    × (module_unloaded.live Object.change_list ≡ 1)
    × (module_unloaded.live Object.poll_readers_list ≡ 1)
    × (module_unloaded.live Object.black_listed_poll_readers_list ≡ 1)
    × (module_unloaded.live Object.worker_thread ≡ 1)
    × (module_unloaded.live Object.table ≡ 0)
    × (module_unloaded.live Object.entries ≡ 0)
char_driver_cleanup_module-leaks_example =
    char_driver_cleanup_module-leaks rt_ids true [] nothing module_loaded module_unloaded loads
      unloads
