-- ===== src/Registration/Reload.antt =====
-- What unloading a module leaves behind.
use ribdriver.Base.{ℕ, ◌+◌, ◌-◌, ◌≡◌, ◌≢◌, refl, Bool, true, false, some, arith, sym, ap, ◌∙◌}
use ribdriver.Registration.{
  Chrdev, Ids, Object, live_table, freed_table, Counts, Module, loaded_afresh, of_init_rt_table,
  of_rt_driver_init, of_cleanup_rt_table, cleanup_rt_table, char_driver_cleanup_module, add_device,
  char_driver_init_module,
}

some_unique : {A : Type 0} {a b : A} → some a ≡ some b → a ≡ b
some_unique e = cc

module _ ⦃chr : Chrdev⦄ where
  abbrev registered : Ids → chr.State → ℕ × chr.State
  registered ids k = chr.register_chrdev_region (chr.mkdev ids.major_number 0) ids.minor_units k

  abbrev added : Ids → chr.State → ℕ × chr.State
  added ids k = chr.cdev_add (chr.mkdev ids.major_number 1) ids.minor_units k

  abbrev loaded : Ids → chr.State → Counts → Module
  loaded ids k live = record {
    kernel = (added ids (registered ids k).1).1;
    dev = chr.mkdev ids.major_number 1;
    rt = live_table;
    live = λ o. live o + of_init_rt_table o + of_rt_driver_init o;
  }

  -- A load succeeds in one way.
  char_driver_init_module-loaded :
      (ids : Ids) (enough : Bool) (k : chr.State) (live : Counts) (m : Module)
      → char_driver_init_module ids enough (loaded_afresh k live) ≡ some (0, m)
      → ((registered ids k).0 ≡ 0) × (m ≡ loaded ids k live)
  unfolding char_driver_init_module add_device char_driver_cleanup_module
  char_driver_init_module-loaded ids true k live m done = grind (arith, done)
  char_driver_init_module-loaded ids false k live m done = ground (arith, done)

  abbrev unloaded : Ids → chr.State → Counts → Module
  unloaded ids k live =
      let m = loaded ids k live in
      record m {
        kernel = chr.cdev_del (chr.unregister_chrdev_region m.dev ids.minor_units m.kernel);
        rt = freed_table;
        live = λ o. m.live o - of_cleanup_rt_table o;
      }

  cleanup-loaded :
      (ids : Ids) (k : chr.State) (live : Counts)
      → char_driver_cleanup_module ids (loaded ids k live) ≡ some (unloaded ids k live)
  unfolding char_driver_cleanup_module cleanup_rt_table
  cleanup-loaded ids k live = refl

  reserved-unloaded :
      (ids : Ids) (k : chr.State) (live : Counts)
      → (registered ids k).0 ≡ 0
      → chr.reserved (unloaded ids k live).kernel (chr.mkdev ids.major_number 0) ≡ true
  reserved-unloaded ids k live ok =
      chr.cdev_del-reserved _ _
      ∙ chr.unregister-other _ _ _ _ (λ e. chr.mkdev-minor _ (sym e))
      ∙ chr.cdev_add-reserved _ _ _ _
      ∙ chr.register-reserved _ _ _ ok

  -- A region that is taken is not registered again.
  char_driver_init_module-taken :
      (ids : Ids) (enough : Bool) (k : chr.State) (live : Counts)
      → chr.reserved k (chr.mkdev ids.major_number 0) ≡ true
      → (rc : ℕ) × (m : Module) × (char_driver_init_module ids enough (loaded_afresh k live)
          ≡ some (rc, m))
        × rc ≢ 0
  unfolding char_driver_init_module
  char_driver_init_module-taken ids enough k live taken =
      let refused = chr.register-taken (chr.mkdev ids.major_number 0) ids.minor_units k taken in
      (
        (registered ids k).0,
        record (loaded_afresh k live) {
          kernel = (registered ids k).1;
          dev = chr.mkdev ids.major_number 0;
        },
        ground (arith, refused),
        refused,
      )

  -- A module that was loaded and unloaded leaves its device numbers taken, since it gives back other
  -- ones than it took: unloading it does not fault, and a later load fails.
  pub char_driver_cleanup_module-reload :
      (ids : Ids) (enough : Bool) (k : chr.State) (live : Counts) (m : Module)
      → char_driver_init_module ids enough (loaded_afresh k live) ≡ some (0, m)
      → (m' : Module) × (char_driver_cleanup_module ids m ≡ some m')
        × ((enough' : Bool)
            → (rc : ℕ) × (m'' : Module) × (char_driver_init_module ids enough'
                  (loaded_afresh m'.kernel m'.live)
                ≡ some (rc, m''))
              × rc ≢ 0)
  char_driver_cleanup_module-reload ids enough k live m done =
      let (ok, is) = char_driver_init_module-loaded ids enough k live m done in
      (
        unloaded ids k live,
        ap (char_driver_cleanup_module ids) is ∙ cleanup-loaded ids k live,
        λ enough'. char_driver_init_module-taken ids enough' _ _ (reserved-unloaded ids k live ok),
      )

  -- Loading a module and unloading it leaves behind both queues, the change list, the lists of polling
  -- and of black-listed readers, and the worker thread, one more of each; the table and the list of its
  -- entries are given back.
  pub char_driver_cleanup_module-leaks :
      (ids : Ids) (enough : Bool) (k : chr.State) (live : Counts) (m m' : Module)
      → char_driver_init_module ids enough (loaded_afresh k live) ≡ some (0, m)
      → char_driver_cleanup_module ids m ≡ some m'
      → (m'.live Object.reader_queue ≡ live Object.reader_queue + 1)
        × (m'.live Object.writer_queue ≡ live Object.writer_queue + 1)
        × (m'.live Object.change_list ≡ live Object.change_list + 1)
        × (m'.live Object.poll_readers_list ≡ live Object.poll_readers_list + 1)
        × (m'.live Object.black_listed_poll_readers_list
            ≡ live Object.black_listed_poll_readers_list + 1)
        × (m'.live Object.worker_thread ≡ live Object.worker_thread + 1)
        × (m'.live Object.table ≡ live Object.table)
        × (m'.live Object.entries ≡ live Object.entries)
  char_driver_cleanup_module-leaks ids enough k live m m' done gone =
      let (ok, is) = char_driver_init_module-loaded ids enough k live m done in
      let same : m' ≡ unloaded ids k live =
        some_unique
          (sym gone ∙ ap (char_driver_cleanup_module ids) is ∙ cleanup-loaded ids k live) in
      rw same (
        omega arith,
        omega arith,
        omega arith,
        omega arith,
        omega arith,
        omega arith,
        omega arith,
        omega arith,
      )
