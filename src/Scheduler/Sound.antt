-- ===== src/Scheduler/Sound.antt =====
-- The change list and the vector of the readers while only the scheduler's threads use them: nothing
-- freed is read, and nothing is freed twice.
use ribdriver.Base.{ℕ, ◌≡◌, ◌⊎◌, Bool, some, List, [], arith, some_of_ne}
use ribdriver.Memory.{Ptr, Bytes}
use ribdriver.Table.{
  Layout, Preserved, Table, Vector, null, freed, live, add_rt_table_entry_by_val, apply_rt_updates,
  purge_rt_table, rt_empty_change_list, rt_get_updated_rt_entries,
}
use ribdriver.Table.Changes.{Live, gather_total}
use ribdriver.Fops.{Driver, read_copy, copy_vector, kfree_vector}
use ribdriver.Scheduler.{
  Request, common_update, rtpurge, cr_rtentry, Pc, w_granted, w_updated, Worker, idle, writing,
  counting, gathering, granting, reading, System, Step, writer_enter, writer_resume, writer_update,
  writer_give_up, writer_finish, worker_pick, worker_resume, worker_count, worker_gather,
  worker_grant, worker_wait, worker_end, reader_enter, reader_resume, reader_copy, reader_leave,
  Reach, begin, more, writer_enters, writer_resumes, writer_updates, writer_gives_up,
  writer_finishes, worker_picks, worker_resumes, worker_counts, worker_gathers, worker_grants,
  worker_waits, worker_ends, reader_enters, reader_resumes, reader_copies, reader_leaves,
  last_reader, perform,
}
use ribdriver.Scheduler.Moves.{Reach-Good}
use ribdriver.Scheduler.Invariant.{Inv}

-- The count is that of a vector that there is, or 0.
abbrev pub IsUsable : Vector → ℕ → Type 0
IsUsable null count = count ≡ 0
IsUsable freed count = ⊥
IsUsable (live us) count = Unit

-- The change list is empty until the writer that was picked has done its update, and again when
-- the last reader has told the worker.
abbrev pub Emptied : Worker → (wc : ℕ) → (Ptr → Pc) → List Preserved → Type 0
Emptied idle wc pc changes = changes ≡ []
Emptied (writing p) wc pc changes = (wc ≡ 1) ⊎ (pc p ≡ w_updated) ⊎ (changes ≡ [])
Emptied counting wc pc changes = Unit
Emptied gathering wc pc changes = Unit
Emptied (granting k) wc pc changes = (wc ≡ 0) ⊎ (changes ≡ [])
Emptied reading wc pc changes = (wc ≡ 0) ⊎ (changes ≡ [])

pub record Sound (s : System) : Type 0 where
  pub vector : IsUsable s.driver.rt_update_vector s.driver.rt_update_vector_count
  pub changes : Live s.driver.table.rt_change_list s.driver.table.memory
  pub emptied : Emptied s.worker s.worker_completion s.pc s.driver.table.rt_change_list

module _ ⦃lay : Layout⦄ where
  perform-Live :
      (req : Request) (t : Table)
      → t.rt_change_list ≡ []
      → Live (perform req t).rt_change_list (perform req t).memory
  unfolding perform add_rt_table_entry_by_val apply_rt_updates purge_rt_table
  perform-Live (common_update fresh msg) t none_left = ground (arith)
  perform-Live rtpurge t none_left = ground arith
  perform-Live (cr_rtentry fresh entry) t none_left = ground arith

  module _ {s t : System} {active : List Ptr} (i : Inv s active) (o : Sound s) where
    writer-Sound :
        (p : Ptr) (req : Request) → s.pc p ≡ w_granted req → t ≡ writer_updates p req s → Sound t
    unfolding writer_updates
    writer-Sound p req at_p e =
        let none_left : s.driver.table.rt_change_list ≡ [] = ground (arith, i.placed p) in
        rw e (record {
          vector = o.vector;
          changes = perform-Live req s.driver.table none_left;
          emptied = ground (arith, i.placed p);
        })

    Step-Sound : Step s t → Sound t
    unfolding writer_enters writer_resumes writer_gives_up writer_finishes worker_picks
        worker_resumes worker_counts worker_gathers worker_grants worker_waits worker_ends
        reader_enters reader_resumes reader_copies reader_leaves last_reader
        rt_get_updated_rt_entries rt_empty_change_list kfree_vector
    Step-Sound (writer_enter p req ne at_p e) = ground (arith, i.placed p)
    Step-Sound (writer_resume p req at_p m e) = ground (arith, i.placed p)
    Step-Sound (writer_update p req at_p e) = writer-Sound p req at_p e
    Step-Sound (writer_give_up p fresh msg at_p e) = ground (arith, i.placed p)
    Step-Sound (writer_finish p at_p e) = ground (arith, i.placed p)
    Step-Sound (worker_pick free some_in e) = ground arith
    Step-Sound (worker_resume p at_w m e) = ground (arith)
    Step-Sound (worker_count at_w e) = ground (arith)
    Step-Sound (worker_gather no_mem at_w e) =
        ground (arith, gather_total s.driver.table.rt_change_list s.driver.table.memory o.changes)
    Step-Sound (worker_grant k at_w e) = ground arith
    Step-Sound (worker_wait at_w e) = ground arith
    Step-Sound (worker_end at_w m e) = ground (arith, i.turn)
    Step-Sound (reader_enter p ne at_p e) = ground (arith, i.placed p)
    Step-Sound (reader_resume p at_p m e) = ground (arith, i.placed p)
    Step-Sound (reader_copy p bytes at_p e) = ground (arith, i.placed p)
    Step-Sound (reader_leave p at_p e) = ground (arith, i.placed p, i.turn)

  pub Reach-Sound :
      {d : Driver} {s : System}
      → d.table.rt_change_list ≡ []
      → IsUsable d.rt_update_vector d.rt_update_vector_count
      → Reach d s
      → Sound s
  Reach-Sound none_left usable begin = record {
    vector = usable;
    changes = rw none_left tt;
    emptied = none_left;
  }
  Reach-Sound none_left usable (more r step) =
      let (active, i) = Reach-Good r in Step-Sound i (Reach-Sound none_left usable r) step

  module _ {s : System} (o : Sound s) where
    pub gathers : (no_mem : Bool) → (t : System) × (worker_gathers no_mem s ≡ some t)
    unfolding worker_gathers rt_get_updated_rt_entries
    gathers no_mem =
        some_of_ne (worker_gathers no_mem s) (
          ground
            (arith, gather_total s.driver.table.rt_change_list s.driver.table.memory o.changes))

    pub copies : (p : Ptr) → (out : Bytes × System) × (reader_copies p s ≡ some out)
    unfolding reader_copies read_copy copy_vector
    copies p = some_of_ne (reader_copies p s) (ground (arith, o.vector))

    pub leaves : (p : Ptr) → (t : System) × (reader_leaves p s ≡ some t)
    unfolding reader_leaves last_reader kfree_vector
    leaves p = some_of_ne (reader_leaves p s) (ground (arith, o.vector))

  -- From a driver whose change list is empty and whose vector is not freed, with a count of 0 if it is
  -- NULL: in every state that the scheduler's steps reach, the worker's gathering of the updates, a
  -- subscriber's copy and its way out read no freed entry or vector and free no vector twice.
  pub never_faults :
      {d : Driver} {s : System}
      → d.table.rt_change_list ≡ []
      → IsUsable d.rt_update_vector d.rt_update_vector_count
      → Reach d s
      → ((no_mem : Bool) → (t : System) × (worker_gathers no_mem s ≡ some t))
        × ((p : Ptr) → (out : Bytes × System) × (reader_copies p s ≡ some out))
        × ((p : Ptr) → (t : System) × (reader_leaves p s ≡ some t))
  never_faults none_left usable r =
      let o = Reach-Sound none_left usable r in (gathers o, copies o, leaves o)
