-- ===== src/Fops/Reads.antt =====
-- Several calls of `rt_read` at once: between its two sections under the semaphore, and while it
-- copies, other readers go on. No signal comes, and no writer gets in while a reader holds `rw_sem`.
pub mod Underway
pub mod Sharing
use ribdriver.Base.{
  ℕ, ◌+◌, ◌-◌, ◌≡◌, Bool, true, false, Option, none, some, ◌==◌, if◌then◌else◌, length,
}
use ribdriver.Memory.{Bytes, set_at}
use ribdriver.Base.Members.{present}
use ribdriver.Table.{Layout, File}
use ribdriver.Fops.{Driver, read_enter, read_copy, read_leave}

-- How far the read of a file is, and what it has: the bytes in the user buffer and `rc`.
pub data Progress : Type 0 where
  outside : Progress
  entered : Progress
  copied : Bytes → (rc : ℕ) → Progress
  returned : Bytes → (rc : ℕ) → Progress

pub record Reads : Type 0 where
  pub driver : Driver
  pub at : File → Progress

-- `down_read` and the first section under the semaphore; `none` is a read of a freed entry.
unfoldable pub enters : (no_mem : Bool) → File → Reads → Option Reads
enters no_mem f s =
    elim (read_enter no_mem (record (s.driver) { rw_readers = s.driver.rw_readers + 1 })) [
      | none ↦ none
      | some d ↦ some (record { driver = d; at = set_at s.at f entered })
    ]

module _ ⦃lay : Layout⦄ where
  -- The copy, under no semaphore; `none` is a read of a freed vector.
  unfoldable pub copies : File → Reads → Option Reads
  unfolding read_copy
  copies f s = elim (read_copy s.driver) [
    | none ↦ none
    | some bytes ↦
        some (record s { at = set_at s.at f (copied bytes s.driver.rt_update_vector_count) })
  ]

-- The second section and `up_read`. The last reader takes the count once more; `none` is a second free.
unfoldable pub leaves : File → Bytes → (rc : ℕ) → Reads → Option Reads
leaves f bytes rc s =
    let rc' =
      if length s.driver.table.poll_readers_list == 1
      then s.driver.rt_update_vector_count
      else rc in
    elim (read_leave f s.driver) [
      | none ↦ none
      | some d ↦ some (record {
        driver = record d { rw_readers = d.rw_readers - 1 };
        at = set_at s.at f (returned bytes rc');
      })
    ]

module _ ⦃lay : Layout⦄ where
  -- A registered reader comes, or some reader goes on.
  pub data ReadStep (s t : Reads) : Type 0 where
    enter :
        (f : File)
        → s.at f ≡ outside
        → present f s.driver.table.poll_readers_list ≡ true
        → enters false f s ≡ some t
        → ReadStep s t
    copy : (f : File) → s.at f ≡ entered → copies f s ≡ some t → ReadStep s t
    leave :
        (f : File) (bytes : Bytes) (rc : ℕ)
        → s.at f ≡ copied bytes rc
        → leaves f bytes rc s ≡ some t
        → ReadStep s t

  -- The reader whose step it is.
  abbrev pub reader_of : {s t : Reads} → ReadStep s t → File
  reader_of (enter f at_f here e) = f
  reader_of (copy f at_f e) = f
  reader_of (leave f bytes rc at_f e) = f

  pub data Interleaved (d : Driver) : Reads → Type 0 where
    begin : Interleaved d (record { driver = d; at = λ _. outside })
    more : {s t : Reads} → Interleaved d s → ReadStep s t → Interleaved d t
