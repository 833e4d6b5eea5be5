-- ===== src/Fops/Reads/Sharing.antt =====
-- Every interleaving of the registered readers' reads gives each of them the pending updates.
use ribdriver.Base.{◌≡◌}
use ribdriver.Table.{Layout, File}
use ribdriver.Fops.Reads.{Reads, ReadStep, reader_of}
use ribdriver.Fops.Reads.Underway.{Underway}

module _ ⦃lay : Layout⦄ where
  -- A registered reader can go on.
  abbrev pub GoesOn : File → Reads → Type 0
  GoesOn f s = (t : Reads) × (step : ReadStep s t) × (reader_of step ≡ f)
