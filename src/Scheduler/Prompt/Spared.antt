-- ===== src/Scheduler/Prompt/Spared.antt =====
-- What prompt runs are spared: access for a writer and another thread at once, faults, and, if they
-- are calm too, a deadlock. An interrupted writer stalls them all the same.
use ribdriver.Base.{◌≡◌, Bool, false}
use ribdriver.Table.{Layout}
use ribdriver.Scheduler.Moves.{enters}
use ribdriver.Scheduler.Sound.{Sound}
use ribdriver.Scheduler.Race.{Fine, FineStep, other, one_leaves, last_complete, last_decrement}
use ribdriver.Scheduler.Prompt.{IsPrompt, Prompt}

module _ ⦃lay : Layout⦄ where
  -- A new call.
  abbrev pub is_new : {s t : Fine} → FineStep s t → Bool
  is_new (other step o e) = enters step
  is_new (one_leaves p signal free at_p may many e) = false
  is_new (last_complete p signal free at_p may one e) = false
  is_new (last_decrement p at_l e) = false

  -- A prompt step that is not a new call.
  abbrev pub GoesOn : Fine → Fine → Type 0
  GoesOn s t = (step : FineStep s t) × IsPrompt step × (is_new step ≡ false)
