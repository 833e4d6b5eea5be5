-- ===== src/Scheduler/Steps.antt =====
-- Every step of the scheduler keeps its invariant.
mod Writers
mod Worker
mod Readers
mod Arrivals
pub use ribdriver.Scheduler.Steps.Writers.{
  writer_resumes-Inv, writer_updates-Inv, writer_finishes-Inv, writer_gives_up-Inv,
}
pub use ribdriver.Scheduler.Steps.Worker.{
  picked-Inv, worker_resumes-Inv, counted_none-Inv, counted_some-Inv, worker_counts-Inv,
  gathered-Inv, granted-Inv, worker_waits-Inv, worker_ends-Inv,
}
pub use ribdriver.Scheduler.Steps.Readers.{reader_resumes-Inv, copied-Inv, last_left-Inv, left-Inv}
pub use ribdriver.Scheduler.Steps.Arrivals.{writer_enters-Inv, reader_enters-Inv}
