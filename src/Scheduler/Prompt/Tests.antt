-- ===== src/Scheduler/Prompt/Tests.antt =====
-- Prompt runs of one writer and one subscriber, on which the theorems on them are applied.
use ribdriver.Base.{false, none, []}
use ribdriver.Table.{Layout, Update, rt_layout, null}
use ribdriver.Queue.Fifo
use ribdriver.Fops.{Driver}
use ribdriver.Scheduler.{
  rtpurge, common_update, System, start, writer_enters, writer_resumes, writer_updates,
  writer_finishes, worker_picks, worker_resumes, worker_counts, reader_enters,
}
use ribdriver.Scheduler.Race.{Fine}
use ribdriver.Scheduler.Prompt.{Prompt}

instance abbrev layout : Layout
layout = rt_layout

abbrev driver : Driver
driver = record {
  table = record { rt = []; rt_change_list = []; poll_readers_list = []; memory = λ _. none };
  rt_update_vector = null;
  rt_update_vector_count = 0;
  black_listed_poll_readers_list = [];
  rw_readers = 0;
}

-- The subscriber 8 and the writer 7 have called, and the writer has been let in.
abbrev granted : System
granted =
    writer_resumes 7 rtpurge
      (worker_picks (writer_enters 7 rtpurge (reader_enters 8 (start driver))))

abbrev counted : System
counted = worker_counts (worker_resumes (writer_finishes 7 (writer_updates 7 rtpurge granted)))

abbrev fine : System → Fine
fine s = record { system = s; permits = 1; leaving = λ _. false }

abbrev message : Update
message = record { op_code = 1; entry = record { dst_ip = []; nxt_hop_ip = []; oif = [] } }

-- The writer 7 has been let in with a message.
abbrev updating : System
updating =
    writer_resumes 7 (common_update 9 message)
      (worker_picks (writer_enters 7 (common_update 9 message) (start driver)))
