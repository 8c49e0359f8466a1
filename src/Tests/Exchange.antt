-- ===== src/Tests/Exchange.antt =====
-- The theorems on a worker that runs its jobs, and on a server and a worker together, at concrete
-- runs.
use exposure.Base.{◌*◌, ◌≤◌, ◌≡◌, refl, some, List, [], ◌∷◌, length, arith, length-replicate, ℕ}
use exposure.Base.Outcome.{ok}
use exposure.Config.{max_message_size}
use exposure.Protocol.Command.{Job, helo, job, histogram_job, equalisation_job}
use exposure.Protocol.Encode.{to_message, build}
use exposure.Server.Dispatch.{Histograms}
use exposure.Server.Phases.{
  communication_message, returned, receive_histograms, enqueue_files, histogram_start,
}
use exposure.Worker.Connection.{Connection, ImageFiles, unused}
use exposure.Worker.Working.{hear_and_run_all}
use exposure.Worker.Working.Exchange.{ready, to_worker, to_server, server_and_worker}
use exposure.Tests.Codec.{codec}
use exposure.Tests.Server.{
  a_name, w_name, entries, flat, readings, joins_fits, a_histogram_fits, regular_distinct,
}

abbrev all_flat : ImageFiles
all_flat = record { image_get_histogram = λ f. ok (some flat); image_equalise = λ f m. ok [] }

job_fits : 2 * length (to_message codec (job (histogram_job a_name))) ≤ 8 * max_message_size
unfolding to_message build codec
job_fits = omega arith

server_and_worker_example :
    (q : Histograms) × (d : Connection) × (hear_and_run_all codec 4 all_flat
        (to_worker codec q.server.work_sent)
        (ready [] 0 unused)
      ≡ ok d)
    × (receive_histograms codec
          (length (enqueue_files entries))
          (communication_message 0 w_name (to_message codec (helo 1))
            ∷ to_server codec w_name readings d.work_sent)
          (histogram_start entries)
        ≡ ok (returned q []))
server_and_worker_example =
    server_and_worker codec entries w_name 0 1 4 0 readings all_flat (λ f. flat) unused
      regular_distinct (omega arith) (omega arith) joins_fits refl (refl, tt)
      (length-replicate {A = ℕ} 1024 0, a_histogram_fits, tt) (job_fits, tt)

abbrev two_jobs : List Job
two_jobs = histogram_job a_name ∷ equalisation_job w_name flat ∷ []
