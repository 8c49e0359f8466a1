-- ===== src/Tests/Serve.antt =====
-- The theorems on `serve_work` at a concrete run: one file, one worker.
use exposure.Base.{
  ◌+◌, ◌++◌, ◌≤◌, ◌≡◌, refl, true, false, ◌⊎◌, some, none, Option, List, [], ◌∷◌, length, count,
  arith,
}
use exposure.Base.Text.{Text, text_eq}
use exposure.Base.Map
use exposure.Base.Outcome.{ok, err, assertion}
use exposure.Protocol.Schema.{request}
use exposure.Protocol.Command.{
  Job, helo, ehlo, heartbeat, bye, job, histogram_job, equalisation_job, job_eq_result,
}
use exposure.Algorithm.Equalisation.{identity_equalisation_histogram_mapping}
use exposure.Server.State.{
  Server, init, transmit_work, transmit_loop, send_heartbeats, heartbeat_loop, dismiss_all,
  dismiss_workers,
}
use exposure.Server.Dispatch.{
  Histograms, Images, complete, visit_images, visit_helo, visit_communication, erase_answered,
}
use exposure.Server.Phases.{
  receive, communicate, receive_equalised, enqueue_files, serve_existing, image_loop,
  equalisation_jobs, all_equalisation_jobs,
}
use exposure.Server.Receive.{receive-to_message}
use exposure.Server.HistogramPhase.{regular_files}
use exposure.Server.Serve.{
  Message, Traffic, Ended, push_jobs, push_equalisation_jobs, communicate_all, wait_equalised,
  finish, serve_work,
}
use exposure.Server.Pending.{pending, held}
use exposure.Server.Balance.{any_job}
use exposure.Server.Serve.Complete.{serve_work_complete, assertion_races}
use exposure.Tests.Codec.{codec}
use exposure.Tests.Algorithm.{whole}
use exposure.Tests.Server.{
  a_name, w_name, entries, flat, a_histogram, joins, joins_fits, a_histogram_fits, first_phase,
  finished, joined_worker, regular_distinct,
}
use exposure.Tests.Phases
use exposure.Tests.Server

abbrev equalise : Job
equalise = equalisation_job a_name (identity_equalisation_histogram_mapping whole)

abbrev pushed : Server
pushed = record finished.server { enqueued_work = equalise ∷ [] }

abbrev left_by_all : Server
left_by_all = record init {
  work_sent = (w_name, job (histogram_job a_name)) ∷ (w_name, job equalise) ∷ (w_name, bye) ∷ [];
  communication_sent = finished.server.communication_sent;
}

abbrev pub served : Images
served = record {
  server = record left_by_all {
    worker_queues = (w_name, joined_worker) ∷ [];
    communication_sent =
        finished.server.communication_sent ++ (w_name, ehlo) ∷ (w_name, heartbeat request) ∷ [];
  };
  equalised_count = 1;
  written = (a_name, 7 ∷ []) ∷ [];
}

-- The worker's HELO and histogram, its image, and a HELO of another worker at the very end.
abbrev pub traffic : Traffic
traffic = record {
  first = Server.events;
  pushes = [];
  starting = [];
  second = Phases.events;
  closing = [];
  late = record { now = 0; sender = w_name; content = joins } ∷ [];
}

abbrev pub ended : Ended
ended = record { images = served; thrown = false }

joins_at_end : receive codec (visit_communication 0 w_name) joins left_by_all ≡ ok served.server
unfolding visit_communication visit_helo transmit_work transmit_loop Map.find Map.insert Map.place
    Map.assign text_eq
joins_at_end = receive-to_message codec (visit_communication 0 w_name) (helo 1) _ tt joins_fits

pub run_ends : serve_work codec whole entries traffic ≡ ok (some ended)
unfolding serve_work wait_equalised finish communicate_all communicate push_equalisation_jobs
    push_jobs all_equalisation_jobs equalisation_jobs receive_equalised serve_existing image_loop
    visit_images complete erase_answered transmit_work transmit_loop job_eq_result text_eq Map.find
    Map.assign send_heartbeats heartbeat_loop dismiss_all dismiss_workers enqueue_files
    identity_equalisation_histogram_mapping
run_ends = rw (
  first_phase,
  receive-to_message codec (visit_images w_name) Phases.image _ (omega arith) Phases.image_fits,
  joins_at_end,
)

serve_work_complete_example :
    (pending any_job served.server + served.equalised_count ≤ length (regular_files entries))
    × ((ended.thrown ≡ true)
        ⊎ ((served.server.enqueued_work ≡ [])
            × (held any_job served.server.worker_queues ≡ 0)
            × (served.equalised_count ≡ length (regular_files entries))
            × ((f : Text)
                → count (text_eq f) (regular_files entries)
                  ≤ count (text_eq f) (Map.keys served.written))))
serve_work_complete_example =
    serve_work_complete codec whole entries traffic ended regular_distinct run_ends

-- The first phase is over, no worker is there, and one joins after the push.
abbrev nobody : Histograms
nobody = record { server = init; results = (a_name, flat) ∷ [] }

abbrev joined_late : Server
joined_late = record init {
  worker_queues = (w_name, record joined_worker { work = equalise ∷ [] }) ∷ [];
  work_sent = (w_name, job equalise) ∷ [];
  communication_sent = finished.server.communication_sent;
}

abbrev joins_late : List (Option Message)
joins_late = none ∷ some (record { now = 0; sender = w_name; content = joins }) ∷ []

join_between : push_jobs codec joins_late (equalise ∷ []) nobody.server ≡ ok joined_late
unfolding push_jobs communicate visit_communication visit_helo transmit_work transmit_loop Map.find
    Map.insert Map.assign text_eq
join_between = rw (receive-to_message codec (visit_communication 0 w_name) (helo 1) _ tt joins_fits)

one_job_made : all_equalisation_jobs whole nobody.results ≡ ok (equalise ∷ [])
unfolding all_equalisation_jobs equalisation_jobs
one_job_made = refl

assertion_races_example :
    push_equalisation_jobs codec whole (length nobody.results) joins_late nobody ≡ err assertion
assertion_races_example =
    assertion_races codec whole joins_late nobody (equalise ∷ []) joined_late refl refl one_job_made
      join_between
