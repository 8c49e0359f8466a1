-- ===== src/Tests/Work.antt =====
-- The theorems on single operations of the server at concrete states.
use exposure.Base.{suc, ◌≡◌, refl, false, some, List, [], ◌∷◌, length, arith}
use exposure.Base.Text.{Text, bytes, text_eq}
use exposure.Base.Map
use exposure.Base.Map.{Map}
use exposure.Base.Outcome.{ok, err, past_the_end}
use exposure.Protocol.Command.{Job, job, histogram_job}
use exposure.Server.State.{
  WorkerData, Server, init, Readings, transmit_work, send_heartbeats, heartbeat_loop, dismiss_all,
  dismiss_worker,
}
use exposure.Server.Transmit.{transmit_work-eq-move}
use exposure.Server.Dispatch.{Histograms, Images, visit_histogram_result, visit_equalisation_result}
use exposure.Server.Pending.{pending, pending-send_heartbeats}
use exposure.Server.Balance.{AreDistinct, IsBalanced, any_job}
use exposure.Server.Progress.{visit_histogram_result_accepted, unasked_result_faults}

abbrev a_name : Text
a_name = bytes "a"

abbrev b_name : Text
b_name = bytes "b"

abbrev w_name : Text
w_name = bytes "w"

abbrev worker_with : List Job → WorkerData
worker_with jobs = record {
  work = jobs;
  last_heartbeat_request = 0;
  heartbeat_reply_received = false;
  concurrency = 2;
}

abbrev server_with : List Job → List Job → Server
server_with queued held = record init {
  enqueued_work = queued;
  worker_queues = (w_name, worker_with held) ∷ [];
}

abbrev two_jobs : List Job
two_jobs = histogram_job a_name ∷ histogram_job b_name ∷ []

w_found :
    (queued held : List Job)
    → Map.find w_name (server_with queued held).worker_queues ≡ some (worker_with held)
unfolding Map.find text_eq
w_found queued held = refl

transmit_work-eq-move_example :
    transmit_work w_name (server_with two_jobs (histogram_job w_name ∷ []))
    ≡ ok
        (record (server_with
          (histogram_job b_name ∷ [])
          (histogram_job w_name ∷ histogram_job a_name ∷ [])) {
            work_sent = (w_name, job (histogram_job a_name)) ∷ [];
          })
unfolding Map.assign text_eq
transmit_work-eq-move_example =
    transmit_work-eq-move w_name (server_with two_jobs (histogram_job w_name ∷ []))
      (worker_with (histogram_job w_name ∷ [])) (w_found two_jobs (histogram_job w_name ∷ []))

abbrev asked : Histograms
asked = record { server = server_with [] (histogram_job a_name ∷ []); results = [] }

abbrev unasked : Histograms
unasked = record { server = server_with [] []; results = [] }

abbrev unasked_images : Images
unasked_images = record { server = server_with [] []; equalised_count = 0; written = [] }

one_name : AreDistinct (a_name ∷ [])
one_name f = ground arith

asked-IsBalanced : IsBalanced (a_name ∷ []) asked
asked-IsBalanced = record { kinds = refl; each = λ f. ground arith; total = refl }

visit_histogram_result_accepted_example :
    (q : Histograms) × (visit_histogram_result w_name a_name [] asked ≡ ok q)
    × (length q.results ≡ 1)
    × (1 ≡ suc (pending any_job q.server))
    × IsBalanced (a_name ∷ []) q
unfolding text_eq
visit_histogram_result_accepted_example =
    visit_histogram_result_accepted (a_name ∷ []) w_name a_name [] asked
      (worker_with (histogram_job a_name ∷ [])) one_name asked-IsBalanced
      (w_found [] (histogram_job a_name ∷ [])) (omega arith)

unasked_result_faults_example :
    (visit_histogram_result w_name a_name [] unasked ≡ err past_the_end)
    × (visit_equalisation_result w_name a_name [] unasked_images ≡ err past_the_end)
unasked_result_faults_example =
    unasked_result_faults w_name a_name [] [] unasked unasked_images (worker_with [])
      (worker_with []) (w_found [] []) (w_found [] []) refl refl

abbrev late : Text → Readings
late worker = record { at_test = 7000; after_request = 7001 }

pending-send_heartbeats_example :
    pending any_job (send_heartbeats late (server_with [] two_jobs)) ≡ 2
pending-send_heartbeats_example = pending-send_heartbeats any_job late (server_with [] two_jobs)

late_worker_dismissed : (send_heartbeats late (server_with [] two_jobs)).worker_queues ≡ []
unfolding send_heartbeats heartbeat_loop dismiss_all dismiss_worker Map.find Map.erase text_eq
late_worker_dismissed = refl
