-- ===== src/Server/Dispatch.antt =====
-- The visitors of src/server.cpp. `visit` picks the method by the class of the command: a clause
-- for each class. A method that only logs leaves the state as it is.
use exposure.Base.{
  ℕ, suc, true, false, Option, none, some, List, [], ◌∷◌, ◌++◌, reverse, min, is_empty,
  if◌then◌else◌,
}
use exposure.Base.Text.{Text}
use exposure.Base.Map
use exposure.Base.Map.{Map}
use exposure.Base.Outcome.{Outcome, ok, err, ◌>>=◌, past_the_end, null_dereference}
use exposure.Config.{max_worker_queue}
use exposure.Protocol.Schema.{Float32, HeartbeatType, request, reply, unrecognised}
use exposure.Protocol.Command.{
  Job, Result, histogram_result, equalisation_result, Command, helo, ehlo, job, result, heartbeat,
  bye, job_eq_result,
}
use exposure.Server.State.{WorkerData, Server, send_communication_message, transmit_work}

-- `queue.erase(std::find_if(…))`: where no entry is equal, `erase(end())`.
unfoldable pub erase_answered : Result → List Job → Outcome (List Job)
erase_answered r [] = err past_the_end
erase_answered r (j ∷ js) =
    let rest = erase_answered r js in
    do equal ← job_eq_result j r; if equal then ok js else (do js' ← rest; ok (j ∷ js'))

-- `ServerWorkVisitor::visit_bye`: the worker's jobs go to the back of the queue, the last one
-- first. A worker that is not registered makes `erase(end())`.
unfoldable pub visit_work_bye : Text → Server → Outcome Server
visit_work_bye worker s = elim (Map.find worker s.worker_queues) [
  | none ↦ err past_the_end
  | some w ↦ ok (record s {
    enqueued_work = s.enqueued_work ++ reverse w.work;
    worker_queues = Map.erase worker s.worker_queues;
  })
]

-- The part that both result visitors share: the job is taken off the worker's queue, and the
-- worker gets more, if there is more.
unfoldable pub complete : Text → Result → WorkerData → Server → Outcome Server
complete worker r w s = do
  work ← erase_answered r w.work
  let s' = record s { worker_queues = Map.assign worker (record w { work = work }) s.worker_queues }
  if is_empty s.enqueued_work then ok s' else transmit_work worker s'

-- The server with what a phase collects: `histogram_results`, or `equalised_count` and the images
-- that are written to disk, by file name.
pub record Histograms : Type 0 where
  pub server : Server
  pub results : Map (List Float32)

pub record Images : Type 0 where
  pub server : Server
  pub equalised_count : ℕ
  pub written : List (Text × List ℕ)

abbrev with_server : Histograms → Server → Histograms
with_server p s = record p { server = s }

abbrev with_server_images : Images → Server → Images
with_server_images p s = record p { server = s }

-- `ServerHistogramCommandVisitor`. An unknown worker makes `at` throw `out_of_range`, which is
-- caught, before anything is recorded.
unfoldable pub visit_histogram_result : Text → Text → List Float32 → Histograms → Outcome Histograms
visit_histogram_result worker f h p = elim (Map.find worker p.server.worker_queues) [
  | none ↦ ok p
  | some w ↦ complete worker (histogram_result f h) w p.server >>= λ s.
      ok (record { server = s; results = Map.insert f h p.results })
]

unfoldable pub visit_histograms : Text → Command → Histograms → Outcome Histograms
unfolding visit_histogram_result
visit_histograms worker (helo n) p = ok p
visit_histograms worker ehlo p = ok p
visit_histograms worker (job j) p = ok p
visit_histograms worker (result (histogram_result f h)) p = visit_histogram_result worker f h p
visit_histograms worker (result (equalisation_result f t)) p = ok p
visit_histograms worker (heartbeat t) p = ok p
visit_histograms worker bye p = visit_work_bye worker p.server >>= λ s. ok (with_server p s)

-- `ServerEqualisationCommandVisitor`. The image is written before the worker is looked up.
unfoldable pub visit_equalisation_result : Text → Text → List ℕ → Images → Outcome Images
visit_equalisation_result worker f t p =
    let written = p.written ++ (f, t) ∷ [] in
    elim (Map.find worker p.server.worker_queues) [
      | none ↦ ok (record p { written = written })
      | some w ↦ complete worker (equalisation_result f t) w p.server >>= λ s.
          ok (record { server = s; equalised_count = suc p.equalised_count; written = written })
    ]

unfoldable pub visit_images : Text → Command → Images → Outcome Images
unfolding visit_equalisation_result
visit_images worker (helo n) p = ok p
visit_images worker ehlo p = ok p
visit_images worker (job j) p = ok p
visit_images worker (result (histogram_result f h)) p = ok p
visit_images worker (result (equalisation_result f t)) p = visit_equalisation_result worker f t p
visit_images worker (heartbeat t) p = ok p
visit_images worker bye p = visit_work_bye worker p.server >>= λ s. ok (with_server_images p s)

-- `ServerCommunicationVisitor::visit_helo`, at the time `now`
unfoldable pub visit_helo : ℕ → Text → ℕ → Server → Outcome Server
visit_helo now worker concurrency s =
    let w : WorkerData = record {
      work = [];
      last_heartbeat_request = now;
      heartbeat_reply_received = false;
      concurrency = min concurrency max_worker_queue;
    } in
    transmit_work worker (
      send_communication_message worker (heartbeat request) (
        send_communication_message worker ehlo
          (record s { worker_queues = Map.insert worker w s.worker_queues })))

unfoldable pub visit_heartbeat : Text → HeartbeatType → Server → Server
visit_heartbeat worker request s = send_communication_message worker (heartbeat reply) s
visit_heartbeat worker reply s = elim (Map.find worker s.worker_queues) [
  | none ↦ s
  | some w ↦ record s {
    worker_queues =
        Map.assign worker (record w { heartbeat_reply_received = true }) s.worker_queues;
  }
]
visit_heartbeat worker (unrecognised n) s = s

unfoldable pub visit_communication : ℕ → Text → Command → Server → Outcome Server
unfolding visit_helo visit_heartbeat
visit_communication now worker (helo n) s = visit_helo now worker n s
visit_communication now worker ehlo s = ok s
visit_communication now worker (job j) s = ok s
visit_communication now worker (result r) s = ok s
visit_communication now worker (heartbeat t) s = ok (visit_heartbeat worker t s)
visit_communication now worker bye s = ok s

-- `command->visit(visitor)` through a pointer that may be null.
abbrev pub visit {ℓ} : {S : Type ℓ} → (Command → S → Outcome S) → Option Command → S → Outcome S
visit visitor none s = err null_dereference
visit visitor (some c) s = visitor c s
