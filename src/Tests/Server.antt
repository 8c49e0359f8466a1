-- ===== src/Tests/Server.antt =====
-- The theorems on the server at concrete runs.
use exposure.Base.{
  ℕ, ◌*◌, ◌≤◌, ◌≡◌, true, false, List, [], ◌∷◌, length, count, replicate, arith, length-replicate,
  Bool,
}
use exposure.Base.Text.{Text, bytes, text_eq}
use exposure.Base.Map
use exposure.Base.Map.{Map}
use exposure.Base.Outcome.{ok}
use exposure.Config.{histogram_segments, max_message_size}
use exposure.Protocol.Schema.{Float32, request}
use exposure.Protocol.Command.{
  Command, helo, ehlo, heartbeat, job, result, histogram_job, histogram_result, job_eq_result,
}
use exposure.Protocol.Encode.{to_message, build}
use exposure.Protocol.Encode.RoundTrip.{copy_floats-eq}
use exposure.Server.State.{WorkerData, Readings, transmit_work, transmit_loop}
use exposure.Server.Dispatch.{
  Histograms, complete, visit_histograms, visit_communication, erase_answered,
}
use exposure.Server.Phases.{
  Event, work_message, communication_message, returned, receive_histograms, enqueue_files,
  histogram_start,
}
use exposure.Server.Pending.{held}
use exposure.Server.Balance.{AreDistinct, any_job}
use exposure.Server.Receive.{receive-to_message}
use exposure.Server.HistogramPhase.{regular_files, receive_histograms_complete}
use exposure.Tests.Codec.{codec}

abbrev pub a_name : Text
a_name = bytes "a"

abbrev pub w_name : Text
w_name = bytes "w"

abbrev pub entries : List (Text × Bool)
entries = (a_name, true) ∷ (bytes "d", false) ∷ []

abbrev pub flat : List Float32
flat = replicate histogram_segments 0

abbrev pub a_histogram : Command
a_histogram = result (histogram_result a_name flat)

abbrev pub readings : Text → Readings
readings worker = record { at_test = 0; after_request = 0 }

abbrev pub joins : Text
joins = to_message codec (helo 1)

abbrev pub events : List Event
events =
    communication_message 0 w_name joins
    ∷ work_message readings w_name (to_message codec a_histogram)
    ∷ []

pub joins_fits : 2 * length joins ≤ 8 * max_message_size
unfolding to_message build codec
joins_fits = omega arith

pub a_histogram_fits : 2 * length (to_message codec a_histogram) ≤ 8 * max_message_size
unfolding to_message build codec
a_histogram_fits = rw copy_floats-eq (omega arith)

abbrev pub joined_worker : WorkerData
joined_worker = record {
  work = [];
  last_heartbeat_request = 0;
  heartbeat_reply_received = false;
  concurrency = 1;
}

abbrev pub finished : Histograms
finished = record {
  server = record {
    enqueued_work = [];
    worker_queues = (w_name, joined_worker) ∷ [];
    work_sent = (w_name, job (histogram_job a_name)) ∷ [];
    communication_sent = (w_name, ehlo) ∷ (w_name, heartbeat request) ∷ [];
    communication_lost = false;
  };
  results = (a_name, flat) ∷ [];
}

pub first_phase :
    receive_histograms codec (length (enqueue_files entries)) events (histogram_start entries)
    ≡ ok (returned finished [])
unfolding receive_histograms enqueue_files visit_communication visit_histograms complete
    erase_answered transmit_work transmit_loop job_eq_result text_eq Map.find Map.insert Map.assign
first_phase = rw (
  receive-to_message codec (visit_communication 0 w_name) (helo 1) (histogram_start entries).server
      tt joins_fits,
  receive-to_message codec (visit_histograms w_name) a_histogram _ (length-replicate {A = ℕ} 1024 0)
      a_histogram_fits,
)

pub regular_distinct : AreDistinct (regular_files entries)
unfolding text_eq
regular_distinct f = ground arith

receive_histograms_complete_example :
    (finished.server.enqueued_work ≡ [])
    × (held any_job finished.server.worker_queues ≡ 0)
    × (length finished.results ≡ length (regular_files entries))
    × ((f : Text)
        → count (text_eq f) (Map.keys finished.results) ≡ count (text_eq f) (regular_files entries))
receive_histograms_complete_example =
    receive_histograms_complete codec entries events [] finished regular_distinct first_phase
