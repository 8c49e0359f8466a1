-- ===== src/Tests/Phases.antt =====
-- The theorems on the second phase, and on the limits of both, at concrete runs.
use exposure.Base.{◌*◌, ◌≤◌, ◌≡◌, false, List, [], ◌∷◌, length, count, arith}
use exposure.Base.Text.{Text, bytes, text_eq}
use exposure.Base.Map
use exposure.Base.Outcome.{ok}
use exposure.Protocol.Chunks.{split_tiff}
use exposure.Config.{max_message_size}
use exposure.Protocol.Command.{
  Command, Job, job, result, equalisation_job, equalisation_result, job_eq_result,
}
use exposure.Protocol.Encode.{to_message, build}
use exposure.Server.State.{
  WorkerData, Server, init, Readings, transmit_work, transmit_loop, send_heartbeats, heartbeat_loop,
  dismiss_all,
}
use exposure.Server.Dispatch.{Images, complete, erase_answered, visit_images}
use exposure.Server.Phases.{
  Event, work_message, work_timeout, returned, receive_equalised, serve_existing, image_loop,
  enqueue_files, histogram_start,
}
use exposure.Server.Pending.{pending, held}
use exposure.Server.Balance.{any_job, is_for}
use exposure.Server.Receive.{receive-to_message}
use exposure.Server.ImagePhase.{receive_equalised_complete}
use exposure.Server.Capacity.{IsBounded}
use exposure.Server.Limits.{receive_histograms-IsBounded, receive_equalised-IsBounded}
use exposure.Tests.Codec.{codec}
use exposure.Tests.Server

abbrev a_name : Text
a_name = bytes "a"

abbrev w_name : Text
w_name = bytes "w"

abbrev worker_with : List Job → WorkerData
worker_with jobs = record {
  work = jobs;
  last_heartbeat_request = 0;
  heartbeat_reply_received = false;
  concurrency = 2;
}

abbrev queued : Server
queued = record init {
  enqueued_work = equalisation_job a_name [] ∷ [];
  worker_queues = (w_name, worker_with []) ∷ [];
}

abbrev pub image : Command
image = result (equalisation_result a_name (7 ∷ []))

abbrev early : Text → Readings
early worker = record { at_test = 10; after_request = 11 }

abbrev pub events : List Event
events = work_timeout early ∷ work_message early w_name (to_message codec image) ∷ []

abbrev finished : Images
finished = record {
  server = record init {
    worker_queues = (w_name, worker_with []) ∷ [];
    work_sent = (w_name, job (equalisation_job a_name [])) ∷ [];
  };
  equalised_count = 1;
  written = (a_name, 7 ∷ []) ∷ [];
}

pub image_fits : 2 * length (to_message codec image) ≤ 8 * max_message_size
unfolding to_message build codec split_tiff
image_fits = omega arith

second_phase :
    receive_equalised codec (pending any_job queued) events queued ≡ ok (returned finished [])
unfolding receive_equalised serve_existing image_loop visit_images complete erase_answered
    transmit_work transmit_loop job_eq_result text_eq Map.find Map.assign send_heartbeats
    heartbeat_loop dismiss_all
second_phase = rw (receive-to_message codec (visit_images w_name) image _ (omega arith) image_fits)

receive_equalised_complete_example :
    (finished.server.enqueued_work ≡ [])
    × (held any_job finished.server.worker_queues ≡ 0)
    × (finished.equalised_count ≡ pending any_job queued)
    × ((f : Text) → pending (is_for f) queued ≤ count (text_eq f) (Map.keys finished.written))
receive_equalised_complete_example =
    receive_equalised_complete codec queued events [] finished second_phase

receive_histograms-IsBounded_example : IsBounded Server.finished.server
receive_histograms-IsBounded_example =
    receive_histograms-IsBounded codec (length (enqueue_files Server.entries)) Server.events
      (histogram_start Server.entries) (returned Server.finished []) Server.first_phase tt

queued-IsBounded : IsBounded queued
queued-IsBounded = (record { within = omega arith; limited = omega arith }, tt)

receive_equalised-IsBounded_example : IsBounded finished.server
receive_equalised-IsBounded_example =
    receive_equalised-IsBounded codec (pending any_job queued) events queued (returned finished [])
      second_phase queued-IsBounded
