-- ===== src/Worker/Working/Exchange.antt =====
-- A server and one worker that answers it: the first phase of src/server.cpp against src/worker.cpp.
use mathlib.Core.List.{append_assoc, append-nil}
use exposure.Base.{
  ℕ, suc, ◌+◌, ◌*◌, ◌≤◌, ◌≡◌, refl, sym, ap, ◌∙◌, Bool, true, false, some, List, [], ◌∷◌, ◌++◌, map,
  length, arith,
}
use exposure.Base.Text.{Text}
use exposure.Base.Outcome.{ok, ◌>>=◌}
use exposure.Config.{max_message_size}
use exposure.Protocol.Schema.{Float32, Capnp}
use exposure.Protocol.Command.{histogram_job, Command, helo, job}
use exposure.Protocol.Encode.{to_message}
use exposure.Semaphore
use exposure.Server.State.{Readings, Outbox}
use exposure.Server.Transmit.{addressed}
use exposure.Server.Dispatch.{Histograms}
use exposure.Server.Balance.{AreDistinct}
use exposure.Server.Receive.{receive-to_message}
use exposure.Server.HistogramPhase.{regular_files}
use exposure.Server.Phases.{
  Event, work_message, communication_message, returned, receive_histograms, enqueue_files,
  histogram_start,
}
use exposure.Server.Fair.Returns.{
  answer_to, answering, enqueue_files-jobs, AreReadable, receive_histograms-returns,
}
use exposure.Worker.Connection.{
  Connection, ImageFiles, pop_back, pop_job, schedule_job, visit_communicating, visit_running,
  send_work_message,
}
use exposure.Worker.Listening.{is_dying, run_work}
use exposure.Worker.Working.{run_popped, background_round, hear_and_run, hear_and_run_all}

-- A connection that has no job to do, with what it sent on the work socket
abbrev pub ready : List Command → ℕ → Connection → Connection
ready sent semaphore c = record c {
  sockets = true;
  jobs = [];
  work_sent = sent;
  jobs_semaphore = semaphore;
}

-- The reader of the worker takes the messages with the jobs.
abbrev pub AreHeard : Capnp → List Text → Type 0
AreHeard capnp [] = Unit {0}
AreHeard capnp (f ∷ names) =
    (2 * length (to_message capnp (job (histogram_job f))) ≤ 8 * max_message_size)
    × AreHeard capnp names

-- The histogram of each of these images can be computed.
abbrev pub AreComputed : ImageFiles → (Text → List Float32) → List Text → Type 0
AreComputed files histogram [] = Unit {0}
AreComputed files histogram (f ∷ names) =
    (files.image_get_histogram f ≡ ok (some (histogram f))) × AreComputed files histogram names

module _ (capnp : Capnp) (thread_count : ℕ) (files : ImageFiles) (k : Text)
    (clock : Text → Readings) (histogram : Text → List Float32) where
  abbrev asking : Text → Text
  asking f = to_message capnp (job (histogram_job f))

  run_one :
      (f : Text) (sent : List Command) (n : ℕ) (c : Connection)
      → files.image_get_histogram f ≡ ok (some (histogram f))
      → run_popped 2 files (record (ready sent n c) { jobs = histogram_job f ∷ [] })
        ≡ ok (ready (sent ++ answer_to capnp k clock histogram f ∷ []) n c)
  unfolding run_popped pop_job pop_back visit_running send_work_message
  run_one f sent n c computed = rw computed

  hear_one :
      (f : Text) (sent : List Command) (n : ℕ) (c : Connection)
      → is_dying c.state ≡ false
      → files.image_get_histogram f ≡ ok (some (histogram f))
      → 2 * length (asking f) ≤ 8 * max_message_size
      → hear_and_run capnp thread_count files (asking f) (ready sent n c)
        ≡ ok (ready (sent ++ answer_to capnp k clock histogram f ∷ []) (suc n) c)
  unfolding visit_communicating schedule_job Semaphore.release run_work background_round
  hear_one f sent n c lives computed fits =
      let heard =
        receive-to_message capnp (visit_communicating thread_count) (job (histogram_job f))
          (ready sent n c) tt fits in
      rw (lives, heard, lives) (run_one f sent (suc n) c computed)

  hear_all :
      (names : List Text) (sent : List Command) (n : ℕ) (c : Connection)
      → is_dying c.state ≡ false
      → AreComputed files histogram names
      → AreHeard capnp names
      → hear_and_run_all capnp thread_count files (map asking names) (ready sent n c)
        ≡ ok (ready (sent ++ map (answer_to capnp k clock histogram) names) (n + length names) c)
  unfolding hear_and_run_all
  hear_all [] sent n c lives computed fits =
      let plain : n ≡ n + 0 = omega arith in
      ap (λ ms. ok (ready ms n c)) (sym (append-nil sent))
      ∙ ap (λ i. ok (ready (sent ++ []) i c)) plain
  hear_all (f ∷ names) sent n c lives computed fits =
      let plain : suc n + length names ≡ n + suc (length names) = omega arith in
      ap (λ o. o >>= hear_and_run_all capnp thread_count files (map asking names))
        (hear_one f sent n c lives computed.0 fits.0)
      ∙ hear_all names (sent ++ answer_to capnp k clock histogram f ∷ []) (suc n) c lives computed.1
          fits.1
      ∙ ap (λ ms. ok (ready ms (suc n + length names) c))
          (append_assoc sent (answer_to capnp k clock histogram f ∷ []) _)
      ∙ ap (λ i. ok (ready (sent ++ map (answer_to capnp k clock histogram) (f ∷ names)) i c)) plain

-- What a server sends, as the worker hears it, and what the worker sends, as the server hears it
abbrev pub to_worker : Capnp → Outbox → List Text
to_worker capnp = map λ e. to_message capnp e.1

abbrev pub to_server : Capnp → Text → (Text → Readings) → List Command → List Event
to_server capnp k clock = map λ c. work_message clock k (to_message capnp c)

to_worker-addressed :
    (capnp : Capnp) (k : Text) (names : List Text)
    → to_worker capnp (addressed k (map histogram_job names))
      ≡ map (λ f. to_message capnp (job (histogram_job f))) names
to_worker-addressed capnp k [] = refl
to_worker-addressed capnp k (f ∷ names) =
    ap (◌∷◌ (to_message capnp (job (histogram_job f)))) (to_worker-addressed capnp k names)

to_server-answers :
    (capnp : Capnp) (k : Text) (clock : Text → Readings) (histogram : Text → List Float32)
    (names : List Text)
    → to_server capnp k clock (map (answer_to capnp k clock histogram) names)
      ≡ map (answering capnp k clock histogram) names
to_server-answers capnp k clock histogram [] = refl
to_server-answers capnp k clock histogram (f ∷ names) =
    ap (◌∷◌ (answering capnp k clock histogram f)) (to_server-answers capnp k clock histogram names)

-- A server and one worker with at least one thread, which is not dying, in a directory with a
-- regular file, whose regular files are images that the worker can read: there is a state of each
-- such that the worker reaches its own by hearing what the server has sent to it, with a round of
-- its background task after each message, and the first phase returns in the server's by hearing
-- HELO and then what the worker has sent. The paths of the directory are distinct, and the readers
-- take all messages.
pub server_and_worker :
    (capnp : Capnp) (entries : List (Text × Bool)) (k : Text) (now concurrency thread_count n : ℕ)
    (clock : Text → Readings) (files : ImageFiles) (histogram : Text → List Float32)
    (c : Connection)
    → AreDistinct (regular_files entries)
    → 1 ≤ length (regular_files entries)
    → 1 ≤ concurrency
    → 2 * length (to_message capnp (helo concurrency)) ≤ 8 * max_message_size
    → is_dying c.state ≡ false
    → AreComputed files histogram (regular_files entries)
    → AreReadable capnp k clock histogram (regular_files entries)
    → AreHeard capnp (regular_files entries)
    → (q : Histograms) × (d : Connection) × (hear_and_run_all capnp thread_count files
          (to_worker capnp q.server.work_sent)
          (ready [] n c)
        ≡ ok d)
      × (receive_histograms capnp
            (length (enqueue_files entries))
            (communication_message now k (to_message capnp (helo concurrency))
              ∷ to_server capnp k clock d.work_sent)
            (histogram_start entries)
          ≡ ok (returned q []))
server_and_worker capnp entries k now concurrency thread_count n clock files histogram c distinct
      some_file able fits lives computed readable heard =
    let names = regular_files entries in
    let (q, returns, sent) =
      receive_histograms-returns capnp entries k now concurrency clock histogram distinct some_file
        able fits readable in
    let jobs : to_worker capnp q.server.work_sent
        ≡ map (λ f. to_message capnp (job (histogram_job f))) names =
      ap (to_worker capnp) (sent ∙ ap (addressed k) (enqueue_files-jobs entries))
      ∙ to_worker-addressed capnp k names in
    let runs =
      hear_all capnp thread_count files k clock histogram names [] n c lives computed heard in
    (
      q,
      ready (map (answer_to capnp k clock histogram) names) (n + length names) c,
      ap (λ ms. hear_and_run_all capnp thread_count files ms (ready [] n c)) jobs ∙ runs,
      ap
            (λ es.
              receive_histograms capnp (length (enqueue_files entries))
                (communication_message now k (to_message capnp (helo concurrency)) ∷ es)
                (histogram_start entries))
            (to_server-answers capnp k clock histogram names)
          ∙ returns,
    )
