-- ===== src/Server/Fair.antt =====
-- A worker that answers its jobs in order, as src/server.cpp keeps its jobs.
pub mod Returns
use mathlib.Core.List.{append_assoc, append-nil, map-append}
use exposure.Base.{
  ℕ, zero, suc, ◌+◌, ◌-◌, ◌*◌, ◌≤◌, ◌≡◌, refl, sym, ap, ◌∙◌, subst, Bool, true, false, inl, inr,
  none, some, List, [], ◌∷◌, ◌++◌, map, length, count, take, drop, take-append-drop, min, ltb,
  lt→ltb, is_empty, arith, Bool-cases, length-map,
}
use exposure.Base.Text.{Text, text_eq, text_eq_refl}
use exposure.Base.Map
use exposure.Base.Map.{Map}
use exposure.Base.Outcome.{Outcome, ok, ◌>>=◌}
use exposure.Config.{histogram_segments, max_message_size, max_worker_queue}
use exposure.Protocol.Schema.{Float32, Capnp, request}
use exposure.Protocol.Command.{
  Job, histogram_job, Result, histogram_result, Command, helo, ehlo, job, result, heartbeat,
}
use exposure.Protocol.Equality.{answers}
use exposure.Protocol.Encode.{to_message}
use exposure.Server.State.{
  Readings, WorkerData, Server, transmit_work, after_transmit, send_communication_message,
}
use exposure.Server.Transmit.{addressed, move, room, transmit_work-eq-move}
use exposure.Server.Dispatch.{
  Histograms, complete, erase_answered, visit_histogram_result, visit_histograms, visit_helo,
  visit_communication,
}
use exposure.Server.Phases.{
  Event, work_message, communication_message, returned, receive, histogram_event,
  receive_histograms, enqueue_files, histogram_start,
}
use exposure.Server.Answered.{erase_answered-cons, complete-eq-ok}
use exposure.Server.Pending.{pending}
use exposure.Server.Balance.{
  AreDistinct, IsBalanced, answered_is_for, unrecorded, visit_histogram_result_known,
  visit_histogram_result-IsBalanced,
}
use exposure.Server.Receive.{receive-to_message}
use exposure.Server.HistogramPhase.{
  regular_files, IsBalanced-start, histogram_event-IsBalanced, receive_histograms_stops,
  receive_histograms_goes_on, length-enqueue_files,
}

-- The worker holds the first of the jobs that are left, the queue has the others, a worker that holds
-- none has left none in the queue, and all jobs but those in the queue were sent to it.
pub record Serves (k : Text) (all : List Job) (todo : List Text) (s : Server) : Type 0 where
  pub w : WorkerData
  pub found : Map.find k s.worker_queues ≡ some w
  pub order : w.work ++ s.enqueued_work ≡ map histogram_job todo
  pub able : 1 ≤ w.concurrency
  pub busy : w.work ≡ [] → s.enqueued_work ≡ []
  pub sent : s.work_sent ++ addressed k s.enqueued_work ≡ addressed k all

addressed-take-drop :
    (k : Text) (n : ℕ) (queue : List Job)
    → addressed k (take n queue) ++ addressed k (drop n queue) ≡ addressed k queue
addressed-take-drop k n queue =
    sym (map-append (λ (j : Job). (k, job j)) (take n queue) (drop n queue))
    ∙ ap (addressed k) (take-append-drop n queue)

filled :
    (work queue : List Job) (concurrency : ℕ)
    → 1 ≤ concurrency
    → work ++ take (concurrency - length work) queue ≡ []
    → drop (concurrency - length work) queue ≡ []
filled (j ∷ work) queue concurrency h e = cc
filled [] [] zero h e = refl
filled [] [] (suc c) h e = let plain : suc c - 0 ≡ suc c = omega arith in rw plain
filled [] (j ∷ queue) zero h e = elim h [ ]
filled [] (j ∷ queue) (suc c) h e =
    let plain : suc c - 0 ≡ suc c = omega arith in
    let some_taken : j ∷ take c queue ≡ [] = rw plain at e in cc

pub transmit_work-Serves :
    (k : Text) (all : List Job) (todo : List Text) (s : Server) (v : WorkerData)
    → Map.find k s.worker_queues ≡ some v
    → v.work ++ s.enqueued_work ≡ map histogram_job todo
    → 1 ≤ v.concurrency
    → s.work_sent ++ addressed k s.enqueued_work ≡ addressed k all
    → (s' : Server) × (transmit_work k s ≡ ok s') × Serves k all todo s'
transmit_work-Serves k all todo s v found order able sent = (
  after_transmit k s (move (room v) k s.enqueued_work v s.work_sent),
  transmit_work-eq-move k s v found,
  record {
    w = record v { work = v.work ++ take (room v) s.enqueued_work };
    found = Map.find-assign_self k _ v s.worker_queues found;
    order =
        append_assoc v.work (take (room v) s.enqueued_work) (drop (room v) s.enqueued_work)
        ∙ ap (λ js. v.work ++ js) (take-append-drop (room v) s.enqueued_work)
        ∙ order;
    able = able;
    busy = filled v.work s.enqueued_work v.concurrency able;
    sent =
        append_assoc s.work_sent (addressed k (take (room v) s.enqueued_work)) _
        ∙ ap (λ ms. s.work_sent ++ ms) (addressed-take-drop k (room v) s.enqueued_work)
        ∙ sent;
  },
)

-- The first job that the worker holds is the first that is left.
first_held :
    (work queue : List Job) (f : Text) (rest : List Text)
    → work ++ queue ≡ map histogram_job (f ∷ rest)
    → (work ≡ [] → queue ≡ [])
    → (js : List Job) × (work ≡ histogram_job f ∷ js) × (js ++ queue ≡ map histogram_job rest)
first_held [] queue f rest order busy = let idle : queue ≡ [] = busy refl in cc
first_held (j ∷ js) queue f rest order busy = (js, cc, cc)

is_empty-nil : (js : List Job) → is_empty js ≡ true → js ≡ []
is_empty-nil [] h = refl
is_empty-nil (j ∷ js) h = cc

pub complete-Serves :
    (k f : Text) (h : List Float32) (all : List Job) (rest : List Text) (s : Server)
    (serves : Serves k all (f ∷ rest) s)
    → (s' : Server) × (complete k (histogram_result f h) serves.w s ≡ ok s') × Serves k all rest s'
unfolding complete
complete-Serves k f h all rest s serves =
    let w = serves.w in
    let (js, shape, order) = first_held w.work s.enqueued_work f rest serves.order serves.busy in
    let erased : erase_answered (histogram_result f h) w.work ≡ ok js =
      ap (erase_answered (histogram_result f h)) shape
      ∙ erase_answered-cons (histogram_result f h) (histogram_job f) js
      ∙ rw (text_eq_refl f) in
    let v : WorkerData = record w { work = js } in
    let t : Server = record s { worker_queues = Map.assign k v s.worker_queues } in
    let found = Map.find-assign_self k v w s.worker_queues serves.found in
    let (s', sent, serves') =
      transmit_work-Serves k all rest t v found order serves.able serves.sent in
    elim (Bool-cases (is_empty s.enqueued_work)) [
      | inl idle ↦ (
        t,
        rw (erased, idle),
        record {
          w = v;
          found = found;
          order = order;
          able = serves.able;
          sent = serves.sent;
          busy = λ e. is_empty-nil s.enqueued_work idle;
        },
      )
      | inr busy ↦ (s', rw (erased, busy) sent, serves')
    ]

-- A worker that joins an idle server holds what it can.
pub visit_helo-Serves :
    (now : ℕ) (k : Text) (concurrency : ℕ) (todo : List Text) (s : Server)
    → s.worker_queues ≡ []
    → s.work_sent ≡ []
    → s.enqueued_work ≡ map histogram_job todo
    → 1 ≤ concurrency
    → (s' : Server) × (visit_helo now k concurrency s ≡ ok s') × Serves k s.enqueued_work todo s'
unfolding visit_helo Map.find Map.insert Map.place
visit_helo-Serves now k concurrency todo s alone none_sent order able =
    let w : WorkerData = record {
      work = [];
      last_heartbeat_request = now;
      heartbeat_reply_received = false;
      concurrency = min concurrency max_worker_queue;
    } in
    let joined : Server = send_communication_message k (heartbeat request) (
      send_communication_message k ehlo
        (record s { worker_queues = Map.insert k w s.worker_queues })) in
    transmit_work-Serves k s.enqueued_work todo joined w (rw (alone, text_eq_refl k)) order
      (omega arith) (ap (λ ms. ms ++ addressed k s.enqueued_work) none_sent)
