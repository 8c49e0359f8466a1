-- ===== src/Server/State.antt =====
-- The members of `Server`, and the methods that change them: `transmit_work`, `dismiss_worker`,
-- `dismiss_workers` and `send_heartbeats`.
--
-- Each method runs under `worker_mutex`, so it is one step. A message that is handed to a socket is
-- kept as the command that it was made from, with the worker that it is addressed to; the sockets
-- drop what is addressed to a worker that is gone, and the server does not hear of it.
use exposure.Base.{
  ℕ, ◌-◌, ◌/◌, Bool, false, not, ◌&&◌, none, some, List, [], ◌∷◌, ◌++◌, length, ltb, if◌then◌else◌,
  map,
}
use exposure.Base.Text.{Text}
use exposure.Base.Map
use exposure.Base.Map.{Map}
use exposure.Base.Outcome.{Outcome, ok, err, assertion}
use exposure.Config.{max_heartbeat_interval}
use exposure.Protocol.Schema.{request}
use exposure.Protocol.Command.{Job, Command, job, heartbeat, bye}

-- Times are in milliseconds.
pub record WorkerData : Type 0 where
  pub work : List Job
  pub last_heartbeat_request : ℕ
  pub heartbeat_reply_received : Bool
  pub concurrency : ℕ

abbrev pub Outbox : Type 0
Outbox = List (Text × Command)

-- `enqueued_work` has its front first; the outboxes have their oldest message first.
-- `communication_lost` is whether an exception has ended the communication thread: it stays in the
-- future of that thread, which nothing gets.
pub record Server : Type 0 where
  pub enqueued_work : List Job
  pub worker_queues : Map WorkerData
  pub work_sent : Outbox
  pub communication_sent : Outbox
  pub communication_lost : Bool

-- The server as its constructor leaves it.
abbrev pub init : Server
init = record {
  enqueued_work = [];
  worker_queues = [];
  work_sent = [];
  communication_sent = [];
  communication_lost = false;
}

abbrev pub send_work_message : Text → Command → Server → Server
send_work_message worker c s = record s { work_sent = s.work_sent ++ (worker, c) ∷ [] }

abbrev pub send_communication_message : Text → Command → Server → Server
send_communication_message worker c s = record s {
  communication_sent = s.communication_sent ++ (worker, c) ∷ [];
}

-- The variables of the loop in `transmit_work`.
pub record Transmission : Type 0 where
  pub queue : List Job
  pub target : WorkerData
  pub sent : Outbox

unfoldable pub transmit_loop : Text → List Job → WorkerData → Outbox → Transmission
transmit_loop worker [] w sent = record { queue = []; target = w; sent = sent }
transmit_loop worker (j ∷ js) w sent =
    let rest =
      transmit_loop worker js (record w { work = w.work ++ j ∷ [] })
        (sent ++ (worker, job j) ∷ []) in
    if ltb (length w.work) w.concurrency
    then rest
    else record { queue = j ∷ js; target = w; sent = sent }

abbrev pub after_transmit : Text → Server → Transmission → Server
after_transmit worker s t = record s {
  enqueued_work = t.queue;
  worker_queues = Map.assign worker t.target s.worker_queues;
  work_sent = t.sent;
}

unfoldable pub transmit_work : Text → Server → Outcome Server
transmit_work worker s = elim (Map.find worker s.worker_queues) [
  | none ↦ err assertion
  | some w ↦ ok (after_transmit worker s (transmit_loop worker s.enqueued_work w s.work_sent))
]

-- The work goes to the back of the queue, the worker is forgotten, and a bye is sent in any case.
unfoldable pub dismiss_worker : Text → Server → Server
dismiss_worker worker s = send_work_message worker bye (elim (Map.find worker s.worker_queues) [
  | none ↦ s
  | some w ↦ record s {
    enqueued_work = s.enqueued_work ++ w.work;
    worker_queues = Map.erase worker s.worker_queues;
  }
])

unfoldable pub dismiss_workers : Server → Server
dismiss_workers s = record s {
  worker_queues = [];
  work_sent = s.work_sent ++ map (λ e. (e.0, bye)) s.worker_queues;
}

-- The two readings of the clock while a worker is looked at: at the test, and after the request
-- has been sent.
pub record Readings : Type 0 where
  pub at_test : ℕ
  pub after_request : ℕ

-- `duration_cast` to seconds cuts off. An interval below zero is not above the limit, and nor is
-- the 0 that stands for it here.
abbrev pub overdue : ℕ → WorkerData → Bool
overdue now w = ltb max_heartbeat_interval ((now - w.last_heartbeat_request) / 1000)

-- What the first loop of `send_heartbeats` has so far.
pub record Heartbeats : Type 0 where
  pub queues : Map WorkerData
  pub dismissed : List Text
  pub requests : Outbox

unfoldable pub heartbeat_loop : (Text → Readings) → Map WorkerData → Heartbeats
heartbeat_loop clock [] = record { queues = []; dismissed = []; requests = [] }
heartbeat_loop clock ((worker, w) ∷ rest) =
    let h = heartbeat_loop clock rest in
    let late = overdue (clock worker).at_test w in
    if not w.heartbeat_reply_received && late
    then record {
      queues = (worker, w) ∷ h.queues;
      dismissed = worker ∷ h.dismissed;
      requests = h.requests;
    }
    else if w.heartbeat_reply_received && late
    then record {
      queues =
          (
            worker,
            record w {
              heartbeat_reply_received = false;
              last_heartbeat_request = (clock worker).after_request;
            },
          )
          ∷ h.queues;
      dismissed = h.dismissed;
      requests = (worker, heartbeat request) ∷ h.requests;
    }
    else record { queues = (worker, w) ∷ h.queues; dismissed = h.dismissed; requests = h.requests }

unfoldable pub dismiss_all : List Text → Server → Server
unfolding dismiss_worker
dismiss_all [] s = s
dismiss_all (worker ∷ rest) s = dismiss_all rest (dismiss_worker worker s)

unfoldable pub send_heartbeats : (Text → Readings) → Server → Server
send_heartbeats clock s =
    let h = heartbeat_loop clock s.worker_queues in
    dismiss_all h.dismissed (record s {
      worker_queues = h.queues;
      communication_sent = s.communication_sent ++ h.requests;
    })
