-- ===== src/Server/Capacity.antt =====
-- The jobs that a worker holds against its concurrency and `MAX_WORKER_QUEUE`, through the methods of
-- src/server.cpp.
use exposure.Base.{
  ℕ, ◌≤◌, ◌≡◌, Bool, true, false, inl, inr, some, List, [], ◌∷◌, ◌++◌, length, take, count_all,
  arith, length-append, length-take, if◌then◌else◌, is_empty, Option-cases,
}
use exposure.Base.Text.{Text}
use exposure.Base.Map
use exposure.Base.Map.{Map}
use exposure.Base.Outcome.{ok, >>=-eq-ok}
use exposure.Config.{max_worker_queue}
use exposure.Protocol.Schema.{HeartbeatType, request, reply, unrecognised}
use exposure.Protocol.Command.{Result}
use exposure.Server.State.{
  WorkerData, Server, transmit_work, dismiss_worker, dismiss_all, heartbeat_loop, send_heartbeats,
  Readings,
}
use exposure.Server.Transmit.{room, transmit_work-eq-ok}
use exposure.Server.Dispatch.{erase_answered, visit_work_bye, complete, visit_helo, visit_heartbeat}
use exposure.Server.Answered.{erase_answered-eq-ok}
use exposure.Server.Pending.{visit_work_bye-eq-ok}

pub record IsWorker (w : WorkerData) : Type 0 where
  pub within : length w.work ≤ w.concurrency
  pub limited : w.concurrency ≤ max_worker_queue

abbrev pub AreWorkers : Map WorkerData → Type 0
AreWorkers [] = Unit {0}
AreWorkers ((k, w) ∷ m) = IsWorker w × AreWorkers m

abbrev pub IsBounded : Server → Type 0
IsBounded s = AreWorkers s.worker_queues

module _ (k : Text) where
  found-IsWorker :
      (m : Map WorkerData) (w : WorkerData) → Map.find k m ≡ some w → AreWorkers m → IsWorker w
  unfolding Map.find
  found-IsWorker [] w e h = cc
  found-IsWorker ((j, v) ∷ m) w e h = ground (arith, found-IsWorker m w)

  assign-AreWorkers :
      (w : WorkerData) (m : Map WorkerData)
      → IsWorker w
      → AreWorkers m
      → AreWorkers (Map.assign k w m)
  unfolding Map.assign
  assign-AreWorkers w [] i h = tt
  assign-AreWorkers w ((j, v) ∷ m) i h = ground (arith, assign-AreWorkers w m)

  erase-AreWorkers : (m : Map WorkerData) → AreWorkers m → AreWorkers (Map.erase k m)
  unfolding Map.erase
  erase-AreWorkers [] h = tt
  erase-AreWorkers ((j, v) ∷ m) h = ground (arith, erase-AreWorkers m)

  place-AreWorkers :
      (w : WorkerData) (m : Map WorkerData)
      → IsWorker w
      → AreWorkers m
      → AreWorkers (Map.place k w m)
  unfolding Map.place
  place-AreWorkers w [] i h = (i, tt)
  place-AreWorkers w ((j, v) ∷ m) i h = ground (arith, place-AreWorkers w m)

  insert-AreWorkers :
      (w : WorkerData) (m : Map WorkerData)
      → IsWorker w
      → AreWorkers m
      → AreWorkers (Map.insert k w m)
  insert-AreWorkers w m i h = elim (Option-cases (Map.find k m)) [
    | inl absent ↦ rw (Map.insert_absent k w m absent) (place-AreWorkers w m i h)
    | inr (v, found) ↦ rw (Map.insert_present k w v m found) h
  ]

pub transmit_work-IsBounded :
    (worker : Text) (s s' : Server) → transmit_work worker s ≡ ok s' → IsBounded s → IsBounded s'
transmit_work-IsBounded worker s s' e h =
    let (w, found, e') = transmit_work-eq-ok worker s s' e in
    let i = found-IsWorker worker s.worker_queues w found h in
    rw e' (
      assign-AreWorkers worker (record w { work = w.work ++ take (room w) s.enqueued_work })
        s.worker_queues
        (omega (
          arith,
          length-append w.work (take (room w) s.enqueued_work),
          length-take (room w) s.enqueued_work,
        ))
        h)

pub visit_work_bye-IsBounded :
    (worker : Text) (s s' : Server) → visit_work_bye worker s ≡ ok s' → IsBounded s → IsBounded s'
visit_work_bye-IsBounded worker s s' e h =
    let (w, found, e') = visit_work_bye-eq-ok worker s s' e in
    rw e' (erase-AreWorkers worker s.worker_queues h)

pub visit_helo-IsBounded :
    (now : ℕ) (worker : Text) (n : ℕ) (s s' : Server)
    → visit_helo now worker n s ≡ ok s'
    → IsBounded s
    → IsBounded s'
unfolding visit_helo
visit_helo-IsBounded now worker n s s' e h =
    transmit_work-IsBounded worker _ s' e
      (insert-AreWorkers worker _ s.worker_queues (omega arith) h)

pub visit_heartbeat-IsBounded :
    (worker : Text) (t : HeartbeatType) (s : Server)
    → IsBounded s
    → IsBounded (visit_heartbeat worker t s)
unfolding visit_heartbeat
visit_heartbeat-IsBounded worker request s h = h
visit_heartbeat-IsBounded worker reply s h = elim (Option-cases (Map.find worker s.worker_queues)) [
  | inl absent ↦ rw (absent, visit_heartbeat) h
  | inr (w, found) ↦
      let i = found-IsWorker worker s.worker_queues w found h in
      rw (found, visit_heartbeat)
        (assign-AreWorkers worker (record w { heartbeat_reply_received = true }) s.worker_queues
          (omega arith) h)
]
visit_heartbeat-IsBounded worker (unrecognised n) s h = h

pub dismiss_worker-IsBounded :
    (worker : Text) (s : Server) → IsBounded s → IsBounded (dismiss_worker worker s)
unfolding dismiss_worker
dismiss_worker-IsBounded worker s h = elim (Option-cases (Map.find worker s.worker_queues)) [
  | inl absent ↦ rw (absent, dismiss_worker) h
  | inr (w, found) ↦ rw (found, dismiss_worker) (erase-AreWorkers worker s.worker_queues h)
]

dismiss_all-IsBounded :
    (workers : List Text) (s : Server) → IsBounded s → IsBounded (dismiss_all workers s)
unfolding dismiss_all
dismiss_all-IsBounded [] s h = h
dismiss_all-IsBounded (k ∷ ks) s h =
    dismiss_all-IsBounded ks (dismiss_worker k s) (dismiss_worker-IsBounded k s h)

heartbeat_loop-AreWorkers :
    (clock : Text → Readings) (m : Map WorkerData)
    → AreWorkers m
    → AreWorkers (heartbeat_loop clock m).queues
unfolding heartbeat_loop
heartbeat_loop-AreWorkers clock [] h = tt
heartbeat_loop-AreWorkers clock ((k, w) ∷ m) h = ground (arith, heartbeat_loop-AreWorkers clock m)

pub send_heartbeats-IsBounded :
    (clock : Text → Readings) (s : Server) → IsBounded s → IsBounded (send_heartbeats clock s)
unfolding send_heartbeats
send_heartbeats-IsBounded clock s h =
    dismiss_all-IsBounded _ _ (heartbeat_loop-AreWorkers clock s.worker_queues h)

refill-IsBounded :
    (worker : Text) (idle : Bool) (s s' : Server)
    → (if idle then ok s else transmit_work worker s) ≡ ok s'
    → IsBounded s
    → IsBounded s'
refill-IsBounded worker true s s' e h = let q : s ≡ s' = ground arith in rw q at h
refill-IsBounded worker false s s' e h = transmit_work-IsBounded worker s s' e h

pub complete-IsBounded :
    (worker : Text) (r : Result) (w : WorkerData) (s s' : Server)
    → Map.find worker s.worker_queues ≡ some w
    → complete worker r w s ≡ ok s'
    → IsBounded s
    → IsBounded s'
unfolding complete
complete-IsBounded worker r w s s' found e h =
    let (work, taken, more) = >>=-eq-ok (erase_answered r w.work) _ e in
    let i = found-IsWorker worker s.worker_queues w found h in
    let (j, hit, counts) = erase_answered-eq-ok r w.work work taken in
    refill-IsBounded worker (is_empty s.enqueued_work) _ s' more (
      assign-AreWorkers worker (record w { work = work }) s.worker_queues
        (omega (arith, counts (λ _. true), count_all w.work, count_all work)) h)
