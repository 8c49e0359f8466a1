-- ===== src/Server/Pending.antt =====
-- The jobs that the server still answers for: those in its queue and those that workers hold.
-- A collection of jobs is seen through its counts: how many of them pass a test, for every test.
use exposure.Base.{
  ℕ, ◌+◌, ◌≡◌, refl, Bool, true, inl, inr, some, List, [], ◌∷◌, ◌++◌, count, take, drop, reverse,
  arith, count-append, count-reverse, take-append-drop, ap, ◌∙◌, Option-cases,
}
use exposure.Base.Text.{Text}
use exposure.Base.Map
use exposure.Base.Map.{Map}
use exposure.Base.Outcome.{ok}
use exposure.Protocol.Schema.{HeartbeatType, request, reply, unrecognised}
use exposure.Protocol.Command.{Job}
use exposure.Server.State.{
  WorkerData, Server, transmit_work, dismiss_worker, dismiss_all, heartbeat_loop, send_heartbeats,
  Readings,
}
use exposure.Server.Transmit.{room, transmit_work-eq-ok}
use exposure.Server.Dispatch.{visit_work_bye, visit_helo, visit_heartbeat}

-- How many jobs that pass the test the workers hold.
abbrev pub held : (Job → Bool) → Map WorkerData → ℕ
held p [] = 0
held p ((k, w) ∷ m) = count p w.work + held p m

abbrev pub pending : (Job → Bool) → Server → ℕ
pending p s = count p s.enqueued_work + held p s.worker_queues

module _ (p : Job → Bool) (k : Text) where
  pub held-erase :
      (m : Map WorkerData) (w : WorkerData)
      → Map.find k m ≡ some w
      → held p m ≡ count p w.work + held p (Map.erase k m)
  unfolding Map.find Map.erase
  held-erase [] w e = cc
  held-erase ((j, v) ∷ m) w e = ground (arith, held-erase m w)

  pub held-assign :
      (v : WorkerData) (m : Map WorkerData) (w : WorkerData)
      → Map.find k m ≡ some w
      → held p (Map.assign k v m) ≡ count p v.work + held p (Map.erase k m)
  unfolding Map.find Map.erase Map.assign
  held-assign v [] w e = cc
  held-assign v ((j, u) ∷ m) w e = ground (arith, held-assign v m w)

  pub held-place :
      (v : WorkerData) (m : Map WorkerData) → held p (Map.place k v m) ≡ count p v.work + held p m
  unfolding Map.place
  held-place v [] = refl
  held-place v ((j, u) ∷ m) = ground (arith, held-place v m)

count-take-drop :
    (p : Job → Bool) (n : ℕ) (js : List Job)
    → count p (take n js) + count p (drop n js) ≡ count p js
count-take-drop p n js =
    omega (arith, count-append p (take n js) (drop n js), ap (count p) (take-append-drop n js))

-- Handing jobs out loses none and makes up none.
pub pending-transmit_work :
    (p : Job → Bool) (worker : Text) (s s' : Server)
    → transmit_work worker s ≡ ok s'
    → pending p s' ≡ pending p s
pending-transmit_work p worker s s' e =
    let (w, found, e') = transmit_work-eq-ok worker s s' e in
    rw e' (
      omega (
        arith,
        held-erase p worker s.worker_queues w found,
        held-assign p worker (record w { work = w.work ++ take (room w) s.enqueued_work })
            s.worker_queues w found,
        count-append p w.work (take (room w) s.enqueued_work),
        count-take-drop p (room w) s.enqueued_work,
      ))

pub pending-dismiss_worker :
    (p : Job → Bool) (worker : Text) (s : Server)
    → pending p (dismiss_worker worker s) ≡ pending p s
unfolding dismiss_worker
pending-dismiss_worker p worker s = elim (Option-cases (Map.find worker s.worker_queues)) [
  | inl absent ↦ rw (absent, dismiss_worker)
  | inr (w, found) ↦
      rw (found, dismiss_worker)
        (omega (
          arith,
          held-erase p worker s.worker_queues w found,
          count-append p s.enqueued_work w.work,
        ))
]

-- A worker that is forgotten was registered, and nothing but the queues changes.
pub visit_work_bye-eq-ok :
    (worker : Text) (s s' : Server)
    → visit_work_bye worker s ≡ ok s'
    → (w : WorkerData) × (Map.find worker s.worker_queues ≡ some w)
      × (s' ≡ record s {
        enqueued_work = s.enqueued_work ++ reverse w.work;
        worker_queues = Map.erase worker s.worker_queues;
      })
unfolding visit_work_bye
visit_work_bye-eq-ok worker s s' e = elim (Option-cases (Map.find worker s.worker_queues)) [
  | inl absent ↦ ground arith
  | inr (w, found) ↦ (w, found, ground arith)
]

pub pending-visit_work_bye :
    (p : Job → Bool) (worker : Text) (s s' : Server)
    → visit_work_bye worker s ≡ ok s'
    → pending p s' ≡ pending p s
pending-visit_work_bye p worker s s' e =
    let (w, found, e') = visit_work_bye-eq-ok worker s s' e in
    rw e' (
      omega (
        arith,
        held-erase p worker s.worker_queues w found,
        count-append p s.enqueued_work (reverse w.work),
        count-reverse p w.work,
      ))

held-insert :
    (p : Job → Bool) (k : Text) (w : WorkerData) (m : Map WorkerData)
    → w.work ≡ []
    → held p (Map.insert k w m) ≡ held p m
held-insert p k w m e = elim (Option-cases (Map.find k m)) [
  | inl absent ↦ rw (Map.insert_absent k w m absent, held-place p k w m, e) (omega arith)
  | inr (v, found) ↦ rw (Map.insert_present k w v m found)
]

pub pending-visit_helo :
    (p : Job → Bool) (now : ℕ) (worker : Text) (n : ℕ) (s s' : Server)
    → visit_helo now worker n s ≡ ok s'
    → pending p s' ≡ pending p s
unfolding visit_helo
pending-visit_helo p now worker n s s' e =
    pending-transmit_work p worker _ s' e
    ∙ ap (λ n. count p s.enqueued_work + n) (held-insert p worker _ s.worker_queues refl)

pub pending-visit_heartbeat :
    (p : Job → Bool) (worker : Text) (t : HeartbeatType) (s : Server)
    → pending p (visit_heartbeat worker t s) ≡ pending p s
unfolding visit_heartbeat
pending-visit_heartbeat p worker request s = refl
pending-visit_heartbeat p worker reply s = elim (Option-cases (Map.find worker s.worker_queues)) [
  | inl absent ↦ rw (absent, visit_heartbeat)
  | inr (w, found) ↦
      rw (found, visit_heartbeat)
        (omega (
          arith,
          held-erase p worker s.worker_queues w found,
          held-assign p worker (record w { heartbeat_reply_received = true }) s.worker_queues w
              found,
        ))
]
pending-visit_heartbeat p worker (unrecognised n) s = refl

pending-dismiss_all :
    (p : Job → Bool) (workers : List Text) (s : Server)
    → pending p (dismiss_all workers s) ≡ pending p s
unfolding dismiss_all
pending-dismiss_all p [] s = refl
pending-dismiss_all p (k ∷ ks) s =
    pending-dismiss_all p ks (dismiss_worker k s) ∙ pending-dismiss_worker p k s

held-heartbeat_loop :
    (p : Job → Bool) (clock : Text → Readings) (m : Map WorkerData)
    → held p (heartbeat_loop clock m).queues ≡ held p m
unfolding heartbeat_loop
held-heartbeat_loop p clock [] = refl
held-heartbeat_loop p clock ((k, w) ∷ m) = ground (arith, held-heartbeat_loop p clock m)

-- Dismissing the workers that do not answer puts their jobs back into the queue: none is lost.
pub pending-send_heartbeats :
    (p : Job → Bool) (clock : Text → Readings) (s : Server)
    → pending p (send_heartbeats clock s) ≡ pending p s
unfolding send_heartbeats
pending-send_heartbeats p clock s =
    pending-dismiss_all p _ _
    ∙ ap (λ n. count p s.enqueued_work + n) (held-heartbeat_loop p clock s.worker_queues)
