-- ===== src/Server/Transmit.antt =====
-- `transmit_work` of src/server.cpp against a description without a loop.
use mathlib.Core.List.{append-nil, append_assoc}
use exposure.Base.{
  ℕ, zero, suc, ◌-◌, ◌≡◌, refl, true, false, some, List, [], ◌∷◌, ◌++◌, length, take, drop, map,
  ltb, lt→ltb, arith, length-append, inl, inr, Option-cases,
}
use exposure.Base.Text.{Text}
use exposure.Base.Map
use exposure.Base.Outcome.{ok}
use exposure.Protocol.Command.{Job, job}
use exposure.Server.State.{
  WorkerData, Server, Outbox, Transmission, transmit_loop, transmit_work, after_transmit,
}

abbrev pub addressed : Text → List Job → Outbox
addressed worker = map λ j. (worker, job j)

-- The free places of a worker.
abbrev pub room : WorkerData → ℕ
room w = w.concurrency - length w.work

-- `n` jobs go from the front of the queue to the worker, each with its message.
abbrev pub move : ℕ → Text → List Job → WorkerData → Outbox → Transmission
move n worker queue w sent = record {
  queue = drop n queue;
  target = record w { work = w.work ++ take n queue };
  sent = sent ++ addressed worker (take n queue);
}

move-nil :
    (n : ℕ) (worker : Text) (w : WorkerData) (sent : Outbox)
    → record { queue = []; target = w; sent = sent } ≡ move n worker [] w sent
move-nil zero worker w sent = rw (append-nil w.work, append-nil sent)
move-nil (suc n) worker w sent = rw (append-nil w.work, append-nil sent)

transmit_loop-eq-move :
    (n : ℕ) (worker : Text) (queue : List Job) (w : WorkerData) (sent : Outbox)
    → room w ≡ n
    → transmit_loop worker queue w sent ≡ move n worker queue w sent
unfolding transmit_loop
transmit_loop-eq-move n worker [] w sent e = move-nil n worker w sent
transmit_loop-eq-move zero worker (j ∷ js) w sent e =
    let full : ltb (length w.work) w.concurrency ≡ false = ground arith in
    rw (full, append-nil w.work, append-nil sent)
transmit_loop-eq-move (suc n) worker (j ∷ js) w sent e =
    let free : ltb (length w.work) w.concurrency ≡ true = lt→ltb _ _ (omega arith) in
    rw (
      free,
      transmit_loop-eq-move n worker js (record w { work = w.work ++ j ∷ [] })
          (sent ++ (worker, job j) ∷ []) (omega (arith, length-append w.work (j ∷ []))),
      append_assoc w.work (j ∷ []) (take n js),
      append_assoc sent ((worker, job j) ∷ []) (addressed worker (take n js)),
    )

-- A registered worker gets as many jobs as it has free places, or all there are; they leave the
-- front of the queue in order, join the worker's jobs in order, and are sent to it in order. Nothing
-- else changes.
pub transmit_work-eq-move :
    (worker : Text) (s : Server) (w : WorkerData)
    → Map.find worker s.worker_queues ≡ some w
    → transmit_work worker s
      ≡ ok (after_transmit worker s (move (room w) worker s.enqueued_work w s.work_sent))
unfolding transmit_work
transmit_work-eq-move worker s w e =
    rw (e, transmit_work, transmit_loop-eq-move (room w) worker s.enqueued_work w s.work_sent refl)

-- An unregistered worker fails the assertion, so a success has a worker.
pub transmit_work-eq-ok :
    (worker : Text) (s s' : Server)
    → transmit_work worker s ≡ ok s'
    → (w : WorkerData) × (Map.find worker s.worker_queues ≡ some w)
      × (s' ≡ after_transmit worker s (move (room w) worker s.enqueued_work w s.work_sent))
transmit_work-eq-ok worker s s' e = elim (Option-cases (Map.find worker s.worker_queues)) [
  | inl absent ↦ unfold transmit_work in ground arith
  | inr (w, found) ↦ (w, found, cc (transmit_work-eq-move worker s w found))
]
