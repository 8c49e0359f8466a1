-- ===== src/Server/Progress.antt =====
-- Single results in src/server.cpp: one that the worker was asked for, and one that it was not.
use exposure.Base.{
  ℕ, suc, ◌≤◌, ◌≡◌, refl, ◌∙◌, inl, inr, some, List, [], ◌∷◌, length, count, arith, Bool-cases,
  is_empty,
}
use exposure.Base.Text.{Text}
use exposure.Base.Map
use exposure.Base.Map.{Map}
use exposure.Base.Outcome.{ok, err, past_the_end}
use exposure.Protocol.Schema.{Float32}
use exposure.Protocol.Command.{Job, Result, histogram_result, equalisation_result}
use exposure.Protocol.Equality.{answers}
use exposure.Server.State.{WorkerData, Server, after_transmit}
use exposure.Server.Transmit.{move, room, transmit_work-eq-move}
use exposure.Server.Dispatch.{
  Histograms, Images, erase_answered, complete, visit_histogram_result, visit_equalisation_result,
}
use exposure.Server.Answered.{erase_answered-cons, complete-eq-ok}
use exposure.Server.Pending.{pending}
use exposure.Server.Balance.{
  AreDistinct, IsBalanced, any_job, visit_histogram_result_known, visit_histogram_result-IsBalanced,
}

erase_answered-total :
    (r : Result) (js : List Job)
    → 1 ≤ count (answers r) js
    → (js' : List Job) × (erase_answered r js ≡ ok js')
erase_answered-total r [] h = absurd (omega arith)
erase_answered-total r (j ∷ js) h = elim (Bool-cases (answers r j)) [
  | inl hit ↦ (js, erase_answered-cons r j js ∙ rw hit)
  | inr miss ↦
      let (js', e) = erase_answered-total r js (ground arith) in
      (j ∷ js', erase_answered-cons r j js ∙ rw (miss, e))
]

erase_answered_missing :
    (r : Result) (js : List Job) → count (answers r) js ≡ 0 → erase_answered r js ≡ err past_the_end
erase_answered_missing r [] h = unfold erase_answered in refl
erase_answered_missing r (j ∷ js) h = elim (Bool-cases (answers r j)) [
  | inl hit ↦ absurd (ground arith)
  | inr miss ↦ erase_answered-cons r j js ∙ rw (miss, erase_answered_missing r js (ground arith))
]

module _ (worker : Text) (r : Result) (w : WorkerData) (s : Server) where
  pub complete-total :
      Map.find worker s.worker_queues ≡ some w
      → 1 ≤ count (answers r) w.work
      → (s' : Server) × (complete worker r w s ≡ ok s')
  unfolding complete
  complete-total found h =
      let (work, e) = erase_answered-total r w.work h in
      let v : WorkerData = record w { work = work } in
      let t : Server = record s { worker_queues = Map.assign worker v s.worker_queues } in
      let again =
        transmit_work-eq-move worker t v (Map.find-assign_self worker v w s.worker_queues found) in
      elim (Bool-cases (is_empty s.enqueued_work)) [
        | inl idle ↦ (t, rw (e, idle))
        | inr busy ↦ (
          after_transmit worker t (move (room v) worker t.enqueued_work v t.work_sent),
          rw (e, busy) again,
        )
      ]

  pub complete_missing : count (answers r) w.work ≡ 0 → complete worker r w s ≡ err past_the_end
  unfolding complete
  complete_missing h = rw (erase_answered_missing r w.work h)

-- In the first phase, a histogram from a registered worker that holds the job is accepted: the call
-- returns, and there is one result more.
pub visit_histogram_result_accepted :
    (names : List Text) (worker f : Text) (h : List Float32) (p : Histograms) (w : WorkerData)
    → AreDistinct names
    → IsBalanced names p
    → Map.find worker p.server.worker_queues ≡ some w
    → 1 ≤ count (answers (histogram_result f h)) w.work
    → (q : Histograms) × (visit_histogram_result worker f h p ≡ ok q)
      × (length q.results ≡ suc (length p.results))
      × (pending any_job p.server ≡ suc (pending any_job q.server))
      × IsBalanced names q
visit_histogram_result_accepted names worker f h p w distinct b found holds =
    let (s, done) = complete-total worker (histogram_result f h) w p.server found holds in
    let q : Histograms = record { server = s; results = Map.insert f h p.results } in
    let (j, hit, counts) = complete-eq-ok worker (histogram_result f h) w p.server s found done in
    let e : visit_histogram_result worker f h p ≡ ok q =
      visit_histogram_result_known worker f h p w found ∙ rw done in
    let c = visit_histogram_result-IsBalanced names worker f h p q distinct e b in
    (q, e, omega (arith, counts any_job, b.total, c.total), omega (arith, counts any_job), c)

-- A histogram or an image from a registered worker that does not hold the job makes the visitor call
-- `erase(end())`, in either phase.
pub unasked_result_faults :
    (worker f : Text) (h : List Float32) (t : List ℕ) (p : Histograms) (i : Images)
    (w v : WorkerData)
    → Map.find worker p.server.worker_queues ≡ some w
    → Map.find worker i.server.worker_queues ≡ some v
    → count (answers (histogram_result f h)) w.work ≡ 0
    → count (answers (equalisation_result f t)) v.work ≡ 0
    → (visit_histogram_result worker f h p ≡ err past_the_end)
      × (visit_equalisation_result worker f t i ≡ err past_the_end)
unfolding visit_equalisation_result
unasked_result_faults worker f h t p i w v found found' none_held none_held' = (
  visit_histogram_result_known worker f h p w found
      ∙ rw (complete_missing worker (histogram_result f h) w p.server none_held),
  rw (
    found',
    visit_equalisation_result,
    complete_missing worker (equalisation_result f t) v i.server none_held',
  ),
)
