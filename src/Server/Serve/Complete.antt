-- ===== src/Server/Serve/Complete.antt =====
-- Whole runs of `serve_work` of src/server.cpp.
use exposure.Base.{
  ℕ, ◌+◌, ◌≤◌, ◌≡◌, refl, ap, ◌∙◌, Bool, true, false, ◌⊎◌, Option, some, List, [], length, count,
  count_all, ◌==◌, is_empty, if◌then◌else◌, arith,
}
use exposure.Base.Text.{Text, text_eq}
use exposure.Base.Map
use exposure.Base.Map.{Map}
use exposure.Base.Outcome.{ok, err, ◌>>=◌, >>=-eq-ok, require, assertion}
use exposure.Protocol.Schema.{Capnp}
use exposure.Protocol.Command.{Job}
use exposure.Algorithm.Arithmetic.{Arithmetic}
use exposure.Server.State.{Server}
use exposure.Server.Dispatch.{Histograms}
use exposure.Server.Phases.{
  Event, returned, receive_histograms, enqueue_files, all_equalisation_jobs, histogram_start,
}
use exposure.Server.Pending.{pending, held}
use exposure.Server.Balance.{AreDistinct, any_job, is_for, pending-le-any}
use exposure.Server.HistogramPhase.{
  regular_files, receive_histograms_complete, length-enqueue_files,
}
use exposure.Server.Serve.{
  Message, Traffic, Ended, push_jobs, communicate_all, push_equalisation_jobs, wait_equalised,
  serve_work,
}
use exposure.Server.Serve.Done.{
  if_returned-eq-some, if_ended-eq-some, wait_equalised-IsDone, finish-IsDone,
}
use exposure.Server.Serve.Pushes.{
  pending-push_jobs, pending-communicate_all, all_equalisation_jobs-AreFor,
  push_equalisation_jobs-eq-ok,
}

module _ (capnp : Capnp) (a : Arithmetic) (entries : List (Text × Bool)) where
  -- The second phase starts with one job for each of the files, all of them in the queue.
  pushed_jobs_are_of_files :
      (first rest : List Event) (steps : List (Option Message)) (p : Histograms) (s : Server)
      → AreDistinct (regular_files entries)
      → receive_histograms capnp (length (enqueue_files entries)) first (histogram_start entries)
        ≡ ok (returned p rest)
      → push_equalisation_jobs capnp a (length (enqueue_files entries)) steps p ≡ ok s
      → (pending any_job s ≡ length (enqueue_files entries))
        × ((f : Text) → pending (is_for f) s ≡ count (text_eq f) (regular_files entries))
  pushed_jobs_are_of_files first rest steps p s distinct received pushed =
      let (idle, none_held, total, each) =
        receive_histograms_complete capnp entries first rest p distinct received in
      let (jobs, made, counts, all) =
        push_equalisation_jobs-eq-ok capnp a (length (enqueue_files entries)) steps p s pushed in
      let none_queued : count any_job p.server.enqueued_work ≡ 0 = rw idle in
      let none_for : (f : Text) → pending (is_for f) p.server ≡ 0 =
        λ f. omega (arith, pending-le-any (is_for f) p.server, none_queued, none_held) in
      (
        omega (
          arith,
          counts any_job,
          none_queued,
          none_held,
          made.total,
          total,
          length-enqueue_files entries,
        ),
        λ f. omega (arith, counts (is_for f), none_for f, made.each f, each f),
      )

-- When `serve_work` ends, whatever the messages in both phases, between them and after them: the
-- jobs that are left, with the images counted, are at most as many as the regular files of the
-- directory. Unless the second phase ended by an exception, no job is left, with a worker that joined
-- late neither, as many images were counted as there are regular files, and for each of them an image
-- was written. The paths of a directory are distinct.
pub serve_work_complete :
    (capnp : Capnp) (a : Arithmetic) (entries : List (Text × Bool)) (t : Traffic) (q : Ended)
    → AreDistinct (regular_files entries)
    → serve_work capnp a entries t ≡ ok (some q)
    → (pending any_job q.images.server + q.images.equalised_count ≤ length (regular_files entries))
      × ((q.thrown ≡ true)
          ⊎ ((q.images.server.enqueued_work ≡ [])
              × (held any_job q.images.server.worker_queues ≡ 0)
              × (q.images.equalised_count ≡ length (regular_files entries))
              × ((f : Text)
                  → count (text_eq f) (regular_files entries)
                    ≤ count (text_eq f) (Map.keys q.images.written))))
unfolding serve_work
serve_work_complete capnp a entries t q distinct e =
    let total = length (enqueue_files entries) in
    let (h, received, e₁) =
      >>=-eq-ok (receive_histograms capnp total t.first (histogram_start entries)) _ e in
    let (p, rest, is_p, e₂) = if_returned-eq-some _ h q e₁ in
    let (s, pushed, e₃) = >>=-eq-ok (push_equalisation_jobs capnp a total t.pushes p) _ e₂ in
    let (u, heard, e₄) = >>=-eq-ok (communicate_all capnp t.starting s) _ e₃ in
    let (o, waited, e₅) = >>=-eq-ok (wait_equalised capnp total t.second u) _ e₄ in
    let (r, is_r, e₆) = if_ended-eq-some capnp _ o q e₅ in
    let (all, each) =
      pushed_jobs_are_of_files capnp a entries t.first rest t.pushes p s distinct
        (received ∙ ap ok is_p) pushed in
    let all' : pending any_job u ≡ total =
      pending-communicate_all capnp any_job t.starting s u heard ∙ all in
    let each' : (f : Text) → pending (is_for f) u ≡ count (text_eq f) (regular_files entries) =
      λ f. pending-communicate_all capnp (is_for f) t.starting s u heard ∙ each f in
    finish-IsDone capnp (regular_files entries) t r q e₆ (
      wait_equalised-IsDone capnp total t.second u r (regular_files entries) all' each'
        (omega (arith, length-enqueue_files entries)) (waited ∙ ap ok is_r))

-- After a first phase that is complete, and pushes in whatever order with the messages, the
-- assertion on the number of jobs in the queue holds if no worker holds a job then. It fails if a
-- worker holds one, as a worker does that said HELO between the pushes.
pub assertion_races :
    (capnp : Capnp) (a : Arithmetic) (steps : List (Option Message)) (p : Histograms)
    (jobs : List Job) (s : Server)
    → p.server.enqueued_work ≡ []
    → held any_job p.server.worker_queues ≡ 0
    → all_equalisation_jobs a p.results ≡ ok jobs
    → push_jobs capnp steps jobs p.server ≡ ok s
    → push_equalisation_jobs capnp a (length p.results) steps p
      ≡ (if held any_job s.worker_queues == 0 then ok s else err assertion)
unfolding push_equalisation_jobs
assertion_races capnp a steps p jobs s idle none_held made went =
    let counts = pending-push_jobs capnp any_job steps jobs p.server s went in
    let total = (all_equalisation_jobs-AreFor a p.results jobs made).total in
    let none_queued : count any_job p.server.enqueued_work ≡ 0 = rw idle in
    let none_there : is_empty p.server.enqueued_work ≡ true = rw idle in
    let queued : length s.enqueued_work + held any_job s.worker_queues ≡ length p.results =
      omega (arith, counts, total, none_queued, none_held, count_all s.enqueued_work) in
    rw
      (
        none_there,
        made,
        went,
        same_test (length s.enqueued_work) (length p.results) (held any_job s.worker_queues) queued,
      )
      (asserted (held any_job s.worker_queues == 0))
  where
    same_test : (m n k : ℕ) → m + k ≡ n → (m == n) ≡ (k == 0)
    same_test m n k e = ground arith

    asserted :
        (b : Bool) → (require b assertion >>= λ _. ok s) ≡ (if b then ok s else err assertion)
    asserted true = refl
    asserted false = refl
