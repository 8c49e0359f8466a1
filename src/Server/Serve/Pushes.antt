-- ===== src/Server/Serve/Pushes.antt =====
-- The jobs that `serve_work` of src/server.cpp pushes between the phases.
use exposure.Base.{
  ℕ, ◌+◌, ◌≡◌, refl, ◌∙◌, Bool, true, Option, none, some, List, [], ◌∷◌, length, count,
  count-append, ◌==◌, is_empty, arith,
}
use exposure.Base.Text.{Text, text_eq}
use exposure.Base.Map
use exposure.Base.Map.{Map}
use exposure.Base.Outcome.{ok, >>=-eq-ok, require, require-eq-ok, assertion}
use exposure.Protocol.Schema.{Float32, Capnp}
use exposure.Protocol.Command.{Job, equalisation_job}
use exposure.Algorithm.Arithmetic.{Arithmetic}
use exposure.Algorithm.Equalisation.{
  get_equalisation_parameters, identity_equalisation_histogram_mapping,
}
use exposure.Server.State.{Server}
use exposure.Server.Dispatch.{Histograms}
use exposure.Server.Phases.{communicate, equalisation_jobs, all_equalisation_jobs}
use exposure.Server.Communicating.{pending-communicate}
use exposure.Server.Pending.{pending}
use exposure.Server.Balance.{any_job, is_for}
use exposure.Server.Serve.{
  Message, push_all, pushed, left, push_jobs, communicate_all, push_equalisation_jobs,
}

pending-push_all :
    (c : Job → Bool) (jobs : List Job) (s : Server)
    → pending c (push_all jobs s) ≡ pending c s + count c jobs
pending-push_all c jobs s = omega (arith, count-append c s.enqueued_work jobs)

pending-pushed :
    (c : Job → Bool) (jobs : List Job) (s : Server)
    → pending c (pushed jobs s) + count c (left jobs) ≡ pending c s + count c jobs
pending-pushed c [] s = refl
pending-pushed c (j ∷ jobs) s = ground (arith, pending-push_all c (j ∷ []) s)

-- Whatever the messages, the pushes add their jobs to what is pending, and nothing else does.
pub pending-push_jobs :
    (capnp : Capnp) (c : Job → Bool) (steps : List (Option Message)) (jobs : List Job)
    (s s' : Server)
    → push_jobs capnp steps jobs s ≡ ok s'
    → pending c s' ≡ pending c s + count c jobs
unfolding push_jobs
pending-push_jobs capnp c [] jobs s s' e =
    let same : push_all jobs s ≡ s' = cc in rw (← same) (pending-push_all c jobs s)
pending-push_jobs capnp c (none ∷ steps) jobs s s' e =
    pending-push_jobs capnp c steps (left jobs) (pushed jobs s) s' e ∙ pending-pushed c jobs s
pending-push_jobs capnp c (some m ∷ steps) jobs s s' e =
    let (u, received, e') = >>=-eq-ok (communicate capnp m.now m.sender m.content s) _ e in
    omega (
      arith,
      pending-push_jobs capnp c steps jobs u s' e',
      pending-communicate capnp m.now m.sender m.content c s u received,
    )

pub pending-communicate_all :
    (capnp : Capnp) (c : Job → Bool) (ms : List Message) (s s' : Server)
    → communicate_all capnp ms s ≡ ok s'
    → pending c s' ≡ pending c s
unfolding communicate_all
pending-communicate_all capnp c [] s s' e = let same : s ≡ s' = cc in rw same
pending-communicate_all capnp c (m ∷ ms) s s' e =
    let (u, received, e') = >>=-eq-ok (communicate capnp m.now m.sender m.content s) _ e in
    pending-communicate_all capnp c ms u s' e'
    ∙ pending-communicate capnp m.now m.sender m.content c s u received

-- One job for each of the histograms.
pub record AreFor (jobs : List Job) (m : Map (List Float32)) : Type 0 where
  pub total : count any_job jobs ≡ length m
  pub each : (f : Text) → count (is_for f) jobs ≡ count (text_eq f) (Map.keys m)

equalisation_jobs-AreFor :
    (a : Arithmetic) (previous : List Float32) (m : Map (List Float32)) (jobs : List Job)
    → equalisation_jobs a previous m ≡ ok jobs
    → AreFor jobs m
unfolding equalisation_jobs
equalisation_jobs-AreFor a previous [] jobs e =
    let same : [] ≡ jobs = cc in rw (← same) (record { total = refl; each = λ f. refl })
equalisation_jobs-AreFor a previous ((name, current) ∷ m) jobs e =
    let (mapping, computed, e') = >>=-eq-ok (get_equalisation_parameters a previous current) _ e in
    let (others, made, e'') = >>=-eq-ok (equalisation_jobs a current m) _ e' in
    let rest = equalisation_jobs-AreFor a current m others made in
    let same : equalisation_job name mapping ∷ others ≡ jobs = cc in
    rw (← same)
      (record { total = omega (arith, rest.total); each = λ f. ground (arith, rest.each f) })

pub all_equalisation_jobs-AreFor :
    (a : Arithmetic) (m : Map (List Float32)) (jobs : List Job)
    → all_equalisation_jobs a m ≡ ok jobs
    → AreFor jobs m
unfolding all_equalisation_jobs
all_equalisation_jobs-AreFor a [] jobs e = cc
all_equalisation_jobs-AreFor a ((name, first) ∷ m) jobs e =
    let (others, made, e') = >>=-eq-ok (equalisation_jobs a first m) _ e in
    let rest = equalisation_jobs-AreFor a first m others made in
    let same : equalisation_job name (identity_equalisation_histogram_mapping a) ∷ others ≡ jobs =
      cc in
    rw (← same)
      (record { total = omega (arith, rest.total); each = λ f. ground (arith, rest.each f) })

eq-of_test : (m n : ℕ) → (m == n) ≡ true → m ≡ n
eq-of_test m n e = ground arith

pub push_equalisation_jobs-eq-ok :
    (capnp : Capnp) (a : Arithmetic) (n : ℕ) (steps : List (Option Message)) (p : Histograms)
    (s : Server)
    → push_equalisation_jobs capnp a n steps p ≡ ok s
    → (jobs : List Job) × AreFor jobs p.results
      × ((c : Job → Bool) → pending c s ≡ pending c p.server + count c jobs)
      × (length s.enqueued_work ≡ n)
unfolding push_equalisation_jobs
push_equalisation_jobs-eq-ok capnp a n steps p s e =
    let (t, idle, e₁) = >>=-eq-ok (require (is_empty p.server.enqueued_work) assertion) _ e in
    let (jobs, made, e₂) = >>=-eq-ok (all_equalisation_jobs a p.results) _ e₁ in
    let (u, went, e₃) = >>=-eq-ok (push_jobs capnp steps jobs p.server) _ e₂ in
    let (t', tested, e₄) = >>=-eq-ok (require (length u.enqueued_work == n) assertion) _ e₃ in
    let same : u ≡ s = cc in
    (
      jobs,
      all_equalisation_jobs-AreFor a p.results jobs made,
      λ c. rw (← same) (pending-push_jobs capnp c steps jobs p.server u went),
      rw (← same) (eq-of_test (length u.enqueued_work) n (require-eq-ok _ assertion tested)),
    )
