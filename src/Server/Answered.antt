-- ===== src/Server/Answered.antt =====
-- The pending jobs when a result is accepted, and through the communication visitor.
use exposure.Base.{
  ℕ, ◌+◌, ◌≡◌, Bool, true, false, inl, inr, some, List, [], ◌∷◌, count, arith, if◌then◌else◌, ◌∙◌,
  sym, Bool-cases, is_empty,
}
use exposure.Base.Text.{Text}
use exposure.Base.Map
use exposure.Base.Map.{Map}
use exposure.Base.Outcome.{ok, ◌>>=◌, >>=-eq-ok}
use exposure.Protocol.Command.{Job, Result, Command, helo, ehlo, job, result, heartbeat, bye}
use exposure.Protocol.Equality.{answers, job_eq_result_lem}
use exposure.Server.State.{WorkerData, Server, transmit_work}
use exposure.Server.Dispatch.{erase_answered, complete, visit_heartbeat, visit_communication}
use exposure.Server.Pending.{
  held-assign, held-erase, pending, pending-transmit_work, pending-visit_heartbeat,
  pending-visit_helo,
}

pub erase_answered-cons :
    (r : Result) (j : Job) (js : List Job)
    → erase_answered r (j ∷ js)
      ≡ (if answers r j then ok js else (erase_answered r js >>= λ rest. ok (j ∷ rest)))
unfolding erase_answered
erase_answered-cons r j js = rw (job_eq_result_lem j r)

-- What `erase_answered` takes out is one job that the result answers.
pub erase_answered-eq-ok :
    (r : Result) (js js' : List Job)
    → erase_answered r js ≡ ok js'
    → (j : Job) × (answers r j ≡ true) × ((p : Job → Bool) → count p js ≡ count p (j ∷ js'))
erase_answered-eq-ok r [] js' e = unfold erase_answered in cc e
erase_answered-eq-ok r (j ∷ js) js' e = elim (Bool-cases (answers r j)) [
  | inl hit ↦ let e' : js ≡ js' = ground (arith, erase_answered-cons r j js) in (j, hit, λ p. rw e')
  | inr miss ↦
      let e' : (erase_answered r js >>= λ rest. ok (j ∷ rest)) ≡ ok js' =
        rw miss at (sym (erase_answered-cons r j js)) ∙ e in
      let (rest, found, q) = >>=-eq-ok (erase_answered r js) (λ rest. ok (j ∷ rest)) e' in
      let (i, hit, counts) = erase_answered-eq-ok r js rest found in
      (i, hit, λ p. ground (arith, counts p, q))
]

pending-refill :
    (p : Job → Bool) (worker : Text) (idle : Bool) (s s' : Server)
    → (if idle then ok s else transmit_work worker s) ≡ ok s'
    → pending p s' ≡ pending p s
pending-refill p worker true s s' e = let q : s ≡ s' = ground arith in rw q
pending-refill p worker false s s' e = pending-transmit_work p worker s s' e

-- A result that is accepted takes one job that it answers off the pending ones, and no other.
pub complete-eq-ok :
    (worker : Text) (r : Result) (w : WorkerData) (s s' : Server)
    → Map.find worker s.worker_queues ≡ some w
    → complete worker r w s ≡ ok s'
    → (j : Job) × (answers r j ≡ true)
      × ((p : Job → Bool) → pending p s ≡ count p (j ∷ []) + pending p s')
unfolding complete
complete-eq-ok worker r w s s' found e =
    let (work, taken, more) = >>=-eq-ok (erase_answered r w.work) _ e in
    let (j, hit, counts) = erase_answered-eq-ok r w.work work taken in
    let t : Server = record s {
      worker_queues = Map.assign worker (record w { work = work }) s.worker_queues;
    } in
    (
      j,
      hit,
      λ p. ground (
        arith,
        counts p,
        held-erase p worker s.worker_queues w found,
        held-assign p worker (record w { work = work }) s.worker_queues w found,
        pending-refill p worker (is_empty s.enqueued_work) t s' more,
      ),
    )

-- No message on the communication socket changes what is pending.
pub pending-visit_communication :
    (p : Job → Bool) (now : ℕ) (worker : Text) (c : Command) (s s' : Server)
    → visit_communication now worker c s ≡ ok s'
    → pending p s' ≡ pending p s
unfolding visit_communication
pending-visit_communication p now worker (helo n) s s' e = pending-visit_helo p now worker n s s' e
pending-visit_communication p now worker (heartbeat t) s s' e =
    let q : visit_heartbeat worker t s ≡ s' = cc in rw (← q) (pending-visit_heartbeat p worker t s)
pending-visit_communication p now worker ehlo s s' e = let q : s ≡ s' = cc in rw q
pending-visit_communication p now worker (job j) s s' e = let q : s ≡ s' = cc in rw q
pending-visit_communication p now worker (result r) s s' e = let q : s ≡ s' = cc in rw q
pending-visit_communication p now worker bye s s' e = let q : s ≡ s' = cc in rw q
