-- ===== src/Server/Contract/Refines.antt =====
-- The first phase of src/server.cpp keeps its contract, step by step.
use exposure.Base.{
  ℕ, suc, ◌+◌, ◌≡◌, refl, sym, subst, ap, ◌∙◌, Bool, inl, inr, ◌⊎◌, List, [], ◌∷◌, length, count,
  arith, Option-cases, Bool-cases, ltb,
}
use exposure.Base.Text.{Text, text_eq_refl}
use exposure.Base.Map
use exposure.Base.Map.{Map}
use exposure.Base.Outcome.{ok, >>=-eq-ok}
use exposure.Protocol.Schema.{Float32, Capnp}
use exposure.Protocol.Command.{
  Job, histogram_job, histogram_result, equalisation_result, Command, helo, ehlo, job, result,
  heartbeat, bye,
}
use exposure.Server.State.{Server}
use exposure.Server.Dispatch.{
  Histograms, visit_histograms, visit_histogram_result, complete, visit_work_bye,
}
use exposure.Server.Phases.{
  Event, work_timeout, work_message, communication_message, Progress, returned, waiting,
  communicate, histogram_event, receive_histograms, enqueue_files, histogram_start,
}
use exposure.Server.Answered.{complete-eq-ok}
use exposure.Server.Communicating.{pending-communicate}
use exposure.Server.Pending.{pending, pending-visit_work_bye}
use exposure.Server.Balance.{
  is_for, AreDistinct, IsBalanced, answered_is_for, unrecorded, visit_histogram_result_known,
  visit_histogram_result_unknown,
}
use exposure.Server.Receive.{receive-eq-ok}
use exposure.Server.HistogramPhase.{
  regular_files, IsBalanced-start, enqueue_files-each, histogram_event-IsBalanced,
  receive_histograms_stops, receive_histograms_starves, receive_histograms_goes_on,
}
use exposure.Server.Contract.{Contract, agreed, Answer, answer, Answers, no_more, one_more}

-- A server with its histograms, as the contract sees it: the queue and the workers' jobs together.
abbrev pub contract_of : Histograms → Contract
contract_of p = record { open_answers = λ f. pending (is_for f) p.server; answered = p.results }

-- What a message can do: nothing that the contract sees, or one answer
abbrev Same : Contract → Contract → Type 0
Same before after =
    ((g : Text) → before.open_answers g ≡ after.open_answers g) × (before.answered ≡ after.answered)

abbrev Keeps : Histograms → Histograms → Type 0
Keeps p q = Same (contract_of p) (contract_of q) ⊎ Answer (contract_of p) (contract_of q)

unseen :
    (p : Histograms) (s : Server)
    → ((t : Job → Bool) → pending t s ≡ pending t p.server)
    → Keeps p (record p { server = s })
unseen p s same = inl (λ g. sym (same (is_for g)), refl)

nothing : (p : Histograms) → Keeps p p
nothing p = inl (λ g. refl, refl)

recorded :
    (names : List Text) (p : Histograms) (s : Server) (f : Text) (h : List Float32)
    → AreDistinct names
    → ((t : Job → Bool) → pending t p.server ≡ count t (histogram_job f ∷ []) + pending t s)
    → IsBalanced names p
    → Keeps p (record { server = s; results = Map.insert f h p.results })
recorded names p s f h distinct counts b = inr (
    answer f h (ground (arith, text_eq_refl f, counts (is_for f), b.each f, distinct f))
      (ground (arith, text_eq_refl f, counts (is_for f), b.each f, distinct f))
      (λ g. ground (arith, counts (is_for g))) (unrecorded names p s f distinct counts b) refl)

visit_histogram_result-Keeps :
    (names : List Text) (worker f : Text) (h : List Float32) (p q : Histograms)
    → AreDistinct names
    → visit_histogram_result worker f h p ≡ ok q
    → IsBalanced names p
    → Keeps p q
visit_histogram_result-Keeps names worker f h p q distinct e b =
    elim (Option-cases (Map.find worker p.server.worker_queues)) [
      | inl absent ↦
          let same : p ≡ q = cc (visit_histogram_result_unknown worker f h p absent) in
          subst (Keeps p) same (nothing p)
      | inr (w, found) ↦
          let (s, done, e') =
            >>=-eq-ok (complete worker (histogram_result f h) w p.server) _
              (sym (visit_histogram_result_known worker f h p w found) ∙ e) in
          let (j, hit, counts) =
            complete-eq-ok worker (histogram_result f h) w p.server s found done in
          let same : record { server = s; results = Map.insert f h p.results } ≡ q = cc in
          subst (Keeps p) same
            (recorded names p s f h distinct (rw (answered_is_for f h j hit) at counts) b)
    ]

visit_histograms-Keeps :
    (names : List Text) (worker : Text) (c : Command) (p q : Histograms)
    → AreDistinct names
    → visit_histograms worker c p ≡ ok q
    → IsBalanced names p
    → Keeps p q
unfolding visit_histograms
visit_histograms-Keeps names worker (helo n) p q d e b =
    let same : p ≡ q = cc in subst (Keeps p) same (nothing p)
visit_histograms-Keeps names worker ehlo p q d e b =
    let same : p ≡ q = cc in subst (Keeps p) same (nothing p)
visit_histograms-Keeps names worker (job j) p q d e b =
    let same : p ≡ q = cc in subst (Keeps p) same (nothing p)
visit_histograms-Keeps names worker (result (histogram_result f h)) p q d e b =
    visit_histogram_result-Keeps names worker f h p q d e b
visit_histograms-Keeps names worker (result (equalisation_result f t)) p q d e b =
    let same : p ≡ q = cc in subst (Keeps p) same (nothing p)
visit_histograms-Keeps names worker (heartbeat t) p q d e b =
    let same : p ≡ q = cc in subst (Keeps p) same (nothing p)
visit_histograms-Keeps names worker bye p q d e b =
    let (s, done, e') = >>=-eq-ok (visit_work_bye worker p.server) _ e in
    let same : record p { server = s } ≡ q = cc in
    subst (Keeps p) same (unseen p s (λ t. pending-visit_work_bye t worker p.server s done))

Same-Answers :
    {n : ℕ} {before between after : Contract}
    → Same before between
    → Answers n between after
    → Answers n before after
Same-Answers same (no_more each all) = no_more (λ g. same.0 g ∙ each g) (same.1 ∙ all)
Same-Answers same (one_more (answer f h was now others new recorded_too) rest) =
    one_more
      (answer f h (same.0 f ∙ was) now (λ g. same.0 g ∙ others g) (ap (Map.find f) same.1 ∙ new)
        (recorded_too ∙ ap (Map.insert f h) (sym same.1)))
      rest

length-Answers :
    {n : ℕ} {before after : Contract}
    → Answers n before after
    → length after.answered ≡ n + length before.answered
length-Answers {before = before} (no_more each all) = rw all (omega arith)
length-Answers {before = before} (one_more (answer f h was now others new recorded_too) rest) =
    omega (
      arith,
      length-Answers rest,
      ap length recorded_too,
      ap length (Map.insert_absent f h before.answered new),
      Map.length-place f h before.answered,
    )

module _ (capnp : Capnp) where
  histogram_event-Keeps :
      (names : List Text) (ev : Event) (p q : Histograms)
      → AreDistinct names
      → histogram_event capnp ev p ≡ ok q
      → IsBalanced names p
      → Keeps p q
  unfolding histogram_event
  histogram_event-Keeps names (work_timeout clock) p q d e b =
      let same : p ≡ q = cc in subst (Keeps p) same (nothing p)
  histogram_event-Keeps names (work_message clock worker m) p q d e b =
      let (c, visited) = receive-eq-ok capnp (visit_histograms worker) m p q e in
      visit_histograms-Keeps names worker c p q d visited b
  histogram_event-Keeps names (communication_message now worker m) p q d e b =
      let (s, received, e') = >>=-eq-ok (communicate capnp now worker m p.server) _ e in
      let same : record p { server = s } ≡ q = cc in
      subst (Keeps p) same
        (unseen p s (λ t. pending-communicate capnp now worker m t p.server s received))

-- Where a loop is that has returned, or waits
abbrev pub reached : Progress Histograms → Histograms
reached (returned p rest) = p
reached (waiting p) = p

abbrev Reaches : Histograms → Progress Histograms → Type 0
Reaches p progress = (n : ℕ) × Answers n (contract_of p) (contract_of (reached progress))

there :
    (p : Histograms) (progress : Progress Histograms) → reached progress ≡ p → Reaches p progress
there p progress e = (0, no_more (λ g. rw e) (rw e))

then-Reaches :
    (p q : Histograms) (progress : Progress Histograms)
    → Keeps p q
    → Reaches q progress
    → Reaches p progress
then-Reaches p q progress (inl same) (n, more) = (n, Same-Answers same more)
then-Reaches p q progress (inr first) (n, more) = (suc n, one_more first more)

receive_histograms-Reaches :
    (capnp : Capnp) (names : List Text) (total : ℕ) (es : List Event) (p : Histograms)
    (progress : Progress Histograms)
    → AreDistinct names
    → receive_histograms capnp total es p ≡ ok progress
    → IsBalanced names p
    → Reaches p progress
receive_histograms-Reaches capnp names total [] p progress d e b =
    elim (Bool-cases (ltb (length p.results) total)) [
      | inl more ↦
          let same : waiting p ≡ progress = cc (receive_histograms_starves capnp total p more) in
          there p progress (sym (ap reached same))
      | inr enough ↦
          let same : returned p [] ≡ progress =
            cc (receive_histograms_stops capnp total [] p enough) in
          there p progress (sym (ap reached same))
    ]
receive_histograms-Reaches capnp names total (ev ∷ es) p progress d e b =
    elim (Bool-cases (ltb (length p.results) total)) [
      | inl more ↦
          let (r, handled, e') =
            >>=-eq-ok (histogram_event capnp ev p) _
              (sym (receive_histograms_goes_on capnp total ev es p more) ∙ e) in
          then-Reaches p r progress (histogram_event-Keeps capnp names ev p r d handled b) (
            receive_histograms-Reaches capnp names total es r progress d e'
              (histogram_event-IsBalanced capnp names ev p r d handled b))
      | inr enough ↦
          let same : returned p (ev ∷ es) ≡ progress =
            cc (receive_histograms_stops capnp total (ev ∷ es) p enough) in
          there p progress (sym (ap reached same))
    ]

start-Same :
    (entries : List (Text × Bool))
    → Same (agreed (regular_files entries)) (contract_of (histogram_start entries))
start-Same entries = (λ g. omega (arith, enqueue_files-each g entries), refl)

-- Whatever messages have come on both sockets, and whether the first phase has returned or still
-- waits, it has done as many steps of its contract as it has histograms, from the one with an open
-- answer for each regular file: each step answered for one name, which was open and had no
-- histogram, and changed no other. The paths of a directory are distinct.
pub receive_histograms-refines :
    (capnp : Capnp) (entries : List (Text × Bool)) (es : List Event)
    (progress : Progress Histograms)
    → AreDistinct (regular_files entries)
    → receive_histograms capnp (length (enqueue_files entries)) es (histogram_start entries)
      ≡ ok progress
    → Answers
        (length (reached progress).results)
        (agreed (regular_files entries))
        (contract_of (reached progress))
receive_histograms-refines capnp entries es progress d e =
    let (n, steps) =
      receive_histograms-Reaches capnp (regular_files entries) _ es (histogram_start entries)
        progress d e (IsBalanced-start entries) in
    let as_many : n ≡ length (reached progress).results = omega (arith, length-Answers steps) in
    subst (λ m. Answers m (agreed (regular_files entries)) (contract_of (reached progress))) as_many
      (Same-Answers (start-Same entries) steps)
