-- ===== src/Server/VisitLimits.antt =====
-- The limit on a worker's queue, through the visitors of the server.
use exposure.Base.{ℕ, ◌≡◌, sym, ◌∙◌, inl, inr, List, [], ◌∷◌, ◌++◌, suc, Option-cases}
use exposure.Base.Text.{Text}
use exposure.Base.Map
use exposure.Base.Outcome.{ok, >>=-eq-ok}
use exposure.Protocol.Schema.{Float32}
use exposure.Protocol.Command.{
  histogram_result, equalisation_result, Command, helo, ehlo, job, result, heartbeat, bye,
}
use exposure.Server.State.{Server}
use exposure.Server.Dispatch.{
  Histograms, Images, visit_histograms, visit_histogram_result, visit_images,
  visit_equalisation_result, visit_communication, visit_heartbeat, complete, visit_work_bye,
}
use exposure.Server.Phases.{Progress, returned, waiting}
use exposure.Server.Balance.{visit_histogram_result_unknown, visit_histogram_result_known}
use exposure.Server.Account.{visit_equalisation_result_unknown, visit_equalisation_result_known}
use exposure.Server.Capacity.{
  IsBounded, visit_work_bye-IsBounded, visit_helo-IsBounded, visit_heartbeat-IsBounded,
  complete-IsBounded,
}

-- What a loop has reached, whether it has returned or still waits.
abbrev pub reached {ℓ} : {A : Type ℓ} → Progress A → A
reached (returned a rest) = a
reached (waiting a) = a

pub visit_communication-IsBounded :
    (now : ℕ) (worker : Text) (c : Command) (s s' : Server)
    → visit_communication now worker c s ≡ ok s'
    → IsBounded s
    → IsBounded s'
unfolding visit_communication
visit_communication-IsBounded now worker (helo n) s s' e h =
    visit_helo-IsBounded now worker n s s' e h
visit_communication-IsBounded now worker (heartbeat t) s s' e h =
    let same : visit_heartbeat worker t s ≡ s' = cc in
    rw (← same) (visit_heartbeat-IsBounded worker t s h)
visit_communication-IsBounded now worker ehlo s s' e h = let same : s ≡ s' = cc in rw (← same) h
visit_communication-IsBounded now worker (job j) s s' e h = let same : s ≡ s' = cc in rw (← same) h
visit_communication-IsBounded now worker (result r) s s' e h =
    let same : s ≡ s' = cc in rw (← same) h
visit_communication-IsBounded now worker bye s s' e h = let same : s ≡ s' = cc in rw (← same) h

visit_histogram_result-IsBounded :
    (worker f : Text) (h : List Float32) (p q : Histograms)
    → visit_histogram_result worker f h p ≡ ok q
    → IsBounded p.server
    → IsBounded q.server
visit_histogram_result-IsBounded worker f h p q e b =
    elim (Option-cases (Map.find worker p.server.worker_queues)) [
      | inl absent ↦
          let same : p ≡ q = cc (visit_histogram_result_unknown worker f h p absent) in
          rw (← same) b
      | inr (w, found) ↦
          let (s, done, e') =
            >>=-eq-ok (complete worker (histogram_result f h) w p.server) _
              (sym (visit_histogram_result_known worker f h p w found) ∙ e) in
          let same : record { server = s; results = Map.insert f h p.results } ≡ q = cc in
          rw (← same) (complete-IsBounded worker (histogram_result f h) w p.server s found done b)
    ]

visit_equalisation_result-IsBounded :
    (worker f : Text) (t : List ℕ) (p q : Images)
    → visit_equalisation_result worker f t p ≡ ok q
    → IsBounded p.server
    → IsBounded q.server
visit_equalisation_result-IsBounded worker f t p q e b =
    elim (Option-cases (Map.find worker p.server.worker_queues)) [
      | inl absent ↦
          let same : record p { written = p.written ++ (f, t) ∷ [] } ≡ q =
            cc (visit_equalisation_result_unknown worker f t p absent) in
          rw (← same) b
      | inr (w, found) ↦
          let (u, done, e') =
            >>=-eq-ok (complete worker (equalisation_result f t) w p.server) _
              (sym (visit_equalisation_result_known worker f t p w found) ∙ e) in
          let same : record {
            server = u;
            equalised_count = suc p.equalised_count;
            written = p.written ++ (f, t) ∷ [];
          }
              ≡ q =
            cc in
          rw (← same)
            (complete-IsBounded worker (equalisation_result f t) w p.server u found done b)
    ]

pub visit_histograms-IsBounded :
    (worker : Text) (c : Command) (p q : Histograms)
    → visit_histograms worker c p ≡ ok q
    → IsBounded p.server
    → IsBounded q.server
unfolding visit_histograms
visit_histograms-IsBounded worker (result (histogram_result f h)) p q e b =
    visit_histogram_result-IsBounded worker f h p q e b
visit_histograms-IsBounded worker bye p q e b =
    let (s, done, e') = >>=-eq-ok (visit_work_bye worker p.server) _ e in
    let same : record p { server = s } ≡ q = cc in
    rw (← same) (visit_work_bye-IsBounded worker p.server s done b)
visit_histograms-IsBounded worker (result (equalisation_result f t)) p q e b =
    let same : p ≡ q = cc in rw (← same) b
visit_histograms-IsBounded worker (helo n) p q e b = let same : p ≡ q = cc in rw (← same) b
visit_histograms-IsBounded worker ehlo p q e b = let same : p ≡ q = cc in rw (← same) b
visit_histograms-IsBounded worker (job j) p q e b = let same : p ≡ q = cc in rw (← same) b
visit_histograms-IsBounded worker (heartbeat t) p q e b = let same : p ≡ q = cc in rw (← same) b

pub visit_images-IsBounded :
    (worker : Text) (c : Command) (p q : Images)
    → visit_images worker c p ≡ ok q
    → IsBounded p.server
    → IsBounded q.server
unfolding visit_images
visit_images-IsBounded worker (result (equalisation_result f t)) p q e b =
    visit_equalisation_result-IsBounded worker f t p q e b
visit_images-IsBounded worker bye p q e b =
    let (s, done, e') = >>=-eq-ok (visit_work_bye worker p.server) _ e in
    let same : record p { server = s } ≡ q = cc in
    rw (← same) (visit_work_bye-IsBounded worker p.server s done b)
visit_images-IsBounded worker (result (histogram_result f h)) p q e b =
    let same : p ≡ q = cc in rw (← same) b
visit_images-IsBounded worker (helo n) p q e b = let same : p ≡ q = cc in rw (← same) b
visit_images-IsBounded worker ehlo p q e b = let same : p ≡ q = cc in rw (← same) b
visit_images-IsBounded worker (job j) p q e b = let same : p ≡ q = cc in rw (← same) b
visit_images-IsBounded worker (heartbeat t) p q e b = let same : p ≡ q = cc in rw (← same) b
