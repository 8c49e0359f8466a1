-- ===== src/Server/Limits.antt =====
-- The limit on a worker's queue, in the rounds of `receive_histograms` and `receive_equalised`.
use exposure.Base.{
  ℕ, ◌≡◌, sym, ◌∙◌, inl, inr, List, [], ◌∷◌, arith, length, ltb, is_empty, Bool-cases,
}
use exposure.Base.Text.{Text}
use exposure.Base.Map
use exposure.Base.Outcome.{ok, >>=-eq-ok}
use exposure.Protocol.Schema.{Capnp}
use exposure.Server.State.{Server, send_heartbeats, transmit_work}
use exposure.Server.Dispatch.{Histograms, Images, visit_histograms, visit_images}
use exposure.Server.Phases.{
  Event, work_timeout, work_message, communication_message, Progress, returned, waiting, receive,
  communicate, histogram_event, receive_histograms, image_event, image_loop, receive_equalised,
  serve_existing,
}
use exposure.Server.Receive.{receive-eq-ok}
use exposure.Server.Communicating.{communicate-eq-ok}
use exposure.Server.HistogramPhase.{
  receive_histograms_stops, receive_histograms_starves, receive_histograms_goes_on,
}
use exposure.Server.ImagePhase.{image_loop_stops, image_loop_starves, image_loop_goes_on}
use exposure.Server.Capacity.{IsBounded, transmit_work-IsBounded, send_heartbeats-IsBounded}
use exposure.Server.VisitLimits.{
  reached, visit_communication-IsBounded, visit_histograms-IsBounded, visit_images-IsBounded,
}

serve_existing-IsBounded :
    (workers : List Text) (s s' : Server)
    → serve_existing workers s ≡ ok s'
    → IsBounded s
    → IsBounded s'
unfolding serve_existing
serve_existing-IsBounded [] s s' e b = let same : s ≡ s' = cc in rw (← same) b
serve_existing-IsBounded (k ∷ ks) s s' e b = elim (Bool-cases (is_empty s.enqueued_work)) [
  | inl idle ↦ let same : s ≡ s' = ground arith in rw (← same) b
  | inr busy ↦
      let (u, sent, e') = >>=-eq-ok (transmit_work k s) (serve_existing ks) (rw busy at e) in
      serve_existing-IsBounded ks u s' e' (transmit_work-IsBounded k s u sent b)
]

module _ (capnp : Capnp) where
  communicate-IsBounded :
      (now : ℕ) (worker m : Text) (s s' : Server)
      → communicate capnp now worker m s ≡ ok s'
      → IsBounded s
      → IsBounded s'
  communicate-IsBounded now worker m s s' e b = elim (communicate-eq-ok capnp now worker m s s' e) [
    | inl (c, visited) ↦ visit_communication-IsBounded now worker c s s' visited b
    | inr (lost, same) ↦ rw (← same) b
  ]

  histogram_event-IsBounded :
      (ev : Event) (p q : Histograms)
      → histogram_event capnp ev p ≡ ok q
      → IsBounded p.server
      → IsBounded q.server
  unfolding histogram_event
  histogram_event-IsBounded (work_timeout clock) p q e b = let same : p ≡ q = cc in rw (← same) b
  histogram_event-IsBounded (work_message clock worker m) p q e b =
      let (c, visited) = receive-eq-ok capnp (visit_histograms worker) m p q e in
      visit_histograms-IsBounded worker c p q visited b
  histogram_event-IsBounded (communication_message now worker m) p q e b =
      let (s, received, e') = >>=-eq-ok (communicate capnp now worker m p.server) _ e in
      let same : record p { server = s } ≡ q = cc in
      rw (← same) (communicate-IsBounded now worker m p.server s received b)

  image_event-IsBounded :
      (ev : Event) (p q : Images)
      → image_event capnp ev p ≡ ok q
      → IsBounded p.server
      → IsBounded q.server
  unfolding image_event
  image_event-IsBounded (work_timeout clock) p q e b =
      let same : record p { server = send_heartbeats clock p.server } ≡ q = cc in
      rw (← same) (send_heartbeats-IsBounded clock p.server b)
  image_event-IsBounded (work_message clock worker m) p q e b =
      let (r, received, e') = >>=-eq-ok (receive capnp (visit_images worker) m p) _ e in
      let (c, visited) = receive-eq-ok capnp (visit_images worker) m p r received in
      let same : record r { server = send_heartbeats clock r.server } ≡ q = cc in
      rw (← same)
        (send_heartbeats-IsBounded clock r.server (visit_images-IsBounded worker c p r visited b))
  image_event-IsBounded (communication_message now worker m) p q e b =
      let (s, received, e') = >>=-eq-ok (communicate capnp now worker m p.server) _ e in
      let same : record p { server = s } ≡ q = cc in
      rw (← same) (communicate-IsBounded now worker m p.server s received b)

  -- From a server whose workers hold at most as many jobs as they have places, and have at most
  -- `MAX_WORKER_QUEUE` places, the first phase keeps it so, whatever arrives, whether it returns or
  -- still waits.
  pub receive_histograms-IsBounded :
      (total : ℕ) (es : List Event) (p : Histograms) (r : Progress Histograms)
      → receive_histograms capnp total es p ≡ ok r
      → IsBounded p.server
      → IsBounded (reached r).server
  receive_histograms-IsBounded total [] p r e b = elim (Bool-cases (ltb (length p.results) total)) [
    | inl more ↦
        let same : waiting p ≡ r = cc (receive_histograms_starves capnp total p more) in
        rw (← same) b
    | inr enough ↦
        let same : returned p [] ≡ r = cc (receive_histograms_stops capnp total [] p enough) in
        rw (← same) b
  ]
  receive_histograms-IsBounded total (ev ∷ es) p r e b =
      elim (Bool-cases (ltb (length p.results) total)) [
        | inl more ↦
            let (q, handled, e') =
              >>=-eq-ok (histogram_event capnp ev p) _
                (sym (receive_histograms_goes_on capnp total ev es p more) ∙ e) in
            receive_histograms-IsBounded total es q r e'
              (histogram_event-IsBounded ev p q handled b)
        | inr enough ↦
            let same : returned p (ev ∷ es) ≡ r =
              cc (receive_histograms_stops capnp total (ev ∷ es) p enough) in
            rw (← same) b
      ]

  image_loop-IsBounded :
      (s : Server) (total : ℕ) (es : List Event) (p : Images) (r : Progress Images)
      → image_loop capnp total es p ≡ ok r
      → IsBounded p.server
      → IsBounded (reached r).server
  image_loop-IsBounded s total [] p r e b = elim (Bool-cases (ltb p.equalised_count total)) [
    | inl more ↦
        let same : waiting p ≡ r = cc (image_loop_starves capnp s total p more) in rw (← same) b
    | inr enough ↦
        let same : returned p [] ≡ r = cc (image_loop_stops capnp s total [] p enough) in
        rw (← same) b
  ]
  image_loop-IsBounded s total (ev ∷ es) p r e b = elim (Bool-cases (ltb p.equalised_count total)) [
    | inl more ↦
        let (q, handled, e') =
          >>=-eq-ok (image_event capnp ev p) _
            (sym (image_loop_goes_on capnp s total ev es p more) ∙ e) in
        image_loop-IsBounded s total es q r e' (image_event-IsBounded ev p q handled b)
    | inr enough ↦
        let same : returned p (ev ∷ es) ≡ r =
          cc (image_loop_stops capnp s total (ev ∷ es) p enough) in
        rw (← same) b
  ]

  -- The second phase, from the serving of the workers that are there already, keeps each worker at
  -- as many jobs as it has places at most, and at `MAX_WORKER_QUEUE` places at most, whatever
  -- arrives, whether it returns or still waits.
  pub receive_equalised-IsBounded :
      (total : ℕ) (es : List Event) (s : Server) (r : Progress Images)
      → receive_equalised capnp total es s ≡ ok r
      → IsBounded s
      → IsBounded (reached r).server
  unfolding receive_equalised
  receive_equalised-IsBounded total es s r e b =
      let (u, served, e') = >>=-eq-ok (serve_existing (Map.keys s.worker_queues) s) _ e in
      image_loop-IsBounded u total es _ r e'
        (serve_existing-IsBounded (Map.keys s.worker_queues) s u served b)
