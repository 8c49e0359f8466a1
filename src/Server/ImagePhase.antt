-- ===== src/Server/ImagePhase.antt =====
-- `receive_equalised` of src/server.cpp: the account of jobs and images through its rounds.
use exposure.Base.{
  ℕ, ◌≤◌, ◌≡◌, sym, ◌∙◌, Bool, true, false, inl, inr, List, [], ◌∷◌, count, arith, Bool-cases, ltb,
  is_empty, eq-nil_of_length, count_all,
}
use exposure.Base.Text.{Text, text_eq}
use exposure.Base.Map
use exposure.Base.Outcome.{ok, ◌>>=◌, >>=-eq-ok}
use exposure.Protocol.Schema.{Capnp}
use exposure.Protocol.Command.{Job}
use exposure.Server.State.{Server, transmit_work, send_heartbeats}
use exposure.Server.Dispatch.{Images, visit_images}
use exposure.Server.Phases.{
  Event, work_timeout, work_message, communication_message, returned, waiting, receive, communicate,
  image_event, serve_existing, image_loop, receive_equalised,
}
use exposure.Server.Communicating.{pending-communicate}
use exposure.Server.Pending.{pending, held, pending-transmit_work}
use exposure.Server.Balance.{is_for, any_job, pending-le-any, not_ltb}
use exposure.Server.Receive.{receive-eq-ok}
use exposure.Server.Account.{
  IsAccounted, IsAccounted-same, visit_images-IsAccounted, beat-IsAccounted,
}

module _ (capnp : Capnp) (s : Server) where
  pub image_event-IsAccounted :
      (ev : Event) (p q : Images)
      → image_event capnp ev p ≡ ok q
      → IsAccounted s p
      → IsAccounted s q
  unfolding image_event
  image_event-IsAccounted (work_timeout clock) p q e a =
      let same : record p { server = send_heartbeats clock p.server } ≡ q = cc in
      rw same at (beat-IsAccounted s clock p a)
  image_event-IsAccounted (work_message clock worker m) p q e a =
      let (r, received, e') = >>=-eq-ok (receive capnp (visit_images worker) m p) _ e in
      let (c, visited) = receive-eq-ok capnp (visit_images worker) m p r received in
      let same : record r { server = send_heartbeats clock r.server } ≡ q = cc in
      rw same at (beat-IsAccounted s clock r (visit_images-IsAccounted s worker c p r visited a))
  image_event-IsAccounted (communication_message now worker m) p q e a =
      let (u, received, e') = >>=-eq-ok (communicate capnp now worker m p.server) _ e in
      let same : record p { server = u } ≡ q = cc in
      rw same at (
        IsAccounted-same s p u (λ t. pending-communicate capnp now worker m t p.server u received)
          a)

  pub image_loop_stops :
      (total : ℕ) (es : List Event) (p : Images)
      → ltb p.equalised_count total ≡ false
      → image_loop capnp total es p ≡ ok (returned p es)
  unfolding image_loop
  image_loop_stops total [] p h = rw h
  image_loop_stops total (ev ∷ es) p h = rw h

  pub image_loop_starves :
      (total : ℕ) (p : Images)
      → ltb p.equalised_count total ≡ true
      → image_loop capnp total [] p ≡ ok (waiting p)
  unfolding image_loop
  image_loop_starves total p h = rw h

  pub image_loop_goes_on :
      (total : ℕ) (ev : Event) (es : List Event) (p : Images)
      → ltb p.equalised_count total ≡ true
      → image_loop capnp total (ev ∷ es) p ≡ (image_event capnp ev p >>= image_loop capnp total es)
  unfolding image_loop
  image_loop_goes_on total ev es p h = rw h

  image_loop-IsAccounted :
      (total : ℕ) (es : List Event) (p q : Images) (rest : List Event)
      → image_loop capnp total es p ≡ ok (returned q rest)
      → IsAccounted s p
      → IsAccounted s q × (total ≤ q.equalised_count)
  image_loop-IsAccounted total [] p q rest e a = elim (Bool-cases (ltb p.equalised_count total)) [
    | inl more ↦ cc (image_loop_starves total p more)
    | inr enough ↦
        let same : p ≡ q = cc (image_loop_stops total [] p enough) in
        (rw same at a, rw same at (not_ltb _ _ enough))
  ]
  image_loop-IsAccounted total (ev ∷ es) p q rest e a =
      elim (Bool-cases (ltb p.equalised_count total)) [
        | inl more ↦
            let (r, handled, e') =
              >>=-eq-ok (image_event capnp ev p) _
                (sym (image_loop_goes_on total ev es p more) ∙ e) in
            image_loop-IsAccounted total es r q rest e' (image_event-IsAccounted ev p r handled a)
        | inr enough ↦
            let same : p ≡ q = cc (image_loop_stops total (ev ∷ es) p enough) in
            (rw same at a, rw same at (not_ltb _ _ enough))
      ]

pub pending-serve_existing :
    (c : Job → Bool) (workers : List Text) (s s' : Server)
    → serve_existing workers s ≡ ok s'
    → pending c s' ≡ pending c s
unfolding serve_existing
pending-serve_existing c [] s s' e = let same : s ≡ s' = cc in rw same
pending-serve_existing c (k ∷ ks) s s' e = elim (Bool-cases (is_empty s.enqueued_work)) [
  | inl idle ↦ let same : s ≡ s' = ground arith in rw same
  | inr busy ↦
      let (u, sent, e') = >>=-eq-ok (transmit_work k s) (serve_existing ks) (rw busy at e) in
      pending-serve_existing c ks u s' e' ∙ pending-transmit_work c k s u sent
]

-- When the second phase returns, with a total of as many results as there were jobs in the queue and
-- with workers, after whatever messages, timeouts and dismissals: no job is in the queue or with a
-- worker, as many results were counted as there were jobs, and for each file there are at least as
-- many images written as there were jobs for it.
pub receive_equalised_complete :
    (capnp : Capnp) (s : Server) (es rest : List Event) (q : Images)
    → receive_equalised capnp (pending any_job s) es s ≡ ok (returned q rest)
    → (q.server.enqueued_work ≡ [])
      × (held any_job q.server.worker_queues ≡ 0)
      × (q.equalised_count ≡ pending any_job s)
      × ((f : Text) → pending (is_for f) s ≤ count (text_eq f) (Map.keys q.written))
unfolding receive_equalised
receive_equalised_complete capnp s es rest q e =
    let (u, served, e') = >>=-eq-ok (serve_existing (Map.keys s.worker_queues) s) _ e in
    let same = λ (c : Job → Bool). pending-serve_existing c (Map.keys s.worker_queues) s u served in
    let (a, enough) = image_loop-IsAccounted capnp s (pending any_job s) es _ q rest e' (record {
      counted = omega (arith, same any_job);
      images = λ f. omega (arith, same (is_for f));
    }) in
    let none_pending : pending any_job q.server ≡ 0 = omega (arith, a.counted, enough) in
    (
      eq-nil_of_length q.server.enqueued_work
          (omega (arith, count_all q.server.enqueued_work, none_pending)),
      omega arith,
      omega (arith, a.counted),
      λ f. omega (arith, a.images f, pending-le-any (is_for f) q.server, none_pending),
    )
