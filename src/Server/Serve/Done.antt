-- ===== src/Server/Serve/Done.antt =====
-- What is left of the jobs when the second phase of `serve_work` of src/server.cpp has ended, and
-- after the dismissal of the workers.
use exposure.Base.{
  ℕ, ◌+◌, ◌≤◌, ◌≡◌, refl, ap, ◌∙◌, Bool, true, false, ◌⊎◌, inl, inr, Option, none, some, List, [],
  ◌∷◌, length, count, arith, count_all, eq-nil_of_length,
}
use exposure.Base.Text.{Text, text_eq}
use exposure.Base.Map
use exposure.Base.Outcome.{
  Outcome, ok, >>=-eq-ok, Fault, assertion, uncaught, bad_cast, null_dereference, past_the_end,
  out_of_bounds, use_after_free, out_of_fuel, Outcome-cases,
}
use exposure.Protocol.Schema.{Capnp}
use exposure.Protocol.Command.{Job}
use exposure.Server.State.{Server, dismiss_workers}
use exposure.Server.Dispatch.{Images}
use exposure.Server.Phases.{
  Event, Progress, returned, waiting, image_event, serve_existing, receive_equalised,
}
use exposure.Server.Pending.{pending, held}
use exposure.Server.Balance.{any_job, is_for}
use exposure.Server.Account.{IsAccounted}
use exposure.Server.ImagePhase.{
  image_event-IsAccounted, pending-serve_existing, receive_equalised_complete,
}
use exposure.Server.Serve.{
  Traffic, Ended, if_returned, ended_by, waited, if_ended, thrown_at, wait_equalised,
  communicate_all, finish,
}
use exposure.Server.Serve.Pushes.{pending-communicate_all}

pub if_returned-eq-some {ℓ} :
    {A B : Type ℓ} (f : A → Outcome (Option B)) (r : Progress A) (b : B)
    → if_returned f r ≡ ok (some b)
    → (a : A) × (rest : List Event) × (r ≡ returned a rest) × (f a ≡ ok (some b))
if_returned-eq-some f (returned a rest) b e = (a, rest, refl, e)
if_returned-eq-some f (waiting a) b e = cc

pub if_ended-eq-some :
    (capnp : Capnp) (f : Ended → Outcome (Option Ended)) (o : Option Ended) (b : Ended)
    → if_ended capnp f o ≡ ok (some b)
    → (a : Ended) × (o ≡ some a) × (f a ≡ ok (some b))
if_ended-eq-some capnp f none b e = cc
if_ended-eq-some capnp f (some a) b e = (a, refl, e)

-- The state at the end, against the files.
abbrev pub IsDone : List Text → Ended → Type 0
IsDone files q =
    (pending any_job q.images.server + q.images.equalised_count ≤ length files)
    × ((q.thrown ≡ true)
        ⊎ ((q.images.server.enqueued_work ≡ [])
            × (held any_job q.images.server.worker_queues ≡ 0)
            × (q.images.equalised_count ≡ length files)
            × ((f : Text)
                → count (text_eq f) files ≤ count (text_eq f) (Map.keys q.images.written))))

waited-eq-some :
    (fault : Fault) (p : Images) (r : Ended)
    → waited fault p ≡ ok (some r)
    → record { images = p; thrown = true } ≡ r
waited-eq-some uncaught p r e = cc
waited-eq-some assertion p r e = cc
waited-eq-some bad_cast p r e = cc
waited-eq-some null_dereference p r e = cc
waited-eq-some past_the_end p r e = cc
waited-eq-some out_of_bounds p r e = cc
waited-eq-some use_after_free p r e = cc
waited-eq-some out_of_fuel p r e = cc

module _ (capnp : Capnp) where
  thrown_at-IsAccounted :
      (s : Server) (es : List Event) (p : Images)
      → IsAccounted s p
      → IsAccounted s (thrown_at capnp es p)
  unfolding thrown_at
  thrown_at-IsAccounted s [] p a = a
  thrown_at-IsAccounted s (e ∷ es) p a = elim (Outcome-cases (image_event capnp e p)) [
    | inl (q, went) ↦
        rw went (thrown_at-IsAccounted s es q (image_event-IsAccounted capnp s e p q went a))
    | inr (fault, threw) ↦ rw threw a
  ]

  pub wait_equalised-IsDone :
      (total : ℕ) (es : List Event) (s : Server) (r : Ended) (files : List Text)
      → pending any_job s ≡ total
      → ((f : Text) → pending (is_for f) s ≡ count (text_eq f) files)
      → total ≡ length files
      → wait_equalised capnp total es s ≡ ok (some r)
      → IsDone files r
  unfolding wait_equalised
  wait_equalised-IsDone total es s r files all each sized e =
      let (u, served, e') = >>=-eq-ok (serve_existing (Map.keys s.worker_queues) s) _ e in
      elim (Outcome-cases (receive_equalised capnp total es s)) [
        | inl (x, went) ↦
            let (p, rest, is_p, e'') = if_returned-eq-some (ended_by false) x r (rw went at e') in
            let (idle, none_held, counted, images) =
              receive_equalised_complete capnp s es rest p (rw all (went ∙ ap ok is_p)) in
            let same : record { images = p; thrown = false } ≡ r = cc in
            rw (← same) (
              omega (arith, counted, all, sized, none_held, ap (count any_job) idle),
              inr (
                idle,
                none_held,
                omega (arith, counted, all, sized),
                λ f. omega (arith, images f, each f),
              ),
            )
        | inr (fault, threw) ↦
            let start : Images = record { server = u; equalised_count = 0; written = [] } in
            let same = waited-eq-some fault (thrown_at capnp es start) r (rw threw at e') in
            let kept =
              λ (c : Job → Bool). pending-serve_existing c (Map.keys s.worker_queues) s u served in
            let a = thrown_at-IsAccounted s es start (record {
              counted = omega (arith, kept any_job);
              images = λ f. omega (arith, kept (is_for f));
            }) in
            rw (← same) (omega (arith, a.counted, all, sized), inl refl)
      ]

  pub finish-IsDone :
      (files : List Text) (t : Traffic) (r q : Ended)
      → finish capnp t r ≡ ok (some q)
      → IsDone files r
      → IsDone files q
  unfolding finish dismiss_workers
  finish-IsDone files t r q e (most, done) =
      let (s, heard, e₁) = >>=-eq-ok (communicate_all capnp t.closing r.images.server) _ e in
      let (s', late, e₂) = >>=-eq-ok (communicate_all capnp t.late (dismiss_workers s)) _ e₁ in
      let kept = pending-communicate_all capnp any_job t.closing r.images.server s heard in
      let kept' = pending-communicate_all capnp any_job t.late (dismiss_workers s) s' late in
      let same : record r { images = record r.images { server = s' } } ≡ q = cc in
      let fewer : pending any_job s' ≤ pending any_job r.images.server =
        omega (arith, kept, kept') in
      rw (← same) (
        omega (arith, fewer, most),
        elim done [
          | inl thrown ↦ inl thrown
          | inr (idle, none_held, counted, images) ↦
              let none_left : pending any_job s' ≡ 0 =
                omega (arith, fewer, none_held, ap (count any_job) idle) in
              inr (
                eq-nil_of_length s'.enqueued_work
                    (omega (arith, count_all s'.enqueued_work, none_left)),
                omega (arith, none_left),
                counted,
                images,
              )
        ],
      )
