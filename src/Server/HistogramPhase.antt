-- ===== src/Server/HistogramPhase.antt =====
-- `receive_histograms` of src/server.cpp: the balance of files, jobs and results through its rounds.
use exposure.Base.{
  ℕ, ◌≤◌, ◌≡◌, refl, sym, ◌∙◌, Bool, true, false, inl, inr, List, [], ◌∷◌, length, count, arith,
  if◌then◌else◌, Bool-cases, ltb, eq-nil_of_length, count_all,
}
use exposure.Base.Text.{Text, text_eq}
use exposure.Base.Map
use exposure.Base.Map.{Map}
use exposure.Base.Outcome.{ok, ◌>>=◌, >>=-eq-ok}
use exposure.Protocol.Schema.{Capnp}
use exposure.Server.Dispatch.{Histograms, visit_histograms}
use exposure.Server.Phases.{
  Event, work_timeout, work_message, communication_message, returned, waiting, communicate,
  histogram_event, receive_histograms, enqueue_files, histogram_start,
}
use exposure.Server.Communicating.{pending-communicate}
use exposure.Server.Pending.{pending, held}
use exposure.Server.Balance.{
  not_ltb, is_for, is_equalisation, any_job, AreDistinct, IsBalanced, pending-le-any,
  visit_histograms-IsBalanced, IsBalanced-same,
}
use exposure.Server.Receive.{receive-eq-ok}

module _ (capnp : Capnp) where
  pub histogram_event-IsBalanced :
      (names : List Text) (ev : Event) (p q : Histograms)
      → AreDistinct names
      → histogram_event capnp ev p ≡ ok q
      → IsBalanced names p
      → IsBalanced names q
  unfolding histogram_event
  histogram_event-IsBalanced names (work_timeout clock) p q d e b =
      let same : p ≡ q = cc in rw same at b
  histogram_event-IsBalanced names (work_message clock worker m) p q d e b =
      let (c, visited) = receive-eq-ok capnp (visit_histograms worker) m p q e in
      visit_histograms-IsBalanced names worker c p q d visited b
  histogram_event-IsBalanced names (communication_message now worker m) p q d e b =
      let (s, received, e') = >>=-eq-ok (communicate capnp now worker m p.server) _ e in
      let same : record p { server = s } ≡ q = cc in
      rw same at (
        IsBalanced-same names p s
          (λ t. pending-communicate capnp now worker m t p.server s received) b)

  -- The loop stops as soon as there are enough results, and not before.
  pub receive_histograms_stops :
      (total : ℕ) (es : List Event) (p : Histograms)
      → ltb (length p.results) total ≡ false
      → receive_histograms capnp total es p ≡ ok (returned p es)
  unfolding receive_histograms
  receive_histograms_stops total [] p h = rw h
  receive_histograms_stops total (ev ∷ es) p h = rw h

  pub receive_histograms_starves :
      (total : ℕ) (p : Histograms)
      → ltb (length p.results) total ≡ true
      → receive_histograms capnp total [] p ≡ ok (waiting p)
  unfolding receive_histograms
  receive_histograms_starves total p h = rw h

  pub receive_histograms_goes_on :
      (total : ℕ) (ev : Event) (es : List Event) (p : Histograms)
      → ltb (length p.results) total ≡ true
      → receive_histograms capnp total (ev ∷ es) p
        ≡ (histogram_event capnp ev p >>= receive_histograms capnp total es)
  unfolding receive_histograms
  receive_histograms_goes_on total ev es p h = rw h

  receive_histograms-IsBalanced :
      (names : List Text) (total : ℕ) (es : List Event) (p q : Histograms) (rest : List Event)
      → AreDistinct names
      → receive_histograms capnp total es p ≡ ok (returned q rest)
      → IsBalanced names p
      → IsBalanced names q × (total ≤ length q.results)
  receive_histograms-IsBalanced names total [] p q rest d e b =
      elim (Bool-cases (ltb (length p.results) total)) [
        | inl more ↦ cc (receive_histograms_starves total p more)
        | inr enough ↦
            let same : p ≡ q = cc (receive_histograms_stops total [] p enough) in
            (rw same at b, rw same at (not_ltb _ _ enough))
      ]
  receive_histograms-IsBalanced names total (ev ∷ es) p q rest d e b =
      elim (Bool-cases (ltb (length p.results) total)) [
        | inl more ↦
            let (r, handled, e') =
              >>=-eq-ok (histogram_event capnp ev p) _
                (sym (receive_histograms_goes_on total ev es p more) ∙ e) in
            receive_histograms-IsBalanced names total es r q rest d e'
              (histogram_event-IsBalanced names ev p r d handled b)
        | inr enough ↦
            let same : p ≡ q = cc (receive_histograms_stops total (ev ∷ es) p enough) in
            (rw same at b, rw same at (not_ltb _ _ enough))
      ]

-- The files of the directory that are regular.
abbrev pub regular_files : List (Text × Bool) → List Text
regular_files [] = []
regular_files ((path, regular) ∷ rest) =
    if regular then path ∷ regular_files rest else regular_files rest

enqueue_files-kinds :
    (entries : List (Text × Bool)) → count is_equalisation (enqueue_files entries) ≡ 0
unfolding enqueue_files
enqueue_files-kinds [] = refl
enqueue_files-kinds ((path, regular) ∷ rest) = ground (arith, enqueue_files-kinds rest)

pub enqueue_files-each :
    (f : Text) (entries : List (Text × Bool))
    → count (is_for f) (enqueue_files entries) ≡ count (text_eq f) (regular_files entries)
unfolding enqueue_files
enqueue_files-each f [] = refl
enqueue_files-each f ((path, regular) ∷ rest) = ground (arith, enqueue_files-each f rest)

pub length-enqueue_files :
    (entries : List (Text × Bool)) → length (enqueue_files entries) ≡ length (regular_files entries)
unfolding enqueue_files
length-enqueue_files [] = refl
length-enqueue_files ((path, regular) ∷ rest) = ground (arith, length-enqueue_files rest)

pub IsBalanced-start :
    (entries : List (Text × Bool)) → IsBalanced (regular_files entries) (histogram_start entries)
IsBalanced-start entries = record {
  kinds = omega (arith, enqueue_files-kinds entries);
  each = λ f. omega (arith, enqueue_files-each f entries);
  total = omega (arith, count_all (enqueue_files entries), length-enqueue_files entries);
}

-- When the first phase returns, after whatever messages on both sockets, no job is in the queue or
-- with a worker, and there is one histogram for each regular file of the directory and no other.
-- The paths of a directory are distinct.
pub receive_histograms_complete :
    (capnp : Capnp) (entries : List (Text × Bool)) (es rest : List Event) (q : Histograms)
    → AreDistinct (regular_files entries)
    → receive_histograms capnp (length (enqueue_files entries)) es (histogram_start entries)
      ≡ ok (returned q rest)
    → (q.server.enqueued_work ≡ [])
      × (held any_job q.server.worker_queues ≡ 0)
      × (length q.results ≡ length (regular_files entries))
      × ((f : Text)
          → count (text_eq f) (Map.keys q.results) ≡ count (text_eq f) (regular_files entries))
receive_histograms_complete capnp entries es rest q d e =
    let (b, enough) =
      receive_histograms-IsBalanced capnp (regular_files entries) (length (enqueue_files entries))
        es (histogram_start entries) q rest d e (IsBalanced-start entries) in
    let none_pending : pending any_job q.server ≡ 0 =
      omega (arith, b.total, enough, length-enqueue_files entries) in
    (
      eq-nil_of_length q.server.enqueued_work
          (omega (arith, count_all q.server.enqueued_work, none_pending)),
      omega arith,
      omega (arith, b.total),
      λ f. omega (arith, b.each f, pending-le-any (is_for f) q.server, none_pending),
    )
