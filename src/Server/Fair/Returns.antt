-- ===== src/Server/Fair/Returns.antt =====
-- A single worker that answers its jobs in order makes `receive_histograms` of src/server.cpp return.
use exposure.Base.{
  ℕ, suc, ◌+◌, ◌*◌, ◌≤◌, ◌≡◌, refl, sym, ap, ◌∙◌, Bool, List, [], ◌∷◌, ◌++◌, map, length, count,
  lt→ltb, arith,
}
use exposure.Base.Text.{Text}
use exposure.Base.Map
use exposure.Base.Map.{Map}
use exposure.Base.Outcome.{ok, ◌>>=◌}
use exposure.Config.{histogram_segments, max_message_size}
use exposure.Protocol.Schema.{Float32, Capnp}
use exposure.Protocol.Command.{Job, histogram_job, histogram_result, Command, helo, result}
use exposure.Protocol.Encode.{to_message}
use exposure.Server.State.{Readings, Server}
use exposure.Server.Dispatch.{
  Histograms, visit_histogram_result, visit_histograms, visit_communication,
}
use exposure.Server.Phases.{
  Event, work_message, communication_message, returned, histogram_event, communicate, ends_thread,
  receive_histograms, enqueue_files, histogram_start,
}
use exposure.Server.Answered.{complete-eq-ok}
use exposure.Server.Pending.{pending}
use exposure.Server.Balance.{
  AreDistinct, IsBalanced, answered_is_for, unrecorded, visit_histogram_result_known,
  visit_histogram_result-IsBalanced,
}
use exposure.Server.Receive.{receive-to_message}
use exposure.Server.HistogramPhase.{
  regular_files, IsBalanced-start, histogram_event-IsBalanced, receive_histograms_stops,
  receive_histograms_goes_on, length-enqueue_files,
}
use mathlib.Core.List.{append-nil}
use exposure.Server.Transmit.{addressed}
use exposure.Server.Fair.{Serves, complete-Serves, visit_helo-Serves}

-- In the end all jobs were sent.
all_sent :
    (k : Text) (all : List Job) (s : Server) → Serves k all [] s → s.work_sent ≡ addressed k all
all_sent k all s serves =
    let idle = no_queue serves.w.work s.enqueued_work serves.order in
    sym (append-nil s.work_sent) ∙ ap (λ js. s.work_sent ++ addressed k js) (sym idle) ∙ serves.sent
  where
    no_queue : (work queue : List Job) → work ++ queue ≡ [] → queue ≡ []
    no_queue [] queue e = e
    no_queue (j ∷ work) queue e = cc

-- After an answer that is handled there is one histogram more.
answered-one_more :
    (names : List Text) (p : Histograms) (s : Server) (f : Text) (h : List Float32)
    → AreDistinct names
    → ((t : Job → Bool) → pending t p.server ≡ count t (histogram_job f ∷ []) + pending t s)
    → IsBalanced names p
    → length (Map.insert f h p.results) ≡ suc (length p.results)
answered-one_more names p s f h distinct counts b =
    ap length (Map.insert_absent f h p.results (unrecorded names p s f distinct counts b))
    ∙ Map.length-place f h p.results

visit_histogram_result-Serves :
    (names : List Text) (k f : Text) (h : List Float32) (all : List Job) (rest : List Text)
    (p : Histograms)
    → AreDistinct names
    → IsBalanced names p
    → Serves k all (f ∷ rest) p.server
    → (q : Histograms) × (visit_histogram_result k f h p ≡ ok q)
      × IsBalanced names q
      × Serves k all rest q.server
      × (length q.results ≡ suc (length p.results))
visit_histogram_result-Serves names k f h all rest p distinct b serves =
    let w = serves.w in
    let (s, done, serves') = complete-Serves k f h all rest p.server serves in
    let (j, hit, counts) = complete-eq-ok k (histogram_result f h) w p.server s serves.found done in
    let q : Histograms = record { server = s; results = Map.insert f h p.results } in
    let e : visit_histogram_result k f h p ≡ ok q =
      visit_histogram_result_known k f h p w serves.found ∙ rw done in
    (
      q,
      e,
      visit_histogram_result-IsBalanced names k f h p q distinct e b,
      serves',
      answered-one_more names p s f h distinct (rw (answered_is_for f h j hit) at counts) b,
    )

module _ (capnp : Capnp) (k : Text) (clock : Text → Readings)
    (histogram : Text → List Float32) where
  abbrev pub answer_to : Text → Command
  answer_to f = result (histogram_result f (histogram f))

  -- The message in which the worker answers the job for a file
  abbrev pub answering : Text → Event
  answering f = work_message clock k (to_message capnp (answer_to f))

  -- It has all bins, and the reader takes it.
  abbrev pub AreReadable : List Text → Type 0
  AreReadable [] = Unit {0}
  AreReadable (f ∷ names) =
      (length (histogram f) ≡ histogram_segments)
      × (2 * length (to_message capnp (answer_to f)) ≤ 8 * max_message_size)
      × AreReadable names

  answers-return :
      (names : List Text) (all : List Job) (todo : List Text) (total : ℕ) (p : Histograms)
      → AreDistinct names
      → IsBalanced names p
      → Serves k all todo p.server
      → AreReadable todo
      → length p.results + length todo ≡ total
      → (q : Histograms) × (receive_histograms capnp total (map answering todo) p
          ≡ ok (returned q []))
        × (q.server.work_sent ≡ addressed k all)
  unfolding histogram_event visit_histograms
  answers-return names all [] total p distinct b serves readable e =
      (p, receive_histograms_stops capnp total [] p (ground arith), all_sent k all p.server serves)
  answers-return names all (f ∷ rest) total p distinct b serves readable e =
      let (q, visited, b', serves', longer) =
        visit_histogram_result-Serves names k f (histogram f) all rest p distinct b serves in
      let (r, returns, sent) =
        answers-return names all rest total q distinct b' serves' readable.2 (omega arith) in
      let read =
        receive-to_message capnp (visit_histograms k) (answer_to f) p readable.0 readable.1 in
      (
        r,
        receive_histograms_goes_on capnp total (answering f) (map answering rest) p
              (lt→ltb _ _ (omega arith))
            ∙ ap (λ o. o >>= receive_histograms capnp total (map answering rest)) (read ∙ visited)
            ∙ returns,
        sent,
      )

pub enqueue_files-jobs :
    (entries : List (Text × Bool))
    → enqueue_files entries ≡ map histogram_job (regular_files entries)
unfolding enqueue_files
enqueue_files-jobs [] = refl
enqueue_files-jobs ((path, regular) ∷ rest) = ground (arith, enqueue_files-jobs rest)

-- In a directory with a regular file, one worker that says HELO with at least one thread, and then
-- answers for the files in the order of the directory, makes the first phase return when its last
-- answer is handled; it was sent the jobs for all files in their order, and nothing else. The paths of the directory are distinct, and the reader takes each message.
pub receive_histograms-returns :
    (capnp : Capnp) (entries : List (Text × Bool)) (k : Text) (now concurrency : ℕ)
    (clock : Text → Readings) (histogram : Text → List Float32)
    → AreDistinct (regular_files entries)
    → 1 ≤ length (regular_files entries)
    → 1 ≤ concurrency
    → 2 * length (to_message capnp (helo concurrency)) ≤ 8 * max_message_size
    → AreReadable capnp k clock histogram (regular_files entries)
    → (q : Histograms) × (receive_histograms capnp
          (length (enqueue_files entries))
          (communication_message now k (to_message capnp (helo concurrency))
            ∷ map (answering capnp k clock histogram) (regular_files entries))
          (histogram_start entries)
        ≡ ok (returned q []))
      × (q.server.work_sent ≡ addressed k (enqueue_files entries))
unfolding histogram_event communicate visit_communication
receive_histograms-returns capnp entries k now concurrency clock histogram distinct some_file able
      fits readable =
    let names = regular_files entries in
    let p = histogram_start entries in
    let (s, joined, serves) =
      visit_helo-Serves now k concurrency names p.server refl refl (enqueue_files-jobs entries)
        able in
    let hello = communication_message now k (to_message capnp (helo concurrency)) in
    let q : Histograms = record p { server = s } in
    let read =
      receive-to_message capnp (visit_communication now k) (helo concurrency) p.server tt fits in
    let handled : histogram_event capnp hello p ≡ ok q =
      ap (λ o. ends_thread p.server o >>= λ u. ok (record p { server = u })) (read ∙ joined) in
    let b =
      histogram_event-IsBalanced capnp names hello p q distinct handled
        (IsBalanced-start entries) in
    let (r, returns, sent) =
      answers-return capnp k clock histogram names (enqueue_files entries) names
        (length (enqueue_files entries)) q distinct b serves readable
        (omega (arith, length-enqueue_files entries)) in
    (
      r,
      receive_histograms_goes_on capnp _ hello _ p
            (lt→ltb _ _ (omega (arith, length-enqueue_files entries)))
          ∙ ap
              (λ o.
                o
                >>= receive_histograms capnp (length (enqueue_files entries))
                    (map (answering capnp k clock histogram) (regular_files entries)))
              handled
          ∙ returns,
      sent,
    )
