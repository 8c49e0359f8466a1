-- ===== src/Server/Phases.antt =====
-- The loops of src/server.cpp, `receive_histograms`, `receive_equalised` and the communication
-- service, and the jobs that `serve_work` makes for them.
--
-- The two threads take the same mutex around each message, so what they do is one sequence of
-- events, in the order in which they got the mutex. `receive` fails when it times out.
use exposure.Base.{ℕ, Bool, true, List, [], ◌∷◌, length, ltb, is_empty, if◌then◌else◌}
use exposure.Base.Text.{Text}
use exposure.Base.Map
use exposure.Base.Map.{Map}
use exposure.Base.Outcome.{
  Outcome, ok, err, ◌>>=◌, Fault, assertion, uncaught, bad_cast, null_dereference, past_the_end,
  out_of_bounds, use_after_free, out_of_fuel,
}
use exposure.Protocol.Schema.{Float32, Capnp}
use exposure.Protocol.Command.{Job, histogram_job, equalisation_job, Command}
use exposure.Protocol.Encode.{from_serialised_string}
use exposure.Algorithm.Arithmetic.{Arithmetic}
use exposure.Algorithm.Equalisation.{
  get_equalisation_parameters, identity_equalisation_histogram_mapping,
}
use exposure.Server.State.{Server, init, Readings, transmit_work, send_heartbeats}
use exposure.Server.Dispatch.{
  Histograms, Images, visit, visit_histograms, visit_images, visit_communication,
}

-- What happens next. A `work` event is a round of the phase's loop: a message with its sender, or
-- none in time, and the clock of the heartbeats that follow. A `communication` event is a message
-- on the other socket, at a time.
pub data Event : Type 0 where
  work_timeout : (Text → Readings) → Event
  work_message : (Text → Readings) → Text → Text → Event
  communication_message : ℕ → Text → Text → Event

-- A loop that has returned, with the events that it left, or one that still waits.
pub data Progress {ℓ} (A : Type ℓ) : Type ℓ where
  returned : A → List Event → Progress A
  waiting : A → Progress A

-- The workers that are there already are served first, as long as there is work.
unfoldable pub serve_existing : List Text → Server → Outcome Server
serve_existing [] s = ok s
serve_existing (worker ∷ rest) s =
    let next = transmit_work worker s >>= serve_existing rest in
    if is_empty s.enqueued_work then ok s else next

-- An exception on the communication thread, which the decoder throws before anything is changed,
-- ends that thread and no other; all else ends the program.
abbrev pub fails_thread : Server → Fault → Outcome Server
fails_thread s uncaught = ok (record s { communication_lost = true })
fails_thread s assertion = err assertion
fails_thread s bad_cast = err bad_cast
fails_thread s null_dereference = err null_dereference
fails_thread s past_the_end = err past_the_end
fails_thread s out_of_bounds = err out_of_bounds
fails_thread s use_after_free = err use_after_free
fails_thread s out_of_fuel = err out_of_fuel

abbrev pub ends_thread : Server → Outcome Server → Outcome Server
ends_thread s (ok s') = ok s'
ends_thread s (err fault) = fails_thread s fault

module _ (capnp : Capnp) where
  -- A message: decoded, then visited.
  unfoldable pub receive {ℓ} : {S : Type ℓ} → (Command → S → Outcome S) → Text → S → Outcome S
  receive visitor message s = from_serialised_string capnp message >>= λ c. visit visitor c s

  -- A round of the communication service, if its thread is there still.
  unfoldable pub communicate : ℕ → Text → Text → Server → Outcome Server
  communicate now worker m s =
      let handled = ends_thread s (receive (visit_communication now worker) m s) in
      if s.communication_lost then ok s else handled

  unfoldable pub histogram_event : Event → Histograms → Outcome Histograms
  unfolding communicate
  histogram_event (work_timeout clock) p = ok p
  histogram_event (work_message clock worker m) p = receive (visit_histograms worker) m p
  histogram_event (communication_message now worker m) p =
      communicate now worker m p.server >>= λ s. ok (record p { server = s })

  unfoldable pub receive_histograms : ℕ → List Event → Histograms → Outcome (Progress Histograms)
  unfolding histogram_event
  receive_histograms total [] p =
      ok (if ltb (length p.results) total then waiting p else returned p [])
  receive_histograms total (e ∷ es) p =
      let next = histogram_event e p >>= receive_histograms total es in
      if ltb (length p.results) total then next else ok (returned p (e ∷ es))

  -- After each round of the loop, heartbeats are sent.
  abbrev beat : (Text → Readings) → Images → Images
  beat clock p = record p { server = send_heartbeats clock p.server }

  unfoldable pub image_event : Event → Images → Outcome Images
  unfolding communicate
  image_event (work_timeout clock) p = ok (beat clock p)
  image_event (work_message clock worker m) p =
      receive (visit_images worker) m p >>= λ q. ok (beat clock q)
  image_event (communication_message now worker m) p =
      communicate now worker m p.server >>= λ s. ok (record p { server = s })

  unfoldable pub image_loop : ℕ → List Event → Images → Outcome (Progress Images)
  unfolding image_event
  image_loop total [] p = ok (if ltb p.equalised_count total then waiting p else returned p [])
  image_loop total (e ∷ es) p =
      let next = image_event e p >>= image_loop total es in
      if ltb p.equalised_count total then next else ok (returned p (e ∷ es))

  unfoldable pub receive_equalised : ℕ → List Event → Server → Outcome (Progress Images)
  unfolding serve_existing image_loop
  receive_equalised total es s = serve_existing (Map.keys s.worker_queues) s >>= λ s'.
      image_loop total es (record { server = s'; equalised_count = 0; written = [] })

-- The directory, entry by entry: the path, and whether it is a regular file.
unfoldable pub enqueue_files : List (Text × Bool) → List Job
enqueue_files [] = []
enqueue_files ((path, regular) ∷ rest) =
    let jobs = enqueue_files rest in if regular then histogram_job path ∷ jobs else jobs

-- The state in which `serve_work` starts the first phase.
abbrev pub histogram_start : List (Text × Bool) → Histograms
histogram_start entries = record {
  server = record init { enqueued_work = enqueue_files entries };
  results = [];
}

-- The loop over neighbours in the map of the histograms, which is in the order of the file names.
unfoldable pub equalisation_jobs :
    Arithmetic → List Float32 → Map (List Float32) → Outcome (List Job)
equalisation_jobs a previous [] = ok []
equalisation_jobs a previous ((name, current) ∷ rest) =
    let jobs = equalisation_jobs a current rest in
    do
      mapping ← get_equalisation_parameters a previous current
      others ← jobs
      ok (equalisation_job name mapping ∷ others)

-- The first image keeps its brightness. With no histogram at all, `std::next` and the iterator's
-- `first` are past the end.
unfoldable pub all_equalisation_jobs : Arithmetic → Map (List Float32) → Outcome (List Job)
unfolding equalisation_jobs
all_equalisation_jobs a [] = err past_the_end
all_equalisation_jobs a ((name, first) ∷ rest) = do
  others ← equalisation_jobs a first rest
  ok (equalisation_job name (identity_equalisation_histogram_mapping a) ∷ others)
