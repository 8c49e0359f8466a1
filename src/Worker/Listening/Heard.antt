-- ===== src/Worker/Listening/Heard.antt =====
-- `run_work` of src/worker.cpp, over the commands that it hears.
use mathlib.Core.List.{append-nil, append_assoc}
use exposure.Base.{
  ℕ, suc, ◌+◌, ◌*◌, ◌≤◌, ◌≡◌, refl, ◌∙◌, true, Option, none, some, List, [], ◌∷◌, ◌++◌, map, length,
  arith,
}
use exposure.Base.Text.{Text}
use exposure.Base.Outcome.{ok, ◌>>=◌}
use exposure.Config.{max_message_size}
use exposure.Protocol.Schema.{Capnp, request, reply, unrecognised}
use exposure.Protocol.Command.{Job, Command, helo, ehlo, job, result, heartbeat, bye}
use exposure.Protocol.Encode.{to_message}
use exposure.Protocol.Encode.RoundTrip.{IsCommand}
use exposure.Semaphore
use exposure.Semaphore.{release-eq-add}
use exposure.Server.Receive.{receive-to_message}
use exposure.Worker.Connection.{
  State, connected, dying, Connection, transition, transition_state, schedule_job,
  send_communication_message, visit_communicating,
}
use exposure.Worker.Listening.{run_work}

-- The jobs of the messages up to a bye.
abbrev pub jobs_of : List Command → List Job
jobs_of [] = []
jobs_of (job j ∷ cs) = j ∷ jobs_of cs
jobs_of (bye ∷ cs) = []
jobs_of (helo n ∷ cs) = jobs_of cs
jobs_of (ehlo ∷ cs) = jobs_of cs
jobs_of (result r ∷ cs) = jobs_of cs
jobs_of (heartbeat t ∷ cs) = jobs_of cs

-- The replies to the requests among the messages up to a bye.
abbrev pub replies_to : List Command → List Command
replies_to [] = []
replies_to (heartbeat request ∷ cs) = heartbeat reply ∷ replies_to cs
replies_to (heartbeat reply ∷ cs) = replies_to cs
replies_to (heartbeat (unrecognised n) ∷ cs) = replies_to cs
replies_to (bye ∷ cs) = []
replies_to (helo n ∷ cs) = replies_to cs
replies_to (ehlo ∷ cs) = replies_to cs
replies_to (job j ∷ cs) = replies_to cs
replies_to (result r ∷ cs) = replies_to cs

-- The messages after a bye, if there is one.
abbrev pub after_bye : List Command → Option (List Command)
after_bye [] = none
after_bye (bye ∷ cs) = some cs
after_bye (helo n ∷ cs) = after_bye cs
after_bye (ehlo ∷ cs) = after_bye cs
after_bye (job j ∷ cs) = after_bye cs
after_bye (result r ∷ cs) = after_bye cs
after_bye (heartbeat t ∷ cs) = after_bye cs

-- Messages that arrive as they were sent.
abbrev pub Arrive : Capnp → List Command → Type 0
Arrive capnp [] = Unit {0}
Arrive capnp (c ∷ cs) =
    IsCommand c × (2 * length (to_message capnp c) ≤ 8 * max_message_size) × Arrive capnp cs

-- A connection with its sockets, in a state.
abbrev pub open_with :
    State → (work sent : List Command) → (jobs : List Job) → (semaphore finished : ℕ) → Connection
open_with state work sent jobs semaphore finished = record {
  state = state;
  sockets = true;
  work_sent = work;
  communication_sent = sent;
  jobs = jobs;
  jobs_semaphore = semaphore;
  finished_semaphore = finished;
}

-- The connection after a loop, and the messages that it left: all that were there are read, unless
-- a bye came.
abbrev pub heard_until :
    Capnp
    → ℕ
    → Option (List Command)
    → (work sent : List Command) → (jobs : List Job) → (semaphore finished : ℕ)
    → Connection × List Text
heard_until capnp thread_count none work sent jobs semaphore finished =
    (open_with connected work sent jobs semaphore finished, [])
heard_until capnp thread_count (some rest) work sent jobs semaphore finished = (
  open_with dying work sent jobs (semaphore + thread_count) finished,
  map (to_message capnp) rest,
)

abbrev pub heard :
    Capnp
    → ℕ
    → List Command
    → (work sent : List Command) → (jobs : List Job) → (semaphore finished : ℕ)
    → Connection × List Text
heard capnp thread_count cs work sent jobs semaphore finished =
    heard_until capnp thread_count (after_bye cs) work (sent ++ replies_to cs) (jobs ++ jobs_of cs)
      (semaphore + length (jobs_of cs)) finished

one_more : (m n : ℕ) → suc m + n ≡ m + suc n
one_more m n = omega arith

no_more : (n : ℕ) → n + 0 ≡ n
no_more n = omega arith

module _ (capnp : Capnp) (thread_count : ℕ) where
  pub nothing_left : (c : Connection) → run_work capnp thread_count [] c ≡ ok (c, [])
  unfolding run_work
  nothing_left c = refl

module _ (capnp : Capnp) (thread_count : ℕ) (work : List Command) (finished : ℕ) where
  run_work_next :
      (c : Command) (cs : List Command) (sent : List Command) (jobs : List Job) (semaphore : ℕ)
      → IsCommand c
      → 2 * length (to_message capnp c) ≤ 8 * max_message_size
      → run_work capnp thread_count
          (map (to_message capnp) (c ∷ cs))
          (open_with connected work sent jobs semaphore finished)
        ≡ (visit_communicating thread_count c
              (open_with connected work sent jobs semaphore finished)
            >>= run_work capnp thread_count (map (to_message capnp) cs))
  unfolding run_work
  run_work_next c cs sent jobs semaphore v fits =
      rw (receive-to_message capnp (visit_communicating thread_count) c _ v fits)

  run_work_dying :
      (ms : List Text) (sent : List Command) (jobs : List Job) (semaphore : ℕ)
      → run_work capnp thread_count ms (open_with dying work sent jobs semaphore finished)
        ≡ ok (open_with dying work sent jobs semaphore finished, ms)
  unfolding run_work
  run_work_dying [] sent jobs semaphore = refl
  run_work_dying (m ∷ ms) sent jobs semaphore = refl

  -- While it is connected, a worker queues the jobs that it hears of in their order, with one release
  -- of the semaphore for each, and answers each request for a heartbeat; a bye, after which it reads
  -- no message, makes the connection die and releases the semaphore once for each thread. No other
  -- message changes anything, and none makes it fail.
  pub run_work-eq-heard :
      (cs : List Command) (sent : List Command) (jobs : List Job) (semaphore : ℕ)
      → Arrive capnp cs
      → run_work capnp thread_count
          (map (to_message capnp) cs)
          (open_with connected work sent jobs semaphore finished)
        ≡ ok (heard capnp thread_count cs work sent jobs semaphore finished)
  unfolding visit_communicating schedule_job transition_state transition send_communication_message
      Semaphore.release
  run_work-eq-heard [] sent jobs semaphore a =
      nothing_left capnp thread_count (open_with connected work sent jobs semaphore finished)
      ∙ rw (append-nil sent, append-nil jobs, no_more semaphore)
  run_work-eq-heard (job j ∷ cs) sent jobs semaphore (v, fits, a) =
      run_work_next (job j) cs sent jobs semaphore v fits
      ∙ run_work-eq-heard cs sent (jobs ++ j ∷ []) (suc semaphore) a
      ∙ rw (append_assoc jobs (j ∷ []) (jobs_of cs), one_more semaphore (length (jobs_of cs)))
  run_work-eq-heard (heartbeat request ∷ cs) sent jobs semaphore (v, fits, a) =
      run_work_next (heartbeat request) cs sent jobs semaphore v fits
      ∙ run_work-eq-heard cs (sent ++ heartbeat reply ∷ []) jobs semaphore a
      ∙ rw (append_assoc sent (heartbeat reply ∷ []) (replies_to cs))
  run_work-eq-heard (bye ∷ cs) sent jobs semaphore (v, fits, a) =
      run_work_next bye cs sent jobs semaphore v fits
      ∙ run_work_dying (map (to_message capnp) cs) sent jobs
          (Semaphore.release thread_count semaphore)
      ∙ rw (
        release-eq-add thread_count semaphore,
        append-nil sent,
        append-nil jobs,
        no_more semaphore,
      )
  run_work-eq-heard (heartbeat reply ∷ cs) sent jobs semaphore (v, fits, a) =
      run_work_next (heartbeat reply) cs sent jobs semaphore v fits
      ∙ run_work-eq-heard cs sent jobs semaphore a
  run_work-eq-heard (heartbeat (unrecognised n) ∷ cs) sent jobs semaphore (v, fits, a) =
      run_work_next (heartbeat (unrecognised n)) cs sent jobs semaphore v fits
      ∙ run_work-eq-heard cs sent jobs semaphore a
  run_work-eq-heard (helo n ∷ cs) sent jobs semaphore (v, fits, a) =
      run_work_next (helo n) cs sent jobs semaphore v fits
      ∙ run_work-eq-heard cs sent jobs semaphore a
  run_work-eq-heard (ehlo ∷ cs) sent jobs semaphore (v, fits, a) =
      run_work_next ehlo cs sent jobs semaphore v fits ∙ run_work-eq-heard cs sent jobs semaphore a
  run_work-eq-heard (result r ∷ cs) sent jobs semaphore (v, fits, a) =
      run_work_next (result r) cs sent jobs semaphore v fits
      ∙ run_work-eq-heard cs sent jobs semaphore a
