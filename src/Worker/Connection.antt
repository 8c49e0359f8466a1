-- ===== src/Worker/Connection.antt =====
-- `ServerConnection`: its state, its queue of jobs, and the three visitors of src/worker.cpp.
--
-- A socket is the list of the commands that were sent on it, oldest first; what it receives is the
-- argument of the visitors.
use exposure.Base.{ℕ, Bool, true, false, not, Option, none, some, List, [], ◌∷◌, ◌++◌}
use exposure.Base.Text.{Text}
use exposure.Base.Outcome.{Outcome, ok, err, ◌>>=◌, ◌>>◌, require, assertion}
use exposure.Protocol.Schema.{Float32, request, reply, unrecognised}
use exposure.Protocol.Command.{
  Job, histogram_job, equalisation_job, histogram_result, equalisation_result, Command, helo, ehlo,
  job, result, heartbeat, bye,
}
use exposure.Algorithm.Arithmetic.{Arithmetic, PixelArithmetic}
use exposure.Algorithm.Images
use exposure.Algorithm.Images.{Magick}
use exposure.Semaphore

pub data State : Type 0 where
  unconnected connected dying : State

-- `connected()` asks for the two sockets; `jobs` has its back last.
pub record Connection : Type 0 where
  pub state : State
  pub sockets : Bool
  pub work_sent : List Command
  pub communication_sent : List Command
  pub jobs : List Job
  pub jobs_semaphore : ℕ
  pub finished_semaphore : ℕ

-- What both constructors leave.
abbrev pub unused : Connection
unused = record {
  state = unconnected;
  sockets = false;
  work_sent = [];
  communication_sent = [];
  jobs = [];
  jobs_semaphore = 0;
  finished_semaphore = 0;
}

-- The static `transition_state`: from, to.
unfoldable pub transition : State → State → State
transition unconnected next = next
transition connected unconnected = connected
transition connected connected = connected
transition connected dying = dying
transition dying next = dying

-- The method, which returns the state before.
unfoldable pub transition_state : State → Connection → Connection × State
transition_state next c = (record c { state = transition c.state next }, c.state)

-- `jobs.back()`, `jobs.pop_back()`
unfoldable pub pop_back : List Job → Option (Job × List Job)
pop_back [] = none
pop_back (j ∷ js) = elim (pop_back js) [
  | none ↦ some (j, [])
  | some (last, rest) ↦ some (last, j ∷ rest)
]

unfoldable pub pop_job : Connection → Option (Job × Connection)
unfolding pop_back
pop_job c = elim (pop_back c.jobs) [
  | none ↦ none
  | some (j, rest) ↦ some (j, record c { jobs = rest })
]

abbrev pub notify_job : Connection → Connection
notify_job c = record c { jobs_semaphore = Semaphore.release 1 c.jobs_semaphore }

abbrev pub notify_dying : ℕ → Connection → Connection
notify_dying thread_count c = record c {
  jobs_semaphore = Semaphore.release thread_count c.jobs_semaphore;
}

unfoldable pub schedule_job : Job → Connection → Connection
schedule_job j c = notify_job (record c { jobs = c.jobs ++ j ∷ [] })

unfoldable pub send_work_message : Command → Connection → Outcome Connection
send_work_message m c = do
  require c.sockets assertion
  ok (record c { work_sent = c.work_sent ++ m ∷ [] })

unfoldable pub send_communication_message : Command → Connection → Outcome Connection
send_communication_message m c = do
  require c.sockets assertion
  ok (record c { communication_sent = c.communication_sent ++ m ∷ [] })

-- `visit_bye` of both visitors that have it: two calls, which other threads may come between.
abbrev pub die : ℕ → Connection → Connection
die thread_count c = notify_dying thread_count (transition_state dying c).0

-- `ConnectingWorkerCommandVisitor`; what it does not override does nothing.
unfoldable pub visit_connecting : ℕ → Command → Connection → Outcome Connection
unfolding transition_state
visit_connecting thread_count ehlo c = ok (notify_job (transition_state connected c).0)
visit_connecting thread_count bye c = ok (die thread_count c)
visit_connecting thread_count (helo n) c = ok c
visit_connecting thread_count (job j) c = ok c
visit_connecting thread_count (result r) c = ok c
visit_connecting thread_count (heartbeat t) c = ok c

-- `CommunicatingWorkerCommandVisitor`
unfoldable pub visit_communicating : ℕ → Command → Connection → Outcome Connection
unfolding transition_state schedule_job send_communication_message
visit_communicating thread_count (helo n) c = ok c
visit_communicating thread_count ehlo c = ok c
visit_communicating thread_count (job j) c = ok (schedule_job j c)
visit_communicating thread_count (result r) c = ok c
visit_communicating thread_count (heartbeat request) c =
    send_communication_message (heartbeat reply) c
visit_communicating thread_count (heartbeat reply) c = ok c
visit_communicating thread_count (heartbeat (unrecognised n)) c = ok c
visit_communicating thread_count bye c = ok (die thread_count c)

-- `image_get_histogram` and `image_equalise` on the files of this machine.
pub record ImageFiles : Type 0 where
  pub image_get_histogram : Text → Outcome (Option (List Float32))
  pub image_equalise : Text → List Float32 → Outcome (List ℕ)

abbrev pub image_files : (a : Arithmetic) → PixelArithmetic a → Magick a → ImageFiles
image_files a p magick = record {
  image_get_histogram = Images.image_get_histogram a p magick;
  image_equalise = Images.image_equalise a p magick;
}

-- `assert(histogram)`
abbrev pub existing {ℓ} : {A : Type ℓ} → Option A → Outcome A
existing none = err assertion
existing (some x) = ok x

unfoldable pub visit_running : ImageFiles → Job → Connection → Outcome Connection
unfolding send_work_message
visit_running files (histogram_job f) c = do
  computed ← files.image_get_histogram f
  histogram ← existing computed
  send_work_message (result (histogram_result f histogram)) c
visit_running files (equalisation_job f m) c = do
  tiff ← files.image_equalise f m
  send_work_message (result (equalisation_result f tiff)) c

-- `connect` from the answer to its HELO on. It asserts that the answer has made the connection.
abbrev is_connected : State → Bool
is_connected unconnected = false
is_connected connected = true
is_connected dying = false

abbrev is_unconnected : State → Bool
is_unconnected unconnected = true
is_unconnected connected = false
is_unconnected dying = false

unfoldable pub connect : ℕ → Command → Connection → Outcome Connection
unfolding visit_connecting
connect thread_count answer c = do
  require (not c.sockets) assertion
  require (is_unconnected c.state) assertion
  c' ← visit_connecting thread_count answer (record c {
    sockets = true;
    communication_sent = c.communication_sent ++ helo thread_count ∷ [];
  })
  require (is_connected c'.state) assertion
  ok c'

-- `disconnect`, up to its end, or up to the wait for `finishedSemaphore`: the flag tells which. An
-- unconnected one has no sockets.
unfoldable pub disconnect : Connection → Connection × Bool
unfolding transition_state
disconnect c =
    let (d, previous) = transition_state dying c in
    let woken : Connection = notify_job d in
    elim previous [
      | unconnected ↦ (d, true)
      | _ ↦ elim (Semaphore.acquire d.finished_semaphore) [
        | none ↦ (woken, false)
        | some n ↦ (record woken { sockets = false; finished_semaphore = n }, true)
      ]
    ]
