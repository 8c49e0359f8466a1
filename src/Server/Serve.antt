-- ===== src/Server/Serve.antt =====
-- `serve_work`: the first phase, the jobs for the second, the second phase, and the end.
--
-- The main thread pushes the jobs for the second phase without the mutex, while the communication
-- thread handles messages: `push_jobs` takes them in any order, each push and each message as one
-- step.
pub mod Pushes
pub mod Complete
pub mod Done
use exposure.Base.{
  ℕ, ◌≡◌, Bool, true, false, Option, none, some, List, [], ◌∷◌, ◌++◌, length, ◌==◌, is_empty,
}
use exposure.Base.Text.{Text}
use exposure.Base.Map
use exposure.Base.Outcome.{
  Outcome, ok, err, ◌>>=◌, ◌>>◌, require, Fault, assertion, uncaught, bad_cast, null_dereference,
  past_the_end, out_of_bounds, use_after_free, out_of_fuel,
}
use exposure.Protocol.Schema.{Capnp}
use exposure.Protocol.Command.{Job}
use exposure.Algorithm.Arithmetic.{Arithmetic}
use exposure.Server.State.{Server, dismiss_workers}
use exposure.Server.Dispatch.{Histograms, Images}
use exposure.Server.Phases.{
  Event, Progress, returned, waiting, communicate, receive_histograms, image_event, serve_existing,
  receive_equalised, enqueue_files, all_equalisation_jobs, histogram_start,
}

-- A message on the communication socket: when it is handled, its sender, and its bytes.
pub record Message : Type 0 where
  pub now : ℕ
  pub sender : Text
  pub content : Text

abbrev pub push_all : List Job → Server → Server
push_all jobs s = record s { enqueued_work = s.enqueued_work ++ jobs }

abbrev pub pushed : List Job → Server → Server
pushed [] s = s
pushed (j ∷ jobs) s = push_all (j ∷ []) s

abbrev pub left : List Job → List Job
left [] = []
left (j ∷ jobs) = jobs

-- The messages of a run: those of both phases; those between the pushes of the main thread; those
-- from the assertion on the queue to the start of the second phase; and those from its end to the
-- dismissal of the workers, and after it until the communication thread ends.
pub record Traffic : Type 0 where
  pub first : List Event
  pub pushes : List (Option Message)
  pub starting : List Message
  pub second : List Event
  pub closing : List Message
  pub late : List Message

-- A second phase that has ended, and whether by an exception. It stays in the future, on which
-- `serve_work` only waits.
pub record Ended : Type 0 where
  pub images : Images
  pub thrown : Bool

-- `none` while a phase still waits for messages.
abbrev pub if_returned {ℓ} :
    {A : Type ℓ} {B : Type ℓ} → (A → Outcome (Option B)) → Progress A → Outcome (Option B)
if_returned f (returned a rest) = f a
if_returned f (waiting a) = ok none

abbrev pub ended_by : Bool → Images → Outcome (Option Ended)
ended_by thrown q = ok (some (record { images = q; thrown = thrown }))

-- An exception of the second phase, in the state in which it was thrown; all else ends the program.
abbrev pub waited : Fault → Images → Outcome (Option Ended)
waited uncaught q = ended_by true q
waited assertion q = err assertion
waited bad_cast q = err bad_cast
waited null_dereference q = err null_dereference
waited past_the_end q = err past_the_end
waited out_of_bounds q = err out_of_bounds
waited use_after_free q = err use_after_free
waited out_of_fuel q = err out_of_fuel

module _ (capnp : Capnp) where
  -- `none` is a push, and the last pushes come after the last of the messages.
  unfoldable pub push_jobs : List (Option Message) → List Job → Server → Outcome Server
  push_jobs [] jobs s = ok (push_all jobs s)
  push_jobs (none ∷ steps) jobs s = push_jobs steps (left jobs) (pushed jobs s)
  push_jobs (some m ∷ steps) jobs s =
      communicate capnp m.now m.sender m.content s >>= push_jobs steps jobs

  -- The communication service while no phase runs
  unfoldable pub communicate_all : List Message → Server → Outcome Server
  communicate_all [] s = ok s
  communicate_all (m ∷ ms) s = communicate capnp m.now m.sender m.content s >>= communicate_all ms

  -- From the end of the first phase to the start of the second.
  unfoldable pub push_equalisation_jobs :
      Arithmetic → ℕ → List (Option Message) → Histograms → Outcome Server
  unfolding push_jobs
  push_equalisation_jobs a job_count steps p = do
    require (is_empty p.server.enqueued_work) assertion
    jobs ← all_equalisation_jobs a p.results
    s ← push_jobs steps jobs p.server
    require (length s.enqueued_work == job_count) assertion
    ok s

  -- The loop of the second phase, up to the round that throws: the decoder throws, before the round
  -- has changed anything.
  unfoldable pub thrown_at : List Event → Images → Images
  thrown_at [] p = p
  thrown_at (e ∷ es) p = after_event (image_event capnp e p) (thrown_at es) p
    where
      after_event : Outcome Images → (Images → Images) → Images → Images
      after_event (ok q) next p = next q
      after_event (err fault) next p = p

  -- `receive_equalised` on its thread, and the wait for it.
  unfoldable pub wait_equalised : ℕ → List Event → Server → Outcome (Option Ended)
  unfolding thrown_at
  wait_equalised total es s = serve_existing (Map.keys s.worker_queues) s >>= λ s'.
      let start : Images = record { server = s'; equalised_count = 0; written = [] } in
      elim (receive_equalised capnp total es s) [
        | ok r ↦ if_returned (ended_by false) r
        | err fault ↦ waited fault (thrown_at es start)
      ]

  -- The end: the workers are dismissed, while the communication service goes on until a `receive`
  -- of its times out.
  unfoldable pub finish : Traffic → Ended → Outcome (Option Ended)
  unfolding communicate_all
  finish t e = do
    s ← communicate_all t.closing e.images.server
    s' ← communicate_all t.late (dismiss_workers s)
    ok (some (record e { images = record e.images { server = s' } }))

  abbrev pub if_ended : (Ended → Outcome (Option Ended)) → Option Ended → Outcome (Option Ended)
  if_ended f none = ok none
  if_ended f (some e) = f e

  unfoldable pub serve_work : Arithmetic → List (Text × Bool) → Traffic → Outcome (Option Ended)
  unfolding push_equalisation_jobs wait_equalised finish
  serve_work a entries t = do
    let job_count = length (enqueue_files entries)
    histograms ← receive_histograms capnp job_count t.first (histogram_start entries)
    if_returned
        (λ p. do
          s ← push_equalisation_jobs a job_count t.pushes p
          s' ← communicate_all t.starting s
          ended ← wait_equalised job_count t.second s'
          if_ended (finish t) ended)
        histograms
