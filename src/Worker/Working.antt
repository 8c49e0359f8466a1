-- ===== src/Worker/Working.antt =====
-- The jobs that a worker hears of and runs: the inner loop of `background_task` in src/worker.cpp, on
-- one thread, between the messages that `run_work` hears.
pub mod Exchange
pub mod Rounds
use exposure.Base.{ℕ, zero, suc, Option, none, some, List, [], ◌∷◌, length, if◌then◌else◌}
use exposure.Base.Text.{Text}
use exposure.Base.Outcome.{Outcome, ok, err, ◌>>=◌, out_of_fuel}
use exposure.Protocol.Schema.{Capnp}
use exposure.Protocol.Command.{Job}
use exposure.Worker.Connection.{Connection, ImageFiles, pop_job, visit_running}
use exposure.Worker.Listening.{is_dying, run_work}

-- `while (job = pop_job()) job->visit(visitor)`: each round takes a job off the queue, so one round
-- more than there are jobs is enough.
unfoldable pub run_popped : (fuel : ℕ) → ImageFiles → Connection → Outcome Connection
run_popped zero files c = err out_of_fuel
run_popped (suc fuel) files c = elim (pop_job c) [
  | none ↦ ok c
  | some (j, d) ↦ visit_running files j d >>= run_popped fuel files
]

-- A round of the loop of `background_task`, up to the wait at the semaphore.
unfoldable pub background_round : ImageFiles → Connection → Outcome Connection
unfolding run_popped
background_round files c =
    let ran = run_popped (suc (length c.jobs)) files c in if is_dying c.state then ok c else ran

module _ (capnp : Capnp) (thread_count : ℕ) (files : ImageFiles) where
  -- One schedule of the two threads: `run_work` hears a message, then the other thread goes round
  -- its loop once.
  abbrev pub hear_and_run : Text → Connection → Outcome Connection
  hear_and_run m c = run_work capnp thread_count (m ∷ []) c >>= λ r. background_round files r.0

  unfoldable pub hear_and_run_all : List Text → Connection → Outcome Connection
  unfolding run_work background_round
  hear_and_run_all [] c = ok c
  hear_and_run_all (m ∷ ms) c = hear_and_run m c >>= hear_and_run_all ms
