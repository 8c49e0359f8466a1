-- ===== src/Worker/Threads.antt =====
-- `background_task`: the threads of `background_tasks`, the semaphore and the jobs, one step at a
-- time. The order of the steps is the scheduler's choice.
pub mod Live
use exposure.Base.{
  ℕ, zero, suc, ◌+◌, ◌≤◌, ◌<◌, ◌≡◌, ◌≢◌, refl, sym, ap, ◌∙◌, Bool, true, false, inl, inr, ◌⊎◌,
  Option, none, some, List, [], ◌∷◌, ◌++◌, length, count, count-append, length-append, arith,
  if◌then◌else◌, replicate,
}
use exposure.Protocol.Command.{Job}
use exposure.Worker.Connection.{State, unconnected, connected, dying, pop_back, transition}

-- Where a thread stands: at the test of the outer loop, at `pop_job`, in a job, at the semaphore, or
-- past the loop.
pub data Point : Type 0 where
  testing popping : Point
  running : Job → Point
  waiting returned : Point

-- Where the thread that visits a bye stands: it has not come, between its two calls, or done.
pub data Bye : Type 0 where
  not_yet between done : Bye

pub record Threads : Type 0 where
  pub state : State
  pub bye : Bye
  pub jobs : List Job
  pub semaphore : ℕ
  pub points : List Point
  pub finished : List Job

-- The threads as `background_tasks` starts them, on a connection that `connect` has released once.
abbrev pub started : ℕ → Threads
started n = record {
  state = connected;
  bye = not_yet;
  jobs = [];
  semaphore = 1;
  points = replicate n testing;
  finished = [];
}

-- A thread between `before` and `after` goes from one point to another.
abbrev pub at : List Point → Point → List Point → List Point
at before x after = before ++ x ∷ after

pub data Step (t u : Threads) : Type 0 where
  -- `while (state() != Dying)`
  stays :
      (before after : List Point)
      → t.points ≡ at before testing after
      → t.state ≢ dying
      → u ≡ record t { points = at before popping after }
      → Step t u
  leaves :
      (before after : List Point)
      → t.points ≡ at before testing after
      → t.state ≡ dying
      → u ≡ record t { points = at before returned after }
      → Step t u
  -- `while (job = pop_job())`
  takes :
      (before after : List Point) (j : Job) (rest : List Job)
      → t.points ≡ at before popping after
      → pop_back t.jobs ≡ some (j, rest)
      → u ≡ record t { points = at before (running j) after; jobs = rest }
      → Step t u
  finds_none :
      (before after : List Point)
      → t.points ≡ at before popping after
      → t.jobs ≡ []
      → u ≡ record t { points = at before waiting after }
      → Step t u
  finishes :
      (before after : List Point) (j : Job)
      → t.points ≡ at before (running j) after
      → u ≡ record t { points = at before popping after; finished = j ∷ t.finished }
      → Step t u
  -- `jobsSemaphore.acquire()`
  wakes :
      (before after : List Point) (n : ℕ)
      → t.points ≡ at before waiting after
      → t.semaphore ≡ suc n
      → u ≡ record t { points = at before testing after; semaphore = n }
      → Step t u
  -- `schedule_job`, which holds `jobsMutex` until it has released the semaphore
  schedules :
      (j : Job) → u ≡ record t { jobs = t.jobs ++ j ∷ []; semaphore = suc t.semaphore } → Step t u
  -- `visit_bye`: the transition, then `notify_dying`, which releases once for each thread
  hears_bye :
      t.bye ≡ not_yet → u ≡ record t { state = transition t.state dying; bye = between } → Step t u
  notifies :
      t.bye ≡ between
      → u ≡ record t { semaphore = t.semaphore + length t.points; bye = done }
      → Step t u

pub data Reach (s : Threads) : Threads → Type 0 where
  here : Reach s s
  next : {t u : Threads} → Reach s t → Step t u → Reach s u

-- A thread that will look at the jobs again before it waits, and a thread that may wait before it
-- looks at the state again.
abbrev pub is_awake : Point → Bool
is_awake testing = true
is_awake popping = true
is_awake (running j) = true
is_awake waiting = false
is_awake returned = false

abbrev pub may_wait : Point → Bool
may_wait testing = false
may_wait popping = true
may_wait (running j) = true
may_wait waiting = true
may_wait returned = false
