-- ===== src/Worker/Servers.antt =====
-- `ServerDetails` and `Worker`: the servers that were found and are still to be served.
pub mod Turns
pub mod Growing
pub mod Jobs
use exposure.Base.{
  ℕ, zero, suc, ◌+◌, ◌≤◌, ◌≡◌, refl, sym, ap, ◌∙◌, Bool, true, false, not, ◌&&◌, ◌||◌, inl, inr,
  Option, none, some, List, [], ◌∷◌, length, is_empty, arith, if◌then◌else◌, ◌==◌, Option-cases,
}
use exposure.Base.Text.{Text, text_eq, text_lt}
use exposure.Base.Map
use exposure.Base.Map.{Map}
use exposure.Base.Outcome.{Outcome, ok, err, ◌>>=◌, ◌>>◌, require, assertion, past_the_end}
use exposure.Semaphore
use exposure.Semaphore.{release-eq-add}

pub record ServerDetails : Type 0 where
  pub name : Text
  pub address : Text
  pub work_port : ℕ
  pub communication_port : ℕ

-- `operator==` and `operator<`
unfoldable pub details_eq : ServerDetails → ServerDetails → Bool
details_eq a b =
    text_eq a.name b.name && text_eq a.address b.address && (a.work_port == b.work_port)

unfoldable pub details_lt : ServerDetails → ServerDetails → Bool
details_lt a b = text_lt a.name b.name || text_lt a.address b.address

pub record Worker : Type 0 where
  pub server_details : Map ServerDetails
  pub connection_semaphore : ℕ

abbrev pub init : Worker
init = record { server_details = []; connection_semaphore = 0 }

-- A server with a known name is dropped.
unfoldable pub add_server : ServerDetails → Worker → Outcome Worker
add_server d w = do
  require (not (is_empty d.name)) assertion
  elim (Map.find d.name w.server_details) [
    | some known ↦ ok w
    | none ↦ ok (record {
      server_details = Map.insert d.name d w.server_details;
      connection_semaphore = Semaphore.release 1 w.connection_semaphore;
    })
  ]

unfoldable pub remove_server : Text → Worker → Outcome Worker
remove_server name w = do
  require (not (is_empty w.server_details)) assertion
  elim (Map.find name w.server_details) [
    | none ↦ err past_the_end
    | some known ↦ ok (record w { server_details = Map.erase name w.server_details })
  ]

abbrev pub has_jobs : Worker → Bool
has_jobs w = not (is_empty w.server_details)

-- `none` while it waits for the semaphore. The entry stays in the map.
unfoldable pub next_connection : Worker → Option (Outcome (ServerDetails × Worker))
next_connection w = elim (Semaphore.acquire w.connection_semaphore) [
  | none ↦ none
  | some n ↦ some (elim w.server_details [
    | [] ↦ err assertion
    | e ∷ rest ↦ ok (e.1, record w { connection_semaphore = n })
  ])
]

unfoldable pub pop_connection : Worker → Outcome Worker
pop_connection w = elim w.server_details [
  | [] ↦ err assertion
  | e ∷ rest ↦ ok (record w { server_details = rest })
]

-- The loop of `run_jobs` against the thread that finds servers: `next_connection` and
-- `pop_connection` take turns, with the connection and its work between them, and `add_server` comes
-- at any time. The connection between them is taken as one that connects and is served to its end: a
-- failed assertion of `connect` would end the program there.
pub record Runner : Type 0 where
  pub worker : Worker
  pub serving : Option ServerDetails

pub data RunnerEvent : Type 0 where
  found : ServerDetails → RunnerEvent
  turn : RunnerEvent

abbrev begin : Runner → Option (Outcome (ServerDetails × Worker)) → Outcome Runner
begin r none = ok r
begin r (some (err e)) = err e
begin r (some (ok (d, w))) = ok (record { worker = w; serving = some d })

-- A turn that would block changes nothing.
unfoldable pub runner_event : RunnerEvent → Runner → Outcome Runner
runner_event (found d) r = add_server d r.worker >>= λ w. ok (record r { worker = w })
runner_event turn r = elim r.serving [
  | none ↦ begin r (next_connection r.worker)
  | some d ↦ pop_connection r.worker >>= λ w. ok (record { worker = w; serving = none })
]

unfoldable pub run_events : List RunnerEvent → Runner → Outcome Runner
unfolding runner_event
run_events [] r = ok r
run_events (e ∷ es) r = runner_event e r >>= run_events es

-- `run_jobs`: without persist it ends when its connection was popped. `none` while it still waits.
abbrev pub is_serving : Option ServerDetails → Bool
is_serving none = false
is_serving (some d) = true

unfoldable pub run_jobs : Bool → List RunnerEvent → Runner → Outcome (Option Runner)
unfolding runner_event
run_jobs persist [] r = ok none
run_jobs persist (found d ∷ es) r = runner_event (found d) r >>= run_jobs persist es
run_jobs persist (turn ∷ es) r = runner_event turn r >>= λ q.
    (let rest = run_jobs persist es q in
      if is_serving r.serving && not persist then ok (some q) else rest)
