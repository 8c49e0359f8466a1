-- ===== src/Worker/Servers/Turns.antt =====
-- The semaphore of `Worker` against its map of servers, in src/worker.cpp.
use exposure.Base.{
  ℕ, zero, suc, ◌+◌, ◌≡◌, refl, ap, true, false, inl, inr, Option, none, some, List, [], ◌∷◌,
  length, is_empty, arith, Option-cases,
}
use exposure.Base.Text.{Text, text_lt}
use exposure.Base.Map
use exposure.Base.Map.{Map}
use exposure.Base.Outcome.{Outcome, assertion, ok, err, ◌>>=◌}
use exposure.Semaphore
use exposure.Semaphore.{release-eq-add}
use exposure.Worker.Servers.{
  ServerDetails, Worker, add_server, next_connection, pop_connection, Runner, RunnerEvent, found,
  turn, runner_event, run_events,
}

abbrev pub served : Option ServerDetails → ℕ
served none = 0
served (some d) = 1

abbrev pub IsCounted : Runner → Type 0
IsCounted r = length r.worker.server_details ≡ r.worker.connection_semaphore + served r.serving

abbrev pub HasName : RunnerEvent → Type 0
HasName (found d) = is_empty d.name ≡ false
HasName turn = Unit {0}

abbrev pub HaveNames : List RunnerEvent → Type 0
HaveNames [] = Unit {0}
HaveNames (e ∷ es) = HasName e × HaveNames es

pub add_server-counts :
    (d : ServerDetails) (w : Worker)
    → is_empty d.name ≡ false
    → (v : Worker) × (add_server d w ≡ ok v)
      × (length v.server_details + w.connection_semaphore
          ≡ length w.server_details + v.connection_semaphore)
unfolding add_server
add_server-counts d w named = elim (Option-cases (Map.find d.name w.server_details)) [
  | inl new ↦ (
    record {
      server_details = Map.insert d.name d w.server_details;
      connection_semaphore = Semaphore.release 1 w.connection_semaphore;
    },
    rw (named, new),
    rw (Map.insert_absent d.name d w.server_details new) (
        omega (
          arith,
          Map.length-place d.name d w.server_details,
          release-eq-add 1 w.connection_semaphore,
        )),
  )
  | inr (known, there) ↦ (w, rw (named, there), refl)
]

abbrev runner : Map ServerDetails → ℕ → Option ServerDetails → Runner
runner m n serving = record {
  worker = record { server_details = m; connection_semaphore = n };
  serving = serving;
}

turn-IsCounted :
    (m : Map ServerDetails) (n : ℕ) (serving : Option ServerDetails)
    → IsCounted (runner m n serving)
    → (q : Runner) × (runner_event turn (runner m n serving) ≡ ok q) × IsCounted q
unfolding runner_event next_connection pop_connection Semaphore.acquire
turn-IsCounted m zero none c = (runner m zero none, refl, c)
turn-IsCounted [] (suc n) none c = absurd (omega arith)
turn-IsCounted (e ∷ m) (suc n) none c = (runner (e ∷ m) n (some e.1), refl, omega arith)
turn-IsCounted [] n (some d) c = absurd (omega arith)
turn-IsCounted (e ∷ m) n (some d) c = (runner m n none, refl, omega arith)

pub runner_event-IsCounted :
    (e : RunnerEvent) (r : Runner)
    → HasName e
    → IsCounted r
    → (q : Runner) × (runner_event e r ≡ ok q) × IsCounted q
runner_event-IsCounted (found d) r named c =
    let (v, added, counts) = add_server-counts d r.worker named in
    (record r { worker = v }, unfold runner_event in rw added, omega arith)
runner_event-IsCounted turn r named c =
    turn-IsCounted r.worker.server_details r.worker.connection_semaphore r.serving c

-- From any state in which the semaphore counts the servers in the map less the one that is served,
-- and whatever servers with names are found while others are served, no assertion fails, and the
-- semaphore counts on.
pub run_events-IsCounted :
    (es : List RunnerEvent) (r : Runner)
    → HaveNames es
    → IsCounted r
    → (q : Runner) × (run_events es r ≡ ok q) × IsCounted q
unfolding run_events
run_events-IsCounted [] r named c = (r, refl, c)
run_events-IsCounted (e ∷ es) r named c =
    let (q, e', c') = runner_event-IsCounted e r named.0 c in
    let (p, e'', c'') = run_events-IsCounted es q named.1 c' in (p, rw e' e'', c'')

-- If a server is found while another is served, under a name that is new and comes before the first
-- in the map, then `pop_connection` takes away the new one, which was not served, and leaves the one
-- that was: the next connection is to the same server again.
pub pop_connection_takes_new :
    (d : ServerDetails) (w : Worker) (e : Text × ServerDetails) (rest : Map ServerDetails)
    → w.server_details ≡ e ∷ rest
    → is_empty d.name ≡ false
    → Map.find d.name w.server_details ≡ none
    → text_lt d.name e.0 ≡ true
    → (v : Worker) × ((add_server d w >>= pop_connection) ≡ ok v)
      × (v.server_details ≡ w.server_details)
      × (next_connection v ≡ some (ok (e.1, w)))
unfolding add_server pop_connection next_connection Semaphore.acquire Semaphore.release
pop_connection_takes_new d w e rest shape named new first = (
  record w { connection_semaphore = suc w.connection_semaphore },
  rw (named, new, shape, Map.insert_first d.name d e rest (rw (← shape) new) first),
  refl,
  ap
      (λ m. some (elim m as (λ _. Outcome (ServerDetails × Worker)) [
        | [] ↦ err assertion
        | i ∷ others ↦ ok (i.1, w)
      ]))
      shape,
)
