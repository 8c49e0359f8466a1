-- ===== src/Tests/Worker.antt =====
-- The theorems on the worker and its semaphores at concrete states.
use exposure.Base.{◌≡◌, ◌≢◌, refl, inr, true, some, none, [], ◌∷◌}
use exposure.Base.Text.{Text, bytes, text_lt, text_eq}
use exposure.Base.Map
use exposure.Base.Outcome.{assertion, err, ok, ◌>>=◌}
use exposure.Protocol.Command.{Job, bye, histogram_job}
use exposure.Worker.Connecting.{connect_by_answer}
use exposure.Worker.Connection.{connect, connected, dying, unused}
use exposure.Worker.Threads.{
  Threads, Step, Reach, here, next, started, testing, waiting, stays, finds_none, schedules,
}
use exposure.Worker.Threads.Live.{waiting_thread_wakes}
use exposure.Worker.Servers.{
  ServerDetails, Worker, init, add_server, next_connection, pop_connection, Runner, found, turn,
  run_events,
}
use exposure.Worker.Servers.Turns.{IsCounted, run_events-IsCounted, pop_connection_takes_new}

abbrev details : Text → Text → ServerDetails
details name address = record {
  name = name;
  address = address;
  work_port = 1;
  communication_port = 2;
}

abbrev pub first : ServerDetails
first = details (bytes "a") (bytes "y")

abbrev pub second : ServerDetails
second = details (bytes "b") (bytes "x")

abbrev serving_second : Worker
serving_second = record { server_details = (bytes "b", second) ∷ []; connection_semaphore = 0 }

first_is_new : Map.find (bytes "a") serving_second.server_details ≡ none
unfolding Map.find text_eq
first_is_new = refl

a_before_b : text_lt (bytes "a") (bytes "b") ≡ true
unfolding text_lt
a_before_b = refl

pop_connection_takes_new_example :
    (v : Worker) × ((add_server first serving_second >>= pop_connection) ≡ ok v)
    × (v.server_details ≡ (bytes "b", second) ∷ [])
    × (next_connection v ≡ some (ok (second, serving_second)))
pop_connection_takes_new_example =
    pop_connection_takes_new first serving_second (bytes "b", second) [] refl refl first_is_new
      a_before_b

abbrev idle : Runner
idle = record { worker = init; serving = none }

run_events-IsCounted_example :
    (q : Runner) × (run_events (found first ∷ turn ∷ found second ∷ turn ∷ []) idle ≡ ok q)
    × IsCounted q
run_events-IsCounted_example =
    run_events-IsCounted (found first ∷ turn ∷ found second ∷ turn ∷ []) idle
      (refl, (tt, (refl, (tt, tt)))) refl

abbrev waiting_thread : Threads
waiting_thread = record (started 1) { points = waiting ∷ [] }

abbrev one_job : Job
one_job = histogram_job (bytes "a")

abbrev queued : Threads
queued = record waiting_thread { jobs = one_job ∷ []; semaphore = 2 }

connected-ne-dying : connected ≢ dying
connected-ne-dying e = cc

Reach-queued : Reach (started 1) queued
Reach-queued =
    next
      (next (next here (stays [] [] refl connected-ne-dying refl))
        (finds_none [] [] refl refl refl))
      (schedules one_job refl)

waiting_thread_wakes_example : (u : Threads) × Step queued u × (u.points ≡ testing ∷ [])
waiting_thread_wakes_example =
    waiting_thread_wakes 1 queued [] [] Reach-queued refl
      (inr (connected-ne-dying, (λ e. cc), refl))

connect_by_answer_example : connect 4 bye unused ≡ err assertion
connect_by_answer_example = connect_by_answer 4 bye unused refl refl
