-- ===== src/Tests/Main.antt =====
-- The theorems on `main` and `run_jobs` at concrete runs.
use exposure.Base.{◌≡◌, refl, Bool, true, false, some, none, [], ◌∷◌, ◌++◌, map, length}
use exposure.Base.Text.{bytes, text_eq}
use exposure.Base.Outcome.{ok, err, null_dereference, use_after_free}
use exposure.Worker.Servers.{init, Runner, found, turn, run_jobs}
use exposure.Worker.Servers.Jobs.{run_jobs_once}
use exposure.Main.{Surroundings, zero, client_flag, persist_flag, main}
use exposure.Main.Arguments.{one_connection, main_server, main_client}
use exposure.Tests.Codec.{codec}
use exposure.Tests.Algorithm.{whole}
use exposure.Tests.Server.{entries}
use exposure.Tests.Serve.{traffic, ended, run_ends}
use exposure.Tests.Worker.{first, second}

abbrev idle : Runner
idle = record { worker = init; serving = none }

run_jobs_once_example :
    (q : Runner) × (run_jobs false
        (map found (first ∷ []) ++ (turn ∷ (map found (second ∷ []) ++ (turn ∷ turn ∷ []))))
        idle
      ≡ ok (some q))
    × (q.serving ≡ none)
    × (length q.worker.server_details ≡ q.worker.connection_semaphore)
run_jobs_once_example = run_jobs_once first [] (second ∷ []) (turn ∷ []) (refl, tt) (refl, tt)

abbrev surroundings : Bool → Surroundings
surroundings client_made = record {
  directory = λ path. some entries;
  poll_made = true;
  client_made = client_made;
  service_quit = true;
  traffic = traffic;
  found = one_connection (first ∷ []) (second ∷ []);
}

no_flag : text_eq (bytes "images") client_flag ≡ false
unfolding text_eq
no_flag = refl

no_persist : text_eq (bytes "x") persist_flag ≡ false
unfolding text_eq
no_persist = refl

main_server_example :
    main codec whole (surroundings true) (bytes "Exposure" ∷ bytes "images" ∷ [])
    ≡ err use_after_free
main_server_example =
    main_server codec whole (surroundings true) (bytes "Exposure") (bytes "images") [] entries ended
      no_flag refl run_ends

main_client_example :
    (main codec whole (surroundings true) (bytes "Exposure" ∷ client_flag ∷ [])
      ≡ err null_dereference)
    × (main codec whole (surroundings true) (bytes "Exposure" ∷ client_flag ∷ bytes "x" ∷ [])
        ≡ ok (some zero))
    × (main codec whole (surroundings true) (bytes "Exposure" ∷ client_flag ∷ persist_flag ∷ [])
        ≡ ok none)
main_client_example =
    main_client codec whole (surroundings true) (bytes "Exposure") (bytes "x") [] first []
      (second ∷ []) no_persist refl (refl, tt) (refl, tt)
