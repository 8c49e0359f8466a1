-- ===== src/Main/Arguments.antt =====
-- How `main` of src/main.cpp ends, by its arguments.
use exposure.Base.{
  ℕ, suc, leb, arith, ◌≡◌, refl, sym, subst, Bool, true, false, Option, none, some, List, [], ◌∷◌,
  ◌++◌, map, length, if◌then◌else◌,
}
use exposure.Base.Text.{Text, text_eq, text_eq_refl}
use exposure.Base.Outcome.{Outcome, ok, err, ◌>>=◌, null_dereference, uncaught, use_after_free}
use exposure.Protocol.Schema.{Capnp}
use exposure.Algorithm.Arithmetic.{Arithmetic}
use exposure.Server.Serve.{Ended, serve_work}
use exposure.Worker.Servers.{ServerDetails, init, RunnerEvent, found, turn}
use exposure.Worker.Servers.Turns.{HaveNames, run_events-IsCounted}
use exposure.Worker.Servers.Jobs.{AreNamed, run_jobs_once, run_jobs_persists}
use exposure.Discovery.Publisher.{start_mdns_service, run_mdns_service, stop_mdns_service}
use exposure.Main.{
  Surroundings, Exit, zero, argument, client_flag, persist_flag, run_client, run_server, main,
}

several : (n : ℕ) → leb (suc (suc n)) 1 ≡ false
several n = ground arith

-- How the server ends once `serve_work` has, by what of Avahi could be made and whether it failed.
abbrev pub after_serving : Surroundings → Outcome (Option Exit)
after_serving w =
    if w.poll_made
    then if w.client_made
      then if w.service_quit then err use_after_free else ok (some zero)
      else err uncaught
    else err null_dereference

stop_after_start :
    (poll_made client_made quit : Bool)
    → (stop_mdns_service (run_mdns_service quit (start_mdns_service poll_made client_made))
        >>= λ stopped. ok (some zero))
      ≡ (if poll_made
          then if client_made
            then if quit then err use_after_free else ok (some zero)
            else err uncaught
          else err null_dereference)
unfolding start_mdns_service run_mdns_service stop_mdns_service
stop_after_start false client_made quit = refl
stop_after_start true false quit = refl
stop_after_start true true true = refl
stop_after_start true true false = refl

run_server_ends :
    (capnp : Capnp) (a : Arithmetic) (w : Surroundings) (path : Text) (entries : List (Text × Bool))
    (ended : Ended)
    → w.directory path ≡ some entries
    → serve_work capnp a entries w.traffic ≡ ok (some ended)
    → run_server capnp a w path ≡ after_serving w
unfolding run_server
run_server_ends capnp a w path entries ended there served =
    rw (there, run_server, served) (stop_after_start w.poll_made w.client_made w.service_quit)

-- Whatever else is given, a server whose serve_work has ended, in one way or the other, ends with 0
-- if Avahi's poll and client could be made at its start and Avahi has not failed meanwhile; if it has,
-- the poll is used after it was freed. It ends with an uncaught exception if only the client could
-- not be made, and with a null pointer for the poll if the poll could not.
pub main_server :
    (capnp : Capnp) (a : Arithmetic) (w : Surroundings) (program path : Text) (rest : List Text)
    (entries : List (Text × Bool)) (ended : Ended)
    → text_eq path client_flag ≡ false
    → w.directory path ≡ some entries
    → serve_work capnp a entries w.traffic ≡ ok (some ended)
    → main capnp a w (program ∷ path ∷ rest) ≡ after_serving w
unfolding main argument
main_server capnp a w program path rest entries ended h there served =
    rw (several (length rest), h) (run_server_ends capnp a w path entries ended there served)

-- The servers that are found before the connection, and during it
abbrev pub one_connection : List ServerDetails → List ServerDetails → List RunnerEvent
one_connection before during = map found before ++ (turn ∷ (map found during ++ (turn ∷ [])))

HaveNames-founds :
    (ds : List ServerDetails) (es : List RunnerEvent)
    → AreNamed ds
    → HaveNames es
    → HaveNames (map found ds ++ es)
HaveNames-founds [] es h k = k
HaveNames-founds (d ∷ ds) es h k = (h.0, HaveNames-founds ds es h.1 k)

client_once :
    (w : Surroundings) (argv : List Text) (option : Text) (d : ServerDetails)
    (ds during : List ServerDetails)
    → argument argv 2 ≡ ok option
    → text_eq option persist_flag ≡ false
    → w.found ≡ one_connection (d ∷ ds) during
    → AreNamed (d ∷ ds)
    → AreNamed during
    → run_client w argv ≡ ok (some zero)
unfolding run_client
client_once w argv option d ds during there h events named named' =
    let (q, runs, idle, counted) = run_jobs_once d ds during [] named named' in
    rw (there, h, events, runs)

client_persists :
    (w : Surroundings) (argv : List Text)
    → argument argv 2 ≡ ok persist_flag
    → HaveNames w.found
    → run_client w argv ≡ ok none
unfolding run_client
client_persists w argv there named =
    let (q, runs, counted) =
      run_events-IsCounted w.found (record { worker = init; serving = none }) named refl in
    rw (there, text_eq_refl persist_flag, run_jobs_persists w.found _, runs)

-- A worker that has found servers with names before and during its first connection: without a
-- further argument, main reads through a null pointer; with another one than --persist, it ends with
-- 0 after the connection; with --persist it goes on.
pub main_client :
    (capnp : Capnp) (a : Arithmetic) (w : Surroundings) (program option : Text) (rest : List Text)
    (d : ServerDetails) (ds during : List ServerDetails)
    → text_eq option persist_flag ≡ false
    → w.found ≡ one_connection (d ∷ ds) during
    → AreNamed (d ∷ ds)
    → AreNamed during
    → (main capnp a w (program ∷ client_flag ∷ []) ≡ err null_dereference)
      × (main capnp a w (program ∷ client_flag ∷ option ∷ rest) ≡ ok (some zero))
      × (main capnp a w (program ∷ client_flag ∷ persist_flag ∷ rest) ≡ ok none)
unfolding main argument
main_client capnp a w program option rest d ds during h events named named' = (
  rw (text_eq_refl client_flag) (unfold run_client in refl),
  rw (several (suc (length rest)), text_eq_refl client_flag)
      (client_once w (program ∷ client_flag ∷ option ∷ rest) option d ds during refl h events named
        named'),
  rw (several (suc (length rest)), text_eq_refl client_flag)
      (client_persists w (program ∷ client_flag ∷ persist_flag ∷ rest) refl (
        subst HaveNames (sym events) (
          HaveNames-founds (d ∷ ds) _ named
            (tt, HaveNames-founds during (turn ∷ []) named' (tt, tt))))),
)
