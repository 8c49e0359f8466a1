-- ===== src/Main.antt =====
-- src/main.cpp: the choice between a server and a worker.
pub mod Arguments
use exposure.Base.{
  ℕ, Bool, Option, none, some, List, [], ◌∷◌, length, get_elem?, leb, if◌then◌else◌,
}
use exposure.Base.Text.{Text, bytes, text_eq}
use exposure.Base.Outcome.{Outcome, ok, err, ◌>>=◌, ◌>>◌, require, assertion, null_dereference}
use exposure.Protocol.Schema.{Capnp}
use exposure.Algorithm.Arithmetic.{Arithmetic}
use exposure.Server.Serve.{Traffic, Ended, serve_work}
use exposure.Worker.Servers.{init, Runner, RunnerEvent, run_jobs}
use exposure.Discovery.Publisher.{start_mdns_service, run_mdns_service, stop_mdns_service}

-- What a run of the program meets: the directories, with each entry and whether it is a regular
-- file; what of Avahi can be made, and whether a failure of Avahi has told the poll of the service to
-- quit before the server stops it, `Publisher.quit` of what the service has met until then; the
-- messages to a server; and what a worker's threads do.
pub record Surroundings : Type 0 where
  pub directory : Text → Option (List (Text × Bool))
  pub poll_made : Bool
  pub client_made : Bool
  pub service_quit : Bool
  pub traffic : Traffic
  pub found : List RunnerEvent

pub data Exit : Type 0 where
  minus_one zero : Exit

-- `argv[i]`, which is null behind the last argument.
unfoldable pub argument : List Text → ℕ → Outcome Text
argument argv i = elim (get_elem? argv i) [ none ↦ err null_dereference | some s ↦ ok s ]

abbrev pub client_flag : Text
client_flag = bytes "--client"

abbrev pub persist_flag : Text
persist_flag = bytes "--persist"

-- What the thread of `mdns_find_server` throws stays in its future.
unfoldable pub run_client : Surroundings → List Text → Outcome (Option Exit)
unfolding argument
run_client w argv = do
  option ← argument argv 2
  ended ← run_jobs (text_eq option persist_flag) w.found (record { worker = init; serving = none })
  ok (elim ended [ none ↦ none | some r ↦ some zero ])

module _ (capnp : Capnp) (a : Arithmetic) where
  abbrev then_stop : Surroundings → Option Ended → Outcome (Option Exit)
  then_stop w none = ok none
  then_stop w (some ended) =
      stop_mdns_service
        (run_mdns_service w.service_quit (start_mdns_service w.poll_made w.client_made))
      >>= λ stopped. ok (some zero)

  -- `none` while the server still waits for messages.
  unfoldable pub run_server : Surroundings → Text → Outcome (Option Exit)
  run_server w path = elim (w.directory path) [
    | none ↦ err assertion
    | some entries ↦ serve_work capnp a entries w.traffic >>= then_stop w
  ]

  unfoldable pub main : Surroundings → List Text → Outcome (Option Exit)
  unfolding argument run_client run_server
  main w argv =
      if leb (length argv) 1
      then ok (some minus_one)
      else argument argv 1 >>= λ option.
          if text_eq option client_flag then run_client w argv else run_server w option
