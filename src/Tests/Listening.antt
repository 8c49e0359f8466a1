-- ===== src/Tests/Listening.antt =====
-- The theorems on the loops of a connection at concrete messages.
use exposure.Base.{◌≡◌, Option, none, some, List, [], ◌∷◌, map, arith}
use exposure.Base.Text.{Text, bytes}
use exposure.Base.Outcome.{ok}
use exposure.Protocol.Schema.{request, reply}
use exposure.Protocol.Command.{Command, Job, histogram_job, job, heartbeat, bye, ehlo}
use exposure.Protocol.Encode.{to_message, build}
use exposure.Worker.Connection.{connected, dying}
use exposure.Worker.Listening.{run_work, run_communication}
use exposure.Worker.Listening.Heard.{Arrive, open_with, run_work-eq-heard}
use exposure.Worker.Listening.Timeouts.{left_over, run_communication-eq-run_work}
use exposure.Tests.Codec.{codec}

abbrev a_job : Job
a_job = histogram_job (bytes "a")

abbrev commands : List Command
commands = job a_job ∷ heartbeat request ∷ bye ∷ ehlo ∷ []

commands-Arrive : Arrive codec commands
unfolding to_message build codec
commands-Arrive = (tt, omega arith, (tt, omega arith, (tt, omega arith, (tt, omega arith, tt))))

run_work-eq-heard_example :
    run_work codec 4 (map (to_message codec) commands) (open_with connected [] [] [] 0 0)
    ≡ ok (open_with dying [] (heartbeat reply ∷ []) (a_job ∷ []) 5 0, to_message codec ehlo ∷ [])
run_work-eq-heard_example = run_work-eq-heard codec 4 [] 0 commands [] [] 0 commands-Arrive

abbrev rounds : List (Option Text)
rounds = none ∷ some (to_message codec bye) ∷ none ∷ []

run_communication-eq-run_work_example :
    left_over (run_communication codec 4 rounds (open_with connected [] [] [] 0 0))
    ≡ run_work codec 4 (to_message codec bye ∷ []) (open_with connected [] [] [] 0 0)
run_communication-eq-run_work_example =
    run_communication-eq-run_work codec 4 rounds (open_with connected [] [] [] 0 0)
