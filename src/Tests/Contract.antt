-- ===== src/Tests/Contract.antt =====
-- The theorems on the contract of the first phase at a concrete run.
use exposure.Base.{◌≡◌, [], ◌∷◌, map, length, arith, length-replicate, ℕ}
use exposure.Base.Outcome.{ok}
use exposure.Protocol.Command.{helo}
use exposure.Protocol.Encode.{to_message}
use exposure.Server.Dispatch.{Histograms}
use exposure.Server.Phases.{
  communication_message, returned, receive_histograms, enqueue_files, histogram_start,
}
use exposure.Server.HistogramPhase.{regular_files}
use exposure.Server.Transmit.{addressed}
use exposure.Server.Contract.{Answers, agreed}
use exposure.Server.Contract.Refines.{contract_of, receive_histograms-refines}
use exposure.Server.Fair.Returns.{answering, receive_histograms-returns}
use exposure.Tests.Codec.{codec}
use exposure.Tests.Server.{
  w_name, entries, flat, readings, events, joins_fits, a_histogram_fits, finished, first_phase,
  regular_distinct,
}

receive_histograms-refines_example :
    Answers 1 (agreed (regular_files entries)) (contract_of finished)
receive_histograms-refines_example =
    receive_histograms-refines codec entries events (returned finished []) regular_distinct
      first_phase

receive_histograms-returns_example :
    (q : Histograms) × (receive_histograms codec
        (length (enqueue_files entries))
        (communication_message 0 w_name (to_message codec (helo 1))
          ∷ map (answering codec w_name readings (λ f. flat)) (regular_files entries))
        (histogram_start entries)
      ≡ ok (returned q []))
    × (q.server.work_sent ≡ addressed w_name (enqueue_files entries))
receive_histograms-returns_example =
    receive_histograms-returns codec entries w_name 0 1 readings (λ f. flat) regular_distinct
      (omega arith) (omega arith) joins_fits (length-replicate {A = ℕ} 1024 0, a_histogram_fits, tt)
