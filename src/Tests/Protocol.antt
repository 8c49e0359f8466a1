-- ===== src/Tests/Protocol.antt =====
-- The theorems on the protocol at concrete commands.
use exposure.Base.{◌≡◌, refl, some, [], ◌∷◌, arith, true, false}
use exposure.Base.Text.{bytes, text_eq}
use exposure.Base.Outcome.{ok}
use exposure.Protocol.Command.{
  Command, helo, histogram_job, equalisation_job, histogram_result, equalisation_result, job_eq_job,
  job_eq_result, result_eq_job, result_eq_result,
}
use exposure.Protocol.Equality.{equality_is_of_tasks}
use exposure.Protocol.Chunks.{split_tiff}
use exposure.Protocol.Chunks.RoundTrip.{split_tiff-AreChunks, AreChunks}
use exposure.Protocol.Encode.{to_message, from_serialised_string, build}
use exposure.Protocol.Encode.RoundTrip.{from_serialised_string-to_message}
use exposure.Tests.Codec.{codec}

abbrev some_helo : Command
some_helo = helo 12

split_tiff_runs : split_tiff 2 (1 ∷ 2 ∷ 3 ∷ []) ≡ (1 ∷ 2 ∷ []) ∷ (3 ∷ []) ∷ []
unfolding split_tiff
split_tiff_runs = refl

split_tiff-AreChunks_example : AreChunks 2 (split_tiff 2 (1 ∷ 2 ∷ 3 ∷ []))
split_tiff-AreChunks_example = split_tiff-AreChunks 2 (1 ∷ 2 ∷ 3 ∷ []) (omega arith) (omega arith)

from_serialised_string-to_message_example :
    from_serialised_string codec (to_message codec some_helo) ≡ ok (some some_helo)
unfolding to_message build codec
from_serialised_string-to_message_example =
    from_serialised_string-to_message codec some_helo tt (omega arith)

equality_is_of_tasks_example :
    (job_eq_job (histogram_job (bytes "a")) (equalisation_job (bytes "a") []) ≡ ok false)
    × (job_eq_result (equalisation_job (bytes "a") []) (equalisation_result (bytes "a") (1 ∷ []))
        ≡ ok true)
    × (result_eq_job (equalisation_result (bytes "a") (1 ∷ [])) (equalisation_job (bytes "a") [])
        ≡ ok true)
    × (result_eq_result (equalisation_result (bytes "a") (1 ∷ [])) (histogram_result (bytes "a") [])
        ≡ ok false)
unfolding text_eq
equality_is_of_tasks_example =
    equality_is_of_tasks (histogram_job (bytes "a")) (equalisation_job (bytes "a") [])
      (equalisation_result (bytes "a") (1 ∷ [])) (histogram_result (bytes "a") [])
