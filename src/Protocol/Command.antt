-- ===== src/Protocol/Command.antt =====
-- The classes of src/protocol.hpp: `WorkerCommand` and its subclasses, with their names, their
-- `operator==` and the dispatch of `visit`.
use exposure.Base.{ℕ, Bool, false, List, if◌then◌else◌}
use exposure.Base.Text.{Text, bytes, text_eq}
use exposure.Base.Outcome.{Outcome, ok, err, bad_cast}
use exposure.Protocol.Schema.{Float32, HeartbeatType}

-- `WorkerJobCommand`
pub data Job : Type 0 where
  histogram_job : Text → Job
  equalisation_job : Text → List Float32 → Job

-- `WorkerResultCommand`
pub data Result : Type 0 where
  histogram_result : Text → List Float32 → Result
  equalisation_result : Text → List ℕ → Result

-- `WorkerCommand`
pub data Command : Type 0 where
  helo : ℕ → Command
  ehlo : Command
  job : Job → Command
  result : Result → Command
  heartbeat : HeartbeatType → Command
  bye : Command

-- The string that each constructor hands to its base class.
unfoldable pub command_string : Command → Text
command_string (helo n) = bytes "HELO"
command_string ehlo = bytes "EHLO"
command_string (job j) = bytes "JOB"
command_string (result r) = bytes "RESULT"
command_string (heartbeat t) = bytes "HEARTBEAT"
command_string bye = bytes "BYE"

unfoldable pub job_type : Job → Text
job_type (histogram_job f) = bytes "HISTOGRAM"
job_type (equalisation_job f m) = bytes "EQUALISATION"

unfoldable pub result_type : Result → Text
result_type (histogram_result f h) = bytes "HISTOGRAM"
result_type (equalisation_result f t) = bytes "EQUALISATION"

abbrev pub job_filename : Job → Text
job_filename (histogram_job f) = f
job_filename (equalisation_job f m) = f

abbrev pub result_filename : Result → Text
result_filename (histogram_result f h) = f
result_filename (equalisation_result f t) = f

-- `dynamic_cast<const …&>`: it throws where the object is of another class.
unfoldable pub cast_histogram_job : Job → Outcome Text
cast_histogram_job (histogram_job f) = ok f
cast_histogram_job (equalisation_job f m) = err bad_cast

unfoldable pub cast_equalisation_job : Job → Outcome Text
cast_equalisation_job (histogram_job f) = err bad_cast
cast_equalisation_job (equalisation_job f m) = ok f

unfoldable pub cast_histogram_result : Result → Outcome Text
cast_histogram_result (histogram_result f h) = ok f
cast_histogram_result (equalisation_result f t) = err bad_cast

unfoldable pub cast_equalisation_result : Result → Outcome Text
cast_equalisation_result (histogram_result f h) = err bad_cast
cast_equalisation_result (equalisation_result f t) = ok f

abbrev same_name : Text → Outcome Text → Outcome Bool
same_name f (ok g) = ok (text_eq f g)
same_name f (err e) = err e

-- `WorkerHistogramJobCommand::operator==` and its three siblings: the base class compares the
-- types, and the subclass casts the other side and compares the file names.
unfoldable pub job_eq_job : Job → Job → Outcome Bool
unfolding job_type cast_histogram_job cast_equalisation_job
job_eq_job (histogram_job f) other =
    if text_eq (job_type (histogram_job f)) (job_type other)
    then same_name f (cast_histogram_job other)
    else ok false
job_eq_job (equalisation_job f m) other =
    if text_eq (job_type (equalisation_job f m)) (job_type other)
    then same_name f (cast_equalisation_job other)
    else ok false

unfoldable pub job_eq_result : Job → Result → Outcome Bool
unfolding job_type result_type cast_histogram_result cast_equalisation_result
job_eq_result (histogram_job f) other =
    if text_eq (job_type (histogram_job f)) (result_type other)
    then same_name f (cast_histogram_result other)
    else ok false
job_eq_result (equalisation_job f m) other =
    if text_eq (job_type (equalisation_job f m)) (result_type other)
    then same_name f (cast_equalisation_result other)
    else ok false

unfoldable pub result_eq_job : Result → Job → Outcome Bool
unfolding job_type result_type cast_histogram_job cast_equalisation_job
result_eq_job (histogram_result f h) other =
    if text_eq (result_type (histogram_result f h)) (job_type other)
    then same_name f (cast_histogram_job other)
    else ok false
result_eq_job (equalisation_result f t) other =
    if text_eq (result_type (equalisation_result f t)) (job_type other)
    then same_name f (cast_equalisation_job other)
    else ok false

unfoldable pub result_eq_result : Result → Result → Outcome Bool
unfolding result_type cast_histogram_result cast_equalisation_result
result_eq_result (histogram_result f h) other =
    if text_eq (result_type (histogram_result f h)) (result_type other)
    then same_name f (cast_histogram_result other)
    else ok false
result_eq_result (equalisation_result f t) other =
    if text_eq (result_type (equalisation_result f t)) (result_type other)
    then same_name f (cast_equalisation_result other)
    else ok false
