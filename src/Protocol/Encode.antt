-- ===== src/Protocol/Encode.antt =====
-- How a command becomes a message and a message a command: `command_data`, `to_message`, the
-- `from_data` functions and `from_serialised_string` of src/protocol.cpp.
pub mod RoundTrip
use exposure.Base.{
  ℕ, ◌*◌, ◌/◌, Option, none, some, List, [], ◌∷◌, length, get_elem?, set, replicate, ltb, leb, ◌==◌,
  if◌then◌else◌, zero, suc,
}
use exposure.Base.Text.{Text, bytes, text_eq}
use exposure.Base.Outcome.{Outcome, ok, err, ◌>>=◌, ◌>>◌, require, assertion, out_of_bounds}
use exposure.Config.{histogram_segments, max_chunk_size, max_message_size}
use exposure.Protocol.Schema.{
  Float32, ProtocolCommand, ProtocolJob, ProtocolResult, JobData, ResultData, CommandData,
  HistogramJob, EqualisationJob, HistogramResult, EqualisationResult, HeartbeatType, Capnp,
}
use exposure.Protocol.Command.{
  Job, histogram_job, equalisation_job, Result, histogram_result, equalisation_result, Command,
  helo, ehlo, job, result, heartbeat, bye, command_string, job_type, result_type,
}
use exposure.Protocol.Chunks.{split_tiff, join_tiff}

-- The loops that copy a histogram into a message, entry by entry.
unfoldable pub write_floats : ℕ → ℕ → List Float32 → List Float32 → List Float32
write_floats zero i from out = out
write_floats (suc rounds) i from out =
    write_floats rounds (suc i) from (elim (get_elem? from i) [ none ↦ out | some x ↦ set out i x ])

unfoldable pub copy_floats : List Float32 → List Float32
unfolding write_floats
copy_floats from = write_floats (length from) 0 from (replicate (length from) 0)

-- `WorkerHistogramJobCommand::command_data` and `WorkerEqualisationJobCommand::command_data`
unfoldable pub job_content : Job → JobData
job_content (histogram_job f) = JobData.histogram (record { filename = f })
job_content (equalisation_job f m) =
    JobData.equalisation (record { filename = f; histogram_mapping = copy_floats m })

-- The same of the two results
unfoldable pub result_content : Result → ResultData
result_content (histogram_result f h) =
    ResultData.histogram (record { filename = f; histogram = copy_floats h })
result_content (equalisation_result f t) =
    ResultData.equalisation (record { filename = f; tiff_result = split_tiff max_chunk_size t })

-- `command_data` of each class
unfoldable pub command_content : Command → CommandData
unfolding job_content result_content job_type result_type
command_content (helo n) = CommandData.helo n
command_content ehlo = CommandData.ehlo
command_content (job j) = CommandData.job (record { type = job_type j; content = job_content j })
command_content (result r) =
    CommandData.result (record { type = result_type r; content = result_content r })
command_content (heartbeat t) = CommandData.heartbeat t
command_content bye = CommandData.bye

-- The tree that `add_to_message` builds
unfoldable pub build : Command → ProtocolCommand
unfolding command_string command_content
build c = record { command = command_string c; content = command_content c }

-- `WorkerCommand::to_message`
unfoldable pub to_message : Capnp → Command → Text
to_message capnp c = capnp.to_flat_array (build c)

-- The loops that copy a list of a message into an array, from index `i`. Past the end of either
-- side the access is out of bounds.
unfoldable pub read_floats : ℕ → ℕ → List Float32 → List Float32 → Outcome (List Float32)
read_floats zero i from into = ok into
read_floats (suc rounds) i from into =
    let rest = λ (x : Float32). read_floats rounds (suc i) from (set into i x) in
    if ltb i (length into)
    then elim (get_elem? from i) [ none ↦ err out_of_bounds | some x ↦ rest x ]
    else err out_of_bounds

abbrev zero_histogram : List Float32
zero_histogram = replicate histogram_segments 0

unfoldable pub equalisation_job_from_data : EqualisationJob → Outcome (Option Job)
equalisation_job_from_data r = do
  mapping ← read_floats histogram_segments 0 r.histogram_mapping zero_histogram
  ok (some (equalisation_job r.filename mapping))

unfoldable pub histogram_result_from_data : HistogramResult → Outcome (Option Result)
histogram_result_from_data r = do
  require (length r.histogram == histogram_segments) assertion
  histogram ← read_floats (length r.histogram) 0 r.histogram zero_histogram
  ok (some (histogram_result r.filename histogram))

unfoldable pub equalisation_result_from_data : EqualisationResult → Outcome (Option Result)
equalisation_result_from_data r = do
  tiff ← join_tiff r.tiff_result
  ok (some (equalisation_result r.filename tiff))

-- `none` is the null pointer.
unfoldable pub job_data_from : Text → JobData → Outcome (Option Job)
unfolding equalisation_job_from_data
job_data_from type (JobData.histogram r) = do
  require (text_eq type (bytes "HISTOGRAM")) assertion
  ok (some (histogram_job r.filename))
job_data_from type (JobData.equalisation r) = do
  require (text_eq type (bytes "EQUALISATION")) assertion
  equalisation_job_from_data r
job_data_from type (JobData.unrecognised n) = ok none

unfoldable pub result_data_from : Text → ResultData → Outcome (Option Result)
unfolding histogram_result_from_data equalisation_result_from_data
result_data_from type (ResultData.histogram r) = do
  require (text_eq type (bytes "HISTOGRAM")) assertion
  histogram_result_from_data r
result_data_from type (ResultData.equalisation r) = do
  require (text_eq type (bytes "EQUALISATION")) assertion
  equalisation_result_from_data r
result_data_from type (ResultData.unrecognised n) = ok none

abbrev or_null {ℓ} : {A : Type ℓ} → (A → Command) → Option A → Option Command
or_null f none = none
or_null f (some a) = some (f a)

-- The switch of `from_serialised_string`
unfoldable pub command_from : Text → CommandData → Outcome (Option Command)
unfolding job_data_from result_data_from
command_from name (CommandData.helo n) = do
  require (text_eq name (bytes "HELO")) assertion
  ok (some (helo n))
command_from name CommandData.ehlo = do
  require (text_eq name (bytes "EHLO")) assertion
  ok (some ehlo)
command_from name (CommandData.job r) = do
  require (text_eq name (bytes "JOB")) assertion
  j ← job_data_from r.type r.content
  ok (or_null job j)
command_from name (CommandData.result r) = do
  require (text_eq name (bytes "RESULT")) assertion
  x ← result_data_from r.type r.content
  ok (or_null result x)
command_from name (CommandData.heartbeat t) = do
  require (text_eq name (bytes "HEARTBEAT")) assertion
  ok (some (heartbeat t))
command_from name CommandData.bye = do require (text_eq name (bytes "BYE")) assertion; ok (some bye)
command_from name (CommandData.unrecognised n) = ok none

-- The `memcpy` writes all bytes of the string into a buffer of `size / 8` words.
unfoldable pub from_serialised_string : Capnp → Text → Outcome (Option Command)
from_serialised_string capnp s =
    let word_count = length s / 8 in
    do
      require (leb (length s) (word_count * 8)) out_of_bounds
      m ← capnp.read max_message_size s
      command_from m.command m.content
