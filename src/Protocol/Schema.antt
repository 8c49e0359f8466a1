-- ===== src/Protocol/Schema.antt =====
-- protocols/commands.capnp: the messages as trees. What turns a tree into bytes and back is the
-- Cap'n Proto library, which is a parameter.
use exposure.Base.{ℕ, ◌*◌, ◌≤◌, ◌≡◌, ◌%◌, List, length}
use exposure.Base.Text.{Text}
use exposure.Base.Outcome.{Outcome, ok}

-- A `Float32` is its bit pattern.
abbrev pub Float32 : Type 0
Float32 = ℕ

pub record HistogramResult : Type 0 where
  pub filename : Text
  pub histogram : List Float32

-- The encoded image, in chunks.
pub record EqualisationResult : Type 0 where
  pub filename : Text
  pub tiff_result : List (List ℕ)

pub record HistogramJob : Type 0 where
  pub filename : Text

pub record EqualisationJob : Type 0 where
  pub filename : Text
  pub histogram_mapping : List Float32

-- In each union, `unrecognised` is a discriminant that the schema does not have.
pub data JobData : Type 0 where
  histogram : HistogramJob → JobData
  equalisation : EqualisationJob → JobData
  unrecognised : ℕ → JobData

pub data ResultData : Type 0 where
  histogram : HistogramResult → ResultData
  equalisation : EqualisationResult → ResultData
  unrecognised : ℕ → ResultData

pub record ProtocolJob : Type 0 where
  pub type : Text
  pub content : JobData

pub record ProtocolResult : Type 0 where
  pub type : Text
  pub content : ResultData

pub data HeartbeatType : Type 0 where
  request : HeartbeatType
  reply : HeartbeatType
  unrecognised : ℕ → HeartbeatType

pub data CommandData : Type 0 where
  helo : ℕ → CommandData
  ehlo : CommandData
  heartbeat : HeartbeatType → CommandData
  job : ProtocolJob → CommandData
  result : ProtocolResult → CommandData
  bye : CommandData
  unrecognised : ℕ → CommandData

pub record ProtocolCommand : Type 0 where
  pub command : Text
  pub content : CommandData

-- `capnp::messageToFlatArray` as bytes, and `capnp::FlatArrayMessageReader` with its traversal limit
-- in words. A message is a whole number of words of 8 bytes, and is read back as it was written,
-- if its words, which the program visits at most twice, stay within the limit.
pub record Capnp : Type 0 where
  pub to_flat_array : ProtocolCommand → Text
  pub read : ℕ → Text → Outcome ProtocolCommand
  pub whole_words : (c : ProtocolCommand) → length (to_flat_array c) % 8 ≡ 0
  pub read_back :
      (limit : ℕ) (c : ProtocolCommand)
      → 2 * length (to_flat_array c) ≤ 8 * limit
      → read limit (to_flat_array c) ≡ ok c
