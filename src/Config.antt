-- ===== src/Config.antt =====
-- src/config.hpp: the constants that the other modules use.
use exposure.Base.{ℕ, ◌+◌, ◌*◌, Bool, false, if◌then◌else◌}

abbrev pub max_port_str_size : ℕ
max_port_str_size = 6

abbrev pub work_port : ℕ
work_port = 42069

abbrev pub communication_port : ℕ
communication_port = work_port + 1

abbrev pub max_worker_queue : ℕ
max_worker_queue = 32

abbrev pub histogram_segments : ℕ
histogram_segments = 1024

abbrev pub max_chunk_size : ℕ
max_chunk_size = 64 * 1024 * 1024

abbrev pub max_message_size : ℕ
max_message_size = 256 * max_chunk_size

-- In seconds.
abbrev pub max_heartbeat_interval : ℕ
max_heartbeat_interval = 5

abbrev pub library_parallelism : Bool
library_parallelism = false

abbrev pub max_hardware_concurrency : ℕ
max_hardware_concurrency = if library_parallelism then 1 else 16384

abbrev pub worker_id_letter_count : ℕ
worker_id_letter_count = 5
