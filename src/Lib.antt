-- ===== src/Lib.antt =====
-- Exposure: a server hands the images of a directory to workers, which compute their histograms and
-- then equalise their brightness.
--
-- The parts and their files, with paths from the root of the repository:
--   * Base: lists, texts, ordered maps and `Outcome`, the results of code that can fail. A `Fault`
--     names what goes wrong: a failed assertion, an uncaught exception, or one of the undefined
--     accesses.
--   * Config: the constants of src/config.hpp.
--   * Protocol: src/protocol.hpp, src/protocol.cpp and protocols/commands.capnp. `Schema` has the
--     messages as trees and the record `Capnp` of what is used of the Cap'n Proto library;
--     `Command` the classes of commands and their equality operators; `Chunks` the image bytes in
--     chunks; `Encode` `to_message` and `from_serialised_string` with the functions they call.
--   * Server: src/server.hpp and src/server.cpp. `State` has the members of `Server` and the
--     methods `transmit_work`, `dismiss_worker`, `dismiss_workers` and `send_heartbeats`;
--     `Dispatch` the visitors; `Phases` the loops `receive_histograms` and `receive_equalised`,
--     with the communication service beside them, whose thread an exception ends; `Serve`
--     `serve_work`, which runs them one after the other, and waits for the second without its
--     exceptions. The proofs are in `Transmit`; in `Pending` and `Answered`, on the jobs in the
--     queue and with workers; in `Capacity`, `VisitLimits` and `Limits`, on the limit of a worker's
--     queue; in `Receive`, `Balance` and `HistogramPhase`, on the first phase; in `Account` and
--     `ImagePhase`, on the second; in `Progress`, on single results; in `Communicating`, on the
--     communication thread; and in `Serve/Pushes`, `Serve/Done` and `Serve/Complete`, on whole
--     runs. `Contract` says what the first phase promises, without queues and workers, and `Fair`
--     is on a worker that answers in order.
--   * Algorithm: src/algorithm.cpp. `Equalisation` has `get_equalisation_parameters` and the
--     identity mapping, with its loop in `Rounds` and `Loop`, and in `Matching` which bins it
--     matches; `Mapping` `linear_map`, `Lightness` the histogram of an image's pixels, and `Images`
--     the functions that read and write images; `Arithmetic` is what they take from the compiler
--     and from ImageMagick.
--   * Semaphore: src/semaphore.hpp and src/semaphore.cpp. Its value is a number without a bound: it
--     is taken to stay below SEM_VALUE_MAX, where `sem_post` fails and `release` ignores that.
--   * Worker: src/worker.hpp and src/worker.cpp. `Connection` has `ServerConnection` and its
--     visitors; `Connecting` is on its `connect`; `Identity` has the random identities and the
--     endpoints; `Listening` the loops `run_work` and `run_communication`; `Working` a thread that
--     runs what is heard, and `Working/Exchange` a server and a worker together; `Threads` the
--     background threads as a step relation; `Servers` the servers that are found, and the loop
--     that serves them.
--   * Discovery: src/network.cpp. `Records` has the text records that servers publish, `Publisher`
--     the callbacks of a server, with `start_mdns_service` and `stop_mdns_service`, and `Client`
--     the callbacks of a worker, with `mdns_find_server`. `Publisher/Found` joins the two.
--   * Main: `main` of src/main.cpp, which starts either of them.
--   * Tests: the theorems at concrete runs, with a codec in the place of Cap'n Proto.
--
-- A method that runs under a mutex is one step, and the two threads of the server are one sequence of
-- events in the order in which they get it. A socket is the list of what was sent on it. A loop that
-- waits for messages takes them from a list, and says if it still waits at the list's end. The sums
-- of the equalisation are abstract (`Arithmetic`): `double`, and the quantum type of ImageMagick.
-- The loop of `get_equalisation_parameters` has as many rounds as both histograms have entries: each
-- round moves a bin on. The thread that runs its jobs has one round more than there are jobs, and a
-- number has at most as many digits as it says. All other functions are structural.
--
-- The callbacks of Avahi are a list of events, in the order in which its loop calls them; what of it
-- could be made, and the letters and images that are drawn and read, are arguments. A loop of Avahi
-- that no callback has told to quit still waits at the end of the list. The thread of the server's
-- service is what it leaves for `stop_mdns_service`: whether it has freed the poll before.
--
-- `run_jobs` is modelled around its connections: between `next_connection` and `pop_connection`, the
-- turns of the runner take the connection as one that connects and is served to its end. What
-- `connect` does on each answer is in `Worker/Connecting`.
--
-- Not modelled: the libraries themselves (ZeroMQ, Cap'n Proto, ImageMagick, Avahi), the options of
-- sockets, logging, the unused struct `EqualisationBand` of src/algorithm.cpp, and messages that do
-- not have the two parts that ZeroMQ gives them.
pub mod Base
pub mod Config
pub mod Protocol
pub mod Server
pub mod Algorithm
pub mod Tests
pub mod Semaphore
pub mod Worker
pub mod Discovery
pub mod Main
