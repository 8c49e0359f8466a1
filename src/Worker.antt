-- ===== src/Worker.antt =====
-- src/worker.hpp and src/worker.cpp: the client that takes jobs from a server and runs them.
pub mod Connection
pub mod Threads
pub mod Servers
pub mod Listening
pub mod Connecting
pub mod Identity
pub mod Working
