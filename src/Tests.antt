-- ===== src/Tests.antt =====
-- The theorems at concrete inputs, and runs of the code.
pub mod Codec
pub mod Protocol
pub mod Server
pub mod Work
pub mod Phases
pub mod Algorithm
pub mod Worker
pub mod Serve
pub mod Listening
pub mod Images
pub mod Discovery
pub mod Main
pub mod Contract
pub mod Exchange
