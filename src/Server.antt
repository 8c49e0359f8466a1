-- ===== src/Server.antt =====
-- src/server.hpp and src/server.cpp: the server that hands out the jobs and collects the results.
-- The state and its operations; the visitors and the loops are in modules below.
pub mod State
pub mod Dispatch
pub mod Transmit
pub mod Pending
pub mod Capacity
pub mod Phases
pub mod HistogramPhase
pub mod Progress
pub mod ImagePhase
pub mod Limits
pub mod Serve
pub mod Balance
pub mod Receive
pub mod Account
pub mod VisitLimits
pub mod Answered
pub mod Communicating
pub mod Contract
pub mod Fair
