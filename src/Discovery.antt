-- ===== src/Discovery.antt =====
-- src/network.hpp and src/network.cpp: how servers publish their ports, and how workers find them.
pub mod Records
pub mod Client
pub mod Publisher
