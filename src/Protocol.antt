-- ===== src/Protocol.antt =====
-- src/protocol.hpp, src/protocol.cpp and protocols/commands.capnp: the commands that server and
-- workers exchange, and their encoding.
pub mod Schema
pub mod Command
pub mod Chunks
pub mod Encode
pub mod Equality
