-- ===== src/Ws/Chunks.antt =====
-- ws/server/WsProtocol.hpp: files as sequences of messages, and back.
pub mod Split
pub mod Join
mod Slices
mod Loop
mod AnyOrder
mod Filled
mod RoundTrip
mod Counted
mod Accepted
mod Examples
