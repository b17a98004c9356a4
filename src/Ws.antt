-- ===== src/Ws.antt =====
-- ws/server/: WebSocket sessions, their router and their protocol.
pub mod Router
pub mod Session
mod Examples
pub mod Json
pub mod Message
pub mod Chunks
pub mod App
pub mod Server
