-- ===== src/Signaling.antt =====
-- src/signaling: the WebSocket protocol between a client and the server.
pub mod Opcodes
pub mod Json
pub mod Messages
pub mod World
pub mod Wire
pub mod Floor
pub mod Rooms
pub mod Leaving
pub mod Tracks
pub mod Dispatch
