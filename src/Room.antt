-- ===== src/Room.antt =====
-- src/room: the floor, the rewriter, participants, rooms and the hub.
pub mod Floor
pub mod Rewriter
pub mod Participant
pub mod Members
pub mod Hub
mod Tests
