-- ===== src/Room/Tests.antt =====
-- Runs of the room logic on concrete inputs.
mod FloorRuns
mod RewriterRuns
mod ParticipantRuns
mod RoomRuns
