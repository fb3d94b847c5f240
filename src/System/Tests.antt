-- ===== src/System/Tests.antt =====
-- Runs of the server on concrete inputs.
mod PacketRuns
mod MediaRuns
mod HistoryRuns
mod KeyRuns
