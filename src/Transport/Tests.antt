-- ===== src/Transport/Tests.antt =====
-- Runs of the packet logic on concrete inputs.
mod RtcpRuns
mod TwccRuns
mod StunRuns
mod IceRuns
