-- ===== src/Transport.antt =====
-- src/transport: packet classes, RTP and RTCP packets.
pub mod Demux
pub mod Rtcp
pub mod Twcc
pub mod Srtp
pub mod Stun
pub mod Ice
mod Tests
