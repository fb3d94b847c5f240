-- ===== src/Config.antt =====
-- src/config.rs: the constants that the modelled code reads, and the modes.
use light_livechat.Base.{ℕ}

abbrev pub room_max_capacity : ℕ
room_max_capacity = 1000

abbrev pub room_default_capacity : ℕ
room_default_capacity = 1000

abbrev pub demux_stun_min : ℕ
demux_stun_min = 0x00

abbrev pub demux_stun_max : ℕ
demux_stun_max = 0x03

abbrev pub demux_dtls_min : ℕ
demux_dtls_min = 0x14

abbrev pub demux_dtls_max : ℕ
demux_dtls_max = 0x3f

abbrev pub demux_rtp_min : ℕ
demux_rtp_min = 0x80

abbrev pub demux_rtp_max : ℕ
demux_rtp_max = 0xbf

abbrev pub rtp_header_min_size : ℕ
rtp_header_min_size = 12

abbrev pub rtp_cache_size : ℕ
rtp_cache_size = 512

abbrev pub rtx_payload_type : ℕ
rtx_payload_type = 97

abbrev pub rtcp_pt_nack : ℕ
rtcp_pt_nack = 205

abbrev pub rtcp_fmt_nack : ℕ
rtcp_fmt_nack = 1

abbrev pub rtcp_pt_rr : ℕ
rtcp_pt_rr = 201

abbrev pub rtcp_pt_psfb : ℕ
rtcp_pt_psfb = 206

abbrev pub rtcp_fmt_pli : ℕ
rtcp_fmt_pli = 1

abbrev pub rtcp_fmt_remb : ℕ
rtcp_fmt_remb = 15

abbrev pub twcc_extmap_id : ℕ
twcc_extmap_id = 6

abbrev pub twcc_recorder_capacity : ℕ
twcc_recorder_capacity = 8192

abbrev pub rtcp_pt_rtpfb : ℕ
rtcp_pt_rtpfb = 205

abbrev pub floor_max_burst_ms : ℕ
floor_max_burst_ms = 30000

abbrev pub floor_ping_timeout_ms : ℕ
floor_ping_timeout_ms = 5000

abbrev pub zombie_timeout_ms : ℕ
zombie_timeout_ms = 120000

abbrev pub heartbeat_interval_ms : ℕ
heartbeat_interval_ms = 30000

abbrev pub remb_bitrate_bps : ℕ
remb_bitrate_bps = 500000

abbrev pub heartbeat_timeout_ms : ℕ
heartbeat_timeout_ms = 90000

pub data RoomMode : Type 0 where
  conference ptt : RoomMode

pub data BweMode : Type 0 where
  twcc remb : BweMode
