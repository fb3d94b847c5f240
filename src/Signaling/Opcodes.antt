-- ===== src/Signaling/Opcodes.antt =====
-- src/signaling/opcode.rs: the numbers of the operations and events.
use light_livechat.Base.{ℕ}

abbrev pub heartbeat_op : ℕ
heartbeat_op = 1

abbrev pub identify_op : ℕ
identify_op = 3

abbrev pub room_list_op : ℕ
room_list_op = 9

abbrev pub room_create_op : ℕ
room_create_op = 10

abbrev pub room_join_op : ℕ
room_join_op = 11

abbrev pub room_leave_op : ℕ
room_leave_op = 12

abbrev pub publish_tracks_op : ℕ
publish_tracks_op = 15

abbrev pub mute_update_op : ℕ
mute_update_op = 17

abbrev pub message_op : ℕ
message_op = 20

abbrev pub telemetry_op : ℕ
telemetry_op = 30

abbrev pub floor_request_op : ℕ
floor_request_op = 40

abbrev pub floor_release_op : ℕ
floor_release_op = 41

abbrev pub floor_ping_op : ℕ
floor_ping_op = 42

abbrev pub hello_op : ℕ
hello_op = 0

abbrev pub room_event_op : ℕ
room_event_op = 100

abbrev pub tracks_update_op : ℕ
tracks_update_op = 101

abbrev pub track_state_op : ℕ
track_state_op = 102

abbrev pub message_event_op : ℕ
message_event_op = 103

abbrev pub floor_taken_op : ℕ
floor_taken_op = 141

abbrev pub floor_idle_op : ℕ
floor_idle_op = 142

abbrev pub floor_revoke_op : ℕ
floor_revoke_op = 143
