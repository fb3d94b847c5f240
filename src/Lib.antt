-- ===== src/Lib.antt =====
-- light-livechat: a model of the server's room, media and transport logic, and what is proved of it.
--
-- The server is a selective forwarding unit. A participant has two WebRTC connections, one to
-- publish and one to subscribe. Datagrams of both arrive on one UDP port; `classify` tells STUN,
-- DTLS and SRTP apart. A STUN request latches its source address to a session by the ufrag, and
-- from then on the address finds the participant and its room. Media of a conference room is
-- forwarded; in a push-to-talk room the floor decides who is heard, and the rewriter makes one
-- continuous stream of the speakers' packets. Receivers ask for lost packets by NACK, answered
-- from the publisher's packet cache by RTX; the server reports arrival times to the publisher by
-- transport-wide feedback, or a bitrate by REMB.
--
-- Which file models which part:
--   * Config.antt: the constants and modes of src/config.rs. Errors.antt: src/error.rs.
--   * Room/Floor.antt: src/room/floor.rs (`FloorController`; `ping_floor` is its `ping`). Its
--     children state the callers' histories, the timers and the protocol.
--   * Room/Rewriter.antt: src/room/ptt_rewriter.rs (`PttRewriter`, its `RewriteState` inlined), with
--     `is_vp8_keyframe` in Room/Rewriter/Keyframe.antt.
--   * Room/Participant.antt: src/room/participant.rs (`Participant`, `MediaSession`, `RtpCache`;
--     `store_packet` and `get_packet` are the cache's `store` and `get`).
--   * Room/Members.antt: `Room` of src/room/room.rs. Room/Hub.antt: `RoomHub` of the same file
--     (`get_room` is `get`, the names with `hub_` are the hub's own methods).
--   * Transport/Demux.antt: src/transport/demux.rs.
--   * Transport/Rtcp.antt and Transport/Rtcp/Build.antt: src/transport/udp/rtcp.rs.
--   * Transport/Twcc.antt, Transport/Twcc/Extension.antt and Transport/Twcc/Feedback.antt:
--     src/transport/udp/twcc.rs (`record_arrival` and `get_arrival` are the recorder's `record` and
--     `get`).
--   * Transport/Stun.antt: src/transport/stun.rs (`parse_stun` is its `parse`).
--   * Transport/Ice.antt: src/transport/ice.rs, and `username` and `ice_integrity_key` of
--     src/transport/stun.rs.
--   * Transport/Srtp.antt: src/transport/srtp.rs, with the package webrtc-srtp as the parameter `Crypto`,
--     functions of a key, a salt and a packet. What a context of the package remembers between calls, the
--     rollover counter and the replay window, is not in the model.
--   * Signaling.antt and its children: src/signaling. Messages.antt is message.rs, Opcodes.antt is
--     opcode.rs, and the rest is handler.rs: World.antt has its state and the early returns of a
--     handler, Wire.antt the broadcasts, snapshots and policies, Floor.antt the push-to-talk
--     handlers, Rooms.antt identifying, listing, creating and joining, Leaving.antt leaving,
--     `cleanup` and messages, Tracks.antt publishing and muting, Dispatch.antt `dispatch`. A handler
--     has the name of its function; its tests are the function `..._guards`.
--   * Media/Ingress.antt and Media/Feedback.antt: src/transport/udp/ingress.rs (`handle_srtp`; the part
--     behind its lookup is `handle_publish`, and the part behind decryption `handle_media` and
--     `forward`). Media/Egress.antt: src/transport/udp/egress.rs, and the choice between its timers
--     in `run` of src/transport/udp/mod.rs (`bwe_tick`). Media/Handshake.antt: the end of a DTLS
--     handshake in `start_dtls_handshake` of that file (`handshake_done`).
--   * Server.antt: src/lib.rs (`create_default_rooms`, one round of `run_floor_timer`, which is
--     `floor_round`, and of `run_zombie_reaper`, which is `reaper_round`).
--   * System.antt: the server as a whole, a relation between the states before and after one of these
--     steps, and the states that can be reached.
--   * Base.antt and its children: lists, words, maps and the outcomes of calls. The files under
--     Room/Tests, Transport/Tests and System/Tests run the theorems on concrete inputs.
--
-- How the state corresponds. A method on `&self` behind a mutex, or on one atomic, is a function from
-- the old state to the new one and the answer. `Outcome` is what a call does: it returns (`ok`), it
-- panics on an index or a division (`panic`), or the model's fuel runs out. Machine integers are
-- natural numbers; what wraps is written with its modulus, and theorems assume that a field fits its
-- width where the type says so. A DashMap is an association list with one entry for each key, and
-- its iteration order is the list's. An `Arc<Participant>` is an address in a heap of participants.
-- Times in src/room are milliseconds, an `Instant` is in nanoseconds. Durations stay below 2^63
-- microseconds, so that `as i64` changes none.
--
-- A `World` is what the handlers and tasks share: the hub, the heap of participants, the next free
-- address, and everything that has been sent, in order. A `Session` belongs to one connection. A
-- handler takes both and gives them back with its answer; what it sends is a list of `Output` or
-- `MediaOutput` values. `Guarded` is a handler's tests: it goes on, answers with an error, or panics in
-- `unwrap`. The handlers run concurrently in the source; here each is one step, so that what another
-- handler does between two locks of the first (the floor of a room and each of its rewriters have
-- their own) is outside the model, and outside the theorems on the histories of System.antt. The queues of the subscribers
-- take everything, while the source drops what a full queue does not take. Clock, random values and
-- settings that a handler reads are in `Env`. JSON is a tree, and `Decoder` stands for what serde
-- makes of a payload.
--
-- Bounds and fuel. The loops over packets (`fci_loop`, `nack_loop`, `split_loop`, `element_loop`,
-- `attr_loop`, `offset_loop`) have the length of what they read plus 1 as fuel, and advance in every
-- round; `chunk_loop` has the
-- number of statuses plus 1; `encode_loop` has 64 rounds for a 64-bit number. The theorems on these
-- functions say that the result is `ok`, so the fuel is enough.
--
-- Not modelled: sockets, tasks, channels, logging and metrics; encryption, DTLS and JSON, which are
-- packages; random numbers and UUIDs, which are arguments. Of src/signaling/handler.rs the loops
-- `handle_connection` and `handle_admin_connection` are left out, which only read and write
-- sockets; of src/lib.rs `run_server` with its settings; of src/transport/udp/mod.rs the loop, the
-- DTLS sessions up to the end of a handshake, and `handle_stun` but for its latch and `touch`, which are
-- the step `binding` of System.antt. A room is held by the
-- hub's map itself, so a caller that keeps an `Arc<Room>` after the room was removed is outside the
-- model.
pub mod Base
pub mod Config
pub mod Errors
pub mod Transport
pub mod Room
pub mod Signaling
pub mod Server
pub mod System
pub mod Media
