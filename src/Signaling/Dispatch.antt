-- ===== src/Signaling/Dispatch.antt =====
-- src/signaling/handler.rs: `dispatch`.
pub mod Membership
pub mod Branches
pub mod Rewriters
pub mod Answers
pub mod Safety
use light_livechat.Base.{
  ℕ, ◌+◌, ◌%◌, String, Option, none, some, List, [], ◌∷◌, ◌++◌, Bool, true, false, inl, inr, not,
  ◌&&◌, if◌then◌else◌, ◌==◌, Outcome, ok, panic, ◌>>=◌,
}
use light_livechat.Base.TextMap.{find}
use light_livechat.Room.Participant.{touch}
use light_livechat.Room.Members.{Arc, Room, get_participant}
use light_livechat.Signaling.Opcodes.{
  heartbeat_op, identify_op, room_list_op, room_create_op, room_join_op, room_leave_op,
  publish_tracks_op, mute_update_op, message_op, telemetry_op, floor_request_op, floor_release_op,
  floor_ping_op,
}
use light_livechat.Signaling.Json.{Json, text, json}
use light_livechat.Signaling.Messages.{Packet, success, failure, is_response, Decoder}
use light_livechat.Signaling.World.{
  Session, is_authenticated, to_admin, World, emit, Env, put_participant,
}
use light_livechat.Signaling.Floor.{handle_floor_request, handle_floor_release, handle_floor_ping}
use light_livechat.Signaling.Rooms.{
  handle_identify, handle_room_list, handle_room_create, handle_room_join,
}
use light_livechat.Signaling.Leaving.{handle_room_leave, handle_message}
use light_livechat.Signaling.Tracks.{handle_publish_tracks, handle_mute_update}

-- HEARTBEAT: the member's `last_seen`.
abbrev touch_member : (now : ℕ) → World → Option Arc → World
touch_member now w none = w
touch_member now w (some a) = put_participant a (touch now (w.heap a)) w

abbrev touch_in : (now : ℕ) → (user_id : String) → World → Option Room → World
touch_in now user_id w none = w
touch_in now user_id w (some r) = touch_member now w (get_participant user_id r)

pub heartbeat : (now : ℕ) → Option String → Option String → World → World
heartbeat now (some room_id) (some user_id) w = touch_in now user_id w (find room_id w.hub.rooms)
heartbeat now (some room_id) none w = w
heartbeat now none user_id w = w

-- TELEMETRY is passed on to the administrators.
pub telemetry : Option String → Option String → Packet → World → World
telemetry (some user_id) (some room_id) packet w =
    emit
      (to_admin (
          json (
            ("type", text "client_telemetry")
            ∷ ("user_id", text user_id)
            ∷ ("room_id", text room_id)
            ∷ ("data", packet.d)
            ∷ []))
        ∷ [])
      w
telemetry (some user_id) none packet w = w
telemetry none room_id packet w = w

abbrev pub Dispatched : Type 0
Dispatched = Outcome (Session × World × Option Packet)

-- A handler that leaves the session as it is, and one that changes it.
abbrev kept : Session → Outcome (World × Packet) → Dispatched
kept s result = do (w, response) ← result; ok (s, w, some response)

abbrev with_session : Outcome (Session × World × Packet) → Dispatched
with_session result = do (s, w, response) ← result; ok (s, w, some response)

unfoldable pub by_opcode : Decoder → Env → Session → World → Packet → Dispatched
unfolding heartbeat telemetry
by_opcode decoder env s w packet =
    let op = packet.op in
    if op == heartbeat_op
    then ok (
      s,
      heartbeat env.now s.current_room s.user_id w,
      some (success heartbeat_op packet.pid (json [])),
    )
    else if op == identify_op
    then (let (s', response) = handle_identify decoder env s packet in ok (s', w, some response))
    else if op == room_list_op
    then ok (s, w, some (handle_room_list w packet))
    else if op == room_create_op
    then (let (w', response) = handle_room_create decoder env w packet in ok (s, w', some response))
    else if op == room_join_op
    then with_session (handle_room_join decoder env s w packet)
    else if op == room_leave_op
    then with_session (handle_room_leave decoder s w packet)
    else if op == publish_tracks_op
    then kept s (handle_publish_tracks decoder s w packet)
    else if op == mute_update_op
    then kept s (handle_mute_update decoder s w packet)
    else if op == message_op
    then kept s (handle_message decoder env s w packet)
    else if op == telemetry_op
    then ok (s, telemetry s.user_id s.current_room packet w, none)
    else if op == floor_request_op
    then kept s (handle_floor_request decoder env.now s w packet)
    else if op == floor_release_op
    then kept s (handle_floor_release decoder s w packet)
    else if op == floor_ping_op
    then kept s (handle_floor_ping decoder env.now s w packet)
    else ok (s, w, some (failure op packet.pid 3001 "invalid opcode"))

-- All but a heartbeat and an identification want an identified client.
abbrev pub is_refused : Session → Packet → Bool
is_refused s packet =
    not (packet.op == heartbeat_op) && not (packet.op == identify_op) && not (is_authenticated s)

unfoldable pub dispatch : Decoder → Env → Session → World → Packet → Dispatched
dispatch decoder env s w packet =
    if is_response packet
    then ok (record s { ack_miss = 0 }, w, none)
    else if is_refused s packet
    then ok (s, w, some (failure packet.op packet.pid 1001 "not authenticated"))
    else by_opcode decoder env s w packet
