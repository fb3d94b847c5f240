-- ===== src/Signaling/Leaving.antt =====
-- src/signaling/handler.rs: leaving a room, the end of a connection, and messages.
pub mod Ends
use light_livechat.Base.{
  ℕ, ◌+◌, ◌%◌, String, Option, none, some, List, [], ◌∷◌, ◌++◌, map, Bool, true, false, inl, inr,
  if◌then◌else◌, Outcome, ok, panic,
}
use light_livechat.Base.TextMap.{find, put}
use light_livechat.Base.Texts.{joined, three_digits, is_blank}
use light_livechat.Errors.{LightResult, error_code, error_text}
use light_livechat.Room.Participant.{Participant, Track, new_participant, get_tracks}
use light_livechat.Room.Members.{
  Arc, Heap, Room, update, member_ids, other_participants, get_participant,
}
use light_livechat.Room.Hub.{RoomHub, create, get_room, hub_add_participant, hub_remove_participant}
use light_livechat.Signaling.Opcodes.{
  identify_op, room_list_op, room_create_op, room_join_op, room_leave_op, message_op,
  message_event_op,
}
use light_livechat.Signaling.Json.{Json, number, text, list, json}
use light_livechat.Signaling.Messages.{
  Packet, event, success, failure, Decoder, IdentifyRequest, RoomModeField, conference_field,
  to_config, RoomCreateRequest, RoomJoinRequest, RoomLeaveRequest, MessageRequest,
}
use light_livechat.Signaling.World.{
  Session, Output, World, emit, Env, is_ptt, Guarded, proceed, refuse, crash, ◌>>=◌, require,
  expect, unwrap, handled,
}
use light_livechat.Signaling.Wire.{
  broadcast_to_others, broadcast_to_room, track_json, tracks_json, room_event, departure, mode_text,
  push_admin_snapshot, listed_rooms, server_codec_policy, server_extmap_policy,
}
use light_livechat.Signaling.Floor.{leave_floor}

-- ROOM_LEAVE.
unfoldable pub room_leave_guards : Decoder → Session → Packet → Guarded (String × String)
room_leave_guards decoder s packet = do
  req ← require 3002 "invalid payload" (decoder.room_leave packet.d)
  user_id ← unwrap s.user_id
  proceed (user_id, req.room_id)

to_remaining : List Packet → Room → List Output
to_remaining [] r = []
to_remaining (p ∷ ps) r = broadcast_to_room r p ++ to_remaining ps r

abbrev pub tell_remaining : List Packet → Option Room → List Output
unfolding to_remaining
tell_remaining packets none = []
tell_remaining packets (some r) = to_remaining packets r

abbrev pub outside : Session → Session
outside s = record s { current_room = none; pub_ufrag = none; sub_ufrag = none }

unfoldable pub departed :
    (pid : ℕ)
    → Session
    → World
    → (user_id room_id : String) → LightResult (RoomHub × Arc)
    → Session × World × Packet
departed pid s w user_id room_id (inl e) =
    (s, w, failure room_leave_op pid (error_code e) (error_text e))
departed pid s w user_id room_id (inr (hub, a)) =
    let w1 = record w { hub = hub } in
    let packets = departure room_id user_id (get_tracks (w.heap a)) in
    (
      outside s,
      push_admin_snapshot (emit (tell_remaining packets (find room_id hub.rooms)) w1),
      success room_leave_op pid (json []),
    )

unfoldable pub leave_room :
    (pid : ℕ) → Session → World → Guarded (String × String) → Outcome (Session × World × Packet)
unfolding departed
leave_room pid s w crash = panic
leave_room pid s w (refuse code msg) = ok (s, w, failure room_leave_op pid code msg)
leave_room pid s w (proceed (user_id, room_id)) =
    let w1 = leave_floor room_id user_id w in
    ok (departed pid s w1 user_id room_id (hub_remove_participant w1.heap room_id user_id w1.hub))

unfoldable pub handle_room_leave :
    Decoder → Session → World → Packet → Outcome (Session × World × Packet)
unfolding leave_room
handle_room_leave decoder s w packet =
    leave_room packet.pid s w (room_leave_guards decoder s packet)

-- MESSAGE. A message to a room that is not there is acknowledged and goes nowhere.
unfoldable pub message_guards : Decoder → Session → Packet → Guarded (String × MessageRequest)
message_guards decoder s packet = do
  req ← require 3002 "invalid payload" (decoder.message packet.d)
  user_id ← unwrap s.user_id
  proceed (user_id, req)

abbrev pub message_event : (user_id : String) → MessageRequest → Packet
message_event user_id req = event message_event_op 0 (
    json (
      ("room_id", text req.room_id)
      ∷ ("user_id", text user_id)
      ∷ ("content", text req.content)
      ∷ []))

abbrev relayed : (user_id : String) → MessageRequest → Option Room → List Output
relayed user_id req none = []
relayed user_id req (some r) = broadcast_to_others r user_id (message_event user_id req)

unfoldable pub relay_message :
    (uuid : String) → (pid : ℕ) → World → String × MessageRequest → World × Packet
relay_message uuid pid w (user_id, req) = (
  emit (relayed user_id req (find req.room_id w.hub.rooms)) w,
  success message_op pid (json (("msg_id", text uuid) ∷ [])),
)

unfoldable pub handle_message : Decoder → Env → Session → World → Packet → Outcome (World × Packet)
unfolding relay_message
handle_message decoder env s w packet =
    handled message_op packet.pid w (message_guards decoder s packet)
      (relay_message env.uuid packet.pid w)

-- The end of a connection: what a leaving member does, with the broadcasts before the removal and to the
-- others only.
to_others : (exclude : String) → List Packet → Room → List Output
to_others exclude [] r = []
to_others exclude (p ∷ ps) r = broadcast_to_others r exclude p ++ to_others exclude ps r

abbrev tracks_of : Heap → Option Arc → List Track
tracks_of heap none = []
tracks_of heap (some a) = get_tracks (heap a)

abbrev pub farewell : Heap → (room_id user_id : String) → Option Room → List Output
unfolding to_others
farewell heap room_id user_id none = []
farewell heap room_id user_id (some r) =
    to_others user_id (departure room_id user_id (tracks_of heap (get_participant user_id r))) r

abbrev pub removed_hub : RoomHub → LightResult (RoomHub × Arc) → RoomHub
removed_hub hub (inl _) = hub
removed_hub hub (inr (hub', _)) = hub'

unfoldable pub clean : Option String → Option String → World → World
clean (some room_id) (some user_id) w =
    let w1 = leave_floor room_id user_id w in
    let w2 = emit (farewell w1.heap room_id user_id (find room_id w1.hub.rooms)) w1 in
    push_admin_snapshot (record w2 {
      hub = removed_hub w2.hub (hub_remove_participant w2.heap room_id user_id w2.hub);
    })
clean (some room_id) none w = w
clean none user_id w = w

unfoldable pub cleanup : Session → World → World
unfolding clean
cleanup s w = clean s.current_room s.user_id w
