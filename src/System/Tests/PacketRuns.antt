-- ===== src/System/Tests/PacketRuns.antt =====
-- Packets of clients, on a server with one member in the push-to-talk room.
use light_livechat.Base.{
  String, ◌≡◌, refl, ◌⊎◌, true, false, Option, none, some, [], ◌∷◌, string_discrete, ok,
}
use light_livechat.Base.DashMap.{get, insert}
use light_livechat.Base.TextMap.{find, put}
use light_livechat.Config.{ptt, twcc}
use light_livechat.Room.Floor.{FloorState, idle, taken, current_speaker}
use light_livechat.Room.Rewriter.{switch_speaker}
use light_livechat.Room.Participant.{new_participant}
use light_livechat.Room.Participant.TrackList.{Distinct}
use light_livechat.Room.Members.{Heap, Room, new_room, get_participant}
use light_livechat.Room.Hub.{new_hub, create, get_room}
use light_livechat.Signaling.Json.{null}
use light_livechat.Signaling.Messages.{
  Packet, event, Decoder, is_response, PublishTracksRequest, failure,
}
use light_livechat.Signaling.World.{Session, new_session, World, Env}
use light_livechat.Signaling.Opcodes.{floor_request_op}
use light_livechat.Signaling.Floor.{
  after_grant, apply_floor_action, request_floor, handle_floor_request, floor_request_guards,
}
use light_livechat.Signaling.Floor.Requests.{Answered, handle_floor_request_exact}
use light_livechat.Room.Floor as Floor
use light_livechat.Signaling.Opcodes.{heartbeat_op, identify_op, publish_tracks_op}
use light_livechat.Signaling.Leaving.{cleanup}
use light_livechat.Signaling.Leaving.Ends.{IsGone, cleanup-IsGone}
use light_livechat.Signaling.Tracks.{handle_publish_tracks}
use light_livechat.Signaling.Tracks.Registered.{IsRegistered, handle_publish_tracks-IsRegistered}
use light_livechat.Config.{zombie_timeout_ms}
use light_livechat.Server.{reaper_round}
use light_livechat.Server.Zombies.{LostZombies, IsAlive}
use light_livechat.Server.Reaping.{reaper_round_exact}
use light_livechat.Server.Timers.{IsTimed, floor_round_exact}
use light_livechat.Signaling.Dispatch.{dispatch, by_opcode, is_refused}
use light_livechat.Signaling.Dispatch.Safety.{Replied, dispatch-Replied, dispatch_unidentified}
use light_livechat.Server.{Draw, create_default_rooms, create_next, floor_round}
use light_livechat.System.{started}

abbrev pub draw : String → Draw
draw id = record { id = id; audio_ssrc = 1; video_ssrc = 2 }

abbrev pub heap0 : Heap
heap0 a = new_participant "ann" "a" "u1" "p1" "u2" "p2" 0

abbrev pub world0 : World
world0 = started 0 (draw "a") (draw "b") (draw "c") heap0

-- A decoder that takes every payload for a message to room "a".
abbrev pub decoder0 : Decoder
decoder0 = record {
  identify = λ _. none;
  room_create = λ _. none;
  room_join = λ _. none;
  room_leave = λ _. none;
  publish_tracks = λ _. none;
  mute_update = λ _. none;
  message = λ _. none;
  floor_request = λ _. some (record { room_id = "a" });
  floor_release = λ _. none;
  floor_ping = λ _. none;
}

abbrev pub env0 : Env
env0 = record {
  now = 7;
  rand_u16 = 0;
  uuid = "id";
  audio_ssrc = 3;
  video_ssrc = 4;
  pub_ufrag = "u1";
  pub_pwd = "p1";
  sub_ufrag = "u2";
  sub_pwd = "p2";
  public_ip = "127.0.0.1";
  udp_port = 10000;
  fingerprint = "f";
  bwe_mode = twcc;
  remb_bitrate = 500000;
}

abbrev session0 : Session
session0 = record new_session { user_id = some "ann"; current_room = some "a" }

abbrev pub asks : Packet
asks = event floor_request_op 9 null

abbrev pub room0 : Room
room0 = new_room "a" "무전 대화방" (some 10) ptt 0 1 2

room_found : find "a" world0.hub.rooms ≡ some room0
unfolding create_default_rooms create_next create get insert string_discrete
room_found = refl

abbrev asked : World × Packet
asked = request_floor 9 7 world0 ("ann", "a", room0)

dispatched : dispatch decoder0 env0 session0 world0 asks ≡ ok (session0, asked.0, some asked.1)
unfolding dispatch by_opcode is_refused handle_floor_request floor_request_guards get_room
    create_default_rooms create_next create get insert new_room is_response string_discrete
dispatched = refl

abbrev pub room1 : Room
room1 = record room0 {
  floor = taken "ann" 7 7;
  audio_rewriter = switch_speaker "ann" room0.audio_rewriter;
  video_rewriter = switch_speaker "ann" room0.video_rewriter;
}

asked_room : find "a" asked.0.hub.rooms ≡ some room1
unfolding request_floor after_grant apply_floor_action Floor.request create_default_rooms
    create_next create get insert string_discrete new_room
asked_room = refl

dispatch-Replied_example : Replied session0 asks (dispatch decoder0 env0 session0 world0 asks)
dispatch-Replied_example = dispatch-Replied decoder0 env0 session0 world0 asks

dispatch_unidentified_example :
    (s : Session) × (o : Option Packet) × (dispatch decoder0 env0 new_session world0 asks
      ≡ ok (s, world0, o))
    × (((is_response asks ≡ true) × (o ≡ none))
        ⊎ ((is_response asks ≡ false) × (asks.op ≡ heartbeat_op) × (s ≡ new_session))
        ⊎ ((is_response asks ≡ false) × (asks.op ≡ identify_op))
        ⊎ ((is_response asks ≡ false)
            × (s ≡ new_session)
            × (o ≡ some (failure asks.op asks.pid 1001 "not authenticated"))))
dispatch_unidentified_example = dispatch_unidentified decoder0 env0 new_session world0 asks refl

handle_floor_request_exact_example :
    (w : World) × (answer : Packet) × (handle_floor_request decoder0 7 session0 world0 asks
      ≡ ok (w, answer))
    × Answered decoder0 7 asks "ann" world0 w answer
handle_floor_request_exact_example =
    handle_floor_request_exact decoder0 7 session0 world0 asks "ann" refl

cleanup-IsGone_example :
    IsGone "ann" "a" room1
      (λ i. find i asked.0.hub.rooms)
      (λ i. find i (cleanup session0 asked.0).hub.rooms)
cleanup-IsGone_example = cleanup-IsGone session0 asked.0 "ann" "a" room1 refl refl asked_room

floor_round_exact_example :
    (t : Room) × (find "a" (floor_round 40000 asked.0).hub.rooms ≡ some t)
    × IsTimed 40000 room1 t
    × ((floor_round 40000 asked.0).heap ≡ asked.0.heap)
floor_round_exact_example = floor_round_exact 40000 asked.0 "a" room1 asked_room

-- A room with a member who publishes a microphone and a camera.
abbrev pub room2 : Room
room2 = record room0 { participants = put "ann" 0 [] }

abbrev world2 : World
world2 = record world0 { hub = record new_hub { rooms = put "a" room2 [] } }

abbrev request2 : PublishTracksRequest
request2 = record {
  tracks = record { kind = "audio"; ssrc = 11 } ∷ record { kind = "video"; ssrc = 22 } ∷ [];
}

abbrev decoder2 : Decoder
decoder2 = record decoder0 { publish_tracks = λ _. some request2 }

abbrev publishes : Packet
publishes = event publish_tracks_op 10 null

room2_found : find "a" world2.hub.rooms ≡ some room2
unfolding get insert string_discrete
room2_found = refl

ann_found : get_participant "ann" room2 ≡ some 0
unfolding get insert string_discrete
ann_found = refl

no_tracks : Distinct (heap0 0).tracks
unfolding new_participant
no_tracks = tt

handle_publish_tracks-IsRegistered_example :
    (w : World) × (answer : Packet) × (handle_publish_tracks decoder2 session0 world2 publishes
      ≡ ok (w, answer))
    × IsRegistered request2.tracks (heap0 0) (w.heap 0)
    × (w.hub ≡ world2.hub)
handle_publish_tracks-IsRegistered_example =
    handle_publish_tracks-IsRegistered decoder2 session0 world2 publishes request2 "ann" "a" room2 0
      refl refl refl room2_found ann_found no_tracks

-- The same room, with a member who was seen once, at 5 ms.
abbrev world3 : World
world3 = record world2 { heap = λ _. new_participant "ann" "a" "u1" "p1" "u2" "p2" 5 }

reaper_round_exact_example :
    (t : Room) × (find "a" (reaper_round 200000 world3).hub.rooms ≡ some t)
    × LostZombies world3.heap 200000 zombie_timeout_ms room2 t
    × IsAlive world3.heap 200000 zombie_timeout_ms t
reaper_round_exact_example = reaper_round_exact 200000 world3 "a" room2 room2_found
