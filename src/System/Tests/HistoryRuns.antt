-- ===== src/System/Tests/HistoryRuns.antt =====
-- A history of the server: a client joins the push-to-talk room and is given the floor, its connection is
-- latched and gets its keys, and a key frame of it passes the rewriter.
use light_livechat.Base.{
  ℕ, String, ◌≡◌, refl, inr, true, false, Option, none, some, List, [], ◌∷◌, ℕ_discrete,
  string_discrete, ok, read, read16, read32, write, write_all,
}
use light_livechat.Base.DashMap.{DashMap, get, insert}
use light_livechat.Base.TextMap.{find}
use light_livechat.Base.Slots.{store}
use light_livechat.Config.{conference}
use light_livechat.Room.Floor as Floor
use light_livechat.Room.Floor.{current_speaker, taken}
use light_livechat.Room.Participant.{Participant, publish, subscribe}
use light_livechat.Room.Members.{Room, update, Heap}
use light_livechat.Room.Hub.{RoomHub}
use light_livechat.Signaling.Json.{null}
use light_livechat.Signaling.Messages.{Packet, event, Decoder}
use light_livechat.Signaling.Opcodes.{room_join_op}
use light_livechat.Signaling.World.{Session, Output, new_session, World}
use light_livechat.Signaling.Dispatch.{Dispatched, dispatch}
use light_livechat.Transport.Srtp.{Crypto}
use light_livechat.Media.Ingress.{Handled}
use light_livechat.Media.Feedback.{handle_srtp}
use light_livechat.Media.Handshake.{SrtpKeyMaterial, handshake_done}
use light_livechat.Media.{fan_out, is_rtcp, is_floor_holder}
use light_livechat.Server.{create_next, create_default_rooms}
use light_livechat.Room.Members.{others_in, new_room, add_participant, latch, rebind, update}
use light_livechat.Room.Hub.{create, get_room, hub_add_participant, latch_by_ufrag, find_by_addr}
use light_livechat.Room.Participant.{
  new_session as new_media_session, is_media_ready, install_srtp_keys, new_cache, store_packet,
  new_participant, touch,
}
use light_livechat.Room.Rewriter.{
  rebase, virtual_seq, virtual_ts, is_current_speaker, rewrite_packet, overwrite, switch_speaker,
  rewrite, new_video, new_audio, new_rewriter,
}
use light_livechat.Room.Rewriter.Keyframe.{is_vp8_keyframe}
use light_livechat.Signaling.Floor.{
  apply_floor_action, after_grant, floor_request_guards, request_floor, handle_floor_request,
}
use light_livechat.Signaling.Rooms.{room_join_guards, admitted, join_room, handle_room_join}
use light_livechat.Signaling.Dispatch.{by_opcode}
use light_livechat.Signaling.Messages.{is_response}
use light_livechat.Transport.Rtcp.{parse_rtp_header}
use light_livechat.Transport.Srtp.{install_key, is_ready, decrypt_rtp}
use light_livechat.Transport.Twcc.Extension.{parse_twcc_seq}
use light_livechat.Media.Ingress.{
  payload_of, cache_video, observe, rewrite_in, forward, handle_media, handle_publish,
}
use light_livechat.Media.Handshake.{keys_installed}
use light_livechat.System.{received, binding, keyed, media_in, latched, Reachable, here, next}
use light_livechat.System.Rewriters.{Reachable-InStep}
use light_livechat.System.Tests.PacketRuns.{draw, heap0, world0, decoder0, env0, asks, room0}

abbrev joins_decoder : Decoder
joins_decoder = record decoder0 { room_join = λ _. some (record { room_id = "a" }) }

abbrev joins : Packet
joins = event room_join_op 8 null

abbrev ann : Session
ann = record new_session { user_id = some "ann" }

abbrev ann_in : Session
ann_in = record ann { current_room = some "a"; pub_ufrag = some "u1"; sub_ufrag = some "u2" }

-- The hub while ann is in room "a", and the state around it.
abbrev pub hub_with : Room → DashMap String String → RoomHub
hub_with r addresses = record {
  rooms =
      ("a", r)
      ∷ ("b", new_room "b" "회의실-2" (some 10) conference 0 1 2)
      ∷ ("c", new_room "c" "대회의실" (some 20) conference 0 1 2)
      ∷ [];
  ufrag_index = ("u1", "a") ∷ ("u2", "a") ∷ [];
  addr_index = addresses;
}

abbrev world_with : Participant → RoomHub → List Output → World
world_with p hub sent = record { heap = update 0 p heap0; hub = hub; next_arc = 1; sent = sent }

abbrev pub ann0 : Participant
ann0 = new_participant "ann" "a" "u1" "p1" "u2" "p2" 7

abbrev pub room_joined : Room
room_joined = record room0 {
  participants = ("ann", 0) ∷ [];
  by_ufrag = ("u1", (0, publish)) ∷ ("u2", (0, subscribe)) ∷ [];
}

abbrev sent_by : Dispatched → List Output
sent_by (ok (_, w, _)) = w.sent
sent_by _ = []

abbrev answer_of : Dispatched → Option Packet
answer_of (ok (_, _, answer)) = answer
answer_of _ = none

abbrev in_room : World
in_room =
    world_with ann0 (hub_with room_joined [])
      (sent_by (dispatch joins_decoder env0 ann world0 joins))

joined :
    dispatch joins_decoder env0 ann world0 joins
    ≡ ok (ann_in, in_room, answer_of (dispatch joins_decoder env0 ann world0 joins))
unfolding dispatch by_opcode handle_room_join update room_join_guards get_room join_room admitted
    hub_add_participant add_participant is_response string_discrete create_default_rooms create_next
    create get insert new_room new_participant new_media_session ℕ_discrete
joined = refl

abbrev pub room_talking : Room
room_talking = record room_joined {
  floor = taken "ann" 7 7;
  audio_rewriter = switch_speaker "ann" room0.audio_rewriter;
  video_rewriter = switch_speaker "ann" room0.video_rewriter;
}

abbrev talking : World
talking =
    world_with ann0 (hub_with room_talking [])
      (sent_by (dispatch decoder0 env0 ann_in in_room asks))

asked :
    dispatch decoder0 env0 ann_in in_room asks
    ≡ ok (ann_in, talking, answer_of (dispatch decoder0 env0 ann_in in_room asks))
unfolding dispatch by_opcode handle_floor_request floor_request_guards get_room request_floor
    after_grant apply_floor_action Floor.request switch_speaker is_response string_discrete new_room
    get insert ℕ_discrete
asked = refl

abbrev pub ann1 : Participant
ann1 = record ann0 {
  publish_session = record (new_media_session "u1" "p1") { address = some "1.2.3.4:5" };
  last_seen = 8;
}

abbrev pub room_latched : Room
room_latched = record room_talking { by_addr = ("1.2.3.4:5", (0, publish)) ∷ [] }

abbrev pub latched_hub : RoomHub
latched_hub = hub_with room_latched (("1.2.3.4:5", "a") ∷ [])

connected : (latched 8 "u1" "1.2.3.4:5" talking).hub ≡ latched_hub
unfolding latched latch_by_ufrag latch rebind update touch string_discrete new_room new_participant
    new_media_session get insert ℕ_discrete
connected = refl

abbrev pub plain : Crypto
plain = record {
  rtp_decrypt = λ key salt packet. inr packet;
  rtcp_decrypt = λ key salt packet. inr packet;
  rtp_encrypt = λ key salt packet. inr packet;
  rtcp_encrypt = λ key salt packet. inr packet;
}

abbrev pub keys : SrtpKeyMaterial
keys = record {
  client_key = 1 ∷ [];
  client_salt = 2 ∷ [];
  server_key = 3 ∷ [];
  server_salt = 4 ∷ [];
}

abbrev secured : World
secured =
    (handshake_done plain (λ key salt. true) 0 publish (some keys)
      (latched 8 "u1" "1.2.3.4:5" talking)).0

key_installed : (secured.heap 0).publish_session.inbound_srtp.inner ≡ some (1 ∷ [], 2 ∷ [])
unfolding handshake_done keys_installed install_srtp_keys install_key latched latch_by_ufrag latch
    rebind update touch string_discrete new_room new_participant new_media_session get insert
    ℕ_discrete
key_installed = refl

secured_hub : secured.hub ≡ latched_hub
unfolding handshake_done latched latch_by_ufrag latch rebind update touch string_discrete new_room
    new_participant new_media_session get insert ℕ_discrete
secured_hub = refl

abbrev pub key_frame : List ℕ
key_frame = 128 ∷ 96 ∷ 0 ∷ 5 ∷ 0 ∷ 0 ∷ 0 ∷ 9 ∷ 0 ∷ 0 ∷ 0 ∷ 7 ∷ 16 ∷ 0 ∷ []

-- The rewriter behind the key frame: it is the first packet of the speaker.
abbrev room_heard : Room
room_heard = record room_latched {
  video_rewriter = record (new_video 2) {
    speaker = some "ann";
    origin_base_seq = 5;
    origin_base_ts = 9;
    virtual_base_seq = 1;
    virtual_base_ts = 3000;
    last_virtual_seq = 1;
    last_virtual_ts = 3000;
    awaiting_first_packet = false;
    awaits_keyframe = false;
  };
}

abbrev heap_by : Heap → Handled → Heap
heap_by heap (ok (w, _)) = w.heap
heap_by heap _ = heap

abbrev heard : World
heard = record {
  heap = heap_by heap0 (handle_srtp plain 9 100 key_frame "1.2.3.4:5" secured);
  hub = hub_with room_heard (("1.2.3.4:5", "a") ∷ []);
  next_arc = 1;
  sent = talking.sent;
}

relayed : handle_srtp plain 9 100 key_frame "1.2.3.4:5" secured ≡ ok (heard, [])
unfolding handle_srtp find_by_addr handle_publish is_media_ready is_ready decrypt_rtp is_rtcp
    handle_media observe cache_video store_packet new_cache parse_rtp_header forward rewrite_in
    rewrite is_vp8_keyframe is_floor_holder parse_twcc_seq string_discrete new_room new_participant
    new_media_session current_speaker handshake_done keys_installed install_srtp_keys install_key
    latched latch_by_ufrag latch rebind update touch get insert ℕ_discrete switch_speaker payload_of
    fan_out new_video new_audio new_rewriter read read16 read32 store is_current_speaker
    rewrite_packet overwrite write_all write others_in rebase virtual_seq virtual_ts
relayed = refl

history : Reachable world0 heard
history =
    next
      (next
        (next
          (next
            (next here (
              received joins_decoder env0 ann ann_in joins in_room
                (answer_of (dispatch joins_decoder env0 ann world0 joins)) joined))
            (received decoder0 env0 ann_in ann_in asks talking
              (answer_of (dispatch decoder0 env0 ann_in in_room asks)) asked))
          (binding 8 "u1" "1.2.3.4:5"))
        (keyed plain (λ key salt. true) 0 publish (some keys)))
      (media_in plain 9 100 key_frame "1.2.3.4:5" heard [] relayed)

heard_room : find "a" heard.hub.rooms ≡ some room_heard
unfolding string_discrete get
heard_room = refl

Reachable-InStep_example :
    (room_heard.audio_rewriter.speaker ≡ current_speaker room_heard.floor)
    × (room_heard.video_rewriter.speaker ≡ current_speaker room_heard.floor)
Reachable-InStep_example =
    Reachable-InStep 0 (draw "a") (draw "b") (draw "c") heap0 heard history "a" room_heard
      heard_room
