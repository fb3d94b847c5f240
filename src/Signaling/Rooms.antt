-- ===== src/Signaling/Rooms.antt =====
-- src/signaling/handler.rs: identifying, and listing, creating and joining rooms.
use light_livechat.Base.{
  ℕ, ◌+◌, ◌%◌, String, Option, none, some, List, [], ◌∷◌, ◌++◌, map, inl, inr, if◌then◌else◌,
  Outcome, ok, panic,
}
use light_livechat.Base.TextMap.{find}
use light_livechat.Base.Texts.{joined, three_digits, is_blank}
use light_livechat.Errors.{LightResult, error_code, error_text}
use light_livechat.Room.Participant.{Participant, new_participant, get_tracks}
use light_livechat.Room.Members.{Arc, Heap, Room, update, member_ids, other_participants}
use light_livechat.Room.Hub.{RoomHub, create, get_room, hub_add_participant}
use light_livechat.Signaling.Opcodes.{identify_op, room_list_op, room_create_op, room_join_op}
use light_livechat.Signaling.Json.{Json, number, text, list, json}
use light_livechat.Signaling.Messages.{
  Packet, success, failure, Decoder, IdentifyRequest, RoomModeField, conference_field, to_config,
  RoomCreateRequest,
}
use light_livechat.Signaling.World.{
  Session, World, emit, Env, is_ptt, Guarded, proceed, refuse, crash, ◌>>=◌, require, expect,
  unwrap,
}
use light_livechat.Signaling.Wire.{
  broadcast_to_others, tracks_json, room_event, mode_text, push_admin_snapshot, listed_rooms,
  server_codec_policy, server_extmap_policy,
}

-- IDENTIFY. A blank name is replaced by a random one.
abbrev named : (random : String) → Option String → String
named random none = random
named random (some id) = if is_blank id then random else id

abbrev pub identified : Env → Packet → Session → Option IdentifyRequest → Session × Packet
identified env packet s none = (s, failure identify_op packet.pid 3002 "invalid payload")
identified env packet s (some req) =
    let user_id = named (joined ("U" ∷ three_digits (env.rand_u16 % 1000) ∷ [])) req.user_id in
    (
      record s { user_id = some user_id },
      success identify_op packet.pid (json (("user_id", text user_id) ∷ [])),
    )

unfoldable pub handle_identify : Decoder → Env → Session → Packet → Session × Packet
handle_identify decoder env s packet = identified env packet s (decoder.identify packet.d)

-- ROOM_LIST.
unfoldable pub handle_room_list : World → Packet → Packet
handle_room_list w packet =
    success room_list_op packet.pid (json (("rooms", list (listed_rooms w.hub.rooms)) ∷ []))

-- ROOM_CREATE.
abbrev mode_or : Option RoomModeField → RoomModeField
mode_or none = conference_field
mode_or (some mode) = mode

abbrev pub room_created : Env → Packet → World → Option RoomCreateRequest → World × Packet
room_created env packet w none = (w, failure room_create_op packet.pid 3002 "invalid payload")
room_created env packet w (some req) =
    let (hub, room) =
      create env.uuid req.name req.capacity (to_config (mode_or req.mode)) env.now env.audio_ssrc
        env.video_ssrc w.hub in
    (
      record w { hub = hub },
      success room_create_op packet.pid (
          json (
            ("room_id", text room.id)
            ∷ ("name", text room.name)
            ∷ ("capacity", number room.capacity)
            ∷ ("mode", text (mode_text room.mode))
            ∷ [])),
    )

unfoldable pub handle_room_create : Decoder → Env → World → Packet → World × Packet
handle_room_create decoder env w packet = room_created env packet w (decoder.room_create packet.d)

-- ROOM_JOIN.
unfoldable pub room_join_guards :
    Decoder → Session → World → Packet → Guarded (String × String × Room)
room_join_guards decoder s w packet = do
  req ← require 3002 "invalid payload" (decoder.room_join packet.d)
  user_id ← unwrap s.user_id
  r ← expect 2001 "room not found" (get_room req.room_id w.hub)
  proceed (user_id, req.room_id, r)

-- `Arc::new(Participant::new(…))` takes the next free address.
abbrev pub joiner : Env → (user_id room_id : String) → Participant
joiner env user_id room_id =
    new_participant user_id room_id env.pub_ufrag env.pub_pwd env.sub_ufrag env.sub_pwd env.now

abbrev pub allocate : Participant → World → World
allocate p w = record w { heap = update w.next_arc p w.heap; next_arc = w.next_arc + 1 }

-- What the room is by now: the handler holds it by an `Arc`.
abbrev pub latest : Room → Option Room → Room
latest r none = r
latest r (some s) = s

abbrev existing_tracks : Heap → List Arc → List Json
existing_tracks heap [] = []
existing_tracks heap (a ∷ arcs) =
    tracks_json (heap a).user_id (get_tracks (heap a)) ++ existing_tracks heap arcs

abbrev virtual_ssrcs : Room → List (String × Json)
virtual_ssrcs r =
    if is_ptt r.mode
    then (
      "ptt_virtual_ssrc",
      json (
          ("audio", number r.audio_rewriter.virtual_ssrc)
          ∷ ("video", number r.video_rewriter.virtual_ssrc)
          ∷ []),
    )
      ∷ []
    else []

abbrev join_response : Env → (user_id room_id : String) → Heap → Room → Json
join_response env user_id room_id heap r = json (
    (("room_id", text room_id)
      ∷ ("mode", text (mode_text r.mode))
      ∷ ("participants", list (map text (member_ids r)))
      ∷ (
        "server_config",
        json (
            (
              "ice",
              json (
                  ("publish_ufrag", text env.pub_ufrag)
                  ∷ ("publish_pwd", text env.pub_pwd)
                  ∷ ("subscribe_ufrag", text env.sub_ufrag)
                  ∷ ("subscribe_pwd", text env.sub_pwd)
                  ∷ ("ip", text env.public_ip)
                  ∷ ("port", number env.udp_port)
                  ∷ []),
            )
            ∷ (
              "dtls",
              json (("fingerprint", text env.fingerprint) ∷ ("setup", text "passive") ∷ []),
            )
            ∷ ("codecs", server_codec_policy)
            ∷ ("extmap", server_extmap_policy env.bwe_mode)
            ∷ ("max_bitrate_bps", number env.remb_bitrate)
            ∷ []),
      )
      ∷ ("tracks", list (existing_tracks heap (other_participants user_id r)))
      ∷ [])
    ++ virtual_ssrcs r)

abbrev pub joined_session : Env → (room_id : String) → Session → Session
joined_session env room_id s = record s {
  current_room = some room_id;
  pub_ufrag = some env.pub_ufrag;
  sub_ufrag = some env.sub_ufrag;
}

unfoldable pub admitted :
    Env
    → (pid : ℕ) → Session
    → World
    → (user_id room_id : String) → Room
    → LightResult RoomHub
    → Session × World × Packet
admitted env pid s w user_id room_id r (inl e) =
    (s, w, failure room_join_op pid (error_code e) (error_text e))
admitted env pid s w user_id room_id r (inr hub) =
    let w1 = record w { hub = hub } in
    let now_in = latest r (find room_id hub.rooms) in
    let joined_event = room_event "participant_joined" room_id user_id in
    (
      joined_session env room_id s,
      push_admin_snapshot (emit (broadcast_to_others now_in user_id joined_event) w1),
      success room_join_op pid (join_response env user_id room_id w.heap now_in),
    )

unfoldable pub join_room :
    Env
    → (pid : ℕ) → Session
    → World
    → Guarded (String × String × Room)
    → Outcome (Session × World × Packet)
unfolding admitted
join_room env pid s w crash = panic
join_room env pid s w (refuse code msg) = ok (s, w, failure room_join_op pid code msg)
join_room env pid s w (proceed (user_id, room_id, r)) =
    let w1 = allocate (joiner env user_id room_id) w in
    ok (
      admitted env pid s w1 user_id room_id r
        (hub_add_participant w1.heap room_id w.next_arc w1.hub))

unfoldable pub handle_room_join :
    Decoder → Env → Session → World → Packet → Outcome (Session × World × Packet)
unfolding join_room
handle_room_join decoder env s w packet =
    join_room env packet.pid s w (room_join_guards decoder s w packet)
