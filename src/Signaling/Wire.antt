-- ===== src/Signaling/Wire.antt =====
-- src/signaling/handler.rs: what the handlers send, that is the broadcasts, the snapshot for the
-- administrators and the fixed policies. The `Display` texts are those of the types' own files.
use light_livechat.Base.{ℕ, String, Option, none, some, List, [], ◌∷◌, ◌++◌, map, if◌then◌else◌}
use light_livechat.Base.DashMap.{DashMap}
use light_livechat.Base.Texts.{hex32}
use light_livechat.Config.{RoomMode, conference, ptt, BweMode, twcc, remb}
use light_livechat.Room.Floor.{current_speaker}
use light_livechat.Room.Participant.{
  Participant, TrackKind, audio, video, Track, get_tracks, is_publish_ready, is_subscribe_ready,
}
use light_livechat.Room.Members.{Arc, Heap, Room, all_participants, participant_count, others_in}
use light_livechat.Room.Hub.{RoomHub}
use light_livechat.Signaling.Opcodes.{tracks_update_op, room_event_op}
use light_livechat.Signaling.Json.{Json, null, truth, number, text, list, json, if_some}
use light_livechat.Signaling.Messages.{Packet, event, room_event_payload}
use light_livechat.Signaling.World.{Output, to_user, to_admin, World, emit, is_ptt}

-- `Display` of `RoomMode` and of `TrackKind`.
abbrev pub mode_text : RoomMode → String
mode_text conference = "conference"
mode_text ptt = "ptt"

abbrev pub kind_text : TrackKind → String
kind_text audio = "audio"
kind_text video = "video"

to_all : List Arc → Packet → List Output
to_all [] packet = []
to_all (a ∷ arcs) packet = to_user a packet ∷ to_all arcs packet

unfoldable pub broadcast_to_others : Room → (exclude : String) → Packet → List Output
unfolding to_all
broadcast_to_others r exclude packet = to_all (others_in exclude r.participants) packet

-- `broadcast_to_room` of the handlers, and `broadcast_to_room_all` of the tasks.
unfoldable pub broadcast_to_room : Room → Packet → List Output
unfolding to_all
broadcast_to_room r packet = to_all (all_participants r) packet

-- The JSON of a track, as others are told of it.
abbrev pub track_json : (user_id : String) → Track → Json
track_json user_id t = json (
    (("user_id", text user_id)
      ∷ ("kind", text (kind_text t.kind))
      ∷ ("ssrc", number t.ssrc)
      ∷ ("track_id", text t.track_id)
      ∷ [])
    ++ if_some "rtx_ssrc" t.rtx_ssrc)

abbrev pub tracks_json : (user_id : String) → List Track → List Json
tracks_json user_id [] = []
tracks_json user_id (t ∷ ts) = track_json user_id t ∷ tracks_json user_id ts

abbrev pub tracks_update : (action : String) → List Json → Packet
tracks_update action tracks =
    event tracks_update_op 0 (json (("action", text action) ∷ ("tracks", list tracks) ∷ []))

abbrev pub room_event : (event_type room_id user_id : String) → Packet
room_event event_type room_id user_id =
    event room_event_op 0 (room_event_payload event_type room_id user_id)

-- The packets that tell of a member's departure: its tracks, if it had any, and then the member.
unfoldable pub departure : (room_id user_id : String) → List Track → List Packet
departure room_id user_id [] = room_event "participant_left" room_id user_id ∷ []
departure room_id user_id (t ∷ ts) =
    tracks_update "remove" (tracks_json user_id (t ∷ ts))
    ∷ room_event "participant_left" room_id user_id
    ∷ []

abbrev snapshot_track : Track → Json
snapshot_track t = json (
    (("kind", text (kind_text t.kind))
      ∷ ("ssrc", number t.ssrc)
      ∷ ("track_id", text t.track_id)
      ∷ ("muted", truth t.muted)
      ∷ [])
    ++ if_some "rtx_ssrc" t.rtx_ssrc)

abbrev snapshot_participant : Participant → Json
snapshot_participant p = json (
    ("user_id", text p.user_id)
    ∷ ("pub_ready", truth (is_publish_ready p))
    ∷ ("sub_ready", truth (is_subscribe_ready p))
    ∷ ("tracks", list (map snapshot_track (get_tracks p)))
    ∷ [])

abbrev speaker_json : Option String → Json
speaker_json none = null
speaker_json (some speaker) = text speaker

abbrev snapshot_room : Heap → Room → Json
snapshot_room heap r = json (
    (("room_id", text r.id)
      ∷ ("name", text r.name)
      ∷ ("capacity", number r.capacity)
      ∷ ("mode", text (mode_text r.mode))
      ∷ ("participants", list (map (λ a. snapshot_participant (heap a)) (all_participants r)))
      ∷ [])
    ++ (if is_ptt r.mode
        then (
          "ptt",
          json (
              ("floor_speaker", speaker_json (current_speaker r.floor))
              ∷ ("audio_virtual_ssrc", text (hex32 r.audio_rewriter.virtual_ssrc))
              ∷ ("video_virtual_ssrc", text (hex32 r.video_rewriter.virtual_ssrc))
              ∷ []),
        )
          ∷ []
        else []))

abbrev snapshot_rooms : Heap → DashMap String Room → List Json
snapshot_rooms heap [] = []
snapshot_rooms heap ((_, r) ∷ m) = snapshot_room heap r ∷ snapshot_rooms heap m

unfoldable pub build_rooms_snapshot : Heap → RoomHub → Json
build_rooms_snapshot heap hub =
    json (("type", text "snapshot") ∷ ("rooms", list (snapshot_rooms heap hub.rooms)) ∷ [])

abbrev pub push_admin_snapshot : World → World
push_admin_snapshot w = emit (to_admin (build_rooms_snapshot w.heap w.hub) ∷ []) w

-- One room of ROOM_LIST.
abbrev listed_room : Room → Json
listed_room r = json (
    ("room_id", text r.id)
    ∷ ("name", text r.name)
    ∷ ("capacity", number r.capacity)
    ∷ ("mode", text (mode_text r.mode))
    ∷ ("participants", number (participant_count r))
    ∷ [])

abbrev pub listed_rooms : DashMap String Room → List Json
listed_rooms [] = []
listed_rooms ((_, r) ∷ m) = listed_room r ∷ listed_rooms m

abbrev pub server_codec_policy : Json
server_codec_policy = list (
    json (
      ("kind", text "audio")
      ∷ ("name", text "opus")
      ∷ ("pt", number 111)
      ∷ ("clockrate", number 48000)
      ∷ ("channels", number 2)
      ∷ ("rtcp_fb", list (text "nack" ∷ []))
      ∷ ("fmtp", text "minptime=10;useinbandfec=1")
      ∷ [])
    ∷ json (
        ("kind", text "video")
        ∷ ("name", text "VP8")
        ∷ ("pt", number 96)
        ∷ ("clockrate", number 90000)
        ∷ ("rtx_pt", number 97)
        ∷ ("rtcp_fb", list (text "nack" ∷ text "nack pli" ∷ text "ccm fir" ∷ text "goog-remb" ∷ []))
        ∷ [])
    ∷ [])

abbrev extension : (id : ℕ) → (uri : String) → Json
extension id uri = json (("id", number id) ∷ ("uri", text uri) ∷ [])

abbrev transport_wide : BweMode → List Json
transport_wide twcc =
    extension 6 "http://www.ietf.org/id/draft-holmer-rmcat-transport-wide-cc-extensions-01" ∷ []
transport_wide remb = []

abbrev pub server_extmap_policy : BweMode → Json
server_extmap_policy bwe_mode = list (
    (extension 1 "urn:ietf:params:rtp-hdrext:sdes:mid"
      ∷ extension 4 "urn:ietf:params:rtp-hdrext:ssrc-audio-level"
      ∷ extension 5 "http://www.webrtc.org/experiments/rtp-hdrext/abs-send-time"
      ∷ [])
    ++ transport_wide bwe_mode)
