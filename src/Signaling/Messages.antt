-- ===== src/Signaling/Messages.antt =====
-- src/signaling/message.rs: packets, and the payloads of requests. `serde_json::from_value` at the type of
-- a request is derived by the package serde, so a `Decoder` is a parameter of what uses it.
use light_livechat.Base.{ℕ, String, Bool, true, false, Option, none, some, List, [], ◌∷◌}
use light_livechat.Config.{RoomMode}
use light_livechat.Config
use light_livechat.Signaling.Json.{Json, number, text, json}

pub record Packet : Type 0 where
  pub op : ℕ  -- u16
  pub pid : ℕ  -- u64
  pub ok_ : Option Bool  -- `ok`
  pub d : Json

-- `Packet::new`, `Packet::ok` and `Packet::err`.
abbrev pub event : (op pid : ℕ) → Json → Packet
event op pid d = record { op = op; pid = pid; ok_ = none; d = d }

abbrev pub success : (op pid : ℕ) → Json → Packet
success op pid d = record { op = op; pid = pid; ok_ = some true; d = d }

abbrev pub failure : (op pid code : ℕ) → (msg : String) → Packet
failure op pid code msg = record {
  op = op;
  pid = pid;
  ok_ = some false;
  d = json (("code", number code) ∷ ("msg", text msg) ∷ []);
}

is_there : Option Bool → Bool
is_there none = false
is_there (some _) = true

unfoldable pub is_response : Packet → Bool
unfolding is_there
is_response p = is_there p.ok_

pub record IdentifyRequest : Type 0 where
  pub token : String
  pub user_id : Option String

pub data RoomModeField : Type 0 where
  conference_field ptt_field : RoomModeField

unfoldable pub to_config : RoomModeField → RoomMode
to_config conference_field = Config.conference
to_config ptt_field = Config.ptt

pub record RoomCreateRequest : Type 0 where
  pub name : String
  pub capacity : Option ℕ
  pub mode : Option RoomModeField

pub record RoomJoinRequest : Type 0 where
  pub room_id : String

pub record RoomLeaveRequest : Type 0 where
  pub room_id : String

pub record PublishTrackItem : Type 0 where
  pub kind : String
  pub ssrc : ℕ  -- u32

pub record PublishTracksRequest : Type 0 where
  pub tracks : List PublishTrackItem

pub record MuteUpdateRequest : Type 0 where
  pub ssrc : ℕ  -- u32
  pub muted : Bool

pub record MessageRequest : Type 0 where
  pub room_id : String
  pub content : String

pub record FloorRequestMsg : Type 0 where
  pub room_id : String

pub record FloorReleaseMsg : Type 0 where
  pub room_id : String

pub record FloorPingMsg : Type 0 where
  pub room_id : String

-- `from_value` at each type of request; `none` is an error.
pub record Decoder : Type 0 where
  pub identify : Json → Option IdentifyRequest
  pub room_create : Json → Option RoomCreateRequest
  pub room_join : Json → Option RoomJoinRequest
  pub room_leave : Json → Option RoomLeaveRequest
  pub publish_tracks : Json → Option PublishTracksRequest
  pub mute_update : Json → Option MuteUpdateRequest
  pub message : Json → Option MessageRequest
  pub floor_request : Json → Option FloorRequestMsg
  pub floor_release : Json → Option FloorReleaseMsg
  pub floor_ping : Json → Option FloorPingMsg

-- `RoomEventPayload` as JSON; `HelloEvent` too.
abbrev pub room_event_payload : (event_type room_id user_id : String) → Json
room_event_payload event_type room_id user_id =
    json (("type", text event_type) ∷ ("room_id", text room_id) ∷ ("user_id", text user_id) ∷ [])

abbrev pub hello_event : (heartbeat_interval : ℕ) → Json
hello_event heartbeat_interval = json (("heartbeat_interval", number heartbeat_interval) ∷ [])
