-- ===== src/Signaling/Tracks.antt =====
-- src/signaling/handler.rs: publishing tracks, and muting them.
pub mod Registered
use light_livechat.Base.{
  ℕ, ◌+◌, String, Option, none, some, List, [], ◌∷◌, ◌++◌, Bool, true, false, not, ite, ◌&&◌,
  if◌then◌else◌, Outcome, length, string_discrete,
}
use light_livechat.Base.Texts.{joined, decimal}
use light_livechat.Room.Participant.{
  Participant, TrackKind, audio, video, Track, SocketAddr, get_address, find_track, add_track,
  set_track_muted, get_tracks, is_publish_ready,
}
use light_livechat.Room.Members.{Arc, Room, get_participant}
use light_livechat.Room.Hub.{get_room}
use light_livechat.Transport.Rtcp.Build.{build_pli}
use light_livechat.Signaling.Opcodes.{publish_tracks_op, mute_update_op, track_state_op}
use light_livechat.Signaling.Json.{Json, truth, number, text, json, if_some}
use light_livechat.Signaling.Messages.{
  Packet, event, success, failure, Decoder, PublishTrackItem, PublishTracksRequest,
  MuteUpdateRequest,
}
use light_livechat.Signaling.World.{
  Session, Output, rtcp_to, World, emit, put_participant, Guarded, proceed, ◌>>=◌, require, expect,
  unwrap, handled,
}
use light_livechat.Signaling.Wire.{broadcast_to_others, tracks_update, kind_text}

-- Who publishes: the member, in the session's own room.
abbrev pub member_guards : Session → World → (user_id : String) → Guarded (Room × Arc)
member_guards s w user_id = do
  room_id ← require 2004 "not in room" s.current_room
  r ← expect 2001 "room not found" (get_room room_id w.hub)
  a ← require 2004 "not in room" (get_participant user_id r)
  proceed (r, a)

unfoldable pub publish_tracks_guards :
    Decoder → Session → World → Packet → Guarded (List PublishTrackItem × String × Room × Arc)
publish_tracks_guards decoder s w packet = do
  req ← require 3002 "invalid payload" (decoder.publish_tracks packet.d)
  user_id ← unwrap s.user_id
  found ← member_guards s w user_id
  proceed (req.tracks, user_id, found.0, found.1)

abbrev pub parse_kind : String → Option TrackKind
parse_kind kind =
    ite (string_discrete kind "audio") (some audio)
      (ite (string_discrete kind "video") (some video) none)

abbrev rtx_of : Option Track → Option ℕ
rtx_of none = none
rtx_of (some t) = t.rtx_ssrc

-- The announcement of an item, from the request and the track that is registered for its SSRC.
abbrev pub announcement : (user_id track_id : String) → PublishTrackItem → Participant → Json
announcement user_id track_id item p = json (
    (("user_id", text user_id)
      ∷ ("kind", text item.kind)
      ∷ ("ssrc", number item.ssrc)
      ∷ ("track_id", text track_id)
      ∷ [])
    ++ if_some "rtx_ssrc" (rtx_of (find_track item.ssrc (get_tracks p))))

abbrev pub track_name : (user_id : String) → ℕ → String
track_name user_id counter = joined (user_id ∷ "_" ∷ decimal counter ∷ [])

-- The loop over the items, with the counter of the names.
unfoldable pub register :
    (user_id : String)
    → List PublishTrackItem
    → (counter : ℕ) → Participant
    → Participant × List Json
register user_id [] counter p = (p, [])
register user_id (item ∷ items) counter p = elim (parse_kind item.kind) [
  | none ↦ register user_id items counter p
  | some kind ↦
      let p1 = add_track item.ssrc kind (track_name user_id counter) p in
      let (p2, announced) = register user_id items (counter + 1) p1 in
      (p2, announcement user_id (track_name user_id counter) item p1 ∷ announced)
]

abbrev pub announced_to_others : (user_id : String) → Room → List Json → List Output
announced_to_others user_id r [] = []
announced_to_others user_id r (j ∷ js) =
    broadcast_to_others r user_id (tracks_update "add" (j ∷ js))

unfoldable pub register_tracks :
    (pid : ℕ) → World → List PublishTrackItem × String × Room × Arc → World × Packet
register_tracks pid w (items, user_id, r, a) =
    let (p, announced) = register user_id items (length (get_tracks (w.heap a))) (w.heap a) in
    (
      emit (announced_to_others user_id r announced) (put_participant a p w),
      success publish_tracks_op pid (json (("registered", number (length announced)) ∷ [])),
    )

unfoldable pub handle_publish_tracks : Decoder → Session → World → Packet → Outcome (World × Packet)
unfolding register_tracks
handle_publish_tracks decoder s w packet =
    handled publish_tracks_op packet.pid w (publish_tracks_guards decoder s w packet)
      (register_tracks packet.pid w)

-- MUTE_UPDATE. The flag is set before the last test, which fails only where it changed nothing.
unfoldable pub mute_update_guards :
    Decoder
    → Session
    → World
    → Packet
    → Guarded (MuteUpdateRequest × String × Room × Arc × TrackKind)
mute_update_guards decoder s w packet = do
  req ← require 3002 "invalid payload" (decoder.mute_update packet.d)
  user_id ← unwrap s.user_id
  found ← member_guards s w user_id
  kind ← require 2005 "track not found" (set_track_muted req.ssrc req.muted (w.heap found.1)).1
  proceed (req, user_id, found.0, found.1, kind)

-- A camera that is switched on again is asked for a key frame.
abbrev pli_to : Arc → (ssrc : ℕ) → Option SocketAddr → List Output
pli_to a ssrc none = []
pli_to a ssrc (some addr) = rtcp_to 0 a addr (build_pli ssrc) ∷ []

abbrev is_video : TrackKind → Bool
is_video audio = false
is_video video = true

unfoldable pub unmute_pli : Arc → MuteUpdateRequest → TrackKind → Participant → List Output
unmute_pli a req kind p =
    if not req.muted && is_video kind && is_publish_ready p
    then pli_to a req.ssrc (get_address p.publish_session)
    else []

abbrev pub track_state : (user_id : String) → MuteUpdateRequest → TrackKind → Packet
track_state user_id req kind = event track_state_op 0 (
    json (
      ("user_id", text user_id)
      ∷ ("ssrc", number req.ssrc)
      ∷ ("kind", text (kind_text kind))
      ∷ ("muted", truth req.muted)
      ∷ []))

unfoldable pub mute_track :
    (pid : ℕ) → World → MuteUpdateRequest × String × Room × Arc × TrackKind → World × Packet
mute_track pid w (req, user_id, r, a, kind) =
    let p = (set_track_muted req.ssrc req.muted (w.heap a)).0 in
    (
      emit (unmute_pli a req kind p) (
          emit (broadcast_to_others r user_id (track_state user_id req kind))
            (put_participant a p w)),
      success mute_update_op pid
          (json (("ssrc", number req.ssrc) ∷ ("muted", truth req.muted) ∷ [])),
    )

unfoldable pub handle_mute_update : Decoder → Session → World → Packet → Outcome (World × Packet)
unfolding mute_track
handle_mute_update decoder s w packet =
    handled mute_update_op packet.pid w (mute_update_guards decoder s w packet)
      (mute_track packet.pid w)
