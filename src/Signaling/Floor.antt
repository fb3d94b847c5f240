-- ===== src/Signaling/Floor.antt =====
-- src/signaling/handler.rs: the push-to-talk handlers, `apply_floor_action`, and the release of the floor
-- by a user who leaves.
pub mod Rewriters
pub mod Requests
pub mod Silence
use light_livechat.Base.{
  ℕ, String, Option, none, some, List, [], ◌∷◌, ◌++◌, map, Bool, true, false, if◌then◌else◌,
  Outcome, Option-cases,
}
use light_livechat.Base.TextMap.{find}
use light_livechat.Base.Texts.{joined}
use light_livechat.Room.Floor.{
  FloorAction, granted, denied, released, revoked, ping_ok, ping_denied, not_ptt_room, request,
  release, ping_floor, on_participant_leave,
}
use light_livechat.Room.Rewriter.{switch_speaker, clear_speaker}
use light_livechat.Room.Participant.{
  Participant, TrackKind, audio, video, Track, get_address, is_publish_ready, SocketAddr,
}
use light_livechat.Room.Members.{Arc, Room, get_participant}
use light_livechat.Room.Hub.{get_room}
use light_livechat.Transport.Rtcp.Build.{build_pli}
use light_livechat.Signaling.Opcodes.{
  floor_request_op, floor_release_op, floor_ping_op, floor_taken_op, floor_idle_op, floor_revoke_op,
}
use light_livechat.Signaling.Json.{Json, truth, text, json}
use light_livechat.Signaling.Messages.{
  Packet, event, success, failure, Decoder, FloorRequestMsg, FloorReleaseMsg, FloorPingMsg,
}
use light_livechat.Signaling.World.{
  Session, Output, to_user, rtcp_to, World, emit, put_room, is_ptt, Guarded, proceed, ◌>>=◌, ◌>>◌,
  require, expect, unwrap, check, handled,
}
use light_livechat.Signaling.Wire.{broadcast_to_others, broadcast_to_room}

abbrev pub floor_taken : (room_id speaker : String) → Packet
floor_taken room_id speaker =
    event floor_taken_op 0 (json (("room_id", text room_id) ∷ ("speaker", text speaker) ∷ []))

abbrev pub floor_idle : (room_id prev_speaker : String) → Packet
floor_idle room_id prev_speaker =
    event floor_idle_op 0
      (json (("room_id", text room_id) ∷ ("prev_speaker", text prev_speaker) ∷ []))

abbrev pub floor_revoke : (room_id cause : String) → Packet
floor_revoke room_id cause =
    event floor_revoke_op 0 (json (("room_id", text room_id) ∷ ("cause", text cause) ∷ []))

-- A packet to a member, if there still is one.
abbrev pub to_member : Packet → Option Arc → List Output
to_member packet none = []
to_member packet (some a) = to_user a packet ∷ []

unfoldable pub apply_floor_action :
    (op pid : ℕ) → FloorAction → Room → (user_id : String) → List Output × Packet
apply_floor_action op pid (granted speaker) r user_id = (
  broadcast_to_others r user_id (floor_taken r.id speaker),
  success op pid (json (("granted", truth true) ∷ ("speaker", text speaker) ∷ [])),
)
apply_floor_action op pid (denied reason current_speaker) r user_id =
    ([], failure op pid 2010 (joined (reason ∷ " (speaker=" ∷ current_speaker ∷ ")" ∷ [])))
apply_floor_action op pid (released prev_speaker) r user_id =
    (broadcast_to_room r (floor_idle r.id prev_speaker), success op pid (json []))
apply_floor_action op pid (revoked prev_speaker cause) r user_id = (
  to_member (floor_revoke r.id cause) (get_participant prev_speaker r)
      ++ broadcast_to_room r (
          event floor_idle_op 0 (
            json (
              ("room_id", text r.id)
              ∷ ("prev_speaker", text prev_speaker)
              ∷ ("cause", text cause)
              ∷ []))),
  success op pid (json []),
)
apply_floor_action op pid ping_ok r user_id = ([], success op pid (json []))
apply_floor_action op pid ping_denied r user_id = ([], success op pid (json []))
apply_floor_action op pid not_ptt_room r user_id = ([], success op pid (json []))

-- `tracks.iter().find(|t| t.kind == kind).map(|t| t.ssrc)`.
abbrev same_kind : TrackKind → TrackKind → Bool
same_kind audio audio = true
same_kind video video = true
same_kind audio video = false
same_kind video audio = false

unfoldable pub ssrc_of_kind : TrackKind → List Track → Option ℕ
ssrc_of_kind kind [] = none
ssrc_of_kind kind (t ∷ ts) =
    let later_ = ssrc_of_kind kind ts in if same_kind t.kind kind then some t.ssrc else later_

-- The task that asks the speaker's camera for key frames: at once, and again after each delay.
abbrev pub three_plis : Arc → (ssrc : ℕ) → SocketAddr → List Output
three_plis a ssrc addr =
    rtcp_to 0 a addr (build_pli ssrc)
    ∷ rtcp_to 500 a addr (build_pli ssrc)
    ∷ rtcp_to 2000 a addr (build_pli ssrc)
    ∷ []

abbrev plis_for : Arc → (ssrc : Option ℕ) → Option SocketAddr → List Output
plis_for a none addr = []
plis_for a (some ssrc) none = []
plis_for a (some ssrc) (some addr) = three_plis a ssrc addr

abbrev pub speaker_plis : (Arc → Participant) → Option Arc → List Output
speaker_plis heap none = []
speaker_plis heap (some a) =
    let p = heap a in
    if is_publish_ready p
    then plis_for a (ssrc_of_kind video p.tracks) (get_address p.publish_session)
    else []

-- Behind the answer: a granted floor turns both rewriters to the speaker.
abbrev pub switch_to : String → Room → Room
switch_to speaker r = record r {
  audio_rewriter = switch_speaker speaker r.audio_rewriter;
  video_rewriter = switch_speaker speaker r.video_rewriter;
}

abbrev pub clear_rewriters : Room → Room
clear_rewriters r = record r {
  audio_rewriter = clear_speaker r.audio_rewriter;
  video_rewriter = clear_speaker r.video_rewriter;
}

unfoldable pub after_grant : (room_id : String) → FloorAction → Room → World → World
after_grant room_id (granted speaker) r w =
    emit (speaker_plis w.heap (get_participant speaker r))
      (put_room room_id (switch_to speaker r) w)
after_grant room_id _ r w = w

after_release : (room_id : String) → FloorAction → Room → World → World
after_release room_id (released prev_speaker) r w = put_room room_id (clear_rewriters r) w
after_release room_id _ r w = w

-- The tests that the three handlers share.
abbrev floor_room : (room_id : String) → Session → World → Guarded (String × String × Room)
floor_room room_id s w = do
  user_id ← unwrap s.user_id
  r ← expect 2001 "room not found" (get_room room_id w.hub)
  proceed (user_id, room_id, r)

unfoldable pub floor_request_guards :
    Decoder → Session → World → Packet → Guarded (String × String × Room)
floor_request_guards decoder s w packet = do
  req ← require 3002 "invalid payload" (decoder.floor_request packet.d)
  found ← floor_room req.room_id s w
  check 2020 "not a PTT room" (is_ptt found.2.mode)
  proceed found

unfoldable pub request_floor : (pid now : ℕ) → World → String × String × Room → World × Packet
unfolding after_grant
request_floor pid now w (user_id, room_id, r) =
    let (floor, action) = request user_id now r.floor in
    let r1 = record r { floor = floor } in
    let (outputs, response) = apply_floor_action floor_request_op pid action r1 user_id in
    (after_grant room_id action r1 (emit outputs (put_room room_id r1 w)), response)

unfoldable pub handle_floor_request :
    Decoder → (now : ℕ) → Session → World → Packet → Outcome (World × Packet)
unfolding request_floor
handle_floor_request decoder now s w packet =
    handled floor_request_op packet.pid w (floor_request_guards decoder s w packet)
      (request_floor packet.pid now w)

unfoldable pub floor_release_guards :
    Decoder → Session → World → Packet → Guarded (String × String × Room)
floor_release_guards decoder s w packet = do
  req ← require 3002 "invalid payload" (decoder.floor_release packet.d)
  found ← floor_room req.room_id s w
  check 2020 "not a PTT room" (is_ptt found.2.mode)
  proceed found

unfoldable pub release_floor : (pid : ℕ) → World → String × String × Room → World × Packet
unfolding after_release
release_floor pid w (user_id, room_id, r) =
    let (floor, action) = release user_id r.floor in
    let r1 = record r { floor = floor } in
    let w1 = after_release room_id action r1 (put_room room_id r1 w) in
    let (outputs, response) = apply_floor_action floor_release_op pid action r1 user_id in
    (emit outputs w1, response)

unfoldable pub handle_floor_release : Decoder → Session → World → Packet → Outcome (World × Packet)
unfolding release_floor
handle_floor_release decoder s w packet =
    handled floor_release_op packet.pid w (floor_release_guards decoder s w packet)
      (release_floor packet.pid w)

unfoldable pub floor_ping_guards :
    Decoder → Session → World → Packet → Guarded (String × String × Room)
floor_ping_guards decoder s w packet = do
  req ← require 3002 "invalid payload" (decoder.floor_ping packet.d)
  floor_room req.room_id s w

unfoldable pub ping_answer : (pid : ℕ) → FloorAction → Packet
ping_answer pid ping_ok = success floor_ping_op pid (json [])
ping_answer pid _ = failure floor_ping_op pid 2021 "not current speaker"

unfoldable pub ping_room : (pid now : ℕ) → World → String × String × Room → World × Packet
unfolding ping_answer
ping_room pid now w (user_id, room_id, r) =
    let (floor, action) = ping_floor user_id now r.floor in
    (put_room room_id (record r { floor = floor }) w, ping_answer pid action)

unfoldable pub handle_floor_ping :
    Decoder → (now : ℕ) → Session → World → Packet → Outcome (World × Packet)
unfolding ping_room
handle_floor_ping decoder now s w packet =
    handled floor_ping_op packet.pid w (floor_ping_guards decoder s w packet)
      (ping_room packet.pid now w)

-- A user who leaves a room gives its floor back: `on_participant_leave`, and what its callers do with
-- the action.
pub left_floor : (room_id user_id : String) → Room → World → Option FloorAction → World
left_floor room_id user_id r1 w none = w
left_floor room_id user_id r1 w (some action) =
    emit (apply_floor_action floor_release_op 0 action r1 user_id).0
      (put_room room_id (clear_rewriters r1) w)

pub in_ptt_room : (room_id user_id : String) → World → Option Room → World
unfolding left_floor
in_ptt_room room_id user_id w none = w
in_ptt_room room_id user_id w (some r) =
    let (floor, action) = on_participant_leave user_id r.floor in
    if is_ptt r.mode then left_floor room_id user_id (record r { floor = floor }) w action else w

unfoldable pub leave_floor : (room_id user_id : String) → World → World
unfolding in_ptt_room
leave_floor room_id user_id w = in_ptt_room room_id user_id w (find room_id w.hub.rooms)
