-- ===== src/Signaling/Dispatch/Branches.antt =====
-- src/signaling/handler.rs: `dispatch` answers in each of its branches.
use light_livechat.Base.{
  String, ◌≡◌, refl, sym, ◌∙◌, inr, Bool, true, false, none, some, [], ◌==◌, if◌then◌else◌, ==_iff,
  ok,
}
use light_livechat.Signaling.Messages.{Packet, success, failure, Decoder}
use light_livechat.Signaling.Opcodes.{
  room_list_op, room_create_op, room_join_op, room_leave_op, publish_tracks_op, mute_update_op,
  message_op, floor_request_op, floor_release_op, floor_ping_op, telemetry_op, heartbeat_op,
  identify_op,
}
use light_livechat.Signaling.Json.{json}
use light_livechat.Signaling.World.{Session, World, Env}
use light_livechat.Signaling.Floor.{
  request_floor, release_floor, ping_room, floor_request_guards, handle_floor_request,
  floor_release_guards, handle_floor_release, floor_ping_guards, handle_floor_ping,
}
use light_livechat.Signaling.Rooms.{
  handle_identify, handle_room_list, handle_room_create, room_join_guards, handle_room_join,
}
use light_livechat.Signaling.Leaving.{
  relay_message, room_leave_guards, handle_room_leave, message_guards, handle_message,
  relay_message,
}
use light_livechat.Signaling.Tracks.{
  publish_tracks_guards, handle_publish_tracks, mute_update_guards, handle_mute_update,
  register_tracks, mute_track,
}
use light_livechat.Signaling.Dispatch.{
  heartbeat, telemetry, Dispatched, kept, with_session, handle_room_create, handle_identify,
  handle_room_list,
}
use light_livechat.Signaling.Dispatch.Answers.{
  Responds, success-Answers, failure-Answers, handled-Answers, join_room-Answers,
  leave_room-Answers, apply-Answers, ping_answer-Answers, join_guards, leave_guards, publish_guards,
  mute_guards, relay_guards, request_guards, release_guards, ping_guards, at_op, changed_at,
  if-Responds, answered_at, identified-Answers, room_created-Answers,
}

-- A heartbeat and an identification need no identity.
pub open_branches :
    (decoder : Decoder) (env : Env) (s : Session) (w : World) (packet : Packet) (k : Dispatched)
    → ((packet.op == heartbeat_op) ≡ false → (packet.op == identify_op) ≡ false → Responds packet k)
    → Responds packet (
        if packet.op == heartbeat_op
        then ok (
          s,
          heartbeat env.now s.current_room s.user_id w,
          some (success heartbeat_op packet.pid (json [])),
        )
        else if packet.op == identify_op
        then ok (
          (handle_identify decoder env s packet).0,
          w,
          some (handle_identify decoder env s packet).1,
        )
        else k)
unfolding handle_identify
open_branches decoder env s w packet k more =
    if-Responds packet (packet.op == 1) _ _
      (λ e. answered_at 1 s _ packet _ e (success-Answers 1 packet.pid _))
      (λ n.
        if-Responds packet (packet.op == 3) _ k
          (λ e.
            answered_at 3 _ w packet _ e
              (identified-Answers env packet s (decoder.identify packet.d)))
          (λ m. more n m))

module _ (decoder : Decoder) (env : Env) (s : Session) (w : World) (packet : Packet) (user : String)
    (known : s.user_id ≡ some user) where
  pub floor_branches : Responds packet (
      if packet.op == floor_request_op
      then kept s (handle_floor_request decoder env.now s w packet)
      else if packet.op == floor_release_op
      then kept s (handle_floor_release decoder s w packet)
      else if packet.op == floor_ping_op
      then kept s (handle_floor_ping decoder env.now s w packet)
      else ok (s, w, some (failure packet.op packet.pid 3001 "invalid opcode")))
  unfolding handle_floor_request handle_floor_release handle_floor_ping request_floor release_floor
      ping_room
  floor_branches =
      if-Responds packet (packet.op == 40) _ _
        (λ e.
          at_op decoder env s w packet user known 40
            (handle_floor_request decoder env.now s w packet) e
            (handled-Answers 40 packet.pid w (floor_request_guards decoder s w packet) _
              (request_guards decoder env s w packet user known)
              (λ (u, id, r). apply-Answers 40 packet.pid _ _ u)))
        (λ _.
          if-Responds packet (packet.op == 41) _ _
            (λ e.
              at_op decoder env s w packet user known 41 (handle_floor_release decoder s w packet) e
                (handled-Answers 41 packet.pid w (floor_release_guards decoder s w packet) _
                  (release_guards decoder env s w packet user known)
                  (λ (u, id, r). apply-Answers 41 packet.pid _ _ u)))
            (λ _.
              if-Responds packet (packet.op == 42) _ _
                (λ e.
                  at_op decoder env s w packet user known 42
                    (handle_floor_ping decoder env.now s w packet) e
                    (handled-Answers 42 packet.pid w (floor_ping_guards decoder s w packet) _
                      (ping_guards decoder env s w packet user known)
                      (λ (u, id, r). ping_answer-Answers packet.pid _)))
                (λ _. (_, refl, failure-Answers packet.op packet.pid 3001 "invalid opcode"))))

  pub room_branches :
      (k : Dispatched)
      → Responds packet k
      → Responds packet (
          if packet.op == room_list_op
          then ok (s, w, some (handle_room_list w packet))
          else if packet.op == room_create_op
          then ok (
            s,
            (handle_room_create decoder env w packet).0,
            some (handle_room_create decoder env w packet).1,
          )
          else if packet.op == room_join_op
          then with_session (handle_room_join decoder env s w packet)
          else if packet.op == room_leave_op
          then with_session (handle_room_leave decoder s w packet)
          else k)
  unfolding handle_room_join handle_room_leave handle_room_create handle_room_list
  room_branches k more =
      if-Responds packet (packet.op == 9) _ _
        (λ e. answered_at 9 s w packet _ e (success-Answers 9 packet.pid _))
        (λ _.
          if-Responds packet (packet.op == 10) _ _
            (λ e.
              answered_at 10 s _ packet _ e
                (room_created-Answers env packet w (decoder.room_create packet.d)))
            (λ _.
              if-Responds packet (packet.op == 11) _ _
                (λ e.
                  changed_at decoder env s w packet user known 11
                    (handle_room_join decoder env s w packet) e
                    (join_room-Answers env packet.pid s w (room_join_guards decoder s w packet)
                      (join_guards decoder env s w packet user known)))
                (λ _.
                  if-Responds packet (packet.op == 12) _ k
                    (λ e.
                      changed_at decoder env s w packet user known 12
                        (handle_room_leave decoder s w packet) e
                        (leave_room-Answers packet.pid s w (room_leave_guards decoder s packet)
                          (leave_guards decoder env s w packet user known)))
                    (λ _. more))))

  pub track_branches :
      (k : Dispatched)
      → Responds packet k
      → Responds packet (
          if packet.op == publish_tracks_op
          then kept s (handle_publish_tracks decoder s w packet)
          else if packet.op == mute_update_op
          then kept s (handle_mute_update decoder s w packet)
          else if packet.op == message_op
          then kept s (handle_message decoder env s w packet)
          else if packet.op == telemetry_op
          then ok (s, telemetry s.user_id s.current_room packet w, none)
          else k)
  unfolding handle_publish_tracks handle_mute_update handle_message register_tracks mute_track
      relay_message
  track_branches k more =
      if-Responds packet (packet.op == 15) _ _
        (λ e.
          at_op decoder env s w packet user known 15 (handle_publish_tracks decoder s w packet) e (
            handled-Answers 15 packet.pid w (publish_tracks_guards decoder s w packet) _
              (publish_guards decoder env s w packet user known)
              (λ x. success-Answers 15 packet.pid _)))
        (λ _.
          if-Responds packet (packet.op == 17) _ _
            (λ e.
              at_op decoder env s w packet user known 17 (handle_mute_update decoder s w packet) e (
                handled-Answers 17 packet.pid w (mute_update_guards decoder s w packet) _
                  (mute_guards decoder env s w packet user known)
                  (λ x. success-Answers 17 packet.pid _)))
            (λ _.
              if-Responds packet (packet.op == 20) _ _
                (λ e.
                  at_op decoder env s w packet user known 20 (handle_message decoder env s w packet)
                    e
                    (handled-Answers 20 packet.pid w (message_guards decoder s packet) _
                      (relay_guards decoder env s w packet user known)
                      (λ x. success-Answers 20 packet.pid _)))
                (λ _.
                  if-Responds packet (packet.op == 30) _ k
                    (λ e. (_, refl, inr ((==_iff packet.op 30).0 e))) (λ _. more))))

pub absurd_reply :
    (packet : Packet) (m : Dispatched) {b : Bool} → b ≡ false → b ≡ true → Responds packet m
absurd_reply packet m e f = let q : true ≡ false = sym f ∙ e in cc
