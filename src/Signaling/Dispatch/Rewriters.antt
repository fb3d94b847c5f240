-- ===== src/Signaling/Dispatch/Rewriters.antt =====
-- src/signaling/handler.rs: the rewriters of every room follow its floor through every packet of a client
-- and through the end of a connection.
use light_livechat.Base.{ℕ, String, Option, none, some, ◌==◌, ok}
use light_livechat.Base.TextMap.{find}
use light_livechat.Room.Members.{Arc, Room}
use light_livechat.Signaling.Messages.{Packet, failure, Decoder, is_response, RoomCreateRequest}
use light_livechat.Signaling.Opcodes.{message_op, publish_tracks_op, mute_update_op}
use light_livechat.Signaling.World.{Session, World, Env}
use light_livechat.Signaling.Floor.{handle_floor_request, handle_floor_release, handle_floor_ping}
use light_livechat.Signaling.Floor.Rewriters.{
  After, handled-After, RoomsInStep, handle_floor_request-InStep, handle_floor_release-InStep,
  handle_floor_ping-InStep,
}
use light_livechat.Signaling.Rooms.{
  room_created, handle_room_create, room_join_guards, handle_room_join,
}
use light_livechat.Signaling.Leaving.{
  room_leave_guards, handle_room_leave, message_guards, relay_message, handle_message,
}
use light_livechat.Signaling.Tracks.{
  publish_tracks_guards, register_tracks, handle_publish_tracks, mute_update_guards, mute_track,
  handle_mute_update,
}
use light_livechat.Signaling.Dispatch.{
  touch_member, touch_in, heartbeat, telemetry, by_opcode, is_refused, dispatch,
}
use light_livechat.Signaling.Dispatch.Membership.{
  Leaves, if-Leaves, kept-Leaves, with_session-Leaves, create-InStep, join_room-InStep,
  leave_room-InStep,
}

module _ (decoder : Decoder) (env : Env) (s : Session) (w : World) (packet : Packet)
    (all : RoomsInStep w) where
  room_created-InStep : (x : Option RoomCreateRequest) → RoomsInStep (room_created env packet w x).0
  room_created-InStep none = all
  room_created-InStep (some req) =
      create-InStep env.uuid req.name req.capacity _ env.now env.audio_ssrc env.video_ssrc w.hub all

  message-InStep : After RoomsInStep (handle_message decoder env s w packet)
  unfolding handle_message relay_message
  message-InStep =
      handled-After RoomsInStep message_op packet.pid w (message_guards decoder s packet)
        (relay_message env.uuid packet.pid w) all (λ x e. all)

  publish-InStep : After RoomsInStep (handle_publish_tracks decoder s w packet)
  unfolding handle_publish_tracks register_tracks
  publish-InStep =
      handled-After RoomsInStep publish_tracks_op packet.pid w
        (publish_tracks_guards decoder s w packet) (register_tracks packet.pid w) all (λ x e. all)

  mute-InStep : After RoomsInStep (handle_mute_update decoder s w packet)
  unfolding handle_mute_update mute_track
  mute-InStep =
      handled-After RoomsInStep mute_update_op packet.pid w (mute_update_guards decoder s w packet)
        (mute_track packet.pid w) all (λ x e. all)

  heartbeat-InStep :
      (room_id user_id : Option String) → RoomsInStep (heartbeat env.now room_id user_id w)
  unfolding heartbeat
  heartbeat-InStep none user_id = all
  heartbeat-InStep (some id) none = all
  heartbeat-InStep (some id) (some user) = at_room (find id w.hub.rooms)
    where
      at_room : (o : Option Room) → RoomsInStep (touch_in env.now user w o)
      at_room none = all
      at_room (some r) = member (find user r.participants)
        where
          member : (o : Option Arc) → RoomsInStep (touch_member env.now w o)
          member none = all
          member (some a) = all

  telemetry-InStep :
      (user_id room_id : Option String) → RoomsInStep (telemetry user_id room_id packet w)
  unfolding telemetry
  telemetry-InStep none room_id = all
  telemetry-InStep (some user) none = all
  telemetry-InStep (some user) (some id) = all

  by_opcode-InStep : Leaves RoomsInStep (by_opcode decoder env s w packet)
  unfolding by_opcode handle_room_create handle_room_join handle_room_leave
  by_opcode-InStep =
      let test = λ (op : ℕ). packet.op == op in
      if-Leaves RoomsInStep (test 1) _ _ (heartbeat-InStep s.current_room s.user_id) (
        if-Leaves RoomsInStep (test 3) _ _ all (
          if-Leaves RoomsInStep (test 9) _ _ all (
            if-Leaves RoomsInStep (test 10) _ _ (room_created-InStep (decoder.room_create packet.d))
              (if-Leaves RoomsInStep (test 11) _ _
                (with_session-Leaves RoomsInStep (handle_room_join decoder env s w packet)
                  (join_room-InStep env packet.pid s w (room_join_guards decoder s w packet) all))
                (if-Leaves RoomsInStep (test 12) _ _
                  (with_session-Leaves RoomsInStep (handle_room_leave decoder s w packet)
                    (leave_room-InStep packet.pid s w (room_leave_guards decoder s packet) all))
                  (if-Leaves RoomsInStep (test 15) _ _
                    (kept-Leaves RoomsInStep s (handle_publish_tracks decoder s w packet)
                      publish-InStep)
                    (if-Leaves RoomsInStep (test 17) _ _
                      (kept-Leaves RoomsInStep s (handle_mute_update decoder s w packet)
                        mute-InStep)
                      (if-Leaves RoomsInStep (test 20) _ _
                        (kept-Leaves RoomsInStep s (handle_message decoder env s w packet)
                          message-InStep)
                        (if-Leaves RoomsInStep (test 30) _ _
                          (telemetry-InStep s.user_id s.current_room)
                          (if-Leaves RoomsInStep (test 40) _ _
                            (kept-Leaves RoomsInStep s
                              (handle_floor_request decoder env.now s w packet)
                              (handle_floor_request-InStep decoder env.now s w packet all))
                            (if-Leaves RoomsInStep (test 41) _ _
                              (kept-Leaves RoomsInStep s (handle_floor_release decoder s w packet)
                                (handle_floor_release-InStep decoder env.now s w packet all))
                              (if-Leaves RoomsInStep (test 42) _ _
                                (kept-Leaves RoomsInStep s
                                  (handle_floor_ping decoder env.now s w packet)
                                  (handle_floor_ping-InStep decoder env.now s w packet all))
                                all))))))))))))

  pub dispatch-InStep : Leaves RoomsInStep (dispatch decoder env s w packet)
  unfolding dispatch
  dispatch-InStep =
      if-Leaves RoomsInStep (is_response packet) (ok (record s { ack_miss = 0 }, w, none)) _ all (
        if-Leaves RoomsInStep (is_refused s packet)
          (ok (s, w, some (failure packet.op packet.pid 1001 "not authenticated"))) _ all
          by_opcode-InStep)
