-- ===== src/Signaling/Floor/Rewriters.antt =====
-- src/signaling/handler.rs: the rewriters of a room follow its floor through every floor handler.
use light_livechat.Base.{
  ℕ, String, ◌≡◌, refl, sym, ap, ◌∙◌, inl, inr, true, some, arith, Bool-cases, Option-cases,
  Outcome, ok, panic, out_of_fuel,
}
use light_livechat.Base.TextMap.{find}
use light_livechat.Room.Floor.{FloorState, idle, current_speaker, request, ping_floor}
use light_livechat.Room.Floor.Outcomes.{
  request_cases, release_cases, current_speaker-ping, leave_cases,
}
use light_livechat.Room.Rewriter.{PttRewriter, switch_speaker, clear_speaker}
use light_livechat.Room.Members.{Room}
use light_livechat.Room.Hub.{get_room}
use light_livechat.Room.Hub.Keeping.{AllRooms, put-AllRooms, reput-AllRooms, SameMedia}
use light_livechat.Signaling.Messages.{Packet, Decoder}
use light_livechat.Signaling.World.{
  Session, World, put_room, is_ptt, Guarded, proceed, refuse, crash, handled,
}
use light_livechat.Signaling.Opcodes.{floor_request_op, floor_release_op, floor_ping_op}
use light_livechat.Signaling.Floor.{
  switch_to, clear_rewriters, after_grant, after_release, floor_request_guards, request_floor,
  handle_floor_request, floor_release_guards, release_floor, handle_floor_release,
  floor_ping_guards, ping_room, handle_floor_ping, left_floor, in_ptt_room, leave_floor, floor_room,
}

-- Both rewriters serve the user who holds the floor, and none if it is free.
abbrev pub IsInStep : Room → Type 0
IsInStep r =
    (r.audio_rewriter.speaker ≡ current_speaker r.floor)
    × (r.video_rewriter.speaker ≡ current_speaker r.floor)

pub SameMedia-IsInStep : (r s : Room) → SameMedia r s → IsInStep r → IsInStep s
SameMedia-IsInStep r s (f, a, v, _) (p, q) = (
  ap (λ (x : PttRewriter). x.speaker) a ∙ p ∙ ap current_speaker (sym f),
  ap (λ (x : PttRewriter). x.speaker) v ∙ q ∙ ap current_speaker (sym f),
)

-- What a handler leaves behind, if it returns.
abbrev pub After {ℓ} : {B : Type 0} → (World → Type ℓ) → Outcome (World × B) → Type ℓ
After P (ok (w, _)) = P w
After P panic = Unit
After P out_of_fuel = Unit

pub handled-After :
    {A : Type 0} (P : World → Type 0) (op pid : ℕ) (w : World) (g : Guarded A)
    (f : A → World × Packet)
    → P w
    → ((x : A) → g ≡ proceed x → P (f x).0)
    → After P (handled op pid w g f)
handled-After P op pid w (proceed x) f p k = k x refl
handled-After P op pid w (refuse code msg) f p k = p
handled-After P op pid w crash f p k = tt

-- The guards of the floor handlers let through a user of the session and a room of the hub.
pub floor_room_lem :
    (room_id : String) (s : Session) (w : World) (user id : String) (r : Room)
    → floor_room room_id s w ≡ proceed (user, id, r)
    → (s.user_id ≡ some user) × (id ≡ room_id) × (find id w.hub.rooms ≡ some r)
unfolding get_room
floor_room_lem room_id s w user id r e = ground arith

pub floor_request_guards_lem :
    (decoder : Decoder) (s : Session) (w : World) (packet : Packet) (user id : String) (r : Room)
    → floor_request_guards decoder s w packet ≡ proceed (user, id, r)
    → (s.user_id ≡ some user) × (find id w.hub.rooms ≡ some r) × (is_ptt r.mode ≡ true)
unfolding floor_request_guards get_room
floor_request_guards_lem decoder s w packet user id r e = ground arith

pub floor_release_guards_lem :
    (decoder : Decoder) (s : Session) (w : World) (packet : Packet) (user id : String) (r : Room)
    → floor_release_guards decoder s w packet ≡ proceed (user, id, r)
    → (s.user_id ≡ some user) × (find id w.hub.rooms ≡ some r) × (is_ptt r.mode ≡ true)
unfolding floor_release_guards get_room
floor_release_guards_lem decoder s w packet user id r e = ground arith

pub floor_ping_guards_lem :
    (decoder : Decoder) (s : Session) (w : World) (packet : Packet) (user id : String) (r : Room)
    → floor_ping_guards decoder s w packet ≡ proceed (user, id, r)
    → (s.user_id ≡ some user) × (find id w.hub.rooms ≡ some r)
unfolding floor_ping_guards get_room
floor_ping_guards_lem decoder s w packet user id r e = ground arith

-- A grant turns both rewriters to the user who holds the floor then.
switch_to-IsInStep :
    (user : String) (floor : FloorState) (r : Room)
    → current_speaker floor ≡ some user
    → IsInStep (switch_to user (record r { floor = floor }))
unfolding switch_speaker
switch_to-IsInStep user floor r e = (sym e, sym e)

clear_rewriters-IsInStep : (r : Room) → IsInStep (clear_rewriters (record r { floor = idle }))
unfolding clear_speaker current_speaker
clear_rewriters-IsInStep r = (refl, refl)

module _ (w : World) (id : String) (r : Room) (all : AllRooms IsInStep w.hub.rooms)
    (there : find id w.hub.rooms ≡ some r) where
  kept_room :
      (floor : FloorState)
      → current_speaker floor ≡ current_speaker r.floor
      → AllRooms IsInStep (put_room id (record r { floor = floor }) w).hub.rooms
  kept_room floor e =
      let (a, v) = all id r there in
      put-AllRooms IsInStep id (record r { floor = floor }) w.hub.rooms all (a ∙ sym e, v ∙ sym e)

  request_floor-InStep :
      (pid now : ℕ) (user : String)
      → AllRooms IsInStep (request_floor pid now w (user, id, r)).0.hub.rooms
  unfolding request_floor after_grant
  request_floor-InStep pid now user = elim (request_cases user now r.floor) [
    | inl (act, holder, _) ↦
        let floor = (request user now r.floor).0 in
        let r1 = record r { floor = floor } in
        rw act (
          reput-AllRooms IsInStep id r1 (switch_to user r1) w.hub.rooms all
            (switch_to-IsInStep user floor r holder))
    | inr (v, _, _, e) ↦ rw e (kept_room r.floor refl)
  ]

  release_floor-InStep :
      (pid : ℕ) (user : String) → AllRooms IsInStep (release_floor pid w (user, id, r)).0.hub.rooms
  unfolding release_floor after_release
  release_floor-InStep pid user = elim (release_cases user r.floor) [
    | inl e ↦ rw e (
        reput-AllRooms IsInStep id (record r { floor = idle })
          (clear_rewriters (record r { floor = idle })) w.hub.rooms all
          (clear_rewriters-IsInStep r))
    | inr (v, _, _, e) ↦ rw e (kept_room r.floor refl)
  ]

  ping_room-InStep :
      (pid now : ℕ) (user : String)
      → AllRooms IsInStep (ping_room pid now w (user, id, r)).0.hub.rooms
  unfolding ping_room
  ping_room-InStep pid now user =
      kept_room (ping_floor user now r.floor).0 (current_speaker-ping user now r.floor)

  in_ptt_room-InStep :
      (user : String) → AllRooms IsInStep (in_ptt_room id user w (some r)).hub.rooms
  unfolding in_ptt_room left_floor
  in_ptt_room-InStep user = elim (Bool-cases (is_ptt r.mode)) [
    | inl yes_ptt ↦ elim (leave_cases user r.floor) [
      | inl (e, _) ↦
          rw (yes_ptt, e)
            (put-AllRooms IsInStep id (clear_rewriters (record r { floor = idle })) w.hub.rooms all
              (clear_rewriters-IsInStep r))
      | inr (e, _) ↦ rw (yes_ptt, e) all
    ]
    | inr plain ↦ rw plain all
  ]

abbrev pub RoomsInStep : World → Type 0
RoomsInStep w = AllRooms IsInStep w.hub.rooms

pub leave_floor-InStep :
    (id user : String) (w : World) → RoomsInStep w → RoomsInStep (leave_floor id user w)
unfolding leave_floor
leave_floor-InStep id user w all = elim (Option-cases (find id w.hub.rooms)) [
  | inl e ↦ rw (leave_floor, e) all
  | inr (r, e) ↦ rw (leave_floor, e) (in_ptt_room-InStep w id r all e user)
]

module _ (decoder : Decoder) (now : ℕ) (s : Session) (w : World) (packet : Packet)
    (all : RoomsInStep w) where
  pub handle_floor_request-InStep : After RoomsInStep (handle_floor_request decoder now s w packet)
  unfolding handle_floor_request
  handle_floor_request-InStep =
      handled-After RoomsInStep floor_request_op packet.pid w
        (floor_request_guards decoder s w packet) (request_floor packet.pid now w) all
        (λ (user, id, r) e.
          let (_, there, _) = floor_request_guards_lem decoder s w packet user id r e in
          request_floor-InStep w id r all there packet.pid now user)

  pub handle_floor_release-InStep : After RoomsInStep (handle_floor_release decoder s w packet)
  unfolding handle_floor_release
  handle_floor_release-InStep =
      handled-After RoomsInStep floor_release_op packet.pid w
        (floor_release_guards decoder s w packet) (release_floor packet.pid w) all
        (λ (user, id, r) e.
          let (_, there, _) = floor_release_guards_lem decoder s w packet user id r e in
          release_floor-InStep w id r all there packet.pid user)

  pub handle_floor_ping-InStep : After RoomsInStep (handle_floor_ping decoder now s w packet)
  unfolding handle_floor_ping
  handle_floor_ping-InStep =
      handled-After RoomsInStep floor_ping_op packet.pid w (floor_ping_guards decoder s w packet)
        (ping_room packet.pid now w) all
        (λ (user, id, r) e.
          let (_, there) = floor_ping_guards_lem decoder s w packet user id r e in
          ping_room-InStep w id r all there packet.pid now user)
