-- ===== src/Signaling/Floor/Requests.antt =====
-- src/signaling/handler.rs: `handle_floor_request` on every branch.
use light_livechat.Base.{
  ℕ, String, ◌≡◌, refl, sym, ap, ◌∙◌, ◌≢◌, ◌⊎◌, inl, inr, true, false, none, some, List, [], ◌∷◌,
  ◌++◌, arith, if◌then◌else◌, Bool-cases, Option-cases, string_discrete, ok,
}
use light_livechat.Base.TextMap.{find, put, find-put_self, find-put_ne}
use light_livechat.Base.Texts.{joined}
use light_livechat.Room.Floor.{FloorState, current_speaker, request}
use light_livechat.Room.Floor.Outcomes.{request_cases}
use light_livechat.Room.Rewriter.{switch_speaker}
use light_livechat.Room.Members.{Room, get_participant}
use light_livechat.Room.Hub.{get_room}
use light_livechat.Signaling.Json.{truth, text, json}
use light_livechat.Signaling.Messages.{Packet, success, failure, Decoder, FloorRequestMsg}
use light_livechat.Signaling.Opcodes.{floor_request_op}
use light_livechat.Signaling.World.{Session, Output, refuse, proceed, World, is_ptt}
use light_livechat.Signaling.Wire.{broadcast_to_others}
use light_livechat.Signaling.Floor.{
  floor_taken, speaker_plis, switch_to, after_grant, apply_floor_action, request_floor,
  floor_request_guards, handle_floor_request,
}

-- The user holds the floor of the room, both rewriters are turned to the user, the others are told, and then
-- the user's camera is asked for key frames. The other rooms are as before, and so are the participants.
abbrev pub IsGranted : (now : ℕ) (user room_id : String) (r : Room) (w w' : World) → Type 0
IsGranted now user room_id r w w' =
    (f : FloorState) × (current_speaker f ≡ some user)
    × (find room_id w'.hub.rooms
        ≡ some (record r {
          floor = f;
          audio_rewriter = switch_speaker user r.audio_rewriter;
          video_rewriter = switch_speaker user r.video_rewriter;
        }))
    × ((other : String) → room_id ≢ other → find other w'.hub.rooms ≡ find other w.hub.rooms)
    × (w'.heap ≡ w.heap)
    × (w'.sent
        ≡ (w.sent ++ broadcast_to_others (record r { floor = f }) user (floor_taken r.id user))
          ++ speaker_plis w.heap (get_participant user r))

-- Nothing has changed, and nothing has been sent.
abbrev pub IsUntouched : (w w' : World) → Type 0
IsUntouched w w' =
    ((id : String) → find id w'.hub.rooms ≡ find id w.hub.rooms)
    × (w'.heap ≡ w.heap)
    × (w'.sent ≡ w.sent)

abbrev pub granted_answer : (pid : ℕ) → (user : String) → Packet
granted_answer pid user =
    success floor_request_op pid (json (("granted", truth true) ∷ ("speaker", text user) ∷ []))

abbrev pub busy_answer : (pid : ℕ) → (speaker : String) → Packet
busy_answer pid speaker =
    failure floor_request_op pid 2010 (joined ("channel busy" ∷ " (speaker=" ∷ speaker ∷ ")" ∷ []))

append_nothing : (l : List Output) → l ++ [] ≡ l
append_nothing [] = refl
append_nothing (x ∷ l) = ap (λ (t : List Output). x ∷ t) (append_nothing l)

module _ (now pid : ℕ) (w : World) (user id : String) (r : Room)
    (there : find id w.hub.rooms ≡ some r) where
  same_rooms : (other : String) → find other (put id r w.hub.rooms) ≡ find other w.hub.rooms
  same_rooms other = elim (string_discrete id other) [
    | yes same ↦
        find-put_self id other w.hub.rooms r same
        ∙ sym there
        ∙ ap (λ (i : String). find i w.hub.rooms) same
    | no apart ↦ find-put_ne id other w.hub.rooms r apart
  ]

  request_floor_cases :
      (((v : String) → current_speaker r.floor ≡ some v → v ≡ user)
        × ((request_floor pid now w (user, id, r)).1 ≡ granted_answer pid user)
        × IsGranted now user id r w (request_floor pid now w (user, id, r)).0)
      ⊎ ((v : String) × (current_speaker r.floor ≡ some v)
          × (v ≢ user)
          × ((request_floor pid now w (user, id, r)).1 ≡ busy_answer pid v)
          × IsUntouched w (request_floor pid now w (user, id, r)).0)
  unfolding request_floor after_grant apply_floor_action
  request_floor_cases = elim (request_cases user now r.floor) [
    | inl (act, holder, free) ↦
        let f = (request user now r.floor).0 in
        let r1 = record r { floor = f } in
        inl (
          free,
          rw act refl,
          (
            f,
            holder,
            rw act (find-put_self id id (put id r1 w.hub.rooms) (switch_to user r1) refl),
            (λ other apart. rw act (
                find-put_ne id other (put id r1 w.hub.rooms) (switch_to user r1) apart
                ∙ find-put_ne id other w.hub.rooms r1 apart)),
            rw act refl,
            rw act refl,
          ),
        )
    | inr (v, other, holds, e) ↦
        inr (v, holds, other, rw e refl, (rw e same_rooms, rw e refl, rw e (append_nothing w.sent)))
  ]

-- The answer to a floor request, on every branch: a payload that is not one, an unknown room, a room without
-- a floor, a floor that somebody else holds, and a floor that is free or the user's own.
abbrev pub Answered :
    Decoder → (now : ℕ) → (packet : Packet) → (user : String) → (w w' : World) → Packet → Type 0
Answered decoder now packet user w w' answer =
    ((decoder.floor_request packet.d ≡ none)
      × (w' ≡ w)
      × (answer ≡ failure floor_request_op packet.pid 3002 "invalid payload"))
    ⊎ ((req : FloorRequestMsg) × (decoder.floor_request packet.d ≡ some req)
        × (((find req.room_id w.hub.rooms ≡ none)
              × (w' ≡ w)
              × (answer ≡ failure floor_request_op packet.pid 2001 "room not found"))
            ⊎ ((r : Room) × (find req.room_id w.hub.rooms ≡ some r)
                × (((is_ptt r.mode ≡ false)
                      × (w' ≡ w)
                      × (answer ≡ failure floor_request_op packet.pid 2020 "not a PTT room"))
                    ⊎ ((is_ptt r.mode ≡ true)
                        × ((((v : String) → current_speaker r.floor ≡ some v → v ≡ user)
                              × (answer ≡ granted_answer packet.pid user)
                              × IsGranted now user req.room_id r w w')
                            ⊎ ((v : String) × (current_speaker r.floor ≡ some v)
                                × (v ≢ user)
                                × (answer ≡ busy_answer packet.pid v)
                                × IsUntouched w w')))))))

module _ (decoder : Decoder) (s : Session) (w : World) (packet : Packet) (user : String)
    (req : FloorRequestMsg) (known : s.user_id ≡ some user)
    (good : decoder.floor_request packet.d ≡ some req) where
  guards_without_room :
      find req.room_id w.hub.rooms ≡ none
      → floor_request_guards decoder s w packet ≡ refuse 2001 "room not found"
  unfolding floor_request_guards get_room
  guards_without_room gone = ground arith

  guards_in_room :
      (r : Room)
      → find req.room_id w.hub.rooms ≡ some r
      → floor_request_guards decoder s w packet
        ≡ (if is_ptt r.mode then proceed (user, req.room_id, r) else refuse 2020 "not a PTT room")
  unfolding floor_request_guards get_room
  guards_in_room r there = ground arith

guards_of_none :
    (decoder : Decoder) (s : Session) (w : World) (packet : Packet)
    → decoder.floor_request packet.d ≡ none
    → floor_request_guards decoder s w packet ≡ refuse 3002 "invalid payload"
unfolding floor_request_guards
guards_of_none decoder s w packet bad = rw bad refl

-- The request of an identified user for the floor is answered on every branch. In a push-to-talk
-- room the user gets the floor exactly when nobody else holds it; then both rewriters are turned
-- to the user, the others are told, and the user's camera is asked for key frames. In every other
-- case nothing changes and nothing is sent: the payload may be invalid, the room unknown or no
-- push-to-talk room, or the floor may be taken, and the answer says which.
pub handle_floor_request_exact :
    (decoder : Decoder) (now : ℕ) (s : Session) (w : World) (packet : Packet) (user : String)
    → s.user_id ≡ some user
    → (w' : World) × (answer : Packet) × (handle_floor_request decoder now s w packet
        ≡ ok (w', answer))
      × Answered decoder now packet user w w' answer
unfolding handle_floor_request
handle_floor_request_exact decoder now s w packet user known =
    elim (Option-cases (decoder.floor_request packet.d)) [
      | inl bad ↦ (w, _, rw (guards_of_none decoder s w packet bad) refl, inl (bad, refl, refl))
      | inr (req, good) ↦ elim (Option-cases (find req.room_id w.hub.rooms)) [
        | inl gone ↦ (
          w,
          _,
          rw (guards_without_room decoder s w packet user req known good gone) refl,
          inr (req, good, inl (gone, refl, refl)),
        )
        | inr (r, there) ↦ elim (Bool-cases (is_ptt r.mode)) [
          | inr plain ↦ (
            w,
            _,
            rw (guards_in_room decoder s w packet user req known good r there, plain) refl,
            inr (req, good, inr (r, there, inl (plain, refl, refl))),
          )
          | inl yes_ptt ↦
              let (w', answer) = request_floor packet.pid now w (user, req.room_id, r) in
              (
                w',
                answer,
                rw (guards_in_room decoder s w packet user req known good r there, yes_ptt) refl,
                inr (
                  req,
                  good,
                  inr (
                    r,
                    there,
                    inr (yes_ptt, request_floor_cases now packet.pid w user req.room_id r there),
                  ),
                ),
              )
        ]
      ]
    ]
