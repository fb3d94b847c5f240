-- ===== src/Signaling/Dispatch/Safety.antt =====
-- src/signaling/handler.rs: which packets `dispatch` answers, and what it does for a client that has not
-- identified itself.
use light_livechat.Base.{
  sym, ◌∙◌, ◌≢◌, ℕ_discrete, ℕ, String, ◌≡◌, refl, ◌⊎◌, inl, inr, true, false, Option, none, some,
  [], ◌==◌, ==_iff, Bool-cases, Option-cases, ok,
}
use light_livechat.Signaling.Messages.{Packet, success, failure, Decoder, is_response}
use light_livechat.Signaling.Opcodes.{telemetry_op, heartbeat_op, identify_op}
use light_livechat.Signaling.Json.{json}
use light_livechat.Signaling.World.{Session, World, Env}
use light_livechat.Signaling.Rooms.{handle_identify}
use light_livechat.Signaling.Dispatch.{
  Dispatched, telemetry, heartbeat, by_opcode, is_refused, dispatch, handle_identify,
}
use light_livechat.Signaling.Dispatch.Answers.{Answers, Responds, failure-Answers, if-Responds}
use light_livechat.Signaling.Dispatch.Branches.{
  open_branches, floor_branches, room_branches, track_branches, absurd_reply,
}

unknown_is_refused :
    (s : Session) (packet : Packet)
    → s.user_id ≡ none
    → (packet.op == heartbeat_op) ≡ false
    → (packet.op == identify_op) ≡ false
    → is_refused s packet ≡ true
unknown_is_refused s packet e n m = rw (n, m, e) refl

dispatch-Responds :
    (decoder : Decoder) (env : Env) (s : Session) (w : World) (packet : Packet)
    → Responds packet (dispatch decoder env s w packet)
unfolding dispatch by_opcode
dispatch-Responds decoder env s w packet =
    if-Responds packet (is_response packet) _ _ (λ e. (_, refl, inl e))
      (λ _.
        if-Responds packet (is_refused s packet) _ _
          (λ _. (_, refl, failure-Answers packet.op packet.pid 1001 "not authenticated"))
          (λ allowed. open_branches decoder env s w packet _ (λ n m. elim (Option-cases s.user_id) [
            | inl unknown ↦
                let r = unknown_is_refused s packet unknown n m in absurd_reply packet _ allowed r
            | inr (user, known) ↦ room_branches decoder env s w packet user known _ (
                track_branches decoder env s w packet user known _
                  (floor_branches decoder env s w packet user known))
          ])))

-- What `dispatch` makes of a packet: nothing for an answer; for telemetry nothing, or error 1001 where the
-- client is not known; an answer for all else.
abbrev pub Replied : Session → Packet → Dispatched → Type 0
Replied s packet m =
    (s' : Session) × (w' : World) × (o : Option Packet) × (m ≡ ok (s', w', o))
    × (((is_response packet ≡ true) × (o ≡ none))
        ⊎ ((is_response packet ≡ false)
            × (packet.op ≡ telemetry_op)
            × (user : String) × (s.user_id ≡ some user)
            × (o ≡ none))
        ⊎ ((is_response packet ≡ false)
            × (packet.op ≡ telemetry_op)
            × (s.user_id ≡ none)
            × (o ≡ some (failure packet.op packet.pid 1001 "not authenticated")))
        ⊎ ((is_response packet ≡ false)
            × (packet.op ≢ telemetry_op)
            × (response : Packet) × (o ≡ some response)
            × Answers packet.op packet.pid response))

telemetry-Replied :
    (decoder : Decoder) (env : Env) (s : Session) (w : World) (packet : Packet)
    → is_response packet ≡ false
    → packet.op ≡ telemetry_op
    → Replied s packet (dispatch decoder env s w packet)
unfolding dispatch by_opcode
telemetry-Replied decoder env s w packet request e = elim (Option-cases s.user_id) [
  | inl unknown ↦ (
    s,
    w,
    some (failure packet.op packet.pid 1001 "not authenticated"),
    rw (request, e, unknown) refl,
    inr (inr (inl (request, e, unknown, refl))),
  )
  | inr (user, known) ↦ (
    s,
    telemetry s.user_id s.current_room packet w,
    none,
    rw (request, e, known) refl,
    inr (inl (request, e, user, known, refl)),
  )
]

other-Replied :
    (s : Session) (packet : Packet) (m : Dispatched)
    → is_response packet ≡ false
    → packet.op ≢ telemetry_op
    → Responds packet m
    → Replied s packet m
other-Replied s packet m request other ((s', w', some response), e, h) =
    (s', w', some response, e, inr (inr (inr (request, other, response, refl, h))))
other-Replied s packet m request other ((s', w', none), e, inl answer) =
    let bad : true ≡ false = sym answer ∙ request in cc
other-Replied s packet m request other ((s', w', none), e, inr same) = absurd (other same)

-- No handler panics, and a packet is answered as follows. An answer of the client gets none. Telemetry gets
-- none from a session that has a user, and error 1001 from one that has not. Every other packet gets one
-- answer, with the packet's operation and number.
pub dispatch-Replied :
    (decoder : Decoder) (env : Env) (s : Session) (w : World) (packet : Packet)
    → Replied s packet (dispatch decoder env s w packet)
unfolding dispatch
dispatch-Replied decoder env s w packet = elim (Bool-cases (is_response packet)) [
  | inl answer ↦ (record s { ack_miss = 0 }, w, none, rw answer refl, inl (answer, refl))
  | inr request ↦ elim (ℕ_discrete packet.op telemetry_op) [
    | yes e ↦ telemetry-Replied decoder env s w packet request e
    | no other ↦ other-Replied s packet _ request other (dispatch-Responds decoder env s w packet)
  ]
]

heartbeat-unknown :
    (now : ℕ) (room_id user_id : Option String) (w : World)
    → user_id ≡ none
    → heartbeat now room_id user_id w ≡ w
unfolding heartbeat
heartbeat-unknown now none user_id w e = refl
heartbeat-unknown now (some id) none w e = refl
heartbeat-unknown now (some id) (some user) w e = cc

-- A client that has not identified itself changes nothing that others see and sends nothing to anybody,
-- whatever packet it sends. Its own answers get no answer, and all but heartbeats and identifications
-- are answered with error 1001.
pub dispatch_unidentified :
    (decoder : Decoder) (env : Env) (s : Session) (w : World) (packet : Packet)
    → s.user_id ≡ none
    → (s' : Session) × (o : Option Packet) × (dispatch decoder env s w packet ≡ ok (s', w, o))
      × (((is_response packet ≡ true) × (o ≡ none))
          ⊎ ((is_response packet ≡ false) × (packet.op ≡ heartbeat_op) × (s' ≡ s))
          ⊎ ((is_response packet ≡ false) × (packet.op ≡ identify_op))
          ⊎ ((is_response packet ≡ false)
              × (s' ≡ s)
              × (o ≡ some (failure packet.op packet.pid 1001 "not authenticated"))))
unfolding dispatch by_opcode
dispatch_unidentified decoder env s w packet unknown = elim (Bool-cases (is_response packet)) [
  | inl answer ↦ (record s { ack_miss = 0 }, none, rw answer refl, inl (answer, refl))
  | inr request ↦ elim (Bool-cases (packet.op == heartbeat_op)) [
    | inl beat ↦ (
      s,
      some (success heartbeat_op packet.pid (json [])),
      rw (request, beat, heartbeat-unknown env.now s.current_room s.user_id w unknown) refl,
      inr (inl (request, (==_iff packet.op heartbeat_op).0 beat, refl)),
    )
    | inr no_beat ↦ elim (Bool-cases (packet.op == identify_op)) [
      | inl identify ↦
          let (s', response) = handle_identify decoder env s packet in
          (
            s',
            some response,
            rw (request, no_beat, identify) refl,
            inr (inr (inl (request, (==_iff packet.op identify_op).0 identify))),
          )
      | inr other ↦ (
        s,
        some (failure packet.op packet.pid 1001 "not authenticated"),
        rw (request, unknown_is_refused s packet unknown no_beat other) refl,
        inr (inr (inr (request, refl, refl))),
      )
    ]
  ]
]
