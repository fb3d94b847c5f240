-- ===== src/Signaling/Dispatch/Answers.antt =====
-- src/signaling/handler.rs: every handler answers with the operation and the number of its request, and no
-- handler of an identified client panics.
use light_livechat.Base.{
  ℕ, String, ◌≡◌, refl, sym, subst, ◌≢◌, ◌⊎◌, inl, inr, Bool, true, false, Option, none, some,
  arith, ◌==◌, if◌then◌else◌, ==_iff, Outcome, ok,
}
use light_livechat.Errors.{LightResult}
use light_livechat.Room.Members.{Arc, Room}
use light_livechat.Room.Hub.{get_room}
use light_livechat.Signaling.Messages.{
  Packet, success, failure, Decoder, is_response, IdentifyRequest, RoomCreateRequest,
}
use light_livechat.Signaling.Opcodes.{
  room_create_op, room_join_op, room_leave_op, floor_ping_op, telemetry_op, identify_op,
}
use light_livechat.Signaling.Json.{Json}
use light_livechat.Room.Floor.{
  FloorAction, granted, denied, released, revoked, ping_ok, ping_denied, not_ptt_room,
}
use light_livechat.Room.Hub.{RoomHub, hub_add_participant, hub_remove_participant}
use light_livechat.Signaling.World.{Session, World, Env, Guarded, proceed, refuse, crash, handled}
use light_livechat.Signaling.Floor.{
  apply_floor_action, ping_answer, leave_floor, floor_request_guards, floor_release_guards,
  floor_ping_guards,
}
use light_livechat.Signaling.Rooms.{
  identified, room_created, admitted, allocate, joiner, join_room, room_join_guards,
}
use light_livechat.Signaling.Leaving.{departed, leave_room, room_leave_guards, message_guards}
use light_livechat.Signaling.Tracks.{publish_tracks_guards, mute_update_guards}
use light_livechat.Signaling.Dispatch.{Dispatched, kept, with_session}

-- An outcome that is there and has a property.
abbrev pub Yields {ℓ κ} : {A : Type ℓ} → (A → Type κ) → Outcome A → Type (ℓ ⊔ κ)
Yields {A = A} P m = (a : A) × (m ≡ ok a) × P a

-- The answer to a request carries the request's operation and number.
abbrev pub Answers : (op pid : ℕ) → Packet → Type 0
Answers op pid p = (p.op ≡ op) × (p.pid ≡ pid) × (is_response p ≡ true)

-- Only answers and telemetry may be left without one.
abbrev pub Replies : Packet → Option Packet → Type 0
Replies packet none = (is_response packet ≡ true) ⊎ (packet.op ≡ telemetry_op)
Replies packet (some response) = Answers packet.op packet.pid response

abbrev pub Responds : Packet → Dispatched → Type 0
Responds packet = Yields (λ (t : Session × World × Option Packet). Replies packet t.2)

pub success-Answers : (op pid : ℕ) (d : Json) → Answers op pid (success op pid d)
unfolding is_response
success-Answers op pid d = (refl, refl, refl)

pub failure-Answers : (op pid code : ℕ) (msg : String) → Answers op pid (failure op pid code msg)
unfolding is_response
failure-Answers op pid code msg = (refl, refl, refl)

kept-Responds :
    (s : Session) (packet : Packet) (m : Outcome (World × Packet))
    → Yields (λ (t : World × Packet). Answers packet.op packet.pid t.1) m
    → Responds packet (kept s m)
kept-Responds s packet m ((w, response), e, h) = ((s, w, some response), rw e refl, h)

with_session-Responds :
    (packet : Packet) (m : Outcome (Session × World × Packet))
    → Yields (λ (t : Session × World × Packet). Answers packet.op packet.pid t.2) m
    → Responds packet (with_session m)
with_session-Responds packet m ((s, w, response), e, h) = ((s, w, some response), rw e refl, h)

pub handled-Answers :
    {A : Type 0} (op pid : ℕ) (w : World) (g : Guarded A) (f : A → World × Packet)
    → g ≢ crash
    → ((x : A) → Answers op pid (f x).1)
    → Yields (λ (t : World × Packet). Answers op pid t.1) (handled op pid w g f)
handled-Answers op pid w (proceed x) f h k = (f x, refl, k x)
handled-Answers op pid w (refuse code msg) f h k =
    ((w, failure op pid code msg), refl, failure-Answers op pid code msg)
handled-Answers op pid w crash f h k = absurd (h refl)

admitted-Answers :
    (env : Env) (pid : ℕ) (s : Session) (w : World) (user id : String) (r : Room)
    (x : LightResult RoomHub)
    → Answers room_join_op pid (admitted env pid s w user id r x).2
unfolding admitted
admitted-Answers env pid s w user id r (inl e) = failure-Answers room_join_op pid _ _
admitted-Answers env pid s w user id r (inr hub) = success-Answers room_join_op pid _

pub join_room-Answers :
    (env : Env) (pid : ℕ) (s : Session) (w : World) (g : Guarded (String × String × Room))
    → g ≢ crash
    → Yields
        (λ (t : Session × World × Packet). Answers room_join_op pid t.2)
        (join_room env pid s w g)
unfolding join_room
join_room-Answers env pid s w (proceed (user, id, r)) h =
    let w1 = allocate (joiner env user id) w in
    (
      _,
      refl,
      admitted-Answers env pid s w1 user id r (hub_add_participant w1.heap id w.next_arc w1.hub),
    )
join_room-Answers env pid s w (refuse code msg) h =
    (_, refl, failure-Answers room_join_op pid code msg)
join_room-Answers env pid s w crash h = absurd (h refl)

departed-Answers :
    (pid : ℕ) (s : Session) (w : World) (user id : String) (x : LightResult (RoomHub × Arc))
    → Answers room_leave_op pid (departed pid s w user id x).2
unfolding departed
departed-Answers pid s w user id (inl e) = failure-Answers room_leave_op pid _ _
departed-Answers pid s w user id (inr (hub, a)) = success-Answers room_leave_op pid _

pub leave_room-Answers :
    (pid : ℕ) (s : Session) (w : World) (g : Guarded (String × String))
    → g ≢ crash
    → Yields
        (λ (t : Session × World × Packet). Answers room_leave_op pid t.2)
        (leave_room pid s w g)
unfolding leave_room
leave_room-Answers pid s w (proceed (user, id)) h =
    let w1 = leave_floor id user w in
    (_, refl, departed-Answers pid s w1 user id (hub_remove_participant w1.heap id user w1.hub))
leave_room-Answers pid s w (refuse code msg) h =
    (_, refl, failure-Answers room_leave_op pid code msg)
leave_room-Answers pid s w crash h = absurd (h refl)

pub apply-Answers :
    (op pid : ℕ) (action : FloorAction) (r : Room) (user : String)
    → Answers op pid (apply_floor_action op pid action r user).1
unfolding apply_floor_action
apply-Answers op pid (granted speaker) r user = success-Answers op pid _
apply-Answers op pid (denied reason speaker) r user = failure-Answers op pid _ _
apply-Answers op pid (released speaker) r user = success-Answers op pid _
apply-Answers op pid (revoked speaker cause) r user = success-Answers op pid _
apply-Answers op pid ping_ok r user = success-Answers op pid _
apply-Answers op pid ping_denied r user = success-Answers op pid _
apply-Answers op pid not_ptt_room r user = success-Answers op pid _

pub ping_answer-Answers :
    (pid : ℕ) (action : FloorAction) → Answers floor_ping_op pid (ping_answer pid action)
unfolding ping_answer
ping_answer-Answers pid ping_ok = success-Answers floor_ping_op pid _
ping_answer-Answers pid (granted speaker) = failure-Answers floor_ping_op pid _ _
ping_answer-Answers pid (denied reason speaker) = failure-Answers floor_ping_op pid _ _
ping_answer-Answers pid (released speaker) = failure-Answers floor_ping_op pid _ _
ping_answer-Answers pid (revoked speaker cause) = failure-Answers floor_ping_op pid _ _
ping_answer-Answers pid ping_denied = failure-Answers floor_ping_op pid _ _
ping_answer-Answers pid not_ptt_room = failure-Answers floor_ping_op pid _ _

module _ (decoder : Decoder) (env : Env) (s : Session) (w : World) (packet : Packet) (user : String)
    (known : s.user_id ≡ some user) where
  pub join_guards : room_join_guards decoder s w packet ≢ crash
  unfolding room_join_guards get_room
  join_guards e = ground arith

  pub leave_guards : room_leave_guards decoder s packet ≢ crash
  unfolding room_leave_guards
  leave_guards e = ground arith

  pub publish_guards : publish_tracks_guards decoder s w packet ≢ crash
  unfolding publish_tracks_guards get_room
  publish_guards e = ground arith

  pub mute_guards : mute_update_guards decoder s w packet ≢ crash
  unfolding mute_update_guards get_room
  mute_guards e = ground arith

  pub relay_guards : message_guards decoder s packet ≢ crash
  unfolding message_guards
  relay_guards e = ground arith

  pub request_guards : floor_request_guards decoder s w packet ≢ crash
  unfolding floor_request_guards get_room
  request_guards e = ground arith

  pub release_guards : floor_release_guards decoder s w packet ≢ crash
  unfolding floor_release_guards get_room
  release_guards e = ground arith

  pub ping_guards : floor_ping_guards decoder s w packet ≢ crash
  unfolding floor_ping_guards get_room
  ping_guards e = ground arith

  -- A branch that is taken at one operation, by the handlers that keep the session, and by the others.
  pub at_op :
      (op : ℕ) (m : Outcome (World × Packet))
      → (packet.op == op) ≡ true
      → Yields (λ (t : World × Packet). Answers op packet.pid t.1) m
      → Responds packet (kept s m)
  at_op op m e h = kept-Responds s packet m (
      subst (λ (o : ℕ). Yields (λ (t : World × Packet). Answers o packet.pid t.1) m)
        (sym ((==_iff packet.op op).0 e)) h)

  pub changed_at :
      (op : ℕ) (m : Outcome (Session × World × Packet))
      → (packet.op == op) ≡ true
      → Yields (λ (t : Session × World × Packet). Answers op packet.pid t.2) m
      → Responds packet (with_session m)
  changed_at op m e h = with_session-Responds packet m (
      subst (λ (o : ℕ). Yields (λ (t : Session × World × Packet). Answers o packet.pid t.2) m)
        (sym ((==_iff packet.op op).0 e)) h)

pub if-Responds :
    (packet : Packet) (b : Bool) (m k : Dispatched)
    → (b ≡ true → Responds packet m)
    → (b ≡ false → Responds packet k)
    → Responds packet (if b then m else k)
if-Responds packet true m k h g = h refl
if-Responds packet false m k h g = g refl

pub answered_at :
    (op : ℕ) (s : Session) (w : World) (packet response : Packet)
    → (packet.op == op) ≡ true
    → Answers op packet.pid response
    → Responds packet (ok (s, w, some response))
answered_at op s w packet response e h =
    (_, refl, subst (λ (o : ℕ). Answers o packet.pid response) (sym ((==_iff packet.op op).0 e)) h)

pub identified-Answers :
    (env : Env) (packet : Packet) (s : Session) (x : Option IdentifyRequest)
    → Answers identify_op packet.pid (identified env packet s x).1
identified-Answers env packet s none = failure-Answers identify_op packet.pid _ _
identified-Answers env packet s (some req) = success-Answers identify_op packet.pid _

pub room_created-Answers :
    (env : Env) (packet : Packet) (w : World) (x : Option RoomCreateRequest)
    → Answers room_create_op packet.pid (room_created env packet w x).1
room_created-Answers env packet w none = failure-Answers room_create_op packet.pid _ _
room_created-Answers env packet w (some req) = success-Answers room_create_op packet.pid _
