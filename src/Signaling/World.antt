-- ===== src/Signaling/World.antt =====
-- The state that the handlers of src/signaling/handler.rs and the tasks of src/lib.rs act on, the
-- messages that they send, and the early returns of a handler.
use light_livechat.Base.{
  ℕ, String, Option, none, some, List, ◌++◌, inl, inr, Bool, true, false, Outcome, ok, panic,
}
use light_livechat.Base.TextMap.{put}
use light_livechat.Config.{RoomMode, conference, ptt, BweMode}
use light_livechat.Errors.{LightResult}
use light_livechat.Room.Participant.{Participant, SocketAddr}
use light_livechat.Room.Members.{Arc, Heap, Room, update}
use light_livechat.Room.Hub.{RoomHub}
use light_livechat.Signaling.Json.{Json}
use light_livechat.Signaling.Messages.{Packet, failure}

-- `Session`; its channel `ws_tx` is the connection itself.
pub record Session : Type 0 where
  pub user_id : Option String
  pub current_room : Option String
  pub pub_ufrag : Option String
  pub sub_ufrag : Option String
  pub server_pid : ℕ  -- u64
  pub ack_miss : ℕ  -- u64

abbrev pub new_session : Session
new_session = record {
  user_id = none;
  current_room = none;
  pub_ufrag = none;
  sub_ufrag = none;
  server_pid = 1;
  ack_miss = 0;
}

abbrev some_text : Option String → Bool
some_text none = false
some_text (some _) = true

abbrev pub is_authenticated : Session → Bool
is_authenticated s = some_text s.user_id

-- What the server sends: a packet on the channel of a participant, a text to the administrators, or
-- an RTCP packet that goes to an address encrypted by the participant's publish session (the package
-- may refuse it), some time after the handler.
pub data Output : Type 0 where
  to_user : (a : Arc) (packet : Packet) → Output
  to_admin : Json → Output
  rtcp_to : (after_ms : ℕ) (a : Arc) (addr : SocketAddr) (plaintext : List ℕ) → Output

-- The shared state: the hub and the participants it refers to, the next free address, and what has
-- been sent, in order.
pub record World : Type 0 where
  pub heap : Heap
  pub hub : RoomHub
  pub next_arc : ℕ
  pub sent : List Output

abbrev pub emit : List Output → World → World
emit outputs w = record w { sent = w.sent ++ outputs }

-- The clock, the random values and the settings that a handler reads. `pub_ice` and `sub_ice` are the
-- texts that `IceCredentials::new` draws, ufrag and password.
pub record Env : Type 0 where
  pub now : ℕ
  pub rand_u16 : ℕ
  pub uuid : String
  pub audio_ssrc : ℕ
  pub video_ssrc : ℕ
  pub pub_ufrag : String
  pub pub_pwd : String
  pub sub_ufrag : String
  pub sub_pwd : String
  pub public_ip : String
  pub udp_port : ℕ
  pub fingerprint : String
  pub bwe_mode : BweMode
  pub remb_bitrate : ℕ

-- A room is shared, so a handler that changes it changes the one in the hub.
abbrev pub put_room : (room_id : String) → Room → World → World
put_room room_id r w = record w { hub = record w.hub { rooms = put room_id r w.hub.rooms } }

abbrev pub put_participant : Arc → Participant → World → World
put_participant a p w = record w { heap = update a p w.heap }

abbrev pub is_ptt : RoomMode → Bool
is_ptt conference = false
is_ptt ptt = true

-- The tests at the start of a handler: it goes on, answers with an error, or panics in `unwrap`.
pub data Guarded {ℓ} (A : Type ℓ) : Type ℓ where
  proceed : A → Guarded A
  refuse : (code : ℕ) (msg : String) → Guarded A
  crash : Guarded A

infixl 5 ◌>>=◌ ◌>>◌
abbrev pub ◌>>=◌ {ℓ κ} : {A : Type ℓ} {B : Type κ} → Guarded A → (A → Guarded B) → Guarded B
proceed a >>= f = f a
refuse code msg >>= f = refuse code msg
crash >>= f = crash

abbrev pub ◌>>◌ {ℓ} : {B : Type ℓ} → Guarded (Unit {0}) → Guarded B → Guarded B
m >> k = m >>= λ _. k

abbrev pub require {ℓ} : {A : Type ℓ} → (code : ℕ) (msg : String) → Option A → Guarded A
require code msg none = refuse code msg
require code msg (some a) = proceed a

-- `Err` becomes the given answer.
abbrev pub expect {ℓ} : {A : Type ℓ} → (code : ℕ) (msg : String) → LightResult A → Guarded A
expect code msg (inl _) = refuse code msg
expect code msg (inr a) = proceed a

abbrev pub unwrap {ℓ} : {A : Type ℓ} → Option A → Guarded A
unwrap none = crash
unwrap (some a) = proceed a

abbrev pub check : (code : ℕ) (msg : String) → Bool → Guarded (Unit {0})
check code msg true = proceed tt
check code msg false = refuse code msg

-- A handler: the tests, then the rest. A refused request changes nothing.
abbrev pub handled :
    {A : Type 0}
    → (op pid : ℕ) → World
    → Guarded A
    → (A → World × Packet)
    → Outcome (World × Packet)
handled op pid w (proceed a) f = ok (f a)
handled op pid w (refuse code msg) f = ok (w, failure op pid code msg)
handled op pid w crash f = panic
