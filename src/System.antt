-- ===== src/System.antt =====
-- The whole server as steps on the shared state: src/signaling/handler.rs, src/lib.rs and
-- src/transport/udp. A step is one handler from its start to its end. In the source the handlers run
-- concurrently, and what they change is behind separate locks (the floor of a room and each of its two
-- rewriters have their own), so that a history of this model is one in which no other handler of the room
-- runs between them.
pub mod Rewriters
mod Tests
use light_livechat.Base.{ℕ, Bool, none, some, String, ◌≡◌, Option, List, [], Outcome, ok}
use light_livechat.Room.Participant.{SocketAddr, PcType, touch}
use light_livechat.Config.{BweMode}
use light_livechat.Room.Hub.{RoomHub, Found, new_hub, latch_by_ufrag}
use light_livechat.Room.Members.{Arc, Heap}
use light_livechat.Transport.Srtp.{Crypto}
use light_livechat.Signaling.Messages.{Packet, Decoder}
use light_livechat.Signaling.World.{Session, World, Env, put_participant}
use light_livechat.Signaling.Leaving.{cleanup}
use light_livechat.Signaling.Dispatch.{dispatch}
use light_livechat.Media.{MediaOutput}
use light_livechat.Media.Feedback.{handle_srtp}
use light_livechat.Media.Egress.{bwe_tick}
use light_livechat.Media.Handshake.{SrtpKeyMaterial, handshake_done}
use light_livechat.Server.{Draw, create_default_rooms, floor_round, reaper_round}

-- The state when the tasks start: the default rooms, and nobody in them. The free addresses of the heap hold
-- anything.
abbrev pub started : (now : ℕ) → (first second third : Draw) → Heap → World
started now first second third heap = record {
  heap = heap;
  hub = create_default_rooms now first second third new_hub;
  next_arc = 0;
  sent = [];
}

abbrev pub touched : (now : ℕ) → Option Found → World → World
touched now none w = w
touched now (some (a, pc, r)) w = put_participant a (touch now (w.heap a)) w

-- What a binding request does to the state in `handle_stun`, before its MESSAGE-INTEGRITY is verified: the
-- connection moves to the address that it came from, and `last_seen` is set.
unfoldable pub latched : (now : ℕ) (ufrag : String) → SocketAddr → World → World
latched now ufrag addr w =
    let (heap, hub, found) = latch_by_ufrag ufrag addr w.heap w.hub in
    touched now found (record w { heap = heap; hub = hub })

-- A packet of a client, the end of a connection, a round of each timer, a binding request, the end of a
-- DTLS handshake (whose participant may have left by then), a media datagram.
pub data Step (w : World) : World → Type 0 where
  received :
      (decoder : Decoder) (env : Env) (s s' : Session) (packet : Packet) (w' : World)
      (response : Option Packet)
      → dispatch decoder env s w packet ≡ ok (s', w', response)
      → Step w w'
  closed : (s : Session) → Step w (cleanup s w)
  floor_tick : (now : ℕ) → Step w (floor_round now w)
  reaper_tick : (now : ℕ) → Step w (reaper_round now w)
  binding : (now : ℕ) (ufrag : String) (addr : SocketAddr) → Step w (latched now ufrag addr w)
  keyed :
      (crypto : Crypto) (accepts : List ℕ → List ℕ → Bool) (a : Arc) (pc : PcType)
      (keys : Option SrtpKeyMaterial)
      → Step w (handshake_done crypto accepts a pc keys w).0
  media_in :
      (crypto : Crypto) (now arrival : ℕ) (buf : List ℕ) (remote : SocketAddr) (w' : World)
      (outputs : List MediaOutput)
      → handle_srtp crypto now arrival buf remote w ≡ ok (w', outputs)
      → Step w w'
  estimate :
      (crypto : Crypto) (mode : BweMode) (bitrate : ℕ) (w' : World) (outputs : List MediaOutput)
      → bwe_tick crypto mode bitrate w ≡ ok (w', outputs)
      → Step w w'

pub data Reachable (start : World) : World → Type 0 where
  here : Reachable start start
  next : {w w' : World} → Reachable start w → Step w w' → Reachable start w'
