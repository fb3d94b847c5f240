-- ===== src/Media.antt =====
-- src/transport/udp: the path of media and feedback through the server, as steps over the rooms and
-- participants.
pub mod Recipients
pub mod Ingress
pub mod Feedback
pub mod Egress
pub mod Handshake
use light_livechat.Base.{
  ℕ, String, Bool, true, false, Option, none, some, List, [], ◌∷◌, ◌&&◌, if◌then◌else◌, ite, leb,
  string_discrete, get_elem?, low_bits,
}
use light_livechat.Base.DashMap.{DashMap}
use light_livechat.Config.{RoomMode}
use light_livechat.Room.Floor.{current_speaker}
use light_livechat.Room.Participant.{SocketAddr, is_subscribe_ready}
use light_livechat.Room.Members.{Arc, Heap, Room, others_in}

-- A packet for the queue of a subscriber's egress task, and the bytes for a socket address. A full
-- queue drops the packet.
pub data EgressPacket : Type 0 where
  rtp : (plaintext : List ℕ) → EgressPacket
  rtcp : (plaintext : List ℕ) → EgressPacket

pub data MediaOutput : Type 0 where
  queued : (a : Arc) → EgressPacket → MediaOutput
  datagram : SocketAddr → (bytes : List ℕ) → MediaOutput

-- RFC 5761: payload types 72 to 79 are RTCP.
rtcp_byte : Option ℕ → Bool
rtcp_byte none = false
rtcp_byte (some b) = leb 72 (low_bits b 7) && leb (low_bits b 7) 79

unfoldable pub is_rtcp : List ℕ → Bool
unfolding rtcp_byte
is_rtcp buf = rtcp_byte (get_elem? buf 1)

-- Whether a user holds the floor.
pub holds : (user_id : String) → Option String → Bool
holds user_id none = false
holds user_id (some speaker) = ite (string_discrete speaker user_id) true false

unfoldable pub is_floor_holder : (user_id : String) → Room → Bool
unfolding holds
is_floor_holder user_id r = holds user_id (current_speaker r.floor)

pub ready_queues : Heap → EgressPacket → List Arc → List MediaOutput
ready_queues heap packet [] = []
ready_queues heap packet (a ∷ arcs) =
    let rest = ready_queues heap packet arcs in
    if is_subscribe_ready (heap a) then queued a packet ∷ rest else rest

-- The loop over the members other than the sender that are ready to receive.
unfoldable pub fan_out : Heap → (sender : String) → Room → EgressPacket → List MediaOutput
unfolding ready_queues
fan_out heap sender r packet = ready_queues heap packet (others_in sender r.participants)
