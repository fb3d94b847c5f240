-- ===== src/Media/Handshake.antt =====
-- src/transport/udp/mod.rs: what `start_dtls_handshake` does when a handshake ends. DTLS itself is the
-- package webrtc-dtls: the exported keys are arguments, `accepts` is whether webrtc-srtp takes a key and a
-- salt. The egress task that starts here is `egress_one` of Media/Egress.antt.
pub mod Keys
use light_livechat.Base.{ℕ, String, Bool, Option, none, some, List, []}
use light_livechat.Room.Participant.{
  Participant, PcType, publish, subscribe, session, MediaSession, install_srtp_keys,
}
use light_livechat.Base.TextMap.{find}
use light_livechat.Room.Members.{Arc, Heap, Room}
use light_livechat.Transport.Srtp.{Crypto}
use light_livechat.Signaling.World.{World, put_participant}
use light_livechat.Media.{MediaOutput}
use light_livechat.Media.Egress.{send_pli_to_publishers}

-- `SrtpKeyMaterial`.
pub record SrtpKeyMaterial : Type 0 where
  pub client_key : List ℕ
  pub client_salt : List ℕ
  pub server_key : List ℕ
  pub server_salt : List ℕ

abbrev pub put_session : PcType → MediaSession → Participant → Participant
put_session publish s p = record p { publish_session = s }
put_session subscribe s p = record p { subscribe_session = s }

-- The keys go to the session of the handshake, for the publish and the subscribe connection alike.
unfoldable pub keys_installed :
    (accepts : List ℕ → List ℕ → Bool) → SrtpKeyMaterial → PcType → Participant → Participant
keys_installed accepts keys pc p =
    put_session pc
      (install_srtp_keys accepts keys.client_key keys.client_salt keys.server_key keys.server_salt
        (session pc p))
      p

pli_in : Crypto → (user_id : String) → Heap → Option Room → List MediaOutput
pli_in crypto user_id heap none = []
pli_in crypto user_id heap (some r) = send_pli_to_publishers crypto user_id heap r

-- A new subscriber asks the publishers of its room for key frames.
subscriber_ready : Crypto → PcType → Participant → World → List MediaOutput
unfolding pli_in
subscriber_ready crypto publish p w = []
subscriber_ready crypto subscribe p w = pli_in crypto p.user_id w.heap (find p.room_id w.hub.rooms)

-- The end of a handshake of the participant at `a`, with the exported keys, or none where the export fails.
unfoldable pub handshake_done :
    Crypto
    → (accepts : List ℕ → List ℕ → Bool) → Arc
    → PcType
    → Option SrtpKeyMaterial
    → World
    → World × List MediaOutput
unfolding subscriber_ready
handshake_done crypto accepts a pc none w = (w, [])
handshake_done crypto accepts a pc (some keys) w =
    let p = keys_installed accepts keys pc (w.heap a) in
    let w1 = put_participant a p w in (w1, subscriber_ready crypto pc p w1)
