-- ===== src/Media/Egress.antt =====
-- src/transport/udp/egress.rs: what goes out of the egress tasks, and the timers and requests that send RTCP
-- to the publishers.
pub mod Rewriters
use light_livechat.Base.{
  ℕ, String, Bool, true, false, Option, none, some, List, [], ◌∷◌, ◌++◌, ◌⊎◌, inl, inr, ite, ◌&&◌,
  if◌then◌else◌, Outcome, ok, ◌>>=◌, string_discrete,
}
use light_livechat.Base.DashMap.{DashMap}
use light_livechat.Config.{BweMode, twcc, remb}
use light_livechat.Room.Participant.{
  Participant, TrackKind, audio, video, SocketAddr, get_address, is_publish_ready,
}
use light_livechat.Room.Members.{Arc, Heap, Room, all_participants}
use light_livechat.Room.Hub.{RoomHub}
use light_livechat.Transport.Rtcp.Build.{build_pli, build_remb}
use light_livechat.Transport.Srtp.{SrtpError, Crypto, encrypt_rtp, encrypt_rtcp}
use light_livechat.Transport.Twcc.{TwccRecorder}
use light_livechat.Transport.Twcc.Feedback.{build_twcc_feedback}
use light_livechat.Signaling.World.{World, put_participant}
use light_livechat.Signaling.Floor.{ssrc_of_kind}
use light_livechat.Media.{EgressPacket, rtp, rtcp, MediaOutput, datagram}
use light_livechat.Media.Ingress.{Handled}
use light_livechat.Media.Feedback.{to_publisher}

-- One packet of `run_egress_task`.
abbrev encrypt_for : Crypto → Participant → EgressPacket → SrtpError ⊎ List ℕ
encrypt_for crypto p (rtp plaintext) =
    encrypt_rtp crypto plaintext p.subscribe_session.outbound_srtp
encrypt_for crypto p (rtcp plaintext) =
    encrypt_rtcp crypto plaintext p.subscribe_session.outbound_srtp

sent_to : SocketAddr → SrtpError ⊎ List ℕ → List MediaOutput
sent_to addr (inl _) = []
sent_to addr (inr bytes) = datagram addr bytes ∷ []

egress_to : Crypto → Participant → EgressPacket → Option SocketAddr → List MediaOutput
unfolding sent_to
egress_to crypto p packet none = []
egress_to crypto p packet (some addr) = sent_to addr (encrypt_for crypto p packet)

unfoldable pub egress_one : Crypto → Participant → EgressPacket → List MediaOutput
unfolding egress_to
egress_one crypto p packet = egress_to crypto p packet (get_address p.subscribe_session)

-- A publisher that can be sent RTCP about its camera: it is ready, has an address and a video track.
abbrev target : Option SocketAddr → Option ℕ → Option (SocketAddr × ℕ)
target none ssrc = none
target (some addr) none = none
target (some addr) (some ssrc) = some (addr, ssrc)

unfoldable pub video_target : Participant → Option (SocketAddr × ℕ)
video_target p =
    if is_publish_ready p
    then target (get_address p.publish_session) (ssrc_of_kind video p.tracks)
    else none

-- `send_twcc_to_publishers`: a report on what arrived since the last one, if anything did.
report : Crypto → Participant → SocketAddr → Option (List ℕ) → List MediaOutput
report crypto p addr none = []
report crypto p addr (some feedback) = to_publisher crypto p feedback (some addr)

pub twcc_to : Crypto → Arc → World → Option (SocketAddr × ℕ) → Handled
unfolding report
twcc_to crypto a w none = ok (w, [])
twcc_to crypto a w (some (addr, ssrc)) = do
  let p = w.heap a
  done ← build_twcc_feedback ssrc p.twcc_recorder
  let p1 = record p { twcc_recorder = done.0 }
  ok (put_participant a p1 w, report crypto p1 addr done.1)

unfoldable pub twcc_members : Crypto → List Arc → World → Handled
unfolding twcc_to
twcc_members crypto [] w = ok (w, [])
twcc_members crypto (a ∷ arcs) w = do
  one ← twcc_to crypto a w (video_target (w.heap a))
  rest ← twcc_members crypto arcs one.0
  ok (rest.0, one.1 ++ rest.1)

pub twcc_rooms : Crypto → DashMap String Room → World → Handled
twcc_rooms crypto [] w = ok (w, [])
twcc_rooms crypto ((_, r) ∷ m) w = do
  one ← twcc_members crypto (all_participants r) w
  rest ← twcc_rooms crypto m one.0
  ok (rest.0, one.1 ++ rest.1)

unfoldable pub send_twcc_to_publishers : Crypto → World → Handled
unfolding twcc_rooms
send_twcc_to_publishers crypto w = twcc_rooms crypto w.hub.rooms w

-- `send_remb_to_publishers`: the same limit for every publisher.
remb_to :
    Crypto → (bitrate : ℕ) → Participant → Option (SocketAddr × ℕ) → Outcome (List MediaOutput)
remb_to crypto bitrate p none = ok []
remb_to crypto bitrate p (some (addr, ssrc)) = do
  plain ← build_remb bitrate ssrc
  ok (to_publisher crypto p plain (some addr))

unfoldable pub remb_members : Crypto → (bitrate : ℕ) → Heap → List Arc → Outcome (List MediaOutput)
unfolding remb_to
remb_members crypto bitrate heap [] = ok []
remb_members crypto bitrate heap (a ∷ arcs) = do
  one ← remb_to crypto bitrate (heap a) (video_target (heap a))
  rest ← remb_members crypto bitrate heap arcs
  ok (one ++ rest)

remb_rooms : Crypto → (bitrate : ℕ) → Heap → DashMap String Room → Outcome (List MediaOutput)
remb_rooms crypto bitrate heap [] = ok []
remb_rooms crypto bitrate heap ((_, r) ∷ m) = do
  one ← remb_members crypto bitrate heap (all_participants r)
  rest ← remb_rooms crypto bitrate heap m
  ok (one ++ rest)

unfoldable pub send_remb_to_publishers : Crypto → (bitrate : ℕ) → World → Outcome (List MediaOutput)
unfolding remb_rooms
send_remb_to_publishers crypto bitrate w = remb_rooms crypto bitrate w.heap w.hub.rooms

-- `send_pli_to_publishers`: a new subscriber asks every other publisher for a key frame.
pli_to : Crypto → Participant → Option (SocketAddr × ℕ) → List MediaOutput
pli_to crypto p none = []
pli_to crypto p (some (addr, ssrc)) = to_publisher crypto p (build_pli ssrc) (some addr)

unfoldable pub pli_members : Crypto → (exclude_user : String) → Heap → List Arc → List MediaOutput
unfolding pli_to
pli_members crypto exclude_user heap [] = []
pli_members crypto exclude_user heap (a ∷ arcs) =
    let p = heap a in
    ite (string_discrete p.user_id exclude_user) [] (pli_to crypto p (video_target p))
    ++ pli_members crypto exclude_user heap arcs

unfoldable pub send_pli_to_publishers :
    Crypto → (exclude_user : String) → Heap → Room → List MediaOutput
send_pli_to_publishers crypto exclude_user heap r =
    pli_members crypto exclude_user heap (all_participants r)

-- A tick of the bandwidth timer, in either mode.
unfoldable pub bwe_tick : Crypto → BweMode → (bitrate : ℕ) → World → Handled
bwe_tick crypto twcc bitrate w = send_twcc_to_publishers crypto w
bwe_tick crypto remb bitrate w = do sent ← send_remb_to_publishers crypto bitrate w; ok (w, sent)
