-- ===== src/Media/Ingress.antt =====
-- src/transport/udp/ingress.rs: packets of a publisher, from the datagram to the queues of the
-- subscribers. `now` is the clock in milliseconds, `arrival` the instant in nanoseconds.
pub mod Rewriters
pub mod Gate
use light_livechat.Base.{
  ℕ, String, Bool, true, false, Option, none, some, List, [], ◌∷◌, ◌++◌, ◌⊎◌, inl, inr,
  if◌then◌else◌, ◌==◌, Outcome, ok, ◌>>=◌,
}
use light_livechat.Config.{RoomMode, twcc_extmap_id}
use light_livechat.Room.Rewriter.{
  PttRewriter, RewriteResult, rewritten, pending_keyframe, skip, rewrite,
}
use light_livechat.Room.Rewriter.Keyframe.{is_vp8_keyframe}
use light_livechat.Room.Participant.{
  Participant, PcType, publish, subscribe, MediaSession, SocketAddr, is_media_ready, RtpCache,
  store_packet, touch,
}
use light_livechat.Room.Members.{Arc, Heap, Room}
use light_livechat.Room.Hub.{Found, find_by_addr}
use light_livechat.Transport.Rtcp.{RtpHeader, parse_rtp_header}
use light_livechat.Transport.Srtp.{SrtpError, Crypto, decrypt_rtp, decrypt_rtcp}
use light_livechat.Transport.Twcc.{TwccRecorder, record_arrival}
use light_livechat.Transport.Twcc.Extension.{parse_twcc_seq}
use light_livechat.Signaling.World.{World, put_room, put_participant, is_ptt}
use light_livechat.Media.{MediaOutput, rtp, rtcp, is_rtcp, is_floor_holder, fan_out}

abbrev pub Handled : Type 0
Handled = Outcome (World × List MediaOutput)

-- `relay_publish_rtcp`: the sender reports go to every other member, in a push-to-talk room only the
-- floor holder's.
unfoldable pub relay_publish_rtcp :
    Heap → (plaintext : List ℕ) → Participant → Room → List MediaOutput
relay_publish_rtcp heap plaintext sender r =
    if is_ptt r.mode
    then (if is_floor_holder sender.user_id r
        then fan_out heap sender.user_id r (rtcp plaintext)
        else [])
    else fan_out heap sender.user_id r (rtcp plaintext)

unfoldable pub cache_video : RtpHeader → (plaintext : List ℕ) → RtpCache → Outcome RtpCache
cache_video hdr plaintext cache =
    if hdr.pt == 96 then store_packet hdr.seq plaintext cache else ok cache

note_arrival : (arrival : ℕ) → Option ℕ → TwccRecorder → Outcome TwccRecorder
note_arrival arrival none rec = ok rec
note_arrival arrival (some twcc_seq) rec = record_arrival twcc_seq arrival rec

-- The sender behind the packet: its cache and its arrival record.
unfoldable pub observe :
    (arrival : ℕ) → RtpHeader → (plaintext : List ℕ) → Participant → Outcome Participant
unfolding note_arrival
observe arrival hdr plaintext p = do
  cache ← cache_video hdr plaintext p.rtp_cache
  twcc_seq ← parse_twcc_seq plaintext twcc_extmap_id
  rec ← note_arrival arrival twcc_seq p.twcc_recorder
  ok (record p { rtp_cache = cache; twcc_recorder = rec })

-- The rewriter for the payload type, and the room with it.
unfoldable pub rewrite_in :
    RtpHeader
    → (plaintext : List ℕ) → (user_id : String) → Room
    → Outcome (Room × List ℕ × RewriteResult)
rewrite_in hdr plaintext user_id r =
    if hdr.pt == 111
    then (do
      done ← rewrite plaintext user_id false r.audio_rewriter
      ok (record r { audio_rewriter = done.0 }, done.1, done.2))
    else if hdr.pt == 96
    then (do
      keyframe ← is_vp8_keyframe plaintext
      done ← rewrite plaintext user_id keyframe r.video_rewriter
      ok (record r { video_rewriter = done.0 }, done.1, done.2))
    else ok (r, plaintext, skip)

-- What goes out: the rewritten packet, none while a key frame is awaited, or the packet as it came.
unfoldable pub payload_of : (plaintext out : List ℕ) → RewriteResult → Option (List ℕ)
payload_of plaintext out rewritten = some out
payload_of plaintext out pending_keyframe = none
payload_of plaintext out skip = some plaintext

pub fan_out_payload : Heap → (sender : String) → Room → Option (List ℕ) → List MediaOutput
fan_out_payload heap sender r none = []
fan_out_payload heap sender r (some payload) = fan_out heap sender r (rtp payload)

unfoldable pub forward : RtpHeader → (plaintext : List ℕ) → Participant → Room → World → Handled
unfolding fan_out_payload
forward hdr plaintext sender r w =
    let rewrite_and_send = (do
      done ← rewrite_in hdr plaintext sender.user_id r
      ok (
        put_room r.id done.0 w,
        fan_out_payload w.heap sender.user_id done.0 (payload_of plaintext done.1 done.2),
      )) in
    if is_ptt r.mode
    then (if is_floor_holder sender.user_id r then rewrite_and_send else ok (w, []))
    else ok (w, fan_out w.heap sender.user_id r (rtp plaintext))

unfoldable pub handle_media : (arrival : ℕ) → (plaintext : List ℕ) → Arc → Room → World → Handled
handle_media arrival plaintext a r w = do
  hdr ← parse_rtp_header plaintext
  sender ← observe arrival hdr plaintext (w.heap a)
  forward hdr plaintext sender r (put_participant a sender w)

pub rtcp_plaintext : Arc → Room → World → SrtpError ⊎ List ℕ → Handled
rtcp_plaintext a r w (inl _) = ok (w, [])
rtcp_plaintext a r w (inr plaintext) = ok (w, relay_publish_rtcp w.heap plaintext (w.heap a) r)

unfoldable pub rtp_plaintext : (arrival : ℕ) → Arc → Room → World → SrtpError ⊎ List ℕ → Handled
rtp_plaintext arrival a r w (inl _) = ok (w, [])
rtp_plaintext arrival a r w (inr plaintext) = handle_media arrival plaintext a r w

-- `handle_srtp` behind the lookup, for a publish session.
unfoldable pub handle_publish :
    Crypto → (arrival : ℕ) → (buf : List ℕ) → Arc → Room → World → Handled
unfolding rtcp_plaintext rtp_plaintext
handle_publish crypto arrival buf a r w =
    let session = (w.heap a).publish_session in
    if is_media_ready session
    then (if is_rtcp buf
        then rtcp_plaintext a r w (decrypt_rtcp crypto buf session.inbound_srtp)
        else rtp_plaintext arrival a r w (decrypt_rtp crypto buf session.inbound_srtp))
    else ok (w, [])
