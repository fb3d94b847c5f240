-- ===== src/Media/Ingress/Rewriters.antt =====
-- src/transport/udp/ingress.rs: media passes the rewriters without a change to whom they serve.
use light_livechat.Base.{
  ℕ, String, ◌≡◌, refl, ◌∙◌, ◌⊎◌, inl, inr, Bool, false, Option, List, arith, ltb, ◌==◌, length,
  Outcome, read16, read32, Ensures, bind-Ensures, then-Ensures, if-Ensures, ok-Ensures,
}
use light_livechat.Room.Rewriter.{
  PttRewriter, RewriteResult, rebase, overwrite, rewrite, rewrite_packet, virtual_seq, virtual_ts,
  is_current_speaker,
}
use light_livechat.Room.Rewriter.Keyframe.{is_vp8_keyframe}
use light_livechat.Room.Participant.{Participant, is_media_ready}
use light_livechat.Room.Members.{Arc, Room}
use light_livechat.Room.Hub.Keeping.{put-AllRooms}
use light_livechat.Transport.Rtcp.{RtpHeader, parse_rtp_header}
use light_livechat.Transport.Srtp.{SrtpError, Crypto, decrypt_rtp, decrypt_rtcp}
use light_livechat.Signaling.World.{World, put_participant, is_ptt}
use light_livechat.Signaling.Floor.Rewriters.{IsInStep, RoomsInStep}
use light_livechat.Media.{MediaOutput, is_rtcp, is_floor_holder}
use light_livechat.Media.Ingress.{
  observe, rewrite_in, forward, handle_media, handle_publish, rtcp_plaintext, rtp_plaintext,
}

abbrev Serves : Option String → PttRewriter × List ℕ × RewriteResult → Type 0
Serves speaker done = done.0.speaker ≡ speaker

rebase-speaker : (seq ts : ℕ) (r : PttRewriter) → (rebase seq ts r).speaker ≡ r.speaker
unfolding rebase
rebase-speaker seq ts r = ground arith

rewritten_header : (buf : List ℕ) → PttRewriter → (seq ts : ℕ) → Outcome (List ℕ)
rewritten_header buf r seq ts =
    let s = rebase seq ts r in
    overwrite buf r.virtual_ssrc (virtual_seq seq s) (virtual_ts ts s) r.awaiting_first_packet

rewrite_packet-Serves :
    (buf : List ℕ) (r : PttRewriter) → Ensures (Serves r.speaker) (rewrite_packet buf r)
unfolding rewrite_packet rewritten_header
rewrite_packet-Serves buf r = then-Ensures (Serves r.speaker) (read16 buf 2) _ (λ seq.
    then-Ensures (Serves r.speaker) (read32 buf 4) _ (λ ts.
      then-Ensures (Serves r.speaker) (rewritten_header buf r seq ts) _
        (λ out. ok-Ensures (Serves r.speaker) _ (rebase-speaker seq ts r))))

rewrite-Serves :
    (buf : List ℕ) (sender : String) (is_keyframe : Bool) (r : PttRewriter)
    → Ensures (Serves r.speaker) (rewrite buf sender is_keyframe r)
unfolding rewrite
rewrite-Serves buf sender is_keyframe r =
    if-Ensures (Serves r.speaker) (ltb (length buf) 12) _ _
      (λ _. ok-Ensures (Serves r.speaker) _ refl)
      (λ _.
        if-Ensures (Serves r.speaker) (is_current_speaker sender r) _ _
          (λ _.
            if-Ensures (Serves r.speaker) (r.awaits_keyframe) _ _
              (λ _.
                if-Ensures (Serves r.speaker) (is_keyframe) _ _
                  (λ _. rewrite_packet-Serves buf (record r { awaits_keyframe = false }))
                  (λ _. ok-Ensures (Serves r.speaker) _ refl))
              (λ _. rewrite_packet-Serves buf r))
          (λ _. ok-Ensures (Serves r.speaker) _ refl))

abbrev LeavesInStep : Room × List ℕ × RewriteResult → Type 0
LeavesInStep done = IsInStep done.0

rewrite_in-InStep :
    (hdr : RtpHeader) (plaintext : List ℕ) (user : String) (r : Room)
    → IsInStep r
    → Ensures LeavesInStep (rewrite_in hdr plaintext user r)
unfolding rewrite_in
rewrite_in-InStep hdr plaintext user r (a, v) =
    if-Ensures LeavesInStep (hdr.pt == 111) _ _
      (λ _.
        bind-Ensures (Serves r.audio_rewriter.speaker) LeavesInStep
          (rewrite plaintext user false r.audio_rewriter) _
          (rewrite-Serves plaintext user false r.audio_rewriter)
          (λ done e. ok-Ensures LeavesInStep _ (e ∙ a, v)))
      (λ _.
        if-Ensures LeavesInStep (hdr.pt == 96) _ _
          (λ _. then-Ensures LeavesInStep (is_vp8_keyframe plaintext) _ (λ keyframe.
            bind-Ensures (Serves r.video_rewriter.speaker) LeavesInStep
              (rewrite plaintext user keyframe r.video_rewriter) _
              (rewrite-Serves plaintext user keyframe r.video_rewriter)
              (λ done e. ok-Ensures LeavesInStep _ (a, e ∙ v))))
          (λ _. ok-Ensures LeavesInStep _ (a, v)))

abbrev pub WorldInStep : World × List MediaOutput → Type 0
WorldInStep t = RoomsInStep t.0

forward-InStep :
    (hdr : RtpHeader) (plaintext : List ℕ) (sender : Participant) (r : Room) (w : World)
    → RoomsInStep w
    → IsInStep r
    → Ensures WorldInStep (forward hdr plaintext sender r w)
unfolding forward
forward-InStep hdr plaintext sender r w all room =
    if-Ensures WorldInStep (is_ptt r.mode) _ _
      (λ _.
        if-Ensures WorldInStep (is_floor_holder sender.user_id r) _ _
          (λ _.
            bind-Ensures LeavesInStep WorldInStep (rewrite_in hdr plaintext sender.user_id r) _
              (rewrite_in-InStep hdr plaintext sender.user_id r room)
              (λ done h.
                ok-Ensures WorldInStep _ (put-AllRooms IsInStep r.id done.0 w.hub.rooms all h)))
          (λ _. ok-Ensures WorldInStep _ all))
      (λ _. ok-Ensures WorldInStep _ all)

handle_media-InStep :
    (arrival : ℕ) (plaintext : List ℕ) (a : Arc) (r : Room) (w : World)
    → RoomsInStep w
    → IsInStep r
    → Ensures WorldInStep (handle_media arrival plaintext a r w)
unfolding handle_media
handle_media-InStep arrival plaintext a r w all room =
    then-Ensures WorldInStep (parse_rtp_header plaintext) _ (λ hdr.
      then-Ensures WorldInStep (observe arrival hdr plaintext (w.heap a)) _
        (λ sender. forward-InStep hdr plaintext sender r (put_participant a sender w) all room))

rtcp_plaintext-InStep :
    (a : Arc) (r : Room) (w : World) (x : SrtpError ⊎ List ℕ)
    → RoomsInStep w
    → Ensures WorldInStep (rtcp_plaintext a r w x)
unfolding rtcp_plaintext
rtcp_plaintext-InStep a r w (inl _) all = ok-Ensures WorldInStep _ all
rtcp_plaintext-InStep a r w (inr _) all = ok-Ensures WorldInStep _ all

rtp_plaintext-InStep :
    (arrival : ℕ) (a : Arc) (r : Room) (w : World) (x : SrtpError ⊎ List ℕ)
    → RoomsInStep w
    → IsInStep r
    → Ensures WorldInStep (rtp_plaintext arrival a r w x)
unfolding rtp_plaintext
rtp_plaintext-InStep arrival a r w (inl _) all room = ok-Ensures WorldInStep _ all
rtp_plaintext-InStep arrival a r w (inr plaintext) all room =
    handle_media-InStep arrival plaintext a r w all room

pub handle_publish-InStep :
    (crypto : Crypto) (arrival : ℕ) (buf : List ℕ) (a : Arc) (r : Room) (w : World)
    → RoomsInStep w
    → IsInStep r
    → Ensures WorldInStep (handle_publish crypto arrival buf a r w)
unfolding handle_publish
handle_publish-InStep crypto arrival buf a r w all room =
    let inbound = (w.heap a).publish_session.inbound_srtp in
    if-Ensures WorldInStep (is_media_ready (w.heap a).publish_session) _ _
      (λ _.
        if-Ensures WorldInStep (is_rtcp buf) _ _
          (λ _. rtcp_plaintext-InStep a r w (decrypt_rtcp crypto buf inbound) all)
          (λ _. rtp_plaintext-InStep arrival a r w (decrypt_rtp crypto buf inbound) all room))
      (λ _. ok-Ensures WorldInStep _ all)
