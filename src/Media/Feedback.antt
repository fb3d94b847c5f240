-- ===== src/Media/Feedback.antt =====
-- src/transport/udp/ingress.rs: RTCP from a subscriber. NACKs are answered from the publisher's cache,
-- reports and key frame requests are relayed to the publisher.
pub mod Rewriters
pub mod Resending
use light_livechat.Base.{
  ℕ, String, Bool, true, false, Option, none, some, List, [], ◌∷◌, ◌++◌, map, ◌⊎◌, inl, inr, ◌&&◌,
  ◌||◌, if◌then◌else◌, ◌==◌, ◌+◌, Outcome, ok, ◌>>=◌, ℕ_discrete, slice,
}
use light_livechat.Base.DashMap.{DashMap, get, insert}
use light_livechat.Room.Floor.{current_speaker}
use light_livechat.Room.Rewriter.{PttRewriter, reverse_seq}
use light_livechat.Room.Participant.{
  Participant, PcType, publish, subscribe, TrackKind, audio, video, Track, SocketAddr, get_address,
  RtpCache, get_packet, find_track, next_rtx_seq, get_tracks, is_publish_ready, touch,
}
use light_livechat.Room.Members.{Arc, Heap, Room, unwrap_or, get_participant, find_by_track_ssrc}
use light_livechat.Room.Hub.{Found, find_by_addr}
use light_livechat.Transport.Rtcp.{
  NackItem, parse_rtcp_nack, RtcpBlockRef, CompoundRtcpParsed, split_compound_rtcp,
  assemble_compound, expand_nack,
}
use light_livechat.Transport.Rtcp.Build.{build_rtx_packet}
use light_livechat.Transport.Srtp.{SrtpError, Crypto, decrypt_rtcp, encrypt_rtcp}
use light_livechat.Signaling.World.{World, put_participant, is_ptt}
use light_livechat.Signaling.Floor.{ssrc_of_kind}
use light_livechat.Media.{MediaOutput, queued, datagram, rtp, is_rtcp}
use light_livechat.Media.Ingress.{Handled, handle_publish}

-- The SSRC of the present speaker's track of a kind.
member_ssrc : TrackKind → Heap → Option Arc → Option ℕ
member_ssrc kind heap none = none
member_ssrc kind heap (some a) = ssrc_of_kind kind (heap a).tracks

speaker_member : Room → Option String → Option Arc
speaker_member r none = none
speaker_member r (some speaker) = get_participant speaker r

unfoldable pub speaker_ssrc : TrackKind → Heap → Room → Option ℕ
unfolding member_ssrc speaker_member
speaker_ssrc kind heap r = member_ssrc kind heap (speaker_member r (current_speaker r.floor))

-- The virtual SSRC of a push-to-talk room is what the subscribers know a track by.
unfoldable pub is_virtual : Room → (rewriter : PttRewriter) → (media_ssrc : ℕ) → Bool
is_virtual r rewriter media_ssrc = is_ptt r.mode && rewriter.virtual_ssrc == media_ssrc

-- What a NACK asks for: the SSRC of the publisher's track, and the numbers in its cache.
unfoldable pub lookup_of : Heap → Room → NackItem → ℕ × List ℕ
lookup_of heap r nack =
    let lost_seqs = expand_nack nack.pid nack.blp in
    if is_virtual r r.video_rewriter nack.media_ssrc
    then (
      unwrap_or (speaker_ssrc video heap r) nack.media_ssrc,
      map (λ (seq : ℕ). reverse_seq seq r.video_rewriter) lost_seqs,
    )
    else (nack.media_ssrc, lost_seqs)

-- The loop over the numbers: a packet that is still in the cache is sent again, under the next number of
-- the retransmission stream.
abbrev resend_one :
    (rtx_ssrc : ℕ) → Participant → Option (List ℕ) → Outcome (Participant × List (List ℕ))
resend_one rtx_ssrc p none = ok (p, [])
resend_one rtx_ssrc p (some original) = do
  let next = next_rtx_seq p
  packet ← build_rtx_packet original rtx_ssrc next.1
  ok (next.0, packet ∷ [])

unfoldable pub resend :
    (rtx_ssrc : ℕ) → (seqs : List ℕ) → Participant → Outcome (Participant × List (List ℕ))
resend rtx_ssrc [] p = ok (p, [])
resend rtx_ssrc (seq ∷ seqs) p = do
  original ← get_packet seq p.rtp_cache
  one ← resend_one rtx_ssrc p original
  rest ← resend rtx_ssrc seqs one.0
  ok (rest.0, one.1 ++ rest.1)

queue_all : (subscriber : Arc) → List (List ℕ) → List MediaOutput
queue_all subscriber [] = []
queue_all subscriber (packet ∷ packets) =
    queued subscriber (rtp packet) ∷ queue_all subscriber packets

pub rtx_of : Option Track → Option ℕ
rtx_of none = none
rtx_of (some t) = t.rtx_ssrc

pub resend_from : (subscriber a : Arc) → (seqs : List ℕ) → Option ℕ → World → Handled
unfolding queue_all
resend_from subscriber a seqs none w = ok (w, [])
resend_from subscriber a seqs (some rtx_ssrc) w = do
  done ← resend rtx_ssrc seqs (w.heap a)
  ok (put_participant a done.0 w, queue_all subscriber done.1)

pub answer_from :
    (subscriber : Arc) → (lookup_ssrc : ℕ) → (seqs : List ℕ) → Option Arc → World → Handled
unfolding resend_from rtx_of
answer_from subscriber lookup_ssrc seqs none w = ok (w, [])
answer_from subscriber lookup_ssrc seqs (some a) w =
    resend_from subscriber a seqs (rtx_of (find_track lookup_ssrc (get_tracks (w.heap a)))) w

-- One item of a NACK.
unfoldable pub answer_nack : (subscriber : Arc) → Room → NackItem → World → Handled
unfolding answer_from
answer_nack subscriber r nack w =
    let (lookup_ssrc, seqs) = lookup_of w.heap r nack in
    answer_from subscriber lookup_ssrc seqs (find_by_track_ssrc w.heap lookup_ssrc r) w

unfoldable pub answer_nacks : (subscriber : Arc) → Room → List NackItem → World → Handled
answer_nacks subscriber r [] w = ok (w, [])
answer_nacks subscriber r (nack ∷ nacks) w = do
  one ← answer_nack subscriber r nack w
  rest ← answer_nacks subscriber r nacks one.0
  ok (rest.0, one.1 ++ rest.1)

unfoldable pub handle_nack_block :
    (nack_data : List ℕ) → (subscriber : Arc) → Room → World → Handled
handle_nack_block nack_data subscriber r w = do
  nacks ← parse_rtcp_nack nack_data
  answer_nacks subscriber r nacks w

pub nack_each : (blocks : List (List ℕ)) → (subscriber : Arc) → Room → World → Handled
nack_each [] subscriber r w = ok (w, [])
nack_each (block ∷ blocks) subscriber r w = do
  one ← handle_nack_block block subscriber r w
  rest ← nack_each blocks subscriber r one.0
  ok (rest.0, one.1 ++ rest.1)

-- A virtual SSRC stands for the speaker's own.
unfoldable pub effective_ssrc : Heap → Room → (media_ssrc : ℕ) → ℕ
effective_ssrc heap r media_ssrc =
    if is_virtual r r.video_rewriter media_ssrc
    then unwrap_or (speaker_ssrc video heap r) media_ssrc
    else if is_virtual r r.audio_rewriter media_ssrc
    then unwrap_or (speaker_ssrc audio heap r) media_ssrc
    else media_ssrc

blocks_at : Option (List (List ℕ)) → List (List ℕ)
blocks_at none = []
blocks_at (some blocks) = blocks

-- The relayed blocks by publisher SSRC. A block without a media SSRC is left out.
unfoldable pub group_blocks :
    Heap
    → Room
    → (plaintext : List ℕ) → List RtcpBlockRef
    → DashMap ℕ (List (List ℕ))
    → Outcome (DashMap ℕ (List (List ℕ)))
unfolding blocks_at
group_blocks heap r plaintext [] groups = ok groups
group_blocks heap r plaintext (block ∷ blocks) groups = elim (block.media_ssrc == 0) [
  | true ↦ group_blocks heap r plaintext blocks groups
  | false ↦ do
    let ssrc = effective_ssrc heap r block.media_ssrc
    bytes ← slice plaintext block.offset (block.offset + block.length)
    group_blocks heap r plaintext blocks
        (insert ℕ_discrete ssrc (blocks_at (get ℕ_discrete ssrc groups) ++ (bytes ∷ [])) groups)
]

encrypted_to : SocketAddr → SrtpError ⊎ List ℕ → List MediaOutput
encrypted_to addr (inl _) = []
encrypted_to addr (inr bytes) = datagram addr bytes ∷ []

-- RTCP for a publisher, encrypted by its publish session.
unfoldable pub to_publisher :
    Crypto → Participant → (plaintext : List ℕ) → Option SocketAddr → List MediaOutput
unfolding encrypted_to
to_publisher crypto p plaintext none = []
to_publisher crypto p plaintext (some addr) =
    encrypted_to addr (encrypt_rtcp crypto plaintext p.publish_session.outbound_srtp)

relay_to : Crypto → Heap → (blocks : List (List ℕ)) → Option Arc → List MediaOutput
relay_to crypto heap blocks none = []
relay_to crypto heap blocks (some a) =
    let p = heap a in
    if is_publish_ready p
    then to_publisher crypto p (assemble_compound blocks) (get_address p.publish_session)
    else []

unfoldable pub relay_groups : Crypto → Heap → Room → DashMap ℕ (List (List ℕ)) → List MediaOutput
unfolding relay_to
relay_groups crypto heap r [] = []
relay_groups crypto heap r ((media_ssrc, blocks) ∷ groups) =
    relay_to crypto heap blocks (find_by_track_ssrc heap media_ssrc r)
    ++ relay_groups crypto heap r groups

unfoldable pub handle_feedback :
    Crypto → (plaintext : List ℕ) → (subscriber : Arc) → Room → World → Handled
unfolding nack_each
handle_feedback crypto plaintext subscriber r w = do
  parsed ← split_compound_rtcp plaintext
  answered ← nack_each parsed.nack_blocks subscriber r w
  groups ← group_blocks answered.0.heap r plaintext parsed.relay_blocks []
  ok (answered.0, answered.1 ++ relay_groups crypto answered.0.heap r groups)

pub feedback_plaintext : Crypto → (subscriber : Arc) → Room → World → SrtpError ⊎ List ℕ → Handled
feedback_plaintext crypto subscriber r w (inl _) = ok (w, [])
feedback_plaintext crypto subscriber r w (inr plaintext) =
    handle_feedback crypto plaintext subscriber r w

unfoldable pub handle_subscribe_rtcp :
    Crypto → (buf : List ℕ) → (subscriber : Arc) → Room → World → Handled
unfolding feedback_plaintext
handle_subscribe_rtcp crypto buf subscriber r w =
    if is_rtcp buf
    then feedback_plaintext crypto subscriber r w
        (decrypt_rtcp crypto buf (w.heap subscriber).subscribe_session.inbound_srtp)
    else ok (w, [])

-- `handle_srtp`: the session of the address, the time it was last seen, and the two directions.
unfoldable pub route : Crypto → (now arrival : ℕ) → (buf : List ℕ) → World → Option Found → Handled
route crypto now arrival buf w none = ok (w, [])
route crypto now arrival buf w (some (a, publish, r)) =
    handle_publish crypto arrival buf a r (put_participant a (touch now (w.heap a)) w)
route crypto now arrival buf w (some (a, subscribe, r)) =
    handle_subscribe_rtcp crypto buf a r (put_participant a (touch now (w.heap a)) w)

unfoldable pub handle_srtp :
    Crypto → (now arrival : ℕ) → (buf : List ℕ) → (remote : SocketAddr) → World → Handled
unfolding route
handle_srtp crypto now arrival buf remote w =
    route crypto now arrival buf w (find_by_addr remote w.hub)
