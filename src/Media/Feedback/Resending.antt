-- ===== src/Media/Feedback/Resending.antt =====
-- src/transport/udp/ingress.rs: the answer to a NACK from the cache of the publisher.
use light_livechat.Base.{
  ℕ, ◌+◌, ◌*◌, ◌%◌, ◌≤◌, ◌<◌, ◌≡◌, refl, ◌⊎◌, inl, inr, Option, none, some, List, [], ◌∷◌, arith,
  leb, ◌==◌, leb→le, ==_iff, Bool-cases, length, get_or, add16, low_bits, ok, at, at16, read16_ok,
}
use light_livechat.Base.Slots.{load_ok}
use light_livechat.Room.Participant.{Participant, RtpCache, get_packet, cached_in, next_rtx_seq}
use light_livechat.Room.Participant.Cache.{IsCache, IsPacket}
use light_livechat.Transport.Rtcp.Rtx.{IsRtxOf, build_rtx_packet-IsRtxOf}
use light_livechat.Media.Feedback.{resend}

cached_in-cases :
    (seq : ℕ) (slot : Option (List ℕ))
    → (cached_in seq slot ≡ ok none)
      ⊎ ((pkt : List ℕ) × (cached_in seq slot ≡ ok (some pkt)) × IsPacket seq pkt)
unfolding cached_in
cached_in-cases seq none = inl refl
cached_in-cases seq (some pkt) = elim (Bool-cases (leb 12 (length pkt))) [
  | inr short ↦ inl (rw short refl)
  | inl full ↦
      let long : 12 ≤ length pkt = leb→le 12 (length pkt) full in
      elim (Bool-cases (at16 pkt 2 == seq)) [
        | inl same ↦ inr (
          pkt,
          rw (full, read16_ok pkt 2 (omega (arith, long)), same) refl,
          (long, (==_iff (at16 pkt 2) seq).0 same),
        )
        | inr differs ↦ inl (rw (full, read16_ok pkt 2 (omega (arith, long)), differs) refl)
      ]
]

get_packet-cases :
    (seq : ℕ) (c : RtpCache)
    → IsCache c
    → (get_packet seq c ≡ ok none)
      ⊎ ((pkt : List ℕ) × (get_packet seq c ≡ ok (some pkt)) × IsPacket seq pkt)
unfolding get_packet
get_packet-cases seq c v =
    rw (load_ok c.slots (seq % 512) none (omega (arith, v)))
      (cached_in-cases seq (get_or c.slots (seq % 512) none))

-- Each packet in the cache holds its CSRC list.
abbrev pub HoldsHeaders : RtpCache → Type 0
HoldsHeaders c =
    (seq : ℕ) (pkt : List ℕ)
    → get_packet seq c ≡ ok (some pkt)
    → 12 + low_bits (at pkt 0) 4 * 4 ≤ length pkt

-- One packet for each number that the cache still has, in the order of the numbers, under consecutive
-- numbers of the retransmission stream from `next` on.
pub data Resent (rtx_ssrc : ℕ) (c : RtpCache) : (next : ℕ) → List ℕ → List (List ℕ) → Type 0 where
  done : (next : ℕ) → Resent rtx_ssrc c next [] []
  lost :
      {next seq : ℕ} {seqs : List ℕ} {packets : List (List ℕ)}
      → get_packet seq c ≡ ok none
      → Resent rtx_ssrc c next seqs packets
      → Resent rtx_ssrc c next (seq ∷ seqs) packets
  again :
      {next seq : ℕ} {seqs original rtx : List ℕ} {packets : List (List ℕ)}
      → get_packet seq c ≡ ok (some original)
      → IsPacket seq original
      → IsRtxOf original rtx_ssrc next rtx
      → Resent rtx_ssrc c (add16 next 1) seqs packets
      → Resent rtx_ssrc c next (seq ∷ seqs) (rtx ∷ packets)

-- From a cache of 512 slots whose packets hold their CSRC lists, and for an SSRC and a next number
-- that fit their widths: the numbers of a NACK are answered by exactly the cached packets that
-- have them, in the order of the numbers, each with the retransmission SSRC and the next number of
-- its stream. The call returns, and the cache stays.
pub resend-Resent :
    (rtx_ssrc : ℕ) (seqs : List ℕ) (p : Participant)
    → rtx_ssrc < 4294967296
    → p.rtx_seq < 65536
    → IsCache p.rtp_cache
    → HoldsHeaders p.rtp_cache
    → (q : Participant) × (packets : List (List ℕ)) × (resend rtx_ssrc seqs p ≡ ok (q, packets))
      × (q.rtp_cache ≡ p.rtp_cache)
      × Resent rtx_ssrc p.rtp_cache p.rtx_seq seqs packets
unfolding resend next_rtx_seq
resend-Resent rtx_ssrc [] p fits small v h = (p, [], refl, refl, done p.rtx_seq)
resend-Resent rtx_ssrc (seq ∷ seqs) p fits small v h = elim (get_packet-cases seq p.rtp_cache v) [
  | inl none_there ↦
      let (q, packets, e, same, all) = resend-Resent rtx_ssrc seqs p fits small v h in
      (q, packets, rw (none_there, e) refl, same, lost none_there all)
  | inr (original, there, numbered) ↦
      let (rtx, b, is_rtx) =
        build_rtx_packet-IsRtxOf original rtx_ssrc p.rtx_seq fits small (h seq original there) in
      let p1 = record p { rtx_seq = add16 p.rtx_seq 1 } in
      let (q, packets, e, same, all) = resend-Resent rtx_ssrc seqs p1 fits (omega arith) v h in
      (q, rtx ∷ packets, rw (there, b, e) refl, same, again there numbered is_rtx all)
]
