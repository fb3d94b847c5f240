-- ===== src/Transport/Demux.antt =====
-- src/transport/demux.rs: the class of a datagram by its first byte.
use light_livechat.Base.{
  ℕ, ◌≤◌, ◌<◌, ◌≡◌, ◌↔◌, Bool, ◌&&◌, List, [], ◌∷◌, arith, leb, if◌then◌else◌, shr,
}
use light_livechat.Config.{
  demux_stun_min, demux_stun_max, demux_dtls_min, demux_dtls_max, demux_rtp_min, demux_rtp_max,
}

pub data PacketType : Type 0 where
  stun dtls srtp unknown : PacketType

in_range : ℕ → ℕ → ℕ → Bool
in_range lo hi b = leb lo b && leb b hi

classify_first : ℕ → PacketType
unfolding in_range
classify_first b =
    if in_range demux_stun_min demux_stun_max b
    then stun
    else (if in_range demux_dtls_min demux_dtls_max b
        then dtls
        else (if in_range demux_rtp_min demux_rtp_max b then srtp else unknown))

unfoldable pub classify : List ℕ → PacketType
unfolding classify_first
classify [] = unknown
classify (first ∷ _) = classify_first first

-- A datagram is STUN exactly when its first byte is at most 3, DTLS exactly when it is in 20..63,
-- and SRTP (or SRTCP) exactly when the byte's two top bits are 10, RTP version 2.
pub classify_exact :
    (b : ℕ) (rest : List ℕ)
    → b < 256
    → ((classify (b ∷ rest) ≡ stun) ↔ (b ≤ 3))
      × ((classify (b ∷ rest) ≡ dtls) ↔ ((20 ≤ b) × (b ≤ 63)))
      × ((classify (b ∷ rest) ≡ srtp) ↔ (shr b 6 ≡ 2))
unfolding classify
classify_exact b rest h = (
  (λ e. ground arith, λ k. ground arith),
  (λ e. ground arith, λ k. ground arith),
  (λ e. ground arith, λ k. ground arith),
)
