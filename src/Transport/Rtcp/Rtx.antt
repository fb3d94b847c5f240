-- ===== src/Transport/Rtcp/Rtx.antt =====
-- src/transport/udp/rtcp.rs: what is in an RTX packet.
use light_livechat.Base.{
  ℕ, suc, ◌+◌, ◌-◌, ◌*◌, ◌/◌, ◌%◌, ◌≤◌, ◌<◌, ◌≡◌, refl, false, List, ◌∷◌, ◌++◌, arith, le→ltb,
  length, set, take, drop, length-take, low_bits, be16, bytes16, be16-bytes16, be32-bytes32, ok, at,
  at16, at32, read_ok, read16_ok, write_ok, slice_suffix, slice_prefix, take_prefix, drop_prefix,
}
use mathlib.Core.List.{append_assoc}
use light_livechat.Transport.Rtcp.{parse_rtp_header}
use light_livechat.Transport.Rtcp.Build.{build_rtx_packet}
use light_livechat.Transport.Rtcp.Safety.{parse_rtp_header_lem}
use light_livechat.Transport.Rtcp.Header.{
  IsHeaded, headed, IsHeaded-of_length, write_all16, write_all32,
}

-- The retransmission's header and body, as `parse_rtp_header` reads the header and by its bytes.
abbrev pub IsRtxOf : (original : List ℕ) (rtx_ssrc rtx_seq : ℕ) → List ℕ → Type 0
IsRtxOf original rtx_ssrc rtx_seq rtx =
    let header_len = 12 + low_bits (at original 0) 4 * 4 in
    (parse_rtp_header rtx
      ≡ ok (record {
        pt = 97;
        marker = false;
        seq = rtx_seq;
        timestamp = at32 original 4;
        ssrc = rtx_ssrc;
        header_len = header_len;
      }))
    × (at rtx 0 ≡ at original 0)
    × (take (header_len - 12) (drop 12 rtx) ≡ take (header_len - 12) (drop 12 original))
    × (drop header_len rtx ≡ bytes16 (at16 original 2) ++ drop header_len original)
    × (at rtx 1 ≡ 97)
    × (at16 rtx 2 ≡ rtx_seq)
    × (at32 rtx 4 ≡ at32 original 4)
    × (at32 rtx 8 ≡ rtx_ssrc)

headed_rtx :
    (original : List ℕ) (rtx_ssrc rtx_seq : ℕ)
    → IsHeaded original
    → rtx_ssrc < 4294967296
    → rtx_seq < 65536
    → 12 + low_bits (at original 0) 4 * 4 ≤ length original
    → (rtx : List ℕ) × (build_rtx_packet original rtx_ssrc rtx_seq ≡ ok rtx)
      × IsRtxOf original rtx_ssrc rtx_seq rtx
unfolding build_rtx_packet
headed_rtx _ ssrc seq (headed b0 b1 b2 b3 b4 b5 b6 b7 b8 b9 b10 b11 rest) hs hq fits =
    let csrc = low_bits b0 4 * 4 in
    let original = b0 ∷ b1 ∷ b2 ∷ b3 ∷ b4 ∷ b5 ∷ b6 ∷ b7 ∷ b8 ∷ b9 ∷ b10 ∷ b11 ∷ rest in
    let long : 12 ≤ length original = omega arith in
    let twelve : 12 + csrc
        ≡ suc (suc (suc (suc (suc (suc (suc (suc (suc (suc (suc (suc csrc))))))))))) =
      omega arith in
    let inner = take csrc rest ++ (bytes16 (be16 b2 b3) ++ drop csrc rest) in
    let rtx =
      b0
      ∷ 97
      ∷ (seq / 256 % 256)
      ∷ (seq % 256)
      ∷ b4
      ∷ b5
      ∷ b6
      ∷ b7
      ∷ (ssrc / 16777216 % 256)
      ∷ (ssrc / 65536 % 256)
      ∷ (ssrc / 256 % 256)
      ∷ (ssrc % 256)
      ∷ inner in
    let header = b0 ∷ b1 ∷ b2 ∷ b3 ∷ b4 ∷ b5 ∷ b6 ∷ b7 ∷ b8 ∷ b9 ∷ b10 ∷ b11 ∷ take csrc rest in
    let marked = set header 1 97 in
    let numbered = set (set marked 2 (seq / 256 % 256)) 3 (seq % 256) in
    let built : build_rtx_packet original ssrc seq ≡ ok rtx =
      rw
        (
          le→ltb (length original) 12 long,
          read_ok original 0 (omega arith),
          le→ltb (length original) (12 + csrc) fits,
          read16_ok original 2 (omega arith),
          slice_suffix original (12 + csrc) fits,
          slice_prefix original (12 + csrc) fits,
          twelve,
          write_ok header 1 97 (omega arith),
          write_all16 marked 2 seq (omega arith),
          write_all32 numbered 8 ssrc (omega arith),
          append_assoc (take csrc rest),
        )
        refl in
    let twelve_less : 12 + csrc - 12 ≡ csrc = omega arith in
    let kept : length (take csrc rest) ≡ csrc = omega (arith, length-take csrc rest) in
    (
      rtx,
      built,
      (
        rw (parse_rtp_header_lem rtx (omega arith), be16-bytes16 seq hq, be32-bytes32 ssrc hs) refl,
        refl,
        rw
            (
              twelve_less,
              take_prefix csrc (take csrc rest) (bytes16 (be16 b2 b3) ++ drop csrc rest) kept,
            )
            refl,
        rw (twelve, drop_prefix csrc (take csrc rest) (bytes16 (be16 b2 b3) ++ drop csrc rest) kept)
            refl,
        refl,
        be16-bytes16 seq hq,
        refl,
        be32-bytes32 ssrc hs,
      ),
    )

-- For a packet that holds its fixed header and its CSRC list, `build_rtx_packet` returns (it does not panic)
-- a packet with payload type 97, no marker, the RTX sequence number and SSRC, and the original's
-- timestamp, first byte and CSRC list. Behind the CSRC list stand the original sequence number and then
-- all that stands behind the CSRC list of the original: its payload and, where its X bit is set, first its header
-- extension.
pub build_rtx_packet-IsRtxOf :
    (original : List ℕ) (rtx_ssrc rtx_seq : ℕ)
    → rtx_ssrc < 4294967296
    → rtx_seq < 65536
    → 12 + low_bits (at original 0) 4 * 4 ≤ length original
    → (rtx : List ℕ) × (build_rtx_packet original rtx_ssrc rtx_seq ≡ ok rtx)
      × IsRtxOf original rtx_ssrc rtx_seq rtx
build_rtx_packet-IsRtxOf original rtx_ssrc rtx_seq hs hq fits =
    headed_rtx original rtx_ssrc rtx_seq (IsHeaded-of_length original (omega arith)) hs hq fits
