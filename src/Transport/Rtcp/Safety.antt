-- ===== src/Transport/Rtcp/Safety.antt =====
-- No input makes the parsers of src/transport/udp/rtcp.rs panic or loop.
use light_livechat.Base.{
  ℕ, zero, suc, ◌+◌, ◌*◌, ◌≤◌, ◌<◌, min, ◌≡◌, refl, inl, inr, List, [], arith, leb, if◌then◌else◌,
  le→ltb, leb→le, Bool-cases, length, low_bits, bit, ok, Returns, read32, at, at16, at32, read_ok,
  read16_ok, read32_ok, slice_ok,
}
use light_livechat.Transport.Rtcp.{
  RtpHeader, parse_rtp_header, fci_loop, nack_items, nack_loop, parse_rtcp_nack, CompoundRtcpParsed,
  file_block, is_generic_nack, is_relayed,
}

-- The value of `parse_rtp_header` on a full header, with the reads done.
abbrev pub rtp_header_of : List ℕ → RtpHeader
rtp_header_of buf = record {
  pt = low_bits (at buf 1) 7;
  marker = bit (at buf 1) 7;
  seq = at16 buf 2;
  timestamp = at32 buf 4;
  ssrc = at32 buf 8;
  header_len = 12 + low_bits (at buf 0) 4 * 4;
}

pub parse_rtp_header_lem :
    (buf : List ℕ) → 12 ≤ length buf → parse_rtp_header buf ≡ ok (rtp_header_of buf)
unfolding parse_rtp_header
parse_rtp_header_lem buf h = rw (
  le→ltb (length buf) 12 h,
  read_ok buf 1 (omega arith),
  read_ok buf 0 (omega arith),
  read16_ok buf 2 (omega arith),
  read32_ok buf 4 (omega arith),
  read32_ok buf 8 (omega arith),
)

-- The loops move on by at least 4 bytes a round, so fuel beyond the bytes left is enough.
fci_loop-Returns :
    (fuel : ℕ) (buf : List ℕ) (ssrc off end_ : ℕ)
    → end_ ≤ length buf
    → 0 < fuel
    → end_ < off + fuel
    → Returns (fci_loop fuel buf ssrc off end_)
unfolding fci_loop
fci_loop-Returns zero buf ssrc off end_ h p m = elim p [ ]
fci_loop-Returns (suc fuel) buf ssrc off end_ h p m = elim (Bool-cases (leb (off + 4) end_)) [
  | inl more ↦
      let le : off + 4 ≤ end_ = leb→le (off + 4) end_ more in
      let (rest, e) = fci_loop-Returns fuel buf ssrc (off + 4) end_ h (omega arith) (omega arith) in
      rw (more, fci_loop, read16_ok buf off (omega arith), read16_ok buf (off + 2) (omega arith), e)
        (_, refl)
  | inr done ↦ rw (done, fci_loop) (_, refl)
]

nack_items-Returns : (buf : List ℕ) (offset pkt_len : ℕ) → Returns (nack_items buf offset pkt_len)
unfolding nack_items
nack_items-Returns buf offset pkt_len = elim (Bool-cases (leb (offset + 12) (length buf))) [
  | inl full ↦
      let le : offset + 12 ≤ length buf = leb→le _ (length buf) full in
      let (items, e) =
        fci_loop-Returns (length buf + 1) buf (at32 buf (offset + 8)) (offset + 12)
          (min (offset + pkt_len) (length buf)) (omega arith) (omega arith) (omega arith) in
      (items, rw (full, read32_ok buf (offset + 8) (omega arith)) e)
  | inr short ↦ ([], rw short)
]

nack_loop-Returns :
    (fuel : ℕ) (buf : List ℕ) (offset : ℕ)
    → 0 < fuel
    → length buf < offset + fuel
    → Returns (nack_loop fuel buf offset)
unfolding nack_loop
nack_loop-Returns zero buf offset p m = elim p [ ]
nack_loop-Returns (suc fuel) buf offset p m = elim (Bool-cases (leb (offset + 4) (length buf))) [
  | inl more ↦
      let le : offset + 4 ≤ length buf = leb→le _ (length buf) more in
      let words = at16 buf (offset + 2) in
      let (here, e) = nack_items-Returns buf offset ((words + 1) * 4) in
      let (rest, r) =
        nack_loop-Returns fuel buf (offset + (words + 1) * 4) (omega arith) (omega arith) in
      elim (Bool-cases (is_generic_nack (at buf (offset + 1)) (low_bits (at buf offset) 5))) [
        | inl nack ↦
            rw
              (
                more,
                nack_loop,
                read_ok buf offset (omega arith),
                read_ok buf (offset + 1) (omega arith),
                read16_ok buf (offset + 2) (omega arith),
                nack,
                e,
                r,
              )
              (_, refl)
        | inr other ↦
            rw
              (
                more,
                nack_loop,
                read_ok buf offset (omega arith),
                read_ok buf (offset + 1) (omega arith),
                read16_ok buf (offset + 2) (omega arith),
                other,
                r,
              )
              (_, refl)
      ]
  | inr done ↦ rw (done, nack_loop) (_, refl)
]

-- Whatever bytes arrive, the NACK parser returns: no index is out of range, and its loops end.
pub parse_rtcp_nack-Returns : (buf : List ℕ) → Returns (parse_rtcp_nack buf)
unfolding parse_rtcp_nack
parse_rtcp_nack-Returns buf = nack_loop-Returns (length buf + 1) buf 0 (omega arith) (omega arith)

-- The value of `split_loop` is what `split_at` says of the bytes, block by block.
pub file_block-Returns :
    (buf : List ℕ) (offset pkt_len pt fmt ssrc : ℕ) (rest : CompoundRtcpParsed)
    → offset + pkt_len ≤ length buf
    → Returns (file_block buf offset pkt_len pt fmt ssrc rest)
unfolding file_block
file_block-Returns buf offset pkt_len pt fmt ssrc rest h =
    elim (Bool-cases (is_generic_nack pt fmt)) [
      | inl nack ↦ rw (nack, slice_ok buf offset (offset + pkt_len) (omega arith) h) (_, refl)
      | inr other ↦ elim (Bool-cases (is_relayed pt fmt)) [
        | inl yes_ ↦ rw (other, yes_) (_, refl)
        | inr no_ ↦ rw (other, no_) (_, refl)
      ]
    ]

pub ssrc_returns :
    (buf : List ℕ) (offset : ℕ)
    → (if leb (offset + 12) (length buf) then read32 buf (offset + 8) else ok 0)
      ≡ ok (if leb (offset + 12) (length buf) then at32 buf (offset + 8) else 0)
ssrc_returns buf offset = elim (Bool-cases (leb (offset + 12) (length buf))) [
  | inl full ↦
      let le : offset + 12 ≤ length buf = leb→le _ (length buf) full in
      rw (full, read32_ok buf (offset + 8) (omega arith)) refl
  | inr short ↦ rw short refl
]
