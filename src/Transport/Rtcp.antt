-- ===== src/Transport/Rtcp.antt =====
-- src/transport/udp/rtcp.rs: RTP headers, compound RTCP, NACK, RTX, PLI and REMB.
pub mod Build
pub mod Safety
pub mod Header
pub mod Compound
pub mod Assemble
pub mod Nack
pub mod Rtx
pub mod Remb
use light_livechat.Base.{
  ℕ, zero, suc, ◌+◌, ◌*◌, min, Bool, true, false, ◌&&◌, ◌||◌, List, [], ◌∷◌, ◌++◌, ltb, leb, ◌==◌,
  if◌then◌else◌, length, add16, low_bits, bit, Outcome, ok, out_of_fuel, read, read16, read32,
  slice, ◌>>=◌, ◌>>◌,
}
use light_livechat.Config.{
  rtp_header_min_size, rtcp_pt_nack, rtcp_fmt_nack, rtcp_pt_rr, rtcp_pt_psfb, rtcp_fmt_pli,
  rtcp_fmt_remb,
}

pub record RtpHeader : Type 0 where
  pub pt : ℕ
  pub marker : Bool
  pub seq : ℕ
  pub timestamp : ℕ
  pub ssrc : ℕ
  pub header_len : ℕ

unfoldable pub parse_rtp_header : List ℕ → Outcome RtpHeader
parse_rtp_header buf =
    if ltb (length buf) rtp_header_min_size
    then ok (record { pt = 0; marker = false; seq = 0; timestamp = 0; ssrc = 0; header_len = 0 })
    else (do
      b1 ← read buf 1
      b0 ← read buf 0
      seq ← read16 buf 2
      timestamp ← read32 buf 4
      ssrc ← read32 buf 8
      ok (record {
        pt = low_bits b1 7;
        marker = bit b1 7;
        seq = seq;
        timestamp = timestamp;
        ssrc = ssrc;
        header_len = 12 + low_bits b0 4 * 4;
      }))

-- `NackItem`.
pub record NackItem : Type 0 where
  pub media_ssrc : ℕ
  pub pid : ℕ
  pub blp : ℕ

-- `while fci_off + 4 <= fci_end`.
unfoldable pub fci_loop : ℕ → List ℕ → (media_ssrc fci_off fci_end : ℕ) → Outcome (List NackItem)
fci_loop zero buf media_ssrc fci_off fci_end = out_of_fuel
fci_loop (suc fuel) buf media_ssrc fci_off fci_end = elim (leb (fci_off + 4) fci_end) [
  | true ↦ do
    pid ← read16 buf fci_off
    blp ← read16 buf (fci_off + 2)
    items ← fci_loop fuel buf media_ssrc (fci_off + 4) fci_end
    ok (record { media_ssrc = media_ssrc; pid = pid; blp = blp } ∷ items)
  | false ↦ ok []
]

-- The body of a Generic NACK at `offset`.
unfoldable pub nack_items : List ℕ → (offset pkt_len : ℕ) → Outcome (List NackItem)
unfolding fci_loop
nack_items buf offset pkt_len =
    if leb (offset + 12) (length buf)
    then (do
      media_ssrc ← read32 buf (offset + 8)
      fci_loop (length buf + 1) buf media_ssrc (offset + 12) (min (offset + pkt_len) (length buf)))
    else ok []

abbrev pub is_generic_nack : (pt fmt : ℕ) → Bool
is_generic_nack pt fmt = pt == rtcp_pt_nack && fmt == rtcp_fmt_nack

-- `while offset + 4 <= buf.len()`. `pkt_len` is at least 4, so the source's last `break` is never
-- taken.
unfoldable pub nack_loop : ℕ → List ℕ → ℕ → Outcome (List NackItem)
nack_loop zero buf offset = out_of_fuel
nack_loop (suc fuel) buf offset = elim (leb (offset + 4) (length buf)) [
  | true ↦ do
    b0 ← read buf offset
    pt ← read buf (offset + 1)
    length_words ← read16 buf (offset + 2)
    let pkt_len = (length_words + 1) * 4
    here ← if is_generic_nack pt (low_bits b0 5) then nack_items buf offset pkt_len else ok []
    rest ← nack_loop fuel buf (offset + pkt_len)
    ok (here ++ rest)
  | false ↦ ok []
]

unfoldable pub parse_rtcp_nack : List ℕ → Outcome (List NackItem)
parse_rtcp_nack buf = nack_loop (length buf + 1) buf 0

pub record RtcpBlockRef : Type 0 where
  pub offset : ℕ
  pub length : ℕ
  pub media_ssrc : ℕ

pub record CompoundRtcpParsed : Type 0 where
  pub nack_blocks : List (List ℕ)
  pub relay_blocks : List RtcpBlockRef

abbrev pub is_relayed : (pt fmt : ℕ) → Bool
is_relayed pt fmt =
    pt == rtcp_pt_rr
    || pt == rtcp_pt_psfb && fmt == rtcp_fmt_pli
    || pt == rtcp_pt_psfb && fmt == rtcp_fmt_remb

-- One block is pushed to one of the two lists, or to none.
unfoldable pub file_block :
    List ℕ
    → (offset pkt_len pt fmt media_ssrc : ℕ) → CompoundRtcpParsed
    → Outcome CompoundRtcpParsed
file_block buf offset pkt_len pt fmt media_ssrc rest =
    if is_generic_nack pt fmt
    then (do
      block ← slice buf offset (offset + pkt_len)
      ok (record rest { nack_blocks = block ∷ rest.nack_blocks }))
    else (if is_relayed pt fmt
        then ok (record rest {
          relay_blocks =
              record { offset = offset; length = pkt_len; media_ssrc = media_ssrc }
              ∷ rest.relay_blocks;
        })
        else ok rest)

-- `while offset + 4 <= buf.len()`; the blocks of the rest stand behind the block at `offset`.
unfoldable pub split_loop : ℕ → List ℕ → ℕ → Outcome CompoundRtcpParsed
split_loop zero buf offset = out_of_fuel
split_loop (suc fuel) buf offset = elim (leb (offset + 4) (length buf)) [
  | true ↦ do
    b0 ← read buf offset
    pt ← read buf (offset + 1)
    length_words ← read16 buf (offset + 2)
    let pkt_len = (length_words + 1) * 4
    let more = (do
      media_ssrc ← if leb (offset + 12) (length buf) then read32 buf (offset + 8) else ok 0
      rest ← split_loop fuel buf (offset + pkt_len)
      file_block buf offset pkt_len pt (low_bits b0 5) media_ssrc rest)
    if ltb (length buf) (offset + pkt_len)
        then ok (record { nack_blocks = []; relay_blocks = [] })
        else more
  | false ↦ ok (record { nack_blocks = []; relay_blocks = [] })
]

unfoldable pub split_compound_rtcp : List ℕ → Outcome CompoundRtcpParsed
split_compound_rtcp buf = split_loop (length buf + 1) buf 0

unfoldable pub assemble_compound : List (List ℕ) → List ℕ
assemble_compound [] = []
assemble_compound (block ∷ blocks) = block ++ assemble_compound blocks

-- `for i in 0..16`, from `i` on, with `n` rounds left.
unfoldable pub expand_from : (pid blp n i : ℕ) → List ℕ
expand_from pid blp zero i = []
expand_from pid blp (suc n) i =
    let rest = expand_from pid blp n (i + 1) in if bit blp i then add16 pid (i + 1) ∷ rest else rest

unfoldable pub expand_nack : (pid blp : ℕ) → List ℕ
expand_nack pid blp = pid ∷ expand_from pid blp 16 0
