-- ===== src/Transport/Rtcp/Compound.antt =====
-- src/transport/udp/rtcp.rs: `split_compound_rtcp` against the list of blocks that a compound packet
-- is made of.
use light_livechat.Base.{
  ℕ, zero, suc, ◌+◌, ◌-◌, ◌*◌, ◌≤◌, ◌<◌, ◌≡◌, refl, inl, inr, true, List, [], ◌∷◌, arith, dec_le,
  leb, if◌then◌else◌, lt→ltb, le→ltb, le→leb, lt→leb, Bool-cases, length, take, drop, length-take,
  length-drop, All, low_bits, ok, ◌>>=◌, at, at16, at32, read_ok, read16_ok, slice_ok, at-slice,
}
use light_livechat.Transport.Rtcp.{
  RtcpBlockRef, CompoundRtcpParsed, file_block, split_loop, split_compound_rtcp, is_generic_nack,
  is_relayed,
}
use light_livechat.Transport.Rtcp.Safety.{ssrc_returns}

abbrev pub nothing : CompoundRtcpParsed
nothing = record { nack_blocks = []; relay_blocks = [] }

abbrev pub pkt_len_at : List ℕ → ℕ → ℕ
pkt_len_at buf offset = (at16 buf (offset + 2) + 1) * 4

abbrev pub pt_at : List ℕ → ℕ → ℕ
pt_at buf offset = at buf (offset + 1)

abbrev pub fmt_at : List ℕ → ℕ → ℕ
fmt_at buf offset = low_bits (at buf offset) 5

abbrev pub ssrc_at : List ℕ → ℕ → ℕ
ssrc_at buf offset = if leb (offset + 12) (length buf) then at32 buf (offset + 8) else 0

-- The two ways in which a round of the loop stops, and the round that goes on.
pub split_loop_end :
    (fuel : ℕ) (buf : List ℕ) (offset : ℕ)
    → length buf < offset + 4
    → split_loop (suc fuel) buf offset ≡ ok nothing
unfolding split_loop
split_loop_end fuel buf offset h = rw (lt→leb (offset + 4) (length buf) h, split_loop) refl

pub split_loop_cut :
    (fuel : ℕ) (buf : List ℕ) (offset : ℕ)
    → offset + 4 ≤ length buf
    → length buf < offset + pkt_len_at buf offset
    → split_loop (suc fuel) buf offset ≡ ok nothing
unfolding split_loop
split_loop_cut fuel buf offset h k =
    rw
      (
        le→leb (offset + 4) (length buf) h,
        split_loop,
        read_ok buf offset (omega arith),
        read_ok buf (offset + 1) (omega arith),
        read16_ok buf (offset + 2) (omega arith),
        lt→ltb (length buf) (offset + pkt_len_at buf offset) k,
      )
      refl

pub split_loop_step :
    (fuel : ℕ) (buf : List ℕ) (offset : ℕ)
    → offset + 4 ≤ length buf
    → offset + pkt_len_at buf offset ≤ length buf
    → split_loop (suc fuel) buf offset ≡ (
        split_loop fuel buf (offset + pkt_len_at buf offset) >>= λ rest.
        file_block buf offset
          (pkt_len_at buf offset)
          (pt_at buf offset)
          (fmt_at buf offset)
          (ssrc_at buf offset)
          rest)
unfolding split_loop
split_loop_step fuel buf offset h k =
    rw
      (
        le→leb (offset + 4) (length buf) h,
        split_loop,
        read_ok buf offset (omega arith),
        read_ok buf (offset + 1) (omega arith),
        read16_ok buf (offset + 2) (omega arith),
        le→ltb (length buf) (offset + pkt_len_at buf offset) k,
        ssrc_returns buf offset,
      )
      refl

-- What the parser says of one block that it files under the relayed ones, or under the NACKs.
abbrev pub IsRelayRef : List ℕ → RtcpBlockRef → Type 0
IsRelayRef buf ref =
    (ref.offset + ref.length ≤ length buf)
    × (4 ≤ ref.length)
    × (is_relayed (pt_at buf ref.offset) (fmt_at buf ref.offset) ≡ true)

abbrev pub IsNackBlock : List ℕ → Type 0
IsNackBlock block =
    (4 ≤ length block) × (is_generic_nack (at block 1) (low_bits (at block 0) 5) ≡ true)

abbrev pub IsSplitOf : List ℕ → CompoundRtcpParsed → Type 0
IsSplitOf buf parsed = All (IsRelayRef buf) parsed.relay_blocks × All IsNackBlock parsed.nack_blocks

nack_in_slice :
    (buf : List ℕ) (offset n : ℕ)
    → 2 ≤ n
    → is_generic_nack (pt_at buf offset) (fmt_at buf offset) ≡ true
    → let block = take n (drop offset buf) in
      is_generic_nack (at block 1) (low_bits (at block 0) 5) ≡ true
nack_in_slice buf offset n h nack =
    let start : offset + 0 ≡ offset = omega arith in
    rw (at-slice n offset buf 1 h, at-slice n offset buf 0 (omega arith), start) nack

file_block-IsSplitOf :
    (buf : List ℕ) (offset pkt_len : ℕ) (rest : CompoundRtcpParsed)
    → offset + pkt_len ≤ length buf
    → 4 ≤ pkt_len
    → IsSplitOf buf rest
    → (parsed : CompoundRtcpParsed) × (file_block buf offset pkt_len
          (pt_at buf offset)
          (fmt_at buf offset)
          (ssrc_at buf offset)
          rest
        ≡ ok parsed)
      × IsSplitOf buf parsed
unfolding file_block
file_block-IsSplitOf buf offset pkt_len rest h four (relays, nacks) =
    elim (Bool-cases (is_generic_nack (pt_at buf offset) (fmt_at buf offset))) [
      | inl nack ↦
          let block = take (offset + pkt_len - offset) (drop offset buf) in
          let len : length block ≡ pkt_len = omega (
            arith,
            length-take (offset + pkt_len - offset) (drop offset buf),
            length-drop offset buf,
          ) in
          (
            record rest { nack_blocks = block ∷ rest.nack_blocks },
            rw (nack, slice_ok buf offset (offset + pkt_len) (omega arith) h) refl,
            (
              relays,
              (
                (
                  omega arith,
                  nack_in_slice buf offset (offset + pkt_len - offset) (omega arith) nack,
                ),
                nacks,
              ),
            ),
          )
      | inr other ↦ elim (Bool-cases (is_relayed (pt_at buf offset) (fmt_at buf offset))) [
        | inl relay ↦ (
          record rest {
            relay_blocks =
                record { offset = offset; length = pkt_len; media_ssrc = ssrc_at buf offset }
                ∷ rest.relay_blocks;
          },
          rw (other, relay) refl,
          (((h, four, relay), relays), nacks),
        )
        | inr neither ↦ (rest, rw (other, neither) refl, (relays, nacks))
      ]
    ]

split_loop-IsSplitOf :
    (fuel : ℕ) (buf : List ℕ) (offset : ℕ)
    → 0 < fuel
    → length buf < offset + fuel
    → (parsed : CompoundRtcpParsed) × (split_loop fuel buf offset ≡ ok parsed)
      × IsSplitOf buf parsed
split_loop-IsSplitOf zero buf offset p m = elim p [ ]
split_loop-IsSplitOf (suc fuel) buf offset p m = elim (dec_le (offset + 4) (length buf)) [
  | no short ↦ (nothing, split_loop_end fuel buf offset (omega arith), (tt, tt))
  | yes le ↦ elim (dec_le (offset + pkt_len_at buf offset) (length buf)) [
    | no cut ↦ (nothing, split_loop_cut fuel buf offset le (omega arith), (tt, tt))
    | yes fits ↦
        let (rest, e, w) =
          split_loop-IsSplitOf fuel buf (offset + pkt_len_at buf offset) (omega arith)
            (omega arith) in
        let (parsed, r, v) =
          file_block-IsSplitOf buf offset (pkt_len_at buf offset) rest fits (omega arith) w in
        (parsed, rw (split_loop_step fuel buf offset le fits, e) r, v)
  ]
]

-- Whatever bytes arrive, the compound parser returns: no index or slice is out of range and its
-- loop ends. Each relayed reference lies inside the packet and is an RR, a PLI or a REMB there, so
-- the caller may slice it; each NACK block is a Generic NACK of at least 4 bytes.
pub split_compound_rtcp-IsSplitOf :
    (buf : List ℕ)
    → (parsed : CompoundRtcpParsed) × (split_compound_rtcp buf ≡ ok parsed) × IsSplitOf buf parsed
unfolding split_compound_rtcp
split_compound_rtcp-IsSplitOf buf =
    split_loop-IsSplitOf (length buf + 1) buf 0 (omega arith) (omega arith)
