-- ===== src/Room/Rewriter/Stream.antt =====
-- src/room/ptt_rewriter.rs: what `rewrite` makes of a packet, and the stream that receivers see.
use light_livechat.Base.{
  ℕ, ◌+◌, ◌*◌, ◌/◌, ◌%◌, ◌≤◌, ◌<◌, ◌≡◌, refl, Bool, true, false, ◌||◌, List, ◌∷◌, arith,
  if◌then◌else◌, length, set, drop, All, low_bits, bit, with_bit7, be16-bytes16, be32-bytes32, ok,
  ◌>>=◌, read, at, at16, at32, read_ok, read16_ok, read32_ok, write, write_ok,
}
use light_livechat.Transport.Rtcp.{RtpHeader, parse_rtp_header}
use light_livechat.Transport.Rtcp.Safety.{parse_rtp_header_lem}
use light_livechat.Transport.Rtcp.Header.{
  IsHeaded, headed, IsHeaded-of_length, write_all16, write_all32,
}
use light_livechat.Room.Rewriter.{
  rewritten, PttRewriter, rebase, virtual_seq, virtual_ts, overwrite, rewrite_packet,
}

-- Every number of the rewriter fits its width.
pub record IsSound (r : PttRewriter) : Type 0 where
  pub ssrc_fits : r.virtual_ssrc < 4294967296
  pub gap_fits : r.ts_guard_gap < 4294967296
  pub origin_seq_fits : r.origin_base_seq < 65536
  pub origin_ts_fits : r.origin_base_ts < 4294967296
  pub base_seq_fits : r.virtual_base_seq < 65536
  pub base_ts_fits : r.virtual_base_ts < 4294967296
  pub last_seq_fits : r.last_virtual_seq < 65536
  pub last_ts_fits : r.last_virtual_ts < 4294967296

-- A packet of bytes: the fields read below fit their widths.
abbrev pub IsBytes : List ℕ → Type 0
IsBytes = All (λ b. b < 256)

-- The header that `overwrite` leaves behind, over the rest of the packet.
abbrev new_header : (b0 b1 ssrc seq ts : ℕ) → List ℕ → List ℕ
new_header b0 b1 ssrc seq ts rest =
    b0
    ∷ b1
    ∷ (seq / 256 % 256)
    ∷ (seq % 256)
    ∷ (ts / 16777216 % 256)
    ∷ (ts / 65536 % 256)
    ∷ (ts / 256 % 256)
    ∷ (ts % 256)
    ∷ (ssrc / 16777216 % 256)
    ∷ (ssrc / 65536 % 256)
    ∷ (ssrc / 256 % 256)
    ∷ (ssrc % 256)
    ∷ rest

abbrev marked : Bool → ℕ → ℕ
marked first b1 = if first then with_bit7 b1 else b1

overwrite_lem :
    (buf : List ℕ) (ssrc seq ts : ℕ) (first : Bool)
    → IsHeaded buf
    → overwrite buf ssrc seq ts first
      ≡ ok (new_header (at buf 0) (marked first (at buf 1)) ssrc seq ts (drop 12 buf))
unfolding overwrite
overwrite_lem _ ssrc seq ts first (headed b0 b1 b2 b3 b4 b5 b6 b7 b8 b9 b10 b11 rest) =
    let p0 = b0 ∷ b1 ∷ b2 ∷ b3 ∷ b4 ∷ b5 ∷ b6 ∷ b7 ∷ b8 ∷ b9 ∷ b10 ∷ b11 ∷ rest in
    let p1 =
      set
        (set (set (set p0 8 (ssrc / 16777216 % 256)) 9 (ssrc / 65536 % 256)) 10 (ssrc / 256 % 256))
        11 (ssrc % 256) in
    let p2 = set (set p1 2 (seq / 256 % 256)) 3 (seq % 256) in
    rw
      (
        write_all32 p0 8 ssrc (omega arith),
        write_all16 p1 2 seq (omega arith),
        write_all32 p2 4 ts (omega arith),
      )
      (mark_lem first)
  where
    out : List ℕ
    out = new_header b0 b1 ssrc seq ts rest

    mark_lem :
        (f : Bool)
        → (if f then read out 1 >>= (λ b. write out 1 (with_bit7 b)) else ok out)
          ≡ ok (new_header b0 (marked f b1) ssrc seq ts rest)
    mark_lem true =
        rw (read_ok out 1 (omega arith), write_ok out 1 (with_bit7 b1) (omega arith)) refl
    mark_lem false = refl

-- The header that a receiver reads in the rewritten packet.
abbrev pub virtual_header : List ℕ → PttRewriter → RtpHeader
virtual_header buf r =
    let s = rebase (at16 buf 2) (at32 buf 4) r in
    record {
      pt = low_bits (at buf 1) 7;
      marker = r.awaiting_first_packet || bit (at buf 1) 7;
      seq = virtual_seq (at16 buf 2) s;
      timestamp = virtual_ts (at32 buf 4) s;
      ssrc = r.virtual_ssrc;
      header_len = 12 + low_bits (at buf 0) 4 * 4;
    }

abbrev pub after_packet : List ℕ → PttRewriter → PttRewriter
after_packet buf r =
    let s = rebase (at16 buf 2) (at32 buf 4) r in
    record s {
      last_virtual_seq = virtual_seq (at16 buf 2) s;
      last_virtual_ts = virtual_ts (at32 buf 4) s;
    }

-- `rewrite` sent the packet on, as `out`.
abbrev pub IsRewritten : List ℕ → PttRewriter → PttRewriter → List ℕ → Type 0
IsRewritten buf r s out =
    (s ≡ after_packet buf r)
    × (parse_rtp_header out ≡ ok (virtual_header buf r))
    × (at out 0 ≡ at buf 0)
    × (drop 12 out ≡ drop 12 buf)

marked_fields :
    (first : Bool) (b : ℕ)
    → b < 256
    → (low_bits (marked first b) 7 ≡ low_bits b 7) × (bit (marked first b) 7 ≡ first || bit b 7)
marked_fields true b h = (omega arith, ground arith)
marked_fields false b h = (refl, refl)

pub virtual_fits :
    (buf : List ℕ) (r : PttRewriter)
    → (virtual_seq (at16 buf 2) r < 65536) × (virtual_ts (at32 buf 4) r < 4294967296)
unfolding virtual_seq virtual_ts
virtual_fits buf r = (omega arith, omega arith)

pub rewrite_packet_lem :
    (buf : List ℕ) (r : PttRewriter)
    → 12 ≤ length buf
    → at buf 1 < 256
    → r.virtual_ssrc < 4294967296
    → (s : PttRewriter) × (out : List ℕ) × (rewrite_packet buf r ≡ ok (s, out, rewritten))
      × IsRewritten buf r s out
unfolding rewrite_packet
rewrite_packet_lem buf r long byte fits =
    let s = rebase (at16 buf 2) (at32 buf 4) r in
    let seq = virtual_seq (at16 buf 2) s in
    let ts = virtual_ts (at32 buf 4) s in
    let first = r.awaiting_first_packet in
    let out = new_header (at buf 0) (marked first (at buf 1)) r.virtual_ssrc seq ts (drop 12 buf) in
    (
      after_packet buf r,
      out,
      rw
          (
            read16_ok buf 2 (omega arith),
            read32_ok buf 4 (omega arith),
            overwrite_lem buf r.virtual_ssrc seq ts first (IsHeaded-of_length buf long),
          )
          refl,
      (
        refl,
        rw
            (
              parse_rtp_header_lem out (omega arith),
              (marked_fields first (at buf 1) byte).0,
              (marked_fields first (at buf 1) byte).1,
              be16-bytes16 seq (virtual_fits buf s).0,
              be32-bytes32 ts (virtual_fits buf s).1,
              be32-bytes32 r.virtual_ssrc fits,
            )
            refl,
        refl,
        refl,
      ),
    )
