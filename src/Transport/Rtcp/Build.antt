-- ===== src/Transport/Rtcp/Build.antt =====
-- src/transport/udp/rtcp.rs: the packets that the server builds (RTX, PLI, REMB).
use light_livechat.Base.{
  ℕ, zero, suc, ◌+◌, ◌*◌, true, false, List, [], ◌∷◌, ◌++◌, ltb, if◌then◌else◌, length, u8,
  low_bits, shr, bytes16, bytes32, Outcome, ok, panic, out_of_fuel, ◌>>=◌, read, read16, slice,
  write, write_all,
}
use Prim.Native.Nat.{bit_or}
use light_livechat.Config.{rtp_header_min_size, rtx_payload_type}

-- `rtx[1] = …`, `rtx[2..4]` and `rtx[8..12]` of the copied header, then the original sequence
-- number and the payload. A short packet gives an empty one.
unfoldable pub build_rtx_packet : List ℕ → (rtx_ssrc rtx_seq : ℕ) → Outcome (List ℕ)
build_rtx_packet original rtx_ssrc rtx_seq =
    if ltb (length original) rtp_header_min_size then ok [] else (do
      b0 ← read original 0
      let header_len = 12 + low_bits b0 4 * 4
      if ltb (length original) header_len then ok [] else (do
        orig_seq ← read16 original 2
        payload ← slice original header_len (length original)
        header ← slice original 0 header_len
        rtx1 ← write header 1 rtx_payload_type
        rtx2 ← write_all rtx1 2 (bytes16 rtx_seq)
        rtx3 ← write_all rtx2 8 (bytes32 rtx_ssrc)
        ok ((rtx3 ++ bytes16 orig_seq) ++ payload)))

unfoldable pub build_pli : ℕ → List ℕ
build_pli media_ssrc = 0x81 ∷ 206 ∷ 0 ∷ 2 ∷ 0 ∷ 0 ∷ 0 ∷ 0 ∷ bytes32 media_ssrc

-- `while mantissa > 0x3FFFF`; `exp` is a u8.
unfoldable pub encode_loop : (fuel exp mantissa : ℕ) → Outcome (ℕ × ℕ)
encode_loop zero exp mantissa = out_of_fuel
encode_loop (suc fuel) exp mantissa = elim (ltb 0x3ffff mantissa) [
  | true ↦ if ltb exp 255 then encode_loop fuel (exp + 1) (shr mantissa 1) else panic
  | false ↦ ok (exp, mantissa)
]

-- 64 rounds suffice for a u64.
unfoldable pub encode_remb_bitrate : ℕ → Outcome (ℕ × ℕ)
encode_remb_bitrate bps = encode_loop 64 0 bps

unfoldable pub build_remb : (bitrate_bps media_ssrc : ℕ) → Outcome (List ℕ)
build_remb bitrate_bps media_ssrc = do
  em ← encode_remb_bitrate bitrate_bps
  let exp = em.0
  let mantissa = em.1
  ok (
      0x8f
      ∷ 206
      ∷ 0
      ∷ 5
      ∷ 0
      ∷ 0
      ∷ 0
      ∷ 0
      ∷ 0
      ∷ 0
      ∷ 0
      ∷ 0
      ∷ b'R'
      ∷ b'E'
      ∷ b'M'
      ∷ b'B'
      ∷ 1
      ∷ bit_or (u8 (exp * 4)) (low_bits (u8 (shr mantissa 16)) 2)
      ∷ u8 (shr mantissa 8)
      ∷ u8 mantissa
      ∷ bytes32 media_ssrc)
