-- ===== src/Transport/Tests/RtcpRuns.antt =====
-- Runs of src/transport/demux.rs and src/transport/udp/rtcp.rs on concrete packets.
use light_livechat.Base.{
  ℕ, ◌+◌, ◌≤◌, ◌<◌, ◌≡◌, refl, ◌↔◌, ◌⊎◌, true, List, [], ◌∷◌, arith, length, add16, bit, ok,
  Returns, at32,
}
use light_livechat.Transport.Rtcp.{
  CompoundRtcpParsed, parse_rtcp_nack, split_compound_rtcp, assemble_compound, expand_nack,
}
use light_livechat.Transport.Rtcp.Build.{build_rtx_packet, encode_remb_bitrate, build_remb}
use light_livechat.Transport.Rtcp.Safety.{parse_rtcp_nack-Returns}
use light_livechat.Transport.Rtcp.Compound.{IsSplitOf, split_compound_rtcp-IsSplitOf}
use light_livechat.Transport.Rtcp.Assemble.{split_of, split-assemble}
use light_livechat.Transport.Rtcp.Nack.{
  Pair, nack_packet, items_of, expand_nack_exact, parse-nack_packet,
}
use light_livechat.Transport.Rtcp.Rtx.{IsRtxOf, build_rtx_packet-IsRtxOf}
use light_livechat.Transport.Rtcp.Remb.{
  IsRemb, Encodes, remb_exp, remb_mantissa, encode_remb_bitrate-Encodes, build_remb_lem,
}
use mathlib.Core.List.{Memᴰ}

abbrev nack_block : List ℕ
nack_block = 129 ∷ 205 ∷ 0 ∷ 3 ∷ 0 ∷ 0 ∷ 0 ∷ 1 ∷ 0 ∷ 0 ∷ 0 ∷ 7 ∷ 0 ∷ 100 ∷ 0 ∷ 5 ∷ []

abbrev pli_block : List ℕ
pli_block = 129 ∷ 206 ∷ 0 ∷ 2 ∷ 0 ∷ 0 ∷ 0 ∷ 1 ∷ 0 ∷ 0 ∷ 0 ∷ 9 ∷ []

abbrev blocks : List (List ℕ)
blocks = nack_block ∷ pli_block ∷ []

abbrev asked : ℕ
asked = 2

abbrev pairs : List Pair
pairs = (100, 5) ∷ (65535, 0) ∷ []

abbrev media_packet : List ℕ
media_packet = 128 ∷ 96 ∷ 1 ∷ 2 ∷ 0 ∷ 0 ∷ 0 ∷ 100 ∷ 0 ∷ 0 ∷ 0 ∷ 7 ∷ 1 ∷ 2 ∷ []

split-assemble_example : split_compound_rtcp (assemble_compound blocks) ≡ ok (split_of 0 blocks)
split-assemble_example = split-assemble blocks ((omega arith, refl), ((omega arith, refl), tt))

split_compound_rtcp-IsSplitOf_example :
    (parsed : CompoundRtcpParsed) × (split_compound_rtcp pli_block ≡ ok parsed)
    × IsSplitOf pli_block parsed
split_compound_rtcp-IsSplitOf_example = split_compound_rtcp-IsSplitOf pli_block

parse_rtcp_nack-Returns_example : Returns (parse_rtcp_nack nack_block)
parse_rtcp_nack-Returns_example = parse_rtcp_nack-Returns nack_block

expand_nack_exact_example :
    Memᴰ asked (expand_nack 65535 5)
    ↔ ((asked ≡ 65535) ⊎ ((i : ℕ) × (i < 16) × (bit 5 i ≡ true) × (asked ≡ add16 65535 (i + 1))))
expand_nack_exact_example = expand_nack_exact 65535 5 asked

parse-nack_packet_example : parse_rtcp_nack (nack_packet 1 7 pairs) ≡ ok (items_of 7 pairs)
parse-nack_packet_example =
    parse-nack_packet 1 7 pairs (omega arith) (omega arith)
      ((omega arith, omega arith), ((omega arith, omega arith), tt))

build_rtx_packet-IsRtxOf_example :
    (rtx : List ℕ) × (build_rtx_packet media_packet 1007 3 ≡ ok rtx)
    × IsRtxOf media_packet 1007 3 rtx
build_rtx_packet-IsRtxOf_example =
    build_rtx_packet-IsRtxOf media_packet 1007 3 (omega arith) (omega arith) (omega arith)

encode_remb_bitrate-Encodes_example :
    (exp : ℕ) × (mantissa : ℕ) × (encode_remb_bitrate 500000 ≡ ok (exp, mantissa))
    × (exp ≤ 46)
    × Encodes 500000 exp mantissa
encode_remb_bitrate-Encodes_example = encode_remb_bitrate-Encodes 500000 (omega arith)

build_remb_lem_example :
    (buf : List ℕ) × (build_remb 500000 7 ≡ ok buf)
    × (length buf ≡ 24)
    × IsRemb buf
    × (at32 buf 20 ≡ 7)
    × Encodes 500000 (remb_exp buf) (remb_mantissa buf)
build_remb_lem_example = build_remb_lem 500000 7 (omega arith) (omega arith)
