-- ===== src/Transport/Twcc/Extension.antt =====
-- src/transport/udp/twcc.rs: the transport-wide sequence number in an RTP header extension.
pub mod Elements
pub mod Lookup
use light_livechat.Base.{
  ℕ, zero, suc, ◌+◌, ◌*◌, true, false, not, ◌&&◌, Option, none, some, List, ltb, leb, ◌==◌,
  if◌then◌else◌, length, low_bits, shr, bit, Outcome, ok, out_of_fuel, read, read16, ◌>>=◌, ◌>>◌,
}
use light_livechat.Config.{rtp_header_min_size}

-- `while pos < ext_data_end`. The fuel is the length of the extension data, plus 1.
unfoldable pub element_loop : (fuel : ℕ) → List ℕ → (extmap_id end_ pos : ℕ) → Outcome (Option ℕ)
element_loop zero buf extmap_id end_ pos = out_of_fuel
element_loop (suc fuel) buf extmap_id end_ pos = elim (ltb pos end_) [
  | true ↦ do
    byte ← read buf pos
    let id = low_bits (shr byte 4) 4
    let len = low_bits byte 4 + 1
    let skip_padding = element_loop fuel buf extmap_id end_ (pos + 1)
    let next = element_loop fuel buf extmap_id end_ (pos + 1 + len)
    let found = (do seq ← read16 buf (pos + 1); ok (some seq))
    if byte == 0
        then skip_padding
        else (if id == 15
            then ok none
            else (if ltb end_ (pos + 1 + len)
                then ok none
                else (if id == extmap_id && leb 2 len then found else next)))
  | false ↦ ok none
]

unfoldable pub parse_twcc_seq : List ℕ → (extmap_id : ℕ) → Outcome (Option ℕ)
parse_twcc_seq buf extmap_id = if ltb (length buf) rtp_header_min_size then ok none else (do
  b0 ← read buf 0
  let ext_offset = 12 + low_bits b0 4 * 4
  let elements = (do
    profile ← read16 buf ext_offset
    ext_len_words ← read16 buf (ext_offset + 2)
    let start = ext_offset + 4
    let end_ = start + ext_len_words * 4
    if not (profile == 0xbede)
        then ok none
        else (if ltb (length buf) end_
            then ok none
            else element_loop (ext_len_words * 4 + 1) buf extmap_id end_ start))
  if not (bit b0 4)
      then ok none
      else (if ltb (length buf) (ext_offset + 4) then ok none else elements))
