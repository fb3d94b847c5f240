-- ===== src/Transport/Twcc/Feedback/Fields.antt =====
-- src/transport/udp/twcc.rs: the parts of a feedback packet, as a receiver reads them.
use light_livechat.Base.{
  ℕ, ◌+◌, ◌*◌, ◌/◌, ◌≤◌, ◌<◌, ◌≡◌, refl, List, ◌++◌, arith, length, get_or, drop, length-append,
  All, be16-bytes16, be32-bytes32, at, at16, at32,
}
use mathlib.Core.List.{append_assoc}
use light_livechat.Transport.Twcc.Feedback.{chunk_bytes, feedback_content, assemble_feedback}
use light_livechat.Transport.Twcc.Feedback.Chunks.{symbols, IsVector}
use light_livechat.Transport.Twcc.Feedback.Packet.{
  read_chunks, read-chunk_bytes, drop-chunk_bytes, length-chunk_bytes, assemble_lem,
}

-- How a receiver reads the packet: the fixed fields, the status symbols of `count` packets, and the
-- bytes of the deltas.
abbrev pub chunk_count : ℕ → ℕ
chunk_count count = (count + 6) / 7

abbrev pub symbol_at : List ℕ → (count j : ℕ) → ℕ
symbol_at buf count j = get_or (symbols (read_chunks (chunk_count count) (drop 20 buf))) j 0

abbrev pub delta_part : List ℕ → (count : ℕ) → List ℕ
delta_part buf count = drop (2 * chunk_count count) (drop 20 buf)

-- The reference time has 24 bits.
abbrev pub reference_at : List ℕ → ℕ
reference_at buf = at buf 16 * 65536 + at16 buf 17

abbrev pub Fields : (buf : List ℕ) → (media_ssrc base_seq count reference_time fb : ℕ) → Type 0
Fields buf media_ssrc base_seq count reference_time fb =
    (at buf 1 ≡ 205)
    × (length buf ≡ 4 * (at16 buf 2 + 1))
    × (at32 buf 8 ≡ media_ssrc)
    × (at16 buf 12 ≡ base_seq)
    × (at16 buf 14 ≡ count)
    × (reference_at buf ≡ reference_time)
    × (at buf 19 ≡ fb)

pub fields_lem :
    (media_ssrc base_seq count reference_time fb : ℕ) (chunks deltas : List ℕ)
    → media_ssrc < 4294967296
    → base_seq < 65536
    → count ≤ 8192
    → reference_time < 16777216
    → length chunks ≡ chunk_count count
    → length deltas ≤ 2 * count
    → Fields
        (assemble_feedback media_ssrc base_seq count reference_time fb chunks deltas)
        media_ssrc
        base_seq
        count
        reference_time
        fb
unfolding feedback_content
fields_lem media_ssrc base_seq count reference_time fb chunks deltas hs hb hc ht hn hd =
    let (pad, e, n) = assemble_lem media_ssrc base_seq count reference_time fb chunks deltas in
    rw e (
      refl,
      omega (
        arith,
        length-append (chunk_bytes chunks ++ deltas) pad,
        length-append (chunk_bytes chunks) deltas,
        length-chunk_bytes chunks,
        n,
      ),
      be32-bytes32 media_ssrc hs,
      be16-bytes16 base_seq hb,
      be16-bytes16 count (omega arith),
      omega (arith, ht),
      refl,
    )

pub parts_lem :
    (media_ssrc base_seq count reference_time fb : ℕ) (chunks deltas : List ℕ)
    → length chunks ≡ chunk_count count
    → All IsVector chunks
    → let buf = assemble_feedback media_ssrc base_seq count reference_time fb chunks deltas in
      (read_chunks (chunk_count count) (drop 20 buf) ≡ chunks)
      × ((tail : List ℕ) × (delta_part buf count ≡ deltas ++ tail))
unfolding feedback_content
parts_lem media_ssrc base_seq count reference_time fb chunks deltas hn hv =
    let (pad, e, n) = assemble_lem media_ssrc base_seq count reference_time fb chunks deltas in
    (
      rw (e, append_assoc (chunk_bytes chunks) deltas pad, ← hn)
          (read-chunk_bytes chunks (deltas ++ pad) hv),
      (
        pad,
        rw (e, append_assoc (chunk_bytes chunks) deltas pad, ← hn)
            (drop-chunk_bytes chunks (deltas ++ pad)),
      ),
    )
