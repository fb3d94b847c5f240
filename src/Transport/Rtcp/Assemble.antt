-- ===== src/Transport/Rtcp/Assemble.antt =====
-- src/transport/udp/rtcp.rs: `split_compound_rtcp` undoes `assemble_compound`.
use light_livechat.Base.{
  ℕ, zero, suc, ◌+◌, ◌-◌, ◌*◌, ◌≤◌, ◌<◌, ◌≡◌, refl, sym, ap, ◌∙◌, inl, inr, true, false, List, [],
  ◌∷◌, ◌++◌, arith, if◌then◌else◌, le→leb, Bool-cases, length, length-append, take-append,
  drop-append, All, low_bits, ok, slice, at, at16, at32, slice_ok, at-append, at-append_left,
}
use mathlib.Core.List.{append_assoc}
use light_livechat.Transport.Rtcp.{
  RtcpBlockRef, CompoundRtcpParsed, file_block, split_loop, split_compound_rtcp, is_generic_nack,
  is_relayed, assemble_compound,
}
use light_livechat.Transport.Rtcp.Compound.{
  split_loop_end, split_loop_step, pkt_len_at, pt_at, fmt_at, ssrc_at,
}

-- One RTCP block: its length field is right, and it holds the second SSRC.
abbrev pub IsBlock : List ℕ → Type 0
IsBlock block = (12 ≤ length block) × ((at16 block 2 + 1) * 4 ≡ length block)

abbrev pub block_pt : List ℕ → ℕ
block_pt block = at block 1

abbrev pub block_fmt : List ℕ → ℕ
block_fmt block = low_bits (at block 0) 5

-- What a compound of these blocks should be split into: the NACKs, and where each RR, PLI and REMB
-- stands, in order; all else is left out.
unfoldable pub nacks_of : List (List ℕ) → List (List ℕ)
nacks_of [] = []
nacks_of (b ∷ bs) =
    let rest = nacks_of bs in if is_generic_nack (block_pt b) (block_fmt b) then b ∷ rest else rest

unfoldable pub relays_of : ℕ → List (List ℕ) → List RtcpBlockRef
relays_of offset [] = []
relays_of offset (b ∷ bs) =
    let rest = relays_of (offset + length b) bs in
    if is_relayed (block_pt b) (block_fmt b)
    then record { offset = offset; length = length b; media_ssrc = at32 b 8 } ∷ rest
    else rest

abbrev pub split_of : ℕ → List (List ℕ) → CompoundRtcpParsed
split_of offset bs = record { nack_blocks = nacks_of bs; relay_blocks = relays_of offset bs }

nack_not_relayed : (pt fmt : ℕ) → is_generic_nack pt fmt ≡ true → is_relayed pt fmt ≡ false
nack_not_relayed pt fmt h = ground arith

-- A block where it stands in the compound.
module _ (pre block post buf : List ℕ) (whole : buf ≡ pre ++ (block ++ post)) where
  at_block : (i : ℕ) → i < length block → at buf (length pre + i) ≡ at block i
  at_block i h = rw (whole, at-append pre (block ++ post) i, at-append_left block post i h)

  slice_block : slice buf (length pre) (length pre + length block) ≡ ok block
  slice_block =
      let n : length pre + length block - length pre ≡ length block = omega arith in
      rw (
        slice_ok buf (length pre) (length pre + length block) (omega arith) (
            omega (
              arith,
              ap length whole,
              length-append pre (block ++ post),
              length-append block post,
            )),
        whole,
        drop-append pre (block ++ post),
        n,
        take-append block post,
      )

  room : length pre + length block ≤ length buf
  room = omega (arith, ap length whole, length-append pre (block ++ post), length-append block post)

  module _ (good : IsBlock block) where
    pkt_len_block : pkt_len_at buf (length pre) ≡ length block
    pkt_len_block =
        let here : length pre + 2 + 1 ≡ length pre + 3 = omega arith in
        rw (here, at_block 2 (omega arith), at_block 3 (omega arith)) (good.1)

    pt_block : pt_at buf (length pre) ≡ block_pt block
    pt_block = at_block 1 (omega arith)

    fmt_block : fmt_at buf (length pre) ≡ block_fmt block
    fmt_block =
        let here : length pre + 0 ≡ length pre = omega arith in
        ap (λ (b : ℕ). low_bits b 5) (rw here at (at_block 0 (omega arith)))

    ssrc_block : ssrc_at buf (length pre) ≡ at32 block 8
    ssrc_block =
        let full : length pre + 12 ≤ length buf = omega (arith, room) in
        let two : length pre + 8 + 1 ≡ length pre + 9 = omega arith in
        let three : length pre + 8 + 2 ≡ length pre + 10 = omega arith in
        let four : length pre + 8 + 3 ≡ length pre + 11 = omega arith in
        rw
          (
            le→leb _ _ full,
            two,
            three,
            four,
            at_block 8 (omega arith),
            at_block 9 (omega arith),
            at_block 10 (omega arith),
            at_block 11 (omega arith),
          )
          refl

    -- The block is filed under the list that its type says.
    file_block_lem :
        (bs : List (List ℕ))
        → file_block buf
            (length pre)
            (pkt_len_at buf (length pre))
            (pt_at buf (length pre))
            (fmt_at buf (length pre))
            (ssrc_at buf (length pre))
            (split_of (length pre + length block) bs)
          ≡ ok (split_of (length pre) (block ∷ bs))
    unfolding file_block nacks_of relays_of
    file_block_lem bs = elim (Bool-cases (is_generic_nack (block_pt block) (block_fmt block))) [
      | inl nack ↦
          rw
            (
              pkt_len_block,
              pt_block,
              fmt_block,
              ssrc_block,
              slice_block,
              nack,
              nack_not_relayed (block_pt block) (block_fmt block) nack,
            )
            refl
      | inr other ↦ elim (Bool-cases (is_relayed (block_pt block) (block_fmt block))) [
        | inl relay ↦ rw (pkt_len_block, pt_block, fmt_block, ssrc_block, other, relay) refl
        | inr neither ↦ rw (pkt_len_block, pt_block, fmt_block, ssrc_block, other, neither) refl
      ]
    ]

split_loop-assemble :
    (fuel : ℕ) (pre : List ℕ) (bs : List (List ℕ)) (buf : List ℕ)
    → buf ≡ pre ++ assemble_compound bs
    → All IsBlock bs
    → 0 < fuel
    → length buf < length pre + fuel
    → split_loop fuel buf (length pre) ≡ ok (split_of (length pre) bs)
unfolding assemble_compound
split_loop-assemble zero pre bs buf whole good p m = elim p [ ]
split_loop-assemble (suc fuel) pre [] buf whole good p m =
    unfold nacks_of relays_of in
    split_loop_end fuel buf (length pre) (omega (arith, ap length whole, length-append pre []))
split_loop-assemble (suc fuel) pre (b ∷ bs) buf whole (g, gs) p m =
    let fits = room pre b (assemble_compound bs) buf whole in
    let len = pkt_len_block pre b (assemble_compound bs) buf whole g in
    let next =
      split_loop-assemble fuel (pre ++ b) bs buf
        (whole ∙ sym (append_assoc pre b (assemble_compound bs))) gs (omega arith)
        (omega (arith, length-append pre b)) in
    let here : split_loop fuel buf (length pre + pkt_len_at buf (length pre))
        ≡ ok (split_of (length pre + length b) bs) =
      rw (len, ← length-append pre b) next in
    rw (split_loop_step fuel buf (length pre) (omega arith) (omega arith), here)
      (file_block_lem pre b (assemble_compound bs) buf whole g bs)

-- Splitting undoes assembling: a compound put together from RTCP blocks is split into exactly
-- its NACKs, whole and in order, and one reference for each RR, PLI and REMB, with the place, the
-- length and the media SSRC of that block.
pub split-assemble :
    (bs : List (List ℕ))
    → All IsBlock bs
    → split_compound_rtcp (assemble_compound bs) ≡ ok (split_of 0 bs)
unfolding split_compound_rtcp
split-assemble bs good =
    split_loop-assemble (length (assemble_compound bs) + 1) [] bs (assemble_compound bs) refl good
      (omega arith) (omega arith)
