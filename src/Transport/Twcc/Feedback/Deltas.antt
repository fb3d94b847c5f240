-- ===== src/Transport/Twcc/Feedback/Deltas.antt =====
-- src/transport/udp/twcc.rs: what a receiver reads in the receive deltas.
use light_livechat.Base.{
  ℕ, suc, ◌+◌, ◌-◌, ◌*◌, ◌/◌, ◌%◌, ◌≤◌, min, ◌≡◌, refl, ap, inl, inr, List, [], ◌∷◌, ◌++◌, arith,
  ltb, leb, if◌then◌else◌, lt→ltb, le→ltb, Bool-cases, Option-cases, length, get_elem?, be16,
}
use light_livechat.Base.Ints.{ℤ, pos, negsuc}
use light_livechat.Transport.Twcc.Feedback.{
  PacketStatus, not_received, small_delta, large_delta, status_of, small_byte, large_bits,
  deltas_from, encode_recv_deltas,
}

-- The statuses of a run of packets, with the delta of each packet that arrived.
pub data Timed : List PacketStatus → List ℤ → Type 0 where
  none_left : Timed [] []
  lost : {ss : List PacketStatus} {ds : List ℤ} → Timed ss ds → Timed (not_received ∷ ss) ds
  arrived :
      {ss : List PacketStatus} {ds : List ℤ} (status : PacketStatus) (d : ℤ)
      → status ≡ status_of d
      → Timed ss ds
      → Timed (status ∷ ss) (d ∷ ds)

-- A delta within the 14 bits that the format's large deltas are given here.
abbrev pub clamped : ℤ → ℤ
clamped (pos n) = pos (min n 8191)
clamped (negsuc n) = negsuc (min n 8191)

abbrev pub clamped_all : List ℤ → List ℤ
clamped_all [] = []
clamped_all (d ∷ ds) = clamped d ∷ clamped_all ds

-- A signed 16-bit number.
abbrev signed16 : ℕ → ℤ
signed16 v = if ltb v 32768 then pos v else negsuc (65535 - v)

-- How a receiver reads the deltas, led by the statuses.
unfoldable pub decode_deltas : List PacketStatus → List ℕ → List ℤ
decode_deltas [] bytes = []
decode_deltas (not_received ∷ ss) bytes = decode_deltas ss bytes
decode_deltas (small_delta ∷ ss) [] = []
decode_deltas (small_delta ∷ ss) (b ∷ bytes) = pos b ∷ decode_deltas ss bytes
decode_deltas (large_delta ∷ ss) [] = []
decode_deltas (large_delta ∷ ss) (hi ∷ []) = []
decode_deltas (large_delta ∷ ss) (hi ∷ lo ∷ bytes) = signed16 (be16 hi lo) ∷ decode_deltas ss bytes

deltas_from-suc :
    (ss : List PacketStatus) (d : ℤ) (ds : List ℤ) (i : ℕ)
    → deltas_from ss (d ∷ ds) (suc i) ≡ deltas_from ss ds i
unfolding deltas_from
deltas_from-suc [] d ds i = refl
deltas_from-suc (not_received ∷ ss) d ds i = deltas_from-suc ss d ds i
deltas_from-suc (small_delta ∷ ss) d ds i = elim (Option-cases (get_elem? ds i)) [
  | inl out ↦ rw (out, deltas_from) (deltas_from-suc ss d ds i)
  | inr (x, e) ↦
      let n : suc i + 1 ≡ suc (i + 1) = omega arith in
      rw (e, deltas_from, n, deltas_from-suc ss d ds (i + 1)) refl
]
deltas_from-suc (large_delta ∷ ss) d ds i = elim (Option-cases (get_elem? ds i)) [
  | inl out ↦ rw (out, deltas_from) (deltas_from-suc ss d ds i)
  | inr (x, e) ↦
      let n : suc i + 1 ≡ suc (i + 1) = omega arith in
      rw (e, deltas_from, n, deltas_from-suc ss d ds (i + 1)) refl
]

small_lem : (d : ℤ) → small_delta ≡ status_of d → pos (small_byte d) ≡ clamped d
unfolding status_of small_byte
small_lem (pos n) h = ap pos (ground arith)
small_lem (negsuc n) h = cc

large_lem :
    (d : ℤ)
    → large_delta ≡ status_of d
    → signed16 (be16 (large_bits d / 256 % 256) (large_bits d % 256)) ≡ clamped d
unfolding large_bits
large_lem (pos n) h =
    let small : be16 (min n 8191 / 256 % 256) (min n 8191 % 256) ≡ min n 8191 = omega arith in
    rw (small, lt→ltb (min n 8191) 32768 (omega arith)) refl
large_lem (negsuc n) h =
    let v = 65536 - min (n + 1) 8192 in
    let same : be16 (v / 256 % 256) (v % 256) ≡ v = omega arith in
    rw (same, le→ltb v 32768 (omega arith)) (ap negsuc (omega arith))

pub none_small : (d : ℤ) → not_received ≡ status_of d → ⊥
unfolding status_of
none_small (pos n) h = elim (Bool-cases (leb n 255)) [
  | inl s ↦ let q : not_received ≡ small_delta = rw s at h in cc
  | inr l ↦ let q : not_received ≡ large_delta = rw l at h in cc
]
none_small (negsuc n) h = cc

decode_lem :
    (statuses : List PacketStatus) (deltas : List ℤ) (tail : List ℕ)
    → Timed statuses deltas
    → decode_deltas statuses (deltas_from statuses deltas 0 ++ tail) ≡ clamped_all deltas
unfolding deltas_from decode_deltas
decode_lem _ _ tail none_left = refl
decode_lem _ _ tail (lost {ss} {ds} t) = decode_lem ss ds tail t
decode_lem _ _ tail (arrived {ss} {ds} not_received d e t) = absurd (none_small d e)
decode_lem _ _ tail (arrived {ss} {ds} small_delta d e t) =
    rw (deltas_from-suc ss d ds 0, small_lem d e, decode_lem ss ds tail t) refl
decode_lem _ _ tail (arrived {ss} {ds} large_delta d e t) =
    rw (deltas_from-suc ss d ds 0, large_lem d e, decode_lem ss ds tail t) refl

-- The deltas of a run of packets are read back, whatever bytes follow: led by the statuses, a
-- receiver finds one delta for each packet that arrived, the packet's own, clamped to -8192..8191
-- units of 250 µs.
pub decode-encode_recv_deltas :
    (statuses : List PacketStatus) (deltas : List ℤ) (tail : List ℕ)
    → Timed statuses deltas
    → decode_deltas statuses (encode_recv_deltas statuses deltas ++ tail) ≡ clamped_all deltas
unfolding encode_recv_deltas
decode-encode_recv_deltas statuses deltas tail t = decode_lem statuses deltas tail t

pub length-encode_recv_deltas :
    (statuses : List PacketStatus) (deltas : List ℤ)
    → length (encode_recv_deltas statuses deltas) ≤ 2 * length statuses
unfolding encode_recv_deltas deltas_from
length-encode_recv_deltas statuses deltas = bound statuses deltas 0
  where
    bound :
        (ss : List PacketStatus) (ds : List ℤ) (i : ℕ)
        → length (deltas_from ss ds i) ≤ 2 * length ss
    bound [] ds i = omega arith
    bound (not_received ∷ ss) ds i = omega (arith, bound ss ds i)
    bound (small_delta ∷ ss) ds i = elim (Option-cases (get_elem? ds i)) [
      | inl out ↦ rw (out, deltas_from) (omega (arith, bound ss ds i))
      | inr (x, e) ↦ rw (e, deltas_from) (omega (arith, bound ss ds (i + 1)))
    ]
    bound (large_delta ∷ ss) ds i = elim (Option-cases (get_elem? ds i)) [
      | inl out ↦ rw (out, deltas_from) (omega (arith, bound ss ds i))
      | inr (x, e) ↦ rw (e, deltas_from) (omega (arith, bound ss ds (i + 1)))
    ]
