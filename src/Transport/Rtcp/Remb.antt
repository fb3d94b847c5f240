-- ===== src/Transport/Rtcp/Remb.antt =====
-- src/transport/udp/rtcp.rs: what a receiver reads in the server's REMB and PLI packets.
use light_livechat.Base.{
  ℕ, zero, suc, ◌+◌, ◌*◌, ◌/◌, ◌%◌, ◌^◌, ◌≤◌, ◌<◌, ◌≡◌, refl, Bool, true, false, ◌&&◌, List, [],
  ◌∷◌, arith, dec_lt, ltb, ◌==◌, lt→ltb, le→ltb, ==_iff, length, u8, low_bits, shr, bytes32,
  be32-bytes32, ok, at, at16, at32, take, drop,
}
use Prim.Native.Nat.{bit_or}
use native.Mathlib.Nat.{pow-suc}
use light_livechat.Transport.Rtcp.{split_compound_rtcp, assemble_compound}
use light_livechat.Transport.Rtcp.Build.{encode_loop, encode_remb_bitrate, build_remb, build_pli}
use light_livechat.Transport.Rtcp.Assemble.{nacks_of, relays_of, split-assemble}

-- `2 ^ (18 + n)`.
limit : ℕ → ℕ
limit zero = 262144
limit (suc n) = 2 * limit n

-- An exponent and a mantissa for `value`: the mantissa fits 18 bits, is the value with the exponent's
-- low bits cut off, and wastes no bit once the exponent is used.
abbrev pub Encodes : (value exp mantissa : ℕ) → Type 0
Encodes value exp mantissa =
    (mantissa ≤ 0x3ffff)
    × (mantissa * 2 ^ exp ≤ value)
    × (value < (mantissa + 1) * 2 ^ exp)
    × (0 < exp → 131072 ≤ mantissa)

abbrev Encoded : (n fuel e m : ℕ) → Type 0
Encoded n fuel e m =
    (d : ℕ) × (r : ℕ) × (encode_loop fuel e m ≡ ok (e + d, r)) × (d ≤ n) × Encodes m d r

encode_small : (n fuel e m : ℕ) → m ≤ 0x3ffff → Encoded n (suc fuel) e m
unfolding encode_loop
encode_small n fuel e m small =
    let done : ltb 0x3ffff m ≡ false = le→ltb 0x3ffff m small in
    let start : e + 0 ≡ e = omega arith in
    (
      0,
      m,
      rw (done, encode_loop, start) refl,
      omega arith,
      (omega arith, omega arith, omega arith, λ z. elim z [ ]),
    )

-- One halving more.
full_mantissa : (d r m : ℕ) → 0x3ffff < m → Encodes (m / 2) d r → 131072 ≤ r
full_mantissa zero r m big (_, _, above, _) = omega arith
full_mantissa (suc d) r m big (_, _, _, full) = full (omega arith)

Encodes-half : (d r m : ℕ) → 0x3ffff < m → Encodes (m / 2) d r → Encodes m (suc d) r
Encodes-half d r m big enc = (
  enc.0,
  rw (pow-suc 2 d) (omega (arith, enc.1)),
  rw (pow-suc 2 d) (omega (arith, enc.2)),
  λ _. full_mantissa d r m big enc,
)

encode_loop_lem : (n fuel e m : ℕ) → n < fuel → e + n ≤ 255 → m < limit n → Encoded n fuel e m
unfolding encode_loop limit
encode_loop_lem n zero e m f w h = elim f [ ]
encode_loop_lem zero (suc fuel) e m f w h = encode_small zero fuel e m (omega arith)
encode_loop_lem (suc n) (suc fuel) e m f w h = elim (dec_lt 0x3ffff m) [
  | no small ↦ encode_small (suc n) fuel e m (omega arith)
  | yes big ↦
      let (d, r, q, k, enc) =
        encode_loop_lem n fuel (e + 1) (m / 2) (omega arith) (omega arith) (omega arith) in
      let count : e + suc d ≡ e + 1 + d = omega arith in
      (
        suc d,
        r,
        rw (lt→ltb 0x3ffff m big, encode_loop, lt→ltb e 255 (omega arith), count) q,
        omega arith,
        Encodes-half d r m big enc,
      )
]

-- The bitrate of every u64 is encoded: the loop ends within 64 rounds and its u8 exponent does not
-- overflow (it is at most 46). The mantissa fits its 18 bits, and decoding gives the bitrate rounded
-- down to a multiple of 2^exp, with a full mantissa whenever the exponent is not 0.
pub encode_remb_bitrate-Encodes :
    (bps : ℕ)
    → bps < 2 ^ 64
    → (exp : ℕ) × (mantissa : ℕ) × (encode_remb_bitrate bps ≡ ok (exp, mantissa))
      × (exp ≤ 46)
      × Encodes bps exp mantissa
unfolding encode_remb_bitrate limit
encode_remb_bitrate-Encodes bps h =
    let (d, r, q, k, enc) = encode_loop_lem 46 64 0 bps (omega arith) (omega arith) (omega arith) in
    let start : 0 + d ≡ d = omega arith in (d, r, rw start at q, k, enc)

-- How a receiver reads a REMB packet (draft-alvestrand-rmcat-remb): version 2 and format 15, payload type
-- 206, 20 bytes behind the first word, sender and media SSRC 0, "REMB", one SSRC.
abbrev pub IsRemb : List ℕ → Type 0
IsRemb buf =
    (at buf 0 ≡ 2 * 64 + 15)
    × (at buf 1 ≡ 206)
    × (length buf ≡ 4 * (at16 buf 2 + 1))
    × (at32 buf 4 ≡ 0)
    × (at32 buf 8 ≡ 0)
    × (take 4 (drop 12 buf) ≡ b'R' ∷ b'E' ∷ b'M' ∷ b'B' ∷ [])
    × (at buf 16 ≡ 1)

abbrev pub remb_exp : List ℕ → ℕ
remb_exp buf = shr (at buf 17) 2

abbrev pub remb_mantissa : List ℕ → ℕ
remb_mantissa buf = low_bits (at buf 17) 2 * 65536 + at16 buf 18

all_below : ℕ → (ℕ → Bool) → Bool
all_below zero p = true
all_below (suc n) p = p n && all_below n p

all_below_holds : (n : ℕ) (p : ℕ → Bool) (x : ℕ) → all_below n p ≡ true → x < n → p x ≡ true
unfolding all_below
all_below_holds zero p x h lt = elim lt [ ]
all_below_holds (suc n) p x h lt = ground (arith, all_below_holds n p x)

joined_bytes : all_below 256 (λ x. bit_or (x / 4 * 4) (x % 4) == x) ≡ true
unfolding all_below
joined_bytes = refl

bit_or_joined : (x : ℕ) → x < 256 → bit_or (x / 4 * 4) (x % 4) ≡ x
bit_or_joined x h = (==_iff _ x).0 (all_below_holds 256 _ x joined_bytes h)

exp_byte :
    (exp mantissa : ℕ)
    → exp ≤ 46
    → mantissa ≤ 0x3ffff
    → bit_or (u8 (exp * 4)) (low_bits (u8 (shr mantissa 16)) 2) ≡ exp * 4 + mantissa / 65536
exp_byte exp mantissa he hm =
    let x = exp * 4 + mantissa / 65536 in
    let high : u8 (exp * 4) ≡ x / 4 * 4 = omega arith in
    let low : low_bits (u8 (shr mantissa 16)) 2 ≡ x % 4 = omega arith in
    rw (high, low) (bit_or_joined x (omega arith))

-- For every u64 bitrate and u32 SSRC `build_remb` returns a packet of 24 bytes that a receiver takes for a
-- REMB packet for one SSRC, by its version, format, payload type, length and identifier, and in which it reads
-- that SSRC and an encoding of the bitrate.
pub build_remb_lem :
    (bps ssrc : ℕ)
    → bps < 2 ^ 64
    → ssrc < 4294967296
    → (buf : List ℕ) × (build_remb bps ssrc ≡ ok buf)
      × (length buf ≡ 24)
      × IsRemb buf
      × (at32 buf 20 ≡ ssrc)
      × Encodes bps (remb_exp buf) (remb_mantissa buf)
unfolding build_remb
build_remb_lem bps ssrc h hs =
    let (exp, m, q, k, enc) = encode_remb_bitrate-Encodes bps h in
    let b17 = exp * 4 + m / 65536 in
    let buf : List ℕ =
      0x8f
      ∷ 206
      ∷ 0
      ∷ 5
      ∷ 0
      ∷ 0
      ∷ 0
      ∷ 0
      ∷ 0
      ∷ 0
      ∷ 0
      ∷ 0
      ∷ b'R'
      ∷ b'E'
      ∷ b'M'
      ∷ b'B'
      ∷ 1
      ∷ b17
      ∷ u8 (m / 256)
      ∷ u8 m
      ∷ bytes32 ssrc in
    let same_exp : remb_exp buf ≡ exp = omega (arith, enc.0) in
    let same_mantissa : remb_mantissa buf ≡ m = omega (arith, enc.0) in
    (
      buf,
      rw (q, exp_byte exp m k enc.0) refl,
      refl,
      (refl, refl, refl, refl, refl, refl, refl),
      be32-bytes32 ssrc hs,
      rw (same_exp, same_mantissa) enc,
    )

-- The server's own parser files a PLI that the server builds as one relayed block of 12 bytes for
-- the media SSRC that it was built from.
pub split-build_pli :
    (ssrc : ℕ)
    → ssrc < 4294967296
    → split_compound_rtcp (build_pli ssrc)
      ≡ ok (record {
        nack_blocks = [];
        relay_blocks = record { offset = 0; length = 12; media_ssrc = ssrc } ∷ [];
      })
unfolding build_pli assemble_compound nacks_of relays_of
split-build_pli ssrc h =
    rw (split-assemble (build_pli ssrc ∷ []) ((omega arith, omega arith), tt), be32-bytes32 ssrc h)
      refl
