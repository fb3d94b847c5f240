-- ===== src/Transport/Rtcp/Header.antt =====
-- A packet that holds the 12 fixed bytes of an RTP header, byte by byte.
use light_livechat.Base.{
  ℕ, ◌+◌, ◌/◌, ◌%◌, ◌≤◌, ◌<◌, ◌≡◌, refl, List, ◌∷◌, arith, length, set, length-set, bytes16,
  bytes32, ok, write_all, write_ok,
}

pub data IsHeaded : List ℕ → Type 0 where
  headed :
      (b0 b1 b2 b3 b4 b5 b6 b7 b8 b9 b10 b11 : ℕ) (rest : List ℕ)
      → IsHeaded (b0 ∷ b1 ∷ b2 ∷ b3 ∷ b4 ∷ b5 ∷ b6 ∷ b7 ∷ b8 ∷ b9 ∷ b10 ∷ b11 ∷ rest)

pub IsHeaded-of_length : (buf : List ℕ) → 12 ≤ length buf → IsHeaded buf
IsHeaded-of_length (b0 ∷ b1 ∷ b2 ∷ b3 ∷ b4 ∷ b5 ∷ b6 ∷ b7 ∷ b8 ∷ b9 ∷ b10 ∷ b11 ∷ rest) h =
    headed b0 b1 b2 b3 b4 b5 b6 b7 b8 b9 b10 b11 rest
IsHeaded-of_length _ h = absurd (omega arith)

-- Writing a 16-bit and a 32-bit field within a buffer.
pub write_all16 :
    (buf : List ℕ) (i n : ℕ)
    → i + 1 < length buf
    → write_all buf i (bytes16 n) ≡ ok (set (set buf i (n / 256 % 256)) (i + 1) (n % 256))
unfolding write_all
write_all16 buf i n h =
    rw
      (
        write_ok buf i (n / 256 % 256) (omega arith),
        write_ok (set buf i (n / 256 % 256)) (i + 1) (n % 256)
            (omega (arith, length-set buf i (n / 256 % 256))),
      )
      refl

pub write_all32 :
    (buf : List ℕ) (i n : ℕ)
    → i + 3 < length buf
    → write_all buf i (bytes32 n)
      ≡ ok (
          set
            (set
              (set (set buf i (n / 16777216 % 256)) (i + 1) (n / 65536 % 256))
              (i + 1 + 1)
              (n / 256 % 256))
            (i + 1 + 1 + 1)
            (n % 256))
unfolding write_all
write_all32 buf i n h =
    let one = set buf i (n / 16777216 % 256) in
    let two = set one (i + 1) (n / 65536 % 256) in
    let three = set two (i + 1 + 1) (n / 256 % 256) in
    let l1 : length one ≡ length buf = length-set buf i (n / 16777216 % 256) in
    let l2 : length two ≡ length one = length-set one (i + 1) (n / 65536 % 256) in
    let l3 : length three ≡ length two = length-set two (i + 1 + 1) (n / 256 % 256) in
    rw
      (
        write_ok buf i (n / 16777216 % 256) (omega arith),
        write_ok one (i + 1) (n / 65536 % 256) (omega arith),
        write_ok two (i + 1 + 1) (n / 256 % 256) (omega arith),
        write_ok three (i + 1 + 1 + 1) (n % 256) (omega arith),
      )
      refl
