-- ===== src/Base/Words.antt =====
-- Machine words as native numbers below a power of two, and their bytes in network order.
use Prim.Native.Nat.{ℕ, ◌+◌, ◌-◌, ◌*◌, ◌/◌, ◌%◌, ◌^◌, ◌<◌}
use mathlib.Core.Path.{◌≡◌}
use mathlib.Core.Bool.{Bool}
use mathlib.Core.List.{List, [], ◌∷◌}
use native.Mathlib.Omega.{arith}
use light_livechat.Base.Tests.{◌==◌}

-- `wrapping_add` and `wrapping_sub`; `-` on ℕ stops at 0, so the modulus is added first.
abbrev pub u8 : ℕ → ℕ
u8 n = n % 256

abbrev pub u16 : ℕ → ℕ
u16 n = n % 65536

abbrev pub u32 : ℕ → ℕ
u32 n = n % 4294967296

abbrev pub add16 : ℕ → ℕ → ℕ
add16 a b = (a + b) % 65536

abbrev pub sub16 : ℕ → ℕ → ℕ
sub16 a b = (a + 65536 - b) % 65536

abbrev pub add32 : ℕ → ℕ → ℕ
add32 a b = (a + b) % 4294967296

abbrev pub sub32 : ℕ → ℕ → ℕ
sub32 a b = (a + 4294967296 - b) % 4294967296

-- `x & (2^k - 1)`, `x >> k`, and the test of one bit.
abbrev pub low_bits : ℕ → ℕ → ℕ
low_bits x k = x % 2 ^ k

abbrev pub shr : ℕ → ℕ → ℕ
shr x k = x / 2 ^ k

abbrev pub bit : ℕ → ℕ → Bool
bit x k = x / 2 ^ k % 2 == 1

-- `b | 0x80` on a byte.
abbrev pub with_bit7 : ℕ → ℕ
with_bit7 b = b % 128 + 128

-- `(n + 3) & !3`.
abbrev pub align4 : ℕ → ℕ
align4 n = (n + 3) / 4 * 4

-- `from_be_bytes`.
abbrev pub be16 : ℕ → ℕ → ℕ
be16 a b = a * 256 + b

abbrev pub be32 : ℕ → ℕ → ℕ → ℕ → ℕ
be32 a b c d = a * 16777216 + b * 65536 + c * 256 + d

-- `to_be_bytes`.
abbrev pub bytes16 : ℕ → List ℕ
bytes16 n = (n / 256 % 256) ∷ (n % 256) ∷ []

abbrev pub bytes32 : ℕ → List ℕ
bytes32 n = (n / 16777216 % 256) ∷ (n / 65536 % 256) ∷ (n / 256 % 256) ∷ (n % 256) ∷ []

pub be16-bytes16 : (n : ℕ) → n < 65536 → be16 (n / 256 % 256) (n % 256) ≡ n
be16-bytes16 n h = omega arith

pub be32-bytes32 :
    (n : ℕ)
    → n < 4294967296
    → be32 (n / 16777216 % 256) (n / 65536 % 256) (n / 256 % 256) (n % 256) ≡ n
be32-bytes32 n h = omega arith
