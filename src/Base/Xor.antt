-- ===== src/Base/Xor.antt =====
-- The exclusive or of binary digits, which src/transport/stun.rs masks addresses with: its own inverse, and
-- within the width of its arguments.
use Prim.Native.Nat.{bit_xor, bit_xor-bitwise, digits, differ}
use light_livechat.Base.{ℕ, zero, suc, ◌+◌, ◌*◌, ◌/◌, ◌%◌, ◌≤◌, ◌<◌, ◌≡◌, refl, sym, ap, ◌∙◌, arith}

abbrev xor_digits : ℕ → ℕ → ℕ → ℕ
xor_digits n a b = digits (λ b. b) differ n a b

xor_digits_fuel : (n m a b : ℕ) → a ≤ n → a ≤ m → xor_digits n a b ≡ xor_digits m a b
xor_digits_fuel zero zero a b p q = refl
xor_digits_fuel zero (suc m) zero b p q = refl
xor_digits_fuel zero (suc m) (suc a) b p q = absurd (omega arith)
xor_digits_fuel (suc n) zero zero b p q = refl
xor_digits_fuel (suc n) zero (suc a) b p q = absurd (omega arith)
xor_digits_fuel (suc n) (suc m) zero b p q = refl
xor_digits_fuel (suc n) (suc m) (suc a) b p q =
    ap (λ (k : ℕ). k * 2 + differ (suc a % 2) (b % 2))
      (xor_digits_fuel n m (suc a / 2) (b / 2) (omega arith) (omega arith))

zero-bit_xor : (b : ℕ) → bit_xor 0 b ≡ b
zero-bit_xor b = bit_xor-bitwise 0 b

bit_xor_step : (a b : ℕ) → bit_xor a b ≡ bit_xor (a / 2) (b / 2) * 2 + differ (a % 2) (b % 2)
bit_xor_step zero b = omega (arith, zero-bit_xor b, zero-bit_xor (b / 2))
bit_xor_step (suc a) b =
    bit_xor-bitwise (suc a) b
    ∙ ap (λ (k : ℕ). k * 2 + differ (suc a % 2) (b % 2))
        (xor_digits_fuel a (suc a / 2) (suc a / 2) (b / 2) (omega arith) (omega arith)
          ∙ sym (bit_xor-bitwise (suc a / 2) (b / 2)))

-- Two digits.
differ_small : (x y : ℕ) → x < 2 → y < 2 → differ x y < 2
differ_small zero y p q = q
differ_small (suc zero) zero p q = p
differ_small (suc zero) (suc zero) p q = omega arith
differ_small (suc zero) (suc (suc y)) p q = absurd (omega arith)
differ_small (suc (suc x)) y p q = absurd (omega arith)

differ_twice : (x y : ℕ) → x < 2 → y < 2 → differ (differ x y) y ≡ x
differ_twice zero zero p q = refl
differ_twice zero (suc zero) p q = refl
differ_twice (suc zero) zero p q = refl
differ_twice (suc zero) (suc zero) p q = refl
differ_twice zero (suc (suc y)) p q = absurd (omega arith)
differ_twice (suc zero) (suc (suc y)) p q = absurd (omega arith)
differ_twice (suc (suc x)) y p q = absurd (omega arith)

bit_xor_halves :
    (a b : ℕ)
    → (bit_xor a b / 2 ≡ bit_xor (a / 2) (b / 2)) × (bit_xor a b % 2 ≡ differ (a % 2) (b % 2))
bit_xor_halves a b =
    let small = differ_small (a % 2) (b % 2) (omega arith) (omega arith) in
    let s = bit_xor_step a b in (omega (arith, small, s), omega (arith, small, s))

twice_fuel : (n a b : ℕ) → a ≤ n → b ≤ n → bit_xor (bit_xor a b) b ≡ a
twice_fuel zero zero zero p q = refl
twice_fuel zero (suc a) b p q = absurd (omega arith)
twice_fuel zero zero (suc b) p q = absurd (omega arith)
twice_fuel (suc n) a b p q =
    let (half, low) = bit_xor_halves a b in
    let rest = twice_fuel n (a / 2) (b / 2) (omega arith) (omega arith) in
    let same : bit_xor (bit_xor a b / 2) (b / 2) ≡ a / 2 =
      ap (λ (k : ℕ). bit_xor k (b / 2)) half ∙ rest in
    let digit : differ (bit_xor a b % 2) (b % 2) ≡ a % 2 =
      ap (λ (k : ℕ). differ k (b % 2)) low
      ∙ differ_twice (a % 2) (b % 2) (omega arith) (omega arith) in
    omega (arith, bit_xor_step (bit_xor a b) b, same, digit)

-- Masking twice with the same key gives the number back.
pub bit_xor_twice : (a b : ℕ) → bit_xor (bit_xor a b) b ≡ a
bit_xor_twice a b = twice_fuel (a + b) a b (omega arith) (omega arith)

abbrev pub pow2 : ℕ → ℕ
pow2 zero = 1
pow2 (suc n) = pow2 n * 2

pub bit_xor_below : (n a b : ℕ) → a < pow2 n → b < pow2 n → bit_xor a b < pow2 n
bit_xor_below zero zero zero p q = omega (arith, zero-bit_xor 0)
bit_xor_below zero (suc a) b p q = absurd (omega arith)
bit_xor_below zero zero (suc b) p q = absurd (omega arith)
bit_xor_below (suc n) a b p q =
    let rest = bit_xor_below n (a / 2) (b / 2) (omega arith) (omega arith) in
    let (half, _) = bit_xor_halves a b in omega (arith, rest, half)
