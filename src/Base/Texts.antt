-- ===== src/Base/Texts.antt =====
-- Texts as `format!` and `str` make and read them: decimal numbers, padding, white space.
use Prim.Native.Nat.{ℕ, zero, suc, ◌/◌, ◌%◌}
use Prim.Native.Char.{code}
use Prim.Native.String.{String, ◌++◌}
use mathlib.Core.Bool.{Bool, true, ◌&&◌, ◌||◌}
use mathlib.Core.List.{List, [], ◌∷◌}
use mathlib.Core.Path.{◌≡◌, refl}
use light_livechat.Base.Tests.{ltb, leb, ◌==◌, if◌then◌else◌}

abbrev pub joined : List String → String
joined [] = ""
joined (s ∷ ss) = s ++ joined ss

digit : ℕ → String
digit d =
    if d == 0
    then "0"
    else if d == 1
    then "1"
    else if d == 2
    then "2"
    else if d == 3
    then "3"
    else if d == 4
    then "4"
    else if d == 5
    then "5"
    else if d == 6
    then "6"
    else if d == 7
    then "7"
    else if d == 8
    then "8"
    else if d == 9
    then "9"
    else if d == 10
    then "A"
    else if d == 11
    then "B"
    else if d == 12
    then "C"
    else if d == 13
    then "D"
    else if d == 14
    then "E"
    else "F"

-- The digits to a base, with the number as fuel: it falls with every digit.
digits : (fuel base n : ℕ) → String → String
unfolding digit
digits zero base n tail = digit (n % base) ++ tail
digits (suc fuel) base n tail =
    let rest = digits fuel base (n / base) (digit (n % base) ++ tail) in
    if ltb n base then digit n ++ tail else rest

-- `{}` of an unsigned number.
unfoldable pub decimal : ℕ → String
unfolding digits
decimal n = digits n 10 n ""

-- `{:03}` of a number below 1000.
unfoldable pub three_digits : ℕ → String
unfolding digit
three_digits n = digit (n / 100) ++ (digit (n / 10 % 10) ++ digit (n % 10))

-- `0x{:08X}` of a u32.
hex_from : (places n : ℕ) → String → String
unfolding digit
hex_from zero n tail = tail
hex_from (suc places) n tail = hex_from places (n / 16) (digit (n % 16) ++ tail)

unfoldable pub hex32 : ℕ → String
unfolding hex_from
hex32 n = "0x" ++ hex_from 8 n ""

-- `char::is_whitespace`.
is_white : ℕ → Bool
is_white c =
    (leb 9 c && leb c 13)
    || c == 32
    || c == 133
    || c == 160
    || c == 5760
    || (leb 8192 c && leb c 8202)
    || c == 8232
    || c == 8233
    || c == 8239
    || c == 8287
    || c == 12288

-- `s.trim().is_empty()`.
unfoldable pub is_blank : String → Bool
unfolding is_white
is_blank String.[] = true
is_blank (String.◌∷◌ c s) = is_white (code c) && is_blank s

decimal_1974 : decimal 1974 ≡ "1974"
unfolding decimal
decimal_1974 = refl

hex32_lem : hex32 48879 ≡ "0x0000BEEF"
unfolding hex32
hex32_lem = refl

three_digits_lem : three_digits 7 ≡ "007"
unfolding three_digits
three_digits_lem = refl

is_blank_lem : is_blank "  " ≡ true
unfolding is_blank
is_blank_lem = refl
