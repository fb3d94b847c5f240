-- ===== src/Base/Outcomes.antt =====
-- What a Rust function does: it returns, it panics on an index out of range, or, in the model of a
-- loop, the fuel runs out. Reads, writes and slices of byte buffers.
use Prim.Native.Nat.{zero, suc, ℕ, ◌+◌, ◌-◌, ◌≤◌, ◌<◌, suc}
use mathlib.Core.Path.{◌≡◌, refl, ap, ◌∙◌, subst}
use mathlib.Core.Bool.{◌&&◌, Bool, true, false}
use mathlib.Core.List.{[], List, ◌++◌, ◌∷◌}
use mathlib.Core.Option.{Option, none, some}
use native.Mathlib.Omega.{arith}
use light_livechat.Base.Tests.{leb, ltb, lt→ltb, if◌then◌else◌, le→leb}
use light_livechat.Base.Lists.{
  length, get_elem?, get_or, take, drop, get_elem?-eq-get_or, get_elem?-beyond, set, length-append,
  take-all, length-drop,
}
use light_livechat.Base.Words.{be16, be32}

pub data Outcome {ℓ} (A : Type ℓ) : Type ℓ where
  ok : A → Outcome A
  panic : Outcome A
  out_of_fuel : Outcome A

infixl 5 ◌>>=◌ ◌>>◌
abbrev pub ◌>>=◌ {ℓ κ} : {A : Type ℓ} {B : Type κ} → Outcome A → (A → Outcome B) → Outcome B
ok a >>= f = f a
panic >>= f = panic
out_of_fuel >>= f = out_of_fuel

abbrev pub ◌>>◌ {ℓ κ} : {A : Type ℓ} {B : Type κ} → Outcome A → Outcome B → Outcome B
m >> k = m >>= λ _. k

-- The call returns.
abbrev pub Returns {ℓ} : {A : Type ℓ} → Outcome A → Type ℓ
Returns {A = A} m = (a : A) × (m ≡ ok a)

abbrev pub of_index {ℓ} : {A : Type ℓ} → Option A → Outcome A
of_index none = panic
of_index (some a) = ok a

-- `buf[i]`.
unfoldable pub read : List ℕ → ℕ → Outcome ℕ
read buf i = of_index (get_elem? buf i)

-- `u16::from_be_bytes([buf[i], buf[i + 1]])` and its 32-bit kin.
unfoldable pub read16 : List ℕ → ℕ → Outcome ℕ
read16 buf i = do a ← read buf i; b ← read buf (i + 1); ok (be16 a b)

unfoldable pub read32 : List ℕ → ℕ → Outcome ℕ
read32 buf i = do
  a ← read buf i
  b ← read buf (i + 1)
  c ← read buf (i + 2)
  d ← read buf (i + 3)
  ok (be32 a b c d)

-- `&buf[i..j]`.
unfoldable pub slice : List ℕ → ℕ → ℕ → Outcome (List ℕ)
slice buf i j = if leb i j && leb j (length buf) then ok (take (j - i) (drop i buf)) else panic

pub slice_ok :
    (buf : List ℕ) (i j : ℕ)
    → i ≤ j
    → j ≤ length buf
    → slice buf i j ≡ ok (take (j - i) (drop i buf))
unfolding slice
slice_ok buf i j h k = rw (le→leb i j h, le→leb j (length buf) k)

-- `&buf[..n]` and `&buf[n..]`.
pub slice_prefix : (buf : List ℕ) (n : ℕ) → n ≤ length buf → slice buf 0 n ≡ ok (take n buf)
slice_prefix buf n h =
    let e : n - 0 ≡ n = omega arith in rw (slice_ok buf 0 n (omega arith) h, e) refl

pub slice_suffix :
    (buf : List ℕ) (n : ℕ) → n ≤ length buf → slice buf n (length buf) ≡ ok (drop n buf)
slice_suffix buf n h =
    rw
      (
        slice_ok buf n (length buf) h (omega arith),
        take-all (length buf - n) (drop n buf) (omega (arith, length-drop n buf)),
      )
      refl

-- The values read in range.
abbrev pub at : List ℕ → ℕ → ℕ
at buf i = get_or buf i 0

abbrev pub at16 : List ℕ → ℕ → ℕ
at16 buf i = be16 (at buf i) (at buf (i + 1))

abbrev pub at32 : List ℕ → ℕ → ℕ
at32 buf i = be32 (at buf i) (at buf (i + 1)) (at buf (i + 2)) (at buf (i + 3))

pub read_ok : (buf : List ℕ) (i : ℕ) → i < length buf → read buf i ≡ ok (at buf i)
unfolding read
read_ok buf i h = rw (get_elem?-eq-get_or buf i 0 h)

pub read_panics : (buf : List ℕ) (i : ℕ) → length buf ≤ i → read buf i ≡ panic
unfolding read
read_panics buf i h = rw (get_elem?-beyond buf i h)

pub read16_ok : (buf : List ℕ) (i : ℕ) → i + 1 < length buf → read16 buf i ≡ ok (at16 buf i)
unfolding read16
read16_ok buf i h = rw (read_ok buf i (omega arith), read_ok buf (i + 1) h)

pub read32_ok : (buf : List ℕ) (i : ℕ) → i + 3 < length buf → read32 buf i ≡ ok (at32 buf i)
unfolding read32
read32_ok buf i h = rw (
  read_ok buf i (omega arith),
  read_ok buf (i + 1) (omega arith),
  read_ok buf (i + 2) (omega arith),
  read_ok buf (i + 3) h,
)

-- `buf[i] = v`, and `buf[i..i + n].copy_from_slice(&vs)` for n values.
unfoldable pub write : List ℕ → ℕ → ℕ → Outcome (List ℕ)
write buf i v = if ltb i (length buf) then ok (set buf i v) else panic

unfoldable pub write_all : List ℕ → ℕ → List ℕ → Outcome (List ℕ)
write_all buf i [] = ok buf
write_all buf i (v ∷ vs) = do b ← write buf i v; write_all b (i + 1) vs

pub write_ok : (buf : List ℕ) (i v : ℕ) → i < length buf → write buf i v ≡ ok (set buf i v)
unfolding write
write_ok buf i v h = rw (lt→ltb i (length buf) h)

-- Reading behind a prefix.
pub at-append : (xs ys : List ℕ) (i : ℕ) → at (xs ++ ys) (length xs + i) ≡ at ys i
at-append [] ys i = ap (at ys) (omega arith)
at-append (x ∷ xs) ys i =
    let e : suc (length xs) + i ≡ suc (length xs + i) = omega arith in rw e (at-append xs ys i)

pub at-append_left : (xs ys : List ℕ) (i : ℕ) → i < length xs → at (xs ++ ys) i ≡ at xs i
at-append_left [] ys i h = elim h [ ]
at-append_left (x ∷ xs) ys zero h = refl
at-append_left (x ∷ xs) ys (suc i) h = at-append_left xs ys i (omega arith)

-- Reading in a slice.
at-take : (n : ℕ) (xs : List ℕ) (i : ℕ) → i < n → at (take n xs) i ≡ at xs i
at-take zero xs i h = elim h [ ]
at-take (suc n) [] i h = refl
at-take (suc n) (x ∷ xs) zero h = refl
at-take (suc n) (x ∷ xs) (suc i) h = at-take n xs i (omega arith)

at-drop : (n : ℕ) (xs : List ℕ) (i : ℕ) → at (drop n xs) i ≡ at xs (n + i)
at-drop zero xs i = ap (at xs) (omega arith)
at-drop (suc n) [] i = refl
at-drop (suc n) (x ∷ xs) i = let e : suc n + i ≡ suc (n + i) = omega arith in rw e (at-drop n xs i)

pub at-slice : (n o : ℕ) (xs : List ℕ) (i : ℕ) → i < n → at (take n (drop o xs)) i ≡ at xs (o + i)
at-slice n o xs i h = at-take n (drop o xs) i h ∙ at-drop o xs i

-- Reading a number where it stands behind a prefix.
module _ (pre ys buf : List ℕ) (whole : buf ≡ pre ++ ys) where
  pub at_behind : (o i : ℕ) → o ≡ length pre + i → at buf o ≡ at ys i
  at_behind o i e = rw (whole, e) (at-append pre ys i)

  pub length_behind : length buf ≡ length pre + length ys
  length_behind = rw (whole, length-append pre ys) refl

  pub read16_behind :
      (o i : ℕ) → o ≡ length pre + i → i + 1 < length ys → read16 buf o ≡ ok (at16 ys i)
  read16_behind o i e h =
      rw
        (
          read16_ok buf o (omega (arith, length_behind)),
          at_behind o i e,
          at_behind (o + 1) (i + 1) (omega arith),
        )
        refl

  pub read32_behind :
      (o i : ℕ) → o ≡ length pre + i → i + 3 < length ys → read32 buf o ≡ ok (at32 ys i)
  read32_behind o i e h =
      rw
        (
          read32_ok buf o (omega (arith, length_behind)),
          at_behind o i e,
          at_behind (o + 1) (i + 1) (omega arith),
          at_behind (o + 2) (i + 2) (omega arith),
          at_behind (o + 3) (i + 3) (omega arith),
        )
        refl

-- Rules by which a call returns.
module _ {ℓ} {A : Type ℓ} where
  pub if_Returns :
      (b : Bool) {m k : Outcome A}
      → (b ≡ true → Returns m)
      → (b ≡ false → Returns k)
      → Returns (if b then m else k)
  if_Returns true h g = h refl
  if_Returns false h g = g refl

  pub bind-Returns {κ} :
      {B : Type κ} {m : Outcome B} {f : B → Outcome A}
      → Returns m
      → ((b : B) → Returns (f b))
      → Returns (m >>= f)
  bind-Returns {f} (b, e) k = let (a, q) = k b in (a, rw e q)

  pub ok-Returns : (a : A) → Returns (ok a)
  ok-Returns a = (a, refl)

pub read-Returns : (buf : List ℕ) (i : ℕ) → i < length buf → Returns (read buf i)
read-Returns buf i h = (at buf i, read_ok buf i h)

pub read16-Returns : (buf : List ℕ) (i : ℕ) → i + 1 < length buf → Returns (read16 buf i)
read16-Returns buf i h = (at16 buf i, read16_ok buf i h)

abbrev value_or {ℓ} : {A : Type ℓ} → A → Outcome A → A
value_or a (ok b) = b
value_or a panic = a
value_or a out_of_fuel = a

pub ok-injective {ℓ} : {A : Type ℓ} {a b : A} → ok a ≡ ok b → a ≡ b
ok-injective {a} p = ap (value_or a) p

-- What holds of a result, if there is one.
pub data Ensures {ℓ κ} {A : Type ℓ} (P : A → Type κ) (m : Outcome A) : Type (ℓ ⊔ κ) where
  ensures : ((a : A) → m ≡ ok a → P a) → Ensures P m

pub of-Ensures {ℓ κ} :
    {A : Type ℓ} (P : A → Type κ) (m : Outcome A) → Ensures P m → (a : A) → m ≡ ok a → P a
of-Ensures P m (ensures h) = h

pub ok-Ensures {ℓ κ} : {A : Type ℓ} (P : A → Type κ) (a : A) → P a → Ensures P (ok a)
ok-Ensures P a h = ensures (λ b e. subst P (ok-injective e) h)

pub bind-Ensures {ℓ κ μ ν} :
    {A : Type ℓ} {B : Type κ} (P : A → Type μ) (Q : B → Type ν) (m : Outcome A) (f : A → Outcome B)
    → Ensures P m
    → ((a : A) → P a → Ensures Q (f a))
    → Ensures Q (m >>= f)
bind-Ensures P Q (ok a) f h k = k a (of-Ensures P (ok a) h a refl)
bind-Ensures P Q panic f h k = ensures (λ b e. cc)
bind-Ensures P Q out_of_fuel f h k = ensures (λ b e. cc)

pub then-Ensures {ℓ κ μ} :
    {A : Type ℓ} {B : Type κ} (Q : B → Type μ) (m : Outcome A) (f : A → Outcome B)
    → ((a : A) → Ensures Q (f a))
    → Ensures Q (m >>= f)
then-Ensures Q m f k = bind-Ensures (λ _. Unit {0}) Q m f (ensures (λ _ _. tt)) (λ a _. k a)

pub if-Ensures {ℓ κ} :
    {A : Type ℓ} (P : A → Type κ) (b : Bool) (m k : Outcome A)
    → (b ≡ true → Ensures P m)
    → (b ≡ false → Ensures P k)
    → Ensures P (if b then m else k)
if-Ensures P true m k h g = h refl
if-Ensures P false m k h g = g refl
