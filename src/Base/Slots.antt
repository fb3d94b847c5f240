-- ===== src/Base/Slots.antt =====
-- Vectors of slots that a ring buffer indexes by a remainder: `v[i]`, `v[i] = x` and `n % size`.
use light_livechat.Base.{
  ℕ, ◌%◌, ◌<◌, ◌≡◌, refl, ◌≢◌, List, ltb, ◌==◌, if◌then◌else◌, lt→ltb, length, get_elem?, get_or,
  set, get_elem?-set_self, get_elem?-set_ne, get_elem?-eq-get_or, Outcome, ok, panic, of_index,
}

module _ {ℓ} {A : Type ℓ} where
  unfoldable pub load : List A → ℕ → Outcome A
  load xs i = of_index (get_elem? xs i)

  unfoldable pub store : List A → ℕ → A → Outcome (List A)
  store xs i v = if ltb i (length xs) then ok (set xs i v) else panic

  pub store_ok : (xs : List A) (i : ℕ) (v : A) → i < length xs → store xs i v ≡ ok (set xs i v)
  unfolding store
  store_ok xs i v h = rw (lt→ltb i (length xs) h)

  pub load_ok : (xs : List A) (i : ℕ) (d : A) → i < length xs → load xs i ≡ ok (get_or xs i d)
  unfolding load
  load_ok xs i d h = rw (get_elem?-eq-get_or xs i d h)

  -- Reading the slots after a write.
  pub load-set_self : (xs : List A) (i : ℕ) (v : A) → i < length xs → load (set xs i v) i ≡ ok v
  unfolding load
  load-set_self xs i v h = rw (get_elem?-set_self xs i v h)

  pub load-set_ne : (xs : List A) (i j : ℕ) (v : A) → i ≢ j → load (set xs i v) j ≡ load xs j
  unfolding load
  load-set_ne xs i j v h = rw (get_elem?-set_ne xs v h) refl

-- `n % size`, which panics on 0.
unfoldable pub rem : ℕ → ℕ → Outcome ℕ
rem n size = if size == 0 then panic else ok (n % size)
