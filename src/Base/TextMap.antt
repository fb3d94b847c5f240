-- ===== src/Base/TextMap.antt =====
-- Maps keyed by texts, and what a successful search says of them.
use light_livechat.Base.{
  String, ◌≡◌, sym, ap, ◌∙◌, ◌≢◌, ◌⊎◌, inl, inr, ite, if_pos, if_neg, true, false, Option, none,
  some, string_discrete,
}
use light_livechat.Base.DashMap.{DashMap, get, insert, remove, get-insert, get-remove}

abbrev pub find : {V : Type 0} → String → DashMap String V → Option V
find = get string_discrete

abbrev pub put : {V : Type 0} → String → V → DashMap String V → DashMap String V
put = insert string_discrete

abbrev pub delete : {V : Type 0} → String → DashMap String V → DashMap String V
delete = remove string_discrete

abbrev or_else {ℓ} : {A : Type ℓ} → A → Option A → A
or_else d none = d
or_else d (some a) = a

pub some-injective {ℓ} : {A : Type ℓ} {a b : A} → some a ≡ some b → a ≡ b
some-injective {a} p = ap (or_else a) p

module _ {V : Type 0} (k j : String) (m : DashMap String V) where
  pub find-put_self : (v : V) → k ≡ j → find j (put k v m) ≡ some v
  find-put_self v e = rw (get-insert string_discrete k j v m) (if_pos (string_discrete k j) e _ _)

  pub find-put_ne : (v : V) → k ≢ j → find j (put k v m) ≡ find j m
  find-put_ne v n = rw (get-insert string_discrete k j v m) (if_neg (string_discrete k j) n _ _)

  pub find-delete_self : k ≡ j → find j (delete k m) ≡ none
  find-delete_self e = rw (get-remove string_discrete k j m) (if_pos (string_discrete k j) e _ _)

  pub find-delete_ne : k ≢ j → find j (delete k m) ≡ find j m
  find-delete_ne n = rw (get-remove string_discrete k j m) (if_neg (string_discrete k j) n _ _)

  pub find-put_cases :
      (v : V) {w : V}
      → find j (put k v m) ≡ some w
      → ((k ≡ j) × (v ≡ w)) ⊎ ((k ≢ j) × (find j m ≡ some w))
  find-put_cases v e = elim (string_discrete k j) [
    | yes same ↦ inl (same, some-injective (sym (find-put_self v same) ∙ e))
    | no apart ↦ inr (apart, sym (find-put_ne v apart) ∙ e)
  ]

  pub find-delete_cases : {w : V} → find j (delete k m) ≡ some w → (k ≢ j) × (find j m ≡ some w)
  find-delete_cases {w} e = elim (string_discrete k j) [
    | yes same ↦ absurd (none-some (sym (find-delete_self same) ∙ e))
    | no apart ↦ (apart, sym (find-delete_ne apart) ∙ e)
  ]
    where
      none-some : none ≡ some w → ⊥
      none-some q = cc

pub texts_differ : (s t : String) → ite (string_discrete s t) true false ≡ false → s ≢ t
texts_differ s t h q = let e = if_pos (string_discrete s t) q true false in cc
