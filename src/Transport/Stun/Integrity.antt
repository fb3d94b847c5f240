-- ===== src/Transport/Stun/Integrity.antt =====
-- src/transport/stun.rs: which messages `verify_message_integrity` accepts.
use light_livechat.Base.{
  ℕ, ◌≡◌, refl, sym, ap, ◌∙◌, ◌↔◌, ok-injective, subst, ◌⊎◌, inl, inr, Bool, true, false, none,
  List, [], ◌∷◌, ◌++◌, ◌==◌, ==_iff, Bool-cases, length, All, ok,
}
use light_livechat.Transport.Stun.{StunAttribute, find_attr, verify_value, verify_message_integrity}
use light_livechat.Transport.Stun.RoundTrip.{IsAttr}
use light_livechat.Transport.Stun.Signing.{
  Lacks, signed_part, integrity_attr, message_of, verify_first_lem,
}

-- A MESSAGE-INTEGRITY is among the attributes, and the first one is the HMAC, under the key, of the message
-- up to it, its length field set to end behind it.
abbrev pub IsSigned :
    (hmac : (message key : List ℕ) → List ℕ)
    → (msg_type : ℕ) (id : List ℕ) → List StunAttribute
    → (key : List ℕ) → Type 0
IsSigned hmac msg_type id attrs key =
    (before : List StunAttribute) × (after : List StunAttribute) × (mac : List ℕ) × (attrs
      ≡ before ++ (integrity_attr mac ∷ after))
    × Lacks 8 before
    × (hmac (signed_part msg_type id before) key ≡ mac)

first_integrity :
    (attrs : List StunAttribute)
    → Lacks 8 attrs
      ⊎ ((before : List StunAttribute) × (after : List StunAttribute) × (mac : List ℕ) × (attrs
            ≡ before ++ (integrity_attr mac ∷ after))
          × Lacks 8 before)
first_integrity [] = inl tt
first_integrity (a ∷ attrs) = elim (Bool-cases (a.attr_type == 8)) [
  | inl hit ↦
      let t : a.attr_type ≡ 8 = (==_iff a.attr_type 8).0 hit in
      inr ([], attrs, a.value, ap (λ n. record { attr_type = n; value = a.value } ∷ attrs) t, tt)
  | inr miss ↦ elim (first_integrity attrs) [
    | inl lacks ↦ inl (miss, lacks)
    | inr (before, after, mac, q, lacks) ↦
        inr (a ∷ before, after, mac, ap (λ t. a ∷ t) q, (miss, lacks))
  ]
]

Lacks-find_attr :
    (target : ℕ) (attrs : List StunAttribute) → Lacks target attrs → find_attr target attrs ≡ none
unfolding find_attr
Lacks-find_attr target [] lacks = refl
Lacks-find_attr target (a ∷ attrs) (miss, lacks) = rw miss (Lacks-find_attr target attrs lacks)

All-split :
    (before after : List StunAttribute) (a : StunAttribute)
    → All IsAttr (before ++ (a ∷ after))
    → All IsAttr before × IsAttr a
All-split [] after a (first, _) = (tt, first)
All-split (b ∷ before) after a (first, good) =
    let (rest, here) = All-split before after a good in ((first, rest), here)

module _ (hmac : (message key : List ℕ) → List ℕ) (msg_type : ℕ) (id : List ℕ) (key : List ℕ)
    (out : (message k : List ℕ) → length (hmac message k) ≡ 20) (hid : length id ≡ 12) where
  at_split :
      (attrs before after : List StunAttribute) (mac : List ℕ)
      → All IsAttr attrs
      → attrs ≡ before ++ (integrity_attr mac ∷ after)
      → Lacks 8 before
      → (accepted : Bool) × (verify_message_integrity hmac (message_of msg_type id attrs) key
          ≡ ok accepted)
        × ((accepted ≡ true) ↔ (hmac (signed_part msg_type id before) key ≡ mac))
  at_split attrs before after mac good q lacks =
      let (good_before, (_, short)) =
        All-split before after (integrity_attr mac) (subst (All IsAttr) q good) in
      let (accepted, run, exact) =
        verify_first_lem hmac msg_type id before after mac key out hid good_before lacks short in
      (
        accepted,
        ap (λ t. verify_message_integrity hmac (message_of msg_type id t) key) q ∙ run,
        exact,
      )

  signed_accepted :
      (attrs : List StunAttribute) (accepted : Bool)
      → All IsAttr attrs
      → verify_message_integrity hmac (message_of msg_type id attrs) key ≡ ok accepted
      → IsSigned hmac msg_type id attrs key
      → accepted ≡ true
  signed_accepted attrs accepted good run (before, after, mac, q, lacks, h) =
      let (same, run', exact) = at_split attrs before after mac good q lacks in
      ok-injective (sym run ∙ run') ∙ exact.1 h

  -- With HMAC values of 20 bytes, `verify_message_integrity` returns on every message that `parse` makes of
  -- encoded attributes, and accepts it exactly when a MESSAGE-INTEGRITY is among the attributes and the
  -- first one is the HMAC, under the key, of the message up to that attribute, its length field set to
  -- end behind it. A message without one, or with one of another length, is rejected; attributes
  -- that follow it are not signed and do not matter.
  pub verify_message_integrity_exact :
      (attrs : List StunAttribute)
      → All IsAttr attrs
      → (accepted : Bool) × (verify_message_integrity hmac (message_of msg_type id attrs) key
          ≡ ok accepted)
        × ((accepted ≡ true) ↔ IsSigned hmac msg_type id attrs key)
  unfolding verify_message_integrity verify_value
  verify_message_integrity_exact attrs good = elim (first_integrity attrs) [
    | inr (before, after, mac, q, lacks) ↦
        let (accepted, run, exact) = at_split attrs before after mac good q lacks in
        (
          accepted,
          run,
          (
            (λ h. (before, after, mac, q, lacks, exact.0 h)),
            signed_accepted attrs accepted good run,
          ),
        )
    | inl lacks ↦
        let run : verify_message_integrity hmac (message_of msg_type id attrs) key ≡ ok false =
          rw (Lacks-find_attr 8 attrs lacks) refl in
        (false, run, ((λ (h : false ≡ true). cc), signed_accepted attrs false good run))
  ]
