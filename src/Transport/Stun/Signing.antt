-- ===== src/Transport/Stun/Signing.antt =====
-- src/transport/stun.rs: `verify_message_integrity` on a message that has a MESSAGE-INTEGRITY.
use light_livechat.Base.{
  ℕ, zero, suc, ◌+◌, ◌-◌, ◌<◌, ◌≡◌, refl, sym, ap, ◌∙◌, ◌↔◌, inl, inr, Bool, ◌&&◌, true, false,
  some, List, [], ◌∷◌, ◌++◌, arith, leb, ◌==◌, le→leb, ==_iff, Bool-cases, length, get_or, drop,
  length-append, All, align4, bytes16, bytes32, be16-bytes16, ok, read16, slice, length_behind,
  read16_behind,
}
use mathlib.Core.List.{append_assoc}
use light_livechat.Transport.Rtcp.Header.{write_all16}
use light_livechat.Transport.Stun.{
  magic_cookie, StunAttribute, StunMessage, find_attr, offset_loop, find_attr_offset, same_bytes,
  verify_at, verify_value, verify_message_integrity,
}
use light_livechat.Transport.Stun.RoundTrip.{
  encode_attr, encode_attrs, IsAttr, encode_stun, length-encode_attr, slice_behind,
}

-- None of the attributes has the type.
abbrev pub Lacks : (attr_type : ℕ) → List StunAttribute → Type 0
Lacks attr_type attrs = All (λ (a : StunAttribute). (a.attr_type == attr_type) ≡ false) attrs

find-append :
    (target : ℕ) (before after : List StunAttribute) (a : StunAttribute)
    → Lacks target before
    → (a.attr_type == target) ≡ true
    → find_attr target (before ++ (a ∷ after)) ≡ some a
unfolding find_attr
find-append target [] after a lacks hit = rw hit refl
find-append target (b ∷ before) after a (miss, lacks) hit =
    rw miss (find-append target before after a lacks hit)

offset_lem :
    (before : List StunAttribute) (fuel : ℕ) (pre rest raw : List ℕ) (a : StunAttribute)
    (target offset : ℕ)
    → All IsAttr before
    → IsAttr a
    → Lacks target before
    → (a.attr_type == target) ≡ true
    → raw ≡ pre ++ (encode_attrs before ++ (encode_attr a ++ rest))
    → offset ≡ length pre
    → length (encode_attrs before) < fuel
    → offset_loop fuel raw target offset ≡ ok (some (offset + length (encode_attrs before)))
unfolding offset_loop
offset_lem before zero pre rest raw a target offset good small lacks hit whole ho f = elim f [ ]
offset_lem [] (suc fuel) pre rest raw a target offset good (small, _) lacks hit whole ho f =
    let len = length_behind pre (encode_attr a ++ rest) raw whole in
    let more : leb (offset + 4) (length raw) ≡ true =
      le→leb (offset + 4) (length raw) (omega (arith, len)) in
    let r0 : read16 raw offset ≡ ok a.attr_type =
      read16_behind pre (encode_attr a ++ rest) raw whole offset 0 (omega arith) (omega arith)
      ∙ ap ok (be16-bytes16 a.attr_type small) in
    let z : offset + 0 ≡ offset = omega arith in rw (more, offset_loop, r0, hit, z) refl
offset_lem (b ∷ before) (suc fuel) pre rest raw a target offset ((type_fits, len_fits), good) small
      (miss, lacks) hit whole ho f =
    let ys = encode_attrs (b ∷ before) ++ (encode_attr a ++ rest) in
    let len = length_behind pre ys raw whole in
    let one = length-encode_attr b in
    let both = length-append (encode_attr b) (encode_attrs before) in
    let next = length-append pre (encode_attr b) in
    let more : leb (offset + 4) (length raw) ≡ true =
      le→leb (offset + 4) (length raw) (omega (arith, len)) in
    let r0 : read16 raw offset ≡ ok b.attr_type =
      read16_behind pre ys raw whole offset 0 (omega arith) (omega arith)
      ∙ ap ok (be16-bytes16 b.attr_type type_fits) in
    let r2 : read16 raw (offset + 2) ≡ ok (length b.value) =
      read16_behind pre ys raw whole (offset + 2) 2 (omega arith) (omega arith)
      ∙ ap ok (be16-bytes16 (length b.value) len_fits) in
    let whole' : raw ≡ (pre ++ encode_attr b) ++ (encode_attrs before ++ (encode_attr a ++ rest)) =
      whole
      ∙ ap (λ t. pre ++ t)
          (append_assoc (encode_attr b) (encode_attrs before) (encode_attr a ++ rest))
      ∙ sym (append_assoc pre (encode_attr b) (encode_attrs before ++ (encode_attr a ++ rest))) in
    let found =
      offset_lem before fuel (pre ++ encode_attr b) rest raw a target
        (offset + (4 + align4 (length b.value))) good small lacks hit whole'
        (omega (arith, next, one)) (omega (arith, one, both)) in
    let sum : offset + (4 + align4 (length b.value)) + length (encode_attrs before)
        ≡ offset + length (encode_attrs (b ∷ before)) =
      omega (arith, one, both) in
    rw (more, offset_loop, r0, miss, r2) (found ∙ ap (λ n. ok (some n)) sum)

same_bytes_iff : (xs ys : List ℕ) → length xs ≡ length ys → (same_bytes xs ys ≡ true) ↔ (xs ≡ ys)
unfolding same_bytes
same_bytes_iff [] [] e = (λ _. refl, λ _. refl)
same_bytes_iff [] (y ∷ ys) e = absurd (omega (arith, e))
same_bytes_iff (x ∷ xs) [] e = absurd (omega (arith, e))
same_bytes_iff (x ∷ xs) (y ∷ ys) e =
    let (sound, complete) = same_bytes_iff xs ys (omega (arith, e)) in
    elim (Bool-cases (x == y)) [
      | inl hit ↦
          let head : x ≡ y = (==_iff x y).0 hit in
          rw hit ((λ h. let rest : xs ≡ ys = sound h in cc), λ q. complete (ap (drop 1) q))
      | inr miss ↦ rw miss (
        (λ h. cc),
        λ q. let t : (x == y) ≡ true = (==_iff x y).1 (ap (λ l. get_or l 0 0) q) in cc,
      )
    ]

-- Lists of any lengths.
matching_bytes :
    (xs ys : List ℕ) → ((length xs == length ys && same_bytes xs ys) ≡ true) ↔ (xs ≡ ys)
matching_bytes xs ys = elim (Bool-cases (length xs == length ys)) [
  | inl same_len ↦ rw same_len (same_bytes_iff xs ys ((==_iff (length xs) (length ys)).0 same_len))
  | inr apart ↦ rw apart (
    (λ h. cc),
    λ q.
        let t : (length xs == length ys) ≡ true =
          (==_iff (length xs) (length ys)).1 (ap (λ (l : List ℕ). length l) q) in
        cc,
  )
]

encode-append :
    (before after : List StunAttribute) (a : StunAttribute)
    → encode_attrs (before ++ (a ∷ after))
      ≡ encode_attrs before ++ (encode_attr a ++ encode_attrs after)
encode-append [] after a = refl
encode-append (b ∷ before) after a =
    ap (λ t. encode_attr b ++ t) (encode-append before after a)
    ∙ sym (append_assoc (encode_attr b) (encode_attrs before) (encode_attr a ++ encode_attrs after))

-- What RFC 8489 signs: the message up to the attribute, with the length that ends behind it.
abbrev pub signed_part : (msg_type : ℕ) (transaction_id : List ℕ) → List StunAttribute → List ℕ
signed_part msg_type transaction_id before =
    bytes16 msg_type
    ++ (bytes16 (length (encode_attrs before) + 24)
        ++ (bytes32 magic_cookie ++ (transaction_id ++ encode_attrs before)))

abbrev pub integrity_attr : List ℕ → StunAttribute
integrity_attr mac = record { attr_type = 8; value = mac }

-- The message that `parse` makes of these attributes.
abbrev pub message_of : (msg_type : ℕ) (transaction_id : List ℕ) → List StunAttribute → StunMessage
message_of msg_type transaction_id attrs = record {
  msg_type = msg_type;
  length = length (encode_attrs attrs);
  transaction_id = transaction_id;
  attributes = attrs;
  raw = encode_stun msg_type transaction_id attrs;
}

-- A message whose first MESSAGE-INTEGRITY stands behind `before`.
pub verify_first_lem :
    (hmac : (message key : List ℕ) → List ℕ) (msg_type : ℕ) (id : List ℕ)
    (before after : List StunAttribute) (mac key : List ℕ)
    → ((message k : List ℕ) → length (hmac message k) ≡ 20)
    → length id ≡ 12
    → All IsAttr before
    → Lacks 8 before
    → length mac < 65536
    → (accepted : Bool) × (verify_message_integrity hmac
          (message_of msg_type id (before ++ (integrity_attr mac ∷ after)))
          key
        ≡ ok accepted)
      × ((accepted ≡ true) ↔ (hmac (signed_part msg_type id before) key ≡ mac))
unfolding verify_message_integrity verify_value verify_at find_attr_offset
verify_first_lem hmac msg_type id before after mac key out hid good lacks mac_len =
    let a = integrity_attr mac in
    let attrs = before ++ (a ∷ after) in
    let raw = encode_stun msg_type id attrs in
    let n = length (encode_attrs attrs) in
    let m = length (encode_attrs before) in
    let pre = bytes16 msg_type ++ (bytes16 n ++ (bytes32 magic_cookie ++ id)) in
    let rest = encode_attr a ++ encode_attrs after in
    let whole : raw ≡ pre ++ (encode_attrs before ++ rest) =
      ap (λ t. pre ++ t) (encode-append before after a) in
    let pre_len : length pre ≡ 20 = omega (arith, hid) in
    let raw_len = length_behind pre (encode_attrs before ++ rest) raw whole in
    let both = length-append (encode_attrs before) rest in
    let found : offset_loop (length raw + 1) raw 8 20 ≡ ok (some (20 + m)) =
      offset_lem before (length raw + 1) pre (encode_attrs after) raw a 8 20 good
        (omega arith, mac_len) lacks refl whole (sym pre_len) (omega (arith, raw_len, both)) in
    let there : find_attr 8 attrs ≡ some a = find-append 8 before after a lacks refl in
    let prefix_read : slice raw 0 (20 + m) ≡ ok (pre ++ encode_attrs before) =
      slice_behind [] (pre ++ encode_attrs before) rest raw 0 (20 + m)
        (whole ∙ sym (append_assoc pre (encode_attrs before) rest)) refl
        (omega (arith, length-append pre (encode_attrs before), pre_len)) in
    let adjusted : 20 + m - 20 + 24 ≡ m + 24 = omega arith in
    let expected = hmac (signed_part msg_type id before) key in
    (
      length expected == length mac && same_bytes expected mac,
      rw
          (
            there,
            found,
            prefix_read,
            adjusted,
            write_all16 (pre ++ encode_attrs before) 2 (m + 24) (omega arith),
          )
          refl,
      matching_bytes expected mac,
    )
