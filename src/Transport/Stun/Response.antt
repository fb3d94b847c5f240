-- ===== src/Transport/Stun/Response.antt =====
-- src/transport/stun.rs: the server's Binding Success Response, as a client and the server's own code
-- read it.
use Prim.Native.Nat.{bit_xor}
use light_livechat.Base.{
  ℕ, ◌+◌, ◌-◌, ◌<◌, ◌≡◌, refl, sym, ap, ◌∙◌, true, some, List, [], ◌∷◌, ◌++◌, arith, length,
  length-append, bytes16, bytes32, ok,
}
use mathlib.Core.List.{append_assoc, append-nil}
use light_livechat.Transport.Rtcp.Header.{write_all16}
use light_livechat.Transport.Stun.{
  magic_cookie, binding_response, attr_software, attr_xor_mapped_address, attr_fingerprint,
  StunAttribute, RemoteAddr, encode_xor_mapped_address, write_attr, set_length,
  build_binding_response, parse_stun, find_attr, verify_message_integrity,
}
use light_livechat.Transport.Stun.RoundTrip.{
  encode_attr, encode_attrs, IsAttr, encode_stun, length-encode_attr, parse-encode_stun,
}
use light_livechat.Transport.Stun.Signing.{
  signed_part, integrity_attr, message_of, verify_first_lem,
}
use light_livechat.Transport.Stun.Mapped.{IsAddr, IsMapped, mapped_short, encode-IsMapped}

encode-two : (a b : StunAttribute) → encode_attrs (a ∷ b ∷ []) ≡ encode_attr a ++ encode_attr b
encode-two a b = ap (λ t. encode_attr a ++ t) (append-nil (encode_attr b))

encode-four :
    (a b c d : StunAttribute)
    → encode_attrs (a ∷ b ∷ c ∷ d ∷ [])
      ≡ ((encode_attr a ++ encode_attr b) ++ encode_attr c) ++ encode_attr d
encode-four a b c d =
    ap (λ t. encode_attr a ++ (encode_attr b ++ t)) (encode-two c d)
    ∙ sym (append_assoc (encode_attr a) (encode_attr b) (encode_attr c ++ encode_attr d))
    ∙ sym (append_assoc (encode_attr a ++ encode_attr b) (encode_attr c) (encode_attr d))

-- A response with some length field.
abbrev framed : (id : List ℕ) (n : ℕ) (body : List ℕ) → List ℕ
framed id n body = bytes16 binding_response ++ (bytes16 n ++ (bytes32 magic_cookie ++ (id ++ body)))

write_attr-framed :
    (id : List ℕ) (n : ℕ) (body : List ℕ) (a : StunAttribute)
    → write_attr (framed id n body) a.attr_type a.value ≡ framed id n (body ++ encode_attr a)
unfolding write_attr
write_attr-framed id n body a =
    ap (λ t. bytes16 binding_response ++ (bytes16 n ++ (bytes32 magic_cookie ++ t)))
      (append_assoc id body (encode_attr a))

set_length-framed :
    (id : List ℕ) (n k : ℕ) (body : List ℕ)
    → set_length (framed id n body) k ≡ ok (framed id k body)
set_length-framed id n k body = rw (write_all16 (framed id n body) 2 k (omega arith)) refl

length-framed :
    (id : List ℕ) (n : ℕ) (body : List ℕ)
    → length id ≡ 12
    → length (framed id n body) ≡ 20 + length body
length-framed id n body h = omega (arith, length-append id body, h)

start-framed :
    (id : List ℕ)
    → bytes16 binding_response ++ (bytes16 0 ++ (bytes32 magic_cookie ++ id)) ≡ framed id 0 []
start-framed id =
    ap (λ t. bytes16 binding_response ++ (bytes16 0 ++ (bytes32 magic_cookie ++ t)))
      (sym (append-nil id))

abbrev software : StunAttribute
software = record {
  attr_type = attr_software;
  value =
      b'l' ∷ b'i' ∷ b'g' ∷ b'h' ∷ b't' ∷ b'-' ∷ b'l' ∷ b'i' ∷ b'v' ∷ b'e' ∷ b'c' ∷ b'h' ∷ b'a'
      ∷ b't' ∷ [];
}

module _ (hmac : (message key : List ℕ) → List ℕ) (crc : List ℕ → ℕ) (id : List ℕ)
    (addr : RemoteAddr) (key : List ℕ) (hid : length id ≡ 12) where
  abbrev mapped : StunAttribute
  mapped = record { attr_type = attr_xor_mapped_address; value = encode_xor_mapped_address addr id }

  abbrev body1 : List ℕ
  body1 = encode_attr mapped ++ encode_attr software

  abbrev mac_of : List ℕ
  mac_of = hmac (framed id (length body1 + 24) body1) key

  abbrev body2 : List ℕ
  body2 = body1 ++ encode_attr (integrity_attr mac_of)

  abbrev print : StunAttribute
  print = record {
    attr_type = attr_fingerprint;
    value = bytes32 (bit_xor (crc (framed id (length body2 + 8) body2)) 0x53_54_55_4E);
  }

  abbrev body3 : List ℕ
  body3 = body2 ++ encode_attr print

  built : build_binding_response hmac crc id addr key ≡ ok (framed id (length body3) body3)
  unfolding build_binding_response
  built =
      let n1 : length (framed id 0 body1) - 20 + 24 ≡ length body1 + 24 =
        omega (arith, length-framed id 0 body1 hid) in
      let n2 : length (framed id (length body1 + 24) body2) - 20 + 8 ≡ length body2 + 8 =
        omega (arith, length-framed id (length body1 + 24) body2 hid) in
      let n3 : length (framed id (length body2 + 8) body3) - 20 ≡ length body3 =
        omega (arith, length-framed id (length body2 + 8) body3 hid) in
      rw
        (
          start-framed id,
          write_attr-framed id 0 [] mapped,
          write_attr-framed id 0 (encode_attr mapped) software,
          n1,
          set_length-framed id 0 (length body1 + 24) body1,
          write_attr-framed id (length body1 + 24) body1 (integrity_attr mac_of),
          n2,
          set_length-framed id (length body1 + 24) (length body2 + 8) body2,
          write_attr-framed id (length body2 + 8) body2 print,
          n3,
        )
        (set_length-framed id (length body2 + 8) (length body3) body3)

  abbrev pub answer : List StunAttribute
  answer = mapped ∷ software ∷ integrity_attr mac_of ∷ print ∷ []

  encoded : framed id (length body3) body3 ≡ encode_stun binding_response id answer
  encoded =
      ap (λ t. framed id (length t) t)
        (sym (encode-four mapped software (integrity_attr mac_of) print))

  signed : hmac (signed_part binding_response id (mapped ∷ software ∷ [])) key ≡ mac_of
  signed = ap (λ t. hmac (framed id (length t + 24) t) key) (encode-two mapped software)

  answer_short : IsAddr addr → length mac_of ≡ 20 → length (encode_attrs answer) < 65536
  answer_short ha hm = omega (
    arith,
    encode-four mapped software (integrity_attr mac_of) print,
    ap length (encode-four mapped software (integrity_attr mac_of) print),
    length-append body2 (encode_attr print),
    length-append body1 (encode_attr (integrity_attr mac_of)),
    length-append (encode_attr mapped) (encode_attr software),
    length-encode_attr mapped,
    length-encode_attr software,
    length-encode_attr (integrity_attr mac_of),
    length-encode_attr print,
    mapped_short addr id ha hid,
    hm,
  )

  -- With HMAC values of 20 bytes, a port below 65536 and an address of 4 or 16 bytes,
  -- `build_binding_response` returns the encoding of a Binding Success Response, `parse` reads its
  -- attributes back, and `verify_message_integrity` accepts it under the same key. From its first
  -- XOR-MAPPED-ADDRESS a client gets the address and the port back.
  pub build_binding_response_exact :
      IsAddr addr
      → ((message k : List ℕ) → length (hmac message k) ≡ 20)
      → (build_binding_response hmac crc id addr key ≡ ok (encode_stun binding_response id answer))
        × (parse_stun (encode_stun binding_response id answer)
            ≡ ok (some (message_of binding_response id answer)))
        × (verify_message_integrity hmac (message_of binding_response id answer) key ≡ ok true)
        × ((value : List ℕ) × (find_attr 0x20 answer
              ≡ some (record { attr_type = 0x20; value = value }))
            × IsMapped addr id value)
  unfolding find_attr
  build_binding_response_exact ha out =
      let m20 = out (framed id (length body1 + 24) body1) key in
      let short = answer_short ha m20 in
      let mapped_len = mapped_short addr id ha hid in
      let mapped_good : IsAttr mapped = (omega arith, omega (arith, mapped_len)) in
      let software_good : IsAttr software = (omega arith, omega arith) in
      let mac_good : IsAttr (integrity_attr mac_of) = (omega arith, omega (arith, m20)) in
      let print_good : IsAttr print = (omega arith, omega arith) in
      let (accepted, run, exact) =
        verify_first_lem hmac binding_response id (mapped ∷ software ∷ []) (print ∷ []) mac_of key
          out hid (mapped_good, (software_good, tt)) (refl, (refl, tt)) (omega (arith, m20)) in
      let yes : accepted ≡ true = exact.1 signed in
      (
        built ∙ ap ok encoded,
        ap parse_stun (sym (append-nil (encode_stun binding_response id answer)))
            ∙ parse-encode_stun binding_response id answer [] (omega arith) hid
                (mapped_good, (software_good, (mac_good, (print_good, tt)))) short,
        run ∙ ap ok yes,
        (encode_xor_mapped_address addr id, refl, encode-IsMapped addr id ha hid),
      )
