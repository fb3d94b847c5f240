-- ===== src/Transport/Tests/StunRuns.antt =====
-- Runs of src/transport/stun.rs on a concrete request.
use light_livechat.Base.{
  ℕ, ◌+◌, ◌%◌, ◌≡◌, refl, ◌↔◌, Bool, true, some, List, [], ◌∷◌, ◌++◌, arith, length, replicate,
  length-replicate, ok,
}
use light_livechat.Transport.Stun.{
  StunAttribute, RemoteAddr, v4, build_binding_response, binding_response, parse_stun,
  verify_message_integrity,
}
use light_livechat.Transport.Stun.Integrity.{IsSigned, verify_message_integrity_exact}
use light_livechat.Transport.Stun.{find_attr}
use light_livechat.Transport.Stun.Signing.{integrity_attr, message_of}
use light_livechat.Transport.Stun.Mapped.{IsMapped}
use light_livechat.Transport.Stun.Response.{answer, build_binding_response_exact}
use light_livechat.Transport.Stun.RoundTrip.{encode_attrs, encode_stun, parse-encode_stun}

abbrev id : List ℕ
id = 1 ∷ 2 ∷ 3 ∷ 4 ∷ 5 ∷ 6 ∷ 7 ∷ 8 ∷ 9 ∷ 10 ∷ 11 ∷ 12 ∷ []

-- USERNAME and USE-CANDIDATE.
abbrev attrs : List StunAttribute
attrs =
    record { attr_type = 6; value = b'a' ∷ b':' ∷ b'b' ∷ [] }
    ∷ record { attr_type = 37; value = [] }
    ∷ []

-- 20 bytes that depend on the message and the key.
abbrev toy_hmac : (message key : List ℕ) → List ℕ
toy_hmac message key = replicate 20 ((length message + length key) % 256)

toy_hmac-length : (message key : List ℕ) → length (toy_hmac message key) ≡ 20
toy_hmac-length message key = length-replicate {A = ℕ} 20 ((length message + length key) % 256)

abbrev mac : List ℕ
mac = replicate 20 37

parse-encode_stun_example :
    parse_stun (encode_stun 1 id attrs ++ (255 ∷ []))
    ≡ ok (
        some (record {
          msg_type = 1;
          length = length (encode_attrs attrs);
          transaction_id = id;
          attributes = attrs;
          raw = encode_stun 1 id attrs;
        }))
parse-encode_stun_example =
    parse-encode_stun 1 id attrs (255 ∷ []) (omega arith) refl
      ((omega arith, omega arith), ((omega arith, omega arith), tt)) (omega arith)

abbrev signed_attrs : List StunAttribute
signed_attrs = attrs ++ (integrity_attr mac ∷ [])

verify_message_integrity_exact_example :
    (accepted : Bool) × (verify_message_integrity toy_hmac (message_of 1 id signed_attrs) (1 ∷ [])
      ≡ ok accepted)
    × ((accepted ≡ true) ↔ IsSigned toy_hmac 1 id signed_attrs (1 ∷ []))
verify_message_integrity_exact_example =
    verify_message_integrity_exact toy_hmac 1 id (1 ∷ []) toy_hmac-length refl signed_attrs
      ((omega arith, omega arith), ((omega arith, omega arith), ((omega arith, omega arith), tt)))

abbrev caller : RemoteAddr
caller = v4 5000 (10 ∷ 0 ∷ 0 ∷ 1 ∷ [])

abbrev toy_crc : List ℕ → ℕ
toy_crc message = length message

build_binding_response_exact_example :
    (build_binding_response toy_hmac toy_crc id caller (1 ∷ [])
      ≡ ok (encode_stun binding_response id (answer toy_hmac toy_crc id caller (1 ∷ []) refl)))
    × (parse_stun
          (encode_stun binding_response id (answer toy_hmac toy_crc id caller (1 ∷ []) refl))
        ≡ ok (
            some
              (message_of binding_response id (answer toy_hmac toy_crc id caller (1 ∷ []) refl))))
    × (verify_message_integrity toy_hmac
          (message_of binding_response id (answer toy_hmac toy_crc id caller (1 ∷ []) refl))
          (1 ∷ [])
        ≡ ok true)
    × ((value : List ℕ) × (find_attr 0x20 (answer toy_hmac toy_crc id caller (1 ∷ []) refl)
          ≡ some (record { attr_type = 0x20; value = value }))
        × IsMapped caller id value)
build_binding_response_exact_example =
    build_binding_response_exact toy_hmac toy_crc id caller (1 ∷ []) refl (omega arith, refl)
      toy_hmac-length
