-- ===== src/Transport/Tests/IceRuns.antt =====
-- Runs of src/transport/ice.rs on a concrete request.
use light_livechat.Base.{
  ℕ, ◌+◌, ◌%◌, ◌≡◌, refl, ◌⊎◌, true, false, List, [], ◌∷◌, ◌++◌, arith, length, replicate,
  length-replicate, ok,
}
use light_livechat.Transport.Stun.{
  StunAttribute, StunMessage, RemoteAddr, v4, binding_request, binding_response, has_use_candidate,
  find_attr,
}
use light_livechat.Transport.Stun.RoundTrip.{encode_stun}
use light_livechat.Transport.Stun.Integrity.{IsSigned}
use light_livechat.Transport.Stun.Signing.{integrity_attr, message_of}
use light_livechat.Transport.Stun.Response.{answer}
use light_livechat.Transport.Ice.{
  IceCredentials, send_response, ignore, username, starts_with, is_utf8, random_ice_string,
  handle_stun_packet,
}
use light_livechat.Transport.Ice.Exchange.{IsFor, handle_stun_packet_exact}

abbrev id : List ℕ
id = replicate 12 7

-- USERNAME and USE-CANDIDATE.
abbrev attrs : List StunAttribute
attrs =
    record { attr_type = 6; value = b'a' ∷ b':' ∷ b'b' ∷ [] }
    ∷ record { attr_type = 37; value = [] }
    ∷ []

-- 20 bytes that depend on the message and the key.
abbrev toy_hmac : (message key : List ℕ) → List ℕ
toy_hmac message key = replicate 20 ((length message + length key) % 256)

toy_hmac-length : (message key : List ℕ) → length (toy_hmac message key) ≡ 20
toy_hmac-length message key = length-replicate {A = ℕ} 20 ((length message + length key) % 256)

abbrev toy_crc : List ℕ → ℕ
toy_crc message = length message

abbrev creds : IceCredentials
creds = record { ufrag = b'a' ∷ []; pwd = 1 ∷ [] }

abbrev caller : RemoteAddr
caller = v4 5000 (10 ∷ 0 ∷ 0 ∷ 1 ∷ [])

abbrev mac : List ℕ
mac = replicate 20 33

abbrev signed_attrs : List StunAttribute
signed_attrs = attrs ++ (integrity_attr mac ∷ [])

abbrev msg : StunMessage
msg = message_of binding_request id (attrs ++ (integrity_attr mac ∷ []))

-- The request is for the server, and it is signed.
asks : IsFor creds msg × IsSigned toy_hmac binding_request id signed_attrs (1 ∷ [])
unfolding username find_attr is_utf8 starts_with
asks = ((b'a' ∷ b':' ∷ b'b' ∷ [], refl, refl), (attrs, [], mac, refl, (refl, (refl, tt)), refl))

two_bytes : is_utf8 0 128 191 (b'a' ∷ 0xC3 ∷ 0xA9 ∷ []) ≡ true
unfolding is_utf8
two_bytes = refl

surrogate : is_utf8 0 128 191 (0xED ∷ 0xA0 ∷ 0x80 ∷ []) ≡ false
unfolding is_utf8
surrogate = refl

random_letters :
    random_ice_string (0 ∷ 9 ∷ 10 ∷ 35 ∷ 36 ∷ []) ≡ b'0' ∷ b'9' ∷ b'a' ∷ b'z' ∷ b'0' ∷ []
unfolding random_ice_string
random_letters = refl

handle_stun_packet_exact_example :
    let buf = encode_stun binding_request id signed_attrs ++ (255 ∷ []) in
    let accepted = IsFor creds msg × IsSigned toy_hmac binding_request id signed_attrs (1 ∷ []) in
    ((handle_stun_packet toy_hmac toy_crc buf caller creds
        ≡ ok (
            send_response
              (encode_stun binding_response id (answer toy_hmac toy_crc id caller (1 ∷ []) refl))
              caller
              (has_use_candidate msg)))
      × accepted)
    ⊎ ((handle_stun_packet toy_hmac toy_crc buf caller creds ≡ ok ignore) × ¬ accepted)
handle_stun_packet_exact_example =
    handle_stun_packet_exact toy_hmac toy_crc caller creds id signed_attrs (255 ∷ [])
      toy_hmac-length refl (omega arith, refl)
      ((omega arith, omega arith), ((omega arith, omega arith), ((omega arith, omega arith), tt)))
      (omega arith)
