-- ===== src/Transport/Ice/Exchange.antt =====
-- src/transport/ice.rs: which Binding Requests are answered.
use light_livechat.Base.{
  ℕ, ◌<◌, ◌≡◌, refl, ◌⊎◌, inl, inr, true, some, List, [], ◌∷◌, ◌++◌, arith, Bool-cases,
  Option-cases, length, All, ok,
}
use light_livechat.Transport.Stun.{
  StunAttribute, StunMessage, RemoteAddr, parse_stun, has_use_candidate, binding_request,
  binding_response,
}
use light_livechat.Transport.Stun.RoundTrip.{encode_attrs, IsAttr, encode_stun, parse-encode_stun}
use light_livechat.Transport.Stun.Signing.{message_of}
use light_livechat.Transport.Stun.Integrity.{IsSigned, verify_message_integrity_exact}
use light_livechat.Transport.Stun.Mapped.{IsAddr}
use light_livechat.Transport.Stun.Response.{answer, build_binding_response_exact}
use light_livechat.Transport.Ice.{
  IceCredentials, send_response, ignore, username, starts_with, handle_stun_packet,
}

-- The message is for the server that has the credentials: its USERNAME is UTF-8 and begins with the
-- server's ufrag and a colon.
abbrev pub IsFor : IceCredentials → StunMessage → Type 0
IsFor creds msg =
    (name : List ℕ) × (username msg ≡ some name)
    × (starts_with (creds.ufrag ++ (b':' ∷ [])) name ≡ true)

module _ (hmac : (message key : List ℕ) → List ℕ) (crc : List ℕ → ℕ) (remote : RemoteAddr)
    (creds : IceCredentials) (id : List ℕ) (attrs : List StunAttribute) (tail : List ℕ)
    (out : (message k : List ℕ) → length (hmac message k) ≡ 20) (hid : length id ≡ 12)
    (is_addr : IsAddr remote) (good : All IsAttr attrs)
    (fits : length (encode_attrs attrs) < 65536) where
  abbrev msg : StunMessage
  msg = message_of binding_request id attrs

  parsed : parse_stun (encode_stun binding_request id attrs ++ tail) ≡ ok (some msg)
  parsed = parse-encode_stun binding_request id attrs tail (omega arith) hid good fits

  -- With HMAC values of 20 bytes: on a Binding Request of encoded attributes, whatever follows it in the
  -- datagram, `handle_stun_packet` returns. If the USERNAME begins with the server's ufrag and a colon,
  -- a MESSAGE-INTEGRITY is there, and the first one is the HMAC of the message up to it under the
  -- server's password, it sends the Binding Success Response of this request to the remote address,
  -- and reports USE-CANDIDATE; otherwise, with no MESSAGE-INTEGRITY or one of another length too, it
  -- ignores the packet.
  pub handle_stun_packet_exact :
      let buf = encode_stun binding_request id attrs ++ tail in
      let accepted = IsFor creds msg × IsSigned hmac binding_request id attrs creds.pwd in
      ((handle_stun_packet hmac crc buf remote creds
          ≡ ok (
              send_response
                (encode_stun binding_response id (answer hmac crc id remote creds.pwd hid))
                remote
                (has_use_candidate msg)))
        × accepted)
      ⊎ ((handle_stun_packet hmac crc buf remote creds ≡ ok ignore) × ¬ accepted)
  unfolding handle_stun_packet
  handle_stun_packet_exact =
      let (accepted, run, exact) =
        verify_message_integrity_exact hmac binding_request id creds.pwd out hid attrs good in
      let (built, _, _, _) =
        build_binding_response_exact hmac crc id remote creds.pwd hid is_addr out in
      elim (Option-cases (username msg)) [
        | inl q ↦ inr (rw (parsed, q) refl, λ ((name, p, _), _). cc)
        | inr (name, q) ↦ elim (Bool-cases (starts_with (creds.ufrag ++ (b':' ∷ [])) name)) [
          | inl for_us ↦ elim (Bool-cases accepted) [
            | inl hit ↦
                inl (rw (parsed, q, for_us, run, hit, built) refl, ((name, q, for_us), exact.0 hit))
            | inr miss ↦
                inr (rw (parsed, q, for_us, run, miss) refl, λ (_, m). (let y = exact.1 m in cc))
          ]
          | inr other ↦ inr (rw (parsed, q, other) refl, λ ((n, p, h), _). cc)
        ]
      ]
