-- ===== src/Transport/Ice.antt =====
-- src/transport/ice.rs: what an ICE-Lite server makes of a STUN packet. Strings are their UTF-8 bytes;
-- HMAC-SHA1 and CRC-32 are packages: `hmac` and `crc` are what they compute.
pub mod Exchange
use light_livechat.Base.{
  ℕ, zero, suc, ◌+◌, ◌-◌, ◌%◌, Bool, true, false, ◌&&◌, ◌||◌, Option, none, some, List, [], ◌∷◌,
  ◌++◌, map, ltb, leb, ◌==◌, if◌then◌else◌, Outcome, ok, ◌>>=◌, ◌>>◌,
}
use light_livechat.Transport.Stun.{
  StunAttribute, StunMessage, RemoteAddr, parse_stun, get_attr, has_use_candidate, binding_request,
  verify_message_integrity, build_binding_response,
}

pub record IceCredentials : Type 0 where
  pub ufrag : List ℕ
  pub pwd : List ℕ

pub data IceResult : Type 0 where
  send_response : (data_ : List ℕ) (remote : RemoteAddr) (use_candidate : Bool) → IceResult
  ignore : IceResult

abbrev pub attr_username : ℕ
attr_username = 0x0006

-- The first bytes of UTF-8's characters.
is_lead : ℕ → Bool
is_lead b = leb b 0x7F || (leb 0xC2 b && leb b 0xF4)

-- How many bytes follow a first byte, and the range of the next one.
following : ℕ → ℕ
following b = if leb b 0x7F then 0 else if leb b 0xDF then 1 else if leb b 0xEF then 2 else 3

lowest : ℕ → ℕ
lowest b = if b == 0xE0 then 0xA0 else if b == 0xF0 then 0x90 else 0x80

highest : ℕ → ℕ
highest b = if b == 0xED then 0x9F else if b == 0xF4 then 0x8F else 0xBF

-- `std::str::from_utf8` succeeds: inside a character, `need` bytes are still to come, the next one
-- from `lo` to `hi`.
unfoldable pub is_utf8 : (need lo hi : ℕ) → List ℕ → Bool
unfolding is_lead following lowest highest
is_utf8 need lo hi [] = need == 0
is_utf8 zero lo hi (b ∷ bs) = is_lead b && is_utf8 (following b) (lowest b) (highest b) bs
is_utf8 (suc need) lo hi (b ∷ bs) = leb lo b && leb b hi && is_utf8 need 0x80 0xBF bs

-- `from_utf8(a.value).ok()`.
text_in : Option StunAttribute → Option (List ℕ)
unfolding is_utf8
text_in none = none
text_in (some a) = if is_utf8 0 0x80 0xBF a.value then some a.value else none

unfoldable pub username : StunMessage → Option (List ℕ)
unfolding text_in
username msg = text_in (get_attr attr_username msg)

-- `starts_with`.
unfoldable pub starts_with : (prefix : List ℕ) → List ℕ → Bool
starts_with [] text = true
starts_with (x ∷ prefix) [] = false
starts_with (x ∷ prefix) (y ∷ text) = x == y && starts_with prefix text

abbrev pub ice_integrity_key : List ℕ → List ℕ
ice_integrity_key password = password

-- The steps of `handle_stun_packet` behind the username.
answer_user :
    (hmac : (message key : List ℕ) → List ℕ)
    → (crc : List ℕ → ℕ) → RemoteAddr
    → IceCredentials
    → StunMessage
    → Option (List ℕ)
    → Outcome IceResult
answer_user hmac crc remote local_creds msg none = ok ignore
answer_user hmac crc remote local_creds msg (some name) =
    let key = ice_integrity_key local_creds.pwd in
    let answer = (do
      verified ← verify_message_integrity hmac msg key
      let respond = (do
        response ← build_binding_response hmac crc msg.transaction_id remote key
        ok (send_response response remote (has_use_candidate msg)))
      if verified then respond else ok ignore) in
    if starts_with (local_creds.ufrag ++ (b':' ∷ [])) name then answer else ok ignore

answer_message :
    (hmac : (message key : List ℕ) → List ℕ)
    → (crc : List ℕ → ℕ) → RemoteAddr
    → IceCredentials
    → Option StunMessage
    → Outcome IceResult
unfolding answer_user
answer_message hmac crc remote local_creds none = ok ignore
answer_message hmac crc remote local_creds (some msg) =
    if msg.msg_type == binding_request
    then answer_user hmac crc remote local_creds msg (username msg)
    else ok ignore

unfoldable pub handle_stun_packet :
    (hmac : (message key : List ℕ) → List ℕ)
    → (crc : List ℕ → ℕ) → (buf : List ℕ) (remote : RemoteAddr) (local_creds : IceCredentials)
    → Outcome IceResult
unfolding answer_message
handle_stun_packet hmac crc buf remote local_creds = do
  parsed ← parse_stun buf
  answer_message hmac crc remote local_creds parsed

-- `random_ice_string`, with the random bytes as an argument.
unfoldable pub random_ice_string : (bytes : List ℕ) → List ℕ
random_ice_string bytes =
    map (λ (b : ℕ). let r = b % 36 in if ltb r 10 then b'0' + r else b'a' + r - 10) bytes

-- `IceCredentials::new`.
unfoldable pub new_credentials : (first second : List ℕ) → IceCredentials
new_credentials first second = record {
  ufrag = random_ice_string first;
  pwd = random_ice_string second;
}
