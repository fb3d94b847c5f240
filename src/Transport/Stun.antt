-- ===== src/Transport/Stun.antt =====
-- src/transport/stun.rs: STUN messages. HMAC-SHA1 and CRC-32 are packages: `hmac` and `crc` are what
-- they compute.
pub mod Parsing
pub mod RoundTrip
pub mod Signing
pub mod Integrity
pub mod Mapped
pub mod Response
use Prim.Native.Nat.{bit_xor}
use light_livechat.Base.{
  ℕ, zero, suc, ◌+◌, ◌-◌, ◌%◌, Bool, true, false, ◌&&◌, Option, none, some, List, [], ◌∷◌, ◌++◌,
  ltb, leb, ◌==◌, if◌then◌else◌, length, replicate, low_bits, shr, align4, bytes16, bytes32,
  Outcome, ok, out_of_fuel, read, read16, read32, slice, write_all, ◌>>=◌, ◌>>◌,
}

abbrev pub magic_cookie : ℕ
magic_cookie = 0x21_12_A4_42

abbrev pub header_size : ℕ
header_size = 20

abbrev pub binding_request : ℕ
binding_request = 0x0001

abbrev pub binding_response : ℕ
binding_response = 0x0101

abbrev pub attr_message_integrity : ℕ
attr_message_integrity = 0x0008

abbrev pub attr_xor_mapped_address : ℕ
attr_xor_mapped_address = 0x0020

abbrev pub attr_priority : ℕ
attr_priority = 0x0024

abbrev pub attr_use_candidate : ℕ
attr_use_candidate = 0x0025

abbrev pub attr_fingerprint : ℕ
attr_fingerprint = 0x8028

abbrev pub attr_software : ℕ
attr_software = 0x8022

pub record StunAttribute : Type 0 where
  pub attr_type : ℕ
  pub value : List ℕ

pub record StunMessage : Type 0 where
  pub msg_type : ℕ
  pub length : ℕ
  pub transaction_id : List ℕ
  pub attributes : List StunAttribute
  pub raw : List ℕ

-- `while offset + 4 <= total_len`.
unfoldable pub attr_loop :
    (fuel : ℕ) → List ℕ → (total_len offset : ℕ) → Outcome (List StunAttribute)
attr_loop zero buf total_len offset = out_of_fuel
attr_loop (suc fuel) buf total_len offset = elim (leb (offset + 4) total_len) [
  | true ↦ do
    attr_type ← read16 buf offset
    attr_len ← read16 buf (offset + 2)
    let more = (do
      value ← slice buf (offset + 4) (offset + 4 + attr_len)
      rest ← attr_loop fuel buf total_len (offset + 4 + align4 attr_len)
      ok (record { attr_type = attr_type; value = value } ∷ rest))
    if ltb total_len (offset + 4 + attr_len) then ok [] else more
  | false ↦ ok []
]

-- `parse`. The loop's fuel is the length of the attributes, plus 1.
unfoldable pub parse_stun : List ℕ → Outcome (Option StunMessage)
parse_stun buf = if ltb (length buf) header_size then ok none else (do
  b0 ← read buf 0
  msg_type ← read16 buf 0
  length_ ← read16 buf 2
  cookie ← read32 buf 4
  let total_len = header_size + length_
  let message = (do
    transaction_id ← slice buf 8 20
    attributes ← attr_loop (length_ + 1) buf total_len header_size
    raw ← slice buf 0 total_len
    ok (
        some (record {
          msg_type = msg_type;
          length = length_;
          transaction_id = transaction_id;
          attributes = attributes;
          raw = raw;
        })))
  if low_bits (shr b0 6) 2 == 0
      then (if cookie == magic_cookie
          then (if length_ % 4 == 0
              then (if ltb (length buf) total_len then ok none else message)
              else ok none)
          else ok none)
      else ok none)

unfoldable pub find_attr : (attr_type : ℕ) → List StunAttribute → Option StunAttribute
find_attr attr_type [] = none
find_attr attr_type (a ∷ attrs) =
    let rest = find_attr attr_type attrs in if a.attr_type == attr_type then some a else rest

abbrev pub get_attr : (attr_type : ℕ) → StunMessage → Option StunAttribute
get_attr attr_type msg = find_attr attr_type msg.attributes

is_present : Option StunAttribute → Bool
is_present none = false
is_present (some _) = true

unfoldable pub has_use_candidate : StunMessage → Bool
unfolding is_present
has_use_candidate msg = is_present (get_attr attr_use_candidate msg)

priority_in : Option StunAttribute → Outcome (Option ℕ)
priority_in none = ok none
priority_in (some a) =
    if length a.value == 4 then (do p ← read32 a.value 0; ok (some p)) else ok none

unfoldable pub priority : StunMessage → Outcome (Option ℕ)
unfolding priority_in
priority msg = priority_in (get_attr attr_priority msg)

-- The `value` of an attribute that is there.
abbrev pub value_of : Option StunAttribute → Option (List ℕ)
value_of none = none
value_of (some a) = some a.value

abbrev pub message_integrity : StunMessage → Option (List ℕ)
message_integrity msg = value_of (get_attr attr_message_integrity msg)

-- `write_attr`, which pads with zeros to 4 bytes.
unfoldable pub write_attr : List ℕ → (attr_type : ℕ) → (value : List ℕ) → List ℕ
write_attr buf attr_type value =
    buf
    ++ (bytes16 attr_type
        ++ (bytes16 (length value) ++ (value ++ replicate ((4 - length value % 4) % 4) 0)))

-- The remote address: a port, and 4 or 16 bytes.
pub data RemoteAddr : Type 0 where
  v4 : (port : ℕ) (octets : List ℕ) → RemoteAddr
  v6 : (port : ℕ) (octets : List ℕ) → RemoteAddr

-- `a[i] ^ b[i]`.
unfoldable pub xor_bytes : List ℕ → List ℕ → List ℕ
xor_bytes [] key = []
xor_bytes (x ∷ xs) [] = []
xor_bytes (x ∷ xs) (k ∷ ks) = bit_xor x k ∷ xor_bytes xs ks

unfoldable pub encode_xor_mapped_address : RemoteAddr → (transaction_id : List ℕ) → List ℕ
encode_xor_mapped_address (v4 port octets) transaction_id =
    0
    ∷ 1
    ∷ (bytes16 (bit_xor port (shr magic_cookie 16)) ++ xor_bytes octets (bytes32 magic_cookie))
encode_xor_mapped_address (v6 port octets) transaction_id =
    0
    ∷ 2
    ∷ (bytes16 (bit_xor port (shr magic_cookie 16))
        ++ xor_bytes octets (bytes32 magic_cookie ++ transaction_id))

-- `buf[2..4].copy_from_slice(&(len as u16).to_be_bytes())`.
abbrev set_length : List ℕ → ℕ → Outcome (List ℕ)
set_length buf len = write_all buf 2 (bytes16 len)

unfoldable pub build_binding_response :
    (hmac : (message key : List ℕ) → List ℕ)
    → (crc : List ℕ → ℕ) → (transaction_id : List ℕ) → RemoteAddr
    → (integrity_key : List ℕ) → Outcome (List ℕ)
build_binding_response hmac crc transaction_id remote_addr integrity_key = do
  let start = bytes16 binding_response ++ (bytes16 0 ++ (bytes32 magic_cookie ++ transaction_id))
  let mapped =
      write_attr start attr_xor_mapped_address
        (encode_xor_mapped_address remote_addr transaction_id)
  let named = write_attr mapped attr_software (
      b'l' ∷ b'i' ∷ b'g' ∷ b'h' ∷ b't' ∷ b'-' ∷ b'l' ∷ b'i' ∷ b'v' ∷ b'e' ∷ b'c' ∷ b'h' ∷ b'a'
      ∷ b't' ∷ [])
  buf1 ← set_length named (length named - header_size + 24)
  let signed = write_attr buf1 attr_message_integrity (hmac buf1 integrity_key)
  buf2 ← set_length signed (length signed - header_size + 8)
  let printed = write_attr buf2 attr_fingerprint (bytes32 (bit_xor (crc buf2) 0x53_54_55_4E))
  set_length printed (length printed - header_size)

-- `while offset + 4 <= total`.
unfoldable pub offset_loop :
    (fuel : ℕ) → (raw : List ℕ) → (target_type offset : ℕ) → Outcome (Option ℕ)
offset_loop zero raw target_type offset = out_of_fuel
offset_loop (suc fuel) raw target_type offset = elim (leb (offset + 4) (length raw)) [
  | true ↦ do
    attr_type ← read16 raw offset
    let more = (do
      attr_len ← read16 raw (offset + 2)
      offset_loop fuel raw target_type (offset + (4 + align4 attr_len)))
    if attr_type == target_type then ok (some offset) else more
  | false ↦ ok none
]

unfoldable pub find_attr_offset : (raw : List ℕ) → (target_type : ℕ) → Outcome (Option ℕ)
find_attr_offset raw target_type = offset_loop (length raw + 1) raw target_type header_size

-- `zip(…).all(|(a, b)| a == b)`, on lists of the same length.
unfoldable pub same_bytes : List ℕ → List ℕ → Bool
same_bytes [] ys = true
same_bytes (x ∷ xs) [] = true
same_bytes (x ∷ xs) (y ∷ ys) = x == y && same_bytes xs ys

verify_at :
    (hmac : (message key : List ℕ) → List ℕ)
    → StunMessage
    → (key received_hmac : List ℕ) → Option ℕ
    → Outcome Bool
verify_at hmac msg key received_hmac none = ok false
verify_at hmac msg key received_hmac (some mi_offset) = do
  prefix ← slice msg.raw 0 mi_offset
  tmp ← set_length prefix (mi_offset - header_size + 24)
  let expected = hmac tmp key
  ok (length expected == length received_hmac && same_bytes expected received_hmac)

verify_value :
    (hmac : (message key : List ℕ) → List ℕ)
    → StunMessage
    → (key : List ℕ) → Option (List ℕ)
    → Outcome Bool
unfolding verify_at
verify_value hmac msg key none = ok false
verify_value hmac msg key (some received_hmac) = do
  mi_offset ← find_attr_offset msg.raw attr_message_integrity
  verify_at hmac msg key received_hmac mi_offset

unfoldable pub verify_message_integrity :
    (hmac : (message key : List ℕ) → List ℕ) → StunMessage → (key : List ℕ) → Outcome Bool
unfolding verify_value
verify_message_integrity hmac msg key = verify_value hmac msg key (message_integrity msg)
