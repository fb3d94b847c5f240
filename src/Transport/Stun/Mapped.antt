-- ===== src/Transport/Stun/Mapped.antt =====
-- src/transport/stun.rs: XOR-MAPPED-ADDRESS, as a client reads it.
use Prim.Native.Nat.{bit_xor}
use light_livechat.Base.{
  ℕ, suc, ◌≤◌, ◌<◌, ◌≡◌, refl, ap, ◌∙◌, List, [], ◌∷◌, ◌++◌, arith, length, bytes16, bytes32, at,
  at16, drop, be16-bytes16,
}
use light_livechat.Transport.Stun.{
  magic_cookie, RemoteAddr, v4, v6, xor_bytes, encode_xor_mapped_address,
}
use light_livechat.Base.Xor.{bit_xor_twice, bit_xor_below}

-- A port is a u16; an IPv4 address has 4 bytes, an IPv6 address 16.
abbrev pub IsAddr : RemoteAddr → Type 0
IsAddr (v4 port octets) = (port < 65536) × (length octets ≡ 4)
IsAddr (v6 port octets) = (port < 65536) × (length octets ≡ 16)

-- The exclusive or of the bytes, as a client undoes it.
pub unmask : List ℕ → List ℕ → List ℕ
unmask (b ∷ bs) (k ∷ ks) = bit_xor b k ∷ unmask bs ks
unmask [] ks = []
unmask (b ∷ bs) [] = []

-- How a client reads XOR-MAPPED-ADDRESS (RFC 8489, section 14.2): the family, the port under the first 16
-- bits of the magic cookie, the address under the cookie 0x2112A442 and the transaction id behind it.
abbrev pub IsMapped : RemoteAddr → (id value : List ℕ) → Type 0
IsMapped (v4 port octets) id value =
    (at value 0 ≡ 0)
    × (at value 1 ≡ 1)
    × (bit_xor (at16 value 2) 0x2112 ≡ port)
    × (unmask (drop 4 value) (0x21 ∷ 0x12 ∷ 0xA4 ∷ 0x42 ∷ []) ≡ octets)
IsMapped (v6 port octets) id value =
    (at value 0 ≡ 0)
    × (at value 1 ≡ 2)
    × (bit_xor (at16 value 2) 0x2112 ≡ port)
    × (unmask (drop 4 value) (0x21 ∷ 0x12 ∷ 0xA4 ∷ 0x42 ∷ id) ≡ octets)

unmask-xor_bytes : (xs ks : List ℕ) → length xs ≤ length ks → unmask (xor_bytes xs ks) ks ≡ xs
unfolding unmask xor_bytes
unmask-xor_bytes [] ks h = refl
unmask-xor_bytes (x ∷ xs) [] h = absurd (omega arith)
unmask-xor_bytes (x ∷ xs) (k ∷ ks) h =
    let rest = unmask-xor_bytes xs ks (omega arith) in rw (bit_xor_twice x k, rest) refl

port_back :
    (port : ℕ) → port < 65536 → bit_xor (at16 (bytes16 (bit_xor port 0x2112)) 0) 0x2112 ≡ port
port_back port h =
    ap (λ (k : ℕ). bit_xor k 0x2112)
      (be16-bytes16 (bit_xor port 0x2112) (bit_xor_below 16 port 0x2112 h (omega arith)))
    ∙ bit_xor_twice port 0x2112

pub encode-IsMapped :
    (addr : RemoteAddr) (id : List ℕ)
    → IsAddr addr
    → length id ≡ 12
    → IsMapped addr id (encode_xor_mapped_address addr id)
unfolding encode_xor_mapped_address
encode-IsMapped (v4 port octets) id (fits, h) hid = (
  refl,
  refl,
  port_back port fits,
  unmask-xor_bytes octets (bytes32 magic_cookie) (omega (arith, h)),
)
encode-IsMapped (v6 port octets) id (fits, h) hid = (
  refl,
  refl,
  port_back port fits,
  unmask-xor_bytes octets (bytes32 magic_cookie ++ id) (omega (arith, h, hid)),
)

length-xor_bytes : (xs ks : List ℕ) → length xs ≤ length ks → length (xor_bytes xs ks) ≡ length xs
unfolding xor_bytes
length-xor_bytes [] ks h = refl
length-xor_bytes (x ∷ xs) [] h = absurd (omega arith)
length-xor_bytes (x ∷ xs) (k ∷ ks) h = ap suc (length-xor_bytes xs ks (omega arith))

pub mapped_short :
    (addr : RemoteAddr) (id : List ℕ)
    → IsAddr addr
    → length id ≡ 12
    → length (encode_xor_mapped_address addr id) ≤ 20
unfolding encode_xor_mapped_address
mapped_short (v4 port octets) id (_, h) hid =
    omega (arith, length-xor_bytes octets (bytes32 magic_cookie) (omega (arith, h)), h)
mapped_short (v6 port octets) id (_, h) hid =
    omega (arith, length-xor_bytes octets (bytes32 magic_cookie ++ id) (omega (arith, h, hid)), h)
