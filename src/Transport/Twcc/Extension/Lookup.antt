-- ===== src/Transport/Twcc/Extension/Lookup.antt =====
-- src/transport/udp/twcc.rs: the number that `parse_twcc_seq` finds among the elements of a header
-- extension (RFC 5285, one-byte form).
use light_livechat.Base.{
  ℕ, zero, suc, ◌+◌, ◌-◌, ◌*◌, ◌≤◌, ◌<◌, ◌≡◌, refl, sym, ap, ◌∙◌, inl, inr, true, false, ◌&&◌,
  Option, none, some, List, [], ◌∷◌, ◌++◌, arith, ltb, leb, ◌==◌, if◌then◌else◌, lt→ltb, le→ltb,
  Bool-cases, length, length-append, All, low_bits, shr, bit, bytes16, be16-bytes16, ok, read,
  read16, at, at16, read_ok, read16_ok, at-append_left, at_behind, length_behind, read16_behind,
}
use mathlib.Core.List.{append_assoc}
use light_livechat.Transport.Twcc.Extension.{element_loop, parse_twcc_seq}

pub data Element : Type 0 where
  padding : Element
  element : (id : ℕ) (payload : List ℕ) → Element

-- The identifiers 0 and 15 are reserved; the length field has 4 bits.
abbrev pub IsElement : Element → Type 0
IsElement padding = Unit
IsElement (element id payload) = (1 ≤ id) × (id ≤ 14) × (1 ≤ length payload) × (length payload ≤ 16)

abbrev pub encode_element : Element → List ℕ
encode_element padding = 0 ∷ []
encode_element (element id payload) = (id * 16 + (length payload - 1)) ∷ payload

abbrev pub encode_elements : List Element → List ℕ
encode_elements [] = []
encode_elements (e ∷ es) = encode_element e ++ encode_elements es

-- The specification: the first element of that identifier with room for a number.
unfoldable pub find_seq : ℕ → List Element → Option ℕ
find_seq want [] = none
find_seq want (padding ∷ es) = find_seq want es
find_seq want (element id payload ∷ es) =
    let rest = find_seq want es in
    if id == want && leb 2 (length payload) then some (at16 payload 0) else rest

element_fields :
    (id n : ℕ)
    → id ≤ 14
    → 1 ≤ n
    → n ≤ 16
    → (low_bits (shr (id * 16 + (n - 1)) 4) 4 ≡ id) × (low_bits (id * 16 + (n - 1)) 4 + 1 ≡ n)
element_fields id n h k l = (omega arith, omega arith)

two_read :
    (payload more tail : List ℕ)
    → 2 ≤ length payload
    → (at ((payload ++ more) ++ tail) 0 ≡ at payload 0)
      × (at ((payload ++ more) ++ tail) 1 ≡ at payload 1)
two_read [] more tail h = absurd (omega arith)
two_read (a ∷ []) more tail h = absurd (omega arith)
two_read (a ∷ b ∷ payload) more tail h = (refl, refl)

loop_finds :
    (es : List Element) (fuel : ℕ) (pre tail buf : List ℕ) (want pos end_ : ℕ)
    → All IsElement es
    → buf ≡ pre ++ (encode_elements es ++ tail)
    → pos ≡ length pre
    → end_ ≡ length pre + length (encode_elements es)
    → length (encode_elements es) < fuel
    → element_loop fuel buf want end_ pos ≡ ok (find_seq want es)
unfolding element_loop find_seq
loop_finds es zero pre tail buf want pos end_ ok_es whole hp he f = elim f [ ]
loop_finds [] (suc fuel) pre tail buf want pos end_ ok_es whole hp he f =
    let done : ltb pos end_ ≡ false = le→ltb pos end_ (omega arith) in rw (done, element_loop) refl
loop_finds (padding ∷ es) (suc fuel) pre tail buf want pos end_ ok_es whole hp he f =
    let more : ltb pos end_ ≡ true = lt→ltb pos end_ (omega arith) in
    let here : read buf pos ≡ ok 0 =
      read_ok buf pos (omega (arith, length_behind pre _ buf whole))
      ∙ ap ok (at_behind pre _ buf whole pos 0 (omega arith)) in
    rw (more, element_loop, here)
      (loop_finds es fuel (pre ++ (0 ∷ [])) tail buf want (pos + 1) end_ ok_es.1
        (rw (append_assoc pre (0 ∷ []) (encode_elements es ++ tail)) whole)
        (omega (arith, length-append pre (0 ∷ []))) (omega (arith, length-append pre (0 ∷ [])))
        (omega arith))
loop_finds (element id payload ∷ es) (suc fuel) pre tail buf want pos end_
      ((id_low, id_high, len_low, len_high), rest) whole hp he f =
    let byte = id * 16 + (length payload - 1) in
    let (id_eq, len_eq) = element_fields id (length payload) id_high len_low len_high in
    let total : length (encode_elements (element id payload ∷ es))
        ≡ 1 + length payload + length (encode_elements es) =
      omega (arith, length-append payload (encode_elements es)) in
    let more : ltb pos end_ ≡ true = lt→ltb pos end_ (omega (arith, total)) in
    let here : read buf pos ≡ ok byte =
      read_ok buf pos (omega (arith, length_behind pre _ buf whole))
      ∙ ap ok (at_behind pre _ buf whole pos 0 (omega arith)) in
    let not_padding : (byte == 0) ≡ false = ground arith in
    let not_end : (id == 15) ≡ false = ground arith in
    let fits : ltb end_ (pos + 1 + length payload) ≡ false =
      le→ltb end_ (pos + 1 + length payload) (omega (arith, total)) in
    let whole' : buf ≡ (pre ++ (byte ∷ payload)) ++ (encode_elements es ++ tail) =
      rw (append_assoc pre (byte ∷ payload) (encode_elements es ++ tail))
        (whole ∙ ap (λ t. pre ++ (byte ∷ t)) (append_assoc payload (encode_elements es) tail)) in
    let len' = length-append pre (byte ∷ payload) in
    elim (Bool-cases (id == want && leb 2 (length payload))) [
      | inl hit ↦
          let two : 2 ≤ length payload = ground (arith, hit) in
          let (first, second) = two_read payload (encode_elements es) tail two in
          rw
            (
              more,
              element_loop,
              here,
              not_padding,
              id_eq,
              not_end,
              len_eq,
              fits,
              hit,
              read16_ok buf (pos + 1) (
                  omega (
                    arith,
                    length_behind pre _ buf whole,
                    length-append (payload ++ encode_elements es) tail,
                    length-append payload (encode_elements es),
                  )),
              at_behind pre _ buf whole (pos + 1) 1 (omega arith),
              at_behind pre _ buf whole (pos + 1 + 1) 2 (omega arith),
              first,
              second,
            )
            refl
      | inr miss ↦
          rw (more, element_loop, here, not_padding, id_eq, not_end, len_eq, fits, miss)
            (loop_finds es fuel (pre ++ (byte ∷ payload)) tail buf want (pos + 1 + length payload)
              end_ rest whole' (omega (arith, len')) (omega (arith, len', total))
              (omega (arith, total)))
    ]

-- A packet with a header extension: the fixed header and CSRCs, 0xBEDE, the length in words, the
-- elements, the payload.
abbrev pub extended : (header : List ℕ) (words : ℕ) → List Element → (payload : List ℕ) → List ℕ
extended header words es payload =
    header ++ ((0xbe ∷ 0xde ∷ bytes16 words) ++ (encode_elements es ++ payload))

-- In a packet with a well-formed one-byte header extension the parser finds the number in the first
-- element that has the identifier and at least two bytes, whatever padding and other elements stand before
-- it and whatever the payload is, and nothing if there is no such element.
pub parse_twcc_seq-extended :
    (header payload : List ℕ) (words want : ℕ) (es : List Element)
    → bit (at header 0) 4 ≡ true
    → length header ≡ 12 + low_bits (at header 0) 4 * 4
    → words < 65536
    → length (encode_elements es) ≡ words * 4
    → All IsElement es
    → parse_twcc_seq (extended header words es payload) want ≡ ok (find_seq want es)
unfolding parse_twcc_seq
parse_twcc_seq-extended header payload words want es x len fit size elements =
    let buf = extended header words es payload in
    let body = (0xbe ∷ 0xde ∷ bytes16 words) ++ (encode_elements es ++ payload) in
    let off = 12 + low_bits (at header 0) 4 * 4 in
    let total = length-append header body in
    let inner = length-append (encode_elements es) payload in
    let first : read buf 0 ≡ ok (at header 0) =
      read_ok buf 0 (omega (arith, total)) ∙ ap ok (at-append_left header body 0 (omega arith)) in
    let long : ltb (length buf) 12 ≡ false = le→ltb (length buf) 12 (omega (arith, total)) in
    let room : ltb (length buf) (off + 4) ≡ false =
      le→ltb (length buf) (off + 4) (omega (arith, total)) in
    let fits : ltb (length buf) (off + 4 + words * 4) ≡ false =
      le→ltb (length buf) (off + 4 + words * 4) (omega (arith, total, inner)) in
    let profile : read16 buf off ≡ ok 0xbede =
      read16_behind header body buf refl off 0 (omega arith) (omega arith) in
    let count : read16 buf (off + 2) ≡ ok words =
      read16_behind header body buf refl (off + 2) 2 (omega arith) (omega arith)
      ∙ ap ok (be16-bytes16 words fit) in
    let start = header ++ (0xbe ∷ 0xde ∷ bytes16 words) in
    let start_len = length-append header (0xbe ∷ 0xde ∷ bytes16 words) in
    rw (long, first, x, room, profile, count, fits)
      (loop_finds es (words * 4 + 1) start payload buf want (off + 4) (off + 4 + words * 4) elements
        (sym (append_assoc header (0xbe ∷ 0xde ∷ bytes16 words) (encode_elements es ++ payload)))
        (omega (arith, start_len)) (omega (arith, start_len)) (omega arith))
