-- ===== src/Transport/Stun/RoundTrip.antt =====
-- src/transport/stun.rs: what `parse` finds in a well-formed message (RFC 8489), and in the
-- server's own responses.
use light_livechat.Base.{
  ℕ, zero, suc, ◌+◌, ◌-◌, ◌/◌, ◌%◌, ◌<◌, ◌≡◌, refl, sym, ap, ◌∙◌, true, false, some, List, [], ◌∷◌,
  ◌++◌, arith, ltb, leb, ◌==◌, le→ltb, le→leb, lt→leb, ==_iff, length, replicate, length-append,
  length-replicate, take-append, drop-append, All, low_bits, shr, align4, bytes16, bytes32,
  be16-bytes16, be32-bytes32, ok, read, read16, read32, slice, slice_ok, read_ok, read16_ok,
  read32_ok, read16_behind,
}
use mathlib.Core.List.{append_assoc}
use light_livechat.Transport.Stun.{magic_cookie, StunAttribute, attr_loop, parse_stun}

-- An attribute as RFC 8489 lays it out: type, length, value, zeros up to 4 bytes.
abbrev pub padding_of : List ℕ → List ℕ
padding_of value = replicate ((4 - length value % 4) % 4) 0

abbrev pub encode_attr : StunAttribute → List ℕ
encode_attr a = bytes16 a.attr_type ++ (bytes16 (length a.value) ++ (a.value ++ padding_of a.value))

abbrev pub encode_attrs : List StunAttribute → List ℕ
encode_attrs [] = []
encode_attrs (a ∷ attrs) = encode_attr a ++ encode_attrs attrs

abbrev pub IsAttr : StunAttribute → Type 0
IsAttr a = (a.attr_type < 65536) × (length a.value < 65536)

abbrev pub encode_stun : (msg_type : ℕ) (transaction_id : List ℕ) → List StunAttribute → List ℕ
encode_stun msg_type transaction_id attrs =
    bytes16 msg_type
    ++ (bytes16 (length (encode_attrs attrs))
        ++ (bytes32 magic_cookie ++ (transaction_id ++ encode_attrs attrs)))

pub length-encode_attr : (a : StunAttribute) → length (encode_attr a) ≡ 4 + align4 (length a.value)
length-encode_attr a = omega (
  arith,
  length-append a.value (padding_of a.value),
  length-replicate {A = ℕ} ((4 - length a.value % 4) % 4) 0,
)

whole_words : (attrs : List StunAttribute) → length (encode_attrs attrs) % 4 ≡ 0
whole_words [] = refl
whole_words (a ∷ attrs) = omega (
  arith,
  length-append (encode_attr a) (encode_attrs attrs),
  length-encode_attr a,
  whole_words attrs,
)

-- A slice where a block stands.
pub slice_behind :
    (pre block post buf : List ℕ) (i j : ℕ)
    → buf ≡ pre ++ (block ++ post)
    → i ≡ length pre
    → j ≡ length pre + length block
    → slice buf i j ≡ ok block
slice_behind pre block post buf i j whole hi hj =
    let n : length pre + length block - length pre ≡ length block = omega arith in
    rw
      (
        hi,
        hj,
        slice_ok buf (length pre) (length pre + length block) (omega arith) (
            omega (
              arith,
              ap length whole,
              length-append pre (block ++ post),
              length-append block post,
            )),
        whole,
        drop-append pre (block ++ post),
        n,
        take-append block post,
      )
      refl

loop_reads :
    (attrs : List StunAttribute) (fuel : ℕ) (pre tail buf : List ℕ) (total offset : ℕ)
    → All IsAttr attrs
    → buf ≡ pre ++ (encode_attrs attrs ++ tail)
    → offset ≡ length pre
    → total ≡ length pre + length (encode_attrs attrs)
    → length (encode_attrs attrs) < fuel
    → attr_loop fuel buf total offset ≡ ok attrs
unfolding attr_loop
loop_reads attrs zero pre tail buf total offset good whole ho ht f = elim f [ ]
loop_reads [] (suc fuel) pre tail buf total offset good whole ho ht f =
    rw (lt→leb (offset + 4) total (omega arith), attr_loop) refl
loop_reads (a ∷ attrs) (suc fuel) pre tail buf total offset ((small_type, small), good) whole ho ht
      f =
    let len = length-encode_attr a in
    let both = length-append (encode_attr a) (encode_attrs attrs) in
    let more : leb (offset + 4) total ≡ true =
      le→leb (offset + 4) total (omega (arith, len, both)) in
    let ys = encode_attrs (a ∷ attrs) ++ tail in
    let r0 : read16 buf offset ≡ ok a.attr_type =
      read16_behind pre ys buf whole offset 0 (omega arith) (omega arith)
      ∙ ap ok (be16-bytes16 a.attr_type small_type) in
    let r2 : read16 buf (offset + 2) ≡ ok (length a.value) =
      read16_behind pre ys buf whole (offset + 2) 2 (omega arith) (omega arith)
      ∙ ap ok (be16-bytes16 (length a.value) small) in
    let fits : ltb total (offset + 4 + length a.value) ≡ false =
      le→ltb total (offset + 4 + length a.value) (omega (arith, len, both)) in
    let head = bytes16 a.attr_type ++ bytes16 (length a.value) in
    let value : slice buf (offset + 4) (offset + 4 + length a.value) ≡ ok a.value =
      slice_behind (pre ++ head) a.value (padding_of a.value ++ (encode_attrs attrs ++ tail)) buf
        (offset + 4) (offset + 4 + length a.value)
        (rw
          (append_assoc pre head (a.value ++ (padding_of a.value ++ (encode_attrs attrs ++ tail))))
          (whole
            ∙ ap (λ t. pre ++ (head ++ t))
                (append_assoc (a.value ++ padding_of a.value) (encode_attrs attrs) tail
                  ∙ append_assoc a.value (padding_of a.value) (encode_attrs attrs ++ tail))))
        (omega (arith, length-append pre head)) (omega (arith, length-append pre head)) in
    let whole' : buf ≡ (pre ++ encode_attr a) ++ (encode_attrs attrs ++ tail) =
      whole
      ∙ ap (λ t. pre ++ t) (append_assoc (encode_attr a) (encode_attrs attrs) tail)
      ∙ sym (append_assoc pre (encode_attr a) (encode_attrs attrs ++ tail)) in
    let next = length-append pre (encode_attr a) in
    let rest =
      loop_reads attrs fuel (pre ++ encode_attr a) tail buf total
        (offset + 4 + align4 (length a.value)) good whole' (omega (arith, next, len))
        (omega (arith, next, len, both)) (omega (arith, len, both)) in
    rw (more, attr_loop, r0, r2, fits, value, rest) refl

-- A well-formed message is read back, whatever bytes follow it: for a message type below 2^14, a
-- transaction id of 12 bytes, attributes whose types and lengths fit 16 bits and which fit 16 bits together,
-- the parser finds that type, that id and those attributes, in order, and the bytes of the message.
pub parse-encode_stun :
    (msg_type : ℕ) (transaction_id : List ℕ) (attrs : List StunAttribute) (tail : List ℕ)
    → msg_type < 16384
    → length transaction_id ≡ 12
    → All IsAttr attrs
    → length (encode_attrs attrs) < 65536
    → parse_stun (encode_stun msg_type transaction_id attrs ++ tail)
      ≡ ok (
          some (record {
            msg_type = msg_type;
            length = length (encode_attrs attrs);
            transaction_id = transaction_id;
            attributes = attrs;
            raw = encode_stun msg_type transaction_id attrs;
          }))
unfolding parse_stun
parse-encode_stun msg_type id attrs tail ht hid good fits =
    let n = length (encode_attrs attrs) in
    let message = encode_stun msg_type id attrs in
    let buf = message ++ tail in
    let inner = length-append id (encode_attrs attrs) in
    let all_len = length-append message tail in
    let size : length message ≡ 20 + n = omega (arith, inner, hid) in
    let start = bytes16 msg_type ++ (bytes16 n ++ bytes32 magic_cookie) in
    let long : ltb (length buf) 20 ≡ false =
      le→ltb (length buf) 20 (omega (arith, all_len, size)) in
    let b0 : read buf 0 ≡ ok (msg_type / 256 % 256) =
      read_ok buf 0 (omega (arith, all_len, size)) in
    let type_ : read16 buf 0 ≡ ok msg_type =
      read16_ok buf 0 (omega (arith, all_len, size))
      ∙ ap ok (be16-bytes16 msg_type (omega arith)) in
    let len : read16 buf 2 ≡ ok n =
      read16_ok buf 2 (omega (arith, all_len, size)) ∙ ap ok (be16-bytes16 n fits) in
    let cookie : read32 buf 4 ≡ ok magic_cookie =
      read32_ok buf 4 (omega (arith, all_len, size))
      ∙ ap ok (be32-bytes32 magic_cookie (omega arith)) in
    let top : (low_bits (shr (msg_type / 256 % 256) 6) 2 == 0) ≡ true =
      (==_iff _ 0).1 (omega arith) in
    let words : (n % 4 == 0) ≡ true = (==_iff (n % 4) 0).1 (whole_words attrs) in
    let room : ltb (length buf) (20 + n) ≡ false =
      le→ltb (length buf) (20 + n) (omega (arith, all_len, size)) in
    let assoc = append_assoc id (encode_attrs attrs) tail in
    let id_read : slice buf 8 20 ≡ ok id =
      slice_behind start id (encode_attrs attrs ++ tail) buf 8 20 (ap (λ t. start ++ t) assoc) refl
        (omega (arith, hid)) in
    let attrs_read : attr_loop (n + 1) buf (20 + n) 20 ≡ ok attrs =
      loop_reads attrs (n + 1) (start ++ id) tail buf (20 + n) 20 good (ap (λ t. start ++ t) assoc)
        (omega (arith, hid)) (omega (arith, hid)) (omega arith) in
    let raw_read : slice buf 0 (20 + n) ≡ ok message =
      slice_behind [] message tail buf 0 (20 + n) refl refl (omega (arith, size)) in
    rw (long, b0, type_, len, cookie, top, words, room, id_read, attrs_read, raw_read) refl
