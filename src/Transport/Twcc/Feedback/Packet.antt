-- ===== src/Transport/Twcc/Feedback/Packet.antt =====
-- src/transport/udp/twcc.rs: the parts of a feedback packet, as a receiver reads them.
use light_livechat.Base.{
  ℕ, zero, suc, ◌+◌, ◌-◌, ◌*◌, ◌<◌, ◌≡◌, refl, ap, ◌∙◌, Bool, true, false, List, [], ◌∷◌, ◌++◌,
  arith, ltb, if◌then◌else◌, length, set, drop, replicate, length-append, length-set,
  length-replicate, drop_prefix, All, u8, align4, be16, be16-bytes16,
}
use light_livechat.Transport.Twcc.Feedback.{chunk_bytes, feedback_content, assemble_feedback}
use light_livechat.Transport.Twcc.Feedback.Chunks.{IsVector}

-- The chunks from the start of a buffer.
abbrev pub read_chunks : ℕ → List ℕ → List ℕ
read_chunks zero buf = []
read_chunks (suc n) [] = []
read_chunks (suc n) (hi ∷ []) = []
read_chunks (suc n) (hi ∷ lo ∷ buf) = be16 hi lo ∷ read_chunks n buf

pub read-chunk_bytes :
    (chunks tail : List ℕ)
    → All IsVector chunks
    → read_chunks (length chunks) (chunk_bytes chunks ++ tail) ≡ chunks
read-chunk_bytes [] tail v = refl
read-chunk_bytes (c ∷ cs) tail (fit, v) = rw (be16-bytes16 c fit.1, read-chunk_bytes cs tail v) refl

pub length-chunk_bytes : (chunks : List ℕ) → length (chunk_bytes chunks) ≡ 2 * length chunks
length-chunk_bytes [] = refl
length-chunk_bytes (c ∷ cs) = omega (arith, length-chunk_bytes cs)

pub drop-chunk_bytes :
    (chunks tail : List ℕ) → drop (2 * length chunks) (chunk_bytes chunks ++ tail) ≡ tail
drop-chunk_bytes chunks tail =
    drop_prefix (2 * length chunks) (chunk_bytes chunks) tail (length-chunk_bytes chunks)

set-append : (xs ys : List ℕ) (i v : ℕ) → set (xs ++ ys) (length xs + i) v ≡ xs ++ set ys i v
set-append [] ys i v = let z : 0 + i ≡ i = omega arith in rw z refl
set-append (x ∷ xs) ys i v =
    let e : suc (length xs) + i ≡ suc (length xs + i) = omega arith in
    rw (e, set-append xs ys i v) refl

abbrev with_count : Bool → List ℕ → ℕ → List ℕ
with_count b ys v = if b then set ys (length ys - 1) v else ys

count_lem :
    (b : Bool) (xs ys : List ℕ) (v : ℕ)
    → 0 < length ys
    → with_count b (xs ++ ys) v ≡ xs ++ with_count b ys v
count_lem true xs ys v h =
    let last : length (xs ++ ys) - 1 ≡ length xs + (length ys - 1) =
      omega (arith, length-append xs ys) in
    rw last (set-append xs ys (length ys - 1) v)
count_lem false xs ys v h = refl

length-with_count : (b : Bool) (ys : List ℕ) (v : ℕ) → length (with_count b ys v) ≡ length ys
length-with_count true ys v = length-set ys (length ys - 1) v
length-with_count false ys v = refl

abbrev pub body_len : (chunks deltas : List ℕ) → ℕ
body_len chunks deltas = 12 + (8 + length chunks * 2 + length deltas)

module _ (media_ssrc base_seq status_count reference_time fb_count : ℕ)
    (chunks deltas : List ℕ) where
  abbrev content : List ℕ
  content =
      feedback_content media_ssrc base_seq status_count reference_time fb_count
        (align4 (body_len chunks deltas))
        (ltb (body_len chunks deltas) (align4 (body_len chunks deltas))) chunks deltas

  length-content : length content ≡ (body_len chunks deltas)
  unfolding feedback_content
  length-content =
      omega (arith, length-append (chunk_bytes chunks) deltas, length-chunk_bytes chunks)

  abbrev zeros : List ℕ
  zeros = replicate (4 + align4 (body_len chunks deltas) - length content) 0

  length-zeros : length zeros ≡ 4 + align4 (body_len chunks deltas) - (body_len chunks deltas)
  length-zeros =
      length-replicate (4 + align4 (body_len chunks deltas) - length content) 0
      ∙ ap (λ k. 4 + align4 (body_len chunks deltas) - k) length-content

  -- The content, and behind it 4 to 7 more bytes.
  pub assemble_lem :
      (pad : List ℕ) × (assemble_feedback media_ssrc base_seq status_count reference_time fb_count
          chunks deltas
        ≡ content ++ pad)
      × (length pad ≡ 4 + align4 (body_len chunks deltas) - (body_len chunks deltas))
  unfolding assemble_feedback
  assemble_lem =
      let v = u8 (4 + align4 (body_len chunks deltas) - (4 + (body_len chunks deltas))) in
      let b = ltb (body_len chunks deltas) (align4 (body_len chunks deltas)) in
      (
        with_count b zeros v,
        count_lem b content zeros v (omega (arith, length-zeros)),
        length-with_count b zeros v ∙ length-zeros,
      )
