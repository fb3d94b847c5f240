-- ===== src/Room/Rewriter/Keyframe.antt =====
-- src/room/ptt_rewriter.rs: `is_vp8_keyframe`.
use mathlib.Core.Option
use light_livechat.Base.{
  ℕ, ◌+◌, ◌*◌, ◌≤◌, Bool, false, not, ◌||◌, Option, none, some, List, arith, ltb, leb,
  if◌then◌else◌, length, low_bits, bit, Outcome, ok, ◌>>=◌, Returns, read, read16, if_Returns,
  ok-Returns, bind-Returns, ltb_false→le, read-Returns, leb_false→lt, read16-Returns,
}

-- The end of the payload descriptor, past its extension bytes. `none`: the packet is too short.
unfoldable pub skip_picture_id : List ℕ → (x_byte pd_offset : ℕ) → Outcome (Option ℕ)
skip_picture_id buf x_byte pd_offset =
    if bit x_byte 7
    then (if leb (length buf) pd_offset then ok none else (do
      b ← read buf pd_offset
      ok (some (if bit b 7 then pd_offset + 2 else pd_offset + 1))))
    else ok (some pd_offset)

unfoldable pub skip_extension : List ℕ → ℕ → Outcome (Option ℕ)
unfolding skip_picture_id
skip_extension buf pd_offset = if leb (length buf) pd_offset then ok none else (do
  x_byte ← read buf pd_offset
  past_id ← skip_picture_id buf x_byte (pd_offset + 1)
  let past_l = Option.map (λ o. if bit x_byte 6 then o + 1 else o) past_id
  ok (Option.map (λ o. if bit x_byte 5 || bit x_byte 4 then o + 1 else o) past_l))

-- The frame's first byte: bit 0 clear means a key frame.
unfoldable pub frame_is_key : List ℕ → Option ℕ → Outcome Bool
frame_is_key buf none = ok false
frame_is_key buf (some pd_offset) =
    if leb (length buf) pd_offset
    then ok false
    else (do frame_byte ← read buf pd_offset; ok (not (bit frame_byte 0)))

-- The payload descriptor at `offset`.
unfoldable pub payload_is_key : List ℕ → ℕ → Outcome Bool
unfolding skip_extension frame_is_key
payload_is_key buf offset = if leb (length buf) offset then ok false else (do
  pd ← read buf offset
  if bit pd 4
      then (do
        pd_offset ← if bit pd 7 then skip_extension buf (offset + 1) else ok (some (offset + 1))
        frame_is_key buf pd_offset)
      else ok false)

unfoldable pub is_vp8_keyframe : List ℕ → Outcome Bool
unfolding payload_is_key
is_vp8_keyframe buf = if ltb (length buf) 13 then ok false else (do
  b0 ← read buf 0
  let offset = 12 + low_bits b0 4 * 4
  if bit b0 4
      then (if ltb (length buf) (offset + 4) then ok false else (do
        ext_len ← read16 buf (offset + 2)
        payload_is_key buf (offset + (4 + ext_len * 4))))
      else payload_is_key buf offset)

skip_picture_id-Returns : (buf : List ℕ) (x o : ℕ) → Returns (skip_picture_id buf x o)
unfolding skip_picture_id
skip_picture_id-Returns buf x o =
    if_Returns (bit x 7)
      (λ _.
        if_Returns (leb (length buf) o) (λ _. ok-Returns none)
          (λ h. bind-Returns (read-Returns buf o (leb_false→lt _ _ h)) (λ b. ok-Returns _)))
      (λ _. ok-Returns (some o))

skip_extension-Returns : (buf : List ℕ) (o : ℕ) → Returns (skip_extension buf o)
unfolding skip_extension
skip_extension-Returns buf o =
    if_Returns (leb (length buf) o) (λ _. ok-Returns none)
      (λ h.
        bind-Returns (read-Returns buf o (leb_false→lt _ _ h))
          (λ x. bind-Returns (skip_picture_id-Returns buf x (o + 1)) (λ p. ok-Returns _)))

frame_is_key-Returns : (buf : List ℕ) (o : Option ℕ) → Returns (frame_is_key buf o)
unfolding frame_is_key
frame_is_key-Returns buf none = ok-Returns false
frame_is_key-Returns buf (some o) =
    if_Returns (leb (length buf) o) (λ _. ok-Returns false)
      (λ h. bind-Returns (read-Returns buf o (leb_false→lt _ _ h)) (λ b. ok-Returns _))

payload_is_key-Returns : (buf : List ℕ) (o : ℕ) → Returns (payload_is_key buf o)
unfolding payload_is_key
payload_is_key-Returns buf o =
    if_Returns (leb (length buf) o) (λ _. ok-Returns false)
      (λ h. bind-Returns (read-Returns buf o (leb_false→lt _ _ h)) (λ pd.
        if_Returns (bit pd 4)
          (λ _.
            bind-Returns
              (if_Returns (bit pd 7) (λ _. skip_extension-Returns buf (o + 1))
                (λ _. ok-Returns (some (o + 1))))
              (λ p. frame_is_key-Returns buf p))
          (λ _. ok-Returns false)))

-- Whatever bytes an RTP packet holds, the VP8 key frame test returns: its CSRC count, its header
-- extension's length and its descriptor never lead to a read out of range.
pub is_vp8_keyframe-Returns : (buf : List ℕ) → Returns (is_vp8_keyframe buf)
unfolding is_vp8_keyframe
is_vp8_keyframe-Returns buf =
    if_Returns (ltb (length buf) 13) (λ _. ok-Returns false)
      (λ h.
        let long : 13 ≤ length buf = ltb_false→le _ _ h in
        bind-Returns (read-Returns buf 0 (omega arith)) (λ b0.
          let offset = 12 + low_bits b0 4 * 4 in
          if_Returns (bit b0 4)
            (λ _.
              if_Returns (ltb (length buf) (offset + 4)) (λ _. ok-Returns false)
                (λ g.
                  let room : offset + 4 ≤ length buf = ltb_false→le _ _ g in
                  bind-Returns (read16-Returns buf (offset + 2) (omega arith))
                    (λ n. payload_is_key-Returns buf (offset + (4 + n * 4)))))
            (λ _. payload_is_key-Returns buf offset)))
