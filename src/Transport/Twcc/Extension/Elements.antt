-- ===== src/Transport/Twcc/Extension/Elements.antt =====
-- src/transport/udp/twcc.rs: `parse_twcc_seq` on any bytes, and on the elements of an extension.
use light_livechat.Base.{
  ℕ, zero, suc, ◌+◌, ◌*◌, ◌≤◌, ◌<◌, refl, inl, inr, not, ◌&&◌, none, some, List, arith, ltb, leb,
  ◌==◌, ltb→lt, Bool-cases, ltb_false→le, length, low_bits, shr, bit, Returns, if_Returns,
  bind-Returns, ok-Returns, read-Returns, read16-Returns,
}
use light_livechat.Config.{rtp_header_min_size}
use light_livechat.Transport.Twcc.Extension.{element_loop, parse_twcc_seq}

element_loop-Returns :
    (fuel : ℕ) (buf : List ℕ) (id end_ pos : ℕ)
    → end_ ≤ length buf
    → 0 < fuel
    → end_ < pos + fuel
    → Returns (element_loop fuel buf id end_ pos)
unfolding element_loop
element_loop-Returns zero buf id end_ pos h p m = elim p [ ]
element_loop-Returns (suc fuel) buf id end_ pos h p m = elim (Bool-cases (ltb pos end_)) [
  | inr done ↦ rw (done, element_loop) (_, refl)
  | inl more ↦
      let inside : pos < end_ = ltb→lt pos end_ more in
      rw (more, element_loop)
        (bind-Returns (read-Returns buf pos (omega arith)) (λ byte.
          if_Returns (byte == 0)
            (λ _. element_loop-Returns fuel buf id end_ (pos + 1) h (omega arith) (omega arith))
            (λ _.
              if_Returns (low_bits (shr byte 4) 4 == 15) (λ _. ok-Returns none)
                (λ _.
                  if_Returns (ltb end_ (pos + 1 + (low_bits byte 4 + 1))) (λ _. ok-Returns none)
                    (λ fits.
                      if_Returns (low_bits (shr byte 4) 4 == id && leb 2 (low_bits byte 4 + 1))
                        (λ hit.
                          bind-Returns (read16-Returns buf (pos + 1) (ground (arith, fits, hit)))
                            (λ seq. ok-Returns (some seq)))
                        (λ _.
                          element_loop-Returns fuel buf id end_ (pos + 1 + (low_bits byte 4 + 1)) h
                            (omega arith) (omega arith)))))))
]

-- Whatever bytes arrive, the parser returns: no index is out of range, and its loop ends.
pub parse_twcc_seq-Returns : (buf : List ℕ) (id : ℕ) → Returns (parse_twcc_seq buf id)
unfolding parse_twcc_seq
parse_twcc_seq-Returns buf id =
    if_Returns (ltb (length buf) rtp_header_min_size) (λ _. ok-Returns none)
      (λ long. bind-Returns (read-Returns buf 0 (ground (arith, long))) (λ b0.
        let off = 12 + low_bits b0 4 * 4 in
        if_Returns (not (bit b0 4)) (λ _. ok-Returns none)
          (λ _.
            if_Returns (ltb (length buf) (off + 4)) (λ _. ok-Returns none)
              (λ full.
                let room : off + 4 ≤ length buf = ltb_false→le (length buf) (off + 4) full in
                bind-Returns (read16-Returns buf off (omega arith)) (λ profile.
                  bind-Returns (read16-Returns buf (off + 2) (omega arith)) (λ words.
                    if_Returns (not (profile == 0xbede)) (λ _. ok-Returns none)
                      (λ _.
                        if_Returns (ltb (length buf) (off + 4 + words * 4)) (λ _. ok-Returns none)
                          (λ fits.
                            element_loop-Returns (words * 4 + 1) buf id (off + 4 + words * 4)
                              (off + 4) (ltb_false→le (length buf) _ fits) (omega arith)
                              (omega arith)))))))))
