-- ===== src/Transport/Stun/Parsing.antt =====
-- src/transport/stun.rs: `parse` and `verify_message_integrity` on any bytes.
use light_livechat.Base.{
  ℕ, zero, suc, ◌+◌, ◌%◌, ◌≤◌, ◌<◌, refl, inl, inr, none, List, [], arith, ltb, leb, ◌==◌, leb→le,
  Bool-cases, ltb_false→le, length, low_bits, shr, align4, Returns, read32, slice, slice_ok,
  read32_ok, if_Returns, bind-Returns, ok-Returns, read-Returns, read16-Returns,
}
use light_livechat.Transport.Stun.{magic_cookie, header_size, attr_loop, parse_stun}

slice-Returns : (buf : List ℕ) (i j : ℕ) → i ≤ j → j ≤ length buf → Returns (slice buf i j)
slice-Returns buf i j h k = (_, slice_ok buf i j h k)

read32-Returns : (buf : List ℕ) (i : ℕ) → i + 3 < length buf → Returns (read32 buf i)
read32-Returns buf i h = (_, read32_ok buf i h)

attr_loop-Returns :
    (fuel : ℕ) (buf : List ℕ) (total offset : ℕ)
    → total ≤ length buf
    → 0 < fuel
    → total < offset + fuel
    → Returns (attr_loop fuel buf total offset)
unfolding attr_loop
attr_loop-Returns zero buf total offset h p m = elim p [ ]
attr_loop-Returns (suc fuel) buf total offset h p m = elim (Bool-cases (leb (offset + 4) total)) [
  | inr done ↦ rw (done, attr_loop) (_, refl)
  | inl more ↦
      let inside : offset + 4 ≤ total = leb→le (offset + 4) total more in
      rw (more, attr_loop)
        (bind-Returns (read16-Returns buf offset (omega arith)) (λ attr_type.
          bind-Returns (read16-Returns buf (offset + 2) (omega arith)) (λ attr_len.
            if_Returns (ltb total (offset + 4 + attr_len)) (λ _. ok-Returns [])
              (λ fits.
                let room : offset + 4 + attr_len ≤ total = ltb_false→le total _ fits in
                bind-Returns
                  (slice-Returns buf (offset + 4) (offset + 4 + attr_len) (omega arith)
                    (omega arith))
                  (λ value.
                    bind-Returns
                      (attr_loop-Returns fuel buf total (offset + 4 + align4 attr_len) h
                        (omega arith) (omega arith))
                      (λ rest. ok-Returns _))))))
]

-- Whatever datagram arrives, the STUN parser returns: no index or slice is out of range, and its loop
-- ends.
pub parse_stun-Returns : (buf : List ℕ) → Returns (parse_stun buf)
unfolding parse_stun
parse_stun-Returns buf =
    if_Returns (ltb (length buf) header_size) (λ _. ok-Returns none)
      (λ long.
        let full : 20 ≤ length buf = ltb_false→le (length buf) 20 long in
        bind-Returns (read-Returns buf 0 (omega arith)) (λ b0.
          bind-Returns (read16-Returns buf 0 (omega arith)) (λ msg_type.
            bind-Returns (read16-Returns buf 2 (omega arith)) (λ length_.
              bind-Returns (read32-Returns buf 4 (omega arith)) (λ cookie.
                if_Returns (low_bits (shr b0 6) 2 == 0)
                  (λ _.
                    if_Returns (cookie == magic_cookie)
                      (λ _.
                        if_Returns (length_ % 4 == 0)
                          (λ _.
                            if_Returns (ltb (length buf) (20 + length_)) (λ _. ok-Returns none)
                              (λ fits.
                                let room : 20 + length_ ≤ length buf =
                                  ltb_false→le (length buf) _ fits in
                                bind-Returns (slice-Returns buf 8 20 (omega arith) (omega arith))
                                  (λ transaction_id.
                                    bind-Returns
                                      (attr_loop-Returns (length_ + 1) buf (20 + length_) 20 room
                                        (omega arith) (omega arith))
                                      (λ attributes.
                                        bind-Returns
                                          (slice-Returns buf 0 (20 + length_) (omega arith) room)
                                          (λ raw. ok-Returns _)))))
                          (λ _. ok-Returns none))
                      (λ _. ok-Returns none))
                  (λ _. ok-Returns none))))))
