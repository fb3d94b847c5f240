-- ===== src/Room/Rewriter/Speakers.antt =====
-- src/room/ptt_rewriter.rs: `rewrite` on every branch, and the stream over changes of speaker.
use light_livechat.Base.{
  ℕ, zero, suc, ◌+◌, ◌≤◌, ◌<◌, String, ◌≡◌, refl, sym, ◌∙◌, subst, ◌⊎◌, inl, inr, Bool, true, false,
  List, [], ◌∷◌, arith, ltb, ltb→lt, Bool-cases, ltb_false→le, length, ok, at, at16, at32,
  ok-injective,
}
use light_livechat.Room.Rewriter.{
  RewriteResult, rewritten, pending_keyframe, skip, PttRewriter, is_current_speaker, rebase,
  rewrite,
}
use light_livechat.Room.Rewriter.Stream.{
  IsSound, IsBytes, after_packet, IsRewritten, rewrite_packet_lem, virtual_fits,
}

abbrev pub past_keyframe : PttRewriter → PttRewriter
past_keyframe r = record r { awaits_keyframe = false }

abbrev pub Sent :
    List ℕ → String → Bool → PttRewriter → PttRewriter → List ℕ → RewriteResult → Type 0
Sent buf sender key r s out res =
    (res ≡ rewritten)
    × (12 ≤ length buf)
    × (is_current_speaker sender r ≡ true)
    × (r.awaits_keyframe ≡ true → key ≡ true)
    × IsRewritten buf (past_keyframe r) s out

abbrev pub Held :
    List ℕ → String → Bool → PttRewriter → PttRewriter → List ℕ → RewriteResult → Type 0
Held buf sender key r s out res =
    (s ≡ r)
    × (out ≡ buf)
    × (((res ≡ skip) × ((length buf < 12) ⊎ (is_current_speaker sender r ≡ false)))
        ⊎ ((res ≡ pending_keyframe)
            × (is_current_speaker sender r ≡ true)
            × (r.awaits_keyframe ≡ true)
            × (key ≡ false)))

-- `rewrite` never panics on a buffer of bytes, and every outcome is one of these. The packet is sent
-- on if it has a full header and comes from the speaker, and is a key frame where one is awaited;
-- its new header has the virtual SSRC, the virtual sequence number and timestamp and, on the first
-- packet of a speaker, the marker, while payload type, header length, the first byte and all bytes
-- behind the fixed header stay. Otherwise neither packet nor rewriter changes, and the result says
-- why: `pending_keyframe` for the speaker's packets before the key frame, else `skip`.
pub rewrite_exact :
    (buf : List ℕ) (sender : String) (key : Bool) (r : PttRewriter)
    → at buf 1 < 256
    → r.virtual_ssrc < 4294967296
    → (s : PttRewriter) × (out : List ℕ) × (res : RewriteResult) × (rewrite buf sender key r
        ≡ ok (s, out, res))
      × (Sent buf sender key r s out res ⊎ Held buf sender key r s out res)
unfolding rewrite
rewrite_exact buf sender key r byte fits = elim (Bool-cases (ltb (length buf) 12)) [
  | inl short ↦ (
    r,
    buf,
    skip,
    rw short refl,
    inr (refl, refl, inl (refl, inl (ltb→lt (length buf) 12 short))),
  )
  | inr long ↦
      let full : 12 ≤ length buf = ltb_false→le (length buf) 12 long in
      elim (Bool-cases (is_current_speaker sender r)) [
        | inr other ↦ (r, buf, skip, rw (long, other) refl, inr (refl, refl, inl (refl, inr other)))
        | inl speaks ↦ elim (Bool-cases r.awaits_keyframe) [
          | inl waits ↦ elim (Bool-cases key) [
            | inl k ↦
                let (s, out, e, w) = rewrite_packet_lem buf (past_keyframe r) full byte fits in
                (
                  s,
                  out,
                  rewritten,
                  rw (long, speaks, waits, k) e,
                  inl (refl, full, speaks, (λ _. k), w),
                )
            | inr no_key ↦ (
              r,
              buf,
              pending_keyframe,
              rw (long, speaks, waits, no_key) refl,
              inr (refl, refl, inr (refl, speaks, waits, no_key)),
            )
          ]
          | inr ready ↦
              let (s, out, e, w) = rewrite_packet_lem buf (past_keyframe r) full byte fits in
              (
                s,
                out,
                rewritten,
                rw (long, speaks, ready) e,
                inl (refl, full, speaks, (λ t. cc), w),
              )
        ]
      ]
]

IsBytes-at : (buf : List ℕ) (i : ℕ) → IsBytes buf → at buf i < 256
IsBytes-at [] i b = omega arith
IsBytes-at (x ∷ xs) zero b = b.0
IsBytes-at (x ∷ xs) (suc i) b = IsBytes-at xs i b.1

Sent-cases :
    {buf : List ℕ} (sender : String) (key : Bool) {r s : PttRewriter} {out : List ℕ}
    → Sent buf sender key r s out rewritten ⊎ Held buf sender key r s out rewritten
    → (12 ≤ length buf) × IsRewritten buf (past_keyframe r) s out
Sent-cases sender key (inl (_, long, _, _, w)) = (long, w)
Sent-cases sender key (inr (_, _, inl (e, _))) = cc
Sent-cases sender key (inr (_, _, inr (e, _, _, _))) = cc

pub sent_inversion :
    (buf : List ℕ) (sender : String) (key : Bool) (r : PttRewriter) {s : PttRewriter} {out : List ℕ}
    → IsSound r
    → IsBytes buf
    → rewrite buf sender key r ≡ ok (s, out, rewritten)
    → (12 ≤ length buf) × IsRewritten buf (past_keyframe r) s out
sent_inversion buf sender key r sound bytes sent =
    let (s, out, res, e, w) =
      rewrite_exact buf sender key r (IsBytes-at buf 1 bytes) sound.ssrc_fits in
    Sent-cases sender key (
      subst
        (λ (t : PttRewriter × List ℕ × RewriteResult).
          Sent buf sender key r t.0 t.1 t.2 ⊎ Held buf sender key r t.0 t.1 t.2)
        (ok-injective (sym e ∙ sent)) w)

pub at16_fits : (buf : List ℕ) (i : ℕ) → IsBytes buf → at16 buf i < 65536
at16_fits buf i b = let b0 = IsBytes-at buf i b in let b1 = IsBytes-at buf (i + 1) b in omega arith

pub at32_fits : (buf : List ℕ) (i : ℕ) → IsBytes buf → at32 buf i < 4294967296
at32_fits buf i b =
    let b0 = IsBytes-at buf i b in
    let b1 = IsBytes-at buf (i + 1) b in
    let b2 = IsBytes-at buf (i + 2) b in let b3 = IsBytes-at buf (i + 3) b in omega arith

pub past-IsSound : (r : PttRewriter) → IsSound r → IsSound (past_keyframe r)
past-IsSound r v = record {
  ssrc_fits = v.ssrc_fits;
  gap_fits = v.gap_fits;
  origin_seq_fits = v.origin_seq_fits;
  origin_ts_fits = v.origin_ts_fits;
  base_seq_fits = v.base_seq_fits;
  base_ts_fits = v.base_ts_fits;
  last_seq_fits = v.last_seq_fits;
  last_ts_fits = v.last_ts_fits;
}

pub rebase-IsSound :
    (seq ts : ℕ) (r : PttRewriter)
    → seq < 65536
    → ts < 4294967296
    → IsSound r
    → IsSound (rebase seq ts r)
unfolding rebase
rebase-IsSound seq ts r hs ht v = ground arith

pub after_packet-IsSound :
    (buf : List ℕ) (r : PttRewriter) → IsBytes buf → IsSound r → IsSound (after_packet buf r)
after_packet-IsSound buf r bytes v =
    let b =
      rebase-IsSound (at16 buf 2) (at32 buf 4) r (at16_fits buf 2 bytes) (at32_fits buf 4 bytes)
        v in
    let f = virtual_fits buf (rebase (at16 buf 2) (at32 buf 4) r) in
    record {
      ssrc_fits = b.ssrc_fits;
      gap_fits = b.gap_fits;
      origin_seq_fits = b.origin_seq_fits;
      origin_ts_fits = b.origin_ts_fits;
      base_seq_fits = b.base_seq_fits;
      base_ts_fits = b.base_ts_fits;
      last_seq_fits = f.0;
      last_ts_fits = f.1;
    }
