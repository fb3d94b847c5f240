-- ===== src/Room/Rewriter/Continuity.antt =====
-- src/room/ptt_rewriter.rs: the numbers that receivers see, over packets and changes of speaker.
use light_livechat.Base.{
  ℕ, ◌<◌, String, ◌≡◌, refl, sym, ap, ◌∙◌, subst, inl, inr, Bool, true, false, List, arith,
  Bool-cases, add16, sub16, add32, sub32, ok, at16, at32, ok-injective,
}
use light_livechat.Transport.Rtcp.{RtpHeader, parse_rtp_header}
use light_livechat.Room.Rewriter.{
  rewritten, PttRewriter, switch_speaker, rebase, virtual_seq, virtual_ts, rewrite, reverse_seq,
}
use light_livechat.Room.Rewriter.Stream.{IsSound, IsBytes, virtual_header}
use light_livechat.Room.Rewriter.Speakers.{
  past_keyframe, past-IsSound, after_packet-IsSound, sent_inversion, rebase-IsSound, at16_fits,
  at32_fits,
}

-- A run of `rewrite` that sent the packet on.
abbrev pub Sends : List ℕ → String → Bool → PttRewriter → PttRewriter → List ℕ → Type 0
Sends buf sender key r s out = rewrite buf sender key r ≡ ok (s, out, rewritten)

-- A receiver reads this sequence number and this timestamp in the packet.
abbrev pub IsNumbered : List ℕ → (seq ts : ℕ) → Type 0
IsNumbered out seq ts =
    (h : RtpHeader) × (parse_rtp_header out ≡ ok h) × (h.seq ≡ seq) × (h.timestamp ≡ ts)

switch-IsSound : (user : String) (r : PttRewriter) → IsSound r → IsSound (switch_speaker user r)
unfolding switch_speaker
switch-IsSound user r v = record {
  ssrc_fits = v.ssrc_fits;
  gap_fits = v.gap_fits;
  origin_seq_fits = v.origin_seq_fits;
  origin_ts_fits = v.origin_ts_fits;
  base_seq_fits = v.base_seq_fits;
  base_ts_fits = v.base_ts_fits;
  last_seq_fits = v.last_seq_fits;
  last_ts_fits = v.last_ts_fits;
}

first_numbers :
    (seq ts : ℕ) (r : PttRewriter)
    → seq < 65536
    → ts < 4294967296
    → r.awaiting_first_packet ≡ true
    → (virtual_seq seq (rebase seq ts r) ≡ add16 r.last_virtual_seq 1)
      × (virtual_ts ts (rebase seq ts r) ≡ add32 r.last_virtual_ts r.ts_guard_gap)
unfolding virtual_seq virtual_ts rebase
first_numbers seq ts r hs ht first = (rw (first) (omega arith), rw (first) (omega arith))

rebase_settles : (seq ts : ℕ) (r : PttRewriter) → (rebase seq ts r).awaiting_first_packet ≡ false
unfolding rebase
rebase_settles seq ts r = elim (Bool-cases r.awaiting_first_packet) [
  | inl first ↦ rw (first) refl
  | inr settled ↦ rw (settled) refl
]

rebase_settled :
    (seq ts : ℕ) (r : PttRewriter) → r.awaiting_first_packet ≡ false → rebase seq ts r ≡ r
unfolding rebase
rebase_settled seq ts r settled = rw (settled) refl

-- After `switch_speaker` the first packet that is sent on follows the last packet that was sent on
-- before: the receiver reads the next sequence number, and the last timestamp plus the guard gap,
-- whatever numbers the new speaker uses.
pub switch-first_packet :
    (user sender : String) (key : Bool) (buf : List ℕ) (r s : PttRewriter) (out : List ℕ)
    → IsSound r
    → IsBytes buf
    → Sends buf sender key (switch_speaker user r) s out
    → IsNumbered out (add16 r.last_virtual_seq 1) (add32 r.last_virtual_ts r.ts_guard_gap)
unfolding switch_speaker
switch-first_packet user sender key buf r s out v bytes e =
    let r' = switch_speaker user r in
    let (_, w) = sent_inversion buf sender key r' (switch-IsSound user r v) bytes e in
    let n =
      first_numbers (at16 buf 2) (at32 buf 4) (past_keyframe r') (at16_fits buf 2 bytes)
        (at32_fits buf 4 bytes) refl in
    (virtual_header buf (past_keyframe r'), w.1, n.0, n.1)

sub16_shift :
    (p q o v : ℕ)
    → p < 65536
    → q < 65536
    → o < 65536
    → v < 65536
    → sub16 (add16 (sub16 q o) v) (add16 (sub16 p o) v) ≡ sub16 q p
sub16_shift p q o v hp hq ho hv = omega arith

sub32_shift :
    (p q o v : ℕ)
    → p < 4294967296
    → q < 4294967296
    → o < 4294967296
    → v < 4294967296
    → sub32 (add32 (sub32 q o) v) (add32 (sub32 p o) v) ≡ sub32 q p
sub32_shift p q o v hp hq ho hv = omega arith

-- Of two packets that are sent on one after the other, with no change of speaker in between, a receiver
-- reads sequence numbers and timestamps that are as far apart as the packets' own, in wrapping
-- arithmetic: losses and reorderings of the speaker's stream show as they are.
pub rewrite-keeps_distance :
    (p q : List ℕ) (sender sender' : String) (key key' : Bool) (r s t : PttRewriter)
    (out out' : List ℕ) (h h' : RtpHeader)
    → IsSound r
    → IsBytes p
    → IsBytes q
    → Sends p sender key r s out
    → Sends q sender' key' s t out'
    → parse_rtp_header out ≡ ok h
    → parse_rtp_header out' ≡ ok h'
    → (sub16 h'.seq h.seq ≡ sub16 (at16 q 2) (at16 p 2))
      × (sub32 h'.timestamp h.timestamp ≡ sub32 (at32 q 4) (at32 p 4))
unfolding virtual_seq virtual_ts
rewrite-keeps_distance p q sender sender' key key' r s t out out' h h' v hp hq e e' eh eh' =
    let v1 = past-IsSound r v in
    let (_, w) = sent_inversion p sender key r v hp e in
    let vs = subst IsSound (sym w.0) (after_packet-IsSound p (past_keyframe r) hp v1) in
    let (_, w') = sent_inversion q sender' key' s vs hq e' in
    let b = rebase (at16 p 2) (at32 p 4) (past_keyframe r) in
    let vb =
      rebase-IsSound (at16 p 2) (at32 p 4) (past_keyframe r) (at16_fits p 2 hp) (at32_fits p 4 hp)
        v1 in
    let settled : s.awaiting_first_packet ≡ false =
      ap (λ (x : PttRewriter). x.awaiting_first_packet) w.0
      ∙ rebase_settles (at16 p 2) (at32 p 4) (past_keyframe r) in
    let same = rebase_settled (at16 q 2) (at32 q 4) (past_keyframe s) settled in
    let o = ap (λ (x : PttRewriter). x.origin_base_seq) (same ∙ ap past_keyframe w.0) in
    let vq = ap (λ (x : PttRewriter). x.virtual_base_seq) (same ∙ ap past_keyframe w.0) in
    let ot = ap (λ (x : PttRewriter). x.origin_base_ts) (same ∙ ap past_keyframe w.0) in
    let vt = ap (λ (x : PttRewriter). x.virtual_base_ts) (same ∙ ap past_keyframe w.0) in
    rw (sym (ok-injective (sym w.1 ∙ eh)), sym (ok-injective (sym w'.1 ∙ eh')), o, vq, ot, vt)
      (
        sub16_shift (at16 p 2) (at16 q 2) b.origin_base_seq b.virtual_base_seq (at16_fits p 2 hp)
            (at16_fits q 2 hq) vb.origin_seq_fits vb.base_seq_fits,
        sub32_shift (at32 p 4) (at32 q 4) b.origin_base_ts b.virtual_base_ts (at32_fits p 4 hp)
            (at32_fits q 4 hq) vb.origin_ts_fits vb.base_ts_fits,
      )

shift_back :
    (p o v : ℕ) → p < 65536 → o < 65536 → v < 65536 → add16 (sub16 (add16 (sub16 p o) v) v) o ≡ p
shift_back p o v hp ho hv = omega arith

-- `reverse_seq` undoes the rewriting: from the sequence number that a receiver reads in a packet that
-- was sent on, and so names in a NACK, it finds the number that the speaker gave the packet.
pub reverse_seq-rewrite :
    (buf : List ℕ) (sender : String) (key : Bool) (r s : PttRewriter) (out : List ℕ) (h : RtpHeader)
    → IsSound r
    → IsBytes buf
    → Sends buf sender key r s out
    → parse_rtp_header out ≡ ok h
    → reverse_seq h.seq s ≡ at16 buf 2
unfolding reverse_seq virtual_seq
reverse_seq-rewrite buf sender key r s out h v bytes e eh =
    let v1 = past-IsSound r v in
    let (_, w) = sent_inversion buf sender key r v bytes e in
    let b = rebase (at16 buf 2) (at32 buf 4) (past_keyframe r) in
    let vb =
      rebase-IsSound (at16 buf 2) (at32 buf 4) (past_keyframe r) (at16_fits buf 2 bytes)
        (at32_fits buf 4 bytes) v1 in
    let o = ap (λ (x : PttRewriter). x.origin_base_seq) w.0 in
    let vq = ap (λ (x : PttRewriter). x.virtual_base_seq) w.0 in
    rw (sym (ok-injective (sym w.1 ∙ eh)), o, vq)
      (shift_back (at16 buf 2) b.origin_base_seq b.virtual_base_seq (at16_fits buf 2 bytes)
        vb.origin_seq_fits vb.base_seq_fits)
