-- ===== src/Transport/Twcc/Feedback/Told.antt =====
-- src/transport/udp/twcc.rs: what a feedback packet tells.
use light_livechat.Base.{
  ℕ, ◌+◌, ◌-◌, ◌∷◌, ◌*◌, ◌/◌, ◌%◌, ◌≤◌, ◌<◌, ◌≡◌, refl, sym, ap, ◌∙◌, subst, ◌≢◌, ◌↔◌, none, some,
  List, arith, length, get_or, add16, ok, read,
}
use light_livechat.Base.Ints.{ℤ}
use light_livechat.Transport.Twcc.{TwccRecorder, advance_base, pending_count}
use light_livechat.Transport.Twcc.Recorder.{IsSound}
use light_livechat.Transport.Twcc.Feedback.{
  PacketStatus, not_received, small_delta, large_delta, code, Collected, micros_since,
  assemble_feedback, encode_recv_deltas, finish_feedback,
}
use light_livechat.Transport.Twcc.Feedback.Chunks.{encode_status_chunks_exact}
use light_livechat.Transport.Twcc.Feedback.Deltas.{
  Timed, clamped_all, decode_deltas, decode-encode_recv_deltas, length-encode_recv_deltas,
}
use light_livechat.Transport.Twcc.Feedback.Collect.{Arrived, CollectedAs}
use light_livechat.Transport.Twcc.Feedback.Times.{
  arrival_times, ticks_of, first_time, starts_with_first,
}
use light_livechat.Transport.Twcc.Feedback.Fields.{
  chunk_count, symbol_at, delta_part, Fields, fields_lem, parts_lem,
}

-- A packet that tells the publisher, by number, which of the `count` packets from `base_seq` on arrived,
-- and when: the reference time is that of the first arrival in units of 64 ms from the recorder's base
-- time, and the deltas read back as the ticks of 250 µs from there on, within the range of the format.
abbrev pub IsReport : TwccRecorder → (media_ssrc : ℕ) → List ℕ → Type 0
IsReport r media_ssrc buf =
    let count = pending_count r in
    let times = arrival_times count r.pending_base_seq 0 r in
    ((j : ℕ) → j < count → (symbol_at buf count j ≢ 0) ↔ Arrived r (add16 r.pending_base_seq j))
    × ((base : ℕ) × (first : ℕ) × (rest : List ℕ) × (r.base_time ≡ some base)
        × (times ≡ first ∷ rest)
        × Fields buf media_ssrc r.pending_base_seq count ((first - base) / 64000000 % 16777216)
            r.fb_pkt_count
        × ((statuses : List PacketStatus) × ((j : ℕ)
              → symbol_at buf count j ≡ code (get_or statuses j not_received))
            × Timed statuses (ticks_of base times)
            × (decode_deltas statuses (delta_part buf count) ≡ clamped_all (ticks_of base times))))

code_zero : (s : PacketStatus) → (code s ≢ 0) ↔ (s ≢ not_received)
code_zero not_received = (λ h. absurd (h refl), λ h. absurd (h refl))
code_zero small_delta = (λ h q. cc, λ h q. absurd (omega (arith, q)))
code_zero large_delta = (λ h q. cc, λ h q. absurd (omega (arith, q)))

told :
    (r : TwccRecorder) (base j x : ℕ) (s : PacketStatus)
    → x ≡ code s
    → ((s ≢ not_received) ↔ Arrived r (add16 base (0 + j)))
    → (x ≢ 0) ↔ Arrived r (add16 base j)
told r base j x s e k =
    let z : 0 + j ≡ j = omega arith in
    let k' : (s ≢ not_received) ↔ Arrived r (add16 base j) =
      subst (λ i. (s ≢ not_received) ↔ Arrived r (add16 base i)) z k in
    (λ h. k'.0 ((code_zero s).0 (λ q. h (e ∙ q))), λ a q. (code_zero s).1 (k'.1 a) (sym e ∙ q))

-- The recorder after a report: the next one begins behind it.
abbrev pub reported : TwccRecorder → TwccRecorder
reported r = record r {
  pending_base_seq = add16 r.pending_base_seq (pending_count r);
  fb_pkt_count = (r.fb_pkt_count + 1) % 256;
}

-- What a packet tells is collected with the times.
abbrev pub TimesOf : TwccRecorder → (base_time : ℕ) → Collected → Type 0
TimesOf r base_time c =
    let times = arrival_times (pending_count r) r.pending_base_seq 0 r in
    (c.deltas ≡ ticks_of base_time times) × (c.first_arrival ≡ first_time none times)

pub finish_lem :
    (media_ssrc base_time : ℕ) (c : Collected) (first : ℕ) (r : TwccRecorder)
    → media_ssrc < 4294967296
    → IsSound r
    → pending_count r ≤ 8192
    → CollectedAs r (pending_count r) r.pending_base_seq 0 none c
    → r.base_time ≡ some base_time
    → TimesOf r base_time c
    → c.first_arrival ≡ some first
    → (buf : List ℕ) × (finish_feedback media_ssrc base_time c (some first) r
        ≡ ok (reported r, some buf))
      × IsReport r media_ssrc buf
unfolding finish_feedback advance_base
finish_lem media_ssrc base_time c first r hs v small (len, timed, tells, _) start (ticks, firsts)
      e1 =
    let (chunks, e, n, vectors, reads) = encode_status_chunks_exact c.statuses in
    let count = pending_count r in
    let times = arrival_times count r.pending_base_seq 0 r in
    let (more, split) = starts_with_first times first (sym e1 ∙ firsts) in
    let deltas = encode_recv_deltas c.statuses c.deltas in
    let time = micros_since first base_time / 250 / 256 % 16777216 in
    let units : time ≡ (first - base_time) / 64000000 % 16777216 = omega arith in
    let chunks_len : length chunks ≡ chunk_count count = rw (n, len) refl in
    let deltas_len : length deltas ≤ 2 * count =
      omega (arith, length-encode_recv_deltas c.statuses c.deltas, len) in
    let (read, (tail, rest)) =
      parts_lem media_ssrc r.pending_base_seq count time r.fb_pkt_count chunks deltas chunks_len
        vectors in
    let buf =
      assemble_feedback media_ssrc r.pending_base_seq count time r.fb_pkt_count chunks deltas in
    let symbol : (j : ℕ) → symbol_at buf count j ≡ code (get_or c.statuses j not_received) =
      λ j. rw read (reads j) in
    let fields =
      fields_lem media_ssrc r.pending_base_seq count time r.fb_pkt_count chunks deltas hs
        v.base_fits small (omega arith) chunks_len deltas_len in
    let decoded : decode_deltas c.statuses (delta_part buf count) ≡ clamped_all c.deltas =
      rw rest (decode-encode_recv_deltas c.statuses c.deltas tail timed) in
    (
      buf,
      rw e refl,
      (
        (λ j h.
            told r r.pending_base_seq j (symbol_at buf count j) (get_or c.statuses j not_received)
              (symbol j) (tells j h)),
        (
          base_time,
          first,
          more,
          start,
          split,
          subst (λ t. Fields buf media_ssrc r.pending_base_seq count t r.fb_pkt_count) units fields,
          (
            c.statuses,
            symbol,
            subst (λ (ds : List ℤ). Timed c.statuses ds) ticks timed,
            decoded ∙ ap clamped_all ticks,
          ),
        ),
      ),
    )
