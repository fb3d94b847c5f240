-- ===== src/Transport/Twcc/Feedback/Report.antt =====
-- src/transport/udp/twcc.rs: `build_twcc_feedback`, and what the publisher reads in its packet.
use light_livechat.Base.{
  ℕ, ok-injective, ◌≤◌, ◌<◌, ◌≡◌, refl, sym, ap, ◌∙◌, ◌⊎◌, inl, inr, true, false, not, ◌||◌, Option,
  none, some, List, arith, ltb, ◌==◌, ltb→lt, Bool-cases, Option-cases, ltb_false→le, sub16, ok,
}
use light_livechat.Config.{twcc_recorder_capacity}
use light_livechat.Transport.Twcc.{TwccRecorder, advance_base, pending_count}
use light_livechat.Transport.Twcc.Recorder.{IsSound}
use light_livechat.Transport.Twcc.Feedback.{
  Collected, finish_feedback, feedback_since, build_twcc_feedback,
}
use light_livechat.Transport.Twcc.Feedback.Collect.{AllLost, CollectedAs, collect_lem}
use light_livechat.Transport.Twcc.Feedback.Times.{collect_times, ticks_of_collected}
use light_livechat.Transport.Twcc.Feedback.Told.{IsReport, reported, TimesOf, finish_lem}

-- Nothing to report: no packet yet, none pending, or no pending packet that arrived.
abbrev pub Quiet : TwccRecorder → Type 0
Quiet r =
    (r.started ≡ false)
    ⊎ ((pending_count r ≡ 0)
        ⊎ ((r.base_time ≡ none) ⊎ AllLost r r.pending_base_seq 0 (pending_count r)))

abbrev pub FeedbackOutcome :
    TwccRecorder → (media_ssrc : ℕ) → TwccRecorder → Option (List ℕ) → Type 0
FeedbackOutcome r media_ssrc s result =
    ((result ≡ none) × (s ≡ r) × Quiet r)
    ⊎ (((result ≡ none) × (8192 < pending_count r) × (s ≡ advance_base (sub16 r.max_seq 100) r))
        ⊎ ((s ≡ reported r) × ((buf : List ℕ) × (result ≡ some buf) × IsReport r media_ssrc buf)))

finish_outcomes :
    (media_ssrc base_time : ℕ) (c : Collected) (first : Option ℕ) (r : TwccRecorder)
    → media_ssrc < 4294967296
    → IsSound r
    → pending_count r ≤ 8192
    → CollectedAs r (pending_count r) r.pending_base_seq 0 none c
    → r.base_time ≡ some base_time
    → TimesOf r base_time c
    → c.first_arrival ≡ first
    → (s : TwccRecorder) × (result : Option (List ℕ)) × (finish_feedback media_ssrc base_time c
          first r
        ≡ ok (s, result))
      × FeedbackOutcome r media_ssrc s result
unfolding finish_feedback
finish_outcomes media_ssrc base_time c none r hs v small w start times never =
    (r, none, refl, inl (refl, refl, inr (inr (inr (w.3 never).1))))
finish_outcomes media_ssrc base_time c (some first) r hs v small w start times e =
    let (buf, q, report) = finish_lem media_ssrc base_time c first r hs v small w start times e in
    (reported r, some buf, q, inr (inr (refl, (buf, refl, report))))

since_outcomes :
    (media_ssrc base_time : ℕ) (r : TwccRecorder)
    → media_ssrc < 4294967296
    → IsSound r
    → r.base_time ≡ some base_time
    → (s : TwccRecorder) × (result : Option (List ℕ)) × (feedback_since media_ssrc
          (some base_time)
          r
        ≡ ok (s, result))
      × FeedbackOutcome r media_ssrc s result
unfolding feedback_since
since_outcomes media_ssrc base_time r hs v start =
    elim (Bool-cases (ltb twcc_recorder_capacity (pending_count r))) [
      | inl over ↦ (
        advance_base (sub16 r.max_seq 100) r,
        none,
        rw over refl,
        inr (inl (refl, ltb→lt _ (pending_count r) over, refl)),
      )
      | inr within ↦
          let (c, e, w) =
            collect_lem (pending_count r) r.pending_base_seq 0 base_time none none r v in
          let (d, run, ticks, firsts) =
            collect_times (pending_count r) r.pending_base_seq 0 base_time none none r v in
          let same : c ≡ d = ok-injective (sym e ∙ run) in
          let times : TimesOf r base_time c = (
            ap (λ x. x.deltas) same ∙ ticks ∙ ticks_of_collected base_time _,
            ap (λ x. x.first_arrival) same ∙ firsts,
          ) in
          let (s, result, q, o) =
            finish_outcomes media_ssrc base_time c c.first_arrival r hs v
              (ltb_false→le _ (pending_count r) within) w start times refl in
          (s, result, rw (within, e) q, o)
    ]

idle-Quiet : (r : TwccRecorder) → (not r.started || pending_count r == 0) ≡ true → Quiet r
idle-Quiet r h = elim (Bool-cases r.started) [
  | inr fresh ↦ inl fresh
  | inl started ↦ inr (inl (ground (arith, started, h)))
]

-- On a sound recorder `build_twcc_feedback` returns, with one of three outcomes. There is nothing to
-- report, and nothing changes. Or more packets are pending than the ring has slots; they are given
-- up, and the next report begins 100 packets before the newest. Or there is a packet: its length
-- field counts its bytes, it names the media SSRC, the first pending number, the number of pending packets
-- and the report's number; its symbol for each of those packets is not 0 exactly when the recorder
-- has the packet's arrival; its reference time is the first arrival's, in units of 64 ms from the base time,
-- and its deltas read back as the ticks of 250 µs of the recorded arrivals, the first one's within its unit
-- and every other one's against the arrival before, within -8192 to 8191; the next report then begins
-- behind this one.
pub build_twcc_feedback_exact :
    (media_ssrc : ℕ) (r : TwccRecorder)
    → media_ssrc < 4294967296
    → IsSound r
    → (s : TwccRecorder) × (result : Option (List ℕ)) × (build_twcc_feedback media_ssrc r
        ≡ ok (s, result))
      × FeedbackOutcome r media_ssrc s result
unfolding build_twcc_feedback
build_twcc_feedback_exact media_ssrc r hs v =
    elim (Bool-cases (not r.started || pending_count r == 0)) [
      | inl nothing ↦ (r, none, rw nothing refl, inl (refl, refl, idle-Quiet r nothing))
      | inr pending ↦ elim (Option-cases r.base_time) [
        | inl never ↦ (
          r,
          none,
          rw pending
              (ap (λ t. feedback_since media_ssrc t r) never ∙ unfold feedback_since in refl),
          inl (refl, refl, inr (inr (inl never))),
        )
        | inr (t, e) ↦
            let (s, result, q, o) = since_outcomes media_ssrc t r hs v e in
            (s, result, rw pending (ap (λ t. feedback_since media_ssrc t r) e ∙ q), o)
      ]
    ]

-- A report leaves nothing pending, whichever packets it told of; giving up leaves the newest 101.
pub pending_count-reported :
    (r : TwccRecorder)
    → IsSound r
    → r.started ≡ true
    → (pending_count (reported r) ≡ 0)
      × (pending_count (advance_base (sub16 r.max_seq 100) r) ≡ 101)
unfolding pending_count advance_base
pending_count-reported r v started =
    (rw started (omega (arith, v.base_fits, v.max_fits)), rw started (omega (arith, v.max_fits)))
