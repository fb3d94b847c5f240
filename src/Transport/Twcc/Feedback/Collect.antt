-- ===== src/Transport/Twcc/Feedback/Collect.antt =====
-- src/transport/udp/twcc.rs: the statuses and deltas of the pending packets.
use light_livechat.Base.{
  ℕ, zero, suc, ◌+◌, ◌%◌, ◌<◌, ◌≡◌, refl, sym, ap, ◌∙◌, ◌≢◌, ◌↔◌, inl, inr, Option, none, some,
  List, [], ◌∷◌, arith, Option-cases, length, get_or, add16, ok, ok-injective,
}
use light_livechat.Transport.Twcc.{ArrivalEntry, TwccRecorder, get_arrival, matching}
use light_livechat.Transport.Twcc.Recorder.{IsSound, get_lem}
use light_livechat.Transport.Twcc.Feedback.{
  PacketStatus, not_received, Collected, status_of, delta_250us, push_entry, collect, first_of,
  prev_of,
}
use light_livechat.Transport.Twcc.Feedback.Deltas.{Timed, none_left, lost, arrived, none_small}

-- The recorder has the arrival of a packet.
abbrev pub Arrived : TwccRecorder → ℕ → Type 0
Arrived r seq = (e : ArrivalEntry) × (get_arrival seq r ≡ ok (some e))

-- The statuses tell of each of `n` packets from `base_seq + i` on whether it arrived.
abbrev pub Tells : TwccRecorder → (base_seq i n : ℕ) → List PacketStatus → Type 0
Tells r base_seq i n statuses =
    (j : ℕ)
    → j < n
    → ((get_or statuses j not_received ≢ not_received) ↔ Arrived r (add16 base_seq (i + j)))

abbrev pub AllLost : TwccRecorder → (base_seq i n : ℕ) → Type 0
AllLost r base_seq i n = (j : ℕ) → j < n → ¬ Arrived r (add16 base_seq (i + j))

abbrev pub CollectedAs : TwccRecorder → (n base_seq i : ℕ) → Option ℕ → Collected → Type 0
CollectedAs r n base_seq i first c =
    (length c.statuses ≡ n)
    × Timed c.statuses c.deltas
    × Tells r base_seq i n c.statuses
    × (c.first_arrival ≡ none → (first ≡ none) × AllLost r base_seq i n)

abbrev Collects : TwccRecorder → (n base_seq i base_time : ℕ) → (first prev : Option ℕ) → Type 0
Collects r n base_seq i base_time first prev =
    (c : Collected) × (collect n base_seq i base_time first prev r ≡ ok c)
    × CollectedAs r n base_seq i first c

Tells-cons :
    (r : TwccRecorder) (base_seq i n : ℕ) (s : PacketStatus) (ss : List PacketStatus)
    → ((s ≢ not_received) ↔ Arrived r (add16 base_seq i))
    → Tells r base_seq (i + 1) n ss
    → Tells r base_seq i (suc n) (s ∷ ss)
Tells-cons r base_seq i n s ss here rest zero h = let e : i + 0 ≡ i = omega arith in rw e here
Tells-cons r base_seq i n s ss here rest (suc j) h =
    let e : i + suc j ≡ i + 1 + j = omega arith in rw e (rest j (omega arith))

AllLost-cons :
    (r : TwccRecorder) (base_seq i n : ℕ)
    → ¬ Arrived r (add16 base_seq i)
    → AllLost r base_seq (i + 1) n
    → AllLost r base_seq i (suc n)
AllLost-cons r base_seq i n here rest zero h = let e : i + 0 ≡ i = omega arith in rw e here
AllLost-cons r base_seq i n here rest (suc j) h =
    let e : i + suc j ≡ i + 1 + j = omega arith in rw e (rest j (omega arith))

not_both : (r : TwccRecorder) (seq : ℕ) → get_arrival seq r ≡ ok none → ¬ Arrived r seq
not_both r seq absent (e, there) = let q : none ≡ some e = ok-injective (sym absent ∙ there) in cc

first_of-some : (a : ArrivalEntry) (first : Option ℕ) → first_of (some a) first ≡ none → ⊥
unfolding first_of
first_of-some a none h = cc
first_of-some a (some f) h = cc

collect-lost :
    (n base_seq i base_time : ℕ) (first prev : Option ℕ) (r : TwccRecorder)
    → get_arrival (add16 base_seq i) r ≡ ok none
    → Collects r n base_seq (i + 1) base_time first prev
    → Collects r (suc n) base_seq i base_time first prev
unfolding collect first_of prev_of push_entry
collect-lost n base_seq i base_time first prev r absent (c, e, (len, timed, tells, none_first)) =
    let never = not_both r (add16 base_seq i) absent in
    (
      push_entry base_time prev none c,
      rw (absent, e) refl,
      (
        ap suc len,
        lost timed,
        Tells-cons r base_seq i n not_received c.statuses
            (λ q. absurd (q refl), λ a. absurd (never a)) tells,
        λ f. ((none_first f).0, AllLost-cons r base_seq i n never (none_first f).1),
      ),
    )

collect-arrived :
    (n base_seq i base_time : ℕ) (first prev : Option ℕ) (r : TwccRecorder) (a : ArrivalEntry)
    → get_arrival (add16 base_seq i) r ≡ ok (some a)
    → Collects r n base_seq (i + 1) base_time (first_of (some a) first) (prev_of (some a) prev)
    → Collects r (suc n) base_seq i base_time first prev
unfolding collect push_entry
collect-arrived n base_seq i base_time first prev r a there
      (c, e, (len, timed, tells, none_first)) =
    let d = delta_250us base_time prev a.arrival in
    (
      push_entry base_time prev (some a) c,
      rw (there, e) refl,
      (
        ap suc len,
        arrived (status_of d) d refl timed,
        Tells-cons r base_seq i n (status_of d) c.statuses
            (λ q. (a, there), λ q lostly. none_small d (sym lostly)) tells,
        λ f. absurd (first_of-some a first (none_first f).0),
      ),
    )

pub collect_lem :
    (n base_seq i base_time : ℕ) (first prev : Option ℕ) (r : TwccRecorder)
    → IsSound r
    → Collects r n base_seq i base_time first prev
unfolding collect first_of prev_of
collect_lem zero base_seq i base_time first prev r v = (
  record { statuses = []; deltas = []; first_arrival = first },
  refl,
  (refl, none_left, (λ j h. elim h [ ]), λ e. (e, λ j h. elim h [ ])),
)
collect_lem (suc n) base_seq i base_time first prev r v =
    let seq = add16 base_seq i in
    let got = get_lem seq r v in
    elim (Option-cases (matching seq (get_or r.arrivals (seq % 8192) none))) [
      | inl missing ↦
          collect-lost n base_seq i base_time first prev r (got ∙ ap ok missing)
            (collect_lem n base_seq (i + 1) base_time first prev r v)
      | inr (a, there) ↦ collect-arrived n base_seq i base_time first prev r a (got ∙ ap ok there) (
          collect_lem n base_seq (i + 1) base_time (first_of (some a) first) (prev_of (some a) prev)
            r v)
    ]
