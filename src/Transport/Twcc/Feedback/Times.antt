-- ===== src/Transport/Twcc/Feedback/Times.antt =====
-- src/transport/udp/twcc.rs: the arrival times that a feedback packet tells.
use light_livechat.Base.{
  ℕ, zero, suc, ◌+◌, ◌-◌, ◌*◌, ◌/◌, ◌%◌, ◌≡◌, refl, sym, ap, ◌∙◌, inl, inr, Option, none, some,
  List, [], ◌∷◌, ◌++◌, arith, leb, if◌then◌else◌, Option-cases, get_or, add16, Outcome, ok, panic,
  out_of_fuel,
}
use light_livechat.Base.TextMap.{some-injective}
use light_livechat.Base.Ints.{ℤ, pos, negate}
use light_livechat.Transport.Twcc.{ArrivalEntry, TwccRecorder, get_arrival, matching}
use light_livechat.Transport.Twcc.Recorder.{IsSound, get_lem}
use light_livechat.Transport.Twcc.Feedback.{
  Collected, delta_250us, push_entry, collect, first_of, prev_of,
}

time_of : Outcome (Option ArrivalEntry) → List ℕ
time_of (ok (some e)) = e.arrival ∷ []
time_of (ok none) = []
time_of panic = []
time_of out_of_fuel = []

-- The times at which those of `n` packets from `base_seq + i` on arrived that the recorder has, in
-- nanoseconds, in the order of their numbers.
pub arrival_times : (n base_seq i : ℕ) → TwccRecorder → List ℕ
unfolding time_of
arrival_times zero base_seq i r = []
arrival_times (suc n) base_seq i r =
    time_of (get_arrival (add16 base_seq i) r) ++ arrival_times n base_seq (i + 1) r

-- Ticks of 250 µs from one time to another, rounded towards 0.
pub ticks_between : (earlier later_ : ℕ) → ℤ
ticks_between t u = if leb t u then pos ((u - t) / 250000) else negate ((t - u) / 250000)

pub gaps : ℕ → List ℕ → List ℤ
gaps t [] = []
gaps t (u ∷ us) = ticks_between t u ∷ gaps u us

-- The deltas of the format: the first time against the reference time, which has units of 64 ms, and every
-- other one against the time before it.
pub ticks_of : (base_time : ℕ) → List ℕ → List ℤ
unfolding gaps
ticks_of base_time [] = []
ticks_of base_time (t ∷ ts) = pos ((t - base_time) / 250000 % 256) ∷ gaps t ts

pub ticks_since : (base_time : ℕ) → Option ℕ → List ℕ → List ℤ
unfolding gaps ticks_of
ticks_since base_time none ts = ticks_of base_time ts
ticks_since base_time (some t) ts = gaps t ts

pub first_time : Option ℕ → List ℕ → Option ℕ
first_time none [] = none
first_time none (t ∷ ts) = some t
first_time (some t) ts = some t

delta-tick :
    (base_time a : ℕ) (prev : Option ℕ) (ts : List ℕ)
    → ticks_since base_time prev (a ∷ ts)
      ≡ delta_250us base_time prev a ∷ ticks_since base_time (some a) ts
unfolding ticks_since ticks_of gaps delta_250us ticks_between
delta-tick base_time a none ts =
    let low : (a - base_time) / 250000 % 256
        ≡ (a - base_time) / 1000 / 250 - (a - base_time) / 1000 / 250 / 256 * 256 =
      omega arith in
    ap (λ (k : ℕ). pos k ∷ gaps a ts) low
delta-tick base_time a (some t) ts =
    let up : (a - t) / 250000 ≡ (a - t) / 1000 / 250 = omega arith in
    let down : (t - a) / 250000 ≡ (t - a) / 1000 / 250 = omega arith in rw (up, down) refl

no_ticks : (base_time : ℕ) (prev : Option ℕ) → [] ≡ ticks_since base_time prev []
unfolding ticks_since ticks_of gaps
no_ticks base_time none = refl
no_ticks base_time (some t) = refl

no_first : (first : Option ℕ) → first ≡ first_time first []
unfolding first_time
no_first none = refl
no_first (some t) = refl

first_cons :
    (a : ArrivalEntry) (first : Option ℕ) (ts : List ℕ)
    → first_time (first_of (some a) first) ts ≡ first_time first (a.arrival ∷ ts)
unfolding first_time first_of
first_cons a none ts = refl
first_cons a (some t) ts = refl

pub collect_times :
    (n base_seq i base_time : ℕ) (first prev : Option ℕ) (r : TwccRecorder)
    → IsSound r
    → (c : Collected) × (collect n base_seq i base_time first prev r ≡ ok c)
      × (c.deltas ≡ ticks_since base_time prev (arrival_times n base_seq i r))
      × (c.first_arrival ≡ first_time first (arrival_times n base_seq i r))
unfolding collect arrival_times first_of prev_of push_entry
collect_times zero base_seq i base_time first prev r v = (
  record { statuses = []; deltas = []; first_arrival = first },
  refl,
  no_ticks base_time prev,
  no_first first,
)
collect_times (suc n) base_seq i base_time first prev r v =
    let seq = add16 base_seq i in
    let got = get_lem seq r v in
    elim (Option-cases (matching seq (get_or r.arrivals (seq % 8192) none))) [
      | inl missing ↦
          let absent = got ∙ ap ok missing in
          let (c, e, d, f) = collect_times n base_seq (i + 1) base_time first prev r v in
          (push_entry base_time prev none c, rw (absent, e) refl, rw absent d, rw absent f)
      | inr (a, there) ↦
          let here = got ∙ ap ok there in
          let (c, e, d, f) =
            collect_times n base_seq (i + 1) base_time (first_of (some a) first) (some a.arrival) r
              v in
          (
            push_entry base_time prev (some a) c,
            rw (here, e) refl,
            rw here (
                ap (λ (l : List ℤ). delta_250us base_time prev a.arrival ∷ l) d
                ∙ sym (delta-tick base_time a.arrival prev _)),
            rw here (f ∙ first_cons a first _),
          )
    ]

pub starts_with_first :
    (ts : List ℕ) (first : ℕ)
    → some first ≡ first_time none ts
    → (rest : List ℕ) × (ts ≡ first ∷ rest)
unfolding first_time
starts_with_first [] first e = let bad : ⊥ = cc in absurd bad
starts_with_first (t ∷ ts) first e = (ts, ap (λ u. u ∷ ts) (some-injective (sym e)))

pub ticks_of_collected :
    (base_time : ℕ) (ts : List ℕ) → ticks_since base_time none ts ≡ ticks_of base_time ts
unfolding ticks_since
ticks_of_collected base_time ts = refl
