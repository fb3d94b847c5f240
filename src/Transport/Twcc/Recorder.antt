-- ===== src/Transport/Twcc/Recorder.antt =====
-- src/transport/udp/twcc.rs: the ring of arrival times (`record`, `get`, `pending_count`).
use light_livechat.Base.{
  ℕ, zero, suc, ◌+◌, ◌%◌, ◌<◌, ◌≡◌, refl, sym, ap, ◌∙◌, ◌≢◌, inl, inr, false, ◌&&◌, Option, none,
  some, List, [], ◌∷◌, arith, ltb, ◌==◌, ==_iff, Bool-cases, length, get_or, set, length-set,
  length-replicate, sub16, ok,
}
use light_livechat.Base.Slots.{rem, store_ok, load_ok}
use light_livechat.Config.{twcc_recorder_capacity}
use light_livechat.Transport.Twcc.{
  ArrivalEntry, TwccRecorder, new_recorder, note_seq, record_arrival, matching, get_arrival,
}

-- The ring has its 8192 slots, and the numbers fit their widths.
pub record IsSound (r : TwccRecorder) : Type 0 where
  pub size : r.capacity ≡ 8192
  pub slots : length r.arrivals ≡ 8192
  pub base_fits : r.pending_base_seq < 65536
  pub max_fits : r.max_seq < 65536
  pub fb_fits : r.fb_pkt_count < 256

pub new_recorder-IsSound : IsSound new_recorder
unfolding new_recorder
new_recorder-IsSound = record {
  size = refl;
  slots = length-replicate {A = Option ArrivalEntry} twcc_recorder_capacity none;
  base_fits = omega arith;
  max_fits = omega arith;
  fb_fits = omega arith;
}

rem_slot : (seq : ℕ) (r : TwccRecorder) → IsSound r → rem seq r.capacity ≡ ok (seq % 8192)
unfolding rem
rem_slot seq r v = rw (v.size) refl

abbrev pub entry : (seq arrival : ℕ) → ArrivalEntry
entry seq arrival = record { twcc_seq = seq; arrival = arrival }

abbrev pub recorded : (seq arrival : ℕ) → TwccRecorder → TwccRecorder
recorded seq arrival r = note_seq seq arrival (record r {
  arrivals = set r.arrivals (seq % 8192) (some (entry seq arrival));
  count = (r.count + 1) % 18446744073709551616;
})

pub record_lem :
    (seq arrival : ℕ) (r : TwccRecorder)
    → IsSound r
    → record_arrival seq arrival r ≡ ok (recorded seq arrival r)
unfolding record_arrival
record_lem seq arrival r v =
    rw
      (
        rem_slot seq r v,
        store_ok r.arrivals (seq % 8192) (some (entry seq arrival)) (omega (arith, v.slots)),
      )
      refl

note_keeps_slots :
    (seq arrival : ℕ) (r : TwccRecorder)
    → ((note_seq seq arrival r).arrivals ≡ r.arrivals)
      × ((note_seq seq arrival r).capacity ≡ r.capacity)
      × ((note_seq seq arrival r).fb_pkt_count ≡ r.fb_pkt_count)
unfolding note_seq
note_keeps_slots seq arrival r = elim (Bool-cases r.started) [
  | inr first ↦ rw first (refl, refl, refl)
  | inl started ↦
      elim (Bool-cases (ltb 0 (sub16 seq r.max_seq) && ltb (sub16 seq r.max_seq) 0x8000)) [
        | inl newer ↦ rw (started, newer) (refl, refl, refl)
        | inr older ↦ rw (started, older) (refl, refl, refl)
      ]
]

pub get_lem :
    (seq : ℕ) (r : TwccRecorder)
    → IsSound r
    → get_arrival seq r ≡ ok (matching seq (get_or r.arrivals (seq % 8192) none))
unfolding get_arrival
get_lem seq r v =
    rw (rem_slot seq r v, load_ok r.arrivals (seq % 8192) none (omega (arith, v.slots))) refl

note_fits :
    (seq arrival : ℕ) (r : TwccRecorder)
    → seq < 65536
    → r.pending_base_seq < 65536
    → r.max_seq < 65536
    → ((note_seq seq arrival r).pending_base_seq < 65536)
      × ((note_seq seq arrival r).max_seq < 65536)
unfolding note_seq
note_fits seq arrival r h hb hm = (ground arith, ground arith)

pub recorded-IsSound :
    (seq arrival : ℕ) (r : TwccRecorder)
    → seq < 65536
    → IsSound r
    → IsSound (recorded seq arrival r)
recorded-IsSound seq arrival r h v =
    let r' : TwccRecorder = record r {
      arrivals = set r.arrivals (seq % 8192) (some (entry seq arrival));
      count = (r.count + 1) % 18446744073709551616;
    } in
    let (slots, size, fb) = note_keeps_slots seq arrival r' in
    let f = note_fits seq arrival r' h v.base_fits v.max_fits in
    record {
      size = size ∙ v.size;
      slots =
          ap length slots ∙ length-set r.arrivals (seq % 8192) (some (entry seq arrival)) ∙ v.slots;
      base_fits = f.0;
      max_fits = f.1;
      fb_fits = rw fb v.fb_fits;
    }

get_or-set_self {ℓ} :
    {A : Type ℓ} (xs : List A) (i : ℕ) (v d : A) → i < length xs → get_or (set xs i v) i d ≡ v
get_or-set_self [] i v d h = elim h [ ]
get_or-set_self (x ∷ xs) zero v d h = refl
get_or-set_self (x ∷ xs) (suc i) v d h = get_or-set_self xs i v d (omega arith)

get_or-set_ne {ℓ} :
    {A : Type ℓ} (xs : List A) (i j : ℕ) (v d : A) → i ≢ j → get_or (set xs i v) j d ≡ get_or xs j d
get_or-set_ne [] i j v d h = refl
get_or-set_ne (x ∷ xs) zero zero v d h = absurd (h refl)
get_or-set_ne (x ∷ xs) zero (suc j) v d h = refl
get_or-set_ne (x ∷ xs) (suc i) zero v d h = refl
get_or-set_ne (x ∷ xs) (suc i) (suc j) v d h = get_or-set_ne xs i j v d (λ e. h (ap suc e))

found : (r : TwccRecorder) (seq : ℕ) → Option ArrivalEntry
unfolding matching
found r seq = matching seq (get_or r.arrivals (seq % 8192) none)

-- `record` returns on a sound recorder and keeps it sound. Afterwards `get` finds the new arrival
-- under its number, has lost what shared its slot (numbers 8192 apart), and answers as before for
-- every other number.
pub get-record :
    (seq arrival : ℕ) (r : TwccRecorder)
    → IsSound r
    → seq < 65536
    → (s : TwccRecorder) × (record_arrival seq arrival r ≡ ok s)
      × IsSound s
      × (get_arrival seq s ≡ ok (some (entry seq arrival)))
      × ((other : ℕ) → other ≢ seq → other % 8192 ≡ seq % 8192 → get_arrival other s ≡ ok none)
      × ((other : ℕ) → other % 8192 ≢ seq % 8192 → get_arrival other s ≡ get_arrival other r)
unfolding matching
get-record seq arrival r v h =
    let s = recorded seq arrival r in
    let vs = recorded-IsSound seq arrival r h v in
    let e = some (entry seq arrival) in
    let r' : TwccRecorder = record r {
      arrivals = set r.arrivals (seq % 8192) e;
      count = (r.count + 1) % 18446744073709551616;
    } in
    let (slots, _, _) = note_keeps_slots seq arrival r' in
    let inside : seq % 8192 < length r.arrivals = omega (arith, v.slots) in
    (
      s,
      record_lem seq arrival r v,
      vs,
      rw
          (
            get_lem seq s vs,
            slots,
            get_or-set_self r.arrivals (seq % 8192) e none inside,
            (==_iff seq seq).1 refl,
          )
          refl,
      (λ other n same.
          let differ : (seq == other) ≡ false = ground arith in
          rw
            (
              get_lem other s vs,
              slots,
              same,
              get_or-set_self r.arrivals (seq % 8192) e none inside,
              differ,
            )
            refl),
      (λ other apart.
          rw
            (
              get_lem other s vs,
              get_lem other r v,
              slots,
              get_or-set_ne r.arrivals (seq % 8192) (other % 8192) e none (λ q. apart (sym q)),
            )
            refl),
    )
