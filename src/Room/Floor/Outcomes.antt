-- ===== src/Room/Floor/Outcomes.antt =====
-- src/room/floor.rs: the results that each call can have, whatever the state.
use light_livechat.Base.{
  ℕ, String, ◌≡◌, refl, ap, ◌∙◌, ◌-◌, ltb, Bool-cases, ◌≢◌, ◌⊎◌, inl, inr, none, some, if_pos,
  if_neg, arith, string_discrete,
}
use light_livechat.Config.{floor_max_burst_ms, floor_ping_timeout_ms}
use light_livechat.Room.Floor.{
  FloorState, idle, taken, FloorAction, granted, denied, released, revoked, ping_denied,
  current_speaker, request, release, ping_floor, check_timers, on_participant_leave,
}

-- A request is granted, and its user holds the floor then; or another user holds it and goes on.
pub request_cases :
    (user : String) (now : ℕ) (f : FloorState)
    → (((request user now f).1 ≡ granted user)
        × (current_speaker (request user now f).0 ≡ some user)
        × ((v : String) → current_speaker f ≡ some v → v ≡ user))
      ⊎ ((v : String) × (v ≢ user)
          × (current_speaker f ≡ some v)
          × (request user now f ≡ (f, denied "channel busy" v)))
unfolding request current_speaker
request_cases user now idle = inl (refl, refl, λ v e. cc)
request_cases user now (taken v start ping) = elim (string_discrete v user) [
  | yes same ↦
      let e : request user now (taken v start ping) ≡ (taken v start ping, granted user) =
        if_pos (string_discrete v user) same (taken v start ping, granted user)
          (taken v start ping, denied "channel busy" v) in
      inl (
        ap (λ (t : FloorState × FloorAction). t.1) e,
        ap (λ (t : FloorState × FloorAction). current_speaker t.0) e ∙ ap some same,
        λ u q. cc,
      )
  | no other ↦ inr (
    v,
    other,
    refl,
    if_neg (string_discrete v user) other (taken v start ping, granted user)
        (taken v start ping, denied "channel busy" v),
  )
]

-- A release frees the floor, or another user holds it and goes on.
pub release_cases :
    (user : String) (f : FloorState)
    → (release user f ≡ (idle, released user))
      ⊎ ((v : String) × (v ≢ user)
          × (current_speaker f ≡ some v)
          × (release user f ≡ (f, ping_denied)))
unfolding release current_speaker
release_cases user idle = inl refl
release_cases user (taken v start ping) = elim (string_discrete v user) [
  | yes same ↦
      inl (
        if_pos (string_discrete v user) same (idle, released user)
          (taken v start ping, ping_denied))
  | no other ↦ inr (
    v,
    other,
    refl,
    if_neg (string_discrete v user) other (idle, released user) (taken v start ping, ping_denied),
  )
]

pub current_speaker-ping :
    (user : String) (now : ℕ) (f : FloorState)
    → current_speaker (ping_floor user now f).0 ≡ current_speaker f
unfolding ping_floor current_speaker
current_speaker-ping user now f = ground arith

-- A user who leaves frees the floor if it is theirs.
pub leave_cases :
    (user : String) (f : FloorState)
    → ((on_participant_leave user f ≡ (idle, some (released user)))
        × (current_speaker f ≡ some user))
      ⊎ ((on_participant_leave user f ≡ (f, none)) × (current_speaker f ≢ some user))
unfolding on_participant_leave current_speaker
leave_cases user idle = inr (refl, λ e. cc)
leave_cases user (taken v start ping) = elim (string_discrete v user) [
  | yes same ↦ inl (
    if_pos (string_discrete v user) same (idle, some (released user)) (taken v start ping, none),
    cc,
  )
  | no other ↦ inr (
    if_neg (string_discrete v user) other (idle, some (released user)) (taken v start ping, none),
    λ e. other (speaker_eq e),
  )
]
  where
    speaker_eq : some v ≡ some user → v ≡ user
    speaker_eq e = cc

-- A tick revokes the floor from its holder, or changes nothing.
pub timer_cases :
    (now : ℕ) (f : FloorState)
    → ((v : String) × (cause : String) × (current_speaker f ≡ some v)
        × (check_timers now f ≡ (idle, some (revoked v cause))))
      ⊎ (check_timers now f ≡ (f, none))
unfolding check_timers current_speaker
timer_cases now idle = inr refl
timer_cases now (taken v start ping) = elim (Bool-cases (ltb floor_max_burst_ms (now - start))) [
  | inl long ↦ inl (v, "max burst exceeded", refl, rw long refl)
  | inr short ↦ elim (Bool-cases (ltb floor_ping_timeout_ms (now - ping))) [
    | inl lost ↦ inl (v, "participant lost", refl, rw (short, lost) refl)
    | inr alive ↦ inr (rw (short, alive) refl)
  ]
]
