-- ===== src/Server/Timers.antt =====
-- src/lib.rs: what a round of the floor timer does to a room.
use light_livechat.Base.{
  ℕ, ◌-◌, ◌≤◌, ◌<◌, String, ◌≡◌, refl, sym, ap, ◌∙◌, ◌⊎◌, inl, inr, if_pos, if_neg, true, false,
  Option, none, some, [], ◌∷◌, ltb, ltb→lt, Bool-cases, string_discrete, ltb_false→le,
}
use light_livechat.Base.DashMap.{DashMap, get}
use light_livechat.Base.TextMap.{find}
use light_livechat.Config.{floor_max_burst_ms, floor_ping_timeout_ms}
use light_livechat.Room.Floor.{FloorState, idle, taken, revoked, check_timers}
use light_livechat.Room.Members.{Room}
use light_livechat.Signaling.World.{World, is_ptt}
use light_livechat.Signaling.Floor.{clear_rewriters}
use light_livechat.Server.{timed_out, time_room, time_rooms, floor_round}

timed :
    (now : ℕ) (id : String) (rooms : DashMap String Room) (r : Room)
    → find id rooms ≡ some r
    → find id (time_rooms now rooms).0 ≡ some (time_room now r).0
unfolding time_rooms get
timed now id [] r e = cc
timed now id ((key, s) ∷ rooms) r e = elim (string_discrete key id) [
  | yes same ↦
      if_pos (string_discrete key id) same (some (time_room now s).0)
        (find id (time_rooms now rooms).0)
      ∙ ap (λ (o : Option Room). timed_option o)
          (sym (if_pos (string_discrete key id) same (some s) (find id rooms)) ∙ e)
  | no apart ↦
      if_neg (string_discrete key id) apart (some (time_room now s).0)
        (find id (time_rooms now rooms).0)
      ∙ timed now id rooms r
          (sym (if_neg (string_discrete key id) apart (some s) (find id rooms)) ∙ e)
]
  where
    timed_option : Option Room → Option Room
    timed_option none = none
    timed_option (some t) = some (time_room now t).0

-- What a round does to a room: the floor is not used, is free, is held within both limits, or is taken
-- from a speaker who is over one of them.
abbrev pub IsTimed : (now : ℕ) (r t : Room) → Type 0
IsTimed now r t =
    ((is_ptt r.mode ≡ false) × (t ≡ r))
    ⊎ ((is_ptt r.mode ≡ true) × (r.floor ≡ idle) × (t ≡ r))
    ⊎ ((v : String) × (start ping : ℕ) × (is_ptt r.mode ≡ true)
        × (r.floor ≡ taken v start ping)
        × (((now - start ≤ floor_max_burst_ms) × (now - ping ≤ floor_ping_timeout_ms) × (t ≡ r))
            ⊎ (((floor_max_burst_ms < now - start) ⊎ (floor_ping_timeout_ms < now - ping))
                × (t ≡ clear_rewriters (record r { floor = idle })))))

limits :
    (now : ℕ) (v : String) (start ping : ℕ)
    → ((now - start ≤ floor_max_burst_ms)
        × (now - ping ≤ floor_ping_timeout_ms)
        × (check_timers now (taken v start ping) ≡ (taken v start ping, none)))
      ⊎ (((floor_max_burst_ms < now - start) ⊎ (floor_ping_timeout_ms < now - ping))
          × (cause : String) × (check_timers now (taken v start ping)
              ≡ (idle, some (revoked v cause))))
unfolding check_timers
limits now v start ping = elim (Bool-cases (ltb floor_max_burst_ms (now - start))) [
  | inl long ↦ inr (inl (ltb→lt _ _ long), "max burst exceeded", rw long refl)
  | inr short ↦ elim (Bool-cases (ltb floor_ping_timeout_ms (now - ping))) [
    | inl lost ↦ inr (inr (ltb→lt _ _ lost), "participant lost", rw (short, lost) refl)
    | inr alive ↦ inl (ltb_false→le _ _ short, ltb_false→le _ _ alive, rw (short, alive) refl)
  ]
]

module _ (now : ℕ) (r : Room) (is_on : is_ptt r.mode ≡ true) where
  stays : check_timers now r.floor ≡ (r.floor, none) → (time_room now r).0 ≡ r
  unfolding time_room timed_out
  stays e = rw (is_on, e) refl

  freed :
      (v cause : String)
      → check_timers now r.floor ≡ (idle, some (revoked v cause))
      → (time_room now r).0 ≡ clear_rewriters (record r { floor = idle })
  unfolding time_room timed_out
  freed v cause e = rw (is_on, e) refl

  taken-IsTimed :
      (v : String) (start ping : ℕ)
      → r.floor ≡ taken v start ping
      → IsTimed now r (time_room now r).0
  taken-IsTimed v start ping e = elim (limits now v start ping) [
    | inl (young, alive, c) ↦ inr (
        inr (
          v,
          start,
          ping,
          is_on,
          e,
          inl (
            young,
            alive,
            stays (
                ap (λ (f : FloorState). check_timers now f) e
                ∙ c
                ∙ ap (λ (f : FloorState). (f, none)) (sym e)),
          ),
        ))
    | inr (over, cause, c) ↦ inr (
        inr (
          v,
          start,
          ping,
          is_on,
          e,
          inr (over, freed v cause (ap (λ (f : FloorState). check_timers now f) e ∙ c)),
        ))
  ]

  idle-IsTimed : r.floor ≡ idle → IsTimed now r (time_room now r).0
  unfolding check_timers
  idle-IsTimed e = inr (
      inl (
        is_on,
        e,
        stays (
            ap (λ (f : FloorState). check_timers now f) e
            ∙ ap (λ (f : FloorState). (f, none)) (sym e)),
      ))

room-IsTimed : (now : ℕ) (r : Room) → IsTimed now r (time_room now r).0
unfolding time_room
room-IsTimed now r = elim (Bool-cases (is_ptt r.mode)) [
  | inr plain ↦ inl (plain, rw plain refl)
  | inl is_on ↦ by_floor is_on r.floor refl
]
  where
    by_floor :
        is_ptt r.mode ≡ true → (f : FloorState) → r.floor ≡ f → IsTimed now r (time_room now r).0
    by_floor is_on idle e = idle-IsTimed now r is_on e
    by_floor is_on (taken v start ping) e = taken-IsTimed now r is_on v start ping e

-- A round of the floor timer goes through every room. It changes a room only if the room is a push-to-talk room
-- whose speaker talks for more than 30 s or has not been heard of for longer than the ping limit; then
-- the floor is free and the rewriters serve nobody. The participants stay.
pub floor_round_exact :
    (now : ℕ) (w : World) (id : String) (r : Room)
    → find id w.hub.rooms ≡ some r
    → (t : Room) × (find id (floor_round now w).hub.rooms ≡ some t)
      × IsTimed now r t
      × ((floor_round now w).heap ≡ w.heap)
unfolding floor_round
floor_round_exact now w id r there =
    ((time_room now r).0, timed now id w.hub.rooms r there, room-IsTimed now r, refl)
