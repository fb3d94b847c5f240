-- ===== src/Room/Floor/Events.antt =====
-- The calls that src/room/floor.rs receives from the signaling handlers, the floor timer and the
-- cleanup of a connection, in any order.

use light_livechat.Base.{
  ℕ, String, ◌≡◌, ◌⊎◌, inl, inr, Option, none, some, List, [], ◌∷◌, ◌-◌, ◌<◌, arith,
  string_discrete, subst, Bool-cases, ltb, ltb→lt,
}
use light_livechat.Config.{floor_max_burst_ms, floor_ping_timeout_ms}
use light_livechat.Room.Floor.{
  FloorState, FloorAction, idle, taken, request, release, ping_floor, check_timers,
  on_participant_leave,
}

pub data Event : Type 0 where
  requests : (user : String) (now : ℕ) → Event
  releases : (user : String) → Event
  pings : (user : String) (now : ℕ) → Event
  ticks : (now : ℕ) → Event
  leaves : (user : String) → Event

abbrev said : FloorState × FloorAction → FloorState × Option FloorAction
said (s, a) = (s, some a)

unfoldable pub step : FloorState → Event → FloorState × Option FloorAction
unfolding request release ping_floor check_timers on_participant_leave
step s (requests user now) = said (request user now s)
step s (releases user) = said (release user s)
step s (pings user now) = said (ping_floor user now s)
step s (ticks now) = check_timers now s
step s (leaves user) = on_participant_leave user s

abbrev pub with_action : Option FloorAction → List FloorAction → List FloorAction
with_action none log = log
with_action (some a) log = a ∷ log

-- The state after a list of calls, and the actions that the callers were given, oldest first.
unfoldable pub run : FloorState → List Event → FloorState × List FloorAction
run s [] = (s, [])
run s (e ∷ es) = let (t, a) = step s e in let (u, log) = run t es in (u, with_action a log)

-- The two conditions of the timer.
abbrev pub Overdue : (now burst_start last_ping : ℕ) → Type 0
Overdue now start last = (floor_max_burst_ms < now - start) ⊎ (floor_ping_timeout_ms < now - last)

-- Why a burst ends.
pub data Ends (user : String) (start last : ℕ) : Event → Type 0 where
  by_release : Ends user start last (releases user)
  by_leave : Ends user start last (leaves user)
  by_timer : (now : ℕ) → Overdue now start last → Ends user start last (ticks now)

-- While a user talks, one call leaves the same burst in place (its start included), or it frees the
-- floor, and then the call was that user's release, that user's leave, or a tick with the burst
-- over 30 s or the last ping over 5 s old. No call hands the floor to another user.
pub step_while_taken :
    (user : String) (start last : ℕ) (e : Event)
    → ((ping : ℕ) × ((step (taken user start last) e).0 ≡ taken user start ping))
      ⊎ (((step (taken user start last) e).0 ≡ idle) × Ends user start last e)
unfolding step
step_while_taken user start last (requests v now) = inl (last, ground arith)
step_while_taken user start last (releases v) = elim (string_discrete user v) [
  | yes e ↦ inr (ground arith, subst (λ w. Ends user start last (releases w)) e by_release)
  | no n ↦ inl (last, ground arith)
]
step_while_taken user start last (pings v now) = elim (string_discrete user v) [
  | yes e ↦ inl (now, ground arith)
  | no n ↦ inl (last, ground arith)
]
step_while_taken user start last (ticks now) =
    elim (Bool-cases (ltb floor_max_burst_ms (now - start))) [
      | inl long ↦ inr (ground arith, by_timer now (inl (ltb→lt _ _ long)))
      | inr short ↦ elim (Bool-cases (ltb floor_ping_timeout_ms (now - last))) [
        | inl lost ↦ inr (ground arith, by_timer now (inr (ltb→lt _ _ lost)))
        | inr alive ↦ inl (last, ground arith)
      ]
    ]
step_while_taken user start last (leaves v) = elim (string_discrete user v) [
  | yes e ↦ inr (ground arith, subst (λ w. Ends user start last (leaves w)) e by_leave)
  | no n ↦ inl (last, ground arith)
]
