-- ===== src/Room/Floor/Protocol.antt =====
-- The floor of src/room/floor.rs as its callers see it: the actions alone, without the state.
use light_livechat.Base.{
  String, ◌≡◌, refl, Option, none, some, List, [], ◌∷◌, ite, arith, string_discrete, ◌∙◌,
}
use light_livechat.Room.Floor.{
  FloorState, FloorAction, idle, taken, granted, denied, released, revoked, ping_ok, ping_denied,
  not_ptt_room, current_speaker,
}
use light_livechat.Room.Floor.Events.{
  Event, requests, releases, pings, ticks, leaves, step, run, with_action,
}

-- The specification: who holds the floor after an action, if the action is allowed at all. A grant
-- wants a free floor or its holder, a denial names the holder, a revocation takes from the holder,
-- and a release frees the floor of its holder or finds it free.
abbrev pub Holder : Type 0
Holder = Option String

unfoldable pub allow : Holder → FloorAction → Option Holder
allow none (granted u) = some (some u)
allow (some v) (granted u) = ite (string_discrete v u) (some (some u)) none
allow none (denied _ w) = none
allow (some v) (denied _ w) = ite (string_discrete v w) (some (some v)) none
allow none (released u) = some none
allow (some v) (released u) = ite (string_discrete v u) (some none) none
allow none (revoked u _) = none
allow (some v) (revoked u _) = ite (string_discrete v u) (some none) none
allow none ping_ok = none
allow (some v) ping_ok = some (some v)
allow h ping_denied = some h
allow h not_ptt_room = none

pub allow_log : Holder → List FloorAction → Option Holder
allow_log h [] = some h
allow_log h (a ∷ log) = elim (allow h a) [ none ↦ none | some g ↦ allow_log g log ]

step-allowed :
    (s : FloorState) (e : Event) (log : List FloorAction)
    → allow_log (current_speaker s) (with_action (step s e).1 log)
      ≡ allow_log (current_speaker (step s e).0) log
unfolding step allow current_speaker allow_log
step-allowed idle (requests u t) log = refl
step-allowed idle (releases u) log = refl
step-allowed idle (pings u t) log = refl
step-allowed idle (ticks t) log = refl
step-allowed idle (leaves u) log = refl
step-allowed (taken v b p) (requests u t) log = ground arith
step-allowed (taken v b p) (releases u) log = ground arith
step-allowed (taken v b p) (pings u t) log = ground arith
step-allowed (taken v b p) (ticks t) log = ground arith
step-allowed (taken v b p) (leaves u) log = ground arith

-- Every history follows the protocol: the actions handed out, read by the specification alone,
-- are all allowed, and they tell who holds the floor at the end.
pub run-allowed :
    (s : FloorState) (es : List Event)
    → allow_log (current_speaker s) (run s es).1 ≡ some (current_speaker (run s es).0)
unfolding run
run-allowed s [] = unfold allow_log in refl
run-allowed s (e ∷ es) = step-allowed s e (run (step s e).0 es).1 ∙ run-allowed (step s e).0 es
