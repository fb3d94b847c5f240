-- ===== src/Room/Floor.antt =====
-- src/room/floor.rs: who may talk in a push-to-talk room. The mutex makes each method one step, so
-- a method is a function from the state to the new state and the action. Times are milliseconds.
pub mod Events
pub mod Outcomes
pub mod Timers
pub mod Protocol
use light_livechat.Base.{
  ℕ, ◌-◌, String, Option, none, some, ite, ltb, if◌then◌else◌, string_discrete,
}
use light_livechat.Config.{floor_max_burst_ms, floor_ping_timeout_ms}

pub data FloorState : Type 0 where
  idle : FloorState
  taken : (speaker : String) (burst_start last_ping : ℕ) → FloorState

pub data FloorAction : Type 0 where
  granted : (speaker : String) → FloorAction
  denied : (reason current_speaker : String) → FloorAction
  released : (prev_speaker : String) → FloorAction
  revoked : (prev_speaker cause : String) → FloorAction
  ping_ok ping_denied not_ptt_room : FloorAction

-- `FloorController::new`.
abbrev pub new_floor : FloorState
new_floor = idle

unfoldable pub current_speaker : FloorState → Option String
current_speaker (taken speaker _ _) = some speaker
current_speaker idle = none

unfoldable pub request : String → ℕ → FloorState → FloorState × FloorAction
request user now idle = (taken user now now, granted user)
request user now (taken speaker start ping) =
    ite (string_discrete speaker user) (taken speaker start ping, granted user)
      (taken speaker start ping, denied "channel busy" speaker)

unfoldable pub release : String → FloorState → FloorState × FloorAction
release user idle = (idle, released user)
release user (taken speaker start ping) =
    ite (string_discrete speaker user) (idle, released user) (taken speaker start ping, ping_denied)

-- The method `ping`.
unfoldable pub ping_floor : String → ℕ → FloorState → FloorState × FloorAction
ping_floor user now idle = (idle, ping_denied)
ping_floor user now (taken speaker start last) =
    ite (string_discrete speaker user) (taken speaker start now, ping_ok)
      (taken speaker start last, ping_denied)

-- `saturating_sub` is the truncated subtraction.
unfoldable pub check_timers : ℕ → FloorState → FloorState × Option FloorAction
check_timers now idle = (idle, none)
check_timers now (taken speaker start last) =
    if ltb floor_max_burst_ms (now - start)
    then (idle, some (revoked speaker "max burst exceeded"))
    else (if ltb floor_ping_timeout_ms (now - last)
        then (idle, some (revoked speaker "participant lost"))
        else (taken speaker start last, none))

unfoldable pub on_participant_leave : String → FloorState → FloorState × Option FloorAction
on_participant_leave user idle = (idle, none)
on_participant_leave user (taken speaker start last) =
    ite (string_discrete speaker user) (idle, some (released user)) (taken speaker start last, none)
