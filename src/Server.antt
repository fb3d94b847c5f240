-- ===== src/Server.antt =====
-- src/lib.rs: the rooms that the server starts with, one round of the floor timer, and one round of the
-- zombie reaper. `now` is the clock in milliseconds.
pub mod Zombies
pub mod Reaping
pub mod Rewriters
pub mod Timers
use light_livechat.Base.{ℕ, String, Option, none, some, List, [], ◌∷◌, ◌++◌, if◌then◌else◌}
use light_livechat.Base.DashMap.{DashMap}
use light_livechat.Base.TextMap.{find}
use light_livechat.Config.{RoomMode, conference, ptt, zombie_timeout_ms}
use light_livechat.Room.Floor.{
  FloorState, FloorAction, granted, denied, released, revoked, ping_ok, ping_denied, not_ptt_room,
  check_timers,
}
use light_livechat.Room.Participant.{get_tracks}
use light_livechat.Room.Members.{Arc, Heap, Room, get_participant}
use light_livechat.Room.Hub.{RoomHub, create, reap_zombies}
use light_livechat.Signaling.World.{Output, World, emit, is_ptt}
use light_livechat.Signaling.Wire.{broadcast_to_room, departure}
use light_livechat.Signaling.Floor.{floor_idle, floor_revoke, clear_rewriters, to_member}
use light_livechat.Signaling.Leaving.{tell_remaining}

-- What the package uuid and the random source give for one room.
pub record Draw : Type 0 where
  pub id : String
  pub audio_ssrc : ℕ
  pub video_ssrc : ℕ

unfoldable pub create_next :
    (name : String) → (capacity : ℕ) → RoomMode → (now : ℕ) → Draw → RoomHub → RoomHub
create_next name capacity mode now d hub =
    (create d.id name (some capacity) mode now d.audio_ssrc d.video_ssrc hub).0

unfoldable pub create_default_rooms : (now : ℕ) → (first second third : Draw) → RoomHub → RoomHub
unfolding create_next
create_default_rooms now first second third hub =
    create_next "대회의실" 20 conference now third
      (create_next "회의실-2" 10 conference now second (create_next "무전 대화방" 10 ptt now first hub))

-- One room in a round of `run_floor_timer`.
unfoldable pub timed_out : Room → FloorState → Option FloorAction → Room × List Output
timed_out r floor none = (record r { floor = floor }, [])
timed_out r floor (some (revoked prev_speaker cause)) = (
  clear_rewriters (record r { floor = floor }),
  to_member (floor_revoke r.id cause) (get_participant prev_speaker r)
      ++ broadcast_to_room r (floor_idle r.id prev_speaker),
)
timed_out r floor (some (granted _)) = (record r { floor = floor }, [])
timed_out r floor (some (denied _ _)) = (record r { floor = floor }, [])
timed_out r floor (some (released _)) = (record r { floor = floor }, [])
timed_out r floor (some ping_ok) = (record r { floor = floor }, [])
timed_out r floor (some ping_denied) = (record r { floor = floor }, [])
timed_out r floor (some not_ptt_room) = (record r { floor = floor }, [])

unfoldable pub time_room : (now : ℕ) → Room → Room × List Output
unfolding timed_out
time_room now r =
    let (floor, action) = check_timers now r.floor in
    if is_ptt r.mode then timed_out r floor action else (r, [])

unfoldable pub time_rooms : (now : ℕ) → DashMap String Room → DashMap String Room × List Output
time_rooms now [] = ([], [])
time_rooms now ((id, r) ∷ m) =
    let (s, outputs) = time_room now r in
    let (rest, later_) = time_rooms now m in ((id, s) ∷ rest, outputs ++ later_)

unfoldable pub floor_round : (now : ℕ) → World → World
floor_round now w =
    let (rooms, outputs) = time_rooms now w.hub.rooms in
    emit outputs (record w { hub = record w.hub { rooms = rooms } })

-- What a round of `run_zombie_reaper` tells the members that remain, for each participant removed.
unfoldable pub tell_reaped : Heap → RoomHub → List (String × Arc) → List Output
tell_reaped heap hub [] = []
tell_reaped heap hub ((room_id, a) ∷ reaped) =
    let zombie = heap a in
    tell_remaining (departure room_id zombie.user_id (get_tracks zombie)) (find room_id hub.rooms)
    ++ tell_reaped heap hub reaped

unfoldable pub reaper_round : (now : ℕ) → World → World
reaper_round now w =
    let (hub, reaped) = reap_zombies w.heap now zombie_timeout_ms w.hub in
    emit (tell_reaped w.heap hub reaped) (record w { hub = hub })
