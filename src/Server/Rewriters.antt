-- ===== src/Server/Rewriters.antt =====
-- src/lib.rs: the rewriters of every room follow its floor through the rounds of the timers.
use light_livechat.Base.{
  ℕ, String, ◌≡◌, refl, sym, ◌∙◌, subst, inl, inr, if_pos, if_neg, some, [], ◌∷◌, Bool-cases,
  string_discrete,
}
use light_livechat.Base.DashMap.{DashMap, get}
use light_livechat.Base.TextMap.{find, some-injective}
use light_livechat.Config.{conference, ptt, zombie_timeout_ms}
use light_livechat.Room.Floor.{current_speaker}
use light_livechat.Room.Floor.Outcomes.{timer_cases}
use light_livechat.Room.Rewriter.{clear_speaker}
use light_livechat.Room.Members.{Room}
use light_livechat.Room.Hub.{RoomHub}
use light_livechat.Room.Hub.Keeping.{AllRooms, reap-AllRooms}
use light_livechat.Signaling.World.{World, is_ptt}
use light_livechat.Signaling.Floor.Rewriters.{IsInStep, SameMedia-IsInStep, RoomsInStep}
use light_livechat.Signaling.Dispatch.Membership.{create-InStep}
use light_livechat.Server.{
  Draw, create_next, create_default_rooms, timed_out, time_room, time_rooms, floor_round,
  reaper_round,
}

time_room-IsInStep : (now : ℕ) (r : Room) → IsInStep r → IsInStep (time_room now r).0
unfolding time_room timed_out clear_speaker current_speaker
time_room-IsInStep now r step = elim (Bool-cases (is_ptt r.mode)) [
  | inl yes_ptt ↦ elim (timer_cases now r.floor) [
    | inl (v, cause, _, e) ↦ rw (yes_ptt, e) (refl, refl)
    | inr e ↦ rw (yes_ptt, e) step
  ]
  | inr plain ↦ rw plain step
]

-- A round gives every identity the room that its present room becomes.
pub find-time_rooms :
    (now : ℕ) (id : String) (rooms : DashMap String Room) (s : Room)
    → find id (time_rooms now rooms).0 ≡ some s
    → (r : Room) × (find id rooms ≡ some r) × (s ≡ (time_room now r).0)
unfolding time_rooms get
find-time_rooms now id [] s e = cc
find-time_rooms now id ((key, r) ∷ rooms) s e = elim (string_discrete key id) [
  | yes same ↦ (
    r,
    if_pos (string_discrete key id) same (some r) (find id rooms),
    some-injective (sym e ∙ if_pos (string_discrete key id) same _ _),
  )
  | no apart ↦
      let (t, there, q) =
        find-time_rooms now id rooms s (sym (if_neg (string_discrete key id) apart _ _) ∙ e) in
      (t, if_neg (string_discrete key id) apart (some r) (find id rooms) ∙ there, q)
]

time_rooms-AllRooms :
    (now : ℕ) (rooms : DashMap String Room)
    → AllRooms IsInStep rooms
    → AllRooms IsInStep (time_rooms now rooms).0
time_rooms-AllRooms now rooms all id s e =
    let (r, there, q) = find-time_rooms now id rooms s e in
    subst IsInStep (sym q) (time_room-IsInStep now r (all id r there))

pub floor_round-InStep : (now : ℕ) (w : World) → RoomsInStep w → RoomsInStep (floor_round now w)
unfolding floor_round
floor_round-InStep now w all = time_rooms-AllRooms now w.hub.rooms all

pub reaper_round-InStep : (now : ℕ) (w : World) → RoomsInStep w → RoomsInStep (reaper_round now w)
unfolding reaper_round
reaper_round-InStep now w all =
    reap-AllRooms IsInStep SameMedia-IsInStep w.heap now zombie_timeout_ms w.hub all

pub create_default_rooms-InStep :
    (now : ℕ) (first second third : Draw) (hub : RoomHub)
    → AllRooms IsInStep hub.rooms
    → AllRooms IsInStep (create_default_rooms now first second third hub).rooms
unfolding create_default_rooms create_next
create_default_rooms-InStep now a b c hub all =
    create-InStep c.id "대회의실" (some 20) conference now c.audio_ssrc c.video_ssrc _ (
      create-InStep b.id "회의실-2" (some 10) conference now b.audio_ssrc b.video_ssrc _
        (create-InStep a.id "무전 대화방" (some 10) ptt now a.audio_ssrc a.video_ssrc hub all))
