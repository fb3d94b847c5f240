-- ===== src/Signaling/Dispatch/Membership.antt =====
-- src/signaling/handler.rs: the rewriters of every room follow its floor while rooms are made and members
-- come and go.
use light_livechat.Base.{
  ℕ, String, ◌≡◌, refl, inl, inr, Bool, true, false, Option, none, some, if◌then◌else◌, Outcome, ok,
  panic, out_of_fuel,
}
use light_livechat.Config.{RoomMode}
use light_livechat.Errors.{LightResult}
use light_livechat.Room.Floor.{current_speaker}
use light_livechat.Room.Rewriter.{new_audio, new_video, new_rewriter}
use light_livechat.Room.Members.{Arc, Room, new_room}
use light_livechat.Room.Hub.{RoomHub, create, hub_add_participant, hub_remove_participant}
use light_livechat.Room.Hub.Keeping.{AllRooms, put-AllRooms, add-AllRooms, remove-AllRooms}
use light_livechat.Signaling.Messages.{Packet}
use light_livechat.Signaling.World.{Session, World, Env, Guarded, proceed, refuse, crash}
use light_livechat.Signaling.Floor.{leave_floor}
use light_livechat.Signaling.Floor.Rewriters.{
  IsInStep, SameMedia-IsInStep, After, RoomsInStep, leave_floor-InStep,
}
use light_livechat.Signaling.Rooms.{admitted, join_room, allocate, joiner}
use light_livechat.Signaling.Leaving.{departed, leave_room, removed_hub, clean, cleanup}
use light_livechat.Signaling.Dispatch.{kept, with_session}

-- What a dispatch leaves behind, if it returns.
abbrev pub Leaves : {B : Type 0} → (World → Type 0) → Outcome (Session × World × B) → Type 0
Leaves P (ok (_, w, _)) = P w
Leaves P panic = Unit
Leaves P out_of_fuel = Unit

pub if-Leaves :
    {B : Type 0} (P : World → Type 0) (b : Bool) (m k : Outcome (Session × World × B))
    → Leaves P m
    → Leaves P k
    → Leaves P (if b then m else k)
if-Leaves P true m k h g = h
if-Leaves P false m k h g = g

pub kept-Leaves :
    (P : World → Type 0) (s : Session) (m : Outcome (World × Packet))
    → After P m
    → Leaves P (kept s m)
kept-Leaves P s (ok (w, response)) h = h
kept-Leaves P s panic h = tt
kept-Leaves P s out_of_fuel h = tt

pub with_session-Leaves :
    (P : World → Type 0) (m : Outcome (Session × World × Packet))
    → Leaves P m
    → Leaves P (with_session m)
with_session-Leaves P (ok (s, w, response)) h = h
with_session-Leaves P panic h = tt
with_session-Leaves P out_of_fuel h = tt

new_room-IsInStep :
    (id name : String) (capacity : Option ℕ) (mode : RoomMode)
    (created_at audio_ssrc video_ssrc : ℕ)
    → IsInStep (new_room id name capacity mode created_at audio_ssrc video_ssrc)
unfolding new_room new_audio new_video new_rewriter current_speaker
new_room-IsInStep id name capacity mode created_at audio_ssrc video_ssrc = (refl, refl)

pub create-InStep :
    (id name : String) (capacity : Option ℕ) (mode : RoomMode)
    (created_at audio_ssrc video_ssrc : ℕ) (hub : RoomHub)
    → AllRooms IsInStep hub.rooms
    → AllRooms IsInStep (create id name capacity mode created_at audio_ssrc video_ssrc hub).0.rooms
unfolding create
create-InStep id name capacity mode created_at audio_ssrc video_ssrc hub all =
    put-AllRooms IsInStep id (new_room id name capacity mode created_at audio_ssrc video_ssrc)
      hub.rooms all (new_room-IsInStep id name capacity mode created_at audio_ssrc video_ssrc)

admitted-InStep :
    (env : Env) (pid : ℕ) (s : Session) (w : World) (user id : String) (r : Room) (a : Arc)
    (x : LightResult RoomHub)
    → hub_add_participant w.heap id a w.hub ≡ x
    → RoomsInStep w
    → RoomsInStep (admitted env pid s w user id r x).1
unfolding admitted
admitted-InStep env pid s w user id r a (inl e) q all = all
admitted-InStep env pid s w user id r a (inr hub) q all =
    add-AllRooms IsInStep SameMedia-IsInStep w.heap id a w.hub hub q all

pub join_room-InStep :
    (env : Env) (pid : ℕ) (s : Session) (w : World) (g : Guarded (String × String × Room))
    → RoomsInStep w
    → Leaves RoomsInStep (join_room env pid s w g)
unfolding join_room
join_room-InStep env pid s w (proceed (user, id, r)) all =
    let w1 = allocate (joiner env user id) w in
    admitted-InStep env pid s w1 user id r w.next_arc
      (hub_add_participant w1.heap id w.next_arc w1.hub) refl all
join_room-InStep env pid s w (refuse code msg) all = all
join_room-InStep env pid s w crash all = tt

departed-InStep :
    (pid : ℕ) (s : Session) (w : World) (user id : String) (x : LightResult (RoomHub × Arc))
    → hub_remove_participant w.heap id user w.hub ≡ x
    → RoomsInStep w
    → RoomsInStep (departed pid s w user id x).1
unfolding departed
departed-InStep pid s w user id (inl e) q all = all
departed-InStep pid s w user id (inr (hub, a)) q all =
    remove-AllRooms IsInStep SameMedia-IsInStep w.heap id user w.hub hub a q all

pub leave_room-InStep :
    (pid : ℕ) (s : Session) (w : World) (g : Guarded (String × String))
    → RoomsInStep w
    → Leaves RoomsInStep (leave_room pid s w g)
unfolding leave_room
leave_room-InStep pid s w (proceed (user, id)) all =
    let w1 = leave_floor id user w in
    departed-InStep pid s w1 user id (hub_remove_participant w1.heap id user w1.hub) refl
      (leave_floor-InStep id user w all)
leave_room-InStep pid s w (refuse code msg) all = all
leave_room-InStep pid s w crash all = tt

removed-InStep :
    (w : World) (id user : String) (x : LightResult (RoomHub × Arc))
    → hub_remove_participant w.heap id user w.hub ≡ x
    → RoomsInStep w
    → AllRooms IsInStep (removed_hub w.hub x).rooms
removed-InStep w id user (inl e) q all = all
removed-InStep w id user (inr (hub, a)) q all =
    remove-AllRooms IsInStep SameMedia-IsInStep w.heap id user w.hub hub a q all

pub cleanup-InStep : (s : Session) (w : World) → RoomsInStep w → RoomsInStep (cleanup s w)
unfolding cleanup
cleanup-InStep s w all = cases s.current_room s.user_id
  where
    cases : (room_id user_id : Option String) → RoomsInStep (clean room_id user_id w)
    cases none user = all
    cases (some id) none = all
    cases (some id) (some user) =
        let w1 = leave_floor id user w in
        removed-InStep w1 id user (hub_remove_participant w1.heap id user w1.hub) refl
          (leave_floor-InStep id user w all)
