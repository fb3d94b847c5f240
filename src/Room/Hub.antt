-- ===== src/Room/Hub.antt =====
-- src/room/room.rs, `RoomHub`: the rooms, with the reverse indices by ufrag and by address. A room
-- is reached through the map alone, so the map holds the room itself.
pub mod Lookups
pub mod Keeping
use light_livechat.Base.{
  ℕ, ◌+◌, ◌-◌, String, inl, inr, Bool, ◌&&◌, Option, none, some, List, [], ◌∷◌, ◌++◌, ltb,
  if◌then◌else◌, length,
}
use light_livechat.Base.DashMap.{DashMap}
use light_livechat.Base.TextMap.{find, put, delete}
use light_livechat.Config.{RoomMode}
use light_livechat.Errors.{LightError, LightResult, room_not_found}
use light_livechat.Room.Participant.{Participant, PcType, SocketAddr, get_address}
use light_livechat.Room.Members.{
  Arc, Heap, Room, new_room, add_participant, remove_participant, latch, get_by_addr, get_by_ufrag,
  delete_addr, keys, values,
}

pub record RoomHub : Type 0 where
  pub rooms : DashMap String Room
  pub ufrag_index : DashMap String String
  pub addr_index : DashMap SocketAddr String

abbrev pub new_hub : RoomHub
new_hub = record { rooms = []; ufrag_index = []; addr_index = [] }

-- `id` is the UUID that the package uuid makes; the virtual SSRCs are random.
unfoldable pub create :
    (id name : String)
    → (capacity : Option ℕ) → RoomMode
    → (created_at audio_ssrc video_ssrc : ℕ) → RoomHub
    → RoomHub × Room
create id name capacity mode created_at audio_ssrc video_ssrc hub =
    let room = new_room id name capacity mode created_at audio_ssrc video_ssrc in
    (record hub { rooms = put id room hub.rooms }, room)

unfoldable pub get_room : (room_id : String) → RoomHub → LightResult Room
get_room room_id hub = elim (find room_id hub.rooms) [ none ↦ inl room_not_found | some r ↦ inr r ]

-- The reverse indices without a participant's entries.
abbrev pub forget_indices : Participant → RoomHub → RoomHub
forget_indices p hub = record hub {
  ufrag_index = delete p.subscribe_session.ufrag (delete p.publish_session.ufrag hub.ufrag_index);
  addr_index =
      delete_addr (get_address p.subscribe_session)
        (delete_addr (get_address p.publish_session) hub.addr_index);
}

unfoldable pub forget_all : Heap → List Arc → RoomHub → RoomHub
forget_all heap [] hub = hub
forget_all heap (a ∷ arcs) hub = forget_all heap arcs (forget_indices (heap a) hub)

unfoldable pub remove_room : Heap → (room_id : String) → RoomHub → LightResult (RoomHub × Room)
remove_room heap room_id hub = elim (find room_id hub.rooms) [
  | none ↦ inl room_not_found
  | some r ↦
      inr (
        forget_all heap (values r.participants) (record hub { rooms = delete room_id hub.rooms }),
        r,
      )
]

abbrev pub count : RoomHub → ℕ
count hub = length hub.rooms

abbrev added_to :
    (pub_ufrag sub_ufrag room_id : String) → RoomHub → LightResult Room → LightResult RoomHub
added_to pub_ufrag sub_ufrag room_id hub (inl e) = inl e
added_to pub_ufrag sub_ufrag room_id hub (inr s) = inr (record hub {
  rooms = put room_id s hub.rooms;
  ufrag_index = put sub_ufrag room_id (put pub_ufrag room_id hub.ufrag_index);
})

-- `RoomHub::add_participant`.
unfoldable pub hub_add_participant : Heap → (room_id : String) → Arc → RoomHub → LightResult RoomHub
hub_add_participant heap room_id a hub = elim (get_room room_id hub) [
  | inl e ↦ inl e
  | inr r ↦
      added_to (heap a).publish_session.ufrag (heap a).subscribe_session.ufrag room_id hub
        (add_participant heap a r)
]

abbrev removed_from :
    Heap → (room_id : String) → RoomHub → LightResult (Room × Arc) → LightResult (RoomHub × Arc)
removed_from heap room_id hub (inl e) = inl e
removed_from heap room_id hub (inr (s, a)) =
    inr (forget_indices (heap a) (record hub { rooms = put room_id s hub.rooms }), a)

-- `RoomHub::remove_participant`.
unfoldable pub hub_remove_participant :
    Heap → (room_id user_id : String) → RoomHub → LightResult (RoomHub × Arc)
hub_remove_participant heap room_id user_id hub = elim (get_room room_id hub) [
  | inl e ↦ inl e
  | inr r ↦ removed_from heap room_id hub (remove_participant heap user_id r)
]

abbrev pub Found : Type 0
Found = Arc × PcType × Room

abbrev latched_in :
    (room_id : String)
    → (addr : SocketAddr) → RoomHub
    → Heap × Room × Option (Arc × PcType)
    → Heap × RoomHub × Option Found
latched_in room_id addr hub (heap, r, none) = (heap, hub, none)
latched_in room_id addr hub (heap, r, some (a, pc)) = (
  heap,
  record hub { rooms = put room_id r hub.rooms; addr_index = put addr room_id hub.addr_index },
  some (a, pc, r),
)

abbrev latch_in :
    (ufrag : String)
    → (addr : SocketAddr) → Heap
    → RoomHub
    → (room_id : String) → Option Room
    → Heap × RoomHub × Option Found
latch_in ufrag addr heap hub room_id none = (heap, hub, none)
latch_in ufrag addr heap hub room_id (some r) =
    latched_in room_id addr hub (latch ufrag addr heap r)

unfoldable pub latch_by_ufrag :
    (ufrag : String) → (addr : SocketAddr) → Heap → RoomHub → Heap × RoomHub × Option Found
latch_by_ufrag ufrag addr heap hub = elim (find ufrag hub.ufrag_index) [
  | none ↦ (heap, hub, none)
  | some room_id ↦ latch_in ufrag addr heap hub room_id (find room_id hub.rooms)
]

abbrev pub in_room : Room → Option (Arc × PcType) → Option Found
in_room r none = none
in_room r (some (a, pc)) = some (a, pc, r)

abbrev of_room : (Room → Option (Arc × PcType)) → Option Room → Option Found
of_room look none = none
of_room look (some r) = in_room r (look r)

abbrev of_id : (Room → Option (Arc × PcType)) → RoomHub → Option String → Option Found
of_id look hub none = none
of_id look hub (some room_id) = of_room look (find room_id hub.rooms)

unfoldable pub find_by_addr : SocketAddr → RoomHub → Option Found
find_by_addr addr hub = of_id (get_by_addr addr) hub (find addr hub.addr_index)

unfoldable pub find_by_ufrag : (ufrag : String) → RoomHub → Option Found
find_by_ufrag ufrag hub = of_id (get_by_ufrag ufrag) hub (find ufrag hub.ufrag_index)

-- `saturating_sub` is the truncated subtraction.
unfoldable pub is_zombie : (now_ms timeout_ms : ℕ) → Participant → Bool
is_zombie now_ms timeout_ms p = ltb 0 p.last_seen && ltb timeout_ms (now_ms - p.last_seen)

unfoldable pub zombies_in : Heap → (now_ms timeout_ms : ℕ) → DashMap String Arc → List String
zombies_in heap now_ms timeout_ms [] = []
zombies_in heap now_ms timeout_ms ((user_id, a) ∷ m) =
    let rest = zombies_in heap now_ms timeout_ms m in
    if is_zombie now_ms timeout_ms (heap a) then user_id ∷ rest else rest

abbrev pub reap_one :
    Heap
    → (room_id user_id : String) → RoomHub × List (String × Arc)
    → LightResult (RoomHub × Arc)
    → RoomHub × List (String × Arc)
reap_one heap room_id user_id (hub, reaped) (inl _) = (hub, reaped)
reap_one heap room_id user_id (hub, reaped) (inr (hub', a)) = (hub', reaped ++ ((room_id, a) ∷ []))

unfoldable pub reap_users :
    Heap
    → (room_id : String) → List String
    → RoomHub × List (String × Arc)
    → RoomHub × List (String × Arc)
reap_users heap room_id [] acc = acc
reap_users heap room_id (user_id ∷ users) (hub, reaped) =
    reap_users heap room_id users (
      reap_one heap room_id user_id (hub, reaped) (hub_remove_participant heap room_id user_id hub))

abbrev pub zombies_of : Heap → (now_ms timeout_ms : ℕ) → Option Room → List String
zombies_of heap now_ms timeout_ms none = []
zombies_of heap now_ms timeout_ms (some r) = zombies_in heap now_ms timeout_ms r.participants

unfoldable pub reap_rooms :
    Heap
    → (now_ms timeout_ms : ℕ) → (room_ids : List String) → RoomHub × List (String × Arc)
    → RoomHub × List (String × Arc)
reap_rooms heap now_ms timeout_ms [] acc = acc
reap_rooms heap now_ms timeout_ms (room_id ∷ room_ids) (hub, reaped) =
    reap_rooms heap now_ms timeout_ms room_ids (
      reap_users heap room_id (zombies_of heap now_ms timeout_ms (find room_id hub.rooms))
        (hub, reaped))

unfoldable pub reap_zombies :
    Heap → (now_ms timeout_ms : ℕ) → RoomHub → RoomHub × List (String × Arc)
reap_zombies heap now_ms timeout_ms hub =
    reap_rooms heap now_ms timeout_ms (keys hub.rooms) (hub, [])
