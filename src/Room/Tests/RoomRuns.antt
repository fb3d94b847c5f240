-- ===== src/Room/Tests/RoomRuns.antt =====
-- Runs of src/room/room.rs on a room with one member.
use light_livechat.Base.{
  zero, suc, String, ◌≡◌, refl, ◌≢◌, inr, none, some, [], arith, string_discrete,
}
use light_livechat.Base.DashMap.{get, insert, remove}
use light_livechat.Base.TextMap.{find, put, texts_differ}
use light_livechat.Config.{ptt}
use light_livechat.Room.Participant.{
  PcType, publish, subscribe, SocketAddr, session, new_participant, new_session,
}
use light_livechat.Room.Members.{Heap, Room, new_room, add_participant, latch}
use light_livechat.Room.Members.Consistent.{IsConsistent, IsNew, added, added-IsConsistent}
use light_livechat.Room.Members.Latching.{latch_exact}
use light_livechat.Room.Members.Lifetimes.{Reachable, created, joined, IsRoom, Reachable-IsRoom}
use light_livechat.Room.Hub.{
  RoomHub, hub_add_participant, hub_remove_participant, latch_by_ufrag, find_by_addr, find_by_ufrag,
}
use light_livechat.Room.Hub.Lookups.{
  latch_by_ufrag_exact, hub_add_participant_exact, hub_remove_participant_exact,
}

abbrev heap0 : Heap
heap0 zero = new_participant "ann" "r" "u1" "p1" "u2" "p2" 0
heap0 (suc _) = new_participant "bob" "r" "u3" "p3" "u4" "p4" 0

abbrev empty_room : Room
empty_room = new_room "r" "lobby" none ptt 0 1 2

empty_room-Reachable : Reachable heap0 empty_room
empty_room-Reachable = created heap0 empty_room "r" "lobby" none ptt 0 1 2 refl

empty_room-IsConsistent : IsConsistent heap0 empty_room
empty_room-IsConsistent = (Reachable-IsRoom heap0 empty_room empty_room-Reachable).0

abbrev name : String → String
name s = s

differ : name "u1" ≢ name "u2"
unfolding string_discrete
differ = texts_differ "u1" "u2" refl

ann-IsNew : IsNew heap0 0 empty_room
unfolding get insert remove string_discrete new_room new_participant new_session
ann-IsNew = (refl, refl, differ)

abbrev ann_room : Room
ann_room = added heap0 0 empty_room

ann_room-IsConsistent : IsConsistent heap0 ann_room
unfolding get insert remove string_discrete new_room new_participant new_session
ann_room-IsConsistent = added-IsConsistent heap0 0 empty_room empty_room-IsConsistent refl ann-IsNew

abbrev empty_hub : RoomHub
empty_hub = record { rooms = put "r" empty_room []; ufrag_index = []; addr_index = [] }

abbrev ann_hub : RoomHub
ann_hub = record {
  rooms = put "r" ann_room [];
  ufrag_index = put "u2" "r" (put "u1" "r" []);
  addr_index = [];
}

Reachable-IsRoom_example : IsRoom heap0 ann_room
unfolding get insert remove string_discrete new_room new_participant new_session add_participant
Reachable-IsRoom_example =
    Reachable-IsRoom heap0 ann_room
      (joined heap0 empty_room ann_room 0 ann-IsNew refl empty_room-Reachable)

latch_exact_example :
    (heap' : Heap) × (s : Room) × (latch "u2" "10.0.0.1:5" heap0 ann_room
      ≡ (heap', s, some (0, subscribe)))
    × IsConsistent heap' s
    × (find "10.0.0.1:5" s.by_addr ≡ some (0, subscribe))
    × ((session subscribe (heap' 0)).address ≡ some "10.0.0.1:5")
    × ((x : SocketAddr) → x ≢ "10.0.0.1:5" → find x s.by_addr ≢ some (0, subscribe))
unfolding get insert remove string_discrete new_room new_participant new_session
latch_exact_example =
    latch_exact "u2" "10.0.0.1:5" heap0 ann_room 0 subscribe ann_room-IsConsistent refl

latch_by_ufrag_exact_example :
    (heap' : Heap) × (hub' : RoomHub) × (s : Room) × (latch_by_ufrag "u2" "10.0.0.1:5" heap0 ann_hub
      ≡ (heap', hub', some (0, subscribe, s)))
    × (find_by_addr "10.0.0.1:5" hub' ≡ some (0, subscribe, s))
    × IsConsistent heap' s
    × ((other : String) → other ≢ "r" → find other hub'.rooms ≡ find other ann_hub.rooms)
unfolding get insert remove string_discrete new_room new_participant new_session
latch_by_ufrag_exact_example =
    latch_by_ufrag_exact "u2" "10.0.0.1:5" heap0 ann_hub "r" ann_room 0 subscribe refl refl refl
      ann_room-IsConsistent

hub_add_participant_exact_example :
    (hub' : RoomHub) × (s : Room) × (hub_add_participant heap0 "r" 0 empty_hub ≡ inr hub')
    × IsConsistent heap0 s
    × (find_by_ufrag (heap0 0).publish_session.ufrag hub' ≡ some (0, publish, s))
    × (find_by_ufrag (heap0 0).subscribe_session.ufrag hub' ≡ some (0, subscribe, s))
unfolding get insert remove string_discrete new_room new_participant new_session
hub_add_participant_exact_example =
    hub_add_participant_exact heap0 "r" 0 empty_hub empty_room refl empty_room-IsConsistent
      ann-IsNew (omega arith) refl

hub_remove_participant_exact_example :
    (hub' : RoomHub) × (s : Room) × (hub_remove_participant heap0 "r" "ann" ann_hub ≡ inr (hub', 0))
    × (find "r" hub'.rooms ≡ some s)
    × IsConsistent heap0 s
    × (find "ann" s.participants ≡ none)
    × ((pc : PcType) → find_by_ufrag (session pc (heap0 0)).ufrag hub' ≡ none)
    × ((pc : PcType) (x : SocketAddr)
        → (session pc (heap0 0)).address ≡ some x
        → find_by_addr x hub' ≡ none)
    × ((other : String) → other ≢ "r" → find other hub'.rooms ≡ find other ann_hub.rooms)
unfolding get insert remove string_discrete new_room new_participant new_session
hub_remove_participant_exact_example =
    hub_remove_participant_exact heap0 "r" "ann" 0 ann_hub ann_room refl ann_room-IsConsistent refl
