-- ===== src/Room/Hub/Lookups.antt =====
-- src/room/room.rs: what the media and STUN paths of the server find through the hub.
use light_livechat.Base.{
  ◌<◌, String, ◌≡◌, refl, sym, ◌∙◌, ◌≢◌, inr, Option, none, some, string_discrete, length,
}
use light_livechat.Base.DashMap.{DashMap}
use light_livechat.Base.TextMap.{
  find, put, delete, find-put_self, find-put_ne, find-delete_self, find-delete_ne, some-injective,
}
use light_livechat.Room.Participant.{Participant, PcType, publish, subscribe, SocketAddr, session}
use light_livechat.Room.Members.{Arc, Heap, Room, delete_addr}
use light_livechat.Room.Members.Consistent.{IsConsistent, IsNew}
use light_livechat.Room.Members.Removal.{remove_participant_exact}
use light_livechat.Room.Members.Latching.{latch_exact}
use light_livechat.Room.Members.Joining.{add_participant_exact}
use light_livechat.Room.Hub.{
  RoomHub, get_room, forget_indices, hub_add_participant, hub_remove_participant, latch_by_ufrag,
  find_by_addr, find_by_ufrag,
}

-- A lookup through an index that names a room.
found_addr :
    (addr : SocketAddr) (hub : RoomHub) (id : String) (r : Room) (a : Arc) (pc : PcType)
    → find addr hub.addr_index ≡ some id
    → find id hub.rooms ≡ some r
    → find addr r.by_addr ≡ some (a, pc)
    → find_by_addr addr hub ≡ some (a, pc, r)
unfolding find_by_addr
found_addr addr hub id r a pc e f g = rw (e, f, g) refl

found_ufrag :
    (ufrag : String) (hub : RoomHub) (id : String) (r : Room) (a : Arc) (pc : PcType)
    → find ufrag hub.ufrag_index ≡ some id
    → find id hub.rooms ≡ some r
    → find ufrag r.by_ufrag ≡ some (a, pc)
    → find_by_ufrag ufrag hub ≡ some (a, pc, r)
unfolding find_by_ufrag
found_ufrag ufrag hub id r a pc e f g = rw (e, f, g) refl

-- A STUN request whose ufrag the hub knows, for a connection in a consistent room: from then on the media path
-- finds, for packets from its address, the same participant, the same of its two connections, and the room.
-- That room is consistent with the sessions as they are afterwards, and the hub has every other room as it
-- was.
pub latch_by_ufrag_exact :
    (ufrag : String) (addr : SocketAddr) (heap : Heap) (hub : RoomHub) (id : String) (r : Room)
    (a : Arc) (pc : PcType)
    → find ufrag hub.ufrag_index ≡ some id
    → find id hub.rooms ≡ some r
    → find ufrag r.by_ufrag ≡ some (a, pc)
    → IsConsistent heap r
    → (heap' : Heap) × (hub' : RoomHub) × (s : Room) × (latch_by_ufrag ufrag addr heap hub
        ≡ (heap', hub', some (a, pc, s)))
      × (find_by_addr addr hub' ≡ some (a, pc, s))
      × IsConsistent heap' s
      × ((other : String) → other ≢ id → find other hub'.rooms ≡ find other hub.rooms)
unfolding latch_by_ufrag
latch_by_ufrag_exact ufrag addr heap hub id r a pc e f g v =
    let (heap', s, latched, w, here, _, _) = latch_exact ufrag addr heap r a pc v g in
    let hub' : RoomHub = record hub {
      rooms = put id s hub.rooms;
      addr_index = put addr id hub.addr_index;
    } in
    (
      heap',
      hub',
      s,
      rw (e, latch_by_ufrag, f, latched) refl,
      found_addr addr hub' id s a pc (find-put_self addr addr hub.addr_index id refl)
          (find-put_self id id hub.rooms s refl) here,
      w,
      λ other n. find-put_ne id other hub.rooms s (λ q. n (sym q)),
    )

-- A participant that the hub admits to a room is found by both of its ufrags from then on.
pub hub_add_participant_exact :
    (heap : Heap) (id : String) (a : Arc) (hub : RoomHub) (r : Room)
    → find id hub.rooms ≡ some r
    → IsConsistent heap r
    → IsNew heap a r
    → length r.participants < r.capacity
    → find (heap a).user_id r.participants ≡ none
    → (hub' : RoomHub) × (s : Room) × (hub_add_participant heap id a hub ≡ inr hub')
      × IsConsistent heap s
      × (find_by_ufrag (heap a).publish_session.ufrag hub' ≡ some (a, publish, s))
      × (find_by_ufrag (heap a).subscribe_session.ufrag hub' ≡ some (a, subscribe, s))
unfolding hub_add_participant get_room
hub_add_participant_exact heap id a hub r f v new room absent =
    let (s, e, w, _, frags, _, _) = (add_participant_exact heap a r v new).2 room absent in
    let p = heap a in
    let hub' : RoomHub = record hub {
      rooms = put id s hub.rooms;
      ufrag_index =
          put p.subscribe_session.ufrag id (put p.publish_session.ufrag id hub.ufrag_index);
    } in
    let there = find-put_self id id hub.rooms s refl in
    (
      hub',
      s,
      rw (f, hub_add_participant, get_room, e) refl,
      w,
      found_ufrag p.publish_session.ufrag hub' id s a publish
          (find-put_ne p.subscribe_session.ufrag p.publish_session.ufrag
              (put p.publish_session.ufrag id hub.ufrag_index) id (λ q. new.2 (sym q))
            ∙ find-put_self p.publish_session.ufrag p.publish_session.ufrag hub.ufrag_index id refl)
          there (frags publish),
      found_ufrag p.subscribe_session.ufrag hub' id s a subscribe
          (find-put_self p.subscribe_session.ufrag p.subscribe_session.ufrag
            (put p.publish_session.ufrag id hub.ufrag_index) id refl)
          there (frags subscribe),
    )

module _ {V : Type 0} (k x : String) (m : DashMap String V) where
  delete_keeps_none : find x m ≡ none → find x (delete k m) ≡ none
  delete_keeps_none e = elim (string_discrete k x) [
    | yes q ↦ find-delete_self k x m q
    | no n ↦ find-delete_ne k x m n ∙ e
  ]

delete_addr_keeps_none :
    {V : Type 0} (o : Option SocketAddr) (x : String) (m : DashMap String V)
    → find x m ≡ none
    → find x (delete_addr o m) ≡ none
delete_addr_keeps_none none x m e = e
delete_addr_keeps_none (some k) x m e = delete_keeps_none k x m e

delete_addr_self :
    {V : Type 0} (o : Option SocketAddr) (x : String) (m : DashMap String V)
    → o ≡ some x
    → find x (delete_addr o m) ≡ none
delete_addr_self none x m e = cc
delete_addr_self (some k) x m e = find-delete_self k x m (some-injective e)

missing_addr :
    (x : SocketAddr) (hub : RoomHub) → find x hub.addr_index ≡ none → find_by_addr x hub ≡ none
unfolding find_by_addr
missing_addr x hub e = rw (e, find_by_addr) refl

missing_ufrag :
    (u : String) (hub : RoomHub) → find u hub.ufrag_index ≡ none → find_by_ufrag u hub ≡ none
unfolding find_by_ufrag
missing_ufrag u hub e = rw (e, find_by_ufrag) refl

forgotten_ufrag :
    (p : Participant) (pc : PcType) (hub : RoomHub)
    → find_by_ufrag (session pc p).ufrag (forget_indices p hub) ≡ none
forgotten_ufrag p publish hub = missing_ufrag p.publish_session.ufrag (forget_indices p hub) (
    delete_keeps_none p.subscribe_session.ufrag p.publish_session.ufrag
      (delete p.publish_session.ufrag hub.ufrag_index)
      (find-delete_self p.publish_session.ufrag p.publish_session.ufrag hub.ufrag_index refl))
forgotten_ufrag p subscribe hub = missing_ufrag p.subscribe_session.ufrag (forget_indices p hub) (
    find-delete_self p.subscribe_session.ufrag p.subscribe_session.ufrag
      (delete p.publish_session.ufrag hub.ufrag_index) refl)

forgotten_addr :
    (p : Participant) (pc : PcType) (x : SocketAddr) (hub : RoomHub)
    → (session pc p).address ≡ some x
    → find_by_addr x (forget_indices p hub) ≡ none
forgotten_addr p publish x hub e = missing_addr x (forget_indices p hub) (
    delete_addr_keeps_none p.subscribe_session.address x
      (delete_addr p.publish_session.address hub.addr_index)
      (delete_addr_self p.publish_session.address x hub.addr_index e))
forgotten_addr p subscribe x hub e = missing_addr x (forget_indices p hub) (
    delete_addr_self p.subscribe_session.address x
      (delete_addr p.publish_session.address hub.addr_index) e)

-- Removing a member gives it back and leaves the room consistent; its ufrags and the addresses that its
-- sessions have now find nothing any more, and no other room changes.
pub hub_remove_participant_exact :
    (heap : Heap) (id user : String) (a : Arc) (hub : RoomHub) (r : Room)
    → find id hub.rooms ≡ some r
    → IsConsistent heap r
    → find user r.participants ≡ some a
    → (hub' : RoomHub) × (s : Room) × (hub_remove_participant heap id user hub ≡ inr (hub', a))
      × (find id hub'.rooms ≡ some s)
      × IsConsistent heap s
      × (find user s.participants ≡ none)
      × ((pc : PcType) → find_by_ufrag (session pc (heap a)).ufrag hub' ≡ none)
      × ((pc : PcType) (x : SocketAddr)
          → (session pc (heap a)).address ≡ some x
          → find_by_addr x hub' ≡ none)
      × ((other : String) → other ≢ id → find other hub'.rooms ≡ find other hub.rooms)
unfolding hub_remove_participant get_room
hub_remove_participant_exact heap id user a hub r f v member =
    let (s, e, w, left, _, _) = remove_participant_exact heap user a r v member in
    let hub1 : RoomHub = record hub { rooms = put id s hub.rooms } in
    (
      forget_indices (heap a) hub1,
      s,
      rw (f, hub_remove_participant, get_room, e) refl,
      find-put_self id id hub.rooms s refl,
      w,
      left,
      (λ pc. forgotten_ufrag (heap a) pc hub1),
      (λ pc x q. forgotten_addr (heap a) pc x hub1 q),
      λ other n. find-put_ne id other hub.rooms s (λ q. n (sym q)),
    )
