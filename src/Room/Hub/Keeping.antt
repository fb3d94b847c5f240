-- ===== src/Room/Hub/Keeping.antt =====
-- src/room/room.rs: what every room of a hub keeps while participants come, move and go.
use light_livechat.Base.{
  ℕ, String, ◌≡◌, refl, sym, ap, ◌∙◌, subst, inl, inr, Option, none, some, List, [], ◌∷◌, arith,
  Option-cases,
}
use light_livechat.Base.DashMap.{DashMap}
use light_livechat.Base.TextMap.{find, put, find-put_cases, find-put_ne}
use light_livechat.Errors.{LightResult}
use light_livechat.Room.Participant.{PcType, SocketAddr}
use light_livechat.Room.Members.{Arc, Heap, Room, add_participant, remove_participant, latch, keys}
use light_livechat.Room.Hub.{
  RoomHub, get_room, hub_add_participant, hub_remove_participant, latch_by_ufrag, added_to,
  removed_from, latched_in, reap_one, reap_users, reap_rooms, reap_zombies, zombies_of,
}

-- Every room that the map finds has the property.
abbrev pub AllRooms : (Room → Type 0) → DashMap String Room → Type 0
AllRooms P rooms = (id : String) (r : Room) → find id rooms ≡ some r → P r

pub put-AllRooms :
    (P : Room → Type 0) (id : String) (s : Room) (rooms : DashMap String Room)
    → AllRooms P rooms
    → P s
    → AllRooms P (put id s rooms)
put-AllRooms P id s rooms all p j r e = elim (find-put_cases id j rooms s e) [
  | inl (_, q) ↦ subst P q p
  | inr (_, there) ↦ all j r there
]

-- Only what a room is in the end counts.
pub reput-AllRooms :
    (P : Room → Type 0) (id : String) (r s : Room) (rooms : DashMap String Room)
    → AllRooms P rooms
    → P s
    → AllRooms P (put id s (put id r rooms))
reput-AllRooms P id r s rooms all p j t e = elim (find-put_cases id j (put id r rooms) s e) [
  | inl (_, q) ↦ subst P q p
  | inr (apart, there) ↦ all j t (sym (find-put_ne id j rooms r apart) ∙ there)
]

-- The floor, the rewriters and the mode are the same in both.
abbrev pub SameMedia : Room → Room → Type 0
SameMedia r s =
    (s.floor ≡ r.floor)
    × (s.audio_rewriter ≡ r.audio_rewriter)
    × (s.video_rewriter ≡ r.video_rewriter)
    × (s.mode ≡ r.mode)

add-SameMedia :
    (heap : Heap) (a : Arc) (r s : Room) → add_participant heap a r ≡ inr s → SameMedia r s
unfolding add_participant
add-SameMedia heap a r s e = ground arith

remove-SameMedia :
    (heap : Heap) (user : String) (r s : Room) (a : Arc)
    → remove_participant heap user r ≡ inr (s, a)
    → SameMedia r s
unfolding remove_participant
remove-SameMedia heap user r s a e = ground arith

latch-SameMedia :
    (ufrag : String) (addr : SocketAddr) (heap : Heap) (r : Room)
    → SameMedia r (latch ufrag addr heap r).1
unfolding latch
latch-SameMedia ufrag addr heap r = ground arith

module _ (P : Room → Type 0) (keep : (r s : Room) → SameMedia r s → P r → P s) where
  added-AllRooms :
      (heap : Heap) (id : String) (a : Arc) (hub hub' : RoomHub) (r : Room) (x : LightResult Room)
      (pub_ufrag sub_ufrag : String)
      → add_participant heap a r ≡ x
      → added_to pub_ufrag sub_ufrag id hub x ≡ inr hub'
      → P r
      → AllRooms P hub.rooms
      → AllRooms P hub'.rooms
  added-AllRooms heap id a hub hub' r (inl e) pub_ufrag sub_ufrag q h p all = cc
  added-AllRooms heap id a hub hub' r (inr s) pub_ufrag sub_ufrag q h p all =
      let rooms : put id s hub.rooms ≡ hub'.rooms = ap rooms_of h in
      subst (AllRooms P) rooms
        (put-AllRooms P id s hub.rooms all (keep r s (add-SameMedia heap a r s q) p))
    where
      rooms_of : LightResult RoomHub → DashMap String Room
      rooms_of (inl _) = hub'.rooms
      rooms_of (inr h) = h.rooms

  pub add-AllRooms :
      (heap : Heap) (id : String) (a : Arc) (hub hub' : RoomHub)
      → hub_add_participant heap id a hub ≡ inr hub'
      → AllRooms P hub.rooms
      → AllRooms P hub'.rooms
  unfolding hub_add_participant get_room
  add-AllRooms heap id a hub hub' h all = elim (Option-cases (find id hub.rooms)) [
    | inl q ↦ let bad = rw (hub_add_participant, get_room, q) at h in cc
    | inr (r, q) ↦
        added-AllRooms heap id a hub hub' r (add_participant heap a r)
          (heap a).publish_session.ufrag (heap a).subscribe_session.ufrag refl
          (rw (hub_add_participant, get_room, q) at h) (all id r q) all
  ]

  removed-AllRooms :
      (heap : Heap) (id user : String) (hub hub' : RoomHub) (a : Arc) (r : Room)
      (x : LightResult (Room × Arc))
      → remove_participant heap user r ≡ x
      → removed_from heap id hub x ≡ inr (hub', a)
      → P r
      → AllRooms P hub.rooms
      → AllRooms P hub'.rooms
  removed-AllRooms heap id user hub hub' a r (inl e) q h p all = cc
  removed-AllRooms heap id user hub hub' a r (inr (s, b)) q h p all =
      subst (AllRooms P) (ap rooms_of h)
        (put-AllRooms P id s hub.rooms all (keep r s (remove-SameMedia heap user r s b q) p))
    where
      rooms_of : LightResult (RoomHub × Arc) → DashMap String Room
      rooms_of (inl _) = hub'.rooms
      rooms_of (inr (h, _)) = h.rooms

  pub remove-AllRooms :
      (heap : Heap) (id user : String) (hub hub' : RoomHub) (a : Arc)
      → hub_remove_participant heap id user hub ≡ inr (hub', a)
      → AllRooms P hub.rooms
      → AllRooms P hub'.rooms
  unfolding hub_remove_participant get_room
  remove-AllRooms heap id user hub hub' a h all = elim (Option-cases (find id hub.rooms)) [
    | inl q ↦ let bad = rw (hub_remove_participant, get_room, q) at h in cc
    | inr (r, q) ↦
        removed-AllRooms heap id user hub hub' a r (remove_participant heap user r) refl
          (rw (hub_remove_participant, get_room, q) at h) (all id r q) all
  ]

  latched-AllRooms :
      (id : String) (addr : SocketAddr) (hub : RoomHub) (x : Heap × Room × Option (Arc × PcType))
      → P x.1
      → AllRooms P hub.rooms
      → AllRooms P (latched_in id addr hub x).1.rooms
  latched-AllRooms id addr hub (heap, s, none) p all = all
  latched-AllRooms id addr hub (heap, s, some (a, pc)) p all = put-AllRooms P id s hub.rooms all p

  pub latch-AllRooms :
      (ufrag : String) (addr : SocketAddr) (heap : Heap) (hub : RoomHub)
      → AllRooms P hub.rooms
      → AllRooms P (latch_by_ufrag ufrag addr heap hub).1.rooms
  unfolding latch_by_ufrag
  latch-AllRooms ufrag addr heap hub all = elim (Option-cases (find ufrag hub.ufrag_index)) [
    | inl q ↦ rw (latch_by_ufrag, q) all
    | inr (id, q) ↦ elim (Option-cases (find id hub.rooms)) [
      | inl f ↦ rw (latch_by_ufrag, q, f) all
      | inr (r, f) ↦
          rw (latch_by_ufrag, q, f)
            (latched-AllRooms id addr hub (latch ufrag addr heap r)
              (keep r (latch ufrag addr heap r).1 (latch-SameMedia ufrag addr heap r) (all id r f))
              all)
    ]
  ]

  reaped-AllRooms :
      (heap : Heap) (id user : String) (hub : RoomHub) (reaped : List (String × Arc))
      (x : LightResult (RoomHub × Arc))
      → hub_remove_participant heap id user hub ≡ x
      → AllRooms P hub.rooms
      → AllRooms P (reap_one heap id user (hub, reaped) x).0.rooms
  reaped-AllRooms heap id user hub reaped (inl e) q all = all
  reaped-AllRooms heap id user hub reaped (inr (hub', a)) q all =
      remove-AllRooms heap id user hub hub' a q all

  reap_users-AllRooms :
      (heap : Heap) (id : String) (users : List String) (hub : RoomHub)
      (reaped : List (String × Arc))
      → AllRooms P hub.rooms
      → AllRooms P (reap_users heap id users (hub, reaped)).0.rooms
  unfolding reap_users
  reap_users-AllRooms heap id [] hub reaped all = all
  reap_users-AllRooms heap id (user ∷ users) hub reaped all =
      let x = hub_remove_participant heap id user hub in
      let (hub1, reaped1) = reap_one heap id user (hub, reaped) x in
      reap_users-AllRooms heap id users hub1 reaped1
        (reaped-AllRooms heap id user hub reaped x refl all)

  reap_rooms-AllRooms :
      (heap : Heap) (now timeout : ℕ) (ids : List String) (hub : RoomHub)
      (reaped : List (String × Arc))
      → AllRooms P hub.rooms
      → AllRooms P (reap_rooms heap now timeout ids (hub, reaped)).0.rooms
  unfolding reap_rooms
  reap_rooms-AllRooms heap now timeout [] hub reaped all = all
  reap_rooms-AllRooms heap now timeout (id ∷ ids) hub reaped all =
      let zombies = zombies_of heap now timeout (find id hub.rooms) in
      let (hub1, reaped1) = reap_users heap id zombies (hub, reaped) in
      reap_rooms-AllRooms heap now timeout ids hub1 reaped1
        (reap_users-AllRooms heap id zombies hub reaped all)

  pub reap-AllRooms :
      (heap : Heap) (now timeout : ℕ) (hub : RoomHub)
      → AllRooms P hub.rooms
      → AllRooms P (reap_zombies heap now timeout hub).0.rooms
  unfolding reap_zombies
  reap-AllRooms heap now timeout hub all =
      reap_rooms-AllRooms heap now timeout (keys hub.rooms) hub [] all
