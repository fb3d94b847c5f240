-- ===== src/Signaling/Leaving/Ends.antt =====
-- src/signaling/handler.rs: `cleanup` takes a user out of the room and off its floor.
use mathlib.Core.List.{Memᴰ}
use light_livechat.Base.{
  ◌∷◌, [], String, ◌≡◌, refl, sym, ap, ◌∙◌, ◌≢◌, ◌⊎◌, inl, inr, false, Option, none, some,
  Option-cases, string_discrete, subst, if_pos, if_neg,
}
use light_livechat.Base.TextMap.{
  find, put, find-put_self, find-put_ne, find-delete_self, find-delete_ne, delete,
}
use light_livechat.Base.DashMap.{DashMap, remove}
use light_livechat.Room.Floor.{FloorState, current_speaker}
use light_livechat.Room.Members.{Arc, Heap, Room, get_participant, remove_participant}
use light_livechat.Room.Members.Removal.{without}
use light_livechat.Room.Hub.{RoomHub, get_room, hub_remove_participant}
use light_livechat.Signaling.World.{Session, World, is_ptt}
use light_livechat.Signaling.Floor.{leave_floor}
use light_livechat.Signaling.Floor.Silence.{leave_floor-IsSilent}
use light_livechat.Signaling.Leaving.{removed_hub, cleanup}

-- The user is no member of the room and does not hold its floor; the other members and the other rooms are
-- as before.
abbrev pub IsGone : (user id : String) (r : Room) (rooms rooms' : String → Option Room) → Type 0
IsGone user id r rooms rooms' =
    (t : Room) × (rooms' id ≡ some t)
    × (get_participant user t ≡ none)
    × ((is_ptt r.mode ≡ false) ⊎ (current_speaker t.floor ≢ some user))
    × ((other : String) → user ≢ other → get_participant other t ≡ get_participant other r)
    × ((other : String) → id ≢ other → rooms' other ≡ rooms other)

deleted-Memᴰ :
    (k : String) (m : DashMap String Arc) (x : String × Arc) → Memᴰ x (delete k m) → Memᴰ x m
unfolding remove
deleted-Memᴰ k [] x n = n
deleted-Memᴰ k ((j, a) ∷ m) x n = elim (string_discrete j k) [
  | yes same ↦ Memᴰ.tail (
      deleted-Memᴰ k m x
        (subst (λ (l : DashMap String Arc). Memᴰ x l) (if_pos (string_discrete j k) same _ _) n))
  | no apart ↦
      elim (subst (λ (l : DashMap String Arc). Memᴰ x l) (if_neg (string_discrete j k) apart _ _)
        n) [ Memᴰ.head e ↦ Memᴰ.head e | Memᴰ.tail rest ↦ Memᴰ.tail (deleted-Memᴰ k m x rest) ]
]

abbrev pub after : Heap → (user id : String) → RoomHub → RoomHub
after heap user id hub = removed_hub hub (hub_remove_participant heap id user hub)

module _ (heap : Heap) (user id : String) (hub : RoomHub) (t : Room)
    (there : find id hub.rooms ≡ some t) where
  after-none : find user t.participants ≡ none → after heap user id hub ≡ hub
  unfolding hub_remove_participant get_room remove_participant
  after-none e = rw (hub_remove_participant, get_room, there, remove_participant, e) refl

  after-some :
      (a : Arc)
      → find user t.participants ≡ some a
      → (after heap user id hub).rooms ≡ put id (without heap user a t) hub.rooms
  unfolding hub_remove_participant get_room remove_participant
  after-some a e = rw (hub_remove_participant, get_room, there, remove_participant, e) refl

  pub removal :
      (u : Room) × (find id (after heap user id hub).rooms ≡ some u)
      × (get_participant user u ≡ none)
      × (u.floor ≡ t.floor)
      × ((x : String × Arc) → Memᴰ x u.participants → Memᴰ x t.participants)
      × ((other : String) → user ≢ other → get_participant other u ≡ get_participant other t)
      × ((other : String)
          → id ≢ other
          → find other (after heap user id hub).rooms ≡ find other hub.rooms)
  removal = elim (Option-cases (find user t.participants)) [
    | inl none_there ↦ (
      t,
      rw (after-none none_there) there,
      none_there,
      refl,
      (λ x n. n),
      (λ other n. refl),
      λ other n. rw (after-none none_there) refl,
    )
    | inr (a, member) ↦
        let u = without heap user a t in
        (
          u,
          rw (after-some a member) (find-put_self id id hub.rooms u refl),
          find-delete_self user user t.participants refl,
          refl,
          (λ x n. deleted-Memᴰ user t.participants x n),
          (λ other n. find-delete_ne user other t.participants n),
          λ other n. rw (after-some a member) (find-put_ne id other hub.rooms u n),
        )
  ]

-- When a connection ends whose session names a user and a room of the hub, that user is no member of that
-- room any more and, if it is a push-to-talk room, does not hold its floor. The room's other members and the
-- other rooms are as before.
pub cleanup-IsGone :
    (s : Session) (w : World) (user id : String) (r : Room)
    → s.user_id ≡ some user
    → s.current_room ≡ some id
    → find id w.hub.rooms ≡ some r
    → IsGone user id r (λ i. find i w.hub.rooms) (λ i. find i (cleanup s w).hub.rooms)
unfolding cleanup
cleanup-IsGone s w user id r known inside there =
    let w1 = leave_floor id user w in
    let (t, e, same, silent, apart) = leave_floor-IsSilent user id w r there in
    let (u, f, gone, floor, _, members, rooms) = removal w1.heap user id w1.hub t e in
    rw (known, inside, cleanup)
      (
        u,
        f,
        gone,
        off_floor u.floor t.floor floor silent,
        (λ other n. members other n ∙ ap (λ (m : DashMap String Arc). find other m) same),
        λ other n. rooms other n ∙ apart other n,
      )
  where
    off_floor :
        (f g : FloorState)
        → f ≡ g
        → (is_ptt r.mode ≡ false) ⊎ (current_speaker g ≢ some user)
        → (is_ptt r.mode ≡ false) ⊎ (current_speaker f ≢ some user)
    off_floor f g q (inl plain) = inl plain
    off_floor f g q (inr silent) = inr (λ e. silent (ap current_speaker (sym q) ∙ e))
