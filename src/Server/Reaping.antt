-- ===== src/Server/Reaping.antt =====
-- src/lib.rs and `reap_zombies` of src/room/room.rs: whom a round of the zombie reaper removes.
use mathlib.Core.List.{Memᴰ}
use mathlib.Core.List.Memᴰ
use light_livechat.Base.{
  ℕ, String, ◌≡◌, refl, sym, ap, ◌∙◌, ◌≢◌, ◌⊎◌, inl, inr, Option, none, some, List, [], ◌∷◌,
  Bool-cases, string_discrete,
}
use light_livechat.Base.TextMap.{find}
use light_livechat.Config.{zombie_timeout_ms}
use light_livechat.Room.Members.{Arc, Heap, Room, keys}
use light_livechat.Room.Hub.{
  RoomHub, is_zombie, zombies_in, zombies_of, reap_users, reap_rooms, reap_zombies,
}
use light_livechat.Signaling.World.{World}
use light_livechat.Server.{reaper_round}
use light_livechat.Server.Zombies.{
  found-Memᴰ, zombie-Memᴰ, listed-zombie, LostZombies, IsAlive, reap_users-Removed,
}

module _ (heap : Heap) (now timeout : ℕ) where
  lost_none : (r : Room) → LostZombies heap now timeout r r
  lost_none r = (refl, (λ x n. n), λ u. inl refl)

  lost_both :
      (r s t : Room)
      → LostZombies heap now timeout r s
      → LostZombies heap now timeout s t
      → LostZombies heap now timeout r t
  lost_both r s t (f, l, m) (g, k, n) = (
    g ∙ f,
    (λ x y. l x (k x y)),
    λ u. elim (n u) [
      | inr (e, a, y, z) ↦ inr (e, a, l (u, a) y, z)
      | inl e ↦ elim (m u) [ inl q ↦ inl (e ∙ q) | inr (q, a, y, z) ↦ inr (e ∙ q, a, y, z) ]
    ],
  )

  IsAlive-later :
      (s t : Room)
      → LostZombies heap now timeout s t
      → IsAlive heap now timeout s
      → IsAlive heap now timeout t
  IsAlive-later s t (_, _, m) alive u a e = elim (m u) [
    | inl q ↦ alive u a (sym q ∙ e)
    | inr (q, _, _, _) ↦ let bad : none ≡ some a = sym q ∙ e in absurd (not_some a bad)
  ]
    where
      not_some : (a : Arc) → none ≡ some a → ⊥
      not_some a q = cc

  -- The zombies of one room are removed.
  room_reaped :
      (id : String) (hub : RoomHub) (acc : List (String × Arc)) (r : Room)
      → find id hub.rooms ≡ some r
      → let hub' = (reap_users heap id (zombies_in heap now timeout r.participants) (hub, acc)).0 in
        (t : Room) × (find id hub'.rooms ≡ some t)
        × LostZombies heap now timeout r t
        × IsAlive heap now timeout t
        × ((other : String) → id ≢ other → find other hub'.rooms ≡ find other hub.rooms)
  room_reaped id hub acc r there =
      let users = zombies_in heap now timeout r.participants in
      let (t, e, floor, listed, members, gone, rooms) =
        reap_users-Removed heap id users hub acc r there in
      (
        t,
        e,
        (
          floor,
          listed,
          λ u. elim (members u) [
            | inl q ↦ inl q
            | inr (q, n) ↦
                let (a, y, z) = listed-zombie heap now timeout u r.participants n in
                inr (q, a, y, z)
          ],
        ),
        alive t members gone,
        rooms,
      )
    where
      not_some : (a : Arc) → none ≡ some a → ⊥
      not_some a q = cc

      alive :
          (t : Room)
          → ((u : String)
              → (find u t.participants ≡ find u r.participants)
                ⊎ ((find u t.participants ≡ none)
                    × Memᴰ u (zombies_in heap now timeout r.participants)))
          → ((u : String)
              → Memᴰ u (zombies_in heap now timeout r.participants)
              → find u t.participants ≡ none)
          → IsAlive heap now timeout t
      alive t members gone u a e = elim (Bool-cases (is_zombie now timeout (heap a))) [
        | inr live ↦ live
        | inl z ↦ elim (members u) [
          | inr (q, _) ↦ absurd (not_some a (sym q ∙ e))
          | inl q ↦
              let n = zombie-Memᴰ heap now timeout u r.participants a (sym q ∙ e) z in
              absurd (not_some a (sym (gone u n) ∙ e))
        ]
      ]

  elsewhere :
      (id j : String) (hub : RoomHub) (acc : List (String × Arc))
      → j ≢ id
      → (o : Option Room) → find j hub.rooms ≡ o
      → find id (reap_users heap j (zombies_of heap now timeout o) (hub, acc)).0.rooms
        ≡ find id hub.rooms
  unfolding reap_users
  elsewhere id j hub acc apart none e = refl
  elsewhere id j hub acc apart (some s) e = (room_reaped j hub acc s e).4 id apart

  reap_rooms_lem :
      (id : String) (ids : List String) (hub : RoomHub) (acc : List (String × Arc)) (r : Room)
      → find id hub.rooms ≡ some r
      → (t : Room) × (find id (reap_rooms heap now timeout ids (hub, acc)).0.rooms ≡ some t)
        × LostZombies heap now timeout r t
        × (Memᴰ id ids → IsAlive heap now timeout t)
  unfolding reap_rooms
  reap_rooms_lem id [] hub acc r there = (r, there, lost_none r, λ n. elim n [ ])
  reap_rooms_lem id (j ∷ ids) hub acc r there = elim (string_discrete j id) [
    | yes same ↦
        let users = zombies_in heap now timeout r.participants in
        let (s, e, lost, alive, _) = room_reaped id hub acc r there in
        let (hub1, acc1) = reap_users heap id users (hub, acc) in
        let (t, f, lost2, _) = reap_rooms_lem id ids hub1 acc1 s e in
        let q : reap_users heap j (zombies_of heap now timeout (find j hub.rooms)) (hub, acc)
            ≡ (hub1, acc1) =
          ap
            (λ (i : String).
              reap_users heap i (zombies_of heap now timeout (find i hub.rooms)) (hub, acc))
            same
          ∙ ap (λ (o : Option Room). reap_users heap id (zombies_of heap now timeout o) (hub, acc))
              there in
        (
          t,
          ap
                (λ (c : RoomHub × List (String × Arc)).
                  find id (reap_rooms heap now timeout ids c).0.rooms)
                q
              ∙ f,
          lost_both r s t lost lost2,
          λ _. IsAlive-later s t lost2 alive,
        )
    | no apart ↦
        let (hub1, acc1) =
          reap_users heap j (zombies_of heap now timeout (find j hub.rooms)) (hub, acc) in
        let (t, f, lost, alive) =
          reap_rooms_lem id ids hub1 acc1 r
            (elsewhere id j hub acc apart (find j hub.rooms) refl ∙ there) in
        (
          t,
          f,
          lost,
          λ n. elim (Memᴰ.cases_cons n) [
            | inl same ↦ absurd (apart (sym same))
            | inr rest ↦ alive rest
          ],
        )
  ]

-- When a round of the zombie reaper ends, no member of a room is a zombie, that is, was seen and has been silent for
-- more than 120 s since. A room has lost only members that were zombies, and everybody else is still a member. The floor is
-- as before, even if a removed member holds it.
pub reaper_round_exact :
    (now : ℕ) (w : World) (id : String) (r : Room)
    → find id w.hub.rooms ≡ some r
    → (t : Room) × (find id (reaper_round now w).hub.rooms ≡ some t)
      × LostZombies w.heap now zombie_timeout_ms r t
      × IsAlive w.heap now zombie_timeout_ms t
unfolding reaper_round reap_zombies
reaper_round_exact now w id r there =
    let (t, e, lost, alive) =
      reap_rooms_lem w.heap now zombie_timeout_ms id (keys w.hub.rooms) w.hub [] r there in
    (t, e, lost, alive (found-Memᴰ id w.hub.rooms r there))
