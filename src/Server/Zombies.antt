-- ===== src/Server/Zombies.antt =====
-- `reap_zombies` of src/room/room.rs: the zombies of one room.
use mathlib.Core.List.{Memᴰ}
use mathlib.Core.List.Memᴰ
use light_livechat.Base.{
  ℕ, String, ◌≡◌, refl, sym, ap, ◌∙◌, subst, ◌≢◌, ◌⊎◌, inl, inr, if_pos, if_neg, true, false, none,
  some, List, [], ◌∷◌, Bool-cases, string_discrete,
}
use light_livechat.Base.DashMap.{DashMap, get}
use light_livechat.Base.TextMap.{find, some-injective}
use light_livechat.Errors.{LightResult}
use light_livechat.Room.Members.{Arc, Heap, Room, keys}
use light_livechat.Room.Hub.{
  RoomHub, hub_remove_participant, is_zombie, zombies_in, reap_one, reap_users,
}
use light_livechat.Signaling.Leaving.{removed_hub}
use light_livechat.Signaling.Leaving.Ends.{after, removal}

-- An entry that a search finds is listed.
pub found-Memᴰ :
    {V : Type 0} (id : String) (m : DashMap String V) (v : V)
    → find id m ≡ some v
    → Memᴰ id (keys m)
unfolding get
found-Memᴰ id [] v e = cc
found-Memᴰ id ((k, w) ∷ m) v e = elim (string_discrete k id) [
  | yes same ↦ Memᴰ.head (sym same)
  | no apart ↦
      Memᴰ.tail
        (found-Memᴰ id m v (sym (if_neg (string_discrete k id) apart (some w) (find id m)) ∙ e))
]

module _ (heap : Heap) (now timeout : ℕ) where
  pub zombie-Memᴰ :
      (u : String) (m : DashMap String Arc) (a : Arc)
      → find u m ≡ some a
      → is_zombie now timeout (heap a) ≡ true
      → Memᴰ u (zombies_in heap now timeout m)
  unfolding zombies_in get
  zombie-Memᴰ u [] a e z = cc
  zombie-Memᴰ u ((k, b) ∷ m) a e z = elim (string_discrete k u) [
    | yes same ↦
        let q : b ≡ a =
          some-injective (sym (if_pos (string_discrete k u) same (some b) (find u m)) ∙ e) in
        rw (ap (λ (x : Arc). is_zombie now timeout (heap x)) q ∙ z) (Memᴰ.head (sym same))
    | no apart ↦
        let n =
          zombie-Memᴰ u m a (sym (if_neg (string_discrete k u) apart (some b) (find u m)) ∙ e) z in
        elim (Bool-cases (is_zombie now timeout (heap b))) [
          | inl too ↦ rw too (Memᴰ.tail n)
          | inr live ↦ rw live n
        ]
  ]

  pub listed-zombie :
      (u : String) (m : DashMap String Arc)
      → Memᴰ u (zombies_in heap now timeout m)
      → (a : Arc) × Memᴰ (u, a) m × (is_zombie now timeout (heap a) ≡ true)
  unfolding zombies_in
  listed-zombie u [] n = elim n [ ]
  listed-zombie u ((k, b) ∷ m) n = elim (Bool-cases (is_zombie now timeout (heap b))) [
    | inl z ↦ elim (Memᴰ.cases_cons (subst (λ (l : List String). Memᴰ u l) (rw z refl) n)) [
      | inl same ↦ (b, Memᴰ.head (ap (λ (v : String). (v, b)) same), z)
      | inr rest ↦ deeper (listed-zombie u m rest)
    ]
    | inr live ↦ deeper (listed-zombie u m (subst (λ (l : List String). Memᴰ u l) (rw live refl) n))
  ]
    where
      deeper :
          (a : Arc) × Memᴰ (u, a) m × (is_zombie now timeout (heap a) ≡ true)
          → (a : Arc) × Memᴰ (u, a) ((k, b) ∷ m) × (is_zombie now timeout (heap a) ≡ true)
      deeper (a, there, z) = (a, Memᴰ.tail there, z)

-- The later room has lost zombies of the earlier one, and nothing else.
abbrev pub LostZombies : Heap → (now timeout : ℕ) → (r t : Room) → Type 0
LostZombies heap now timeout r t =
    (t.floor ≡ r.floor)
    × ((x : String × Arc) → Memᴰ x t.participants → Memᴰ x r.participants)
    × ((u : String)
        → (find u t.participants ≡ find u r.participants)
          ⊎ ((find u t.participants ≡ none)
              × (a : Arc) × Memᴰ (u, a) r.participants
              × (is_zombie now timeout (heap a) ≡ true)))

-- No member of the room is a zombie.
abbrev pub IsAlive : Heap → (now timeout : ℕ) → Room → Type 0
IsAlive heap now timeout t =
    (u : String) (a : Arc) → find u t.participants ≡ some a → is_zombie now timeout (heap a) ≡ false

reap_one_hub :
    (heap : Heap) (id user : String) (hub : RoomHub) (acc : List (String × Arc))
    (x : LightResult (RoomHub × Arc))
    → (reap_one heap id user (hub, acc) x).0 ≡ removed_hub hub x
reap_one_hub heap id user hub acc (inl e) = refl
reap_one_hub heap id user hub acc (inr (h, a)) = refl

-- What the removal of these users leaves of the room, and of the other rooms.
abbrev Removed : (id : String) (users : List String) (r : Room) (hub hub' : RoomHub) → Type 0
Removed id users r hub hub' =
    (t : Room) × (find id hub'.rooms ≡ some t)
    × (t.floor ≡ r.floor)
    × ((x : String × Arc) → Memᴰ x t.participants → Memᴰ x r.participants)
    × ((u : String)
        → (find u t.participants ≡ find u r.participants)
          ⊎ ((find u t.participants ≡ none) × Memᴰ u users))
    × ((u : String) → Memᴰ u users → find u t.participants ≡ none)
    × ((other : String) → id ≢ other → find other hub'.rooms ≡ find other hub.rooms)

pub reap_users-Removed :
    (heap : Heap) (id : String) (users : List String) (hub : RoomHub) (acc : List (String × Arc))
    (r : Room)
    → find id hub.rooms ≡ some r
    → Removed id users r hub (reap_users heap id users (hub, acc)).0
unfolding reap_users
reap_users-Removed heap id [] hub acc r there =
    (r, there, refl, (λ x n. n), (λ u. inl refl), (λ u n. elim n [ ]), λ other n. refl)
reap_users-Removed heap id (user ∷ users) hub acc r there =
    let (s, there1, gone, floor, listed, members, rooms) = removal heap user id hub r there in
    let x = hub_remove_participant heap id user hub in
    let one = reap_one heap id user (hub, acc) x in
    let q : after heap user id hub ≡ one.0 = sym (reap_one_hub heap id user hub acc x) in
    let found : find id one.0.rooms ≡ some s =
      ap (λ (h : RoomHub). find id h.rooms) (sym q) ∙ there1 in
    let (t, there2, floor2, listed2, members2, gone2, rooms2) =
      reap_users-Removed heap id users one.0 one.1 s found in
    (
      t,
      there2,
      floor2 ∙ floor,
      (λ y n. listed y (listed2 y n)),
      (λ u. elim (string_discrete user u) [
        | yes same ↦ inr (
          elim (members2 u) [
            | inl e ↦ e ∙ ap (λ (v : String). find v s.participants) (sym same) ∙ gone
            | inr (e, _) ↦ e
          ],
          Memᴰ.head (sym same),
        )
        | no apart ↦ elim (members2 u) [
          | inl e ↦ inl (e ∙ members u apart)
          | inr (e, n) ↦ inr (e, Memᴰ.tail n)
        ]
      ]),
      (λ u n. elim (Memᴰ.cases_cons n) [
        | inr rest ↦ gone2 u rest
        | inl same ↦ elim (members2 u) [
          | inl e ↦ e ∙ ap (λ (v : String). find v s.participants) same ∙ gone
          | inr (e, _) ↦ e
        ]
      ]),
      λ other n. rooms2 other n ∙ ap (λ (h : RoomHub). find other h.rooms) (sym q) ∙ rooms other n,
    )
