-- ===== src/Room/Members/Lifetimes.antt =====
-- src/room/room.rs: a room over its lifetime, from `new` on: joins, leaves and address changes in any
-- order.
use light_livechat.Base.{
  ℕ, ◌≤◌, String, ◌≡◌, refl, sym, ap, ◌∙◌, subst, ◌⊎◌, inl, inr, Option, none, some, arith,
  Option-cases, length,
}
use light_livechat.Config.{RoomMode}
use light_livechat.Base.DashMap.{get}
use light_livechat.Base.TextMap.{find}
use light_livechat.Errors.{LightError, not_in_room}
use light_livechat.Room.Participant.{PcType, SocketAddr, session}
use light_livechat.Room.Members.{
  Arc, Heap, Room, new_room, add_participant, remove_participant, latch,
}
use light_livechat.Room.Members.Consistent.{IsConsistent, IsNew, added-IsConsistent, none-some}
use light_livechat.Room.Members.Removal.{without, without-IsConsistent}
use light_livechat.Room.Members.Latching.{latched_heap, latched_room, latched-IsConsistent}
use light_livechat.Room.Members.Joining.{length-put, length-delete, add_inversion}

-- A participant keeps its identity and its addresses while other calls change its tracks, its caches and
-- the time it was last seen.
abbrev pub SameSessions : Heap → Heap → Type 0
SameSessions heap heap' =
    ((a : Arc) → (heap' a).user_id ≡ (heap a).user_id)
    × ((a : Arc) (pc : PcType) → (session pc (heap' a)).ufrag ≡ (session pc (heap a)).ufrag)
    × ((a : Arc) (pc : PcType) → (session pc (heap' a)).address ≡ (session pc (heap a)).address)

-- The rooms that the calls lead to.
pub data Reachable : Heap → Room → Type 0 where
  created :
      (heap : Heap) (r : Room) (id name : String) (capacity : Option ℕ) (mode : RoomMode)
      (created_at audio_ssrc video_ssrc : ℕ)
      → r ≡ new_room id name capacity mode created_at audio_ssrc video_ssrc
      → Reachable heap r
  joined :
      (heap : Heap) (r s : Room) (a : Arc)
      → IsNew heap a r
      → add_participant heap a r ≡ inr s
      → Reachable heap r
      → Reachable heap s
  left :
      (heap : Heap) (r s : Room) (user : String) (a : Arc)
      → remove_participant heap user r ≡ inr (s, a)
      → Reachable heap r
      → Reachable heap s
  moved :
      (heap heap' : Heap) (r s : Room) (ufrag : String) (addr : SocketAddr)
      (found : Option (Arc × PcType))
      → latch ufrag addr heap r ≡ (heap', s, found)
      → Reachable heap r
      → Reachable heap' s
  changed :
      (heap heap' : Heap) (r : Room)
      → SameSessions heap heap'
      → Reachable heap r
      → Reachable heap' r

-- The invariant.
abbrev pub IsRoom : Heap → Room → Type 0
IsRoom heap r = IsConsistent heap r × (length r.participants ≤ r.capacity) × (r.capacity ≤ 1000)

new-IsRoom :
    (heap : Heap) (id name : String) (capacity : Option ℕ) (mode : RoomMode)
    (created_at audio_ssrc video_ssrc : ℕ)
    → IsRoom heap (new_room id name capacity mode created_at audio_ssrc video_ssrc)
unfolding new_room get
new-IsRoom heap id name capacity mode created_at audio_ssrc video_ssrc = (
  record {
    members = λ u a e. absurd (none-some refl e);
    ufrags = λ u a pc e. absurd (none-some refl e);
    both_ufrags = λ u a pc e. absurd (none-some refl e);
    addresses = λ x a pc e. absurd (none-some refl e);
  },
  omega arith,
  omega arith,
)

abbrev or_pair : (Room × Arc) → LightError ⊎ (Room × Arc) → Room × Arc
or_pair d (inl _) = d
or_pair d (inr s) = s

left-IsRoom :
    (heap : Heap) (r s : Room) (user : String) (a : Arc)
    → remove_participant heap user r ≡ inr (s, a)
    → IsRoom heap r
    → IsRoom heap s
unfolding remove_participant
left-IsRoom heap r s user a e (v, fits, most) = elim (Option-cases (find user r.participants)) [
  | inl absent ↦
      let q : remove_participant heap user r ≡ inl not_in_room =
        rw (absent, remove_participant) refl in
      let z : inl not_in_room ≡ inr (s, a) = sym q ∙ e in cc
  | inr (b, there) ↦
      let q : remove_participant heap user r ≡ inr (without heap user b r, b) =
        rw (there, remove_participant) refl in
      let same : without heap user b r ≡ s = ap (λ t. (or_pair (s, a) t).0) (sym q ∙ e) in
      subst (IsRoom heap) same (
        without-IsConsistent heap user b r v there,
        omega (arith, length-delete user r.participants, fits),
        most,
      )
]

moved-IsRoom :
    (heap heap' : Heap) (r s : Room) (ufrag : String) (addr : SocketAddr)
    (found : Option (Arc × PcType))
    → latch ufrag addr heap r ≡ (heap', s, found)
    → IsRoom heap r
    → IsRoom heap' s
unfolding latch
moved-IsRoom heap heap' r s ufrag addr found e (v, fits, most) =
    elim (Option-cases (find ufrag r.by_ufrag)) [
      | inl unknown ↦
          let q : latch ufrag addr heap r ≡ (heap, r, none) = rw (unknown, latch) refl in
          subst (λ (t : Heap × Room × Option (Arc × PcType)). IsRoom t.0 t.1) (sym q ∙ e)
            (v, fits, most)
      | inr ((a, pc), known) ↦
          let q : latch ufrag addr heap r
              ≡ (latched_heap a pc addr heap, latched_room a pc addr heap r, some (a, pc)) =
            rw (known, latch) refl in
          subst (λ (t : Heap × Room × Option (Arc × PcType)). IsRoom t.0 t.1) (sym q ∙ e)
            (latched-IsConsistent ufrag addr heap r a pc v known, fits, most)
    ]

changed-IsRoom :
    (heap heap' : Heap) (r : Room) → SameSessions heap heap' → IsRoom heap r → IsRoom heap' r
changed-IsRoom heap heap' r (users, frags, addrs) (v, fits, most) = (
  record {
    members = λ u a e. users a ∙ v.members u a e;
    ufrags = λ u a pc e.
        let (m, s) = v.ufrags u a pc e in
        (subst (λ w. find w r.participants ≡ some a) (sym (users a)) m, frags a pc ∙ s);
    both_ufrags = λ u a pc e.
        subst (λ w. find w r.by_ufrag ≡ some (a, pc)) (sym (frags a pc)) (v.both_ufrags u a pc e);
    addresses = λ x a pc e.
        let (m, s) = v.addresses x a pc e in
        (subst (λ w. find w r.participants ≡ some a) (sym (users a)) m, addrs a pc ∙ s);
  },
  fits,
  most,
)

-- Whatever participants join (each with new ufrags), leave and change their addresses, in any order, the three
-- maps of a room agree: every entry names a member and says of its session what the session says of
-- itself, and every member is found by both of its ufrags. The room never has more members than its
-- capacity, which is at most 1000.
pub Reachable-IsRoom : (heap : Heap) (r : Room) → Reachable heap r → IsRoom heap r
Reachable-IsRoom _ _ (created heap r id name capacity mode created_at a v e) =
    subst (IsRoom heap) (sym e) (new-IsRoom heap id name capacity mode created_at a v)
Reachable-IsRoom _ _ (joined heap r s a new e reach) =
    let (v, fits, most) = Reachable-IsRoom heap r reach in
    let (same, room, absent) = add_inversion heap a r s e in
    subst (IsRoom heap) (sym same) (
      added-IsConsistent heap a r v absent new,
      omega (arith, room, length-put (heap a).user_id a r.participants absent),
      most,
    )
Reachable-IsRoom _ _ (left heap r s user a e reach) =
    left-IsRoom heap r s user a e (Reachable-IsRoom heap r reach)
Reachable-IsRoom _ _ (moved heap heap' r s ufrag addr found e reach) =
    moved-IsRoom heap heap' r s ufrag addr found e (Reachable-IsRoom heap r reach)
Reachable-IsRoom _ _ (changed heap heap' r same reach) =
    changed-IsRoom heap heap' r same (Reachable-IsRoom heap r reach)
