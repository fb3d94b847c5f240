-- ===== src/Room/Members/Joining.antt =====
-- src/room/room.rs: who `add_participant` admits.
use light_livechat.Base.{
  ◌+◌, ◌≤◌, ◌<◌, String, ◌≡◌, refl, sym, ap, ◌∙◌, ◌⊎◌, inl, inr, if_pos, if_neg, none, some, [],
  ◌∷◌, arith, leb, le→leb, lt→leb, Bool-cases, Option-cases, string_discrete, leb_false→lt, length,
}
use light_livechat.Base.DashMap.{DashMap, insert, remove, get}
use light_livechat.Base.TextMap.{find, put, delete, find-put_self}
use light_livechat.Errors.{LightError, room_full, already_in_room}
use light_livechat.Room.Participant.{PcType, session}
use light_livechat.Room.Members.{Arc, Heap, Room, add_participant}
use light_livechat.Room.Members.Consistent.{
  IsConsistent, IsNew, added, added-IsConsistent, none-some,
}

pub length-put :
    {V : Type 0} (k : String) (v : V) (m : DashMap String V)
    → find k m ≡ none
    → length (put k v m) ≡ length m + 1
unfolding get insert
length-put k v [] e = refl
length-put k v ((j, w) ∷ m) e = elim (string_discrete j k) [
  | yes q ↦ absurd (none-some (sym (if_pos (string_discrete j k) q (some w) (find k m)) ∙ e) refl)
  | no n ↦
      let shorter =
        length-put k v m (sym (if_neg (string_discrete j k) n (some w) (find k m)) ∙ e) in
      ap length (if_neg (string_discrete j k) n ((k, v) ∷ m) ((j, w) ∷ put k v m))
      ∙ omega (arith, shorter)
]

pub length-delete :
    {V : Type 0} (k : String) (m : DashMap String V) → length (delete k m) ≤ length m
unfolding remove
length-delete k [] = omega arith
length-delete k ((j, w) ∷ m) = elim (string_discrete j k) [
  | yes q ↦
      rw (if_pos (string_discrete j k) q (delete k m) ((j, w) ∷ delete k m))
        (omega (arith, length-delete k m))
  | no n ↦
      rw (if_neg (string_discrete j k) n (delete k m) ((j, w) ∷ delete k m))
        (omega (arith, length-delete k m))
]

-- A full room refuses everybody, and a member is refused a second time; both leave the room as it
-- was. Anybody else is admitted: the room then finds the newcomer by user id and by both ufrags, it has one
-- member more and no more than its capacity, and it stays consistent. The newcomer's ufrags are assumed to
-- be new.
pub add_participant_exact :
    (heap : Heap) (a : Arc) (r : Room)
    → IsConsistent heap r
    → IsNew heap a r
    → (r.capacity ≤ length r.participants → add_participant heap a r ≡ inl room_full)
      × ((b : Arc)
          → length r.participants < r.capacity
          → find (heap a).user_id r.participants ≡ some b
          → add_participant heap a r ≡ inl already_in_room)
      × (length r.participants < r.capacity
          → find (heap a).user_id r.participants ≡ none
          → (s : Room) × (add_participant heap a r ≡ inr s)
            × IsConsistent heap s
            × (find (heap a).user_id s.participants ≡ some a)
            × ((pc : PcType) → find (session pc (heap a)).ufrag s.by_ufrag ≡ some (a, pc))
            × (length s.participants ≡ length r.participants + 1)
            × (length s.participants ≤ s.capacity))
unfolding add_participant
add_participant_exact heap a r v new = (
  (λ full. rw (le→leb r.capacity (length r.participants) full) refl),
  (λ b room there.
      rw (lt→leb r.capacity (length r.participants) room, there, add_participant) refl),
  (λ room absent.
      let w = added-IsConsistent heap a r v absent new in
      let here = find-put_self (heap a).user_id (heap a).user_id r.participants a refl in
      let longer = length-put (heap a).user_id a r.participants absent in
      (
        added heap a r,
        rw (lt→leb r.capacity (length r.participants) room, absent, add_participant) refl,
        w,
        here,
        (λ pc. w.both_ufrags (heap a).user_id a pc here),
        longer,
        omega (arith, longer),
      )),
)

abbrev or_room : Room → LightError ⊎ Room → Room
or_room d (inl _) = d
or_room d (inr s) = s

inr_room : {s t : Room} → ◌≡◌ {A = LightError ⊎ Room} (inr s) (inr t) → s ≡ t
inr_room {s} p = ap (or_room s) p

pub add_inversion :
    (heap : Heap) (a : Arc) (r s : Room)
    → add_participant heap a r ≡ inr s
    → (s ≡ added heap a r)
      × (length r.participants < r.capacity)
      × (find (heap a).user_id r.participants ≡ none)
unfolding add_participant
add_inversion heap a r s e = elim (Bool-cases (leb r.capacity (length r.participants))) [
  | inl full ↦ let q : inl room_full ≡ inr s = rw full at e in cc
  | inr room ↦ elim (Option-cases (find (heap a).user_id r.participants)) [
    | inl absent ↦
        let q : add_participant heap a r ≡ inr (added heap a r) =
          rw (room, absent, add_participant) refl in
        (inr_room (sym e ∙ q), leb_false→lt r.capacity (length r.participants) room, absent)
    | inr (b, there) ↦
        let q : add_participant heap a r ≡ inl already_in_room =
          rw (room, there, add_participant) refl in
        let z : inl already_in_room ≡ inr s = sym q ∙ e in cc
  ]
]
