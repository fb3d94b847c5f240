-- ===== src/Media/Recipients.antt =====
-- src/transport/udp/ingress.rs: whom a packet of a publisher reaches.
use mathlib.Core.List.{Memᴰ}
use mathlib.Core.List.Memᴰ
use light_livechat.Base.{
  String, ◌≡◌, refl, sym, ap, ◌∙◌, subst, ◌≢◌, ◌↔◌, ◌⊎◌, inl, inr, if_pos, if_neg, true, false,
  List, [], ◌∷◌, Bool-cases, string_discrete,
}
use light_livechat.Base.DashMap.{DashMap}
use light_livechat.Room.Participant.{is_subscribe_ready}
use light_livechat.Room.Members.{Arc, Heap, Room, others_in}
use light_livechat.Media.{EgressPacket, MediaOutput, queued, ready_queues, fan_out}

-- Some other member that is ready to receive.
abbrev IsRecipient :
    Heap → (sender : String) → DashMap String Arc → EgressPacket → MediaOutput → Type 0
IsRecipient heap sender members packet o =
    (user : String) × (a : Arc) × Memᴰ (user, a) members
    × (user ≢ sender)
    × (is_subscribe_ready (heap a) ≡ true)
    × (o ≡ queued a packet)

module _ (heap : Heap) (sender : String) (packet : EgressPacket) (o : MediaOutput) where
  later :
      {members : DashMap String Arc} (entry : String × Arc)
      → IsRecipient heap sender members packet o
      → IsRecipient heap sender (entry ∷ members) packet o
  later entry (user, a, m, n, ready, e) = (user, a, Memᴰ.tail m, n, ready, e)

  abbrev sent_among : DashMap String Arc → List MediaOutput
  sent_among members = ready_queues heap packet (others_in sender members)

  -- The entry's own part, and the part of the rest.
  first_cases :
      (user : String) (a : Arc) (members : DashMap String Arc)
      → ((user ≢ sender)
          × (is_subscribe_ready (heap a) ≡ true)
          × (sent_among ((user, a) ∷ members) ≡ queued a packet ∷ sent_among members))
        ⊎ (((user ≡ sender) ⊎ (is_subscribe_ready (heap a) ≡ false))
            × (sent_among ((user, a) ∷ members) ≡ sent_among members))
  unfolding ready_queues others_in
  first_cases user a members = elim (string_discrete user sender) [
    | yes same ↦ inr (
      inl same,
      ap (λ (l : List Arc). ready_queues heap packet l)
          (if_pos (string_discrete user sender) same _ _),
    )
    | no apart ↦
        let e =
          ap (λ (l : List Arc). ready_queues heap packet l)
            (if_neg (string_discrete user sender) apart (others_in sender members)
              (a ∷ others_in sender members)) in
        elim (Bool-cases (is_subscribe_ready (heap a))) [
          | inl ready ↦ inl (apart, ready, e ∙ rw ready refl)
          | inr deaf ↦ inr (inr deaf, e ∙ rw deaf refl)
        ]
  ]

  only :
      (members : DashMap String Arc)
      → Memᴰ o (sent_among members)
      → IsRecipient heap sender members packet o
  unfolding ready_queues others_in
  only [] m = elim m [ ]
  only ((user, a) ∷ members) m = elim (first_cases user a members) [
    | inl (apart, ready, e) ↦ elim (subst (λ (l : List MediaOutput). Memᴰ o l) e m) [
      | Memᴰ.head q ↦ (user, a, Memᴰ.head refl, apart, ready, q)
      | Memᴰ.tail n ↦ later (user, a) (only members n)
    ]
    | inr (_, e) ↦ later (user, a) (only members (subst (λ (l : List MediaOutput). Memᴰ o l) e m))
  ]

  in_list : (l k : List MediaOutput) → l ≡ k → Memᴰ o k → Memᴰ o l
  in_list l k e m = subst (λ (x : List MediaOutput). Memᴰ o x) (sym e) m

  every :
      (members : DashMap String Arc)
      → IsRecipient heap sender members packet o
      → Memᴰ o (sent_among members)
  every [] (user, a, m, n, ready, e) = elim m [ ]
  every ((key, b) ∷ members) (user, a, m, n, ready, e) = elim (first_cases key b members) [
    | inl (_, _, q) ↦ in_list _ _ q (elim (Memᴰ.cases_cons m) [
      | inl same ↦ Memᴰ.head (e ∙ ap (λ (x : String × Arc). queued x.1 packet) same)
      | inr rest ↦ Memᴰ.tail (every members (user, a, rest, n, ready, e))
    ])
    | inr (out, q) ↦ in_list _ _ q (elim (Memᴰ.cases_cons m) [
      | inr rest ↦ every members (user, a, rest, n, ready, e)
      | inl same ↦ absurd (not_out out same)
    ])
  ]
    where
      not_out :
          (key ≡ sender) ⊎ (is_subscribe_ready (heap b) ≡ false)
          → ◌≡◌ {A = String × Arc} (user, a) (key, b)
          → ⊥
      not_out (inl q) same = n (ap (λ (x : String × Arc). x.0) same ∙ q)
      not_out (inr deaf) same =
          let r : true ≡ false =
            sym ready ∙ ap (λ (x : String × Arc). is_subscribe_ready (heap x.1)) same ∙ deaf in
          cc

-- A packet that a member sends is queued for a participant exactly when that is another member of the room whose
-- subscribe connection is ready.
pub fan_out_exact :
    (heap : Heap) (sender : String) (r : Room) (packet : EgressPacket) (o : MediaOutput)
    → Memᴰ o (fan_out heap sender r packet) ↔ (
        (user : String) × (a : Arc) × Memᴰ (user, a) r.participants
        × (user ≢ sender)
        × (is_subscribe_ready (heap a) ≡ true)
        × (o ≡ queued a packet))
unfolding fan_out
fan_out_exact heap sender r packet o =
    (only heap sender packet o r.participants, every heap sender packet o r.participants)
