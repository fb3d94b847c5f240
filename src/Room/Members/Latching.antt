-- ===== src/Room/Members/Latching.antt =====
-- src/room/room.rs: `latch` moves a session to the address that its STUN request came from.
use light_livechat.Base.{
  String, ◌≡◌, refl, sym, ap, ◌∙◌, subst, ◌≢◌, ◌⊎◌, inl, inr, if_pos, if_neg, Option, none, some,
  ℕ_discrete, string_discrete,
}
use light_livechat.Base.TextMap.{
  find, put, delete, some-injective, find-put_self, find-put_cases, find-delete_cases,
}
use light_livechat.Room.Participant.{
  Participant, PcType, publish, subscribe, SocketAddr, session, latch_address, get_address,
}
use light_livechat.Room.Members.{Arc, Heap, update, Room, rebind, set_address, latch, DashMap}
use light_livechat.Room.Members.Consistent.{IsConsistent}

pc_cases : (pc pc' : PcType) → (pc ≡ pc') ⊎ (pc ≢ pc')
pc_cases publish publish = inl refl
pc_cases publish subscribe = inr (λ q. cc)
pc_cases subscribe publish = inr (λ q. cc)
pc_cases subscribe subscribe = inl refl

set_user :
    (pc : PcType) (addr : SocketAddr) (p : Participant)
    → (set_address pc addr p).user_id ≡ p.user_id
set_user publish addr p = refl
set_user subscribe addr p = refl

set_ufrag :
    (pc pc' : PcType) (addr : SocketAddr) (p : Participant)
    → (session pc' (set_address pc addr p)).ufrag ≡ (session pc' p).ufrag
unfolding latch_address
set_ufrag publish publish addr p = refl
set_ufrag publish subscribe addr p = refl
set_ufrag subscribe publish addr p = refl
set_ufrag subscribe subscribe addr p = refl

set_self :
    (pc : PcType) (addr : SocketAddr) (p : Participant)
    → (session pc (set_address pc addr p)).address ≡ some addr
unfolding latch_address
set_self publish addr p = refl
set_self subscribe addr p = refl

set_other :
    (pc pc' : PcType) (addr : SocketAddr) (p : Participant)
    → pc ≢ pc'
    → (session pc' (set_address pc addr p)).address ≡ (session pc' p).address
set_other publish publish addr p n = absurd (n refl)
set_other publish subscribe addr p n = refl
set_other subscribe publish addr p n = refl
set_other subscribe subscribe addr p n = absurd (n refl)

rebind_cases :
    {V : Type 0} (old : Option SocketAddr) (addr x : SocketAddr) (m : DashMap String V) {w : V}
    → addr ≢ x
    → find x (rebind old addr m) ≡ some w
    → (old ≢ some x) × (find x m ≡ some w)
unfolding rebind
rebind_cases none addr x m n e = (λ q. cc, e)
rebind_cases {V} (some old) addr x m {w} n e = elim (string_discrete old addr) [
  | yes same ↦ (
    λ q. n (sym same ∙ some-injective q),
    subst (λ (t : DashMap String V). find x t ≡ some w)
        (if_pos (string_discrete old addr) same m (delete old m)) e,
  )
  | no apart ↦
      let (differ, there) = find-delete_cases old x m (
        subst (λ (t : DashMap String V). find x t ≡ some w)
          (if_neg (string_discrete old addr) apart m (delete old m)) e) in
      (λ q. differ (some-injective q), there)
]

abbrev pub latched_heap : Arc → PcType → SocketAddr → Heap → Heap
latched_heap a pc addr heap = update a (set_address pc addr (heap a)) heap

abbrev pub latched_room : Arc → PcType → SocketAddr → Heap → Room → Room
latched_room a pc addr heap r = record r {
  by_addr = put addr (a, pc) (rebind (get_address (session pc (heap a))) addr r.by_addr);
}

module _ (a : Arc) (pc : PcType) (addr : SocketAddr) (heap : Heap) where
  update_self : latched_heap a pc addr heap a ≡ set_address pc addr (heap a)
  unfolding update
  update_self = if_pos (ℕ_discrete a a) refl _ _

  update_other : (b : Arc) → a ≢ b → latched_heap a pc addr heap b ≡ heap b
  unfolding update
  update_other b n = if_neg (ℕ_discrete a b) n _ _

  same_user : (b : Arc) → (latched_heap a pc addr heap b).user_id ≡ (heap b).user_id
  same_user b = elim (ℕ_discrete a b) [
    | yes q ↦
        subst (λ c. (latched_heap a pc addr heap c).user_id ≡ (heap c).user_id) q
          (ap (λ (p : Participant). p.user_id) update_self ∙ set_user pc addr (heap a))
    | no n ↦ ap (λ (p : Participant). p.user_id) (update_other b n)
  ]

  same_ufrag :
      (b : Arc) (pc' : PcType)
      → (session pc' (latched_heap a pc addr heap b)).ufrag ≡ (session pc' (heap b)).ufrag
  same_ufrag b pc' = elim (ℕ_discrete a b) [
    | yes q ↦
        subst
          (λ c. (session pc' (latched_heap a pc addr heap c)).ufrag ≡ (session pc' (heap c)).ufrag)
          q (ap (λ p. (session pc' p).ufrag) update_self ∙ set_ufrag pc pc' addr (heap a))
    | no n ↦ ap (λ p. (session pc' p).ufrag) (update_other b n)
  ]

  own_address : (session pc (latched_heap a pc addr heap a)).address ≡ some addr
  own_address = ap (λ p. (session pc p).address) update_self ∙ set_self pc addr (heap a)

  -- A session is the latched one, or it keeps its address.
  address_cases :
      (b : Arc) (pc' : PcType)
      → ((a ≡ b) × (pc ≡ pc'))
        ⊎ ((session pc' (latched_heap a pc addr heap b)).address ≡ (session pc' (heap b)).address)
  address_cases b pc' = elim (ℕ_discrete a b) [
    | no n ↦ inr (ap (λ p. (session pc' p).address) (update_other b n))
    | yes q ↦ elim (pc_cases pc pc') [
      | inl same ↦ inl (q, same)
      | inr apart ↦ inr (
          subst
            (λ c.
              (session pc' (latched_heap a pc addr heap c)).address
              ≡ (session pc' (heap c)).address)
            q
            (ap (λ p. (session pc' p).address) update_self ∙ set_other pc pc' addr (heap a) apart))
    ]
  ]

module _ (ufrag : String) (addr : SocketAddr) (heap : Heap) (r : Room) (a : Arc) (pc : PcType)
    (v : IsConsistent heap r) (known : find ufrag r.by_ufrag ≡ some (a, pc)) where
  is_member :
      (b : Arc)
      → find (heap b).user_id r.participants ≡ some b
      → find (latched_heap a pc addr heap b).user_id r.participants ≡ some b
  is_member b e = rw (same_user a pc addr heap b) e

  latched_addresses :
      (x : SocketAddr) (b : Arc) (pc' : PcType)
      → find x (latched_room a pc addr heap r).by_addr ≡ some (b, pc')
      → (find (latched_heap a pc addr heap b).user_id r.participants ≡ some b)
        × ((session pc' (latched_heap a pc addr heap b)).address ≡ some x)
  latched_addresses x b pc' e =
      elim (find-put_cases addr x (rebind (get_address (session pc (heap a))) addr r.by_addr)
        (a, pc) e) [
          | inl (here, q) ↦
              subst
                (λ (t : Arc × PcType).
                  (find (latched_heap a pc addr heap t.0).user_id r.participants ≡ some t.0)
                  × ((session t.1 (latched_heap a pc addr heap t.0)).address ≡ some x))
                q
                (
                  is_member a (v.ufrags ufrag a pc known).0,
                  own_address a pc addr heap ∙ ap some here,
                )
          | inr (apart, e1) ↦
              let (moved, there) =
                rebind_cases (get_address (session pc (heap a))) addr x r.by_addr apart e1 in
              let (m, s) = v.addresses x b pc' there in
              (
                is_member b m,
                elim (address_cases a pc addr heap b pc') [
                  | inr same ↦ same ∙ s
                  | inl (q, qc) ↦ absurd (moved (back q qc s))
                ],
              )
        ]
    where
      back :
          a ≡ b
          → pc ≡ pc'
          → (session pc' (heap b)).address ≡ some x
          → (session pc (heap a)).address ≡ some x
      back q qc s =
          subst (λ c. (session c (heap a)).address ≡ some x) (sym qc)
            (subst (λ c. (session pc' (heap c)).address ≡ some x) (sym q) s)

  pub latched-IsConsistent :
      IsConsistent (latched_heap a pc addr heap) (latched_room a pc addr heap r)
  latched-IsConsistent = record {
    members = λ u b e. same_user a pc addr heap b ∙ v.members u b e;
    ufrags = λ u b pc' e.
        let (m, s) = v.ufrags u b pc' e in (is_member b m, same_ufrag a pc addr heap b pc' ∙ s);
    both_ufrags = λ u b pc' e. rw (same_ufrag a pc addr heap b pc') (v.both_ufrags u b pc' e);
    addresses = latched_addresses;
  }

  -- In a consistent room, a ufrag that is known latches its session to the address: the address then
  -- finds that session, the session has that address, and the room stays consistent, so that the session's
  -- former address leads to it no more.
  pub latch_exact :
      (heap' : Heap) × (s : Room) × (latch ufrag addr heap r ≡ (heap', s, some (a, pc)))
      × IsConsistent heap' s
      × (find addr s.by_addr ≡ some (a, pc))
      × ((session pc (heap' a)).address ≡ some addr)
      × ((x : SocketAddr) → x ≢ addr → find x s.by_addr ≢ some (a, pc))
  unfolding latch
  latch_exact = (
    latched_heap a pc addr heap,
    latched_room a pc addr heap r,
    rw (known, latch) refl,
    latched-IsConsistent,
    find-put_self addr addr (rebind (get_address (session pc (heap a))) addr r.by_addr) (a, pc)
        refl,
    own_address a pc addr heap,
    λ x n e. n (some-injective (sym (latched_addresses x a pc e).1 ∙ own_address a pc addr heap)),
  )
