-- ===== src/Room/Members/Removal.antt =====
-- src/room/room.rs: `remove_participant` takes every trace of a member out of a room.
use light_livechat.Base.{String, ◌≡◌, refl, sym, ap, ◌∙◌, subst, ◌≢◌, inr, Option, none, some}
use light_livechat.Base.TextMap.{
  find, delete, some-injective, find-delete_self, find-delete_ne, find-delete_cases,
}
use light_livechat.Room.Participant.{PcType, publish, subscribe, SocketAddr, session}
use light_livechat.Room.Members.{Arc, Heap, Room, delete_addr, forget, remove_participant, DashMap}
use light_livechat.Room.Members.Consistent.{IsConsistent, none-some}

delete_addr_cases :
    {V : Type 0} (o : Option SocketAddr) (x : SocketAddr) (m : DashMap String V) {w : V}
    → find x (delete_addr o m) ≡ some w
    → (o ≢ some x) × (find x m ≡ some w)
delete_addr_cases none x m e = (λ q. cc, e)
delete_addr_cases (some o) x m e =
    let (apart, there) = find-delete_cases o x m e in (λ q. apart (some-injective q), there)

-- The room without a member.
abbrev pub without : Heap → String → Arc → Room → Room
without heap user a r = forget (heap a) (record r { participants = delete user r.participants })

module _ (heap : Heap) (user : String) (a : Arc) (r : Room) (v : IsConsistent heap r)
    (member : find user r.participants ≡ some a) where
  same_name : (heap a).user_id ≡ user
  same_name = v.members user a member

  -- Another member stays one; an entry of this member's is told by its session.
  stays :
      (b : Arc)
      → find (heap b).user_id r.participants ≡ some b
      → a ≢ b
      → find (heap b).user_id (without heap user a r).participants ≡ some b
  stays b e n =
      find-delete_ne user (heap b).user_id r.participants (λ q.
        n (some-injective (sym member ∙ subst (λ u. find u r.participants ≡ some b) (sym q) e)))
      ∙ e

  without_ufrags :
      (u : String) (b : Arc) (pc : PcType)
      → find u (without heap user a r).by_ufrag ≡ some (b, pc)
      → (find (heap b).user_id (without heap user a r).participants ≡ some b)
        × ((session pc (heap b)).ufrag ≡ u)
  without_ufrags u b pc e =
      let (not_sub, e1) =
        find-delete_cases (heap a).subscribe_session.ufrag u
          (delete (heap a).publish_session.ufrag r.by_ufrag) e in
      let (not_pub, e2) = find-delete_cases (heap a).publish_session.ufrag u r.by_ufrag e1 in
      let (m, s) = v.ufrags u b pc e2 in (stays b m (other pc not_sub not_pub s), s)
    where
      other :
          (pc' : PcType)
          → (heap a).subscribe_session.ufrag ≢ u
          → (heap a).publish_session.ufrag ≢ u
          → (session pc' (heap b)).ufrag ≡ u
          → a ≢ b
      other subscribe not_sub not_pub s q =
          not_sub (ap (λ c. (heap c).subscribe_session.ufrag) q ∙ s)
      other publish not_sub not_pub s q = not_pub (ap (λ c. (heap c).publish_session.ufrag) q ∙ s)

  without_both :
      (u : String) (b : Arc) (pc : PcType)
      → find u (without heap user a r).participants ≡ some b
      → find (session pc (heap b)).ufrag (without heap user a r).by_ufrag ≡ some (b, pc)
  without_both u b pc e =
      let (apart, there) = find-delete_cases user u r.participants e in
      let old = v.both_ufrags u b pc there in
      let differ : a ≢ b =
        λ q. apart (sym same_name ∙ ap (λ c. (heap c).user_id) q ∙ v.members u b there) in
      find-delete_ne (heap a).subscribe_session.ufrag (session pc (heap b)).ufrag
        (delete (heap a).publish_session.ufrag r.by_ufrag) (clash subscribe differ old)
      ∙ find-delete_ne (heap a).publish_session.ufrag (session pc (heap b)).ufrag r.by_ufrag
          (clash publish differ old)
      ∙ old
    where
      clash :
          (pc' : PcType)
          → a ≢ b
          → find (session pc (heap b)).ufrag r.by_ufrag ≡ some (b, pc)
          → (session pc' (heap a)).ufrag ≢ (session pc (heap b)).ufrag
      clash pc' differ old q = differ (
          ap (λ (t : Arc × PcType). t.0)
            (some-injective (
              sym (v.both_ufrags user a pc' member)
              ∙ subst (λ w. find w r.by_ufrag ≡ some (b, pc)) (sym q) old)))

  without_addresses :
      (x : SocketAddr) (b : Arc) (pc : PcType)
      → find x (without heap user a r).by_addr ≡ some (b, pc)
      → (find (heap b).user_id (without heap user a r).participants ≡ some b)
        × ((session pc (heap b)).address ≡ some x)
  without_addresses x b pc e =
      let (not_sub, e1) =
        delete_addr_cases (heap a).subscribe_session.address x
          (delete_addr (heap a).publish_session.address r.by_addr) e in
      let (not_pub, e2) = delete_addr_cases (heap a).publish_session.address x r.by_addr e1 in
      let (m, s) = v.addresses x b pc e2 in (stays b m (other pc not_sub not_pub s), s)
    where
      other :
          (pc' : PcType)
          → (heap a).subscribe_session.address ≢ some x
          → (heap a).publish_session.address ≢ some x
          → (session pc' (heap b)).address ≡ some x
          → a ≢ b
      other subscribe not_sub not_pub s q =
          not_sub (ap (λ c. (heap c).subscribe_session.address) q ∙ s)
      other publish not_sub not_pub s q = not_pub (ap (λ c. (heap c).publish_session.address) q ∙ s)

  pub without-IsConsistent : IsConsistent heap (without heap user a r)
  without-IsConsistent = record {
    members = λ u b e. v.members u b (find-delete_cases user u r.participants e).1;
    ufrags = without_ufrags;
    both_ufrags = without_both;
    addresses = without_addresses;
  }

  gone : find (heap a).user_id (without heap user a r).participants ≡ some a → ⊥
  gone e = none-some (find-delete_self user (heap a).user_id r.participants (sym same_name)) e

  -- Removing a member of a consistent room gives the member back and leaves a consistent room in
  -- which nothing leads to it: no user id, no ufrag and no address.
  pub remove_participant_exact :
      (s : Room) × (remove_participant heap user r ≡ inr (s, a))
      × IsConsistent heap s
      × (find user s.participants ≡ none)
      × ((u : String) (pc : PcType) → find u s.by_ufrag ≢ some (a, pc))
      × ((x : SocketAddr) (pc : PcType) → find x s.by_addr ≢ some (a, pc))
  unfolding remove_participant
  remove_participant_exact = (
    without heap user a r,
    rw (member, remove_participant) refl,
    without-IsConsistent,
    find-delete_self user user r.participants refl,
    (λ u pc e. gone (without_ufrags u a pc e).0),
    (λ x pc e. gone (without_addresses x a pc e).0),
  )
