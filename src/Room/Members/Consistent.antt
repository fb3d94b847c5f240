-- ===== src/Room/Members/Consistent.antt =====
-- src/room/room.rs: the three maps of a room agree, whatever participants come, move and go.
use light_livechat.Base.{String, ◌≡◌, refl, sym, ap, ◌∙◌, subst, ◌≢◌, inl, inr, Option, none, some}
use light_livechat.Base.TextMap.{find, put, find-put_self, find-put_ne, find-put_cases}
use light_livechat.Room.Participant.{PcType, publish, subscribe, SocketAddr, session}
use light_livechat.Room.Members.{Arc, Heap, Room}

-- Every entry of an index names a member, and says of it what the member's session says.
pub record IsConsistent (heap : Heap) (r : Room) : Type 0 where
  pub members : (u : String) (a : Arc) → find u r.participants ≡ some a → (heap a).user_id ≡ u
  pub ufrags :
      (u : String) (a : Arc) (pc : PcType)
      → find u r.by_ufrag ≡ some (a, pc)
      → (find (heap a).user_id r.participants ≡ some a) × ((session pc (heap a)).ufrag ≡ u)
  pub both_ufrags :
      (u : String) (a : Arc) (pc : PcType)
      → find u r.participants ≡ some a
      → find (session pc (heap a)).ufrag r.by_ufrag ≡ some (a, pc)
  pub addresses :
      (x : SocketAddr) (a : Arc) (pc : PcType)
      → find x r.by_addr ≡ some (a, pc)
      → (find (heap a).user_id r.participants ≡ some a) × ((session pc (heap a)).address ≡ some x)

-- A participant that is not in the room's index yet: its two ufrags are new and differ.
abbrev pub IsNew : Heap → Arc → Room → Type 0
IsNew heap a r =
    (find (heap a).publish_session.ufrag r.by_ufrag ≡ none)
    × (find (heap a).subscribe_session.ufrag r.by_ufrag ≡ none)
    × ((heap a).publish_session.ufrag ≢ (heap a).subscribe_session.ufrag)

-- The room that `add_participant` makes.
abbrev pub added : Heap → Arc → Room → Room
added heap a r =
    let p = heap a in
    record r {
      by_ufrag =
          put p.subscribe_session.ufrag (a, subscribe)
            (put p.publish_session.ufrag (a, publish) r.by_ufrag);
      participants = put p.user_id a r.participants;
    }

pub none-some : {V : Type 0} {o : Option V} {v : V} → o ≡ none → o ≡ some v → ⊥
none-some {v} e f = let q : none ≡ some v = sym e ∙ f in cc

same_pc :
    (u : String) (a b : Arc) (pc pc' : PcType) (heap : Heap)
    → (session pc (heap a)).ufrag ≡ u
    → ◌≡◌ {A = Arc × PcType} (a, pc) (b, pc')
    → (session pc' (heap b)).ufrag ≡ u
same_pc u a b pc pc' heap e q = subst (λ (t : Arc × PcType). (session t.1 (heap t.0)).ufrag ≡ u) q e

module _ (heap : Heap) (a : Arc) (r : Room) (v : IsConsistent heap r)
    (absent : find (heap a).user_id r.participants ≡ none) (new : IsNew heap a r) where
  -- A member stays one.
  still_member :
      (b : Arc)
      → find (heap b).user_id r.participants ≡ some b
      → find (heap b).user_id (added heap a r).participants ≡ some b
  still_member b e =
      find-put_ne (heap a).user_id (heap b).user_id r.participants a
        (λ q. none-some absent (subst (λ u. find u r.participants ≡ some b) (sym q) e))
      ∙ e

  new_member : (b : Arc) → a ≡ b → find (heap b).user_id (added heap a r).participants ≡ some b
  new_member b q =
      subst (λ c. find (heap c).user_id (added heap a r).participants ≡ some c) q
        (find-put_self (heap a).user_id (heap a).user_id r.participants a refl)

  added_members :
      (u : String) (b : Arc) → find u (added heap a r).participants ≡ some b → (heap b).user_id ≡ u
  added_members u b e = elim (find-put_cases (heap a).user_id u r.participants a e) [
    | inl (same, q) ↦ ap (λ c. (heap c).user_id) (sym q) ∙ same
    | inr (_, there) ↦ v.members u b there
  ]

  added_ufrags :
      (u : String) (b : Arc) (pc : PcType)
      → find u (added heap a r).by_ufrag ≡ some (b, pc)
      → (find (heap b).user_id (added heap a r).participants ≡ some b)
        × ((session pc (heap b)).ufrag ≡ u)
  added_ufrags u b pc e =
      elim (find-put_cases (heap a).subscribe_session.ufrag u
        (put (heap a).publish_session.ufrag (a, publish) r.by_ufrag) (a, subscribe) e) [
          | inl (same, q) ↦ (
            new_member b (ap (λ (t : Arc × PcType). t.0) q),
            same_pc u a b subscribe pc heap same q,
          )
          | inr (_, e1) ↦
              elim (find-put_cases (heap a).publish_session.ufrag u r.by_ufrag (a, publish) e1) [
                | inl (same, q) ↦ (
                  new_member b (ap (λ (t : Arc × PcType). t.0) q),
                  same_pc u a b publish pc heap same q,
                )
                | inr (_, there) ↦ let (m, s) = v.ufrags u b pc there in (still_member b m, s)
              ]
        ]

  added_both :
      (u : String) (b : Arc) (pc : PcType)
      → find u (added heap a r).participants ≡ some b
      → find (session pc (heap b)).ufrag (added heap a r).by_ufrag ≡ some (b, pc)
  added_both u b pc e = elim (find-put_cases (heap a).user_id u r.participants a e) [
    | inl (_, q) ↦
        subst (λ c. find (session pc (heap c)).ufrag (added heap a r).by_ufrag ≡ some (c, pc)) q
          (own pc)
    | inr (_, there) ↦
        let old = v.both_ufrags u b pc there in
        find-put_ne (heap a).subscribe_session.ufrag (session pc (heap b)).ufrag
          (put (heap a).publish_session.ufrag (a, publish) r.by_ufrag) (a, subscribe)
          (λ q. none-some new.1 (subst (λ w. find w r.by_ufrag ≡ some (b, pc)) (sym q) old))
        ∙ find-put_ne (heap a).publish_session.ufrag (session pc (heap b)).ufrag r.by_ufrag
            (a, publish)
            (λ q. none-some new.0 (subst (λ w. find w r.by_ufrag ≡ some (b, pc)) (sym q) old))
        ∙ old
  ]
    where
      own :
          (pc' : PcType)
          → find (session pc' (heap a)).ufrag (added heap a r).by_ufrag ≡ some (a, pc')
      own subscribe =
          find-put_self (heap a).subscribe_session.ufrag (heap a).subscribe_session.ufrag
            (put (heap a).publish_session.ufrag (a, publish) r.by_ufrag) (a, subscribe) refl
      own publish =
          find-put_ne (heap a).subscribe_session.ufrag (heap a).publish_session.ufrag
            (put (heap a).publish_session.ufrag (a, publish) r.by_ufrag) (a, subscribe)
            (λ q. new.2 (sym q))
          ∙ find-put_self (heap a).publish_session.ufrag (heap a).publish_session.ufrag r.by_ufrag
              (a, publish) refl

  pub added-IsConsistent : IsConsistent heap (added heap a r)
  added-IsConsistent = record {
    members = added_members;
    ufrags = added_ufrags;
    both_ufrags = added_both;
    addresses = λ x b pc e. let (m, s) = v.addresses x b pc e in (still_member b m, s);
  }
