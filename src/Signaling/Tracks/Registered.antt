-- ===== src/Signaling/Tracks/Registered.antt =====
-- src/signaling/handler.rs: what `handle_publish_tracks` registers.
use mathlib.Core.List.{Memᴰ}
use light_livechat.Base.{
  ℕ, ◌+◌, String, ◌≡◌, refl, sym, ap, ◌∙◌, subst, ◌⊎◌, inl, inr, if_pos, none, some, List, [], ◌∷◌,
  arith, ℕ_discrete, Option-cases, length, ok,
}
use light_livechat.Base.TextMap.{find}
use light_livechat.Room.Participant.{Participant, TrackKind, Track, find_track, add_track}
use light_livechat.Room.Participant.TrackList.{Distinct}
use light_livechat.Room.Members.{Arc, Room, get_participant, update}
use light_livechat.Room.Hub.{get_room}
use light_livechat.Signaling.Messages.{Packet, Decoder, PublishTrackItem, PublishTracksRequest}
use light_livechat.Signaling.World.{Session, World, proceed}
use light_livechat.Signaling.Tracks.{
  parse_kind, track_name, register, register_tracks, publish_tracks_guards, handle_publish_tracks,
}
use light_livechat.Room.Participant.Adding.{
  add_track-Distinct, add_track-Keeps, add_track-there, add_track-source,
}

-- Every item with a kind is registered, and every track is an old one or that of an item.
abbrev pub IsRegistered : List PublishTrackItem → (p q : Participant) → Type 0
IsRegistered items p q =
    Distinct q.tracks
    × ((n : ℕ) (t : Track) → find_track n p.tracks ≡ some t → find_track n q.tracks ≡ some t)
    × ((item : PublishTrackItem) (kind : TrackKind)
        → Memᴰ item items
        → parse_kind item.kind ≡ some kind
        → (t : Track) × (find_track item.ssrc q.tracks ≡ some t))
    × ((n : ℕ) (t : Track)
        → find_track n q.tracks ≡ some t
        → (find_track n p.tracks ≡ some t)
          ⊎ ((item : PublishTrackItem) × Memᴰ item items
              × (item.ssrc ≡ n)
              × (parse_kind item.kind ≡ some t.kind)))

skipped :
    (item : PublishTrackItem) (items : List PublishTrackItem) (p q : Participant)
    → parse_kind item.kind ≡ none
    → IsRegistered items p q
    → IsRegistered (item ∷ items) p q
skipped item items p q bad (d, keeps, there, source) = (d, keeps, there1, source1)
  where
    there1 :
        (i : PublishTrackItem) (kind : TrackKind)
        → Memᴰ i (item ∷ items)
        → parse_kind i.kind ≡ some kind
        → (t : Track) × (find_track i.ssrc q.tracks ≡ some t)
    there1 i kind (Memᴰ.head e) k =
        let q : none ≡ some kind =
          sym bad ∙ ap (λ (x : PublishTrackItem). parse_kind x.kind) (sym e) ∙ k in
        absurd (not_some q)
      where
        not_some : none ≡ some kind → ⊥
        not_some q = cc
    there1 i kind (Memᴰ.tail m) k = there i kind m k

    source1 :
        (n : ℕ) (t : Track)
        → find_track n q.tracks ≡ some t
        → (find_track n p.tracks ≡ some t)
          ⊎ ((i : PublishTrackItem) × Memᴰ i (item ∷ items)
              × (i.ssrc ≡ n)
              × (parse_kind i.kind ≡ some t.kind))
    source1 n t e = elim (source n t e) [
      | inl old ↦ inl old
      | inr (i, m, s, k) ↦ inr (i, Memᴰ.tail m, s, k)
    ]

added :
    (item : PublishTrackItem) (items : List PublishTrackItem) (kind : TrackKind) (track_id : String)
    (p q : Participant)
    → Distinct p.tracks
    → parse_kind item.kind ≡ some kind
    → IsRegistered items (add_track item.ssrc kind track_id p) q
    → IsRegistered (item ∷ items) p q
added item items kind track_id p q d good (e, keeps, there, source) =
    (e, (λ n t h. keeps n t (add_track-Keeps item.ssrc kind track_id p d n t h)), there1, source1)
  where
    there1 :
        (i : PublishTrackItem) (k : TrackKind)
        → Memᴰ i (item ∷ items)
        → parse_kind i.kind ≡ some k
        → (t : Track) × (find_track i.ssrc q.tracks ≡ some t)
    there1 i k (Memᴰ.head same) h =
        let (t, found) = add_track-there item.ssrc kind track_id p d in
        (
          t,
          ap (λ (x : PublishTrackItem). find_track x.ssrc q.tracks) same ∙ keeps item.ssrc t found,
        )
    there1 i k (Memᴰ.tail m) h = there i k m h

    source1 :
        (n : ℕ) (t : Track)
        → find_track n q.tracks ≡ some t
        → (find_track n p.tracks ≡ some t)
          ⊎ ((i : PublishTrackItem) × Memᴰ i (item ∷ items)
              × (i.ssrc ≡ n)
              × (parse_kind i.kind ≡ some t.kind))
    source1 n t h = elim (source n t h) [
      | inr (i, m, s, k) ↦ inr (i, Memᴰ.tail m, s, k)
      | inl before ↦ elim (add_track-source item.ssrc kind track_id p d n t before) [
        | inl old ↦ inl old
        | inr (s, k) ↦ inr (item, Memᴰ.head refl, s, good ∙ ap some k)
      ]
    ]

register-IsRegistered :
    (user : String) (items : List PublishTrackItem) (counter : ℕ) (p : Participant)
    → Distinct p.tracks
    → IsRegistered items p (register user items counter p).0
unfolding register
register-IsRegistered user [] counter p d = (d, (λ n t e. e), nothing_there, λ n t e. inl e)
  where
    nothing_there :
        (i : PublishTrackItem) (k : TrackKind)
        → Memᴰ i []
        → parse_kind i.kind ≡ some k
        → (t : Track) × (find_track i.ssrc p.tracks ≡ some t)
    nothing_there i k m h = elim m [ ]
register-IsRegistered user (item ∷ items) counter p d = elim (Option-cases (parse_kind item.kind)) [
  | inl bad ↦
      rw (register, bad)
        (skipped item items p (register user items counter p).0 bad
          (register-IsRegistered user items counter p d))
  | inr (kind, good) ↦
      let track_id = track_name user counter in
      let p1 = add_track item.ssrc kind track_id p in
      rw (register, good)
        (added item items kind track_id p (register user items (counter + 1) p1).0 d good (
          register-IsRegistered user items (counter + 1) p1
            (add_track-Distinct item.ssrc kind track_id p d)))
]

publish_guards_lem :
    (decoder : Decoder) (s : Session) (w : World) (packet : Packet) (req : PublishTracksRequest)
    (user id : String) (r : Room) (a : Arc)
    → decoder.publish_tracks packet.d ≡ some req
    → s.user_id ≡ some user
    → s.current_room ≡ some id
    → find id w.hub.rooms ≡ some r
    → get_participant user r ≡ some a
    → publish_tracks_guards decoder s w packet ≡ proceed (req.tracks, user, r, a)
unfolding publish_tracks_guards get_room
publish_guards_lem decoder s w packet req user id r a good known inside there member = ground arith

-- A member of the session's room, with tracks of distinct SSRCs, who publishes tracks: the member
-- keeps the tracks that it has, and gets one for every item of kind `audio` or `video`. All its
-- tracks are old ones or have the SSRC and the kind of an item, no two of them share an SSRC, and
-- the rooms stay as they are.
pub handle_publish_tracks-IsRegistered :
    (decoder : Decoder) (s : Session) (w : World) (packet : Packet) (req : PublishTracksRequest)
    (user id : String) (r : Room) (a : Arc)
    → decoder.publish_tracks packet.d ≡ some req
    → s.user_id ≡ some user
    → s.current_room ≡ some id
    → find id w.hub.rooms ≡ some r
    → get_participant user r ≡ some a
    → Distinct (w.heap a).tracks
    → (w' : World) × (answer : Packet) × (handle_publish_tracks decoder s w packet
        ≡ ok (w', answer))
      × IsRegistered req.tracks (w.heap a) (w'.heap a)
      × (w'.hub ≡ w.hub)
unfolding handle_publish_tracks register_tracks update
handle_publish_tracks-IsRegistered decoder s w packet req user id r a good known inside there member
      d =
    let p = w.heap a in
    let counter = length p.tracks in
    let (w', answer) = register_tracks packet.pid w (req.tracks, user, r, a) in
    let q = (register user req.tracks counter p).0 in
    let same : update a q w.heap a ≡ q = if_pos (ℕ_discrete a a) refl q (w.heap a) in
    (
      w',
      answer,
      rw (publish_guards_lem decoder s w packet req user id r a good known inside there member)
          refl,
      subst (λ (q : Participant). IsRegistered req.tracks (w.heap a) q) (sym same)
          (register-IsRegistered user req.tracks counter p d),
      refl,
    )
