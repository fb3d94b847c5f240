-- ===== src/Room/Participant/Tracks.antt =====
-- src/room/participant.rs: the published tracks (`add_track`, `remove_track`, `set_track_muted`).
use light_livechat.Base.{
  ℕ, String, ◌≡◌, refl, sym, subst, ◌≢◌, inl, inr, Bool, true, false, none, some, List, [], ◌∷◌,
  ◌++◌, arith, ◌==◌, ==_iff, Option-cases, add32,
}
use light_livechat.Room.Participant.{
  TrackKind, audio, video, Track, Participant, find_track, alloc_rtx_ssrc, push_track, add_track,
  remove_track, set_track_muted,
}
use light_livechat.Room.Participant.TrackList.{
  Distinct, find-append, find-remove_ne, find-remove_self, find-mute_ne, with_muted, find-mute_self,
  append-Distinct, remove-Distinct, mute-Distinct,
}

-- One call on the tracks.
pub data TrackCall : Type 0 where
  adds : (ssrc : ℕ) (kind : TrackKind) (track_id : String) → TrackCall
  removes : (ssrc : ℕ) → TrackCall
  mutes : (ssrc : ℕ) (muted : Bool) → TrackCall

unfoldable pub track_step : Participant → TrackCall → Participant
track_step p (adds ssrc kind track_id) = add_track ssrc kind track_id p
track_step p (removes ssrc) = (remove_track ssrc p).0
track_step p (mutes ssrc muted) = (set_track_muted ssrc muted p).0

unfoldable pub track_run : Participant → List TrackCall → Participant
track_run p [] = p
track_run p (c ∷ cs) = track_run (track_step p c) cs

-- The track that `add_track` makes.
abbrev pub made : (ssrc : ℕ) → TrackKind → (track_id : String) → (counter : ℕ) → Track
made ssrc audio track_id counter = record {
  ssrc = ssrc;
  kind = audio;
  track_id = track_id;
  rtx_ssrc = none;
  muted = false;
}
made ssrc video track_id counter = record {
  ssrc = ssrc;
  kind = video;
  track_id = track_id;
  rtx_ssrc = some (add32 (add32 ssrc 1000) counter);
  muted = false;
}

add-absent :
    (ssrc : ℕ) (kind : TrackKind) (track_id : String) (p : Participant)
    → find_track ssrc p.tracks ≡ none
    → (add_track ssrc kind track_id p).tracks
      ≡ p.tracks ++ (made ssrc kind track_id p.rtx_ssrc_counter ∷ [])
unfolding add_track push_track alloc_rtx_ssrc
add-absent ssrc audio track_id p absent = rw (absent, add_track) refl
add-absent ssrc video track_id p absent = rw (absent, add_track) refl

add-present :
    (ssrc : ℕ) (kind : TrackKind) (track_id : String) (p : Participant) (t : Track)
    → find_track ssrc p.tracks ≡ some t
    → add_track ssrc kind track_id p ≡ p
unfolding add_track
add-present ssrc kind track_id p t present = rw (present, add_track) refl

step-Distinct :
    (p : Participant) (c : TrackCall) → Distinct p.tracks → Distinct (track_step p c).tracks
unfolding track_step remove_track set_track_muted
step-Distinct p (removes ssrc) d = remove-Distinct ssrc p.tracks d
step-Distinct p (mutes ssrc muted) d = mute-Distinct ssrc muted p.tracks d
step-Distinct p (adds ssrc kind track_id) d = elim (Option-cases (find_track ssrc p.tracks)) [
  | inl absent ↦ subst Distinct (sym (add-absent ssrc kind track_id p absent)) (
      append-Distinct p.tracks (made ssrc kind track_id p.rtx_ssrc_counter) d
        (made_absent kind absent))
  | inr (t, present) ↦ rw (add-present ssrc kind track_id p t present) d
]
  where
    made_absent :
        (k : TrackKind)
        → find_track ssrc p.tracks ≡ none
        → find_track (made ssrc k track_id p.rtx_ssrc_counter).ssrc p.tracks ≡ none
    made_absent audio h = h
    made_absent video h = h

-- Whatever tracks are added, removed and muted, in any order, no two tracks have the same SSRC.
pub track_run-Distinct :
    (p : Participant) (calls : List TrackCall)
    → Distinct p.tracks
    → Distinct (track_run p calls).tracks
unfolding track_run
track_run-Distinct p [] d = d
track_run-Distinct p (c ∷ cs) d = track_run-Distinct (track_step p c) cs (step-Distinct p c d)

made-ssrc :
    (ssrc : ℕ) (kind : TrackKind) (track_id : String) (n : ℕ)
    → (made ssrc kind track_id n).ssrc ≡ ssrc
made-ssrc ssrc audio track_id n = refl
made-ssrc ssrc video track_id n = refl

-- The tracks as a map from SSRCs. Adding takes effect only on a free SSRC, where it makes an unmuted
-- track, a video track with an RTX SSRC; removing gives back the track and frees its SSRC; muting
-- changes the flag of the track and nothing else. No call changes what any other SSRC finds. The
-- tracks are assumed to have distinct SSRCs.
pub tracks_as_map :
    (ssrc : ℕ) (kind : TrackKind) (track_id : String) (muted : Bool) (p : Participant)
    → Distinct p.tracks
    → let added = (add_track ssrc kind track_id p).tracks in
      let (after_remove, removed) = remove_track ssrc p in
      let after_mute = (set_track_muted ssrc muted p).0 in
      (find_track ssrc p.tracks ≡ none
        → find_track ssrc added ≡ some (made ssrc kind track_id p.rtx_ssrc_counter))
      × ((t : Track) → find_track ssrc p.tracks ≡ some t → add_track ssrc kind track_id p ≡ p)
      × (removed ≡ find_track ssrc p.tracks)
      × (find_track ssrc after_remove.tracks ≡ none)
      × (find_track ssrc after_mute.tracks ≡ with_muted muted (find_track ssrc p.tracks))
      × ((other : ℕ)
          → other ≢ ssrc
          → (find_track other added ≡ find_track other p.tracks)
            × (find_track other after_remove.tracks ≡ find_track other p.tracks)
            × (find_track other after_mute.tracks ≡ find_track other p.tracks))
unfolding remove_track set_track_muted
tracks_as_map ssrc kind track_id muted p d = (
  found_new,
  (λ t present. add-present ssrc kind track_id p t present),
  refl,
  find-remove_self ssrc p.tracks d,
  find-mute_self ssrc muted p.tracks,
  λ other n. (
    others other n,
    find-remove_ne ssrc other p.tracks n,
    find-mute_ne ssrc other muted p.tracks n,
  ),
)
  where
    found_new :
        find_track ssrc p.tracks ≡ none
        → find_track ssrc (add_track ssrc kind track_id p).tracks
          ≡ some (made ssrc kind track_id p.rtx_ssrc_counter)
    found_new absent =
        let t = made ssrc kind track_id p.rtx_ssrc_counter in
        let hit : (t.ssrc == ssrc) ≡ true =
          (==_iff t.ssrc ssrc).1 (made-ssrc ssrc kind track_id p.rtx_ssrc_counter) in
        rw (add-absent ssrc kind track_id p absent, find-append ssrc p.tracks t, absent, hit) refl

    others :
        (other : ℕ)
        → other ≢ ssrc
        → find_track other (add_track ssrc kind track_id p).tracks ≡ find_track other p.tracks
    others other n = elim (Option-cases (find_track ssrc p.tracks)) [
      | inr (t, present) ↦ rw (add-present ssrc kind track_id p t present) refl
      | inl absent ↦
          let t = made ssrc kind track_id p.rtx_ssrc_counter in
          let same = made-ssrc ssrc kind track_id p.rtx_ssrc_counter in
          let miss : (t.ssrc == other) ≡ false = ground (arith, same, n) in
          elim (Option-cases (find_track other p.tracks)) [
            | inl none_there ↦
                rw
                  (
                    add-absent ssrc kind track_id p absent,
                    find-append other p.tracks t,
                    none_there,
                    miss,
                  )
                  refl
            | inr (u, there) ↦
                rw (add-absent ssrc kind track_id p absent, find-append other p.tracks t, there)
                  refl
          ]
    ]
