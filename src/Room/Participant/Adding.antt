-- ===== src/Room/Participant/Adding.antt =====
-- src/room/participant.rs: what `add_track` finds and keeps.

use light_livechat.Base.{
  ℕ, String, ◌≡◌, refl, sym, ap, ◌∙◌, subst, ◌⊎◌, inl, inr, false, some, [], ◌∷◌, ℕ_discrete,
  Option-cases,
}
use light_livechat.Base.TextMap.{some-injective}
use light_livechat.Room.Participant.{
  Participant, TrackKind, audio, video, Track, find_track, add_track,
}
use light_livechat.Room.Participant.TrackList.{Distinct}
use light_livechat.Room.Participant.Tracks.{
  adds, track_step, track_run, track_run-Distinct, tracks_as_map, made,
}

made-kind :
    (ssrc : ℕ) (kind : TrackKind) (track_id : String) (n : ℕ)
    → (made ssrc kind track_id n).kind ≡ kind
made-kind ssrc audio track_id n = refl
made-kind ssrc video track_id n = refl

-- No track is lost, and the new ones are those of the call.
abbrev Keeps : (p q : Participant) → Type 0
Keeps p q = (n : ℕ) (t : Track) → find_track n p.tracks ≡ some t → find_track n q.tracks ≡ some t

module _ (ssrc : ℕ) (kind : TrackKind) (track_id : String) (p : Participant)
    (d : Distinct p.tracks) where
  pub add_track-Distinct : Distinct (add_track ssrc kind track_id p).tracks
  add_track-Distinct =
      unfold track_run in unfold track_step in track_run-Distinct p (adds ssrc kind track_id ∷ []) d

  pub add_track-Keeps : Keeps p (add_track ssrc kind track_id p)
  add_track-Keeps n t e = elim (ℕ_discrete n ssrc) [
    | yes same ↦
        let here : find_track ssrc p.tracks ≡ some t =
          subst (λ (m : ℕ). find_track m p.tracks ≡ some t) same e in
        let q = (tracks_as_map ssrc kind track_id false p d).1 t here in
        ap (λ (x : Participant). find_track n x.tracks) q ∙ e
    | no apart ↦ ((tracks_as_map ssrc kind track_id false p d).5 n apart).0 ∙ e
  ]

  pub add_track-there :
      (t : Track) × (find_track ssrc (add_track ssrc kind track_id p).tracks ≡ some t)
  add_track-there = elim (Option-cases (find_track ssrc p.tracks)) [
    | inl absent_ ↦ (
      made ssrc kind track_id p.rtx_ssrc_counter,
      (tracks_as_map ssrc kind track_id false p d).0 absent_,
    )
    | inr (t, present) ↦ (t, add_track-Keeps ssrc t present)
  ]

  pub add_track-source :
      (n : ℕ) (t : Track)
      → find_track n (add_track ssrc kind track_id p).tracks ≡ some t
      → (find_track n p.tracks ≡ some t) ⊎ ((ssrc ≡ n) × (kind ≡ t.kind))
  add_track-source n t e = elim (ℕ_discrete n ssrc) [
    | no apart ↦ inl (sym ((tracks_as_map ssrc kind track_id false p d).5 n apart).0 ∙ e)
    | yes same ↦ elim (Option-cases (find_track ssrc p.tracks)) [
      | inr (u, present) ↦
          let q = (tracks_as_map ssrc kind track_id false p d).1 u present in
          inl (sym (ap (λ (x : Participant). find_track n x.tracks) q) ∙ e)
      | inl absent_ ↦
          let new = (tracks_as_map ssrc kind track_id false p d).0 absent_ in
          let found : find_track ssrc (add_track ssrc kind track_id p).tracks ≡ some t =
            subst (λ (m : ℕ). find_track m (add_track ssrc kind track_id p).tracks ≡ some t) same
              e in
          inr (
            sym same,
            sym (made-kind ssrc kind track_id p.rtx_ssrc_counter)
                ∙ ap (λ (x : Track). x.kind) (some-injective (sym new ∙ found)),
          )
    ]
  ]
