-- ===== src/Room/Tests/ParticipantRuns.antt =====
-- Runs of src/room/participant.rs on concrete calls.
use light_livechat.Base.{ℕ, ◌%◌, ◌≡◌, refl, ◌≢◌, true, none, some, List, [], ◌∷◌, arith, ok}
use light_livechat.Room.Participant.{
  audio, video, Track, Participant, new_participant, RtpCache, new_cache, store_packet, get_packet,
  find_track, add_track, remove_track, set_track_muted,
}
use light_livechat.Room.Participant.Cache.{IsCache, new_cache-IsCache, get-store}
use light_livechat.Room.Participant.TrackList.{Distinct, with_muted}
use light_livechat.Room.Participant.Tracks.{TrackCall, adds, removes, mutes, made, tracks_as_map}

abbrev packet : List ℕ
packet = 128 ∷ 96 ∷ 1 ∷ 2 ∷ 0 ∷ 0 ∷ 0 ∷ 100 ∷ 0 ∷ 0 ∷ 0 ∷ 7 ∷ 1 ∷ []

abbrev ann : Participant
ann = record (new_participant "ann" "r1" "u1" "p1" "u2" "p2" 0) { tracks = made 7 video "v" 0 ∷ [] }

abbrev track_calls : List TrackCall
track_calls = adds 8 audio "a" ∷ adds 7 audio "again" ∷ mutes 7 true ∷ removes 8 ∷ []

ann-Distinct : Distinct ann.tracks
unfolding find_track
ann-Distinct = (refl, tt)

get-store_example :
    (d : RtpCache) × (store_packet 258 packet new_cache ≡ ok d)
    × IsCache d
    × (get_packet 258 d ≡ ok (some packet))
    × ((other : ℕ) → other ≢ 258 → other % 512 ≡ 258 % 512 → get_packet other d ≡ ok none)
    × ((other : ℕ) → other % 512 ≢ 258 % 512 → get_packet other d ≡ get_packet other new_cache)
get-store_example = get-store 258 packet new_cache new_cache-IsCache (omega arith, refl)

tracks_as_map_example :
    let added = (add_track 7 video "v" ann).tracks in
    let (after_remove, removed) = remove_track 7 ann in
    let after_mute = (set_track_muted 7 true ann).0 in
    (find_track 7 ann.tracks ≡ none
      → find_track 7 added ≡ some (made 7 video "v" ann.rtx_ssrc_counter))
    × ((t : Track) → find_track 7 ann.tracks ≡ some t → add_track 7 video "v" ann ≡ ann)
    × (removed ≡ find_track 7 ann.tracks)
    × (find_track 7 after_remove.tracks ≡ none)
    × (find_track 7 after_mute.tracks ≡ with_muted true (find_track 7 ann.tracks))
    × ((other : ℕ)
        → other ≢ 7
        → (find_track other added ≡ find_track other ann.tracks)
          × (find_track other after_remove.tracks ≡ find_track other ann.tracks)
          × (find_track other after_mute.tracks ≡ find_track other ann.tracks))
tracks_as_map_example = tracks_as_map 7 video "v" true ann ann-Distinct
