-- ===== src/System/Tests/KeyRuns.antt =====
-- The first media of a publisher, before and after its handshake.
use light_livechat.Base.{
  ℕ, String, ◌≡◌, refl, ◌≢◌, ◌⊎◌, inl, inr, Bool, true, false, none, some, List, [], ◌∷◌,
  string_discrete, ok,
}
use light_livechat.Base.DashMap.{get}
use light_livechat.Room.Participant.{publish, new_session}
use light_livechat.Room.Members.{Arc}
use light_livechat.Room.Hub.{find_by_addr}
use light_livechat.Signaling.World.{World}
use light_livechat.Media.{is_rtcp}
use light_livechat.Media.Ingress.{handle_media}
use light_livechat.Media.Feedback.{handle_srtp}
use light_livechat.Media.Handshake.Keys.{seen, keyed_world, handle_srtp-handshake_done}
use light_livechat.System.Tests.HistoryRuns.{
  ann1, latched_hub, room_latched, plain, keys, key_frame,
}

-- Ann's connection is latched and has no keys.
abbrev latched_world : World
latched_world = record { heap = λ a. ann1; hub = latched_hub; next_arc = 1; sent = [] }

abbrev accepts : List ℕ → List ℕ → Bool
accepts key salt = true

found : find_by_addr "1.2.3.4:5" latched_world.hub ≡ some (0, publish, room_latched)
unfolding find_by_addr get string_discrete
found = refl

no_keys : ann1.publish_session.inbound_srtp.inner ≡ none
unfolding new_session
no_keys = refl

media : is_rtcp key_frame ≡ false
unfolding is_rtcp
media = refl

handle_srtp-handshake_done_example :
    let w1 = keyed_world plain accepts keys 0 latched_world in
    (handle_srtp plain 9 100 key_frame "1.2.3.4:5" latched_world ≡ ok (seen 9 0 latched_world, []))
    × (((message : String) × (plain.rtp_decrypt (1 ∷ []) (2 ∷ []) key_frame ≡ inl message)
          × (handle_srtp plain 9 100 key_frame "1.2.3.4:5" w1 ≡ ok (seen 9 0 w1, [])))
        ⊎ ((plaintext : List ℕ) × (plain.rtp_decrypt (1 ∷ []) (2 ∷ []) key_frame ≡ inr plaintext)
            × (handle_srtp plain 9 100 key_frame "1.2.3.4:5" w1
                ≡ handle_media 100 plaintext 0 room_latched (seen 9 0 w1))))
    × (w1.hub ≡ latched_hub)
    × ((b : Arc) → 0 ≢ b → w1.heap b ≡ ann1)
    × ((w1.heap 0).subscribe_session ≡ ann1.subscribe_session)
    × ((w1.heap 0).tracks ≡ ann1.tracks)
handle_srtp-handshake_done_example =
    handle_srtp-handshake_done plain accepts keys 0 latched_world room_latched 9 100 key_frame
      "1.2.3.4:5" found no_keys refl media
