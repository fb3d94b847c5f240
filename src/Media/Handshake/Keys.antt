-- ===== src/Media/Handshake/Keys.antt =====
-- src/transport/udp/mod.rs and src/transport/udp/ingress.rs: a publisher's media before and after its DTLS
-- handshake.
use light_livechat.Base.{
  ℕ, String, ◌≡◌, refl, sym, ap, ◌∙◌, subst, ◌≢◌, ◌⊎◌, inl, inr, if_pos, if_neg, Bool, true, false,
  Option, none, some, List, [], ℕ_discrete, ok,
}
use light_livechat.Room.Participant.{publish, is_media_ready, install_srtp_keys, touch}
use light_livechat.Room.Members.{Arc, Room, update}
use light_livechat.Room.Hub.{find_by_addr}
use light_livechat.Transport.Srtp.{Crypto, install_key, is_ready, decrypt_rtp}
use light_livechat.Signaling.World.{World, put_participant}
use light_livechat.Media.{is_rtcp, Heap}
use light_livechat.Media.Ingress.{Handled, handle_media, handle_publish, rtp_plaintext}
use light_livechat.Media.Feedback.{handle_srtp, route}
use light_livechat.Media.Handshake.{SrtpKeyMaterial, keys_installed, handshake_done, Participant}

update_self : (a : Arc) (p : Participant) (heap : Heap) → update a p heap a ≡ p
unfolding update
update_self a p heap = if_pos (ℕ_discrete a a) refl p (heap a)

abbrev pub inbound : Arc → World → Option (List ℕ × List ℕ)
inbound a v = (v.heap a).publish_session.inbound_srtp.inner

module _ (crypto : Crypto) (arrival : ℕ) (buf : List ℕ) (a : Arc) (r : Room) (v : World) where
  locked_session : inbound a v ≡ none → handle_publish crypto arrival buf a r v ≡ ok (v, [])
  unfolding handle_publish is_media_ready is_ready
  locked_session e = rw e refl

  open_session :
      (key salt : List ℕ)
      → inbound a v ≡ some (key, salt)
      → is_rtcp buf ≡ false
      → ((message : String) × (crypto.rtp_decrypt key salt buf ≡ inl message)
          × (handle_publish crypto arrival buf a r v ≡ ok (v, [])))
        ⊎ ((plaintext : List ℕ) × (crypto.rtp_decrypt key salt buf ≡ inr plaintext)
            × (handle_publish crypto arrival buf a r v ≡ handle_media arrival plaintext a r v))
  unfolding handle_publish is_media_ready is_ready decrypt_rtp rtp_plaintext
  open_session key salt e media = by_result (crypto.rtp_decrypt key salt buf) refl
    where
      by_result :
          (x : String ⊎ List ℕ)
          → crypto.rtp_decrypt key salt buf ≡ x
          → ((message : String) × (crypto.rtp_decrypt key salt buf ≡ inl message)
              × (handle_publish crypto arrival buf a r v ≡ ok (v, [])))
            ⊎ ((plaintext : List ℕ) × (crypto.rtp_decrypt key salt buf ≡ inr plaintext)
                × (handle_publish crypto arrival buf a r v ≡ handle_media arrival plaintext a r v))
      by_result (inl message) q = inl (message, q, rw (e, media, q) refl)
      by_result (inr plaintext) q = inr (plaintext, q, rw (e, media, q) refl)

-- `last_seen` is set by every datagram that finds a session.
abbrev pub seen : (now : ℕ) → Arc → World → World
seen now a v = put_participant a (touch now (v.heap a)) v

seen-inbound : (now : ℕ) (a : Arc) (v : World) → inbound a (seen now a v) ≡ inbound a v
unfolding touch
seen-inbound now a v =
    ap (λ (p : Participant). p.publish_session.inbound_srtp.inner)
      (update_self a (touch now (v.heap a)) v.heap)

-- The participant behind a handshake of the publish connection.
abbrev pub keyed_world : Crypto → (List ℕ → List ℕ → Bool) → SrtpKeyMaterial → Arc → World → World
keyed_world crypto accepts keys a w = (handshake_done crypto accepts a publish (some keys) w).0

module _ (crypto : Crypto) (accepts : List ℕ → List ℕ → Bool) (keys : SrtpKeyMaterial) (a : Arc)
    (w : World) where
  keyed-inbound :
      accepts keys.client_key keys.client_salt ≡ true
      → inbound a (keyed_world crypto accepts keys a w) ≡ some (keys.client_key, keys.client_salt)
  unfolding handshake_done keys_installed install_srtp_keys install_key
  keyed-inbound taken =
      ap (λ (p : Participant). p.publish_session.inbound_srtp.inner)
        (update_self a (keys_installed accepts keys publish (w.heap a)) w.heap)
      ∙ rw taken refl

  -- A publisher's media counts from the end of its DTLS handshake on. Before, a datagram from its address sets
  -- `last_seen` and does nothing else. Afterwards, with a client key and salt that webrtc-srtp takes, a datagram
  -- that is no RTCP is decrypted with the client's key and salt: if that fails it sets `last_seen` only, else
  -- the plaintext goes on to `handle_media`. The handshake changes no other participant, neither the subscribe
  -- session nor the tracks of this one, and no room.
  pub handle_srtp-handshake_done :
      (r : Room) (now arrival : ℕ) (buf : List ℕ) (remote : String)
      → find_by_addr remote w.hub ≡ some (a, publish, r)
      → inbound a w ≡ none
      → accepts keys.client_key keys.client_salt ≡ true
      → is_rtcp buf ≡ false
      → let w1 = keyed_world crypto accepts keys a w in
        (handle_srtp crypto now arrival buf remote w ≡ ok (seen now a w, []))
        × (((message : String) × (crypto.rtp_decrypt keys.client_key keys.client_salt buf
                ≡ inl message)
              × (handle_srtp crypto now arrival buf remote w1 ≡ ok (seen now a w1, [])))
            ⊎ ((plaintext : List ℕ) × (crypto.rtp_decrypt keys.client_key keys.client_salt buf
                  ≡ inr plaintext)
                × (handle_srtp crypto now arrival buf remote w1
                    ≡ handle_media arrival plaintext a r (seen now a w1))))
        × (w1.hub ≡ w.hub)
        × ((b : Arc) → a ≢ b → w1.heap b ≡ w.heap b)
        × ((w1.heap a).subscribe_session ≡ (w.heap a).subscribe_session)
        × ((w1.heap a).tracks ≡ (w.heap a).tracks)
  unfolding handle_srtp route handshake_done keys_installed update
  handle_srtp-handshake_done r now arrival buf remote there fresh taken media =
      let w1 = keyed_world crypto accepts keys a w in
      let own = update_self a (keys_installed accepts keys publish (w.heap a)) w.heap in
      let before =
        locked_session crypto arrival buf a r (seen now a w) (seen-inbound now a w ∙ fresh) in
      let after =
        open_session crypto arrival buf a r (seen now a w1) keys.client_key keys.client_salt
          (seen-inbound now a w1 ∙ keyed-inbound taken) media in
      let found : handle_srtp crypto now arrival buf remote w1
          ≡ handle_publish crypto arrival buf a r (seen now a w1) =
        rw there refl in
      (
        rw there before,
        subst
            (λ (x : Handled).
              ((message : String) × (crypto.rtp_decrypt keys.client_key keys.client_salt buf
                  ≡ inl message)
                × (x ≡ ok (seen now a w1, [])))
              ⊎ ((plaintext : List ℕ) × (crypto.rtp_decrypt keys.client_key keys.client_salt buf
                    ≡ inr plaintext)
                  × (x ≡ handle_media arrival plaintext a r (seen now a w1))))
            (sym found) after,
        refl,
        (λ b n. if_neg (ℕ_discrete a b) n _ _),
        ap (λ (p : Participant). p.subscribe_session) own,
        ap (λ (p : Participant). p.tracks) own,
      )
