-- ===== src/Media/Feedback/Rewriters.antt =====
-- src/transport/udp/ingress.rs: feedback from a subscriber changes participants, and no room.
use light_livechat.Base.{
  ℕ, String, ◌≡◌, refl, ap, ◌∙◌, ◌⊎◌, inl, inr, Option, none, some, List, [], ◌∷◌, Option-cases,
  Ensures, bind-Ensures, then-Ensures, if-Ensures, ok-Ensures,
}
use light_livechat.Base.TextMap.{find}
use light_livechat.Room.Participant.{
  PcType, publish, subscribe, SocketAddr, find_track, get_tracks, touch,
}
use light_livechat.Room.Members.{Arc, Room, find_by_track_ssrc, get_by_addr}
use light_livechat.Room.Hub.{RoomHub, Found, find_by_addr, in_room}
use light_livechat.Transport.Rtcp.{NackItem, parse_rtcp_nack, split_compound_rtcp}
use light_livechat.Transport.Srtp.{SrtpError, Crypto, decrypt_rtcp}
use light_livechat.Signaling.World.{World, put_participant}
use light_livechat.Signaling.Floor.Rewriters.{RoomsInStep}
use light_livechat.Media.{is_rtcp}
use light_livechat.Media.Ingress.Rewriters.{WorldInStep, handle_publish-InStep}
use light_livechat.Media.Feedback.{
  lookup_of, resend, answer_from, answer_nack, answer_nacks, handle_nack_block, nack_each,
  group_blocks, handle_feedback, handle_subscribe_rtcp, handle_srtp, route, resend_from, rtx_of,
  feedback_plaintext,
}

resend_from-InStep :
    (subscriber a : Arc) (seqs : List ℕ) (rtx : Option ℕ) (w : World)
    → RoomsInStep w
    → Ensures WorldInStep (resend_from subscriber a seqs rtx w)
unfolding resend_from
resend_from-InStep subscriber a seqs none w all = ok-Ensures WorldInStep _ all
resend_from-InStep subscriber a seqs (some rtx_ssrc) w all =
    then-Ensures WorldInStep (resend rtx_ssrc seqs (w.heap a)) _
      (λ done. ok-Ensures WorldInStep _ all)

answer_from-InStep :
    (subscriber : Arc) (ssrc : ℕ) (seqs : List ℕ) (o : Option Arc) (w : World)
    → RoomsInStep w
    → Ensures WorldInStep (answer_from subscriber ssrc seqs o w)
unfolding answer_from
answer_from-InStep subscriber ssrc seqs none w all = ok-Ensures WorldInStep _ all
answer_from-InStep subscriber ssrc seqs (some a) w all =
    resend_from-InStep subscriber a seqs (rtx_of (find_track ssrc (get_tracks (w.heap a)))) w all

module _ (subscriber : Arc) (r : Room) where
  answer_nack-InStep :
      (nack : NackItem) (w : World)
      → RoomsInStep w
      → Ensures WorldInStep (answer_nack subscriber r nack w)
  unfolding answer_nack
  answer_nack-InStep nack w all =
      let (ssrc, seqs) = lookup_of w.heap r nack in
      answer_from-InStep subscriber ssrc seqs (find_by_track_ssrc w.heap ssrc r) w all

  answer_nacks-InStep :
      (nacks : List NackItem) (w : World)
      → RoomsInStep w
      → Ensures WorldInStep (answer_nacks subscriber r nacks w)
  unfolding answer_nacks
  answer_nacks-InStep [] w all = ok-Ensures WorldInStep _ all
  answer_nacks-InStep (nack ∷ nacks) w all =
      bind-Ensures WorldInStep WorldInStep (answer_nack subscriber r nack w) _
        (answer_nack-InStep nack w all)
        (λ one h.
          bind-Ensures WorldInStep WorldInStep (answer_nacks subscriber r nacks one.0) _
            (answer_nacks-InStep nacks one.0 h) (λ rest k. ok-Ensures WorldInStep _ k))

  nack_each-InStep :
      (blocks : List (List ℕ)) (w : World)
      → RoomsInStep w
      → Ensures WorldInStep (nack_each blocks subscriber r w)
  unfolding nack_each handle_nack_block
  nack_each-InStep [] w all = ok-Ensures WorldInStep _ all
  nack_each-InStep (block ∷ blocks) w all =
      bind-Ensures WorldInStep WorldInStep (handle_nack_block block subscriber r w) _
        (then-Ensures WorldInStep (parse_rtcp_nack block) _
          (λ nacks. answer_nacks-InStep nacks w all))
        (λ one h.
          bind-Ensures WorldInStep WorldInStep (nack_each blocks subscriber r one.0) _
            (nack_each-InStep blocks one.0 h) (λ rest k. ok-Ensures WorldInStep _ k))

  handle_feedback-InStep :
      (crypto : Crypto) (plaintext : List ℕ) (w : World)
      → RoomsInStep w
      → Ensures WorldInStep (handle_feedback crypto plaintext subscriber r w)
  unfolding handle_feedback
  handle_feedback-InStep crypto plaintext w all =
      then-Ensures WorldInStep (split_compound_rtcp plaintext) _ (λ parsed.
        bind-Ensures WorldInStep WorldInStep (nack_each parsed.nack_blocks subscriber r w) _
          (nack_each-InStep parsed.nack_blocks w all)
          (λ answered h.
            then-Ensures WorldInStep
              (group_blocks answered.0.heap r plaintext parsed.relay_blocks []) _
              (λ groups. ok-Ensures WorldInStep _ h)))

  feedback_plaintext-InStep :
      (crypto : Crypto) (w : World) (x : SrtpError ⊎ List ℕ)
      → RoomsInStep w
      → Ensures WorldInStep (feedback_plaintext crypto subscriber r w x)
  unfolding feedback_plaintext
  feedback_plaintext-InStep crypto w (inl _) all = ok-Ensures WorldInStep _ all
  feedback_plaintext-InStep crypto w (inr plaintext) all =
      handle_feedback-InStep crypto plaintext w all

  handle_subscribe_rtcp-InStep :
      (crypto : Crypto) (buf : List ℕ) (w : World)
      → RoomsInStep w
      → Ensures WorldInStep (handle_subscribe_rtcp crypto buf subscriber r w)
  unfolding handle_subscribe_rtcp
  handle_subscribe_rtcp-InStep crypto buf w all =
      if-Ensures WorldInStep (is_rtcp buf) _ _
        (λ _.
          feedback_plaintext-InStep crypto w
            (decrypt_rtcp crypto buf (w.heap subscriber).subscribe_session.inbound_srtp) all)
        (λ _. ok-Ensures WorldInStep _ all)

-- What the hub finds by an address is one of its rooms.
pub found_room :
    (addr : SocketAddr) (hub : RoomHub) (a : Arc) (pc : PcType) (r : Room)
    → find_by_addr addr hub ≡ some (a, pc, r)
    → (id : String) × (find id hub.rooms ≡ some r)
unfolding find_by_addr
found_room addr hub a pc r e = elim (Option-cases (find addr hub.addr_index)) [
  | inl f ↦ let bad = rw (find_by_addr, f) at e in cc
  | inr (id, f) ↦ elim (Option-cases (find id hub.rooms)) [
    | inl g ↦ let bad = rw (find_by_addr, f, g) at e in cc
    | inr (s, g) ↦
        (id, g ∙ ap some (same_room s (get_by_addr addr s) (rw (find_by_addr, f, g) at e)))
  ]
]
  where
    room_of : Room → Option Found → Room
    room_of s none = s
    room_of s (some (_, _, t)) = t

    same_room : (s : Room) (o : Option (Arc × PcType)) → in_room s o ≡ some (a, pc, r) → s ≡ r
    same_room s none q = cc
    same_room s (some _) q = ap (room_of s) q

pub handle_srtp-InStep :
    (crypto : Crypto) (now arrival : ℕ) (buf : List ℕ) (remote : SocketAddr) (w : World)
    → RoomsInStep w
    → Ensures WorldInStep (handle_srtp crypto now arrival buf remote w)
unfolding handle_srtp
handle_srtp-InStep crypto now arrival buf remote w all = routed (find_by_addr remote w.hub) refl
  where
    routed :
        (o : Option Found)
        → find_by_addr remote w.hub ≡ o
        → Ensures WorldInStep (route crypto now arrival buf w o)
    routed none e = ok-Ensures WorldInStep _ all
    routed (some (a, publish, r)) e =
        let (id, there) = found_room remote w.hub a publish r e in
        handle_publish-InStep crypto arrival buf a r (put_participant a (touch now (w.heap a)) w)
          all (all id r there)
    routed (some (a, subscribe, r)) e =
        handle_subscribe_rtcp-InStep a r crypto buf (put_participant a (touch now (w.heap a)) w) all
