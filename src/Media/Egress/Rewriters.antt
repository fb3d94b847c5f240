-- ===== src/Media/Egress/Rewriters.antt =====
-- src/transport/udp/egress.rs: reports to the publishers change participants, and no room.
use light_livechat.Base.{
  ℕ, String, Option, none, some, List, [], ◌∷◌, Ensures, ok-Ensures, bind-Ensures, then-Ensures,
}
use light_livechat.Base.DashMap.{DashMap}
use light_livechat.Config.{BweMode, twcc, remb}
use light_livechat.Room.Participant.{SocketAddr}
use light_livechat.Room.Members.{Arc, Room, all_participants}
use light_livechat.Transport.Srtp.{Crypto}
use light_livechat.Transport.Twcc.Feedback.{build_twcc_feedback}
use light_livechat.Signaling.World.{World}
use light_livechat.Signaling.Floor.Rewriters.{RoomsInStep}
use light_livechat.Media.Ingress.Rewriters.{WorldInStep}
use light_livechat.Media.Egress.{
  video_target, twcc_to, twcc_members, twcc_rooms, send_twcc_to_publishers, send_remb_to_publishers,
  bwe_tick,
}

twcc_to-InStep :
    (crypto : Crypto) (a : Arc) (w : World) (o : Option (SocketAddr × ℕ))
    → RoomsInStep w
    → Ensures WorldInStep (twcc_to crypto a w o)
unfolding twcc_to
twcc_to-InStep crypto a w none all = ok-Ensures WorldInStep _ all
twcc_to-InStep crypto a w (some (addr, ssrc)) all =
    then-Ensures WorldInStep (build_twcc_feedback ssrc (w.heap a).twcc_recorder) _
      (λ done. ok-Ensures WorldInStep _ all)

twcc_members-InStep :
    (crypto : Crypto) (arcs : List Arc) (w : World)
    → RoomsInStep w
    → Ensures WorldInStep (twcc_members crypto arcs w)
unfolding twcc_members
twcc_members-InStep crypto [] w all = ok-Ensures WorldInStep _ all
twcc_members-InStep crypto (a ∷ arcs) w all =
    bind-Ensures WorldInStep WorldInStep (twcc_to crypto a w (video_target (w.heap a))) _
      (twcc_to-InStep crypto a w (video_target (w.heap a)) all)
      (λ one h.
        bind-Ensures WorldInStep WorldInStep (twcc_members crypto arcs one.0) _
          (twcc_members-InStep crypto arcs one.0 h) (λ rest k. ok-Ensures WorldInStep _ k))

twcc_rooms-InStep :
    (crypto : Crypto) (rooms : DashMap String Room) (w : World)
    → RoomsInStep w
    → Ensures WorldInStep (twcc_rooms crypto rooms w)
unfolding twcc_rooms
twcc_rooms-InStep crypto [] w all = ok-Ensures WorldInStep _ all
twcc_rooms-InStep crypto ((id, r) ∷ rooms) w all =
    bind-Ensures WorldInStep WorldInStep (twcc_members crypto (all_participants r) w) _
      (twcc_members-InStep crypto (all_participants r) w all)
      (λ one h.
        bind-Ensures WorldInStep WorldInStep (twcc_rooms crypto rooms one.0) _
          (twcc_rooms-InStep crypto rooms one.0 h) (λ rest k. ok-Ensures WorldInStep _ k))

pub bwe_tick-InStep :
    (crypto : Crypto) (mode : BweMode) (bitrate : ℕ) (w : World)
    → RoomsInStep w
    → Ensures WorldInStep (bwe_tick crypto mode bitrate w)
unfolding bwe_tick send_twcc_to_publishers
bwe_tick-InStep crypto twcc bitrate w all = twcc_rooms-InStep crypto w.hub.rooms w all
bwe_tick-InStep crypto remb bitrate w all =
    then-Ensures WorldInStep (send_remb_to_publishers crypto bitrate w) _
      (λ sent. ok-Ensures WorldInStep _ all)
