-- ===== src/System/Rewriters.antt =====
-- Who is heard in a push-to-talk room, over every history of the server.
use light_livechat.Base.{
  ℕ, Bool, List, none, String, ◌≡◌, subst, Option, some, [], Outcome, ok, of-Ensures,
}
use light_livechat.Base.TextMap.{find}
use light_livechat.Base.DashMap.{get}
use light_livechat.Room.Floor.{current_speaker}
use light_livechat.Room.Participant.{SocketAddr, PcType}
use light_livechat.Room.Members.{Arc, Heap, Room}
use light_livechat.Room.Hub.{new_hub, Found}
use light_livechat.Room.Hub.Keeping.{AllRooms, latch-AllRooms}
use light_livechat.Signaling.Messages.{Packet}
use light_livechat.Signaling.World.{Session, World}
use light_livechat.Signaling.Floor.Rewriters.{IsInStep, SameMedia-IsInStep, RoomsInStep}
use light_livechat.Signaling.Dispatch.{dispatch}
use light_livechat.Signaling.Dispatch.Membership.{Leaves, cleanup-InStep}
use light_livechat.Signaling.Dispatch.Rewriters.{dispatch-InStep}
use light_livechat.Media.Ingress.Rewriters.{WorldInStep}
use light_livechat.Media.Feedback.Rewriters.{handle_srtp-InStep}
use light_livechat.Media.Egress.Rewriters.{bwe_tick-InStep}
use light_livechat.Transport.Srtp.{Crypto}
use light_livechat.Media.Handshake.{SrtpKeyMaterial, handshake_done}
use light_livechat.Server.{Draw}
use light_livechat.Server.Rewriters.{
  floor_round-InStep, reaper_round-InStep, create_default_rooms-InStep,
}
use light_livechat.System.{
  started, touched, latched, Step, received, closed, floor_tick, reaper_tick, binding, keyed,
  media_in, estimate, Reachable, here, next,
}

nothing : AllRooms IsInStep []
unfolding get
nothing id r e = let bad : ⊥ = cc in absurd bad

touched-InStep :
    (now : ℕ) (found : Option Found) (w : World) → RoomsInStep w → RoomsInStep (touched now found w)
touched-InStep now none w all = all
touched-InStep now (some (a, pc, r)) w all = all

latched-InStep :
    (now : ℕ) (ufrag : String) (addr : SocketAddr) (w : World)
    → RoomsInStep w
    → RoomsInStep (latched now ufrag addr w)
unfolding latched
latched-InStep now ufrag addr w all =
    touched-InStep now _ _ (latch-AllRooms IsInStep SameMedia-IsInStep ufrag addr w.heap w.hub all)

handshake_done-InStep :
    (crypto : Crypto) (accepts : List ℕ → List ℕ → Bool) (a : Arc) (pc : PcType)
    (keys : Option SrtpKeyMaterial) (w : World)
    → RoomsInStep w
    → RoomsInStep (handshake_done crypto accepts a pc keys w).0
unfolding handshake_done
handshake_done-InStep crypto accepts a pc none w all = all
handshake_done-InStep crypto accepts a pc (some keys) w all = all

dispatched-InStep :
    (m : Outcome (Session × World × Option Packet)) (s : Session) (w : World) (o : Option Packet)
    → m ≡ ok (s, w, o)
    → Leaves RoomsInStep m
    → RoomsInStep w
dispatched-InStep m s w o e h = subst (Leaves RoomsInStep) e h

Step-InStep : {w w' : World} → Step w w' → RoomsInStep w → RoomsInStep w'
Step-InStep {w} (received decoder env s s' packet w' o e) all =
    dispatched-InStep (dispatch decoder env s w packet) s' w' o e
      (dispatch-InStep decoder env s w packet all)
Step-InStep {w} (closed s) all = cleanup-InStep s w all
Step-InStep {w} (floor_tick now) all = floor_round-InStep now w all
Step-InStep {w} (reaper_tick now) all = reaper_round-InStep now w all
Step-InStep {w} (binding now ufrag addr) all = latched-InStep now ufrag addr w all
Step-InStep {w} (keyed crypto accepts a pc keys) all =
    handshake_done-InStep crypto accepts a pc keys w all
Step-InStep {w} (media_in crypto now arrival buf remote w' outputs e) all =
    of-Ensures WorldInStep _ (handle_srtp-InStep crypto now arrival buf remote w all) (w', outputs)
      e
Step-InStep {w} (estimate crypto mode bitrate w' outputs e) all =
    of-Ensures WorldInStep _ (bwe_tick-InStep crypto mode bitrate w all) (w', outputs) e

-- From the start of the server, through any sequence of client packets, closed connections, timer rounds,
-- binding requests, ends of DTLS handshakes, media datagrams and bandwidth reports, each handled to its end
-- before the next, both rewriters of every room serve exactly the user who holds the floor of the room, and
-- nobody while it is free.
pub Reachable-InStep :
    (now : ℕ) (first second third : Draw) (heap : Heap) (w : World)
    → Reachable (started now first second third heap) w
    → (id : String) (r : Room) → find id w.hub.rooms ≡ some r
    → (r.audio_rewriter.speaker ≡ current_speaker r.floor)
      × (r.video_rewriter.speaker ≡ current_speaker r.floor)
Reachable-InStep now first second third heap w history = along history
  where
    start : RoomsInStep (started now first second third heap)
    start = create_default_rooms-InStep now first second third new_hub nothing

    along : {w : World} → Reachable (started now first second third heap) w → RoomsInStep w
    along here = start
    along (next before step) = Step-InStep step (along before)
