-- ===== src/Room/Tests/FloorRuns.antt =====
-- Runs of src/room/floor.rs on concrete calls.
use light_livechat.Base.{ℕ, String, ◌≡◌, ◌⊎◌, some, List, [], ◌∷◌, ◌++◌, arith}
use light_livechat.Room.Floor.{idle, taken, current_speaker}
use light_livechat.Room.Floor.Events.{
  Event, requests, releases, pings, ticks, leaves, step, run, Ends, step_while_taken,
}
use light_livechat.Room.Floor.Timers.{burst_bounded}
use light_livechat.Room.Floor.Protocol.{allow_log, run-allowed}

abbrev calls : List Event
calls =
    requests "ann" 0
    ∷ requests "bob" 5
    ∷ pings "ann" 2000
    ∷ ticks 30001
    ∷ requests "bob" 30002
    ∷ leaves "bob"
    ∷ []

abbrev pings_on : List Event
pings_on = pings "ann" 15000 ∷ requests "ann" 20000 ∷ pings "ann" 29000 ∷ []

run-allowed_example :
    allow_log (current_speaker idle) (run idle calls).1 ≡ some (current_speaker (run idle calls).0)
run-allowed_example = run-allowed idle calls

step_while_taken_example :
    ((ping : ℕ) × ((step (taken "ann" 0 0) (releases "ann")).0 ≡ taken "ann" 0 ping))
    ⊎ (((step (taken "ann" 0 0) (releases "ann")).0 ≡ idle) × Ends "ann" 0 0 (releases "ann"))
step_while_taken_example = step_while_taken "ann" 0 0 (releases "ann")

burst_bounded_example :
    let s = (step (run (taken "ann" 0 0) pings_on).0 (ticks 30001)).0 in
    (s ≡ idle)
    ⊎ ((v : String) × (t : ℕ) × (ping : ℕ) × (before : List Event) × (after : List Event) × (s
          ≡ taken v t ping)
        × (pings_on ≡ before ++ (requests v t ∷ after))
        × ((run (taken "ann" 0 0) before).0 ≡ idle))
burst_bounded_example = burst_bounded "ann" 0 0 30001 pings_on (omega arith)
