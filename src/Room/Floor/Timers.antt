-- ===== src/Room/Floor/Timers.antt =====
-- The timer of src/room/floor.rs (`check_timers`, T2 and T_FLOOR_TIMEOUT).
use mathlib.Core.List.{append_assoc}
use light_livechat.Base.{
  ℕ, String, ◌≡◌, refl, ◌⊎◌, inl, inr, List, [], ◌∷◌, ◌++◌, sym, ap, ◌∙◌, ◌+◌, ◌<◌, arith,
}
use light_livechat.Config.{floor_max_burst_ms}
use light_livechat.Room.Floor.{FloorState, idle, taken}
use light_livechat.Room.Floor.Events.{
  Event, requests, releases, pings, ticks, leaves, step, run, step_while_taken,
}

-- A burst that is running after the calls `es` on the floor `s0`: the one that began at `start`, or one that
-- began at a request which found the floor free.
data Began (s0 : FloorState) (user : String) (start : ℕ) (es : List Event)
    : FloorState → Type 0 where
  free : Began s0 user start es idle
  same : (ping : ℕ) → Began s0 user start es (taken user start ping)
  later :
      (v : String) (t ping : ℕ) (before after : List Event)
      → es ≡ before ++ (requests v t ∷ after)
      → (run s0 before).0 ≡ idle
      → Began s0 user start es (taken v t ping)

tick_idle : (now : ℕ) → (step idle (ticks now)).0 ≡ idle
unfolding step
tick_idle now = refl

tick_overdue :
    (user : String) (start ping now : ℕ)
    → start + floor_max_burst_ms < now
    → (step (taken user start ping) (ticks now)).0 ≡ idle
unfolding step
tick_overdue user start ping now h = ground arith

run-append :
    (s : FloorState) (es : List Event) (e : Event)
    → (run s (es ++ (e ∷ []))).0 ≡ (step (run s es).0 e).0
unfolding run
run-append s [] e = refl
run-append s (d ∷ es) e = run-append (step s d).0 es e

idle-step-Began :
    (s0 : FloorState) (user : String) (start : ℕ) (es before after : List Event) (e : Event)
    → es ≡ before ++ (e ∷ after)
    → (run s0 before).0 ≡ idle
    → Began s0 user start es (step idle e).0
unfolding step
idle-step-Began s0 user start es before after (requests v t) q i = later v t t before after q i
idle-step-Began s0 user start es before after (releases v) q i = free
idle-step-Began s0 user start es before after (pings v t) q i = free
idle-step-Began s0 user start es before after (ticks t) q i = free
idle-step-Began s0 user start es before after (leaves v) q i = free

step-Began :
    (s0 : FloorState) (user : String) (start : ℕ) (es before after : List Event) (e : Event)
    {s : FloorState}
    → es ≡ before ++ (e ∷ after)
    → (run s0 before).0 ≡ s
    → Began s0 user start es s
    → Began s0 user start es (step s e).0
step-Began s0 user start es before after e q i free =
    idle-step-Began s0 user start es before after e q i
step-Began s0 user start es before after e q i (same last) =
    elim (step_while_taken user start last e) [
      | inl (ping, p) ↦ rw p (same ping)
      | inr (p, _) ↦ rw p free
    ]
step-Began s0 user start es before after e q i (later v t last pre post m n) =
    elim (step_while_taken v t last e) [
      | inl (ping, p) ↦ rw p (later v t ping pre post m n)
      | inr (p, _) ↦ rw p free
    ]

run-Began :
    (s0 : FloorState) (user : String) (start : ℕ) (es before todo : List Event) {s : FloorState}
    → es ≡ before ++ todo
    → (run s0 before).0 ≡ s
    → Began s0 user start es s
    → Began s0 user start es (run s todo).0
unfolding run
run-Began s0 user start es before [] q i b = b
run-Began s0 user start es before (e ∷ todo) {s} q i b =
    run-Began s0 user start es (before ++ (e ∷ [])) todo
      (q ∙ sym (append_assoc before (e ∷ []) todo))
      (run-append s0 before e ∙ ap (λ u. (step u e).0) i)
      (step-Began s0 user start es before todo e q i b)

-- No talk burst outlives its limit: whatever the calls `es` after the start of a burst (pings and
-- repeated requests of its speaker included), a tick more than 30 s after the start leaves the
-- floor free, or held in a new burst: one that began at a request among `es`, at the time of that
-- request, which found the floor free.
pub burst_bounded :
    (user : String) (start last now : ℕ) (es : List Event)
    → start + floor_max_burst_ms < now
    → let s = (step (run (taken user start last) es).0 (ticks now)).0 in
      (s ≡ idle)
      ⊎ ((v : String) × (t : ℕ) × (ping : ℕ) × (before : List Event) × (after : List Event) × (s
            ≡ taken v t ping)
          × (es ≡ before ++ (requests v t ∷ after))
          × ((run (taken user start last) before).0 ≡ idle))
unfolding run
burst_bounded user start last now es h =
    tick_ends (run-Began (taken user start last) user start es [] es refl refl (same last))
  where
    tick_ends :
        {s : FloorState}
        → Began (taken user start last) user start es s
        → let u = (step s (ticks now)).0 in
          (u ≡ idle)
          ⊎ ((v : String) × (t : ℕ) × (ping : ℕ) × (before : List Event) × (after : List Event) × (u
                ≡ taken v t ping)
              × (es ≡ before ++ (requests v t ∷ after))
              × ((run (taken user start last) before).0 ≡ idle))
    tick_ends free = inl (tick_idle now)
    tick_ends (same ping) = inl (tick_overdue user start ping now h)
    tick_ends (later v t ping before after q i) = elim (step_while_taken v t ping (ticks now)) [
      | inl (ping', p) ↦ inr (v, t, ping', before, after, p, q, i)
      | inr (p, _) ↦ inl p
    ]
