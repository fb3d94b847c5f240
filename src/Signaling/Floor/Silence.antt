-- ===== src/Signaling/Floor/Silence.antt =====
-- src/signaling/handler.rs: a user who leaves gives the floor of the room back.
use light_livechat.Base.{String, ◌≡◌, refl, ◌≢◌, ◌⊎◌, inl, inr, false, some, Bool-cases}
use light_livechat.Base.TextMap.{find, find-put_self, find-put_ne}
use light_livechat.Room.Floor.{idle, current_speaker}
use light_livechat.Room.Floor.Outcomes.{leave_cases}
use light_livechat.Room.Members.{Room}
use light_livechat.Signaling.World.{World, is_ptt}
use light_livechat.Signaling.Floor.{leave_floor, in_ptt_room, left_floor, clear_rewriters}

-- The user does not hold the floor of the room; the members and the other rooms are as before.
abbrev pub IsSilent : (user id : String) (r : Room) (w w' : World) → Type 0
IsSilent user id r w w' =
    (t : Room) × (find id w'.hub.rooms ≡ some t)
    × (t.participants ≡ r.participants)
    × ((is_ptt r.mode ≡ false) ⊎ (current_speaker t.floor ≢ some user))
    × ((other : String) → id ≢ other → find other w'.hub.rooms ≡ find other w.hub.rooms)

module _ (user id : String) (w : World) (r : Room) (there : find id w.hub.rooms ≡ some r) where
  in_ptt_room-IsSilent : IsSilent user id r w (in_ptt_room id user w (some r))
  unfolding in_ptt_room left_floor current_speaker
  in_ptt_room-IsSilent = elim (Bool-cases (is_ptt r.mode)) [
    | inr plain ↦ rw plain (r, there, refl, inl refl, λ other n. refl)
    | inl yes_ptt ↦ elim (leave_cases user r.floor) [
      | inr (e, apart) ↦ rw (yes_ptt, e) (r, there, refl, inr apart, λ other n. refl)
      | inl (e, _) ↦
          let t = clear_rewriters (record r { floor = idle }) in
          rw (yes_ptt, e)
            (
              t,
              find-put_self id id w.hub.rooms t refl,
              refl,
              inr (λ q. cc),
              λ other n. find-put_ne id other w.hub.rooms t n,
            )
    ]
  ]

  pub leave_floor-IsSilent : IsSilent user id r w (leave_floor id user w)
  unfolding leave_floor
  leave_floor-IsSilent = rw (leave_floor, there) in_ptt_room-IsSilent
