-- ===== src/Media/Ingress/Gate.antt =====
-- src/transport/udp/ingress.rs: what becomes of a publisher's packet in a push-to-talk room.
use light_livechat.Base.{
  ℕ, ◌≤◌, ◌<◌, String, ◌≡◌, refl, sym, ap, ◌∙◌, ◌≢◌, ◌⊎◌, inl, inr, if_pos, if_neg, Bool, true,
  false, Option, none, some, List, [], arith, ◌==◌, ==_iff, Bool-cases, string_discrete, length, ok,
  at,
}
use light_livechat.Base.TextMap.{some-injective}
use light_livechat.Room.Floor.{current_speaker}
use light_livechat.Room.Rewriter.{PttRewriter, RewriteResult, is_current_speaker, rewrite}
use light_livechat.Room.Rewriter.Keyframe.{is_vp8_keyframe, is_vp8_keyframe-Returns}
use light_livechat.Room.Rewriter.Stream.{IsRewritten}
use light_livechat.Room.Rewriter.Speakers.{past_keyframe, Sent, Held, rewrite_exact}
use light_livechat.Room.Participant.{Participant}
use light_livechat.Room.Members.{Heap, Room}
use light_livechat.Transport.Rtcp.{RtpHeader}
use light_livechat.Signaling.World.{World, put_room, is_ptt}
use light_livechat.Signaling.Floor.Rewriters.{IsInStep}
use light_livechat.Media.{MediaOutput, rtp, holds, is_floor_holder, fan_out}
use light_livechat.Media.Ingress.{rewrite_in, payload_of, forward, fan_out_payload}

is_current_speaker-some :
    (user : String) (r : PttRewriter) → r.speaker ≡ some user → is_current_speaker user r ≡ true
unfolding is_current_speaker
is_current_speaker-some user r e = rw e (if_pos (string_discrete user user) refl true false)

holder_cases :
    (user : String) (r : Room)
    → ((is_floor_holder user r ≡ true) × (current_speaker r.floor ≡ some user))
      ⊎ ((is_floor_holder user r ≡ false) × (current_speaker r.floor ≢ some user))
unfolding is_floor_holder
holder_cases user r = by_speaker (current_speaker r.floor) refl
  where
    by_speaker :
        (o : Option String)
        → current_speaker r.floor ≡ o
        → ((holds user o ≡ true) × (current_speaker r.floor ≡ some user))
          ⊎ ((holds user o ≡ false) × (current_speaker r.floor ≢ some user))
    by_speaker none e = inr (refl, λ q. cc)
    by_speaker (some v) e = elim (string_discrete v user) [
      | yes same ↦ inl (if_pos (string_discrete v user) same true false, e ∙ ap some same)
      | no apart ↦ inr (
        if_neg (string_discrete v user) apart true false,
        λ q. apart (some-injective (sym e ∙ q)),
      )
    ]

-- The speaker's packet goes through a rewriter that serves the speaker: the rewritten bytes go out
-- (`sends out`), or nothing does while a key frame is awaited.
abbrev pub Passes :
    (plaintext : List ℕ) (key : Bool) (r s : PttRewriter) (sends : List ℕ → List MediaOutput)
    → List MediaOutput
    → Type 0
Passes plaintext key r s sends outputs =
    ((out : List ℕ) × ((r.awaits_keyframe ≡ false) ⊎ (key ≡ true))
      × IsRewritten plaintext (past_keyframe r) s out
      × (outputs ≡ sends out))
    ⊎ ((r.awaits_keyframe ≡ true) × (key ≡ false) × (s ≡ r) × (outputs ≡ []))

speaker-Passes :
    (plaintext : List ℕ) (user : String) (key : Bool) (r : PttRewriter) (heap : Heap)
    (room_with : PttRewriter → Room)
    → 12 ≤ length plaintext
    → at plaintext 1 < 256
    → r.virtual_ssrc < 4294967296
    → r.speaker ≡ some user
    → (s : PttRewriter) × (out : List ℕ) × (res : RewriteResult) × (rewrite plaintext user key r
        ≡ ok (s, out, res))
      × Passes plaintext key r s
          (λ bytes. fan_out heap user (room_with s) (rtp bytes))
          (fan_out_payload heap user (room_with s) (payload_of plaintext out res))
unfolding fan_out_payload payload_of
speaker-Passes plaintext user key r heap room_with long byte fits serves =
    let (s, out, res, e, how) = rewrite_exact plaintext user key r byte fits in
    (s, out, res, e, pass s out res how)
  where
    too_short : length plaintext < 12 → ⊥
    too_short h = omega arith

    awaited : (r.awaits_keyframe ≡ true → key ≡ true) → (r.awaits_keyframe ≡ false) ⊎ (key ≡ true)
    awaited k = elim (Bool-cases r.awaits_keyframe) [
      | inl waits ↦ inr (k waits)
      | inr ready ↦ inl ready
    ]

    pass :
        (s : PttRewriter) (out : List ℕ) (res : RewriteResult)
        → Sent plaintext user key r s out res ⊎ Held plaintext user key r s out res
        → Passes plaintext key r s
            (λ bytes. fan_out heap user (room_with s) (rtp bytes))
            (fan_out_payload heap user (room_with s) (payload_of plaintext out res))
    pass s out res (inl (q, _, _, k, done)) = inl (out, awaited k, done, rw q refl)
    pass s out res (inr (same, _, inr (q, _, waits, no_key))) = inr (waits, no_key, same, rw q refl)
    pass s out res (inr (same, _, inl (_, inl short))) = absurd (too_short short)
    pass s out res (inr (same, _, inl (_, inr other))) =
        let bad : true ≡ false = sym (is_current_speaker-some user r serves) ∙ other in cc

unequal : (m n : ℕ) → (m == n) ≡ false → m ≢ n
unequal m n h e = let bad : true ≡ false = sym ((==_iff m n).1 e) ∙ h in cc

-- What a packet of a push-to-talk room does: to the world, and to the queues of the others.
abbrev pub IsGated :
    RtpHeader
    → (plaintext : List ℕ) → Participant
    → Room
    → (w w' : World) → List MediaOutput
    → Type 0
IsGated hdr plaintext sender r w w' outputs =
    ((current_speaker r.floor ≢ some sender.user_id) × (w' ≡ w) × (outputs ≡ []))
    ⊎ ((current_speaker r.floor ≡ some sender.user_id)
        × (((hdr.pt ≡ 111)
              × (s : PttRewriter) × (let t = record r { audio_rewriter = s } in
                  (w' ≡ put_room r.id t w)
                  × Passes plaintext false r.audio_rewriter s
                      (λ bytes. fan_out w.heap sender.user_id t (rtp bytes)) outputs))
            ⊎ ((hdr.pt ≡ 96)
                × (key : Bool) × (s : PttRewriter) × (is_vp8_keyframe plaintext ≡ ok key)
                × (let t = record r { video_rewriter = s } in
                    (w' ≡ put_room r.id t w)
                    × Passes plaintext key r.video_rewriter s
                        (λ bytes. fan_out w.heap sender.user_id t (rtp bytes)) outputs))
            ⊎ ((hdr.pt ≢ 111)
                × (hdr.pt ≢ 96)
                × (w' ≡ put_room r.id r w)
                × (outputs ≡ fan_out w.heap sender.user_id r (rtp plaintext)))))

-- A packet with a full header, in a push-to-talk room whose rewriters serve the floor holder and
-- have SSRCs of 32 bits. If anybody else sent it, it changes nothing and reaches nobody. Audio
-- (type 111) and video (type 96) of the holder go out with the room's own SSRC and its continuous
-- sequence numbers and timestamps, and never as they came; nothing goes out while a key frame is
-- awaited and this is none. Packets of the holder with another payload type go out as they came.
pub forward-IsGated :
    (hdr : RtpHeader) (plaintext : List ℕ) (sender : Participant) (r : Room) (w : World)
    → is_ptt r.mode ≡ true
    → IsInStep r
    → 12 ≤ length plaintext
    → at plaintext 1 < 256
    → r.audio_rewriter.virtual_ssrc < 4294967296
    → r.video_rewriter.virtual_ssrc < 4294967296
    → (w' : World) × (outputs : List MediaOutput) × (forward hdr plaintext sender r w
        ≡ ok (w', outputs))
      × IsGated hdr plaintext sender r w w' outputs
unfolding forward rewrite_in fan_out_payload payload_of
forward-IsGated hdr plaintext sender r w is_on (a, v) long byte audio_fits video_fits =
    elim (holder_cases sender.user_id r) [
      | inr (off, other) ↦ (w, [], rw (is_on, off) refl, inl (other, refl, refl))
      | inl (on, holder) ↦ elim (Bool-cases (hdr.pt == 111)) [
        | inl is_audio ↦
            let (s, out, res, e, pass) =
              speaker-Passes plaintext sender.user_id false r.audio_rewriter w.heap
                (λ s. record r { audio_rewriter = s }) long byte audio_fits (a ∙ holder) in
            (
              _,
              _,
              rw (is_on, on, is_audio, e) refl,
              inr (holder, inl ((==_iff hdr.pt 111).0 is_audio, s, (refl, pass))),
            )
        | inr no_audio ↦ elim (Bool-cases (hdr.pt == 96)) [
          | inl is_video ↦
              let (key, k) = is_vp8_keyframe-Returns plaintext in
              let (s, out, res, e, pass) =
                speaker-Passes plaintext sender.user_id key r.video_rewriter w.heap
                  (λ s. record r { video_rewriter = s }) long byte video_fits (v ∙ holder) in
              (
                _,
                _,
                rw (is_on, on, no_audio, is_video, k, e) refl,
                inr (holder, inr (inl ((==_iff hdr.pt 96).0 is_video, key, s, k, (refl, pass)))),
              )
          | inr no_video ↦ (
            _,
            _,
            rw (is_on, on, no_audio, no_video) refl,
            inr (
              holder,
              inr (inr (unequal hdr.pt 111 no_audio, unequal hdr.pt 96 no_video, refl, refl)),
            ),
          )
        ]
      ]
    ]
