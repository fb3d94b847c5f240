-- ===== src/System/Tests/MediaRuns.antt =====
-- Media and feedback, on concrete packets.
use mathlib.Core.List.{Memᴰ}
use light_livechat.Base.{
  ℕ, zero, suc, ◌+◌, ◌*◌, ◌%◌, ◌≤◌, ◌<◌, String, ◌≡◌, refl, sym, ap, ◌∙◌, subst, ◌≢◌, ◌↔◌, inl, inr,
  true, false, Option, none, some, List, [], ◌∷◌, arith, ℕ_discrete, leb, ◌==◌, leb→le, Bool-cases,
  length, get_or, set, replicate, length-set, length-replicate, low_bits, ok, at, at16, read16_ok,
  ok-injective,
}
use light_livechat.Base.Slots.{load_ok, load-set_self, load-set_ne}
use light_livechat.Base.TextMap.{some-injective}
use light_livechat.Room.Floor.{current_speaker}
use light_livechat.Room.Rewriter.{new_audio, new_video, new_rewriter, switch_speaker}
use light_livechat.Room.Participant.{
  Participant, RtpCache, get_packet, cached_in, is_subscribe_ready,
}
use light_livechat.Room.Participant.Cache.{IsCache}
use light_livechat.Room.Members.{Arc, new_room}
use light_livechat.Transport.Rtcp.{RtpHeader}
use light_livechat.Signaling.World.{World, is_ptt}
use light_livechat.Signaling.Floor.Rewriters.{IsInStep}
use light_livechat.Media.{MediaOutput, rtp, queued, fan_out}
use light_livechat.Media.Recipients.{fan_out_exact}
use light_livechat.Media.Ingress.{forward}
use light_livechat.Media.Ingress.Gate.{IsGated, forward-IsGated}
use light_livechat.Media.Feedback.{resend}
use light_livechat.Media.Feedback.Resending.{HoldsHeaders, Resent, resend-Resent}
use light_livechat.System.Tests.PacketRuns.{heap0, world0, room1, room2}

abbrev video_packet : List ℕ
video_packet = 128 ∷ 96 ∷ 0 ∷ 5 ∷ 0 ∷ 0 ∷ 0 ∷ 9 ∷ 0 ∷ 0 ∷ 0 ∷ 7 ∷ 16 ∷ 0 ∷ []

abbrev header : RtpHeader
header = record { pt = 96; marker = false; seq = 5; timestamp = 9; ssrc = 7; header_len = 12 }

room1-IsInStep : IsInStep room1
unfolding current_speaker switch_speaker
room1-IsInStep = (refl, refl)

room1_on : is_ptt room1.mode ≡ true
unfolding new_room
room1_on = refl

audio_fits : room1.audio_rewriter.virtual_ssrc < 4294967296
unfolding new_room switch_speaker new_audio new_rewriter
audio_fits = omega arith

video_fits : room1.video_rewriter.virtual_ssrc < 4294967296
unfolding new_room switch_speaker new_video new_rewriter
video_fits = omega arith

forward-IsGated_example :
    (w : World) × (outputs : List MediaOutput) × (forward header video_packet (heap0 0) room1 world0
      ≡ ok (w, outputs))
    × IsGated header video_packet (heap0 0) room1 world0 w outputs
forward-IsGated_example =
    forward-IsGated header video_packet (heap0 0) room1 world0 room1_on room1-IsInStep (omega arith)
      (omega arith) audio_fits video_fits

fan_out_exact_example :
    Memᴰ (queued 0 (rtp video_packet)) (fan_out heap0 "bob" room2 (rtp video_packet)) ↔ (
      (user : String) × (a : Arc) × Memᴰ (user, a) room2.participants
      × (user ≢ "bob")
      × (is_subscribe_ready (heap0 a) ≡ true)
      × (queued 0 (rtp video_packet) ≡ queued a (rtp video_packet)))
fan_out_exact_example =
    fan_out_exact heap0 "bob" room2 (rtp video_packet) (queued 0 (rtp video_packet))

-- A publisher with one packet in its cache.
abbrev cache5 : RtpCache
cache5 = record { slots = set (replicate 512 none) 5 (some video_packet) }

abbrev publisher : Participant
publisher = record (heap0 0) { rtp_cache = cache5; rtx_seq = 40 }

cache5-IsCache : IsCache cache5
cache5-IsCache =
    length-set (replicate 512 none) 5 (some video_packet)
    ∙ length-replicate {A = Option (List ℕ)} 512 none

abbrev nothing : Option (List ℕ)
nothing = none

get_or-replicate : (n i : ℕ) → get_or (replicate n nothing) i nothing ≡ nothing
get_or-replicate zero i = refl
get_or-replicate (suc n) zero = refl
get_or-replicate (suc n) (suc i) = get_or-replicate n i

some_packet : {p q : List ℕ} → ok (some p) ≡ ok (some q) → p ≡ q
some_packet e = some-injective (ok-injective e)

cached_in-slot :
    (seq : ℕ) (slot : Option (List ℕ)) (pkt : List ℕ)
    → cached_in seq slot ≡ ok (some pkt)
    → slot ≡ some pkt
unfolding cached_in
cached_in-slot seq none pkt e = let bad = ok-injective e in cc
cached_in-slot seq (some p) pkt e = elim (Bool-cases (leb 12 (length p))) [
  | inr short ↦ let bad = ok-injective (rw short at e) in cc
  | inl full ↦
      let e1 = rw (full, read16_ok p 2 (omega (arith, leb→le 12 (length p) full))) at e in
      elim (Bool-cases (at16 p 2 == seq)) [
        | inl same ↦ ap some (some_packet (rw same at e1))
        | inr differs ↦ let bad = ok-injective (rw differs at e1) in cc
      ]
]

cache5-HoldsHeaders : HoldsHeaders cache5
unfolding get_packet
cache5-HoldsHeaders seq pkt e = elim (ℕ_discrete 5 (seq % 512)) [
  | yes same ↦
      let slot = load-set_self (replicate 512 nothing) 5 (some video_packet) (omega arith) in
      let e1 : get_packet seq cache5 ≡ cached_in seq (some video_packet) =
        rw (sym same, slot) refl in
      let q : video_packet ≡ pkt =
        some-injective (cached_in-slot seq (some video_packet) pkt (sym e1 ∙ e)) in
      subst (λ (p : List ℕ). 12 + low_bits (at p 0) 4 * 4 ≤ length p) q (omega arith)
  | no apart ↦
      let slot =
        load-set_ne (replicate 512 nothing) 5 (seq % 512) (some video_packet) apart
        ∙ load_ok (replicate 512 nothing) (seq % 512) nothing (omega arith)
        ∙ ap (λ (o : Option (List ℕ)). ok o) (get_or-replicate 512 (seq % 512)) in
      let e1 : get_packet seq cache5 ≡ cached_in seq nothing = rw slot refl in
      let bad : nothing ≡ some pkt = cached_in-slot seq nothing pkt (sym e1 ∙ e) in
      absurd (not_some pkt bad)
]
  where
    not_some : (p : List ℕ) → nothing ≡ some p → ⊥
    not_some p q = cc

resend-Resent_example :
    (q : Participant) × (packets : List (List ℕ)) × (resend 1007 (5 ∷ 6 ∷ []) publisher
      ≡ ok (q, packets))
    × (q.rtp_cache ≡ cache5)
    × Resent 1007 cache5 40 (5 ∷ 6 ∷ []) packets
resend-Resent_example =
    resend-Resent 1007 (5 ∷ 6 ∷ []) publisher (omega arith) (omega arith) cache5-IsCache
      cache5-HoldsHeaders
