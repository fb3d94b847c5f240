-- ===== src/Room/Tests/RewriterRuns.antt =====
-- Runs of src/room/ptt_rewriter.rs on concrete packets.
use light_livechat.Base.{
  ℕ, ◌≡◌, refl, ◌⊎◌, true, false, none, some, List, [], ◌∷◌, arith, string_discrete, add16, sub16,
  add32, sub32, ok, read, read16, read32, at16, at32, write, write_all,
}
use light_livechat.Transport.Rtcp.{RtpHeader, parse_rtp_header}
use light_livechat.Room.Rewriter.{
  RewriteResult, PttRewriter, switch_speaker, is_current_speaker, rebase, virtual_seq, virtual_ts,
  overwrite, rewrite_packet, rewrite, reverse_seq,
}
use light_livechat.Room.Rewriter.Stream.{IsSound, IsBytes}
use light_livechat.Room.Rewriter.Speakers.{Sent, Held, rewrite_exact}
use light_livechat.Room.Rewriter.Continuity.{
  IsNumbered, switch-first_packet, rewrite-keeps_distance, reverse_seq-rewrite,
}

-- The speaker's sequence numbers wrap, and one packet is lost.
abbrev packet1 : List ℕ
packet1 = 128 ∷ 111 ∷ 255 ∷ 255 ∷ 0 ∷ 0 ∷ 0 ∷ 100 ∷ 0 ∷ 0 ∷ 0 ∷ 7 ∷ 1 ∷ 2 ∷ []

abbrev packet2 : List ℕ
packet2 = 128 ∷ 111 ∷ 0 ∷ 1 ∷ 0 ∷ 0 ∷ 7 ∷ 228 ∷ 0 ∷ 0 ∷ 0 ∷ 7 ∷ 3 ∷ []

abbrev sent1 : List ℕ
sent1 = 128 ∷ 239 ∷ 0 ∷ 10 ∷ 0 ∷ 0 ∷ 23 ∷ 72 ∷ 0 ∷ 0 ∷ 0 ∷ 42 ∷ 1 ∷ 2 ∷ []

abbrev sent2 : List ℕ
sent2 = 128 ∷ 111 ∷ 0 ∷ 12 ∷ 0 ∷ 0 ∷ 30 ∷ 200 ∷ 0 ∷ 0 ∷ 0 ∷ 42 ∷ 3 ∷ []

-- After the last packet of a speaker before.
abbrev before : PttRewriter
before = record {
  virtual_ssrc = 42;
  ts_guard_gap = 960;
  require_keyframe = false;
  speaker = none;
  origin_base_seq = 0;
  origin_base_ts = 0;
  virtual_base_seq = 1;
  virtual_base_ts = 960;
  last_virtual_seq = 9;
  last_virtual_ts = 5000;
  awaiting_first_packet = false;
  awaits_keyframe = false;
}

abbrev granted : PttRewriter
granted = record before { speaker = some "ann"; awaiting_first_packet = true }

abbrev after1 : PttRewriter
after1 = record {
  virtual_ssrc = 42;
  ts_guard_gap = 960;
  require_keyframe = false;
  speaker = some "ann";
  origin_base_seq = 65535;
  origin_base_ts = 100;
  virtual_base_seq = 10;
  virtual_base_ts = 5960;
  last_virtual_seq = 10;
  last_virtual_ts = 5960;
  awaiting_first_packet = false;
  awaits_keyframe = false;
}

abbrev after2 : PttRewriter
after2 = record after1 { last_virtual_seq = 12; last_virtual_ts = 7880 }

abbrev header1 : RtpHeader
header1 = record { pt = 111; marker = true; seq = 10; timestamp = 5960; ssrc = 42; header_len = 12 }

abbrev header2 : RtpHeader
header2 = record {
  pt = 111;
  marker = false;
  seq = 12;
  timestamp = 7880;
  ssrc = 42;
  header_len = 12;
}

before-IsSound : IsSound before
before-IsSound = record {
  ssrc_fits = omega arith;
  gap_fits = omega arith;
  origin_seq_fits = omega arith;
  origin_ts_fits = omega arith;
  base_seq_fits = omega arith;
  base_ts_fits = omega arith;
  last_seq_fits = omega arith;
  last_ts_fits = omega arith;
}

granted-IsSound : IsSound granted
granted-IsSound = record {
  ssrc_fits = omega arith;
  gap_fits = omega arith;
  origin_seq_fits = omega arith;
  origin_ts_fits = omega arith;
  base_seq_fits = omega arith;
  base_ts_fits = omega arith;
  last_seq_fits = omega arith;
  last_ts_fits = omega arith;
}

packet1-IsBytes : IsBytes packet1
packet1-IsBytes = (
  omega arith,
  (
    omega arith,
    (
      omega arith,
      (
        omega arith,
        (
          omega arith,
          (
            omega arith,
            (
              omega arith,
              (
                omega arith,
                (
                  omega arith,
                  (omega arith, (omega arith, (omega arith, (omega arith, (omega arith, tt))))),
                ),
              ),
            ),
          ),
        ),
      ),
    ),
  ),
)

packet2-IsBytes : IsBytes packet2
packet2-IsBytes = (
  omega arith,
  (
    omega arith,
    (
      omega arith,
      (
        omega arith,
        (
          omega arith,
          (
            omega arith,
            (
              omega arith,
              (
                omega arith,
                (omega arith, (omega arith, (omega arith, (omega arith, (omega arith, tt))))),
              ),
            ),
          ),
        ),
      ),
    ),
  ),
)

rewrite_exact_example :
    (s : PttRewriter) × (out : List ℕ) × (res : RewriteResult) × (rewrite packet1 "ann" false
        granted
      ≡ ok (s, out, res))
    × (Sent packet1 "ann" false granted s out res ⊎ Held packet1 "ann" false granted s out res)
rewrite_exact_example = rewrite_exact packet1 "ann" false granted (omega arith) (omega arith)

switch-first_packet_example :
    IsNumbered sent1
      (add16 before.last_virtual_seq 1)
      (add32 before.last_virtual_ts before.ts_guard_gap)
unfolding rewrite rewrite_packet overwrite rebase virtual_seq virtual_ts is_current_speaker
    write_all write read read16 read32 string_discrete switch_speaker parse_rtp_header
switch-first_packet_example =
    switch-first_packet "ann" "ann" false packet1 before after1 sent1 before-IsSound packet1-IsBytes
      refl

rewrite-keeps_distance_example :
    (sub16 header2.seq header1.seq ≡ sub16 (at16 packet2 2) (at16 packet1 2))
    × (sub32 header2.timestamp header1.timestamp ≡ sub32 (at32 packet2 4) (at32 packet1 4))
unfolding rewrite rewrite_packet overwrite rebase virtual_seq virtual_ts is_current_speaker
    write_all write read read16 read32 string_discrete switch_speaker parse_rtp_header
rewrite-keeps_distance_example =
    rewrite-keeps_distance packet1 packet2 "ann" "ann" false false granted after1 after2 sent1 sent2
      header1 header2 granted-IsSound packet1-IsBytes packet2-IsBytes refl refl refl refl

reverse_seq-rewrite_example : reverse_seq header1.seq after1 ≡ at16 packet1 2
unfolding rewrite rewrite_packet overwrite rebase virtual_seq virtual_ts is_current_speaker
    write_all write read read16 read32 string_discrete switch_speaker parse_rtp_header
reverse_seq-rewrite_example =
    reverse_seq-rewrite packet1 "ann" false granted after1 sent1 header1 granted-IsSound
      packet1-IsBytes refl refl
