-- ===== src/Room/Rewriter.antt =====
-- src/room/ptt_rewriter.rs: one continuous RTP stream from the speakers of a push-to-talk room. The
-- mutex makes each method one step: a method takes the rewriter and returns the new one.
pub mod Stream
pub mod Speakers
pub mod Keyframe
pub mod Continuity
use light_livechat.Base.{
  ℕ, String, ite, Bool, true, false, Option, none, some, List, ltb, if◌then◌else◌, string_discrete,
  length, add16, sub16, add32, sub32, with_bit7, bytes16, bytes32, Outcome, ok, ◌>>=◌, ◌>>◌, read,
  read16, read32, write, write_all,
}

pub data RewriteResult : Type 0 where
  rewritten pending_keyframe skip : RewriteResult

-- `PttRewriter` with the fields of its `RewriteState`.
pub record PttRewriter : Type 0 where
  pub virtual_ssrc : ℕ  -- u32
  pub ts_guard_gap : ℕ  -- u32
  pub require_keyframe : Bool
  pub speaker : Option String
  pub origin_base_seq : ℕ  -- u16
  pub origin_base_ts : ℕ  -- u32
  pub virtual_base_seq : ℕ  -- u16
  pub virtual_base_ts : ℕ  -- u32
  pub last_virtual_seq : ℕ  -- u16
  pub last_virtual_ts : ℕ  -- u32
  pub awaiting_first_packet : Bool
  pub awaits_keyframe : Bool  -- `pending_keyframe`

abbrev pub ts_guard_gap_audio : ℕ
ts_guard_gap_audio = 960

abbrev pub ts_guard_gap_video : ℕ
ts_guard_gap_video = 3000

-- `new`; the virtual SSRC is what `rand_u32` gives.
unfoldable pub new_rewriter : (virtual_ssrc ts_guard_gap : ℕ) → Bool → PttRewriter
new_rewriter virtual_ssrc ts_guard_gap require_keyframe = record {
  virtual_ssrc = virtual_ssrc;
  ts_guard_gap = ts_guard_gap;
  require_keyframe = require_keyframe;
  speaker = none;
  origin_base_seq = 0;
  origin_base_ts = 0;
  virtual_base_seq = 0;
  virtual_base_ts = 0;
  last_virtual_seq = 0;
  last_virtual_ts = 0;
  awaiting_first_packet = false;
  awaits_keyframe = false;
}

unfoldable pub new_audio : ℕ → PttRewriter
unfolding new_rewriter
new_audio ssrc = new_rewriter ssrc ts_guard_gap_audio false

unfoldable pub new_video : ℕ → PttRewriter
unfolding new_rewriter
new_video ssrc = new_rewriter ssrc ts_guard_gap_video true

unfoldable pub switch_speaker : String → PttRewriter → PttRewriter
switch_speaker user r = record r {
  speaker = some user;
  awaiting_first_packet = true;
  awaits_keyframe = r.require_keyframe;
}

unfoldable pub clear_speaker : PttRewriter → PttRewriter
clear_speaker r = record r {
  speaker = none;
  awaiting_first_packet = false;
  awaits_keyframe = false;
}

is_user : String → Option String → Bool
is_user user none = false
is_user user (some speaker) = ite (string_discrete speaker user) true false

unfoldable pub is_current_speaker : String → PttRewriter → Bool
unfolding is_user
is_current_speaker user r = is_user user r.speaker

-- The bases at the first packet of a speaker: its own numbers, and the numbers after the last ones
-- that were sent.
unfoldable pub rebase : (orig_seq orig_ts : ℕ) → PttRewriter → PttRewriter
rebase orig_seq orig_ts r =
    if r.awaiting_first_packet
    then record r {
      origin_base_seq = orig_seq;
      origin_base_ts = orig_ts;
      virtual_base_seq = add16 r.last_virtual_seq 1;
      virtual_base_ts = add32 r.last_virtual_ts r.ts_guard_gap;
      awaiting_first_packet = false;
    }
    else r

-- `virtual_seq` and `virtual_ts`, from the bases.
unfoldable pub virtual_seq : ℕ → PttRewriter → ℕ
virtual_seq orig_seq r = add16 (sub16 orig_seq r.origin_base_seq) r.virtual_base_seq

unfoldable pub virtual_ts : ℕ → PttRewriter → ℕ
virtual_ts orig_ts r = add32 (sub32 orig_ts r.origin_base_ts) r.virtual_base_ts

-- The header is overwritten in place: SSRC, sequence number, timestamp, and the marker of a first
-- packet.
unfoldable pub overwrite : List ℕ → (ssrc seq ts : ℕ) → (is_first : Bool) → Outcome (List ℕ)
overwrite buf ssrc seq ts is_first = do
  buf1 ← write_all buf 8 (bytes32 ssrc)
  buf2 ← write_all buf1 2 (bytes16 seq)
  buf3 ← write_all buf2 4 (bytes32 ts)
  if is_first then read buf3 1 >>= (λ b1. write buf3 1 (with_bit7 b1)) else ok buf3

-- The part of `rewrite` behind its early returns.
unfoldable pub rewrite_packet :
    List ℕ → PttRewriter → Outcome (PttRewriter × List ℕ × RewriteResult)
rewrite_packet buf r = do
  orig_seq ← read16 buf 2
  orig_ts ← read32 buf 4
  let s = rebase orig_seq orig_ts r
  let seq = virtual_seq orig_seq s
  let ts = virtual_ts orig_ts s
  out ← overwrite buf r.virtual_ssrc seq ts r.awaiting_first_packet
  ok (record s { last_virtual_seq = seq; last_virtual_ts = ts }, out, rewritten)

unfoldable pub rewrite :
    List ℕ
    → (sender : String) → (is_keyframe : Bool) → PttRewriter
    → Outcome (PttRewriter × List ℕ × RewriteResult)
rewrite buf sender is_keyframe r =
    if ltb (length buf) 12
    then ok (r, buf, skip)
    else (if is_current_speaker sender r
        then (if r.awaits_keyframe
            then (if is_keyframe
                then rewrite_packet buf (record r { awaits_keyframe = false })
                else ok (r, buf, pending_keyframe))
            else rewrite_packet buf r)
        else ok (r, buf, skip))

unfoldable pub reverse_seq : ℕ → PttRewriter → ℕ
reverse_seq seq r = add16 (sub16 seq r.virtual_base_seq) r.origin_base_seq
