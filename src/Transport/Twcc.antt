-- ===== src/Transport/Twcc.antt =====
-- src/transport/udp/twcc.rs: the arrival times of a publisher's packets. An `Instant` is a number of
-- nanoseconds.
pub mod Recorder
pub mod Extension
pub mod Feedback
use light_livechat.Base.{
  ℕ, ◌+◌, ◌%◌, Bool, true, false, ◌&&◌, Option, none, some, List, ltb, ◌==◌, if◌then◌else◌,
  replicate, add16, sub16, Outcome, ok, ◌>>=◌, ◌>>◌,
}
use light_livechat.Base.Slots.{load, store, rem}
use light_livechat.Config.{twcc_recorder_capacity}

pub record ArrivalEntry : Type 0 where
  pub twcc_seq : ℕ  -- u16
  pub arrival : ℕ

pub record TwccRecorder : Type 0 where
  pub arrivals : List (Option ArrivalEntry)
  pub capacity : ℕ
  pub pending_base_seq : ℕ  -- u16
  pub max_seq : ℕ  -- u16
  pub started : Bool
  pub count : ℕ  -- u64
  pub base_time : Option ℕ
  pub fb_pkt_count : ℕ  -- u8

unfoldable pub new_recorder : TwccRecorder
new_recorder = record {
  arrivals = replicate twcc_recorder_capacity none;
  capacity = twcc_recorder_capacity;
  pending_base_seq = 0;
  max_seq = 0;
  started = false;
  count = 0;
  base_time = none;
  fb_pkt_count = 0;
}

-- The part of `record` behind the write of the slot.
unfoldable pub note_seq : (twcc_seq arrival : ℕ) → TwccRecorder → TwccRecorder
note_seq twcc_seq arrival r =
    if r.started
    then (let diff = sub16 twcc_seq r.max_seq in
        if ltb 0 diff && ltb diff 0x8000 then record r { max_seq = twcc_seq } else r)
    else record r {
      started = true;
      pending_base_seq = twcc_seq;
      max_seq = twcc_seq;
      base_time = some arrival;
    }

-- `record`; `count` wraps as release builds do.
unfoldable pub record_arrival : (twcc_seq arrival : ℕ) → TwccRecorder → Outcome TwccRecorder
record_arrival twcc_seq arrival r = do
  idx ← rem twcc_seq r.capacity
  arrivals ← store r.arrivals idx (some (record { twcc_seq = twcc_seq; arrival = arrival }))
  ok (
      note_seq twcc_seq arrival
        (record r { arrivals = arrivals; count = (r.count + 1) % 18446744073709551616 }))

-- `filter(|e| e.twcc_seq == twcc_seq)`.
unfoldable pub matching : ℕ → Option ArrivalEntry → Option ArrivalEntry
matching twcc_seq none = none
matching twcc_seq (some e) = if e.twcc_seq == twcc_seq then some e else none

-- `get`.
unfoldable pub get_arrival : ℕ → TwccRecorder → Outcome (Option ArrivalEntry)
get_arrival twcc_seq r = do
  idx ← rem twcc_seq r.capacity
  slot ← load r.arrivals idx
  ok (matching twcc_seq slot)

unfoldable pub advance_base : ℕ → TwccRecorder → TwccRecorder
advance_base new_base r = record r { pending_base_seq = new_base }

unfoldable pub pending_count : TwccRecorder → ℕ
pending_count r = if r.started then add16 (sub16 r.max_seq r.pending_base_seq) 1 else 0
