-- ===== src/Transport/Twcc/Feedback.antt =====
-- src/transport/udp/twcc.rs: the feedback packet. A duration in microseconds is below 2^63, so
-- `as i64` does not change it.
pub mod Chunks
pub mod Deltas
pub mod Packet
pub mod Collect
pub mod Fields
pub mod Times
pub mod Told
pub mod Report
use Prim.Native.Nat.{bit_or}
use light_livechat.Base.{
  ℕ, zero, suc, ◌+◌, ◌-◌, ◌*◌, ◌/◌, ◌%◌, ◌^◌, min, Bool, true, false, not, ◌||◌, Option, none, some,
  List, [], ◌∷◌, ◌++◌, ltb, leb, ◌==◌, if◌then◌else◌, length, get_elem?, get_or, set, replicate, u8,
  u16, add16, sub16, shr, align4, bytes16, bytes32, Outcome, ok, out_of_fuel, ◌>>=◌, ◌>>◌,
}
use light_livechat.Base.Ints.{ℤ, pos, negsuc, negate}
use light_livechat.Config.{twcc_recorder_capacity, rtcp_pt_rtpfb}
use light_livechat.Transport.Twcc.{
  ArrivalEntry, TwccRecorder, get_arrival, advance_base, pending_count,
}

pub data PacketStatus : Type 0 where
  not_received small_delta large_delta : PacketStatus

-- `status as u16`.
abbrev pub code : PacketStatus → ℕ
code not_received = 0
code small_delta = 1
code large_delta = 2

-- `duration_since(…).as_micros()`, 0 for an earlier time.
abbrev pub micros_since : (arrival earlier : ℕ) → ℕ
micros_since arrival earlier = (arrival - earlier) / 1000

-- In units of 250 µs: against the packet before, or against the reference time.
unfoldable pub delta_250us : (base_time : ℕ) → (prev : Option ℕ) → (arrival : ℕ) → ℤ
delta_250us base_time (some prev) arrival =
    if leb prev arrival
    then pos (micros_since arrival prev / 250)
    else negate (micros_since prev arrival / 250)
delta_250us base_time none arrival =
    let offset_250us = micros_since arrival base_time / 250 in
    pos (offset_250us - offset_250us / 256 * 256)

-- A delta out of the large range is a large one as well.
unfoldable pub status_of : ℤ → PacketStatus
status_of (pos n) = if leb n 255 then small_delta else large_delta
status_of (negsuc n) = large_delta

pub record Collected : Type 0 where
  pub statuses : List PacketStatus
  pub deltas : List ℤ
  pub first_arrival : Option ℕ

first_of : Option ArrivalEntry → Option ℕ → Option ℕ
first_of none first = first
first_of (some e) none = some e.arrival
first_of (some e) (some first) = some first

prev_of : Option ArrivalEntry → Option ℕ → Option ℕ
prev_of none prev = prev
prev_of (some e) prev = some e.arrival

-- One entry's pushes.
unfoldable pub push_entry :
    (base_time : ℕ) → (prev : Option ℕ) → Option ArrivalEntry → Collected → Collected
push_entry base_time prev none c = record c { statuses = not_received ∷ c.statuses }
push_entry base_time prev (some e) c =
    let delta = delta_250us base_time prev e.arrival in
    record c { statuses = status_of delta ∷ c.statuses; deltas = delta ∷ c.deltas }

-- `for i in 0..pkt_status_count`, from `i` on, with `n` rounds left.
unfoldable pub collect :
    (n base_seq i base_time : ℕ) → (first prev : Option ℕ) → TwccRecorder → Outcome Collected
unfolding first_of prev_of
collect zero base_seq i base_time first prev r =
    ok (record { statuses = []; deltas = []; first_arrival = first })
collect (suc n) base_seq i base_time first prev r = do
  e ← get_arrival (add16 base_seq i) r
  c ← collect n base_seq (i + 1) base_time (first_of e first) (prev_of e prev) r
  ok (push_entry base_time prev e c)

-- `for slot in 0..7`, from `slot` on, with `n` rounds left.
unfoldable pub fill_chunk : (n slot i : ℕ) → List PacketStatus → (chunk : ℕ) → ℕ
fill_chunk zero slot i statuses chunk = chunk
fill_chunk (suc n) slot i statuses chunk =
    fill_chunk n (slot + 1) i statuses
      (bit_or chunk (code (get_or statuses (i + slot) not_received) * 2 ^ (12 - slot * 2)))

-- `while i < statuses.len()`.
unfoldable pub chunk_loop : (fuel i : ℕ) → List PacketStatus → Outcome (List ℕ)
chunk_loop zero i statuses = out_of_fuel
chunk_loop (suc fuel) i statuses = elim (ltb i (length statuses)) [
  | true ↦ do
    chunks ← chunk_loop fuel (i + 7) statuses
    ok (fill_chunk 7 0 i statuses 0xc000 ∷ chunks)
  | false ↦ ok []
]

unfoldable pub encode_status_chunks : List PacketStatus → Outcome (List ℕ)
encode_status_chunks statuses = chunk_loop (length statuses + 1) 0 statuses

-- `clamp(0, 255) as u8`.
unfoldable pub small_byte : ℤ → ℕ
small_byte (pos n) = min n 255
small_byte (negsuc n) = 0

-- `clamp(-8192, 8191) as i16`, as its 16 bits.
unfoldable pub large_bits : ℤ → ℕ
large_bits (pos n) = min n 8191
large_bits (negsuc n) = 65536 - min (n + 1) 8192

delta_bytes : PacketStatus → ℤ → List ℕ
delta_bytes not_received d = []
delta_bytes small_delta d = small_byte d ∷ []
delta_bytes large_delta d = bytes16 (large_bits d)

-- `for status in statuses`; a status with no delta left writes nothing.
unfoldable pub deltas_from : List PacketStatus → List ℤ → (delta_idx : ℕ) → List ℕ
unfolding delta_bytes
deltas_from [] deltas idx = []
deltas_from (not_received ∷ statuses) deltas idx = deltas_from statuses deltas idx
deltas_from (small_delta ∷ statuses) deltas idx = elim (get_elem? deltas idx) [
  | none ↦ deltas_from statuses deltas idx
  | some d ↦ (small_byte d ∷ []) ++ deltas_from statuses deltas (idx + 1)
]
deltas_from (large_delta ∷ statuses) deltas idx = elim (get_elem? deltas idx) [
  | none ↦ deltas_from statuses deltas idx
  | some d ↦ bytes16 (large_bits d) ++ deltas_from statuses deltas (idx + 1)
]

unfoldable pub encode_recv_deltas : List PacketStatus → List ℤ → List ℕ
encode_recv_deltas statuses deltas = deltas_from statuses deltas 0

abbrev pub chunk_bytes : List ℕ → List ℕ
chunk_bytes [] = []
chunk_bytes (chunk ∷ chunks) = bytes16 chunk ++ chunk_bytes chunks

-- `buf.last_mut()`, on a buffer that is not empty.
set_last : List ℕ → ℕ → List ℕ
set_last buf v = set buf (length buf - 1) v

-- The buffer before its padding.
unfoldable pub feedback_content :
    (media_ssrc base_seq status_count reference_time fb_count padded_body : ℕ)
    → (need_padding : Bool) → (chunks deltas : List ℕ) → List ℕ
feedback_content media_ssrc base_seq status_count reference_time fb_count padded_body need_padding
      chunks deltas =
    (if need_padding then 0xaf else 0x8f)
    ∷ rtcp_pt_rtpfb
    ∷ (bytes16 (u16 (padded_body / 4))
        ++ bytes32 1
        ++ bytes32 media_ssrc
        ++ bytes16 base_seq
        ++ bytes16 status_count
        ++ (u8 (shr reference_time 16)
              ∷ u8 (shr reference_time 8)
              ∷ u8 reference_time
              ∷ fb_count
              ∷ chunk_bytes chunks
            ++ deltas))

-- The buffer is filled up with zeros; the last byte counts the padding.
unfoldable pub assemble_feedback :
    (media_ssrc base_seq status_count reference_time fb_count : ℕ)
    → (chunks deltas : List ℕ) → List ℕ
unfolding set_last
assemble_feedback media_ssrc base_seq status_count reference_time fb_count chunks deltas =
    let payload_len = 8 + length chunks * 2 + length deltas in
    let body_len = 12 + payload_len in
    let padded_body = align4 body_len in
    let need_padding = ltb body_len padded_body in
    let total_len = 4 + padded_body in
    let content =
      feedback_content media_ssrc base_seq status_count reference_time fb_count padded_body
        need_padding chunks deltas in
    let buf = content ++ replicate (total_len - length content) 0 in
    if need_padding then set_last buf (u8 (total_len - (4 + body_len))) else buf

-- Behind the collection of the arrivals.
unfoldable pub finish_feedback :
    (media_ssrc base_time : ℕ)
    → Collected
    → (first_arrival : Option ℕ) → TwccRecorder
    → Outcome (TwccRecorder × Option (List ℕ))
finish_feedback media_ssrc base_time c none r = ok (r, none)
finish_feedback media_ssrc base_time c (some first_arrival) r = do
  let reference_time = micros_since first_arrival base_time / 250 / 256 % 16777216
  let base_seq = r.pending_base_seq
  let status_count = pending_count r
  chunks ← encode_status_chunks c.statuses
  let deltas = encode_recv_deltas c.statuses c.deltas
  let buf =
      assemble_feedback media_ssrc base_seq status_count reference_time r.fb_pkt_count chunks deltas
  ok (
    advance_base (add16 base_seq status_count)
        (record r { fb_pkt_count = (r.fb_pkt_count + 1) % 256 }),
    some buf,
  )

-- Behind `recorder.base_time?`.
unfoldable pub feedback_since :
    (media_ssrc : ℕ)
    → (base_time : Option ℕ) → TwccRecorder
    → Outcome (TwccRecorder × Option (List ℕ))
feedback_since media_ssrc none r = ok (r, none)
feedback_since media_ssrc (some base_time) r =
    if ltb twcc_recorder_capacity (pending_count r)
    then ok (advance_base (sub16 r.max_seq 100) r, none)
    else (do
      c ← collect (pending_count r) r.pending_base_seq 0 base_time none none r
      finish_feedback media_ssrc base_time c c.first_arrival r)

unfoldable pub build_twcc_feedback :
    (media_ssrc : ℕ) → TwccRecorder → Outcome (TwccRecorder × Option (List ℕ))
build_twcc_feedback media_ssrc r =
    if not r.started || pending_count r == 0
    then ok (r, none)
    else feedback_since media_ssrc r.base_time r
