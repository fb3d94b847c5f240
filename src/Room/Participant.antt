-- ===== src/Room/Participant.antt =====
-- src/room/participant.rs: a participant with its two sessions, its tracks and its packet cache. The
-- channels `ws_tx`, `egress_tx` and `egress_rx` carry messages out and are not part of the state.
pub mod Adding
pub mod Cache
pub mod TrackList
pub mod Tracks
use light_livechat.Base.{
  ℕ, ◌+◌, ◌%◌, String, Bool, false, Option, none, some, List, [], ◌∷◌, ◌++◌, leb, ◌==◌,
  if◌then◌else◌, length, replicate, add16, add32, Outcome, ok, read16, ◌>>=◌, ◌>>◌,
}
use light_livechat.Base.Slots.{load, store}
use light_livechat.Config.{rtp_cache_size, rtp_header_min_size}
use light_livechat.Transport.Srtp.{SrtpContext, new_srtp, install_key, is_ready}
use light_livechat.Transport.Twcc.{TwccRecorder, new_recorder}

pub data PcType : Type 0 where
  publish subscribe : PcType

pub data TrackKind : Type 0 where
  audio video : TrackKind

pub record Track : Type 0 where
  pub ssrc : ℕ  -- u32
  pub kind : TrackKind
  pub track_id : String
  pub rtx_ssrc : Option ℕ
  pub muted : Bool

-- A socket address, as it is printed.
abbrev pub SocketAddr : Type 0
SocketAddr = String

pub record MediaSession : Type 0 where
  pub ufrag : String
  pub ice_pwd : String
  pub address : Option SocketAddr
  pub inbound_srtp : SrtpContext
  pub outbound_srtp : SrtpContext

unfoldable pub new_session : (ufrag ice_pwd : String) → MediaSession
unfolding new_srtp
new_session ufrag ice_pwd = record {
  ufrag = ufrag;
  ice_pwd = ice_pwd;
  address = none;
  inbound_srtp = new_srtp;
  outbound_srtp = new_srtp;
}

unfoldable pub latch_address : SocketAddr → MediaSession → MediaSession
latch_address addr s = record s { address = some addr }

abbrev pub get_address : MediaSession → Option SocketAddr
get_address s = s.address

unfoldable pub is_media_ready : MediaSession → Bool
is_media_ready s = is_ready s.inbound_srtp

unfoldable pub install_srtp_keys :
    (accepts : List ℕ → List ℕ → Bool)
    → (client_key client_salt server_key server_salt : List ℕ) → MediaSession
    → MediaSession
install_srtp_keys accepts client_key client_salt server_key server_salt s = record s {
  inbound_srtp = install_key accepts client_key client_salt s.inbound_srtp;
  outbound_srtp = install_key accepts server_key server_salt s.outbound_srtp;
}

pub record RtpCache : Type 0 where
  pub slots : List (Option (List ℕ))

unfoldable pub new_cache : RtpCache
new_cache = record { slots = replicate rtp_cache_size none }

unfoldable pub store_packet : (seq : ℕ) → (plaintext : List ℕ) → RtpCache → Outcome RtpCache
store_packet seq plaintext c = do
  slots ← store c.slots (seq % rtp_cache_size) (some plaintext)
  ok (record { slots = slots })

-- `slot_seq`, for the logs.
abbrev seq_in : Option (List ℕ) → Outcome (Option ℕ)
seq_in none = ok none
seq_in (some pkt) =
    if leb rtp_header_min_size (length pkt) then (do seq ← read16 pkt 2; ok (some seq)) else ok none

unfoldable pub slot_seq : (seq : ℕ) → RtpCache → Outcome (Option ℕ)
slot_seq seq c = do slot ← load c.slots (seq % rtp_cache_size); seq_in slot

-- The packet in a slot, if it has the number that was asked for.
unfoldable pub cached_in : (seq : ℕ) → Option (List ℕ) → Outcome (Option (List ℕ))
cached_in seq none = ok none
cached_in seq (some pkt) =
    if leb rtp_header_min_size (length pkt)
    then (do cached_seq ← read16 pkt 2; if cached_seq == seq then ok (some pkt) else ok none)
    else ok none

unfoldable pub get_packet : (seq : ℕ) → RtpCache → Outcome (Option (List ℕ))
get_packet seq c = do slot ← load c.slots (seq % rtp_cache_size); cached_in seq slot

pub record Participant : Type 0 where
  pub user_id : String
  pub room_id : String
  pub joined_at : ℕ
  pub last_seen : ℕ
  pub publish_session : MediaSession  -- `publish`
  pub subscribe_session : MediaSession  -- `subscribe`
  pub tracks : List Track
  pub rtp_cache : RtpCache
  pub rtx_ssrc_counter : ℕ  -- u32
  pub rtx_seq : ℕ  -- u16
  pub twcc_recorder : TwccRecorder

unfoldable pub new_participant :
    (user_id room_id pub_ufrag pub_pwd sub_ufrag sub_pwd : String) → (joined_at : ℕ) → Participant
new_participant user_id room_id pub_ufrag pub_pwd sub_ufrag sub_pwd joined_at = record {
  user_id = user_id;
  room_id = room_id;
  joined_at = joined_at;
  last_seen = joined_at;
  publish_session = new_session pub_ufrag pub_pwd;
  subscribe_session = new_session sub_ufrag sub_pwd;
  tracks = [];
  rtp_cache = new_cache;
  rtx_ssrc_counter = 0;
  rtx_seq = 0;
  twcc_recorder = new_recorder;
}

unfoldable pub touch : (ts : ℕ) → Participant → Participant
touch ts p = record p { last_seen = ts }

abbrev pub session : PcType → Participant → MediaSession
session publish p = p.publish_session
session subscribe p = p.subscribe_session

-- `find(|t| t.ssrc == ssrc)`; `any` and `position` look for the same track.
unfoldable pub find_track : (ssrc : ℕ) → List Track → Option Track
find_track ssrc [] = none
find_track ssrc (t ∷ ts) =
    let later_ = find_track ssrc ts in if t.ssrc == ssrc then some t else later_

-- `media_ssrc.wrapping_add(1000).wrapping_add(offset)`, and the counter behind `fetch_add`.
unfoldable pub alloc_rtx_ssrc : (media_ssrc counter : ℕ) → ℕ × ℕ
alloc_rtx_ssrc media_ssrc counter = (add32 (add32 media_ssrc 1000) counter, add32 counter 1)

push_track : (ssrc : ℕ) → TrackKind → (track_id : String) → Participant → Participant
unfolding alloc_rtx_ssrc
push_track ssrc audio track_id p = record p {
  tracks =
      p.tracks
      ++ (record { ssrc = ssrc; kind = audio; track_id = track_id; rtx_ssrc = none; muted = false }
          ∷ []);
}
push_track ssrc video track_id p =
    let (rtx, counter) = alloc_rtx_ssrc ssrc p.rtx_ssrc_counter in
    record p {
      tracks =
          p.tracks
          ++ (record {
            ssrc = ssrc;
            kind = video;
            track_id = track_id;
            rtx_ssrc = some rtx;
            muted = false;
          }
              ∷ []);
      rtx_ssrc_counter = counter;
    }

unfoldable pub add_track : (ssrc : ℕ) → TrackKind → (track_id : String) → Participant → Participant
unfolding push_track
add_track ssrc kind track_id p = elim (find_track ssrc p.tracks) [
  | none ↦ push_track ssrc kind track_id p
  | some _ ↦ p
]

-- `fetch_add` gives the number before.
unfoldable pub next_rtx_seq : Participant → Participant × ℕ
next_rtx_seq p = (record p { rtx_seq = add16 p.rtx_seq 1 }, p.rtx_seq)

-- `tracks.remove(pos)` at the first track with the SSRC.
unfoldable pub remove_first : (ssrc : ℕ) → List Track → List Track
remove_first ssrc [] = []
remove_first ssrc (t ∷ ts) =
    let rest = remove_first ssrc ts in if t.ssrc == ssrc then ts else t ∷ rest

unfoldable pub remove_track : (ssrc : ℕ) → Participant → Participant × Option Track
remove_track ssrc p = (record p { tracks = remove_first ssrc p.tracks }, find_track ssrc p.tracks)

unfoldable pub mute_first : (ssrc : ℕ) → Bool → List Track → List Track
mute_first ssrc muted [] = []
mute_first ssrc muted (t ∷ ts) =
    let rest = mute_first ssrc muted ts in
    if t.ssrc == ssrc then record t { muted = muted } ∷ ts else t ∷ rest

kind_of : Option Track → Option TrackKind
kind_of none = none
kind_of (some t) = some t.kind

unfoldable pub set_track_muted : (ssrc : ℕ) → Bool → Participant → Participant × Option TrackKind
unfolding kind_of
set_track_muted ssrc muted p =
    (record p { tracks = mute_first ssrc muted p.tracks }, kind_of (find_track ssrc p.tracks))

abbrev pub get_tracks : Participant → List Track
get_tracks p = p.tracks

abbrev pub is_publish_ready : Participant → Bool
is_publish_ready p = is_media_ready p.publish_session

abbrev pub is_subscribe_ready : Participant → Bool
is_subscribe_ready p = is_media_ready p.subscribe_session
