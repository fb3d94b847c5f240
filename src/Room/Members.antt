-- ===== src/Room/Members.antt =====
-- src/room/room.rs, `Room`: the participants of a room, with the indices by ufrag and by address. An
-- `Arc<Participant>` is an address in the heap, so that the maps share one participant; a heap is
-- total, since an `Arc` is never dangling.
pub mod Consistent
pub mod Removal
pub mod Latching
pub mod Joining
pub mod Lifetimes
use light_livechat.Base.{
  ℕ, min, String, inl, inr, ite, Option, none, some, List, [], ◌∷◌, ℕ_discrete, leb, if◌then◌else◌,
  string_discrete, length,
}
use light_livechat.Base.DashMap.{DashMap}
use light_livechat.Base.TextMap.{find, put, delete}
use light_livechat.Config.{RoomMode, room_default_capacity, room_max_capacity}
use light_livechat.Errors.{LightError, LightResult, room_full, already_in_room, not_in_room}
use light_livechat.Room.Floor.{FloorState, new_floor}
use light_livechat.Room.Rewriter.{PttRewriter, new_audio, new_video}
use light_livechat.Room.Participant.{
  Participant, PcType, publish, subscribe, MediaSession, SocketAddr, session, latch_address,
  get_address, find_track,
}

abbrev pub Arc : Type 0
Arc = ℕ

abbrev pub Heap : Type 0
Heap = Arc → Participant

unfoldable pub update : Arc → Participant → Heap → Heap
update a p heap b = ite (ℕ_discrete a b) p (heap b)

pub record Room : Type 0 where
  pub id : String
  pub name : String
  pub capacity : ℕ
  pub mode : RoomMode
  pub created_at : ℕ
  pub floor : FloorState
  pub audio_rewriter : PttRewriter
  pub video_rewriter : PttRewriter
  pub participants : DashMap String Arc
  pub by_ufrag : DashMap String (Arc × PcType)
  pub by_addr : DashMap SocketAddr (Arc × PcType)

abbrev pub unwrap_or : Option ℕ → ℕ → ℕ
unwrap_or none d = d
unwrap_or (some n) d = n

-- The virtual SSRCs are random.
unfoldable pub new_room :
    (id name : String)
    → (capacity : Option ℕ) → RoomMode
    → (created_at audio_ssrc video_ssrc : ℕ) → Room
new_room id name capacity mode created_at audio_ssrc video_ssrc = record {
  id = id;
  name = name;
  capacity = min (unwrap_or capacity room_default_capacity) room_max_capacity;
  mode = mode;
  created_at = created_at;
  floor = new_floor;
  audio_rewriter = new_audio audio_ssrc;
  video_rewriter = new_video video_ssrc;
  participants = [];
  by_ufrag = [];
  by_addr = [];
}

abbrev pub delete_addr :
    {V : Type 0} → Option SocketAddr → DashMap SocketAddr V → DashMap SocketAddr V
delete_addr none m = m
delete_addr (some addr) m = delete addr m

unfoldable pub add_participant : Heap → Arc → Room → LightResult Room
add_participant heap a r =
    let p = heap a in
    if leb r.capacity (length r.participants)
    then inl room_full
    else (elim (find p.user_id r.participants) [
      | some _ ↦ inl already_in_room
      | none ↦ inr (record r {
        by_ufrag =
            put p.subscribe_session.ufrag (a, subscribe)
              (put p.publish_session.ufrag (a, publish) r.by_ufrag);
        participants = put p.user_id a r.participants;
      })
    ])

-- The indices without a participant's entries.
abbrev pub forget : Participant → Room → Room
forget p r = record r {
  by_ufrag = delete p.subscribe_session.ufrag (delete p.publish_session.ufrag r.by_ufrag);
  by_addr =
      delete_addr (get_address p.subscribe_session)
        (delete_addr (get_address p.publish_session) r.by_addr);
}

unfoldable pub remove_participant : Heap → (user_id : String) → Room → LightResult (Room × Arc)
remove_participant heap user_id r = elim (find user_id r.participants) [
  | none ↦ inl not_in_room
  | some a ↦ inr (forget (heap a) (record r { participants = delete user_id r.participants }), a)
]

-- The index behind the removal of an address that has changed.
unfoldable pub rebind :
    {V : Type 0}
    → (old : Option SocketAddr) → (addr : SocketAddr) → DashMap SocketAddr V
    → DashMap SocketAddr V
rebind none addr m = m
rebind (some old) addr m = ite (string_discrete old addr) m (delete old m)

abbrev pub set_address : PcType → SocketAddr → Participant → Participant
set_address publish addr p = record p { publish_session = latch_address addr p.publish_session }
set_address subscribe addr p = record p {
  subscribe_session = latch_address addr p.subscribe_session;
}

-- `latch`: the session's address lives in the shared participant.
unfoldable pub latch :
    (ufrag : String) → (addr : SocketAddr) → Heap → Room → Heap × Room × Option (Arc × PcType)
latch ufrag addr heap r = elim (find ufrag r.by_ufrag) [
  | none ↦ (heap, r, none)
  | some (a, pc) ↦ (
    update a (set_address pc addr (heap a)) heap,
    record r {
      by_addr = put addr (a, pc) (rebind (get_address (session pc (heap a))) addr r.by_addr);
    },
    some (a, pc),
  )
]

abbrev pub get_participant : String → Room → Option Arc
get_participant user_id r = find user_id r.participants

abbrev pub get_by_ufrag : String → Room → Option (Arc × PcType)
get_by_ufrag ufrag r = find ufrag r.by_ufrag

abbrev pub get_by_addr : SocketAddr → Room → Option (Arc × PcType)
get_by_addr addr r = find addr r.by_addr

abbrev pub participant_count : Room → ℕ
participant_count r = length r.participants

abbrev pub keys : {V : Type 0} → DashMap String V → List String
keys [] = []
keys ((k, _) ∷ m) = k ∷ keys m

abbrev pub values : {V : Type 0} → DashMap String V → List V
values [] = []
values ((_, v) ∷ m) = v ∷ values m

-- The order of the lists is the maps'; DashMap promises none.
abbrev pub member_ids : Room → List String
member_ids r = keys r.participants

abbrev pub all_participants : Room → List Arc
all_participants r = values r.participants

unfoldable pub others_in : (exclude_user : String) → DashMap String Arc → List Arc
others_in exclude_user [] = []
others_in exclude_user ((k, a) ∷ m) =
    ite (string_discrete k exclude_user) (others_in exclude_user m) (a ∷ others_in exclude_user m)

abbrev pub other_participants : (exclude_user : String) → Room → List Arc
other_participants exclude_user r = others_in exclude_user r.participants

unfoldable pub find_publisher : Heap → (ssrc : ℕ) → List Arc → Option Arc
find_publisher heap ssrc [] = none
find_publisher heap ssrc (a ∷ arcs) =
    let rest = find_publisher heap ssrc arcs in
    elim (find_track ssrc (heap a).tracks) [ none ↦ rest | some _ ↦ some a ]

abbrev pub find_by_track_ssrc : Heap → (ssrc : ℕ) → Room → Option Arc
find_by_track_ssrc heap ssrc r = find_publisher heap ssrc (all_participants r)
