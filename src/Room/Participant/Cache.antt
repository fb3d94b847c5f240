-- ===== src/Room/Participant/Cache.antt =====
-- src/room/participant.rs: the ring of a publisher's packets that NACKs are answered from.
use light_livechat.Base.{
  ℕ, ◌%◌, ◌≤◌, ◌<◌, ◌≡◌, refl, sym, ap, ◌∙◌, ◌≢◌, inl, inr, false, Option, none, some, List, arith,
  ◌==◌, if◌then◌else◌, le→leb, ==_iff, Bool-cases, length, set, length-set, length-replicate, ok,
  at16, read16_ok,
}
use light_livechat.Base.Slots.{store_ok, load-set_self, load-set_ne}
use light_livechat.Config.{rtp_cache_size}
use light_livechat.Room.Participant.{RtpCache, new_cache, store_packet, cached_in, get_packet}

-- The ring has its 512 slots.
abbrev pub IsCache : RtpCache → Type 0
IsCache c = length c.slots ≡ 512

pub new_cache-IsCache : IsCache new_cache
unfolding new_cache
new_cache-IsCache = length-replicate {A = Option (List ℕ)} rtp_cache_size none

-- A packet with a full header that has this sequence number.
abbrev pub IsPacket : (seq : ℕ) → List ℕ → Type 0
IsPacket seq pkt = (12 ≤ length pkt) × (at16 pkt 2 ≡ seq)

cached_lem :
    (seq other : ℕ) (pkt : List ℕ)
    → IsPacket seq pkt
    → cached_in other (some pkt) ≡ ok (if seq == other then some pkt else none)
unfolding cached_in
cached_lem seq other pkt (long, numbered) = elim (Bool-cases (seq == other)) [
  | inl same ↦
      rw (le→leb 12 (length pkt) long, read16_ok pkt 2 (omega (arith, long)), numbered, same) refl
  | inr differs ↦
      rw (le→leb 12 (length pkt) long, read16_ok pkt 2 (omega (arith, long)), numbered, differs)
        refl
]

-- Storing a packet under its sequence number returns on a sound cache and keeps it sound. Afterwards
-- that number finds the packet, the other numbers of its slot (512 apart) find nothing, and every
-- other number finds what it found before.
pub get-store :
    (seq : ℕ) (pkt : List ℕ) (c : RtpCache)
    → IsCache c
    → IsPacket seq pkt
    → (d : RtpCache) × (store_packet seq pkt c ≡ ok d)
      × IsCache d
      × (get_packet seq d ≡ ok (some pkt))
      × ((other : ℕ) → other ≢ seq → other % 512 ≡ seq % 512 → get_packet other d ≡ ok none)
      × ((other : ℕ) → other % 512 ≢ seq % 512 → get_packet other d ≡ get_packet other c)
unfolding store_packet get_packet
get-store seq pkt c v p =
    let inside : seq % 512 < length c.slots = omega (arith, v) in
    let d : RtpCache = record { slots = set c.slots (seq % 512) (some pkt) } in
    (
      d,
      rw (store_ok c.slots (seq % 512) (some pkt) inside) refl,
      length-set c.slots (seq % 512) (some pkt) ∙ v,
      rw (load-set_self c.slots (seq % 512) (some pkt) inside) (
          cached_lem seq seq pkt p
          ∙ ap (λ b. ok (if b then some pkt else none)) ((==_iff seq seq).1 refl)),
      (λ other n same.
          let differ : (seq == other) ≡ false = ground arith in
          rw (same, load-set_self c.slots (seq % 512) (some pkt) inside)
            (cached_lem seq other pkt p ∙ ap (λ b. ok (if b then some pkt else none)) differ)),
      (λ other apart.
          rw (load-set_ne c.slots (seq % 512) (other % 512) (some pkt) (λ q. apart (sym q))) refl),
    )
