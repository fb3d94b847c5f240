-- ===== src/Transport/Rtcp/Nack.antt =====
-- src/transport/udp/rtcp.rs: Generic NACKs (RFC 4585), `parse_rtcp_nack` and `expand_nack`.
use light_livechat.Base.{
  ℕ, zero, suc, ◌+◌, ◌*◌, ◌≤◌, ◌<◌, min, ◌≡◌, refl, sym, ap, ◌∙◌, ◌↔◌, ◌⊎◌, inl, inr, Bool, true,
  false, List, [], ◌∷◌, ◌++◌, arith, ℕ_discrete, if◌then◌else◌, le→leb, lt→leb, length, take,
  length-append, All, add16, bit, bytes16, bytes32, be16-bytes16, be32-bytes32, ok, read, read16,
  read_ok, read16_ok, read32_ok, read16_behind,
}
use mathlib.Core.List.{Memᴰ, append_assoc, append-nil}
use light_livechat.Transport.Rtcp.{
  NackItem, fci_loop, nack_items, nack_loop, parse_rtcp_nack, expand_from, expand_nack,
}

-- Sequence number `s` is asked for by one of the mask's bits `i .. i + n`.
abbrev Masked : (pid blp i n s : ℕ) → Type 0
Masked pid blp i n s =
    (k : ℕ) × (i ≤ k) × (k < i + n) × (bit blp k ≡ true) × (s ≡ add16 pid (k + 1))

mem_of_kept :
    (b : Bool) (x s : ℕ) (xs : List ℕ)
    → Memᴰ s (if b then x ∷ xs else xs)
    → ((b ≡ true) × (s ≡ x)) ⊎ Memᴰ s xs
mem_of_kept true x s xs (Memᴰ.head e) = inl (refl, e)
mem_of_kept true x s xs (Memᴰ.tail m) = inr m
mem_of_kept false x s xs m = inr m

kept_of_mem : (b : Bool) (x s : ℕ) (xs : List ℕ) → Memᴰ s xs → Memᴰ s (if b then x ∷ xs else xs)
kept_of_mem true x s xs m = Memᴰ.tail m
kept_of_mem false x s xs m = m

expand_from_sound : (pid blp n i s : ℕ) → Memᴰ s (expand_from pid blp n i) → Masked pid blp i n s
unfolding expand_from
expand_from_sound pid blp zero i s m = elim m [ ]
expand_from_sound pid blp (suc n) i s m =
    elim (mem_of_kept (bit blp i) (add16 pid (i + 1)) s (expand_from pid blp n (i + 1)) m) [
      | inl (set_, e) ↦ (i, omega arith, omega arith, set_, e)
      | inr later ↦
          let (k, lo, hi, set_, e) = expand_from_sound pid blp n (i + 1) s later in
          (k, omega arith, omega arith, set_, e)
    ]

expand_from-complete :
    (pid blp n i k : ℕ)
    → i ≤ k
    → k < i + n
    → bit blp k ≡ true
    → Memᴰ (add16 pid (k + 1)) (expand_from pid blp n i)
unfolding expand_from
expand_from-complete pid blp zero i k lo hi set_ = absurd (omega arith)
expand_from-complete pid blp (suc n) i k lo hi set_ = elim (ℕ_discrete i k) [
  | yes e ↦
      let at_i : bit blp i ≡ true = rw e set_ in
      rw at_i (Memᴰ.head (ap (λ (t : ℕ). add16 pid (t + 1)) (sym e)))
  | no ne ↦
      kept_of_mem (bit blp i) _ _ _
        (expand_from-complete pid blp n (i + 1) k (omega arith) (omega arith) set_)
]

-- The sequence numbers taken from a NACK are its PID and, for each bit i below 16 that is set in
-- the BLP, PID + i + 1 modulo 2^16; no others.
pub expand_nack_exact :
    (pid blp s : ℕ)
    → Memᴰ s (expand_nack pid blp)
      ↔ ((s ≡ pid) ⊎ ((i : ℕ) × (i < 16) × (bit blp i ≡ true) × (s ≡ add16 pid (i + 1))))
unfolding expand_nack
expand_nack_exact pid blp s = (sound, complete)
  where
    sound :
        Memᴰ s (pid ∷ expand_from pid blp 16 0)
        → (s ≡ pid) ⊎ ((i : ℕ) × (i < 16) × (bit blp i ≡ true) × (s ≡ add16 pid (i + 1)))
    sound (Memᴰ.head e) = inl e
    sound (Memᴰ.tail m) =
        let (k, _, hi, set_, e) = expand_from_sound pid blp 16 0 s m in
        inr (k, omega arith, set_, e)

    complete :
        (s ≡ pid) ⊎ ((i : ℕ) × (i < 16) × (bit blp i ≡ true) × (s ≡ add16 pid (i + 1)))
        → Memᴰ s (pid ∷ expand_from pid blp 16 0)
    complete (inl e) = Memᴰ.head e
    complete (inr (i, hi, set_, e)) =
        Memᴰ.tail (rw e (expand_from-complete pid blp 16 0 i (omega arith) (omega arith) set_))

-- A Generic NACK as RFC 4585 lays it out: the items of one media source.
abbrev pub Pair : Type 0
Pair = ℕ × ℕ

pub fci : List Pair → List ℕ
fci [] = []
fci ((pid, blp) ∷ ps) = bytes16 pid ++ (bytes16 blp ++ fci ps)

pub nack_packet : (sender media_ssrc : ℕ) → List Pair → List ℕ
nack_packet sender media_ssrc ps =
    (0x81 ∷ 205 ∷ [])
    ++ (bytes16 (length ps + 2) ++ (bytes32 sender ++ (bytes32 media_ssrc ++ fci ps)))

pub items_of : ℕ → List Pair → List NackItem
items_of ssrc [] = []
items_of ssrc ((pid, blp) ∷ ps) =
    record { media_ssrc = ssrc; pid = pid; blp = blp } ∷ items_of ssrc ps

abbrev pub IsWord16 : ℕ → Type 0
IsWord16 n = n < 65536

length-fci : (ps : List Pair) → length (fci ps) ≡ length ps * 4
unfolding fci
length-fci [] = refl
length-fci ((pid, blp) ∷ ps) = omega (arith, length-fci ps)

fci_loop_lem :
    (fuel ssrc : ℕ) (pre : List ℕ) (ps : List Pair) (buf : List ℕ)
    → buf ≡ pre ++ fci ps
    → All (λ (p : Pair). IsWord16 p.0 × IsWord16 p.1) ps
    → length ps < fuel
    → fci_loop fuel buf ssrc (length pre) (length buf) ≡ ok (items_of ssrc ps)
unfolding fci fci_loop items_of
fci_loop_lem zero ssrc pre ps buf whole small m = elim m [ ]
fci_loop_lem (suc fuel) ssrc pre [] buf whole small m =
    let end_ : length buf < length pre + 4 = omega (arith, ap length whole, length-append pre []) in
    rw (lt→leb (length pre + 4) (length buf) end_, fci_loop) refl
fci_loop_lem (suc fuel) ssrc pre ((pid, blp) ∷ ps) buf whole ((hp, hb), small) m =
    let len : length buf ≡ length pre + (4 + length (fci ps)) =
      omega (arith, ap length whole, length-append pre (bytes16 pid ++ (bytes16 blp ++ fci ps))) in
    let more : length pre + 4 ≤ length buf = omega arith in
    let r0 : read16 buf (length pre) ≡ ok pid =
      rw
        (read16_behind pre (fci ((pid, blp) ∷ ps)) buf whole (length pre) 0 (omega arith)
          (omega arith))
        (ap ok (be16-bytes16 pid hp)) in
    let r2 : read16 buf (length pre + 2) ≡ ok blp =
      rw (read16_behind pre (fci ((pid, blp) ∷ ps)) buf whole (length pre + 2) 2 refl (omega arith))
        (ap ok (be16-bytes16 blp hb)) in
    let four = bytes16 pid ++ bytes16 blp in
    let next : length pre + 4 ≡ length (pre ++ four) = omega (arith, length-append pre four) in
    let ih : fci_loop fuel buf ssrc (length pre + 4) (length buf) ≡ ok (items_of ssrc ps) =
      rw next (
        fci_loop_lem fuel ssrc (pre ++ four) ps buf (whole ∙ sym (append_assoc pre four (fci ps)))
          small (omega arith)) in
    rw (le→leb (length pre + 4) (length buf) more, fci_loop, r0, r2, ih) refl

module _ (sender ssrc : ℕ) (ps : List Pair) (h : ssrc < 4294967296) (n : length ps + 2 < 65536)
    (small : All (λ (p : Pair). IsWord16 p.0 × IsWord16 p.1) ps) where
  abbrev packet : List ℕ
  packet = nack_packet sender ssrc ps

  length-packet : length packet ≡ (length ps + 2 + 1) * 4
  unfolding nack_packet
  length-packet = omega (arith, length-fci ps)

  header_bytes :
      (read packet 0 ≡ ok 0x81) × (read packet 1 ≡ ok 205) × (read16 packet 2 ≡ ok (length ps + 2))
  unfolding nack_packet
  header_bytes = (
    read_ok packet 0 (omega arith),
    read_ok packet 1 (omega arith),
    rw (read16_ok packet 2 (omega arith)) (ap ok (be16-bytes16 (length ps + 2) n)),
  )

  items-packet :
      (pkt_len : ℕ) → pkt_len ≡ length packet → nack_items packet 0 pkt_len ≡ ok (items_of ssrc ps)
  unfolding nack_items nack_packet
  items-packet pkt_len e =
      let end_ : min (0 + pkt_len) (length packet) ≡ length packet = omega arith in
      let long : 12 ≤ length packet = omega (arith, length-packet) in
      let head = take 12 packet in
      rw
        (
          le→leb 12 (length packet) long,
          read32_ok packet 8 (omega arith),
          be32-bytes32 ssrc h,
          end_,
        )
        (fci_loop_lem (length packet + 1) ssrc head ps packet refl small
          (omega (arith, length-packet)))

  loop-packet : (fuel : ℕ) → nack_loop (suc (suc fuel)) packet 0 ≡ ok (items_of ssrc ps ++ [])
  unfolding nack_loop
  loop-packet fuel =
      let long : 4 ≤ length packet = omega (arith, length-packet) in
      let done : length packet < 0 + (length ps + 2 + 1) * 4 + 4 = omega (arith, length-packet) in
      rw
        (
          le→leb 4 (length packet) long,
          nack_loop,
          header_bytes.0,
          header_bytes.1,
          header_bytes.2,
          items-packet ((length ps + 2 + 1) * 4) (sym length-packet),
          lt→leb _ (length packet) done,
          nack_loop,
        )
        refl

-- `parse_rtcp_nack` decodes what RFC 4585 encodes: from a Generic NACK for one media source it
-- gets back that source with each pair of PID and BLP, in order, for fields that fit their widths.
pub parse-nack_packet :
    (sender ssrc : ℕ) (ps : List Pair)
    → ssrc < 4294967296
    → length ps + 2 < 65536
    → All (λ (p : Pair). IsWord16 p.0 × IsWord16 p.1) ps
    → parse_rtcp_nack (nack_packet sender ssrc ps) ≡ ok (items_of ssrc ps)
unfolding parse_rtcp_nack
parse-nack_packet sender ssrc ps h n small =
    let fuel : length (nack_packet sender ssrc ps) + 1 ≡ suc (suc (length ps * 4 + 11)) =
      omega (arith, length-packet sender ssrc ps h n small) in
    rw (fuel, ← append-nil (items_of ssrc ps))
      (loop-packet sender ssrc ps h n small (length ps * 4 + 11))
