-- ===== src/Transport/Twcc/Feedback/Chunks.antt =====
-- src/transport/udp/twcc.rs: what a receiver reads in the status chunks.
use light_livechat.Base.{
  ℕ, zero, suc, ◌+◌, ◌-◌, ◌/◌, ◌%◌, ◌≤◌, ◌<◌, ◌≡◌, refl, ap, ◌∙◌, inl, inr, Bool, true, false, ◌&&◌,
  List, [], ◌∷◌, arith, ltb, leb, ◌==◌, ltb→lt, leb→le, ==_iff, Bool-cases, ltb_false→le, length,
  get_or, All, ok,
}
use light_livechat.Transport.Twcc.Feedback.{
  PacketStatus, not_received, small_delta, large_delta, code, fill_chunk, chunk_loop,
  encode_status_chunks,
}

-- The symbols of a chunk of 7 two-bit symbols, first packet first.
abbrev pub symbols : List ℕ → List ℕ
symbols [] = []
symbols (c ∷ cs) =
    (c / 4096 % 4)
    ∷ (c / 1024 % 4)
    ∷ (c / 256 % 4)
    ∷ (c / 64 % 4)
    ∷ (c / 16 % 4)
    ∷ (c / 4 % 4)
    ∷ (c % 4)
    ∷ symbols cs

-- A status vector of two-bit symbols: the top bits are 11.
abbrev pub IsVector : ℕ → Type 0
IsVector c = (49152 ≤ c) × (c < 65536)

abbrev status_at : List PacketStatus → ℕ → PacketStatus
status_at statuses i = get_or statuses i not_received

all_statuses : (PacketStatus → Bool) → Bool
all_statuses p = p not_received && (p small_delta && p large_delta)

all_statuses_holds :
    (p : PacketStatus → Bool) → all_statuses p ≡ true → (s : PacketStatus) → p s ≡ true
unfolding all_statuses
all_statuses_holds p h not_received = grind arith
all_statuses_holds p h small_delta = grind arith
all_statuses_holds p h large_delta = grind arith

-- The chunk of seven statuses.
chunk_of : (a b c d e f g : PacketStatus) → ℕ
unfolding fill_chunk
chunk_of a b c d e f g = fill_chunk 7 0 0 (a ∷ b ∷ c ∷ d ∷ e ∷ f ∷ g ∷ []) 0xc000

reads_back : (a b c d e f g : PacketStatus) → Bool
unfolding chunk_of
reads_back a b c d e f g =
    let w = chunk_of a b c d e f g in
    (w / 4096 % 4 == code a)
    && ((w / 1024 % 4 == code b)
        && ((w / 256 % 4 == code c)
            && ((w / 64 % 4 == code d)
                && ((w / 16 % 4 == code e)
                    && ((w / 4 % 4 == code f)
                        && ((w % 4 == code g) && (leb 49152 w && ltb w 65536)))))))

all_read_back :
    all_statuses (λ a. all_statuses (λ b. all_statuses (λ c.
      all_statuses (λ d.
        all_statuses (λ e. all_statuses (λ f. all_statuses (λ g. reads_back a b c d e f g)))))))
    ≡ true
unfolding all_statuses reads_back chunk_of fill_chunk
all_read_back = refl

-- What the check says of one chunk.
chunk_reads : (a b c d e f g : PacketStatus) → reads_back a b c d e f g ≡ true
chunk_reads a b c d e f g =
    all_statuses_holds _
      (all_statuses_holds _
        (all_statuses_holds _
          (all_statuses_holds _
            (all_statuses_holds _ (all_statuses_holds _ (all_statuses_holds _ all_read_back a) b) c)
            d)
          e)
        f)
      g

and_parts : (a b : Bool) → (a && b) ≡ true → (a ≡ true) × (b ≡ true)
and_parts true true h = (refl, refl)
and_parts true false h = cc
and_parts false true h = cc
and_parts false false h = cc

abbrev Reads : (w a b c d e f g : ℕ) → Type 0
Reads w a b c d e f g =
    (w / 4096 % 4 ≡ a)
    × (w / 1024 % 4 ≡ b)
    × (w / 256 % 4 ≡ c)
    × (w / 64 % 4 ≡ d)
    × (w / 16 % 4 ≡ e)
    × (w / 4 % 4 ≡ f)
    × (w % 4 ≡ g)
    × IsVector w

chunk_of-Reads :
    (a b c d e f g : PacketStatus)
    → Reads (chunk_of a b c d e f g) (code a) (code b) (code c) (code d) (code e) (code f) (code g)
unfolding reads_back
chunk_of-Reads a b c d e f g =
    let w = chunk_of a b c d e f g in
    let (ha, t1) = and_parts _ _ (chunk_reads a b c d e f g) in
    let (hb, t2) = and_parts _ _ t1 in
    let (hc, t3) = and_parts _ _ t2 in
    let (hd, t4) = and_parts _ _ t3 in
    let (he, t5) = and_parts _ _ t4 in
    let (hf, t6) = and_parts _ _ t5 in
    let (hg, t7) = and_parts _ _ t6 in
    let (low, high) = and_parts _ _ t7 in
    (
      (==_iff _ _).0 ha,
      (==_iff _ _).0 hb,
      (==_iff _ _).0 hc,
      (==_iff _ _).0 hd,
      (==_iff _ _).0 he,
      (==_iff _ _).0 hf,
      (==_iff _ _).0 hg,
      (leb→le 49152 w low, ltb→lt w 65536 high),
    )

fill_lem :
    (i : ℕ) (ss : List PacketStatus)
    → fill_chunk 7 0 i ss 0xc000
      ≡ chunk_of
          (status_at ss (i + 0))
          (status_at ss (i + 1))
          (status_at ss (i + 2))
          (status_at ss (i + 3))
          (status_at ss (i + 4))
          (status_at ss (i + 5))
          (status_at ss (i + 6))
unfolding fill_chunk chunk_of
fill_lem i ss = refl

-- The symbol at `j` of a first chunk and the rest.
symbol_lem :
    (ss : List PacketStatus) (i w : ℕ) (cs : List ℕ)
    → Reads w
        (code (status_at ss (i + 0)))
        (code (status_at ss (i + 1)))
        (code (status_at ss (i + 2)))
        (code (status_at ss (i + 3)))
        (code (status_at ss (i + 4)))
        (code (status_at ss (i + 5)))
        (code (status_at ss (i + 6)))
    → ((j : ℕ) → get_or (symbols cs) j 0 ≡ code (status_at ss (i + 7 + j)))
    → (j : ℕ) → get_or (symbols (w ∷ cs)) j 0 ≡ code (status_at ss (i + j))
symbol_lem ss i w cs (a, b, c, d, e, f, g, _) rest zero = a
symbol_lem ss i w cs (a, b, c, d, e, f, g, _) rest (suc zero) = b
symbol_lem ss i w cs (a, b, c, d, e, f, g, _) rest (suc (suc zero)) = c
symbol_lem ss i w cs (a, b, c, d, e, f, g, _) rest (suc (suc (suc zero))) = d
symbol_lem ss i w cs (a, b, c, d, e, f, g, _) rest (suc (suc (suc (suc zero)))) = e
symbol_lem ss i w cs (a, b, c, d, e, f, g, _) rest (suc (suc (suc (suc (suc zero))))) = f
symbol_lem ss i w cs (a, b, c, d, e, f, g, _) rest (suc (suc (suc (suc (suc (suc zero)))))) = g
symbol_lem ss i w cs (a, b, c, d, e, f, g, _) rest (suc (suc (suc (suc (suc (suc (suc j))))))) =
    let q : i + 7 + j ≡ i + suc (suc (suc (suc (suc (suc (suc j)))))) = omega arith in
    rw (← q) (rest j)

get_or-beyond {ℓ} : {A : Type ℓ} (xs : List A) (i : ℕ) (d : A) → length xs ≤ i → get_or xs i d ≡ d
get_or-beyond [] i d h = refl
get_or-beyond (x ∷ xs) zero d h = absurd (omega arith)
get_or-beyond (x ∷ xs) (suc i) d h = get_or-beyond xs i d (omega arith)

abbrev Encoded : (fuel i : ℕ) → List PacketStatus → Type 0
Encoded fuel i ss =
    (cs : List ℕ) × (chunk_loop fuel i ss ≡ ok cs)
    × (length cs ≡ (length ss - i + 6) / 7)
    × All IsVector cs
    × ((j : ℕ) → get_or (symbols cs) j 0 ≡ code (status_at ss (i + j)))

chunk_loop_lem :
    (fuel i : ℕ) (ss : List PacketStatus) → 0 < fuel → length ss < i + fuel → Encoded fuel i ss
unfolding chunk_loop
chunk_loop_lem zero i ss p h = elim p [ ]
chunk_loop_lem (suc fuel) i ss p h = elim (Bool-cases (ltb i (length ss))) [
  | inr done ↦
      let beyond : length ss ≤ i = ltb_false→le i (length ss) done in
      (
        [],
        rw (done, chunk_loop) refl,
        omega arith,
        tt,
        λ j. rw (get_or-beyond ss (i + j) not_received (omega arith)) refl,
      )
  | inl more ↦
      let inside : i < length ss = ltb→lt i (length ss) more in
      let (cs, e, n, v, reads) = chunk_loop_lem fuel (i + 7) ss (omega arith) (omega arith) in
      let w = fill_chunk 7 0 i ss 0xc000 in
      let r =
        chunk_of-Reads (status_at ss (i + 0)) (status_at ss (i + 1)) (status_at ss (i + 2))
          (status_at ss (i + 3)) (status_at ss (i + 4)) (status_at ss (i + 5))
          (status_at ss (i + 6)) in
      let vector : IsVector w = rw (fill_lem i ss) r.7 in
      (
        w ∷ cs,
        rw (more, chunk_loop, e) refl,
        omega arith,
        (vector, v),
        symbol_lem ss i w cs (rw (fill_lem i ss) r) reads,
      )
]

-- Every list of statuses is encoded, in as few chunks of 7 as hold it. Each chunk has the mark of a
-- vector of two-bit symbols, and the symbol that a receiver reads at position j is the status of
-- packet j, and `not received` behind the last packet.
pub encode_status_chunks_exact :
    (statuses : List PacketStatus)
    → (chunks : List ℕ) × (encode_status_chunks statuses ≡ ok chunks)
      × (length chunks ≡ (length statuses + 6) / 7)
      × All IsVector chunks
      × ((j : ℕ) → get_or (symbols chunks) j 0 ≡ code (get_or statuses j not_received))
unfolding encode_status_chunks
encode_status_chunks_exact statuses =
    let (cs, e, n, v, reads) =
      chunk_loop_lem (length statuses + 1) 0 statuses (omega arith) (omega arith) in
    (
      cs,
      e,
      omega arith,
      v,
      λ j. reads j ∙ ap (λ k. code (get_or statuses k not_received)) (omega arith),
    )
