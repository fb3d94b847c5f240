-- ===== src/Room/Participant/TrackList.antt =====
-- src/room/participant.rs: searching, removing and muting in the list of tracks.
use light_livechat.Base.{
  ℕ, ◌≡◌, refl, ◌∙◌, subst, ◌≢◌, inl, inr, Bool, false, Option, none, some, List, [], ◌∷◌, ◌++◌,
  arith, ◌==◌, if◌then◌else◌, ==_iff, Bool-cases,
}
use light_livechat.Room.Participant.{Track, find_track, remove_first, mute_first}

-- No two tracks have the same SSRC.
abbrev pub Distinct : List Track → Type 0
Distinct [] = Unit
Distinct (t ∷ ts) = (find_track t.ssrc ts ≡ none) × Distinct ts

pub find-append :
    (ssrc : ℕ) (ts : List Track) (t : Track)
    → find_track ssrc (ts ++ (t ∷ [])) ≡ elim (find_track ssrc ts) [
      | none ↦ (if t.ssrc == ssrc then some t else none)
      | some u ↦ some u
    ]
unfolding find_track
find-append ssrc [] t = refl
find-append ssrc (u ∷ ts) t = elim (Bool-cases (u.ssrc == ssrc)) [
  | inl here ↦ rw here refl
  | inr there ↦ rw there (find-append ssrc ts t)
]

-- What a search that fails says of the list.
find_none :
    (ssrc : ℕ) (t : Track) (ts : List Track)
    → find_track ssrc (t ∷ ts) ≡ none
    → ((t.ssrc == ssrc) ≡ false) × (find_track ssrc ts ≡ none)
unfolding find_track
find_none ssrc t ts h = elim (Bool-cases (t.ssrc == ssrc)) [
  | inl here ↦ let q : some t ≡ none = rw here at h in cc
  | inr there ↦ (there, rw there at h)
]

find_behind :
    (ssrc : ℕ) (t : Track) (ts : List Track)
    → (t.ssrc == ssrc) ≡ false
    → find_track ssrc (t ∷ ts) ≡ find_track ssrc ts
unfolding find_track
find_behind ssrc t ts there = rw there refl

pub find-remove_ne :
    (ssrc other : ℕ) (ts : List Track)
    → other ≢ ssrc
    → find_track other (remove_first ssrc ts) ≡ find_track other ts
unfolding find_track remove_first
find-remove_ne ssrc other [] n = refl
find-remove_ne ssrc other (t ∷ ts) n = elim (Bool-cases (t.ssrc == ssrc)) [
  | inl here ↦ let miss : (t.ssrc == other) ≡ false = ground (arith, n) in rw (here, miss) refl
  | inr there ↦ elim (Bool-cases (t.ssrc == other)) [
    | inl hit ↦ rw (there, hit) refl
    | inr miss ↦ rw (there, miss) (find-remove_ne ssrc other ts n)
  ]
]

pub find-remove_self :
    (ssrc : ℕ) (ts : List Track) → Distinct ts → find_track ssrc (remove_first ssrc ts) ≡ none
unfolding find_track remove_first
find-remove_self ssrc [] d = refl
find-remove_self ssrc (t ∷ ts) (fresh, d) = elim (Bool-cases (t.ssrc == ssrc)) [
  | inl here ↦ rw here (subst (λ n. find_track n ts ≡ none) ((==_iff t.ssrc ssrc).0 here) fresh)
  | inr there ↦ rw (there, there) (find-remove_self ssrc ts d)
]

find-remove_none :
    (ssrc other : ℕ) (ts : List Track)
    → find_track other ts ≡ none
    → find_track other (remove_first ssrc ts) ≡ none
unfolding remove_first
find-remove_none ssrc other [] h = h
find-remove_none ssrc other (t ∷ ts) h =
    let (miss, rest) = find_none other t ts h in
    elim (Bool-cases (t.ssrc == ssrc)) [
      | inl here ↦ rw here rest
      | inr there ↦
          rw there
            (find_behind other t (remove_first ssrc ts) miss ∙ find-remove_none ssrc other ts rest)
    ]

pub find-mute_ne :
    (ssrc other : ℕ) (muted : Bool) (ts : List Track)
    → other ≢ ssrc
    → find_track other (mute_first ssrc muted ts) ≡ find_track other ts
unfolding find_track mute_first
find-mute_ne ssrc other muted [] n = refl
find-mute_ne ssrc other muted (t ∷ ts) n = elim (Bool-cases (t.ssrc == ssrc)) [
  | inl here ↦ let miss : (t.ssrc == other) ≡ false = ground (arith, n) in rw (here, miss) refl
  | inr there ↦ elim (Bool-cases (t.ssrc == other)) [
    | inl hit ↦ rw (there, hit) refl
    | inr miss ↦ rw (there, miss) (find-mute_ne ssrc other muted ts n)
  ]
]

abbrev pub with_muted : Bool → Option Track → Option Track
with_muted muted none = none
with_muted muted (some t) = some (record t { muted = muted })

pub find-mute_self :
    (ssrc : ℕ) (muted : Bool) (ts : List Track)
    → find_track ssrc (mute_first ssrc muted ts) ≡ with_muted muted (find_track ssrc ts)
unfolding find_track mute_first
find-mute_self ssrc muted [] = refl
find-mute_self ssrc muted (t ∷ ts) = elim (Bool-cases (t.ssrc == ssrc)) [
  | inl here ↦ rw (here, here) refl
  | inr there ↦ rw (there, there) (find-mute_self ssrc muted ts)
]

find-mute_none :
    (ssrc other : ℕ) (muted : Bool) (ts : List Track)
    → find_track other ts ≡ none
    → find_track other (mute_first ssrc muted ts) ≡ none
unfolding mute_first
find-mute_none ssrc other muted [] h = h
find-mute_none ssrc other muted (t ∷ ts) h =
    let (miss, rest) = find_none other t ts h in
    elim (Bool-cases (t.ssrc == ssrc)) [
      | inl here ↦ rw here (find_behind other (record t { muted = muted }) ts miss ∙ rest)
      | inr there ↦ rw there (
          find_behind other t (mute_first ssrc muted ts) miss
          ∙ find-mute_none ssrc other muted ts rest)
    ]

pub append-Distinct :
    (ts : List Track) (t : Track)
    → Distinct ts
    → find_track t.ssrc ts ≡ none
    → Distinct (ts ++ (t ∷ []))
append-Distinct [] t d h = (unfold find_track in refl, tt)
append-Distinct (u ∷ ts) t (fresh, d) h =
    let (miss, rest) = find_none t.ssrc u ts h in
    let apart : (t.ssrc == u.ssrc) ≡ false = ground (arith, miss) in
    (rw (find-append u.ssrc ts t, fresh, apart) refl, append-Distinct ts t d rest)

pub remove-Distinct : (ssrc : ℕ) (ts : List Track) → Distinct ts → Distinct (remove_first ssrc ts)
unfolding remove_first
remove-Distinct ssrc [] d = d
remove-Distinct ssrc (t ∷ ts) (fresh, d) = elim (Bool-cases (t.ssrc == ssrc)) [
  | inl here ↦ rw here d
  | inr there ↦ rw there (find-remove_none ssrc t.ssrc ts fresh, remove-Distinct ssrc ts d)
]

pub mute-Distinct :
    (ssrc : ℕ) (muted : Bool) (ts : List Track) → Distinct ts → Distinct (mute_first ssrc muted ts)
unfolding mute_first
mute-Distinct ssrc muted [] d = d
mute-Distinct ssrc muted (t ∷ ts) (fresh, d) = elim (Bool-cases (t.ssrc == ssrc)) [
  | inl here ↦ rw here (fresh, d)
  | inr there ↦ rw there (find-mute_none ssrc t.ssrc muted ts fresh, mute-Distinct ssrc muted ts d)
]
