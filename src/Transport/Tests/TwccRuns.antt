-- ===== src/Transport/Tests/TwccRuns.antt =====
-- Runs of src/transport/udp/twcc.rs on concrete packets.
use light_livechat.Base.{ℕ, ◌%◌, ◌≡◌, refl, ◌≢◌, Option, none, some, List, [], ◌∷◌, arith, ok}
use light_livechat.Base.Ints.{ℤ, pos, negsuc}
use light_livechat.Transport.Twcc.{TwccRecorder, new_recorder, record_arrival, get_arrival}
use light_livechat.Transport.Twcc.Recorder.{
  IsSound, new_recorder-IsSound, entry, recorded, recorded-IsSound, get-record,
}
use light_livechat.Transport.Twcc.Extension.{parse_twcc_seq}
use light_livechat.Transport.Twcc.Extension.Lookup.{
  Element, padding, element, extended, find_seq, parse_twcc_seq-extended,
}
use light_livechat.Transport.Twcc.Feedback.{
  PacketStatus, not_received, small_delta, large_delta, build_twcc_feedback, status_of,
}
use light_livechat.Transport.Twcc.Feedback.Deltas.{Timed, none_left, lost, arrived}
use light_livechat.Transport.Twcc.Feedback.Report.{FeedbackOutcome, build_twcc_feedback_exact}

-- A recorder with one arrival.
abbrev one_arrival : TwccRecorder
one_arrival = recorded 65535 3000000 new_recorder

one_arrival-IsSound : IsSound one_arrival
one_arrival-IsSound = recorded-IsSound 65535 3000000 new_recorder (omega arith) new_recorder-IsSound

abbrev statuses : List PacketStatus
statuses = small_delta ∷ not_received ∷ large_delta ∷ []

abbrev deltas : List ℤ
deltas = pos 17 ∷ negsuc 9000 ∷ []

statuses-Timed : Timed statuses deltas
unfolding status_of
statuses-Timed =
    arrived small_delta (pos 17) refl (lost (arrived large_delta (negsuc 9000) refl none_left))

abbrev elements : List Element
elements = padding ∷ element 1 (200 ∷ []) ∷ padding ∷ element 6 (1 ∷ 44 ∷ []) ∷ padding ∷ []

abbrev header : List ℕ
header = 144 ∷ 96 ∷ 1 ∷ 2 ∷ 0 ∷ 0 ∷ 0 ∷ 100 ∷ 0 ∷ 0 ∷ 0 ∷ 7 ∷ []

get-record_example :
    (s : TwccRecorder) × (record_arrival 7 3000000 new_recorder ≡ ok s)
    × IsSound s
    × (get_arrival 7 s ≡ ok (some (entry 7 3000000)))
    × ((other : ℕ) → other ≢ 7 → other % 8192 ≡ 7 % 8192 → get_arrival other s ≡ ok none)
    × ((other : ℕ) → other % 8192 ≢ 7 % 8192 → get_arrival other s ≡ get_arrival other new_recorder)
get-record_example = get-record 7 3000000 new_recorder new_recorder-IsSound (omega arith)

build_twcc_feedback_exact_example :
    (s : TwccRecorder) × (result : Option (List ℕ)) × (build_twcc_feedback 7 one_arrival
      ≡ ok (s, result))
    × FeedbackOutcome one_arrival 7 s result
build_twcc_feedback_exact_example =
    build_twcc_feedback_exact 7 one_arrival (omega arith) one_arrival-IsSound

parse_twcc_seq-extended_example :
    parse_twcc_seq (extended header 2 elements (9 ∷ [])) 6 ≡ ok (find_seq 6 elements)
parse_twcc_seq-extended_example =
    parse_twcc_seq-extended header (9 ∷ []) 2 6 elements refl refl (omega arith) refl (
      tt,
      (
        (omega arith, omega arith, omega arith, omega arith),
        (tt, ((omega arith, omega arith, omega arith, omega arith), (tt, tt))),
      ),
    )
