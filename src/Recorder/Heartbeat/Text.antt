-- ===== src/Recorder/Heartbeat/Text.antt =====
-- recorder/heartbeat.go: the text of a summary. Package time's text of a duration and package fmt's
-- text of a float64 are parameters.
use bitmarkd_broadcast_monit.Common.{
  ℕ, ◌*◌, ◌/◌, ◌≡◌, refl, sym, ap, ◌∙◌, not, List, [], ◌∷◌, ◌++◌, ltb, ◌==◌, if◌then◌else◌,
  append_assoc, append-nil, Bytes, codes, flatten, Bool-cases, inl, inr,
}
use bitmarkd_broadcast_monit.Clock.{Time, Duration}
use bitmarkd_broadcast_monit.Network.Address.{itoa}
use bitmarkd_broadcast_monit.Recorder.Heartbeat.{
  Heartbeat, HeartbeatSummary, whole_intervals, droprate, summary,
}
use bitmarkd_broadcast_monit.Recorder.{Ratio, no_drop}

abbrev pub max_received_count : ℕ
max_received_count = 120

-- `math.Floor(rate*10000) / 100`
abbrev pub drop_percent : Ratio → Ratio
drop_percent r = record { num = r.num * 10000 / r.den; den = 100 }

-- The text ends so.
abbrev EndsWith : Bytes → Bytes → Type 0
EndsWith s end = (front : Bytes) × (s ≡ front ++ end)

flatten-EndsWith : (pieces : List Bytes) (end : Bytes) → EndsWith (flatten (pieces ++ end ∷ [])) end
flatten-EndsWith [] end = ([], append-nil end)
flatten-EndsWith (s ∷ ss) end =
    let (front, e) = flatten-EndsWith ss end in
    (s ++ front, ap (λ l. s ++ l) e ∙ sym (append_assoc s front end))

module _ (interval : ℕ) (duration_text : Duration → Bytes) (float_text : Ratio → Bytes) where
  abbrev clamp_count : ℕ → ℕ
  clamp_count n = if ltb max_received_count n then max_received_count else n

  unfoldable pub never_receive : HeartbeatSummary → Bytes
  never_receive h = flatten (
      codes "not receiving heartbeat for "
      ∷ duration_text h.duration
      ∷ codes ", expect to receive "
      ∷ itoa (clamp_count (whole_intervals interval h.duration))
      ∷ codes ", drop rate "
      ∷ codes "100%"
      ∷ [])

  unfoldable pub not_receiving_for_two_hours : HeartbeatSummary → Bytes
  not_receiving_for_two_hours h = flatten (
      codes "not receiving heartbeat for more than 2 hours, expected receive count: "
      ∷ itoa (whole_intervals interval h.duration)
      ∷ codes ", drop percent: "
      ∷ codes "100%"
      ∷ [])

  -- `String`
  unfoldable pub summary_text : HeartbeatSummary → Bytes
  unfolding never_receive not_receiving_for_two_hours
  summary_text h =
      if not h.received
      then never_receive h
      else if 0 == h.received_count
      then not_receiving_for_two_hours h
      else flatten (
          codes "earliest received time to now takes "
          ∷ duration_text h.duration
          ∷ codes ", received: "
          ∷ itoa h.received_count
          ∷ codes ", drop percent: "
          ∷ float_text (drop_percent h.droprate)
          ∷ codes "%"
          ∷ [])

  summary_text-quiet :
      (h : HeartbeatSummary) → h.received_count ≡ 0 → EndsWith (summary_text h) (codes "100%")
  unfolding summary_text never_receive not_receiving_for_two_hours
  summary_text-quiet h empty = elim (Bool-cases h.received) [
    | inl received ↦
        rw (received, empty)
          (flatten-EndsWith
            (codes "not receiving heartbeat for more than 2 hours, expected receive count: "
              ∷ itoa (whole_intervals interval h.duration)
              ∷ codes ", drop percent: "
              ∷ [])
            (codes "100%"))
    | inr never ↦ rw never (
        flatten-EndsWith
          (codes "not receiving heartbeat for "
            ∷ duration_text h.duration
            ∷ codes ", expect to receive "
            ∷ itoa (clamp_count (whole_intervals interval h.duration))
            ∷ codes ", drop rate "
            ∷ [])
          (codes "100%"))
  ]

  -- With no heartbeat on record, the text of the summary says a rate of 100%, and the rate in the
  -- summary is 0.
  pub summary-quiet :
      (now : Time) (h : Heartbeat)
      → h.entries ≡ []
      → EndsWith (summary_text (summary interval now h).0) (codes "100%")
        × ((summary interval now h).0.droprate ≡ no_drop)
  unfolding summary droprate
  summary-quiet now h empty =
      (summary_text-quiet (summary interval now h).0 (rw empty refl), rw empty refl)
