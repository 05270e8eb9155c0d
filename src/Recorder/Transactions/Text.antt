-- ===== src/Recorder/Transactions/Text.antt =====
-- recorder/transaction.go: the text of a summary. Package time's text of a duration and package
-- fmt's text of a float64 are parameters.
use bitmarkd_broadcast_monit.Common.{
  ◌*◌, ◌/◌, ◌≡◌, refl, Bool, true, false, not, [], ◌∷◌, ◌==◌, if◌then◌else◌, none, Bytes, codes,
  flatten,
}
use bitmarkd_broadcast_monit.Common.Int.{pos}
use bitmarkd_broadcast_monit.Clock.{Time, Duration}
use bitmarkd_broadcast_monit.Network.Address.{itoa}
use bitmarkd_broadcast_monit.Recorder.Transactions.{
  Transactions, TransactionSummary, find_received_item_from_index, summary, valid,
}
use bitmarkd_broadcast_monit.Recorder.{Ratio, no_drop}

-- `math.Floor(rate*10000) / 100`
abbrev pub drop_percent : Ratio → Ratio
drop_percent r = record { num = r.num * 10000 / r.den; den = 100 }

abbrev not_yet : Bytes
not_yet = codes "not receive any transaction yet"

abbrev not_lately : Bytes
not_lately = codes "not receive transaction for more than 2 hours"

-- The summary with no slot set.
abbrev quiet : Bool → TransactionSummary
quiet received = record {
  droprate = if received then record { num = 1; den = 1 } else no_drop;
  duration = pos 0;
  received = received;
  received_count = 0;
}

module _ (duration_text : Duration → Bytes) (float_text : Ratio → Bytes) where
  -- `String`
  unfoldable pub summary_text : TransactionSummary → Bytes
  summary_text t =
      if not t.received
      then not_yet
      else if 0 == t.received_count
      then not_lately
      else flatten (
          codes "earliest received to now "
          ∷ duration_text t.duration
          ∷ codes ", got "
          ∷ itoa t.received_count
          ∷ codes " transactions, drop percent: "
          ∷ float_text (drop_percent t.droprate)
          ∷ codes "%"
          ∷ [])

  quiet_cases :
      (received : Bool)
      → (summary_text (quiet received) ≡ (if received then not_lately else not_yet))
        × (valid (quiet received) ≡ not received)
  unfolding summary_text valid
  quiet_cases true = (refl, refl)
  quiet_cases false = (refl, refl)

  -- With no slot set, the text says whether a transaction ever came, and the summary is valid just
  -- if none did.
  pub summary-quiet :
      (now later : Time) (t : Transactions)
      → find_received_item_from_index t 0 ≡ none
      → (summary_text (summary now later t) ≡ (if t.received then not_lately else not_yet))
        × (valid (summary now later t) ≡ not t.received)
  unfolding summary
  summary-quiet now later t none_set =
      let e : summary now later t ≡ quiet t.received = rw (summary, none_set) refl in
      rw e (quiet_cases t.received)
