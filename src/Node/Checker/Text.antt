-- ===== src/Node/Checker/Text.antt =====
-- nodes/node/node.go: the message that `sendToSlack` makes of a notice of the checker.
use bitmarkd_broadcast_monit.Common.{
  suc, ◌≡◌, refl, ap, ◌∙◌, false, [], ◌∷◌, ◌++◌, append-nil, length, drop, Bytes, codes, flatten,
}
use bitmarkd_broadcast_monit.Clock.{Duration}
use bitmarkd_broadcast_monit.Recorder.Blocks.Summary.{BlocksSummary}
use bitmarkd_broadcast_monit.Recorder.Blocks.Text.Reading.{has_comma}
use bitmarkd_broadcast_monit.Recorder.Blocks.Text.Report.{
  report, read_report, read_report-summary_text,
}
use bitmarkd_broadcast_monit.Recorder.Blocks.Text.{summary_text}
use bitmarkd_broadcast_monit.Node.Checker.{Notice}

-- `fmt.Sprintf("%s %s", node, msg)`
unfoldable pub notice_text : (Duration → Bytes) → Notice → Bytes
notice_text duration_text (name, s) = flatten (name ∷ codes " " ∷ summary_text duration_text s ∷ [])

-- The message without the name and the space behind it.
abbrev pub message_of : Bytes → Bytes → Bytes
message_of name text = drop (suc (length name)) text

message_of-append : (name rest : Bytes) → message_of name (name ++ (codes " " ++ rest)) ≡ rest
message_of-append [] rest = refl
message_of-append (c ∷ cs) rest = message_of-append cs rest

-- Whatever package time writes for a duration, if there is no comma in it, what the checker sends
-- about the blocks of a node can be read back behind the name of the node: the number of blocks, the
-- text of the duration, the missing numbers, the begin and the end of each fork, and the number and
-- period of each long confirmation, all in their order.
pub read_report-notice_text :
    (duration_text : Duration → Bytes) (name : Bytes) (s : BlocksSummary)
    → has_comma (duration_text s.duration) ≡ false
    → read_report (message_of name (notice_text duration_text (name, s))) ≡ report duration_text s
unfolding notice_text
read_report-notice_text duration_text name s h =
    ap read_report (
      message_of-append name (summary_text duration_text s ++ [])
      ∙ append-nil (summary_text duration_text s))
    ∙ read_report-summary_text duration_text s h
