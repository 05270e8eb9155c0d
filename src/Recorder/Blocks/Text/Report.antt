-- ===== src/Recorder/Blocks/Text/Report.antt =====
-- recorder/blocks.go: the text of a summary can be read back.
use bitmarkd_broadcast_monit.Common.{
  ℕ, ◌≡◌, refl, false, List, [], ◌++◌, length, map, drop, Bytes, codes,
}
use bitmarkd_broadcast_monit.Common.Int.{ℤ}
use bitmarkd_broadcast_monit.Clock.{Duration}
use bitmarkd_broadcast_monit.Network.Address.{itoa}
use bitmarkd_broadcast_monit.Recorder.Blocks.Summary.{BlocksSummary}
use bitmarkd_broadcast_monit.Recorder.Blocks.Text.Reading.{
  read_digits, read_digits-itoa, read_numbers, read_numbers-numbers_text, has_comma, read_word,
  read_word-append, span, read_fork_info, read_fork_info-fork_info, delay, read_confirm_info,
  read_confirm_info-confirm_info,
}
use bitmarkd_broadcast_monit.Recorder.Blocks.Text.{
  fork_info, confirm_info, numbers_text, summary_text,
}

-- What a reader of a notice learns.
pub record Report : Type 0 where
  pub counted : ℕ
  pub lasted : Bytes
  pub absent : List ℕ
  pub spans : List (ℕ × ℕ)
  pub delays : List (ℕ × ℤ)

abbrev pub report : (Duration → Bytes) → BlocksSummary → Report
report duration_text s = record {
  counted = s.block_count;
  lasted = duration_text s.duration;
  absent = s.missing_blocks;
  spans = map span s.forks;
  delays = map delay s.long_confirms;
}

-- A text is read from its front; the literals between its parts are skipped.
unfoldable pub read_report : Bytes → Report
read_report s =
    let (counted, s1) = read_digits (drop 8 s) 0 in
    let (lasted, s2) = read_word (drop 12 s1) in
    let (forks, s3) = read_digits (drop 9 s2) 0 in
    let (confirms, s4) = read_digits (drop 17 s3) 0 in
    let (absent, s5) = read_numbers (drop 18 s4) in
    let (spans, s6) = read_fork_info forks (drop 1 s5) in
    let (delays, s7) = read_confirm_info confirms (drop 1 s6) in
    record { counted = counted; lasted = lasted; absent = absent; spans = spans; delays = delays }

-- Whatever package time writes for a duration, if there is no comma in it, the text of a summary can
-- be read back: the number of blocks, the text of the duration, the missing numbers, the begin and
-- the end of each fork, and the number and period of each long confirmation, all in their order.
pub read_report-summary_text :
    (duration_text : Duration → Bytes) (s : BlocksSummary)
    → has_comma (duration_text s.duration) ≡ false
    → read_report (summary_text duration_text s) ≡ report duration_text s
unfolding read_report summary_text
read_report-summary_text duration_text s h =
    let t7 = confirm_info s.long_confirms ++ [] in
    let t6 = fork_info s.forks ++ (codes "\n" ++ t7) in
    let t5 = numbers_text s.missing_blocks ++ (codes "\n" ++ t6) in
    let t4 = codes " missing blocks: " ++ t5 in
    let t3 = itoa (length s.long_confirms) ++ (codes "," ++ t4) in
    let t2 = itoa (length s.forks) ++ (codes ", long confirms: " ++ t3) in
    let t1 = duration_text s.duration ++ (codes ", forks: " ++ t2) in
    rw (read_digits-itoa s.block_count 32 (codes "blolcks in " ++ t1) refl) (
      rw (read_word-append (duration_text s.duration) (codes " forks: " ++ t2) h) (
        rw (read_digits-itoa (length s.forks) 44 (codes " long confirms: " ++ t3) refl) (
          rw (read_digits-itoa (length s.long_confirms) 44 t4 refl) (
            rw (read_numbers-numbers_text s.missing_blocks (codes "\n" ++ t6)) (
              rw (read_fork_info-fork_info s.forks (codes "\n" ++ t7))
                (rw (read_confirm_info-confirm_info s.long_confirms []) refl))))))
