-- ===== src/Recorder/Blocks/Verdict.antt =====
-- recorder/blocks.go: when a summary is `Valid`, that is, needs no notice.
use bitmarkd_broadcast_monit.Common.{
  ◌≡◌, ◌≢◌, refl, ◌↔◌, true, false, some, List, [], ◌∷◌, arith, Bool-cases, subst, inl, inr,
}
use bitmarkd_broadcast_monit.Clock.{Time}
use bitmarkd_broadcast_monit.Recorder.Blocks.{LongConfirm, Blocks}
use bitmarkd_broadcast_monit.Recorder.Blocks.Invariant.{IsValid, ConfirmsFit}
use bitmarkd_broadcast_monit.Recorder.Blocks.Summary.{BlocksSummary, report_new, summary, valid}

abbrev pub AllReported : List LongConfirm → Type 0
AllReported [] = Unit {0}
AllReported (c ∷ cs) = (c.reported ≡ true) × AllReported cs

report_new-nil_iff : (cs : List LongConfirm) → (report_new cs ≡ []) ↔ AllReported cs
unfolding report_new
report_new-nil_iff [] = (λ _. tt, λ _. refl)
report_new-nil_iff (c ∷ cs) = ground (arith, report_new-nil_iff cs)

report_new-AllReported : (cs : List LongConfirm) → AllReported (report_new cs)
unfolding report_new
report_new-AllReported [] = tt
report_new-AllReported (c ∷ cs) = ground (arith, report_new-AllReported cs)

-- A summary is valid exactly when it has no missing block and no fork, and every late confirmation
-- in it is marked as reported.
pub valid_iff :
    (s : BlocksSummary)
    → ((valid s).0 ≡ true)
      ↔ ((s.missing_blocks ≡ []) × (s.forks ≡ []) × AllReported s.long_confirms)
unfolding valid
valid_iff s = ground (arith, report_new-nil_iff s.long_confirms)

after_valid :
    (r : BlocksSummary)
    → r.missing_blocks ≡ []
    → r.forks ≡ []
    → ((valid r).1.missing_blocks ≡ [])
      × ((valid r).1.forks ≡ [])
      × AllReported (valid r).1.long_confirms
unfolding valid
after_valid r m f =
    ground (arith, report_new-nil_iff r.long_confirms, report_new-AllReported r.long_confirms)

-- Where only late confirmations stood against a summary, a second call of `Valid` on it is content.
pub valid_again :
    (s : BlocksSummary) → s.missing_blocks ≡ [] → s.forks ≡ [] → (valid (valid s).1).0 ≡ true
valid_again s m f = (valid_iff (valid s).1).1 (after_valid s m f)

not-AllReported : (cs : List LongConfirm) → cs ≢ [] → ConfirmsFit cs → ¬ AllReported cs
not-AllReported [] h fit all = h refl
not-AllReported (c ∷ cs) h fit all = ground (arith, all.0, fit.1)

summary-long_confirms :
    (now : Time) (b : Blocks) {s : BlocksSummary}
    → summary now b ≡ some s
    → s.long_confirms ≡ b.long_confirms
unfolding summary
summary-long_confirms now b h = ground arith

-- Every summary of a record that holds a late confirmation is invalid, however often it has been
-- reported before: the mark that `Valid` sets does not reach the record.
pub valid-summary_repeats :
    (now : Time) (b : Blocks) {s : BlocksSummary}
    → IsValid b
    → b.long_confirms ≢ []
    → summary now b ≡ some s
    → (valid s).0 ≡ false
valid-summary_repeats now b {s} v h e = elim (Bool-cases (valid s).0) [
  | inl y ↦ absurd (
      not-AllReported b.long_confirms h v.confirms_fit
        (subst AllReported (summary-long_confirms now b e) ((valid_iff s).0 y).2))
  | inr n ↦ n
]
