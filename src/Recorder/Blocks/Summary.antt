-- ===== src/Recorder/Blocks/Summary.antt =====
-- recorder/blocks.go: the summary of the recorded blocks, and whether it needs no notice.
-- A read of an element that a slice does not have is a panic, `none`.
use bitmarkd_broadcast_monit.Common.{
  ℕ, zero, suc, ◌+◌, ◌-◌, Bool, true, false, not, ◌&&◌, ◌||◌, Option, none, some, List, [], ◌∷◌,
  ◌++◌, ltb, leb, ◌==◌, if◌then◌else◌, length, get_or,
}
use bitmarkd_broadcast_monit.Common.Int.{pos}
use bitmarkd_broadcast_monit.Clock.{Time, Duration, zero_time, sub_time}
use bitmarkd_broadcast_monit.Recorder.Blocks.{
  data_length, BlockData, zero_block, is_empty, Fork, LongConfirm, Blocks, slice,
}

-- The variables of the loop of `findBlockStartAndEnd`.
pub record Extent : Type 0 where
  pub start_index : ℕ
  pub end_index : ℕ
  pub earliest : ℕ
  pub latest : ℕ

abbrev pub widen : ℕ → ℕ → Extent → Extent
widen i current e =
    if ltb current e.earliest
    then record e { start_index = i; earliest = current }
    else if ltb e.latest current
    then record e { end_index = i; latest = current }
    else e

unfoldable pub scan_extent : List BlockData → ℕ → Extent → Extent
scan_extent [] i e = e
scan_extent (b ∷ bs) i e =
    let rest = scan_extent bs (i + 1) (widen i b.number e) in if is_empty b then e else rest

abbrev tail_of : List BlockData → List BlockData
tail_of [] = []
tail_of (b ∷ bs) = bs

unfoldable pub find_block_start_and_end : List BlockData → ℕ × ℕ
unfolding scan_extent
find_block_start_and_end slots =
    let first = (get_or slots 0 zero_block).number in
    let e =
      scan_extent (tail_of slots) 1
        (record { start_index = 0; end_index = 0; earliest = first; latest = first }) in
    (e.start_index, e.end_index)

-- Either one slice, or the end of the array followed by its beginning.
abbrev pub between : List BlockData → ℕ × ℕ → List BlockData
between slots (s, e) =
    if leb s e then slice slots s (e + 1) else slice slots s data_length ++ slice slots 0 (e + 1)

unfoldable pub sort_array : List BlockData → List BlockData
sort_array slots = between slots (find_block_start_and_end slots)

abbrev pub contains : ℕ → List ℕ → Bool
contains n [] = false
contains n (k ∷ ks) = n == k || contains n ks

-- The first loop of `missingBlocks`; the keys of `mappings` are the elements of `keys`.
unfoldable pub collect_keys : List ℕ → List BlockData → List ℕ
collect_keys keys [] = keys
collect_keys keys (b ∷ bs) =
    collect_keys (if contains b.number keys then keys else keys ++ b.number ∷ []) bs

-- The second loop, from `i` on for `rounds` rounds.
unfoldable pub collect_missing : List ℕ → ℕ → ℕ → List ℕ
collect_missing keys i zero = []
collect_missing keys i (suc rounds) =
    let rest = collect_missing keys (i + 1) rounds in if contains i keys then rest else i ∷ rest

abbrev pub last_number : BlockData → List BlockData → ℕ
last_number b [] = b.number
last_number b (c ∷ cs) = last_number c cs

unfoldable pub missing_blocks : List BlockData → Option (ℕ × List ℕ)
unfolding collect_keys collect_missing
missing_blocks [] = none
missing_blocks (b ∷ bs) =
    let keys = collect_keys [] (b ∷ bs) in
    some (length keys, collect_missing keys b.number (last_number b bs - b.number))

abbrev since_first : Time → List BlockData → ℕ × List ℕ → Duration × ℕ × List ℕ
since_first now sorted (count, missing) =
    (sub_time now (get_or sorted 0 zero_block).received_time, count, missing)

abbrev summary_of : Time → List BlockData → Option (ℕ × List ℕ) → Option (Duration × ℕ × List ℕ)
summary_of now sorted none = none
summary_of now sorted (some r) = some (since_first now sorted r)

unfoldable pub summarize : Time → Blocks → Option (Duration × ℕ × List ℕ)
summarize now b =
    if zero_time == (get_or b.slots 0 zero_block).received_time
    then some (pos 0, 0, [])
    else let sorted = sort_array b.slots in summary_of now sorted (missing_blocks sorted)

pub record BlocksSummary : Type 0 where
  pub block_count : ℕ
  pub duration : Duration
  pub forks : List Fork
  pub long_confirms : List LongConfirm
  pub missing_blocks : List ℕ

abbrev to_summary : Blocks → Option (Duration × ℕ × List ℕ) → Option BlocksSummary
to_summary b none = none
to_summary b (some (d, count, missing)) = some (record {
  block_count = count;
  duration = d;
  forks = b.forks;
  long_confirms = b.long_confirms;
  missing_blocks = missing;
})

unfoldable pub summary : Time → Blocks → Option BlocksSummary
unfolding summarize
summary now b = to_summary b (summarize now b)

abbrev is_nil {ℓ} : {A : Type ℓ} → List A → Bool
is_nil [] = true
is_nil (x ∷ xs) = false

-- The loop of `Valid`: copies of the confirmations that are not reported, marked.
unfoldable pub report_new : List LongConfirm → List LongConfirm
report_new [] = []
report_new (c ∷ cs) =
    if not c.reported then record c { reported = true } ∷ report_new cs else report_new cs

-- `Valid` also changes the summary that it is called on.
unfoldable pub valid : BlocksSummary → Bool × BlocksSummary
unfolding report_new
valid s =
    if is_nil s.long_confirms && is_nil s.forks && is_nil s.missing_blocks
    then (true, s)
    else if not (is_nil s.missing_blocks)
    then (false, s)
    else let reported = report_new s.long_confirms in
      if not (is_nil reported) || not (is_nil s.forks)
      then (false, record s { long_confirms = reported })
      else (true, s)
