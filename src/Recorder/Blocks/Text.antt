-- ===== src/Recorder/Blocks/Text.antt =====
-- recorder/blocks.go: the text of a summary, which is what a notice says.
-- Package time's text of a duration is a parameter.
pub mod Reading
pub mod Report
mod Tests
use bitmarkd_broadcast_monit.Common.{ℕ, suc, List, [], ◌∷◌, ◌++◌, length, Bytes, codes, flatten}
use bitmarkd_broadcast_monit.Common.Int.{ℤ, pos, negsuc}
use bitmarkd_broadcast_monit.Clock.{Duration}
use bitmarkd_broadcast_monit.Network.Address.{itoa}
use bitmarkd_broadcast_monit.Recorder.Blocks.{Fork, LongConfirm}
use bitmarkd_broadcast_monit.Recorder.Blocks.Summary.{BlocksSummary}

-- `%d` of a signed number.
unfoldable pub int_text : ℤ → Bytes
int_text (pos n) = itoa n
int_text (negsuc n) = codes "-" ++ itoa (suc n)

-- The loop of `forkInfo`.
unfoldable pub forks_text : List Fork → Bytes
forks_text [] = []
forks_text (f ∷ fs) =
    flatten (itoa f.begin ∷ codes " to " ∷ itoa f.end ∷ codes " " ∷ forks_text fs ∷ [])

unfoldable pub fork_info : List Fork → Bytes
fork_info [] = []
fork_info (f ∷ fs) = codes "forks info: " ++ forks_text (f ∷ fs)

-- The loop of `confirmInfo`. `%d` of a period is its number of nanoseconds.
unfoldable pub confirms_text : List LongConfirm → Bytes
confirms_text [] = []
confirms_text (c ∷ cs) = flatten (
    codes "block "
    ∷ itoa c.block_number
    ∷ codes " takes "
    ∷ int_text c.period
    ∷ codes " "
    ∷ confirms_text cs
    ∷ [])

unfoldable pub confirm_info : List LongConfirm → Bytes
confirm_info [] = []
confirm_info (c ∷ cs) = codes "long confirms: " ++ confirms_text (c ∷ cs)

-- `%v` of the elements of a slice after the first, and the bracket that ends it.
abbrev pub more_numbers_text : List ℕ → Bytes
more_numbers_text [] = codes "]"
more_numbers_text (n ∷ ns) = codes " " ++ (itoa n ++ more_numbers_text ns)

-- `%v` of a slice of numbers.
unfoldable pub numbers_text : List ℕ → Bytes
numbers_text [] = codes "[]"
numbers_text (n ∷ ns) = codes "[" ++ (itoa n ++ more_numbers_text ns)

-- `String`
unfoldable pub summary_text : (Duration → Bytes) → BlocksSummary → Bytes
summary_text duration_text s = flatten (
    codes "receive "
    ∷ itoa s.block_count
    ∷ codes " blolcks in "
    ∷ duration_text s.duration
    ∷ codes ", forks: "
    ∷ itoa (length s.forks)
    ∷ codes ", long confirms: "
    ∷ itoa (length s.long_confirms)
    ∷ codes ", missing blocks: "
    ∷ numbers_text s.missing_blocks
    ∷ codes "\n"
    ∷ fork_info s.forks
    ∷ codes "\n"
    ∷ confirm_info s.long_confirms
    ∷ [])
