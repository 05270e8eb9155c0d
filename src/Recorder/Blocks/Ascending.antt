-- ===== src/Recorder/Blocks/Ascending.antt =====
-- recorder/blocks.go: the summary after a chain that grows without a fork.
use bitmarkd_broadcast_monit.Common.{
  ℕ, zero, suc, ◌+◌, ◌-◌, ◌≤◌, ◌<◌, ◌≡◌, ◌≢◌, refl, sym, ap, ap₂, ◌∙◌, inl, inr, ◌↔◌, true, false,
  some, none, List, [], ◌∷◌, ◌++◌, arith, append_assoc, append-nil, Bool-cases, leb, length,
  length-append, replicate, set, take, is_empty_string, Option,
}
use bitmarkd_broadcast_monit.Clock.{Time, zero_time, sub_time}
use bitmarkd_broadcast_monit.Recorder.Blocks.{data_length, BlockData, Blocks, zero_block, new_block}
use bitmarkd_broadcast_monit.Recorder.Blocks.Invariant.{
  IsValid, add-IsValid, add_all, new_block-IsValid,
}
use bitmarkd_broadcast_monit.Recorder.Blocks.Summary.{
  Extent, scan_extent, find_block_start_and_end, sort_array, between, summarize, contains,
  collect_keys, last_number, missing_blocks,
}
use bitmarkd_broadcast_monit.Recorder.Blocks.Missing.{numbers, AscendsFrom, missing_blocks_lem}

-- Blocks with a hash, each higher than the one before it and than `n`.
abbrev pub Rising : ℕ → List BlockData → Type 0
Rising n [] = Unit {0}
Rising n (b ∷ bs) = (n < b.number) × (is_empty_string b.hash ≡ false) × Rising b.number bs

-- The blocks of the calls, with their times of receipt.
abbrev pub stored : List (Time × BlockData) → List BlockData
stored [] = []
stored ((t, block) ∷ calls) = record block { received_time = t } ∷ stored calls

pub length-stored : (calls : List (Time × BlockData)) → length (stored calls) ≡ length calls
length-stored [] = refl
length-stored ((t, block) ∷ calls) = ap suc (length-stored calls)

-- The array that holds `bs` and is free behind them.
abbrev pub padded : List BlockData → List BlockData
padded bs = bs ++ replicate (data_length - length bs) zero_block

set-free :
    (bs : List BlockData) (m : ℕ) (b : BlockData)
    → set (bs ++ replicate (suc m) zero_block) (length bs) b
      ≡ (bs ++ b ∷ []) ++ replicate m zero_block
set-free [] m b = refl
set-free (c ∷ bs) m b = ap (λ l. c ∷ l) (set-free bs m b)

pub set-padded :
    (bs : List BlockData) (b : BlockData)
    → length bs < data_length
    → set (padded bs) (length bs) b ≡ padded (bs ++ b ∷ [])
set-padded bs b h =
    let e : data_length - length bs ≡ suc (data_length - length (bs ++ b ∷ [])) =
      omega (arith, length-append bs (b ∷ [])) in
    rw e (set-free bs (data_length - length (bs ++ b ∷ [])) b)

add_all-padded :
    (b : Blocks) (bs : List BlockData) (calls : List (Time × BlockData))
    → IsValid b
    → b.slots ≡ padded bs
    → (length bs < data_length → b.id ≡ length bs)
    → length bs + length calls ≤ data_length
    → (b' : Blocks) × (add_all b calls ≡ some b') × (b'.slots ≡ padded (bs ++ stored calls))
unfolding add_all
add_all-padded b bs [] v s i h = (b, refl, s ∙ ap padded (sym (append-nil bs)))
add_all-padded b bs ((t, block) ∷ calls) v s i h =
    let at : b.id ≡ length bs = i (omega arith) in
    let next : BlockData = record block { received_time = t } in
    let (c, e, w, slots, id) = add-IsValid b t block v (omega (arith, at)) in
    let s' : c.slots ≡ padded (bs ++ next ∷ []) =
      slots ∙ ap₂ (λ l n. set l n next) s at ∙ set-padded bs next (omega arith) in
    let (b', r, final) =
      add_all-padded c (bs ++ next ∷ []) calls w s'
        (λ below. omega (arith, id, at, length-append bs (next ∷ [])))
        (omega (arith, length-append bs (next ∷ []))) in
    (b', rw (e, add_all) r, final ∙ ap padded (append_assoc bs (next ∷ []) (stored calls)))

-- Over rising blocks the end moves along, and the start stays.
scan_extent-Rising :
    (bs : List BlockData) (m i : ℕ) (e : Extent)
    → e.earliest ≤ e.latest
    → i ≡ e.end_index + 1
    → Rising e.latest bs
    → ((scan_extent (bs ++ replicate m zero_block) i e).start_index ≡ e.start_index)
      × ((scan_extent (bs ++ replicate m zero_block) i e).end_index ≡ e.end_index + length bs)
unfolding scan_extent
scan_extent-Rising [] zero i e o h r = (refl, omega arith)
scan_extent-Rising [] (suc m) i e o h r = (refl, omega arith)
scan_extent-Rising (b ∷ bs) m i e o h r =
    let e' : Extent = record e { end_index = i; latest = b.number } in
    ground (arith, scan_extent-Rising bs m (i + 1) e')

take-length : (bs cs : List BlockData) → take (length bs) (bs ++ cs) ≡ bs
take-length [] cs = refl
take-length (b ∷ bs) cs = ap (λ l. b ∷ l) (take-length bs cs)

find_block_start_and_end-Rising :
    (b : BlockData) (bs : List BlockData)
    → Rising b.number bs
    → find_block_start_and_end (padded (b ∷ bs)) ≡ (0, length bs)
unfolding find_block_start_and_end
find_block_start_and_end-Rising b bs r =
    let (s, e) =
      scan_extent-Rising bs (data_length - suc (length bs)) 1
        (record { start_index = 0; end_index = 0; earliest = b.number; latest = b.number })
        (omega arith) (omega arith) r in
    ap₂ (λ x y. (x, y)) s (e ∙ omega arith)

between-zero : (slots : List BlockData) (e : ℕ) → between slots (0, e) ≡ take (suc e) slots
between-zero slots e = elim (Bool-cases (leb 0 e)) [
  | inl y ↦ rw y (ap (λ n. take n slots) {y = suc e} (omega arith))
  | inr n ↦ absurd (ground arith)
]

-- The blocks are found in the order in which they came.
pub sort_array-Rising :
    (b : BlockData) (bs : List BlockData)
    → Rising b.number bs
    → sort_array (padded (b ∷ bs)) ≡ b ∷ bs
unfolding sort_array
sort_array-Rising b bs r =
    ap (between (padded (b ∷ bs))) (find_block_start_and_end-Rising b bs r)
    ∙ between-zero (padded (b ∷ bs)) (length bs)
    ∙ take-length (b ∷ bs) (replicate (data_length - suc (length bs)) zero_block)

abbrev AllUpTo : ℕ → List ℕ → Type 0
AllUpTo n [] = Unit {0}
AllUpTo n (k ∷ ks) = (k ≤ n) × AllUpTo n ks

AllUpTo-snoc : (n m : ℕ) (ks : List ℕ) → n ≤ m → AllUpTo n ks → AllUpTo m (ks ++ m ∷ [])
AllUpTo-snoc n m [] h a = omega arith
AllUpTo-snoc n m (k ∷ ks) h a = (omega arith, AllUpTo-snoc n m ks h a.1)

contains-AllUpTo : (n m : ℕ) (ks : List ℕ) → n < m → AllUpTo n ks → contains m ks ≡ false
contains-AllUpTo n m [] h a = refl
contains-AllUpTo n m (k ∷ ks) h a = ground (arith, contains-AllUpTo n m ks h a.1)

-- Rising numbers are all counted.
length-collect_keys :
    (n : ℕ) (keys : List ℕ) (bs : List BlockData)
    → AllUpTo n keys
    → Rising n bs
    → length (collect_keys keys bs) ≡ length keys + length bs
unfolding collect_keys
length-collect_keys n keys [] a r = omega arith
length-collect_keys n keys (b ∷ bs) a r = rw (contains-AllUpTo n b.number keys r.0 a) (
    omega (
      arith,
      length-collect_keys b.number (keys ++ b.number ∷ []) bs
          (AllUpTo-snoc n b.number keys (omega arith) a) r.2,
      length-append keys (b.number ∷ []),
    ))

abbrev pub count_of : Option (ℕ × List ℕ) → ℕ
count_of none = 0
count_of (some (count, missing)) = count

pub count_of-missing_blocks :
    (b : BlockData) (bs : List BlockData)
    → Rising 0 (b ∷ bs)
    → count_of (missing_blocks (b ∷ bs)) ≡ length (b ∷ bs)
unfolding missing_blocks
count_of-missing_blocks b bs r = length-collect_keys 0 [] (b ∷ bs) tt r ∙ omega arith

summarize-padded :
    (now : Time) (b : Blocks) (first : BlockData) (rest : List BlockData) (n : ℕ) (missing : List ℕ)
    → b.slots ≡ padded (first ∷ rest)
    → Rising 0 (first ∷ rest)
    → first.received_time ≢ zero_time
    → missing_blocks (first ∷ rest) ≡ some (n, missing)
    → summarize now b ≡ some (sub_time now first.received_time, suc (length rest), missing)
unfolding summarize
summarize-padded now b first rest n missing s r late m =
    let e : n ≡ suc (length rest) = ap count_of (sym m) ∙ count_of-missing_blocks first rest r in
    rw (s, sort_array-Rising first rest r.2, m, e) (ground arith)

new_block-padded :
    (start : Time) → ((new_block start).slots ≡ padded []) × ((new_block start).id ≡ 0)
unfolding new_block
new_block-padded start = (refl, refl)

-- After at most a hundred blocks with hashes, each higher than the one before, on a new record, the
-- summary counts them all, takes the time since the first, and reports as missing exactly the
-- numbers between the first and the last block that did not come.
pub summarize-Rising :
    (start now t : Time) (block : BlockData) (calls : List (Time × BlockData))
    → Rising 0 (stored ((t, block) ∷ calls))
    → suc (length calls) ≤ data_length
    → t ≢ zero_time
    → (b : Blocks) × (missing : List ℕ) × (add_all (new_block start) ((t, block) ∷ calls) ≡ some b)
      × (summarize now b ≡ some (sub_time now t, suc (length calls), missing))
      × AscendsFrom block.number missing
      × ((n : ℕ)
          → (contains n missing ≡ true) ↔ (
              (block.number ≤ n)
              × (n < last_number (record block { received_time = t }) (stored calls))
              × (contains n (numbers (stored ((t, block) ∷ calls))) ≡ false)))
summarize-Rising start now t block calls r short late =
    let all = stored ((t, block) ∷ calls) in
    let (b, e, slots) = history in
    let (keys, missing, m, _, _, up, iff) = missing_blocks_lem first (stored calls) in
    (
      b,
      missing,
      e,
      rw (← length-stored calls)
          (summarize-padded now b first (stored calls) _ missing slots r late m),
      up,
      iff,
    )
  where
    first : BlockData
    first = record block { received_time = t }

    history :
        (b : Blocks) × (add_all (new_block start) ((t, block) ∷ calls) ≡ some b)
        × (b.slots ≡ padded (stored ((t, block) ∷ calls)))
    history =
        add_all-padded (new_block start) [] ((t, block) ∷ calls) (new_block-IsValid start)
          (new_block-padded start).0 (λ _. (new_block-padded start).1) (omega arith)
