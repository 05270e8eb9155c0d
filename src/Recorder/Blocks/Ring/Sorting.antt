-- ===== src/Recorder/Blocks/Ring/Sorting.antt =====
-- recorder/blocks.go: `sortArray` on an array that has wrapped around.
use bitmarkd_broadcast_monit.Common.{
  ℕ, suc, ◌+◌, ◌≤◌, ◌<◌, ◌≡◌, refl, sym, subst, ap, ap₂, ◌∙◌, inl, inr, false, List, [], ◌∷◌, ◌++◌,
  arith, append-nil, Bool-cases, leb, length, take, drop, replicate, is_empty_string,
}
use bitmarkd_broadcast_monit.Recorder.Blocks.{data_length, zero_block, BlockData, Blocks, slice}
use bitmarkd_broadcast_monit.Recorder.Blocks.Ascending.{Rising, padded, sort_array-Rising}
use bitmarkd_broadcast_monit.Recorder.Blocks.Summary.{
  Extent, scan_extent, find_block_start_and_end, sort_array, between,
}
use bitmarkd_broadcast_monit.Recorder.Blocks.Ring.{Holds}

-- The numbers are below `n`.
abbrev Under : ℕ → List BlockData → Type 0
Under n [] = Unit {0}
Under n (b ∷ bs) = (b.number < n) × Under n bs

Under-mono : (n m : ℕ) (bs : List BlockData) → n ≤ m → Under n bs → Under m bs
Under-mono n m [] h u = tt
Under-mono n m (b ∷ bs) h u = (omega arith, Under-mono n m bs h u.1)

abbrev highest : ℕ → List BlockData → ℕ
highest n [] = n
highest n (b ∷ bs) = highest b.number bs

highest-Rising : (n : ℕ) (bs : List BlockData) → Rising n bs → n ≤ highest n bs
highest-Rising n [] r = omega arith
highest-Rising n (b ∷ bs) r = omega (arith, highest-Rising b.number bs r.2)

Rising-append :
    (n : ℕ) (xs : List BlockData) (y : BlockData) (ys : List BlockData)
    → Rising n (xs ++ y ∷ ys)
    → Rising n xs × Under y.number xs × (n < y.number) × Rising n (y ∷ ys)
Rising-append n [] y ys r = (tt, tt, r.0, r)
Rising-append n (x ∷ xs) y ys r =
    let (low, under, less, high) = Rising-append x.number xs y ys r.2 in
    (
      (r.0, r.1, low),
      (less, under),
      omega (arith, r.0, less),
      (omega (arith, r.0, less), high.1, high.2),
    )

scan_extent-step :
    (b : BlockData) (bs : List BlockData) (i : ℕ) (e : Extent)
    → e.earliest ≤ e.latest
    → e.latest < b.number
    → is_empty_string b.hash ≡ false
    → scan_extent (b ∷ bs) i e
      ≡ scan_extent bs (i + 1) (record e { end_index = i; latest = b.number })
unfolding scan_extent
scan_extent-step b bs i e o r h = ground arith

Rising-lower : (n m : ℕ) (bs : List BlockData) → n ≤ m → Rising m bs → Rising n bs
Rising-lower n m [] h r = tt
Rising-lower n m (b ∷ bs) h r = (omega (arith, r.0), r.1, r.2)

-- Over rising blocks the end moves along, and the start stays.
scan_extent-newer :
    (bs rest : List BlockData) (i : ℕ) (e : Extent)
    → e.earliest ≤ e.latest
    → Rising e.latest bs
    → i ≡ e.end_index + 1
    → scan_extent (bs ++ rest) i e
      ≡ scan_extent rest
          (i + length bs)
          (record e { end_index = e.end_index + length bs; latest = highest e.latest bs })
unfolding scan_extent
scan_extent-newer [] rest i e o r h =
    ap₂ (λ j k. scan_extent rest j (record e { end_index = k })) (omega arith) (omega arith)
scan_extent-newer (b ∷ bs) rest i e o r h =
    let e' : Extent = record e { end_index = i; latest = b.number } in
    scan_extent-step b (bs ++ rest) i e o r.0 r.1
    ∙ scan_extent-newer bs rest (i + 1) e' (omega (arith, r.0)) r.2 refl
    ∙ ap₂ (λ j k. scan_extent rest j (record e { end_index = k; latest = highest b.number bs }))
        (omega arith) (omega (arith, h))

-- Older blocks behind the oldest leave both as they are.
scan_extent-older :
    (bs : List BlockData) (i : ℕ) (e : Extent)
    → Rising e.earliest bs
    → Under e.latest bs
    → scan_extent bs i e ≡ e
unfolding scan_extent
scan_extent-older [] i e r u = refl
scan_extent-older (b ∷ bs) i e r u =
    ground (arith, scan_extent-older bs (i + 1) e, Rising-lower e.earliest b.number bs)

scan_extent-oldest :
    (b : BlockData) (bs : List BlockData) (i : ℕ) (e : Extent)
    → Rising 0 (b ∷ bs)
    → b.number < e.earliest
    → Under e.latest bs
    → scan_extent (b ∷ bs) i e ≡ record e { start_index = i; earliest = b.number }
unfolding scan_extent
scan_extent-oldest b bs i e r h u =
    ground (arith, scan_extent-older bs (i + 1) (record e { start_index = i; earliest = b.number }))

find_block_start_and_end-wrapped :
    (n : BlockData) (ns : List BlockData) (o : BlockData) (os : List BlockData)
    → Rising 0 (o ∷ os ++ n ∷ ns)
    → find_block_start_and_end (n ∷ ns ++ o ∷ os) ≡ (suc (length ns), length ns)
unfolding find_block_start_and_end
find_block_start_and_end-wrapped n ns o os r =
    let (low, under, _, high) = Rising-append 0 (o ∷ os) n ns r in
    let e : Extent = record {
      start_index = 0;
      end_index = 0;
      earliest = n.number;
      latest = n.number;
    } in
    let e' : Extent = record e { end_index = 0 + length ns; latest = highest n.number ns } in
    let scanned : scan_extent (ns ++ o ∷ os) 1 e
        ≡ record e' { start_index = 1 + length ns; earliest = o.number } =
      scan_extent-newer ns (o ∷ os) 1 e (omega arith) high.2 refl
      ∙ scan_extent-oldest o os (1 + length ns) e' low under.0
          (Under-mono n.number _ os (highest-Rising n.number ns high.2) under.1) in
    rw scanned (ap₂ (λ x y. (x, y)) (omega arith) (omega arith))

take-length_append : (xs ys : List BlockData) → take (length xs) (xs ++ ys) ≡ xs
take-length_append [] ys = refl
take-length_append (x ∷ xs) ys = ap (λ l. x ∷ l) (take-length_append xs ys)

drop-length_append : (xs ys : List BlockData) → drop (length xs) (xs ++ ys) ≡ ys
drop-length_append [] ys = refl
drop-length_append (x ∷ xs) ys = drop-length_append xs ys

between-wrapped :
    (newer older : List BlockData) (k : ℕ)
    → length newer ≡ suc k
    → length newer + length older ≡ data_length
    → between (newer ++ older) (suc k, k) ≡ older ++ newer
between-wrapped newer older k h full = elim (Bool-cases (leb (suc k) k)) [
  | inl y ↦ absurd (ground arith)
  | inr n ↦ rw n (ap₂ (λ xs ys. xs ++ ys) back front)
]
  where
    back : slice (newer ++ older) (suc k) data_length ≡ older
    back =
        ap₂ (λ a b. take a (drop b (newer ++ older))) {y = length older} (omega arith) (sym h)
        ∙ ap (take (length older)) (drop-length_append newer older)
        ∙ ap (take (length older)) (sym (append-nil older))
        ∙ take-length_append older []

    front : slice (newer ++ older) 0 (k + 1) ≡ newer
    front = ap (λ a. take a (newer ++ older)) (omega arith) ∙ take-length_append newer older

sort_array-wrapped :
    (newer older : List BlockData)
    → length newer < data_length
    → length newer + length older ≡ data_length
    → Rising 0 (older ++ newer)
    → sort_array (newer ++ older) ≡ older ++ newer
unfolding sort_array
sort_array-wrapped [] [] room full r = absurd (omega arith)
sort_array-wrapped [] (o ∷ os) room full r =
    let r' : Rising o.number os = subst (Rising o.number) (append-nil os) r.2 in
    let e : padded (o ∷ os) ≡ o ∷ os =
      ap (λ n. (o ∷ os) ++ replicate n zero_block) {y = 0} (omega arith) ∙ append-nil (o ∷ os) in
    ap sort_array (sym e) ∙ sort_array-Rising o os r' ∙ sym (append-nil (o ∷ os))
sort_array-wrapped (n ∷ ns) [] room full r = absurd (omega arith)
sort_array-wrapped (n ∷ ns) (o ∷ os) room full r =
    ap (between (n ∷ ns ++ o ∷ os)) (find_block_start_and_end-wrapped n ns o os r)
    ∙ between-wrapped (n ∷ ns) (o ∷ os) (length ns) refl full

-- On an array that holds a queue of rising blocks, `sortArray` returns the queue.
pub sort_array-Holds :
    (b : Blocks) (first : BlockData) (rest : List BlockData)
    → Holds b (first ∷ rest)
    → Rising 0 (first ∷ rest)
    → sort_array b.slots ≡ first ∷ rest
sort_array-Holds b first rest (inl f) r = ap sort_array f.slots ∙ sort_array-Rising first rest r.2
sort_array-Holds b first rest (inr w) r =
    ap sort_array w.slots
    ∙ sort_array-wrapped w.newer w.older w.room w.full (subst (Rising 0) w.queue r)
    ∙ sym w.queue
