-- ===== src/Memory/Buddy/Free.antt =====
-- `free_block_internal` of kernel/memory/BuddyZone.cpp: a used block of the zone is always taken
-- back, merged as far up as its buddies are free, and exactly its pages become free.
use nusa_os.Common.{
  ==_refl, ==_ne, Bool-cases, ℕ, zero, suc, ◌+◌, ◌*◌, ◌/◌, ◌<◌, ◌≤◌, ◌≡◌, refl, sym, ap, ◌∙◌, true,
  false, List, [], ◌∷◌, ◌==◌, if◌then◌else◌, arith, All, inl, inr, ok, Result,
}
use nusa_os.Kstd.Bitmap.{Bitmap, get_bit, set_bit}
use nusa_os.Kstd.Bitmap.Laws.{Fits}
use nusa_os.Memory.Buddy.{Order, bit_index, remove, buddy_of, free_from, free_at}
use nusa_os.Memory.Buddy.Blocks.{
  in_block, covers, count, blocks, buddy, buddy-cases, in_block-merged, in_block-first,
  bit_index-at, buddy_of-block, remove-blocks, count-remove, remove-All, covers-remove,
  covers-count, count-All, first_block,
}
use nusa_os.Memory.Buddy.Sound.{
  pair_count, pair_count-same, pair_count-other, Paired, Bucket, Sound, frees, raised, lowered,
  changed-Bucket, lowered-zero,
}

-- No page of the block is free.
unfoldable pub Unfree : ℕ → List Order → ℕ → ℕ → Type 0
Unfree size orders width block = (page : ℕ) → frees size orders page + in_block width block page ≤ 1

-- The orders after a block has been taken back.
unfoldable pub Freed : ℕ → ℕ → List Order → ℕ → ℕ → Result (List Order) → Type 0
Freed size n orders width block result =
    (orders' : List Order) × (result ≡ ok orders')
    × Sound size n orders'
    × ((page : ℕ) → frees size orders' page ≡ frees size orders page + in_block width block page)

-- A buddy that is free is where the bit says.
buddy-listed :
    (bits : Bitmap) (n k : ℕ) (numbers : List ℕ)
    → Paired bits n numbers
    → k < n
    → get_bit bits (k / 2) ≡ true
    → count k numbers ≡ 0
    → count (buddy k) numbers ≡ 1
unfolding Paired pair_count
buddy-listed bits n k numbers paired lt set none =
    let one = paired (k / 2) (omega arith) ∙ ap (λ b. if b then 1 else 0) set in
    elim (buddy-cases k) [
      | inl (even, odd) ↦
          omega (arith, one, none, ap (λ j. count j numbers) even, ap (λ j. count j numbers) odd)
      | inr (odd, even) ↦
          omega (arith, one, none, ap (λ j. count j numbers) even, ap (λ j. count j numbers) odd)
    ]

pair-remove :
    (j : ℕ) (numbers : List ℕ) (i : ℕ)
    → 0 < count j numbers
    → pair_count numbers i ≡ pair_count (remove j numbers) i + (if j / 2 == i then 1 else 0)
unfolding pair_count
pair-remove j numbers i h =
    ground (arith, count-remove (i + i) j numbers h, count-remove (suc (i + i)) j numbers h)

buddy-half : (k : ℕ) → buddy k / 2 ≡ k / 2
buddy-half k = ground arith

-- A block with no free page is not in the list.
unlisted :
    (size : ℕ) (bucket : Order) (above : List Order) (block k : ℕ) (numbers : List ℕ)
    → 0 < size
    → bucket.freelist ≡ blocks size numbers
    → block ≡ k * size
    → Unfree size (bucket ∷ above) size block
    → count k numbers ≡ 0
unfolding Unfree frees
unlisted size bucket above block k numbers pos list at unfree =
    let here = unfree block in
    let own = in_block-first size block pos in
    let listed : count k numbers ≤ covers size bucket.freelist block =
      rw (list, at) (covers-count size k numbers pos) in
    omega (arith, here, own, listed)

-- The buddy is used: the block is put in front of the free list.
put_lem :
    (size n : ℕ) (bucket : Order) (above : List Order) (block k : ℕ) (numbers : List ℕ)
    → 0 < size
    → k < n
    → block ≡ k * size
    → bucket.freelist ≡ blocks size numbers
    → All (λ k. k < n) numbers
    → Paired bucket.block_map n numbers
    → Fits bucket.block_map ((n + 1) / 2)
    → Sound (size + size) (n / 2) above
    → get_bit bucket.block_map (bit_index size block) ≡ false
    → Freed size n (bucket ∷ above) size block (free_from size (bucket ∷ above) block)
unfolding Freed free_from Sound frees covers Paired
put_lem size n bucket above block k numbers pos lt at list below paired fits rest clear =
    let index = bit_index-at size block k pos at in
    let none : pair_count numbers (k / 2) ≡ 0 =
      paired (k / 2) (omega arith)
      ∙ ap (λ b. if b then 1 else 0) (ap (get_bit bucket.block_map) (sym index) ∙ clear) in
    (
      record {
        block_map = set_bit bucket.block_map (bit_index size block) true;
        freelist = block ∷ bucket.freelist;
      }
          ∷ above,
      rw (clear, free_from) refl,
      (
        changed-Bucket size n bucket.block_map (bit_index size block) k true
            (block ∷ bucket.freelist) numbers (k ∷ numbers) index lt (rw (at, list) refl)
            (lt, below) fits paired (pair_count-same k numbers ∙ ap suc none)
            (pair_count-other k numbers),
        rest,
      ),
      λ page. omega arith,
    )

-- The buddy is free: the two are merged, and the order above takes them back.
merge_lem :
    (size n : ℕ) (bucket : Order) (above : List Order) (block k : ℕ) (numbers : List ℕ)
    → 0 < size
    → k < n
    → block ≡ k * size
    → bucket.freelist ≡ blocks size numbers
    → All (λ k. k < n) numbers
    → Paired bucket.block_map n numbers
    → Fits bucket.block_map ((n + 1) / 2)
    → get_bit bucket.block_map (bit_index size block) ≡ true
    → count (buddy k) numbers ≡ 1
    → Freed
        (size + size)
        (n / 2)
        above
        (size + size)
        (k / 2 * (size + size))
        (free_from (size + size) above (k / 2 * (size + size)))
    → Freed size n (bucket ∷ above) size block (free_from size (bucket ∷ above) block)
unfolding Freed free_from Sound frees Paired
merge_lem size n bucket above block k numbers pos lt at list below paired fits set one
      (above', ran, sound, same) =
    let index = bit_index-at size block k pos at in
    let removed : remove (buddy_of size block) bucket.freelist
        ≡ blocks size (remove (buddy k) numbers) =
      ap (λ b. remove b bucket.freelist) (ap (buddy_of size) at ∙ buddy_of-block size k pos)
      ∙ ap (remove (buddy k * size)) list
      ∙ remove-blocks size (buddy k) numbers pos in
    let higher : bit_index size block * 2 * size ≡ k / 2 * (size + size) =
      ap (λ i. i * 2 * size) index ∙ first_block size k in
    let total : pair_count numbers (k / 2) ≡ 1 =
      paired (k / 2) (omega arith)
      ∙ ap (λ b. if b then 1 else 0) (ap (get_bit bucket.block_map) (sym index) ∙ set) in
    let fewer : pair_count numbers (k / 2) ≡ suc (pair_count (remove (buddy k) numbers) (k / 2)) =
      pair-remove (buddy k) numbers (k / 2) (omega arith)
      ∙ rw (buddy-half k, ==_refl (k / 2)) (omega arith) in
    (
      record {
        block_map = set_bit bucket.block_map (bit_index size block) false;
        freelist = remove (buddy_of size block) bucket.freelist;
      }
          ∷ above',
      rw (set, higher, ran, free_from) refl,
      (
        changed-Bucket size n bucket.block_map (bit_index size block) k false
            (remove (buddy_of size block) bucket.freelist) numbers (remove (buddy k) numbers) index
            lt removed (remove-All (λ k. k < n) (buddy k) numbers below) fits paired
            (omega (arith, total, fewer))
            (λ i ne. sym (
              pair-remove (buddy k) numbers i (omega arith)
              ∙ rw (buddy-half k, ==_ne (k / 2) i ne) (omega arith))),
        sound,
      ),
      λ page.
          let gone = covers-remove size (buddy k) numbers page (omega arith) in
          let parts = in_block-merged size k page in
          let now = ap (λ l. covers size l page) removed in
          let old = ap (λ l. covers size l page) list in
          let own = ap (λ b. in_block size b page) at in
          omega (arith, same page, gone, parts, now, old, own),
    )

both_below : (k n : ℕ) → k < n → buddy k < n → k / 2 < n / 2
both_below k n lt lt' = ground arith

-- No page of the merged block is free in the orders above.
merged-Unfree :
    (size : ℕ) (bucket : Order) (above : List Order) (block k : ℕ) (numbers : List ℕ)
    → block ≡ k * size
    → bucket.freelist ≡ blocks size numbers
    → count (buddy k) numbers ≡ 1
    → Unfree size (bucket ∷ above) size block
    → Unfree (size + size) above (size + size) (k / 2 * (size + size))
unfolding Unfree frees
merged-Unfree size bucket above block k numbers at list one unfree page =
    let gone = covers-remove size (buddy k) numbers page (omega (arith, one)) in
    let parts = in_block-merged size k page in
    let old = ap (λ l. covers size l page) list in
    let own = ap (λ b. in_block size b page) at in omega (arith, unfree page, gone, parts, old, own)

pub free_from-Freed :
    (size n : ℕ) (orders : List Order) (block k : ℕ)
    → 0 < size
    → k < n
    → block ≡ k * size
    → Sound size n orders
    → Unfree size orders size block
    → Freed size n orders size block (free_from size orders block)
unfolding Sound Bucket
free_from-Freed size n [] block k pos lt at sound unfree = absurd (omega (arith, sound, lt))
free_from-Freed size n (bucket ∷ above) block k pos lt at
      ((numbers, list, below, paired, fits), rest) unfree =
    elim (Bool-cases (get_bit bucket.block_map (bit_index size block))) [
      | inl set ↦
          let index = bit_index-at size block k pos at in
          let bit = ap (get_bit bucket.block_map) (sym index) ∙ set in
          let none = unlisted size bucket above block k numbers pos list at unfree in
          let one = buddy-listed bucket.block_map n k numbers paired lt bit none in
          let below' = count-All (λ j. j < n) (buddy k) numbers below (omega (arith, one)) in
          merge_lem size n bucket above block k numbers pos lt at list below paired fits set one (
            free_from-Freed (size + size) (n / 2) above (k / 2 * (size + size)) (k / 2)
              (omega arith) (both_below k n lt below') refl rest
              (merged-Unfree size bucket above block k numbers at list one unfree))
      | inr clear ↦
          put_lem size n bucket above block k numbers pos lt at list below paired fits rest clear
    ]

pub free_at-Freed :
    (order size n : ℕ) (orders : List Order) (block k : ℕ)
    → 0 < size
    → k < lowered order n
    → block ≡ k * raised order size
    → Sound size n orders
    → Unfree size orders (raised order size) block
    → Freed size n orders (raised order size) block (free_at order size orders block)
unfolding Sound free_at lowered raised Freed Unfree frees
free_at-Freed zero size n orders block k pos lt at sound unfree =
    free_from-Freed size n orders block k pos lt at sound unfree
free_at-Freed (suc order) size n [] block k pos lt at sound unfree =
    absurd (omega (arith, lt, lowered-zero order n sound))
free_at-Freed (suc order) size n (bucket ∷ above) block k pos lt at (here, rest) unfree =
    let later =
      free_at-Freed order (size + size) (n / 2) above block k (omega arith) lt at rest
        (λ page. omega (arith, unfree page)) in
    let (above', ran, sound, same) = later in
    (bucket ∷ above', rw (ran) refl, (here, sound), λ page. omega (arith, same page))
