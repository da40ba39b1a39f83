-- ===== src/Memory/Buddy/Fresh.antt =====
-- The orders that the constructor of kernel/memory/BuddyZone.cpp makes, and the blocks of an order
-- that lie in the zone.
use nusa_os.Common.{
  ℕ, zero, suc, ◌+◌, ◌*◌, ◌/◌, ◌^◌, ◌<◌, ◌≤◌, ◌≡◌, refl, ap, ◌∙◌, true, false, [], ◌∷◌, arith,
}
use native.Mathlib.Nat.{two-pow-succ, mul-div_cancel, one-mul}
use nusa_os.Kstd.Bitmap.{make, set_bit}
use nusa_os.Kstd.Bitmap.Laws.{make-Fits, get-make}
use nusa_os.Memory.Buddy.{empty_order, make_orders, bit_index}
use nusa_os.Memory.Buddy.Blocks.{bit_index-at, in_block, covers}
use nusa_os.Memory.Buddy.Sound.{
  pair_count-nil, pair_count-same, pair_count-other, Paired, Bucket, Sound, frees, raised, lowered,
  changed-Bucket,
}

pub raised-pow : (order size : ℕ) → raised order size ≡ 2 ^ order * size
unfolding raised
raised-pow zero size = omega arith
raised-pow (suc order) size = raised-pow order (size + size) ∙ rw (two-pow-succ order) (omega arith)

-- An order without free blocks.
empty-Bucket :
    (size n num_pages : ℕ) → num_pages / size ≡ n → Bucket size n (empty_order size num_pages)
unfolding Bucket empty_order Paired
empty-Bucket size n num_pages blocks = rw (blocks) (
  [],
  refl,
  tt,
  (λ i h. pair_count-nil i ∙ rw (get-make ((n + 1) / 2) false i (omega arith)) refl),
  make-Fits ((n + 1) / 2) false,
)

-- The highest order, with the whole zone free.
top-Bucket :
    (size num_pages : ℕ)
    → num_pages / size ≡ 1
    → bit_index size 0 ≡ 0
    → Bucket size 1 (record {
      block_map = set_bit (make ((num_pages / size + 1) / 2) false) (bit_index size 0) true;
      freelist = 0 ∷ [];
    })
unfolding Paired
top-Bucket size num_pages blocks zeroth = rw (blocks) (
    changed-Bucket size 1 (make 1 false) (bit_index size 0) 0 true (0 ∷ []) [] (0 ∷ []) zeroth
      (omega arith) (ap (λ b. b ∷ []) (omega arith)) (omega arith, tt) (make-Fits 1 false)
      (λ i h. pair_count-nil i ∙ rw (get-make 1 false i (omega arith)) refl)
      (pair_count-same 0 [] ∙ ap suc (pair_count-nil 0)) (pair_count-other 0 []))

-- A new zone is sound, and its whole range is free.
pub make_orders-Sound :
    (higher size : ℕ)
    → 0 < size
    → Sound size (2 ^ higher) (make_orders higher size (2 ^ higher * size))
      × ((page : ℕ)
          → frees size (make_orders higher size (2 ^ higher * size)) page
            ≡ in_block (2 ^ higher * size) 0 page)
unfolding make_orders Sound frees covers empty_order
make_orders-Sound zero size pos =
    let zeroth = bit_index-at size 0 0 pos (omega arith) in
    (
      (top-Bucket size (1 * size) (mul-div_cancel 1 pos) (zeroth ∙ omega arith), omega arith),
      λ page. omega (arith, ap (λ s. in_block s 0 page) (one-mul size)),
    )
make_orders-Sound (suc higher) size pos =
    let twice : 2 ^ suc higher * size ≡ 2 ^ higher * (size + size) =
      rw (two-pow-succ higher) (omega arith) in
    let half : 2 ^ suc higher / 2 ≡ 2 ^ higher = omega (arith, two-pow-succ higher) in
    let (sound, all) = make_orders-Sound higher (size + size) (omega arith) in
    (
      (
        empty-Bucket size (2 ^ suc higher) (2 ^ suc higher * size)
            (mul-div_cancel (2 ^ suc higher) pos),
        rw (half, twice) sound,
      ),
      λ page. rw (twice) (omega (arith, all page)),
    )

-- The blocks of an order that lie in the zone.
pub lowered-room : (order k n : ℕ) → suc k * 2 ^ order ≤ n → k < lowered order n
unfolding lowered
lowered-room zero k n le = omega (arith, le)
lowered-room (suc order) k n le =
    let twice : suc k * 2 ^ suc order ≡ suc k * 2 ^ order + suc k * 2 ^ order =
      rw (two-pow-succ order) (omega arith) in
    lowered-room order k (n / 2) (omega (arith, le, twice))

pub lowered-fits : (order k n : ℕ) → k < lowered order n → suc k * 2 ^ order ≤ n
unfolding lowered
lowered-fits zero k n lt = omega (arith, lt)
lowered-fits (suc order) k n lt =
    let twice : suc k * 2 ^ suc order ≡ suc k * 2 ^ order + suc k * 2 ^ order =
      rw (two-pow-succ order) (omega arith) in
    omega (arith, lowered-fits order k (n / 2) lt, twice)
