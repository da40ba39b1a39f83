-- ===== src/Memory/Buddy/Examples.antt =====
-- A zone of eight pages, and a free list of three blocks: tests of kernel/memory/BuddyZone.cpp, and
-- the theorems at them.
use nusa_os.Common.{
  subst, sym, ◌∙◌, eq_of_ok, ℕ, ◌+◌, ◌*◌, ◌^◌, ◌≤◌, ◌<◌, ◌≡◌, refl, none, List, [], ◌∷◌, arith, ok,
  err, enomem, add_word, sub_word,
}
use nusa_os.Kstd.Bitmap.{make, get_bit, set_bit}
use nusa_os.Memory.Buddy.{
  Zone, Order, order_for, highest_bit, make_zone, make_orders, empty_order, alloc_block, alloc_at,
  alloc_from, give_block, split, take_first, bit_index, free_block, free_at, free_from, remove,
  buddy_of,
}
use nusa_os.Memory.Buddy.Rank.{order_for-least}
use nusa_os.Memory.Buddy.Blocks.{in_block, covers, count}
use nusa_os.Memory.Buddy.Sound.{frees}
use nusa_os.Memory.Buddy.Alloc.{has_free, Answers}
use nusa_os.Memory.Buddy.Totals.{
  IsSound, Taken, free_at_page, make_zone-IsSound, alloc_block-Taken, alloc_block-answer,
  free_block-frees,
}
use nusa_os.Memory.Buddy.Links.{FreeList, put_only, push_first, Holds, remove_from_freelist}
use nusa_os.Memory.Buddy.Linked.{put_only-Holds, push_first-Holds, remove_from_freelist-Holds}

abbrev order : ℕ → List ℕ → Order
order byte freelist = record { block_map = record { bytes = byte ∷ [] }; freelist = freelist }

-- All free, and after an allocation of two pages.
abbrev whole : Zone
whole = record {
  first_page = 16;
  num_pages = 8;
  free_pages = 8;
  orders = order 0 [] ∷ order 0 [] ∷ order 0 [] ∷ order 1 (0 ∷ []) ∷ [];
}

abbrev broken : Zone
broken = record {
  first_page = 16;
  num_pages = 8;
  free_pages = 6;
  orders = order 0 [] ∷ order 1 (2 ∷ []) ∷ order 1 (4 ∷ []) ∷ order 0 [] ∷ [];
}

made : make_zone 16 8 ≡ ok whole
unfolding make_zone order_for highest_bit make_orders empty_order make set_bit bit_index
made = refl

broken_run : alloc_block whole 2 ≡ ok (16, broken)
unfolding alloc_block order_for highest_bit alloc_at alloc_from give_block split take_first
    bit_index get_bit set_bit add_word sub_word
broken_run = refl

merged_run : free_block broken 16 2 ≡ ok whole
unfolding free_block order_for highest_bit free_at free_from remove buddy_of bit_index get_bit
    set_bit add_word sub_word
merged_run = refl

whole-IsSound : IsSound whole
whole-IsSound =
    let (zone, ran, sound, all) = make_zone-IsSound 16 3 (omega arith) (omega arith) in
    subst IsSound (eq_of_ok (sym ran ∙ made)) sound

broken-IsSound : IsSound broken
broken-IsSound = (alloc_block-Taken whole broken 2 16 whole-IsSound broken_run).0

order_for-least_example : (5 ≤ 2 ^ order_for 5) × ((k : ℕ) → 5 ≤ 2 ^ k → order_for 5 ≤ k)
order_for-least_example = order_for-least 5 (omega arith) (omega arith)

alloc_block-Taken_example : IsSound broken × Taken whole (order_for 2) 16 broken
alloc_block-Taken_example = alloc_block-Taken whole broken 2 16 whole-IsSound broken_run

alloc_block-answer_example :
    (6 < 5 → alloc_block broken 5 ≡ err enomem)
    × (5 ≤ 6 → Answers (has_free (order_for 5) broken.orders) (alloc_block broken 5))
alloc_block-answer_example = alloc_block-answer broken 5 broken-IsSound

unfree : (p : ℕ) → free_at_page broken p + in_block (2 ^ 1) (0 * 2 ^ 1) p ≤ 1
unfolding free_at_page frees covers in_block
unfree p = ground arith

free_block-frees_example :
    (zone' : Zone) × (free_block broken (16 + 0 * 2 ^ 1) (2 ^ 1) ≡ ok zone')
    × IsSound zone'
    × (zone'.free_pages ≡ add_word 6 (2 ^ 1))
    × ((p : ℕ) → free_at_page zone' p ≡ free_at_page broken p + in_block (2 ^ 1) (0 * 2 ^ 1) p)
free_block-frees_example = free_block-frees broken 1 0 broken-IsSound (omega arith) unfree

abbrev bare : FreeList
bare = record { pages = λ i. record { next = none; prev = none }; first = none }

abbrev two : FreeList
two = push_first (put_only bare 6) 2

two-Holds : Holds two (2 ∷ 6 ∷ [])
unfolding count
two-Holds = push_first-Holds (put_only bare 6) (6 ∷ []) 2 (put_only-Holds bare 6) refl

listed : 0 < count 6 (2 ∷ 6 ∷ [])
unfolding count
listed = omega arith

remove_from_freelist-Holds_example :
    (list' : FreeList) × (remove_from_freelist two 6 ≡ ok list')
    × Holds list' (remove 6 (2 ∷ 6 ∷ []))
remove_from_freelist-Holds_example = remove_from_freelist-Holds two (2 ∷ 6 ∷ []) 6 two-Holds listed
