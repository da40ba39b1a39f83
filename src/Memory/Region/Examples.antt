-- ===== src/Memory/Region/Examples.antt =====
-- A region of ten pages, which gets zones of eight and of two: tests of
-- kernel/memory/PhysicalRegion.cpp, and the theorems at it.
use nusa_os.Common.{
  suc, ◌≢◌, subst, sym, ◌∙◌, eq_of_ok, ℕ, ◌+◌, ◌<◌, ◌≡◌, refl, true, false, List, [], ◌∷◌, ◌==◌,
  if◌then◌else◌, arith, ok, err, enomem, einval, add_word, sub_word,
}
use nusa_os.Kstd.Bitmap.{make, get_bit, set_bit}
use nusa_os.Memory.Buddy.{
  Zone, Order, order_for, highest_bit, make_zone, make_orders, empty_order, alloc_block, alloc_at,
  alloc_from, give_block, take_first, bit_index,
}
use nusa_os.Memory.Buddy.Blocks.{covers}
use nusa_os.Memory.Buddy.Sound.{frees}
use nusa_os.Memory.Buddy.Totals.{free_at_page}
use nusa_os.Memory.Region.{
  Region, make_region, fill, zone_size, new_zone, expect, alloc_page, alloc_pages, free_page,
}
use nusa_os.Memory.Region.Counted.{IsReady, has_page, zone_has}
use nusa_os.Memory.Region.Made.{make_region-filled, make_region-IsReady}
use nusa_os.Memory.Region.Pages.{alloc_page-answer}
use nusa_os.Memory.Region.Release.{free_page-answer}

abbrev order : ℕ → List ℕ → Order
order byte freelist = record { block_map = record { bytes = byte ∷ [] }; freelist = freelist }

abbrev eight : Zone
eight = record {
  first_page = 100;
  num_pages = 8;
  free_pages = 8;
  orders = order 0 [] ∷ order 0 [] ∷ order 0 [] ∷ order 1 (0 ∷ []) ∷ [];
}

abbrev two : Zone
two = record {
  first_page = 108;
  num_pages = 2;
  free_pages = 2;
  orders = order 0 [] ∷ order 1 (0 ∷ []) ∷ [];
}

abbrev ten : Region
ten = record {
  start_page = 100;
  num_pages = 10;
  free_pages = 10;
  reserved = false;
  zones = eight ∷ two ∷ [];
}

made : make_region 100 10 false false ≡ ok ten
unfolding make_region fill zone_size new_zone make_zone order_for highest_bit make_orders
    empty_order make set_bit bit_index add_word sub_word
made = refl

too_large : alloc_pages (record ten { free_pages = 2000 }) 1025 ≡ err einval
unfolding alloc_pages order_for highest_bit
too_large = refl

ten-IsReady : IsReady ten
ten-IsReady =
    let (region, ran, ready, free) = make_region-filled 100 10 false (omega arith) in
    subst IsReady (eq_of_ok (sym ran ∙ made)) ready

make_region-IsReady_example :
    (region : Region) × (make_region 100 10 false false ≡ ok region)
    × IsReady region
    × (region.start_page ≡ 100)
    × (region.num_pages ≡ 10)
    × (region.free_pages ≡ 10)
make_region-IsReady_example = make_region-IsReady 100 10 (omega arith)

alloc_page-answer_example :
    (ten.free_pages ≡ 0 → alloc_page ten ≡ err enomem)
    × (0 < ten.free_pages
        → (page : ℕ) × (region' : Region) × (alloc_page ten ≡ ok (page, region'))
          × (suc region'.free_pages ≡ 10)
          × (has_page (eight ∷ two ∷ []) page ≡ suc (has_page region'.zones page))
          × ((p : ℕ) → p ≢ page → has_page (eight ∷ two ∷ []) p ≡ has_page region'.zones p))
alloc_page-answer_example = alloc_page-answer ten ten-IsReady

-- The same region, all of it in use.
abbrev busy : Region
busy = record {
  start_page = 100;
  num_pages = 10;
  free_pages = 0;
  reserved = false;
  zones =
      record eight {
        free_pages = 0;
        orders = order 0 [] ∷ order 0 [] ∷ order 0 [] ∷ order 0 [] ∷ [];
      }
      ∷ record two { free_pages = 0; orders = order 0 [] ∷ order 0 [] ∷ [] }
      ∷ [];
}

busy_made : make_region 100 10 false true ≡ ok busy
unfolding make_region fill zone_size new_zone expect make_zone order_for highest_bit make_orders
    empty_order make set_bit bit_index alloc_block alloc_at alloc_from give_block take_first get_bit
    add_word sub_word
busy_made = refl

busy-IsReady : IsReady busy
busy-IsReady =
    let (region, ran, ready, free) = make_region-filled 100 10 true (omega arith) in
    subst IsReady (eq_of_ok (sym ran ∙ busy_made)) ready

not_free : has_page busy.zones 103 ≡ 0
unfolding has_page zone_has free_at_page frees covers
not_free = refl

free_page-answer_example :
    (region' : Region) × (free_page busy 103 ≡ ok region')
    × IsReady region'
    × (region'.free_pages ≡ 1)
    × ((p : ℕ) → has_page region'.zones p ≡ has_page busy.zones p + (if p == 103 then 1 else 0))
free_page-answer_example =
    free_page-answer busy 103 busy-IsReady (omega arith) (omega arith) (omega arith) not_free
