-- ===== src/Memory/Region.antt =====
-- kernel/memory/PhysicalRegion.cpp and PhysicalRegion.h: a region of physical pages, split into
-- buddy zones. The lock is held for the whole of each operation, which is one step here.
-- The constructor leaves the links of each zone's first block to `init`; the free lists are those
-- that it completes (`init_block` of Buddy/Links.antt).
pub mod Fill
pub mod Counted
pub mod Pages
pub mod Release
pub mod Made
mod Examples
use nusa_os.Common.{
  ℕ, zero, suc, ◌+◌, ◌-◌, ◌^◌, min, Bool, true, false, not, ◌&&◌, Option, none, some, List, [], ◌∷◌,
  ltb, leb, ◌==◌, if◌then◌else◌, enomem, einval, Result, panic, err, ok, ◌>>=◌, ◌>>◌, assert,
  fail_if, add_word, sub_word,
}
use nusa_os.Memory.Buddy.{
  Zone, max_order, highest_bit, order_for, make_zone, alloc_block, free_block, contains_page,
}

pub record Region : Type 0 where
  pub start_page : ℕ
  pub num_pages : ℕ
  pub free_pages : ℕ
  pub reserved : Bool
  pub zones : List Zone

-- `ASSERT(!res.is_error())`
unfoldable pub expect : Result (ℕ × Zone) → Result Zone
expect panic = panic
expect (err e) = panic
expect (ok r) = ok r.1

-- Lines 19-23: the size of the next zone.
unfoldable pub zone_size : ℕ → ℕ
zone_size num_pages = 2 ^ min (highest_bit 32 num_pages) max_order

unfoldable pub new_zone : ℕ → ℕ → Bool → Result Zone
new_zone start_page num_pages used = make_zone start_page num_pages >>= λ zone.
    if used then expect (alloc_block zone num_pages) else ok zone

-- The loop of the constructor, lines 18-34; the number of the pages left is fuel enough.
unfoldable pub fill : ℕ → ℕ → ℕ → Bool → Result (List Zone)
fill zero start_page num_pages used = if num_pages == 0 then ok [] else panic
fill (suc fuel) start_page num_pages used =
    let size = zone_size num_pages in
    let rest = fill fuel (add_word start_page size) (sub_word num_pages size) used in
    if num_pages == 0
    then ok []
    else (new_zone start_page size used >>= λ zone. rest >>= λ zones. ok (zone ∷ zones))

unfoldable pub make_region : ℕ → ℕ → Bool → Bool → Result Region
make_region start_page num_pages reserved used =
    (if reserved then ok [] else fill num_pages start_page num_pages used) >>= λ zones. ok (record {
      start_page = start_page;
      num_pages = num_pages;
      free_pages = if used then 0 else num_pages;
      reserved = reserved;
      zones = zones;
    })

-- The body of the loops of `alloc_page` and `alloc_pages`; `rest` is the loop on the other zones.
unfoldable pub pick_zone :
    Zone → List Zone → Result (ℕ × List Zone) → Result (ℕ × Zone) → Result (ℕ × List Zone)
pick_zone zone zones rest panic = panic
pick_zone zone zones rest (err e) = rest >>= λ got. ok (got.0, zone ∷ got.1)
pick_zone zone zones rest (ok got) = ok (got.0, got.1 ∷ zones)

-- The first zone whose `alloc_block` gives no error, ENOMEM without one.
unfoldable pub first_zone : List Zone → ℕ → Result (ℕ × List Zone)
first_zone [] num_pages = err enomem
first_zone (zone ∷ zones) num_pages =
    pick_zone zone zones (first_zone zones num_pages) (alloc_block zone num_pages)

unfoldable pub alloc_page : Region → Result (ℕ × Region)
alloc_page region =
    fail_if region.reserved enomem
    >> fail_if (region.free_pages == 0) enomem
    >> (first_zone region.zones 1 >>= λ got.
        ok (got.0, record region { free_pages = sub_word region.free_pages 1; zones = got.1 }))

unfoldable pub alloc_pages : Region → ℕ → Result (ℕ × Region)
alloc_pages region num_pages =
    fail_if region.reserved enomem
    >> fail_if (ltb region.free_pages num_pages) enomem
    >> fail_if (ltb max_order (order_for num_pages)) einval
    >> (first_zone region.zones num_pages >>= λ got.
        ok (
          got.0,
          record region { free_pages = sub_word region.free_pages num_pages; zones = got.1 },
        ))

unfoldable pub region_contains : Region → ℕ → Bool
region_contains region page =
    leb region.start_page page && ltb page (add_word region.start_page region.num_pages)

-- The loop of `free_page`, and the ASSERT after it.
unfoldable pub free_in : List Zone → ℕ → Result (List Zone)
free_in [] page = panic
free_in (zone ∷ zones) page =
    let rest = free_in zones page in
    if contains_page zone page
    then (free_block zone page 1 >>= λ zone'. ok (zone' ∷ zones))
    else (rest >>= λ zones'. ok (zone ∷ zones'))

unfoldable pub free_page : Region → ℕ → Result Region
free_page region page =
    assert (not region.reserved)
    >> assert (region_contains region page)
    >> (free_in region.zones page >>= λ zones'.
        ok (record region { free_pages = add_word region.free_pages 1; zones = zones' }))
