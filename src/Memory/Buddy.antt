-- ===== src/Memory/Buddy.antt =====
-- kernel/memory/BuddyZone.cpp and BuddyZone.h: the buddy allocator of a zone of physical pages.
-- A block is the index of its first page relative to the zone. `m_orders` is the list of its
-- elements from order 0 to m_highest_order; a function that recurses to the next order takes the
-- rest of that list and `size`, size_of_order of the list's first order. The free list of an order
-- is the list of its blocks in `next` order; Buddy/Links.antt has the links in the page
-- descriptors. The list of a new zone is the one that `PhysicalRegion::init` completes. The
-- descriptor of page -1, which is that of the page before the zone and is written when a list
-- becomes empty, is left out: no list of the zone reads it.
pub mod Rank
pub mod Blocks
pub mod Sound
pub mod Alloc
pub mod Free
pub mod Fresh
pub mod Totals
pub mod Count
pub mod Links
pub mod Linked
mod Examples
use nusa_os.Common.{
  ℕ, zero, suc, ◌+◌, ◌-◌, ◌*◌, ◌/◌, ◌^◌, Bool, true, false, not, ◌&&◌, List, [], ◌∷◌, ltb, leb,
  ◌==◌, if◌then◌else◌, enomem, Result, panic, ok, ◌>>=◌, ◌>>◌, assert, fail_if, add_word, sub_word,
}
use nusa_os.Kstd.Bitmap.{Bitmap, make, get_bit, set_bit}

abbrev pub max_order : ℕ
max_order = 10

-- `BuddyOrder`; `order` is the place in the list of orders
pub record Order : Type 0 where
  pub block_map : Bitmap
  pub freelist : List ℕ

pub record Zone : Type 0 where
  pub first_page : ℕ
  pub num_pages : ℕ
  pub free_pages : ℕ
  pub orders : List Order

-- The index of the highest bit of a 32-bit word that is not 0, `32 - __builtin_clz(n) - 1`; the
-- number of bits left is the fuel.
unfoldable pub highest_bit : ℕ → ℕ → ℕ
highest_bit zero n = 0
highest_bit (suc bits) n =
    let above = highest_bit bits (n / 2) in if n / 2 == 0 then 0 else suc above

unfoldable pub order_for : ℕ → ℕ
order_for num_pages =
    let highest = highest_bit 32 num_pages in
    if num_pages - 2 ^ highest == 0 then highest else suc highest

unfoldable pub bit_index : ℕ → ℕ → ℕ
bit_index size block = block / size / 2

-- Lines 16-27 of the constructor: the orders from one on, the last of which is the highest.
unfoldable pub empty_order : ℕ → ℕ → Order
empty_order size num_pages = record {
  block_map = make ((num_pages / size + 1) / 2) false;
  freelist = [];
}

unfoldable pub make_orders : ℕ → ℕ → ℕ → List Order
make_orders zero size num_pages =
    record {
      block_map = set_bit (make ((num_pages / size + 1) / 2) false) (bit_index size 0) true;
      freelist = 0 ∷ [];
    }
    ∷ []
make_orders (suc higher) size num_pages =
    empty_order size num_pages ∷ make_orders higher (size + size) num_pages

unfoldable pub make_zone : ℕ → ℕ → Result Zone
make_zone first_page num_pages =
    assert (2 ^ order_for num_pages == num_pages)
    >> assert (leb (order_for num_pages) max_order)
    >> ok (record {
      first_page = first_page;
      num_pages = num_pages;
      free_pages = num_pages;
      orders = make_orders (order_for num_pages) 1 num_pages;
    })

-- Lines 56-68: the block of the next order is split, and its second half becomes free.
unfoldable pub split : ℕ → Order → ℕ × List Order → ℕ × List Order
split size bucket (higher, above) = (
  higher,
  record {
    block_map = set_bit bucket.block_map (bit_index size higher) true;
    freelist = (higher + size) ∷ [];
  }
      ∷ above,
)

-- Lines 71-82: the first block of the free list.
unfoldable pub take_first : ℕ → Order → List Order → ℕ → List ℕ → Result (ℕ × List Order)
take_first size bucket above block rest =
    assert (get_bit bucket.block_map (bit_index size block))
    >> ok (
      block,
      record { block_map = set_bit bucket.block_map (bit_index size block) false; freelist = rest }
          ∷ above,
    )

-- Splits `higher`, which is the result of the call for the next order, or takes the first block.
unfoldable pub give_block :
    ℕ → Order → List Order → Result (ℕ × List Order) → List ℕ → Result (ℕ × List Order)
give_block size bucket above higher [] = higher >>= λ got. ok (split size bucket got)
give_block size bucket above higher (block ∷ rest) = take_first size bucket above block rest

-- `alloc_block_internal` at the first of the orders; its ASSERT fails above the highest order.
unfoldable pub alloc_from : ℕ → List Order → Result (ℕ × List Order)
alloc_from size [] = panic
alloc_from size (bucket ∷ above) =
    give_block size bucket above (alloc_from (size + size) above) bucket.freelist

-- `alloc_block_internal(order)`, where `size` is size_of_order of the first of the orders.
unfoldable pub alloc_at : ℕ → ℕ → List Order → Result (ℕ × List Order)
alloc_at zero size orders = alloc_from size orders
alloc_at (suc order) size [] = panic
alloc_at (suc order) size (bucket ∷ above) =
    alloc_at order (size + size) above >>= λ got. ok (got.0, bucket ∷ got.1)

unfoldable pub remove : ℕ → List ℕ → List ℕ
remove block [] = []
remove block (b ∷ bs) = if b == block then bs else b ∷ remove block bs

-- The block that is merged with this one.
unfoldable pub buddy_of : ℕ → ℕ → ℕ
buddy_of size block =
    let first = bit_index size block * 2 * size in if block == first then first + size else first

-- `free_block_internal` at the first of the orders.
unfoldable pub free_from : ℕ → List Order → ℕ → Result (List Order)
free_from size [] block = panic
free_from size (bucket ∷ above) block = elim (get_bit bucket.block_map (bit_index size block)) [
  | true ↦ free_from (size + size) above (bit_index size block * 2 * size) >>= λ above'. ok (
      record {
        block_map = set_bit bucket.block_map (bit_index size block) false;
        freelist = remove (buddy_of size block) bucket.freelist;
      }
      ∷ above')
  | false ↦ ok (
      record {
        block_map = set_bit bucket.block_map (bit_index size block) true;
        freelist = block ∷ bucket.freelist;
      }
      ∷ above)
]

-- `free_block_internal(block, order)`
unfoldable pub free_at : ℕ → ℕ → List Order → ℕ → Result (List Order)
free_at zero size orders block = free_from size orders block
free_at (suc order) size [] block = panic
free_at (suc order) size (bucket ∷ above) block =
    free_at order (size + size) above block >>= λ above'. ok (bucket ∷ above')

unfoldable pub alloc_block : Zone → ℕ → Result (ℕ × Zone)
alloc_block zone num_pages =
    fail_if (ltb zone.free_pages num_pages) enomem
    >> (alloc_at (order_for num_pages) 1 zone.orders >>= λ got. ok (
      add_word zone.first_page got.0,
      record zone { free_pages = sub_word zone.free_pages num_pages; orders = got.1 },
    ))

unfoldable pub free_block : Zone → ℕ → ℕ → Result Zone
free_block zone start_page num_pages =
    assert (leb zone.first_page start_page)
    >> assert (leb (add_word start_page num_pages) (add_word zone.first_page zone.num_pages))
    >> assert (2 ^ order_for num_pages == num_pages)
    >> (free_at (order_for num_pages) 1 zone.orders (sub_word start_page zone.first_page)
        >>= λ orders'.
            ok (record zone { free_pages = add_word zone.free_pages num_pages; orders = orders' }))

unfoldable pub contains_page : Zone → ℕ → Bool
contains_page zone page =
    leb zone.first_page page && ltb page (add_word zone.first_page zone.num_pages)
