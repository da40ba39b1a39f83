-- ===== src/Memory/Space.antt =====
-- kernel/memory/VMSpace.cpp and VMSpace.h: the regions of a virtual address space.
-- The doubly linked list of `VMSpaceRegion` is the list of its nodes in `next` order. A pointer to
-- a node is a cursor: the node, its `prev` chain (nearest first) and its `next` chain. Mutex
-- sections run as one step. `PageDirectory::map` and `unmap` write page tables and not the list;
-- they are left out. A `VMRegion` is its fields and the address `id` at which `new` put it.
pub mod Cursors
pub mod Mapping
pub mod Inv
pub mod Alloc
pub mod AllocAt
pub mod Fixed
pub mod Free
pub mod Unmap
pub mod Occupancy
pub mod Mapped
pub mod Roundtrip
mod Examples
use nusa_os.Common.{
  ℕ, ◌%◌, Bool, true, false, not, ◌&&◌, ◌||◌, Option, none, some, List, [], ◌∷◌, ltb, leb, ◌==◌,
  if◌then◌else◌, rev_append, Errno, enomem, Result, ok, err, ◌>>=◌, ◌>>◌, assert, add_word,
  sub_word,
}

abbrev pub page_size : ℕ
page_size = 4096

pub record VmProt : Type 0 where
  pub read : Bool
  pub write : Bool
  pub execute : Bool

-- `VMRegion` (VMRegion.h); its object is known by its address, `object`.
pub record VmRegion : Type 0 where
  pub id : ℕ
  pub object : ℕ
  pub start : ℕ
  pub size : ℕ
  pub object_start : ℕ
  pub prot : VmProt

-- `VMSpaceRegion`, without the links
pub record Region : Type 0 where
  pub start : ℕ
  pub size : ℕ
  pub used : Bool
  pub vm_region : Option VmRegion

pub record Space : Type 0 where
  pub start : ℕ
  pub size : ℕ
  pub regions : List Region
  pub used : ℕ

-- A `VMSpaceRegion*`
pub record Cursor : Type 0 where
  pub before : List Region
  pub region : Region
  pub after : List Region

abbrev pub close : Cursor → List Region
close c = rev_append c.before (c.region ∷ c.after)

-- What an allocation hands back: where the region is, and the new `m_used`.
pub record Placed : Type 0 where
  pub at : Cursor
  pub used : ℕ

abbrev pub commit : Space → Placed → Space
commit s p = record s { regions = close p.at; used = p.used }

pub init : ℕ → ℕ → Space
init start size = record {
  start = start;
  size = size;
  regions = record { start = start; size = size; used = false; vm_region = none } ∷ [];
  used = 0;
}

unfoldable pub end : Region → ℕ
end r = add_word r.start r.size

unfoldable pub contains : Region → ℕ → Bool
unfolding end
contains r address = leb r.start address && ltb address (end r)

-- `while(cur_region) { if(test) …return; cur_region = cur_region->next; }`, from a node on.
pub seek_from : (Region → Bool) → List Region → List Region → Option Cursor
seek_from test before [] = none
seek_from test before (r ∷ after) =
    if test r
    then some (record { before = before; region = r; after = after })
    else seek_from test (r ∷ before) after

unfoldable pub seek : (Region → Bool) → Space → Option Cursor
seek test s = seek_from test [] s.regions

abbrev pub or_fail {ℓ} : {A : Type ℓ} → Option A → Errno → Result A
or_fail none e = err e
or_fail (some a) e = ok a

-- A region that `alloc_space` does not pass.
unfoldable pub is_free_for : ℕ → Region → Bool
is_free_for size r = not (r.used || ltb r.size size)

-- `alloc_space` at the region found: use it whole, or put a new region before it.
unfoldable pub carve : ℕ → ℕ → Cursor → Placed
carve size used c =
    let r = c.region in
    if r.size == size
    then record { at = record c { region = record r { used = true } }; used = add_word used r.size }
    else record {
      at = record {
        before = c.before;
        region = record { start = r.start; size = size; used = true; vm_region = none };
        after = record r { start = add_word r.start size; size = sub_word r.size size } ∷ c.after;
      };
      used = add_word used size;
    }

unfoldable pub alloc_space : Space → ℕ → Result Placed
alloc_space s size = do
  assert (size % page_size == 0)
  c ← or_fail (seek (is_free_for size) s) enomem
  ok (carve size s.used c)

unfoldable pub free_part : ℕ → ℕ → Region
free_part start size = record { start = start; size = size; used = false; vm_region = none }

-- The list before the region that `alloc_space_at` fits at `address` in a free region.
unfoldable pub split_before : ℕ → Cursor → List Region
unfolding free_part
split_before address c =
    let r = c.region in
    if ltb r.start address
    then free_part r.start (sub_word address r.start) ∷ c.before
    else c.before

unfoldable pub split_after : ℕ → ℕ → Cursor → List Region
unfolding free_part end
split_after size address c =
    let r = c.region in
    let stop = add_word address size in
    if ltb stop (end r) then free_part stop (sub_word (end r) stop) ∷ c.after else c.after

-- `alloc_space_at` at the region that contains `address`
unfoldable pub carve_at : ℕ → ℕ → ℕ → Cursor → Result Placed
unfolding split_before split_after
carve_at size address used c =
    let r = c.region in
    if r.used
    then err enomem
    else if r.size == size
    then ok (record {
      at = record c { region = record r { used = true } };
      used = add_word used r.size;
    })
    else if leb size (sub_word r.size (sub_word address r.start))
    then ok (record {
      at = record {
        before = split_before address c;
        region = record r { start = address; size = size; used = true };
        after = split_after size address c;
      };
      used = add_word used size;
    })
    else err enomem

unfoldable pub alloc_space_at : Space → ℕ → ℕ → Result Placed
alloc_space_at s size address = do
  assert (address % page_size == 0)
  assert (size % page_size == 0)
  c ← or_fail (seek (λ r. contains r address) s) enomem
  carve_at size address s.used c

-- The two merges of `free_region`
unfoldable pub merge_prev : Cursor → Cursor
merge_prev c = elim c.before [
  | [] ↦ c
  | p ∷ before ↦ if p.used then c else record c {
    before = before;
    region = record (c.region) {
      start = sub_word c.region.start p.size;
      size = add_word c.region.size p.size;
    };
  }
]

unfoldable pub merge_next : Cursor → Cursor
merge_next c = elim c.after [
  | [] ↦ c
  | n ∷ after ↦ if n.used then c else record c {
    region = record (c.region) { size = add_word c.region.size n.size };
    after = after;
  }
]

unfoldable pub free_region : ℕ → Cursor → Placed
unfolding merge_prev merge_next
free_region used c =
    let freed = record c { region = record (c.region) { used = false; vm_region = none } } in
    record { at = merge_next (merge_prev freed); used = sub_word used c.region.size }
