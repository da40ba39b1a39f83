-- ===== src/Memory/Pagefault.antt =====
-- `VMSpace::try_pagefault` (kernel/memory/VMSpace.cpp): the region that an access falls in, and the
-- page of its object. Page tables are left out.
pub mod Ready
mod Examples
use nusa_os.Common.{
  ℕ, ◌+◌, ◌-◌, ◌/◌, Bool, true, false, not, ◌&&◌, ◌||◌, Option, none, some, List, [], ◌∷◌, ltb, leb,
  ◌==◌, if◌then◌else◌, get_or, length, einval, enoent, Result, err, ok, ◌>>=◌, ◌>>◌, assert,
  fail_if, add_word, sub_word,
}
use nusa_os.Memory.Space.{VmProt, VmRegion, Region, Space, contains, page_size}
use nusa_os.Memory.Object.{Phys, VmObject, page_is_cow, try_cow_page, try_fault_in_page}

-- `PageFault::Type`
pub data Access : Type 0 where
  reading writing executing unknown : Access

-- Lines 237-244: the protection lacks what the access needs.
unfoldable pub is_denied : VmProt → Access → Bool
is_denied prot reading = not prot.read
is_denied prot writing = not prot.write
is_denied prot executing = not prot.execute
is_denied prot unknown = false

unfoldable pub vm_contains : VmRegion → ℕ → Bool
vm_contains region address =
    leb region.start address && ltb address (add_word region.start region.size)

-- Lines 228-247, at a region that contains the address: the page in the object.
unfoldable pub locate_at : Option VmRegion → ℕ → Access → Result (VmRegion × ℕ)
locate_at none address access = err einval
locate_at (some region) address access =
    fail_if (not (vm_contains region address)) enoent
    >> fail_if (is_denied region.prot access) einval
    >> ok (
      region,
      add_word (sub_word address region.start / page_size) (region.object_start / page_size),
    )

-- The walk of the region list.
unfoldable pub locate_in : List Region → ℕ → Access → Result (VmRegion × ℕ)
locate_in [] address access = err enoent
locate_in (region ∷ regions) address access =
    let rest = locate_in regions address access in
    if contains region address then locate_at region.vm_region address access else rest

-- Lines 251-271, under the lock of the object.
unfoldable pub resolve : (Phys → Result ℕ) → Phys → VmObject → VmProt → ℕ → Result (Phys × VmObject)
resolve take m object prot page =
    assert (ltb page (length object.physical_pages))
    >> (if not (get_or object.physical_pages page 0 == 0)
        then (if prot.write && page_is_cow object page
            then try_cow_page take m object page
            else ok (m, object))
        else (try_fault_in_page take m object page >>= λ r.
            assert (not (get_or r.2.physical_pages page 0 == 0)) >> ok (r.1, r.2)))

-- The whole of it; `objects` finds the object at an address.
unfoldable pub try_pagefault :
    (Phys → Result ℕ) → (ℕ → VmObject) → Phys → Space → ℕ → Access → Result (Phys × VmObject)
try_pagefault take objects m space address access =
    locate_in space.regions address access >>= λ found.
    resolve take m (objects found.0.object) found.0.prot found.1
