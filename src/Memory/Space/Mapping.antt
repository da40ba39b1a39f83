-- ===== src/Memory/Space/Mapping.antt =====
-- kernel/memory/VMSpace.cpp: the operations by which the kernel maps objects, built on the region
-- list. `id` is the address at which the new `VMRegion` is allocated. A read through a null
-- `cur_region`, which `map_stack` makes, is a fault in the kernel: `panic`.
use nusa_os.Common.{
  List, ◌∷◌, Option, ◌*◌, word_mod, ℕ, ◌%◌, Bool, false, not, ◌&&◌, leb, ◌||◌, none, some, [], ltb,
  ◌==◌, if◌then◌else◌, rev_append, enoent, enomem, einval, Result, ok, err, panic, ◌>>=◌, ◌>>◌,
  fail_if, add_word, sub_word,
}
use nusa_os.Memory.Space.{
  page_size, VmProt, VmRegion, Region, Space, Cursor, Placed, commit, end, contains, seek_from,
  seek, or_fail, is_free_for, alloc_space, alloc_space_at, free_region,
}

-- What the code reads of a `VMObject`: its address and `size()`.
pub record VmObject : Type 0 where
  pub id : ℕ
  pub size : ℕ

-- `region->vmRegion = …`, through the pointer that an allocation returned.
abbrev pub attach : VmRegion → Placed → Placed
attach vm p = record p {
  at = record (p.at) { region = record (p.at.region) { vm_region = some vm } };
}

-- The checks of `map_object` on its range, after the default for an empty one.
unfoldable pub is_bad_range : VmObject → ℕ → ℕ → ℕ → Bool
is_bad_range object start size object_start =
    not (start % page_size == 0)
    || not (size % page_size == 0)
    || not (object_start % page_size == 0)
    || ltb object.size (add_word object_start size)

unfoldable pub range_size : VmObject → ℕ → ℕ → ℕ
range_size object size object_start = if size == 0 then sub_word object.size object_start else size

-- `range.start ? alloc_space_at : alloc_space`
unfoldable pub place : Space → ℕ → ℕ → Result Placed
place s start size = if start == 0 then alloc_space s size else alloc_space_at s size start

-- The `VMRegion` that `map_object` makes for a placed region.
unfoldable pub new_vm_region : ℕ → VmObject → VmProt → ℕ → ℕ → Placed → VmRegion
new_vm_region id object prot size object_start p = record {
  id = id;
  object = object.id;
  start = p.at.region.start;
  size = size;
  object_start = object_start;
  prot = prot;
}

unfoldable pub map_object : ℕ → Space → VmObject → VmProt → ℕ → ℕ → ℕ → Result (VmRegion × Space)
unfolding is_bad_range range_size place new_vm_region
map_object id s object prot start size object_start = do
  let size' = range_size object size object_start
  fail_if (is_bad_range object start size' object_start) einval
  p ← place s start size'
  let vm = new_vm_region id object prot size' object_start p
  ok (vm, commit s (attach vm p))

unfoldable pub map_object_with_sentinel : ℕ → Space → VmObject → VmProt → Result (VmRegion × Space)
map_object_with_sentinel id s object prot = do
  p ← alloc_space s (add_word object.size (add_word page_size page_size))
  let vm : VmRegion = record {
    id = id;
    object = object.id;
    start = add_word p.at.region.start page_size;
    size = object.size;
    object_start = 0;
    prot = prot;
  }
  ok (vm, commit s (attach vm p))

-- `map_stack` goes from the last region towards the first. Its test reads `cur_region->used` before
-- it tests `cur_region`, so it faults when no region fits.
unfoldable pub map_stack : ℕ → Space → VmObject → VmProt → Result (VmRegion × Space)
map_stack id s object prot =
    elim (seek_from (is_free_for object.size) [] (rev_append s.regions [])) [
      | none ↦ panic
      | some c ↦ map_object id s object prot (sub_word (end c.region) object.size) object.size 0
    ]

-- The end of both `unmap_region`s, at the region that the loop stopped at.
unfoldable pub unmap_at : Space → Cursor → Result Space
unmap_at s c = elim c.region.vm_region [
  | none ↦ err enoent
  | some vm ↦ ok (commit s (free_region s.used c))
]

unfoldable pub maps : ℕ → Region → Bool
maps id r = elim r.vm_region [ none ↦ false | some vm ↦ vm.id == id ]

-- `unmap_region(VMRegion&)` and `unmap_region(VirtualAddress)`
unfoldable pub unmap_region : Space → ℕ → Result Space
unfolding maps unmap_at
unmap_region s id = do c ← or_fail (seek (maps id) s) enoent; unmap_at s c

unfoldable pub unmap_region_at : Space → ℕ → Result Space
unfolding unmap_at
unmap_region_at s address = do c ← or_fail (seek (λ r. r.start == address) s) enoent; unmap_at s c

unfoldable pub get_region_at : Space → ℕ → Result VmRegion
get_region_at s address = do
  c ← or_fail (seek (λ r. r.start == address) s) enoent
  or_fail c.region.vm_region enoent

unfoldable pub get_region_containing : Space → ℕ → Result VmRegion
get_region_containing s address = do
  c ← or_fail (seek (λ r. contains r address) s) enoent
  or_fail c.region.vm_region enoent

unfoldable pub reserve_region : Space → ℕ → ℕ → Result Space
reserve_region s start size = do p ← alloc_space_at s size start; ok (commit s p)

-- A region that `find_free_space` returns.
unfoldable pub has_room : ℕ → Region → Bool
has_room size r = not r.used && leb size r.size

unfoldable pub find_free_space : Space → ℕ → Result ℕ
find_free_space s size = do c ← or_fail (seek (has_room size) s) enomem; ok c.region.start

-- The loop of `calculate_regular_anonymous_total`, given the committed pages of each object. A used
-- region without a `VMRegion`, as `reserve_region` makes it, is a read through a null pointer.
abbrev pub region_pages : (ℕ → ℕ) → Option VmRegion → Result ℕ
region_pages num_committed_pages none = panic
region_pages num_committed_pages (some vm) = ok (num_committed_pages vm.object)

abbrev pub total_pages : (ℕ → ℕ) → List Region → ℕ → Result ℕ
total_pages num_committed_pages [] total = ok total
total_pages num_committed_pages (r ∷ rest) total =
    if r.used
    then (region_pages num_committed_pages r.vm_region >>= λ pages.
        total_pages num_committed_pages rest (add_word total pages))
    else total_pages num_committed_pages rest total

unfoldable pub calculate_regular_anonymous_total : (ℕ → ℕ) → Space → Result ℕ
calculate_regular_anonymous_total num_committed_pages s =
    total_pages num_committed_pages s.regions 0 >>= λ total. ok (total * page_size % word_mod)

-- `iterate_regions`: the regions that the callback is called with, when it never breaks off.
abbrev pub iterated : List Region → List (Option VmRegion)
iterated [] = []
iterated (r ∷ rest) = if r.used then r.vm_region ∷ iterated rest else iterated rest

pub iterate_regions : Space → List (Option VmRegion)
iterate_regions s = iterated s.regions
