-- ===== src/Memory/Space/Examples.antt =====
-- A space of sixteen pages with one region in use: tests of kernel/memory/VMSpace.cpp, and the
-- theorems at it.
use nusa_os.Common.{
  List, rev_append, ◌⊎◌, ◌<◌, ◌≤◌, ◌≡◌, inr, refl, true, false, none, some, [], ◌∷◌, ◌||◌, arith,
  All, ok, add_word, sub_word,
}
use nusa_os.Memory.Space.{
  VmProt, VmRegion, Region, Space, Cursor, Placed, close, commit, init, contains, seek, seek_from,
  is_free_for, carve, carve_at, alloc_space, alloc_space_at, free_region,
}
use nusa_os.Memory.Space.Mapping.{
  VmObject, map_object, get_region_at, unmap_region_at, find_free_space, range_size, attach,
}
use nusa_os.Memory.Space.Inv.{IsValid}
use nusa_os.Memory.Space.Alloc.{alloc_space-IsValid, alloc_space-first_fit}
use nusa_os.Memory.Space.Fixed.{alloc_space_at-IsValid}
use nusa_os.Memory.Space.Unmap.{unmap_region-IsValid}
use nusa_os.Memory.Space.Mapped.{get-map_object}
use nusa_os.Memory.Space.Occupancy.{occupied, in_range, alloc_space-occupied}
use nusa_os.Memory.Space.Roundtrip.{free-alloc_space}

abbrev rw_prot : VmProt
rw_prot = record { read = true; write = true; execute = false }

abbrev mapped : VmRegion
mapped = record { id = 7; object = 3; start = 4096; size = 8192; object_start = 0; prot = rw_prot }

abbrev busy : Region
busy = record { start = 4096; size = 8192; used = true; vm_region = some mapped }

abbrev free_rest : Region
free_rest = record { start = 12288; size = 57344; used = false; vm_region = none }

abbrev small : Space
small = record { start = 4096; size = 65536; regions = busy ∷ free_rest ∷ []; used = 8192 }

small-IsValid : IsValid small
small-IsValid = record {
  layout = (
    refl,
    omega arith,
    (refl, refl),
    refl,
    (λ e. cc),
    (refl, omega arith, (refl, refl), refl, (λ _. refl), refl),
  );
  counted = refl;
  fits = omega arith;
}

-- Two pages after the region in use.
abbrev placed : Placed
placed = record {
  at = record {
    before = busy ∷ [];
    region = record { start = 12288; size = 8192; used = true; vm_region = none };
    after = record { start = 20480; size = 49152; used = false; vm_region = none } ∷ [];
  };
  used = 16384;
}

alloc_small : alloc_space small 8192 ≡ ok placed
unfolding alloc_space seek seek_from is_free_for carve add_word sub_word
alloc_small = refl

-- One page in the middle of the free region.
abbrev placed_at : Placed
placed_at = record {
  at = record {
    before = record { start = 12288; size = 4096; used = false; vm_region = none } ∷ busy ∷ [];
    region = record { start = 16384; size = 4096; used = true; vm_region = none };
    after = record { start = 20480; size = 49152; used = false; vm_region = none } ∷ [];
  };
  used = 12288;
}

alloc_at_small : alloc_space_at small 4096 16384 ≡ ok placed_at
unfolding alloc_space_at seek seek_from contains carve_at add_word sub_word
alloc_at_small = refl

free_cursor : Cursor
free_cursor = record { before = busy ∷ []; region = free_rest; after = [] }

seek_free : seek (λ r. contains r 16384) small ≡ some free_cursor
unfolding seek seek_from contains add_word free_cursor
seek_free = refl

alloc_space-IsValid_example : IsValid (commit small placed)
alloc_space-IsValid_example =
    alloc_space-IsValid small 8192 placed small-IsValid (omega arith) alloc_small

alloc_space-first_fit_example :
    (placed.at.region.size ≡ 8192)
    × (placed.at.region.used ≡ true)
    × (find_free_space small 8192 ≡ ok 12288)
    × ((old : Region) × (after : List Region) × (small.regions
          ≡ rev_append (busy ∷ []) (old ∷ after))
        × (old.used ≡ false)
        × (8192 ≤ old.size)
        × (12288 ≡ old.start))
    × All (λ r. (r.used ≡ true) ⊎ (r.size < 8192)) (busy ∷ [])
alloc_space-first_fit_example = alloc_space-first_fit small 8192 placed alloc_small

alloc_space_at-IsValid_example : IsValid (commit small placed_at)
alloc_space_at-IsValid_example =
    alloc_space_at-IsValid small 4096 16384 placed_at small-IsValid (omega arith) alloc_at_small

abbrev unmapped : Space
unmapped = init 4096 65536

unmap_small : unmap_region_at small 4096 ≡ ok unmapped
unfolding unmap_region_at seek seek_from free_region add_word sub_word init
unmap_small = refl

unmap_region-IsValid_example : IsValid unmapped
unmap_region-IsValid_example =
    unmap_region-IsValid small unmapped 7 4096 small-IsValid (inr unmap_small)

abbrev object : VmObject
object = record { id = 9; size = 8192 }

abbrev fresh : VmRegion
fresh = record { id = 11; object = 9; start = 12288; size = 8192; object_start = 0; prot = rw_prot }

map_small :
    map_object 11 small object rw_prot 0 0 0 ≡ ok (fresh, commit small (attach fresh placed))
unfolding map_object alloc_space seek seek_from is_free_for carve add_word sub_word
map_small = refl

get-map_object_example :
    IsValid (commit small (attach fresh placed))
    × (fresh.id ≡ 11)
    × (fresh.size ≡ sub_word object.size 0)
    × (get_region_at (commit small (attach fresh placed)) 12288 ≡ ok fresh)
unfolding range_size sub_word
get-map_object_example =
    get-map_object 11 small (commit small (attach fresh placed)) object rw_prot 0 0 0 fresh
      small-IsValid (omega arith) map_small

alloc_space-occupied_example :
    (occupied (close placed.at) 12288
      ≡ (occupied (busy ∷ free_rest ∷ []) 12288 || in_range 12288 8192 12288))
    × (in_range 12288 8192 12288 ≡ true → occupied (busy ∷ free_rest ∷ []) 12288 ≡ false)
alloc_space-occupied_example =
    alloc_space-occupied small 8192 placed 12288 small-IsValid alloc_small

free-alloc_space_example : commit small (free_region 16384 placed.at) ≡ small
free-alloc_space_example = free-alloc_space small 8192 placed small-IsValid alloc_small
