-- ===== src/Memory/Pagefault/Examples.antt =====
-- Faults on a region of three pages: the theorems on `try_pagefault` at it.
use nusa_os.Common.{
  add_word, sub_word, ℕ, List, All, ◌++◌, ◌≢◌, zero, suc, ◌<◌, ◌≡◌, refl, true, false, some, [],
  ◌∷◌, arith, ok, get_or, length,
}
use nusa_os.Kstd.Bitmap.{get_bit}
use nusa_os.Kstd.Bitmap.Laws.{Fits}
use nusa_os.Memory.Space.{VmProt, VmRegion, Region, Space, contains, end}
use nusa_os.Memory.Object.{Phys, VmObject, page_is_cow}
use nusa_os.Memory.Object.Samples.{
  memory, next_page, parent, child, next_page-IsFresh, memory-IsCounted,
}
use nusa_os.Memory.Buddy.Blocks.{count}
use nusa_os.Memory.Object.Uses.{uses, IsCounted}
use nusa_os.Memory.Pagefault.{
  reading, is_denied, vm_contains, locate_in, locate_at, resolve, try_pagefault,
}
use nusa_os.Memory.Pagefault.Ready.{
  Located, IsMarked, IsReady, resolve-IsReady, try_pagefault-permitted,
}

abbrev writable : VmProt
writable = record { read = true; write = true; execute = false }

abbrev mapped : VmRegion
mapped = record {
  id = 7;
  object = 3;
  start = 4096;
  size = 12288;
  object_start = 0;
  prot = writable;
}

abbrev space : Space
space = record {
  start = 4096;
  size = 12288;
  regions = record { start = 4096; size = 12288; used = true; vm_region = some mapped } ∷ [];
  used = 12288;
}

parent-IsMarked : IsMarked parent (child ∷ [])
unfolding IsMarked Fits page_is_cow get_bit uses count
parent-IsMarked = ((omega arith, (omega arith, tt)), marks, own)
  where
    two_or_more :
        (i : ℕ)
        → suc (suc i) < length parent.physical_pages
        → get_or parent.physical_pages (suc (suc i)) 0 ≡ 0
        → page_is_cow parent (suc (suc i)) ≡ false
    two_or_more zero lt missing = absurd (omega (arith, missing))
    two_or_more (suc i) lt missing = absurd (omega arith)

    marks :
        (i : ℕ)
        → i < length parent.physical_pages
        → get_or parent.physical_pages i 0 ≡ 0
        → page_is_cow parent i ≡ false
    marks zero lt missing = absurd (omega (arith, missing))
    marks (suc zero) lt missing = refl
    marks (suc (suc i)) lt missing = two_or_more i lt missing

    own :
        (i : ℕ)
        → i < length parent.physical_pages
        → get_or parent.physical_pages i 0 ≢ 0
        → page_is_cow parent i ≡ false
        → uses (child ∷ []) (get_or parent.physical_pages i 0) ≡ 0
    own zero lt there clear = cc
    own (suc zero) lt there clear = absurd (there refl)
    own (suc (suc zero)) lt there clear = refl
    own (suc (suc (suc i))) lt there clear = absurd (omega arith)

resolve-IsReady_example :
    (m' : Phys) × (object' : VmObject) × (resolve next_page memory parent writable 0
      ≡ ok (m', object'))
    × IsReady object' (child ∷ []) writable 0
    × IsCounted m' (object' ∷ child ∷ [])
    × ((p : ℕ) → 0 < uses (child ∷ []) p → m'.bytes p ≡ memory.bytes p)
resolve-IsReady_example =
    resolve-IsReady next_page memory parent (child ∷ []) writable 0 9 next_page-IsFresh
      memory-IsCounted parent-IsMarked (omega arith) refl

read_run : try_pagefault next_page (λ _. parent) memory space 12290 reading ≡ ok (memory, parent)
unfolding try_pagefault locate_in locate_at vm_contains is_denied contains end resolve add_word
    sub_word page_is_cow get_bit
read_run = refl

try_pagefault-permitted_example :
    (before : List Region) × (node : Region) × (after : List Region) × (found : VmRegion)
    × (page : ℕ) × (space.regions ≡ before ++ (node ∷ after))
    × All (λ r. contains r 12290 ≡ false) before
    × (contains node 12290 ≡ true)
    × Located node found page 12290 reading
    × (resolve next_page memory parent found.prot page ≡ ok (memory, parent))
try_pagefault-permitted_example =
    try_pagefault-permitted next_page (λ _. parent) memory space 12290 reading memory parent
      read_run
