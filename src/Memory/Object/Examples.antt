-- ===== src/Memory/Object/Examples.antt =====
-- Two objects that share a page: tests of kernel/memory/VMObject.cpp, and the theorems at them.
use nusa_os.Common.{ℕ, ◌+◌, ◌<◌, ◌≡◌, ◌≢◌, refl, true, false, [], ◌∷◌, get_or, arith, ok}
use nusa_os.Kstd.Bitmap.{get_bit}
use nusa_os.Kstd.Bitmap.Laws.{Fits}
use nusa_os.Memory.Object.{
  Phys, VmObject, put, page_is_cow, cow_copy, try_cow_page, clone, zeros, try_fault_in_page,
  alloc_physical_page, copy_page,
}
use nusa_os.Memory.Object.Samples.{
  memory, next_page, parent, child, next_page-IsFresh, memory-IsCounted,
}
use nusa_os.Memory.Object.Uses.{uses, IsCounted, view}
use nusa_os.Memory.Buddy.Blocks.{count}
use nusa_os.Memory.Object.Cow.{IsShared, copied, try_cow_page-resolves}
use nusa_os.Memory.Object.Share.{clone-shares}
use nusa_os.Memory.Object.Fault.{try_fault_in_page-fills}

parent-IsShared : IsShared parent 0
unfolding IsShared Fits page_is_cow get_bit
parent-IsShared =
    ((omega arith, (omega arith, tt)), omega arith, refl, λ e. absurd (omega (arith, e)))

try_cow_page-resolves_example :
    (m' : Phys) × (object' : VmObject) × (try_cow_page next_page memory parent 0 ≡ ok (m', object'))
    × IsCounted m' (object' ∷ child ∷ [])
    × (page_is_cow object' 0 ≡ false)
    × (get_or object'.physical_pages 0 0 ≡ 9)
    × (uses (child ∷ []) 9 ≡ 0)
    × ((i : ℕ) → view m' object' i ≡ view memory parent i)
    × ((p : ℕ) → 0 < uses (child ∷ []) p → m'.bytes p ≡ p ∷ [])
try_cow_page-resolves_example =
    try_cow_page-resolves next_page memory parent (child ∷ []) 0 9 next_page-IsFresh
      memory-IsCounted parent-IsShared refl

abbrev twice : Phys
twice = copied (copied memory 5 9) 5 12

second_copy : cow_copy next_page (copied memory 5 9) 5 ≡ ok (12, twice)
unfolding cow_copy alloc_physical_page copy_page put
second_copy = refl

first_copy : cow_copy next_page memory 5 ≡ ok (9, copied memory 5 9)
unfolding cow_copy alloc_physical_page copy_page
first_copy = refl

parent-Fits : Fits parent.cow_pages 3
unfolding Fits
parent-Fits = (omega arith, (omega arith, tt))

clone-shares_example :
    (m' : Phys) × (object' : VmObject) × (copy : VmObject) × (clone memory parent false
      ≡ ok (m', object', copy))
    × IsCounted m' (object' ∷ copy ∷ child ∷ [])
    × (object'.physical_pages ≡ 5 ∷ 0 ∷ 6 ∷ [])
    × (copy.physical_pages ≡ 5 ∷ 0 ∷ 6 ∷ [])
    × ((i : ℕ)
        → i < 3
        → get_or parent.physical_pages i 0 ≢ 0
        → (page_is_cow object' i ≡ true) × (page_is_cow copy i ≡ true))
    × ((p : ℕ) → m'.bytes p ≡ p ∷ [])
unfolding count
clone-shares_example =
    clone-shares memory parent (child ∷ []) memory-IsCounted parent-Fits
      (λ p some_page. ground arith)

try_fault_in_page-fills_example :
    (m' : Phys) × (object' : VmObject) × (try_fault_in_page next_page memory parent 1
      ≡ ok (true, m', object'))
    × IsCounted m' (object' ∷ child ∷ [])
    × (object'.num_committed_pages ≡ 2 + 1)
    × (get_or object'.physical_pages 1 0 ≡ 9)
    × (object'.cow_pages ≡ parent.cow_pages)
    × (view m' object' 1 ≡ zeros)
    × ((i : ℕ) → 1 ≢ i → view m' object' i ≡ view memory parent i)
    × ((p : ℕ) → 0 < uses (child ∷ []) p → m'.bytes p ≡ p ∷ [])
try_fault_in_page-fills_example =
    try_fault_in_page-fills next_page memory parent (child ∷ []) 1 9 next_page-IsFresh
      memory-IsCounted (omega arith) refl refl
