-- ===== src/Memory/Object.antt =====
-- kernel/memory/VMObject.cpp and AnonymousVMObject.cpp: the pages of an object in virtual memory,
-- faults on them and copy-on-write, with the reference counts of kernel/memory/PhysicalPage.h.
-- The page 0 stands for none. A page in no use has the count 0; which one is handed out next is
-- `take`, an argument (Memory/Region.antt has the regions that are searched). Faults come from
-- `VMSpace::try_pagefault`, which holds the object's recursive lock over the whole fault; where the
-- functions called take it again, a fault is split. The flag of reserved pages and the names of
-- objects are left out.
pub mod Uses
pub mod Cow
pub mod Share
pub mod Fault
pub mod Samples
mod Examples
use nusa_os.Common.{
  ℕ, zero, suc, ◌+◌, ◌-◌, Bool, true, false, not, List, [], ◌∷◌, ltb, ◌==◌, if◌then◌else◌, get_or,
  set, length, replicate, einval, Result, ok, ◌>>=◌, ◌>>◌, assert, fail_if,
}
use nusa_os.Kstd.Bitmap.{Bitmap, make, get_bit, set_bit}

-- Memory by page index: the counts of references, and the bytes.
pub record Phys : Type 0 where
  pub ref_count : ℕ → ℕ
  pub bytes : ℕ → List ℕ

-- `VMObject`, and m_num_committed_pages of `AnonymousVMObject`
pub record VmObject : Type 0 where
  pub physical_pages : List ℕ
  pub cow_pages : Bitmap
  pub num_committed_pages : ℕ

unfoldable pub put {ℓ} : {A : Type ℓ} → (ℕ → A) → ℕ → A → ℕ → A
put f p value q = if q == p then value else f q

-- `PhysicalPage::ref`, which panics past 16 bits
unfoldable pub ref : Phys → ℕ → Result Phys
ref m page =
    assert (not (m.ref_count page == 65535))
    >> ok (record m { ref_count = put m.ref_count page (m.ref_count page + 1) })

-- `MemoryManager::free_physical_page`
unfoldable pub free_physical_page : Phys → ℕ → Result Phys
free_physical_page m page = assert (m.ref_count page == 0) >> ok m

-- `PhysicalPage::unref`; `release` frees the page when that was the last reference
unfoldable pub unref : Phys → ℕ → Result Phys
unref m page =
    let m' : Phys = record m { ref_count = put m.ref_count page (m.ref_count page - 1) } in
    assert (not (m.ref_count page == 0))
    >> (if m.ref_count page == 1 then free_physical_page m' page else ok m')

-- `MemoryManager::alloc_physical_page`, where `take` searches the regions.
unfoldable pub alloc_physical_page : (Phys → Result ℕ) → Phys → Result (ℕ × Phys)
alloc_physical_page take m =
    take m >>= λ page. ok (page, record m { ref_count = put m.ref_count page 1 })

-- `MemoryManager::copy_page`
unfoldable pub copy_page : Phys → ℕ → ℕ → Phys
copy_page m src dest = record m { bytes = put m.bytes dest (m.bytes src) }

-- The loop of the constructor with `all_cow`, from page i on.
unfoldable pub mark_cow : ℕ → List ℕ → Bitmap → Bitmap
mark_cow i [] bits = bits
mark_cow i (page ∷ pages) bits =
    mark_cow (suc i) pages (if page == 0 then bits else set_bit bits i true)

unfoldable pub make_object : List ℕ → Bool → VmObject
make_object pages all_cow =
    let clear = make (length pages) false in
    record {
      physical_pages = pages;
      cow_pages = if all_cow then mark_cow 0 pages clear else clear;
      num_committed_pages = length pages;
    }

unfoldable pub page_is_cow : VmObject → ℕ → Bool
page_is_cow object page = get_bit object.cow_pages page

-- Lines 33-46 of `try_cow_page`, under the lock.
unfoldable pub cow_check : VmObject → ℕ → Result ℕ
cow_check object page =
    assert (ltb page (length object.physical_pages))
    >> fail_if (not (page_is_cow object page)) einval
    >> assert (not (get_or object.physical_pages page 0 == 0))
    >> ok (get_or object.physical_pages page 0)

-- Lines 49-53, without it.
unfoldable pub cow_copy : (Phys → Result ℕ) → Phys → ℕ → Result (ℕ × Phys)
cow_copy take m old = alloc_physical_page take m >>= λ got. ok (got.0, copy_page got.1 old got.0)

-- Lines 56-69, under the lock again.
unfoldable pub cow_commit : Phys → VmObject → ℕ → ℕ → Result (Phys × VmObject)
cow_commit m object page new =
    if page_is_cow object page
    then (unref m (get_or object.physical_pages page 0) >>= λ m'. ok (
      m',
      record object {
        physical_pages = set object.physical_pages page new;
        cow_pages = set_bit object.cow_pages page false;
      },
    ))
    else (free_physical_page m new >>= λ m'. ok (m', object))

unfoldable pub try_cow_page : (Phys → Result ℕ) → Phys → VmObject → ℕ → Result (Phys × VmObject)
try_cow_page take m object page = cow_check object page >>= λ old.
    cow_copy take m old >>= λ got. cow_commit got.1 object page got.0

-- The loop of `become_cow_and_ref_pages`, from page i on.
unfoldable pub ref_pages : ℕ → List ℕ → Phys → Bitmap → Result (Phys × Bitmap)
ref_pages i [] m bits = ok (m, bits)
ref_pages i (page ∷ pages) m bits =
    if page == 0
    then ref_pages (suc i) pages m bits
    else (ref m page >>= λ m'. ref_pages (suc i) pages m' (set_bit bits i true))

unfoldable pub become_cow_and_ref_pages : Phys → VmObject → Result (Phys × VmObject)
become_cow_and_ref_pages m object = ref_pages 0 object.physical_pages m object.cow_pages >>= λ r.
    ok (r.0, record object { cow_pages = r.1 })

-- `AnonymousVMObject::clone` of an object that is shared or not: memory, the object and its clone.
unfoldable pub clone : Phys → VmObject → Bool → Result (Phys × VmObject × VmObject)
clone m object is_shared =
    assert (not is_shared)
    >> (become_cow_and_ref_pages m object >>= λ r.
        ok (r.0, r.1, make_object r.1.physical_pages true))

-- `try_fault_in_page`: the part under the lock; `true` when a page is needed.
unfoldable pub fault_check : VmObject → ℕ → Result Bool
fault_check object page =
    fail_if (ltb (length object.physical_pages) page) einval
    >> assert (ltb page (length object.physical_pages))
    >> ok (get_or object.physical_pages page 0 == 0)

unfoldable pub zeros : List ℕ
zeros = replicate 4096 0

unfoldable pub zero_page : Phys → ℕ → Phys
zero_page m page = record m { bytes = put m.bytes page zeros }

unfoldable pub fault_fill : (Phys → Result ℕ) → Phys → Result (ℕ × Phys)
fault_fill take m = alloc_physical_page take m >>= λ got. ok (got.0, zero_page got.1 got.0)

unfoldable pub fault_commit : Phys → VmObject → ℕ → ℕ → Result (Bool × Phys × VmObject)
fault_commit m object page new =
    if get_or object.physical_pages page 0 == 0
    then (ok (
      true,
      m,
      record object {
        physical_pages = set object.physical_pages page new;
        num_committed_pages = object.num_committed_pages + 1;
      },
    ))
    else (free_physical_page m new >>= λ m'. ok (false, m', object))

unfoldable pub try_fault_in_page :
    (Phys → Result ℕ) → Phys → VmObject → ℕ → Result (Bool × Phys × VmObject)
try_fault_in_page take m object page = fault_check object page >>= λ needed.
    if needed
    then (fault_fill take m >>= λ got. fault_commit got.1 object page got.0)
    else ok (false, m, object)
