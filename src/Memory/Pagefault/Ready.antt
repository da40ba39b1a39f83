-- ===== src/Memory/Pagefault/Ready.antt =====
-- What a handled page fault (`try_pagefault`, kernel/memory/VMSpace.cpp) leaves behind.
use nusa_os.Common.{
  ℕ, ◌<◌, ◌≤◌, ◌/◌, ◌++◌, All, add_word, sub_word, arith, ◌≡◌, ◌≢◌, refl, sym, ap, ◌∙◌, Bool, true,
  false, not, ◌&&◌, Option, none, some, List, [], ◌∷◌, ◌==◌, get_or, length, Result, ok, einval,
  enoent, ◌>>◌, fail_if, ℕ_discrete, ==_ne, ltb_of_lt, Bool-cases, inl, inr, >>=-eq-ok, fail_if-ok,
  eq_of_ok, subst,
}
use nusa_os.Kstd.Bitmap.{get_bit}
use nusa_os.Kstd.Bitmap.Laws.{Fits}
use nusa_os.Memory.Space.{VmProt, VmRegion, Region, Space, contains}
use nusa_os.Memory.Object.{Phys, VmObject, page_is_cow, try_fault_in_page}
use nusa_os.Memory.Object.Uses.{uses, IsCounted, IsFresh}
use nusa_os.Memory.Object.Cow.{IsShared, try_cow_page-resolves}
use nusa_os.Memory.Object.Fault.{try_fault_in_page-fills}
use nusa_os.Memory.Pagefault.{
  Access, reading, writing, executing, unknown, is_denied, vm_contains, locate_at, locate_in,
  resolve, try_pagefault,
}

-- An object whose marks fit its pages. No absent page is marked, and a page that is not marked is in
-- no other object.
unfoldable pub IsMarked : VmObject → List VmObject → Type 0
IsMarked object others =
    Fits object.cow_pages (length object.physical_pages)
    × ((i : ℕ)
        → i < length object.physical_pages
        → get_or object.physical_pages i 0 ≡ 0
        → page_is_cow object i ≡ false)
    × ((i : ℕ)
        → i < length object.physical_pages
        → get_or object.physical_pages i 0 ≢ 0
        → page_is_cow object i ≡ false
        → uses others (get_or object.physical_pages i 0) ≡ 0)

-- The page is there, and where the region may be written it is not marked and in no other object.
unfoldable pub IsReady : VmObject → List VmObject → VmProt → ℕ → Type 0
IsReady object others prot page =
    (get_or object.physical_pages page 0 ≢ 0)
    × (prot.write ≡ true
        → (page_is_cow object page ≡ false)
          × (uses others (get_or object.physical_pages page 0) ≡ 0))

and_right : (a b : Bool) → (a && b) ≡ true → b ≡ true
and_right true b h = h
and_right false b h = cc

clear_right : (a b : Bool) → a ≡ true → (a && b) ≡ false → b ≡ false
clear_right true b writable h = h
clear_right false b writable h = cc

filled_run :
    (take : Phys → Result ℕ) (m m' : Phys) (object object' : VmObject) (prot : VmProt) (page : ℕ)
    → page < length object.physical_pages
    → get_or object.physical_pages page 0 ≡ 0
    → try_fault_in_page take m object page ≡ ok (true, m', object')
    → (get_or object'.physical_pages page 0 == 0) ≡ false
    → resolve take m object prot page ≡ ok (m', object')
unfolding resolve
filled_run take m m' object object' prot page lt missing ran there =
    rw (ltb_of_lt page (length object.physical_pages) lt, missing, ran, there) refl

-- As long as a page of memory is left, `resolve` makes a page of an object ready where the pages of
-- the object that are not marked are its own: the page is there afterwards, and with write
-- permission it is not marked and no other object has it. The counts stay right, and no page of
-- another object changes.
pub resolve-IsReady :
    (take : Phys → Result ℕ) (m : Phys) (object : VmObject) (others : List VmObject) (prot : VmProt)
    (page new : ℕ)
    → IsFresh take
    → IsCounted m (object ∷ others)
    → IsMarked object others
    → page < length object.physical_pages
    → take m ≡ ok new
    → (m' : Phys) × (object' : VmObject) × (resolve take m object prot page ≡ ok (m', object'))
      × IsReady object' others prot page
      × IsCounted m' (object' ∷ others)
      × ((p : ℕ) → 0 < uses others p → m'.bytes p ≡ m.bytes p)
unfolding resolve IsReady IsMarked IsShared IsFresh IsCounted uses page_is_cow
resolve-IsReady take m object others prot page new fresh counted (fits, absent, own) lt took =
    let (new_some, unused) = fresh m new took in
    let nowhere : uses others new ≡ 0 = omega (arith, counted new new_some, unused) in
    elim (ℕ_discrete (get_or object.physical_pages page 0) 0) [
      | yes missing ↦
          let (m', object', ran, counted', more, at, same_marks, zeroed, others_read, kept) =
            try_fault_in_page-fills take m object others page new fresh counted lt missing took in
          let there : (get_or object'.physical_pages page 0 == 0) ≡ false =
            ==_ne (get_or object'.physical_pages page 0) 0 (λ e. new_some (sym at ∙ e)) in
          (
            m',
            object',
            filled_run take m m' object object' prot page lt missing ran there,
            (
              λ e. new_some (sym at ∙ e),
              λ writable. (
                ap (λ b. get_bit b page) same_marks ∙ absent page lt missing,
                ap (uses others) at ∙ nowhere,
              ),
            ),
            counted',
            kept,
          )
      | no present ↦
          let there = ==_ne (get_or object.physical_pages page 0) 0 present in
          elim (Bool-cases (prot.write && page_is_cow object page)) [
            | inl both ↦
                let (m', object', ran, counted', clear, at, apart, same, kept) =
                  try_cow_page-resolves take m object others page new fresh counted
                    (fits, lt, and_right prot.write (page_is_cow object page) both, present) took in
                (
                  m',
                  object',
                  rw (ltb_of_lt page (length object.physical_pages) lt, there, both) ran,
                  (λ e. new_some (sym at ∙ e), λ writable. (clear, ap (uses others) at ∙ apart)),
                  counted',
                  kept,
                )
            | inr not_both ↦ (
              m,
              object,
              rw (ltb_of_lt page (length object.physical_pages) lt, there, not_both) refl,
              (
                present,
                λ writable.
                    let clear =
                      clear_right prot.write (page_is_cow object page) writable not_both in
                    (clear, own page lt present clear),
              ),
              counted,
              λ p used. refl,
            )
          ]
    ]

is_set : (b : Bool) → not b ≡ false → b ≡ true
is_set true h = refl
is_set false h = cc

-- What is found at a node of the space that contains the address: the region of memory there, where
-- it contains the address too and permits the access, and the page of its object.
abbrev pub Located : Region → VmRegion → ℕ → ℕ → Access → Type 0
Located node mapped page address access =
    (node.vm_region ≡ some mapped)
    × (mapped.start ≤ address)
    × (address < add_word mapped.start mapped.size)
    × (page ≡ add_word (sub_word address mapped.start / 4096) (mapped.object_start / 4096))
    × (access ≡ reading → mapped.prot.read ≡ true)
    × (access ≡ writing → mapped.prot.write ≡ true)
    × (access ≡ executing → mapped.prot.execute ≡ true)

vm_contains-bounds :
    (mapped : VmRegion) (address : ℕ)
    → vm_contains mapped address ≡ true
    → (mapped.start ≤ address) × (address < add_word mapped.start mapped.size)
unfolding vm_contains
vm_contains-bounds mapped address inside = ground arith

permitted :
    (prot : VmProt) (access : Access)
    → is_denied prot access ≡ false
    → (access ≡ reading → prot.read ≡ true)
      × (access ≡ writing → prot.write ≡ true)
      × (access ≡ executing → prot.execute ≡ true)
unfolding is_denied
permitted prot reading h = ((λ e. is_set prot.read h), (λ e. cc), λ e. cc)
permitted prot writing h = ((λ e. cc), (λ e. is_set prot.write h), λ e. cc)
permitted prot executing h = ((λ e. cc), (λ e. cc), λ e. is_set prot.execute h)
permitted prot unknown h = ((λ e. cc), (λ e. cc), λ e. cc)

locate_at-Located :
    (node : Region) (region : Option VmRegion) (address : ℕ) (access : Access)
    (found : VmRegion × ℕ)
    → node.vm_region ≡ region
    → locate_at region address access ≡ ok found
    → Located node found.0 found.1 address access
unfolding locate_at
locate_at-Located node none address access found at done = cc
locate_at-Located node (some region) address access found at done =
    let (u, guards, same) =
      >>=-eq-ok
        (fail_if (not (vm_contains region address)) enoent
          >> fail_if (is_denied region.prot access) einval)
        _ done in
    let (v, inside, allowed) =
      >>=-eq-ok (fail_if (not (vm_contains region address)) enoent) _ guards in
    let (from_start, to_end) = vm_contains-bounds region address (
      is_set (vm_contains region address)
        (fail_if-ok (not (vm_contains region address)) enoent inside)) in
    let (read, write, execute) =
      permitted region.prot access (fail_if-ok (is_denied region.prot access) einval allowed) in
    subst (λ (r : VmRegion × ℕ). Located node r.0 r.1 address access) (eq_of_ok same)
      (at, from_start, to_end, refl, read, write, execute)

-- The first node of the list that contains the address.
locate_in-Located :
    (regions : List Region) (address : ℕ) (access : Access) (found : VmRegion × ℕ)
    → locate_in regions address access ≡ ok found
    → (before : List Region) × (node : Region) × (after : List Region) × (regions
        ≡ before ++ (node ∷ after))
      × All (λ r. contains r address ≡ false) before
      × (contains node address ≡ true)
      × Located node found.0 found.1 address access
unfolding locate_in
locate_in-Located [] address access found done = cc
locate_in-Located (region ∷ regions) address access found done =
    elim (Bool-cases (contains region address)) [
      | inl here ↦ (
        [],
        region,
        regions,
        refl,
        tt,
        here,
        locate_at-Located region region.vm_region address access found refl (rw (here) at done),
      )
      | inr past ↦
          let (before, node, after, split, missed, here, located) =
            locate_in-Located regions address access found (rw (past) at done) in
          (region ∷ before, node, after, ap (λ l. region ∷ l) split, (past, missed), here, located)
    ]

-- A fault is only handled at the first region of the space that contains the address, and only when
-- memory is mapped there that contains the address too and permits the access. The page that is
-- resolved is that of the mapped object: the distance of the address from the start of the mapping
-- in pages, counted from the offset of the mapping in the object.
pub try_pagefault-permitted :
    (take : Phys → Result ℕ) (objects : ℕ → VmObject) (m : Phys) (space : Space) (address : ℕ)
    (access : Access) (m' : Phys) (object' : VmObject)
    → try_pagefault take objects m space address access ≡ ok (m', object')
    → (before : List Region) × (node : Region) × (after : List Region) × (mapped : VmRegion)
      × (page : ℕ) × (space.regions ≡ before ++ (node ∷ after))
      × All (λ r. contains r address ≡ false) before
      × (contains node address ≡ true)
      × Located node mapped page address access
      × (resolve take m (objects mapped.object) mapped.prot page ≡ ok (m', object'))
unfolding try_pagefault
try_pagefault-permitted take objects m space address access m' object' done =
    let (found, located, ran) = >>=-eq-ok (locate_in space.regions address access) _ done in
    let (before, node, after, split, missed, here, at) =
      locate_in-Located space.regions address access found located in
    (before, node, after, found.0, found.1, split, missed, here, at, ran)
