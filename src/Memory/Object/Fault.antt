-- ===== src/Memory/Object/Fault.antt =====
-- `AnonymousVMObject::try_fault_in_page`: the first use of a page, and what it answers otherwise.
use nusa_os.Common.{
  ℕ, ◌+◌, ◌<◌, ◌≡◌, ◌≢◌, refl, sym, ap, ◌∙◌, true, false, List, ◌∷◌, ◌==◌, get_or, set, length,
  Result, ok, err, panic, einval, arith, ℕ_discrete, ==_refl, ==_ne, get_or-set_self, get_or-set_ne,
  ltb_of_lt, ltb_of_ge,
}
use nusa_os.Memory.Buddy.Blocks.{count}
use nusa_os.Memory.Object.{
  Phys, VmObject, put, alloc_physical_page, fault_check, zeros, zero_page, fault_fill, fault_commit,
  try_fault_in_page,
}
use nusa_os.Memory.Object.Uses.{
  uses, IsCounted, view, IsFresh, put-same, put-other, count-set, get-listed,
}

fault_check_lem :
    (object : VmObject) (page : ℕ)
    → page < length object.physical_pages
    → fault_check object page ≡ ok (get_or object.physical_pages page 0 == 0)
unfolding fault_check
fault_check_lem object page lt =
    rw
      (
        ltb_of_ge (length object.physical_pages) page (omega arith),
        ltb_of_lt page (length object.physical_pages) lt,
      )
      refl

fault_commit_lem :
    (m : Phys) (object : VmObject) (page new : ℕ)
    → get_or object.physical_pages page 0 ≡ 0
    → fault_commit m object page new
      ≡ ok (
        true,
        m,
        record object {
          physical_pages = set object.physical_pages page new;
          num_committed_pages = object.num_committed_pages + 1;
        },
      )
unfolding fault_commit
fault_commit_lem m object page new absent = rw (absent) refl

-- Memory with a fresh page of zeros.
abbrev filled : Phys → ℕ → Phys
filled m new = record { ref_count = put m.ref_count new 1; bytes = put m.bytes new zeros }

fault_fill_lem :
    (take : Phys → Result ℕ) (m : Phys) (new : ℕ)
    → take m ≡ ok new
    → fault_fill take m ≡ ok (new, filled m new)
unfolding fault_fill alloc_physical_page zero_page
fault_fill_lem take m new e = rw (e) refl

filled-counts :
    (m : Phys) (pages : List ℕ) (page new p elsewhere : ℕ)
    → page < length pages
    → get_or pages page 0 ≡ 0
    → m.ref_count new ≡ 0
    → p ≢ 0
    → m.ref_count p ≡ count p pages + elsewhere
    → put m.ref_count new 1 p ≡ count p (set pages page new) + elsewhere
filled-counts m pages page new p elsewhere lt absent unused some_page counted =
    let moved = count-set p pages page new lt in
    let was_none : (get_or pages page 0 == p) ≡ false =
      ==_ne (get_or pages page 0) p (λ e. some_page (sym e ∙ absent)) in
    elim (ℕ_discrete p new) [
      | yes e ↦
          let is_new : (new == p) ≡ true = ap (λ q. new == q) e ∙ ==_refl new in
          let parts = rw (was_none, is_new) at moved in
          let now = ap (put m.ref_count new 1) e ∙ put-same m.ref_count new 1 in
          omega (arith, now, parts, counted, unused, ap m.ref_count e)
      | no ne ↦
          let not_new : (new == p) ≡ false = ==_ne new p (λ e. ne (sym e)) in
          let parts = rw (was_none, not_new) at moved in
          let now = put-other m.ref_count new 1 p ne in omega (arith, now, parts, counted)
    ]

-- A fault on a page that is not there yet gives the object a page of zeros that no object had: the
-- counts stay right, and the other pages of this and of the other objects read as before.
pub try_fault_in_page-fills :
    (take : Phys → Result ℕ) (m : Phys) (object : VmObject) (others : List VmObject) (page new : ℕ)
    → IsFresh take
    → IsCounted m (object ∷ others)
    → page < length object.physical_pages
    → get_or object.physical_pages page 0 ≡ 0
    → take m ≡ ok new
    → (m' : Phys) × (object' : VmObject) × (try_fault_in_page take m object page
        ≡ ok (true, m', object'))
      × IsCounted m' (object' ∷ others)
      × (object'.num_committed_pages ≡ object.num_committed_pages + 1)
      × (get_or object'.physical_pages page 0 ≡ new)
      × (object'.cow_pages ≡ object.cow_pages)
      × (view m' object' page ≡ zeros)
      × ((i : ℕ) → page ≢ i → view m' object' i ≡ view m object i)
      × ((p : ℕ) → 0 < uses others p → m'.bytes p ≡ m.bytes p)
unfolding try_fault_in_page IsCounted uses IsFresh view
try_fault_in_page-fills take m object others page new fresh counted lt absent took =
    let (new_some, unused) = fresh m new took in
    let nowhere : count new object.physical_pages + uses others new ≡ 0 =
      sym (counted new new_some) ∙ unused in
    (
      filled m new,
      record object {
        physical_pages = set object.physical_pages page new;
        num_committed_pages = object.num_committed_pages + 1;
      },
      rw
          (
            fault_check_lem object page lt,
            absent,
            fault_fill_lem take m new took,
            fault_commit_lem (filled m new) object page new absent,
          )
          refl,
      λ p some_page.
          filled-counts m object.physical_pages page new p (uses others p) lt absent unused
            some_page (counted p some_page),
      refl,
      get_or-set_self object.physical_pages page new 0 lt,
      refl,
      ap (put m.bytes new zeros) (get_or-set_self object.physical_pages page new 0 lt)
          ∙ put-same m.bytes new zeros,
      λ i ne.
          ap (put m.bytes new zeros) (get_or-set_ne object.physical_pages page i new 0 ne)
          ∙ put-other m.bytes new zeros (get_or object.physical_pages i 0)
              (get-listed object.physical_pages i new new_some (omega (arith, nowhere))),
      λ p used.
          put-other m.bytes new zeros p
            (λ e. absurd (omega (arith, used, nowhere, ap (uses others) e))),
    )

-- A fault on a page that is there changes nothing. Past the end of the object it is refused, but
-- the page just at the end passes that test, and its lookup stops the kernel.
pub try_fault_in_page-otherwise :
    (take : Phys → Result ℕ) (m : Phys) (object : VmObject) (page : ℕ)
    → (length object.physical_pages < page → try_fault_in_page take m object page ≡ err einval)
      × (page ≡ length object.physical_pages → try_fault_in_page take m object page ≡ panic)
      × (page < length object.physical_pages
          → get_or object.physical_pages page 0 ≢ 0
          → try_fault_in_page take m object page ≡ ok (false, m, object))
unfolding try_fault_in_page fault_check
try_fault_in_page-otherwise take m object page =
    let n = length object.physical_pages in
    (
      λ past. rw (ltb_of_lt n page past) refl,
      λ last. rw (ltb_of_ge n page (omega arith), ltb_of_ge page n (omega arith)) refl,
      λ lt present.
          rw
            (
              ltb_of_ge n page (omega arith),
              ltb_of_lt page n lt,
              ==_ne (get_or object.physical_pages page 0) 0 present,
            )
            refl,
    )
