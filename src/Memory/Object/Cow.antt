-- ===== src/Memory/Object/Cow.antt =====
-- `try_cow_page` of kernel/memory/VMObject.cpp: a private copy of a page.
use nusa_os.Common.{
  ℕ, ◌+◌, ◌-◌, ◌<◌, ◌≡◌, ◌≢◌, refl, sym, ap, ◌∙◌, true, false, List, ◌∷◌, ◌==◌, if◌then◌else◌,
  get_or, set, length, Result, ok, ◌>>=◌, arith, ℕ_discrete, ==_refl, ==_ne, get_or-set_self,
  get_or-set_ne, ltb_of_lt, subst,
}
use nusa_os.Kstd.Bitmap.{get_bit, set_bit}
use nusa_os.Kstd.Bitmap.Laws.{Fits, get-set}
use nusa_os.Memory.Buddy.Blocks.{count}
use nusa_os.Memory.Object.{
  Phys, VmObject, put, alloc_physical_page, copy_page, page_is_cow, cow_check, cow_copy, cow_commit,
  try_cow_page,
}
use nusa_os.Memory.Object.Uses.{
  uses, IsCounted, view, IsFresh, put-same, put-other, count-set, count-get, get-listed,
  unref-referenced,
}

-- A page of the object that is shared with others and marked so.
unfoldable pub IsShared : VmObject → ℕ → Type 0
IsShared object page =
    Fits object.cow_pages (length object.physical_pages)
    × (page < length object.physical_pages)
    × (page_is_cow object page ≡ true)
    × (get_or object.physical_pages page 0 ≢ 0)

-- The object after its page has become the new one.
abbrev pub replaced : VmObject → ℕ → ℕ → VmObject
replaced object page new = record object {
  physical_pages = set object.physical_pages page new;
  cow_pages = set_bit object.cow_pages page false;
}

-- Memory with the old page copied to the new one.
abbrev pub copied : Phys → ℕ → ℕ → Phys
copied m old new = record {
  ref_count = put m.ref_count new 1;
  bytes = put m.bytes new (m.bytes old);
}

pub cow_copy_lem :
    (take : Phys → Result ℕ) (m : Phys) (old new : ℕ)
    → take m ≡ ok new
    → cow_copy take m old ≡ ok (new, copied m old new)
unfolding cow_copy alloc_physical_page copy_page
cow_copy_lem take m old new e = rw (e) refl

cow_check_lem :
    (object : VmObject) (page : ℕ)
    → IsShared object page
    → cow_check object page ≡ ok (get_or object.physical_pages page 0)
unfolding IsShared cow_check
cow_check_lem object page (fits, lt, cow, present) =
    rw
      (
        ltb_of_lt page (length object.physical_pages) lt,
        cow,
        ==_ne (get_or object.physical_pages page 0) 0 present,
      )
      refl

pub cow_commit_lem :
    (m : Phys) (object : VmObject) (page new : ℕ)
    → page_is_cow object page ≡ true
    → 0 < m.ref_count (get_or object.physical_pages page 0)
    → cow_commit m object page new
      ≡ ok (
        record m {
          ref_count =
              put m.ref_count
                (get_or object.physical_pages page 0)
                (m.ref_count (get_or object.physical_pages page 0) - 1);
        },
        replaced object page new,
      )
unfolding cow_commit
cow_commit_lem m object page new cow pos =
    rw (cow, unref-referenced m (get_or object.physical_pages page 0) pos) refl

pub replaced-clear :
    (object : VmObject) (page new : ℕ)
    → IsShared object page
    → page_is_cow (replaced object page new) page ≡ false
unfolding IsShared page_is_cow
replaced-clear object page new (fits, lt, cow, present) =
    get-set object.cow_pages (length object.physical_pages) page page false fits lt
    ∙ ap (λ b. if b then false else get_bit object.cow_pages page) (==_refl page)

-- The counts after a page of an object has been replaced by a fresh one.
replaced-IsCounted :
    (m : Phys) (object : VmObject) (others : List VmObject) (page new old : ℕ)
    → IsCounted m (object ∷ others)
    → page < length object.physical_pages
    → get_or object.physical_pages page 0 ≡ old
    → old ≢ 0
    → new ≢ 0
    → m.ref_count new ≡ 0
    → (bytes' : ℕ → List ℕ)
    → IsCounted
        (record {
          ref_count = put (put m.ref_count new 1) old (put m.ref_count new 1 old - 1);
          bytes = bytes';
        })
        (replaced object page new ∷ others)
unfolding IsCounted uses
replaced-IsCounted m object others page new old counted lt at old_some new_some fresh bytes' p
      some_page =
    let moved : count p (set object.physical_pages page new) + (if old == p then 1 else 0)
        ≡ count p object.physical_pages + (if new == p then 1 else 0) =
      subst
        (λ q.
          count p (set object.physical_pages page new) + (if q == p then 1 else 0)
          ≡ count p object.physical_pages + (if new == p then 1 else 0))
        at (count-set p object.physical_pages page new lt) in
    let listed : 0 < count old object.physical_pages =
      subst (λ q. 0 < count q object.physical_pages) at (count-get object.physical_pages page lt) in
    let apart : old ≢ new =
      λ e. absurd (omega (arith, counted old old_some, listed, fresh, ap m.ref_count e)) in
    let given : ℕ → ℕ = put m.ref_count new 1 in
    elim (ℕ_discrete p old) [
      | yes e ↦
          let is_old : (old == p) ≡ true = ap (λ q. old == q) e ∙ ==_refl old in
          let not_new : (new == p) ≡ false = ==_ne new p (λ x. apart (sym (x ∙ e))) in
          let now = ap (put given old (given old - 1)) e ∙ put-same given old (given old - 1) in
          let was = put-other m.ref_count new 1 old apart in
          let parts = rw (is_old, not_new) at moved in
          omega (arith, now, was, parts, counted p some_page, ap m.ref_count e)
      | no ne ↦
          let not_old : (old == p) ≡ false = ==_ne old p (λ x. ne (sym x)) in
          let now = put-other given old (given old - 1) p ne in
          elim (ℕ_discrete p new) [
            | yes e ↦
                let is_new : (new == p) ≡ true = ap (λ q. new == q) e ∙ ==_refl new in
                let parts = rw (not_old, is_new) at moved in
                let was = ap given e ∙ put-same m.ref_count new 1 in
                omega (arith, now, was, parts, counted p some_page, fresh, ap m.ref_count e)
            | no nn ↦
                let not_new : (new == p) ≡ false = ==_ne new p (λ x. nn (sym x)) in
                let parts = rw (not_old, not_new) at moved in
                let was = put-other m.ref_count new 1 p nn in
                omega (arith, now, was, parts, counted p some_page)
          ]
    ]

-- A copy-on-write fault on a shared page succeeds: the counts stay right, the page is no longer
-- marked, the object reads as before, and the page it now has there is in no other object, so that
-- writes to it are its own; the pages of the others keep their bytes.
pub try_cow_page-resolves :
    (take : Phys → Result ℕ) (m : Phys) (object : VmObject) (others : List VmObject) (page new : ℕ)
    → IsFresh take
    → IsCounted m (object ∷ others)
    → IsShared object page
    → take m ≡ ok new
    → (m' : Phys) × (object' : VmObject) × (try_cow_page take m object page ≡ ok (m', object'))
      × IsCounted m' (object' ∷ others)
      × (page_is_cow object' page ≡ false)
      × (get_or object'.physical_pages page 0 ≡ new)
      × (uses others new ≡ 0)
      × ((i : ℕ) → view m' object' i ≡ view m object i)
      × ((p : ℕ) → 0 < uses others p → m'.bytes p ≡ m.bytes p)
unfolding try_cow_page IsCounted uses IsShared view IsFresh
try_cow_page-resolves take m object others page new fresh counted shared took =
    let old = get_or object.physical_pages page 0 in
    let (fits, lt, cow, present) = shared in
    let (new_some, unused) = fresh m new took in
    let nowhere : count new object.physical_pages + uses others new ≡ 0 =
      sym (counted new new_some) ∙ unused in
    let listed = count-get object.physical_pages page lt in
    let apart : old ≢ new =
      λ e. absurd (omega (arith, listed, nowhere, ap (λ q. count q object.physical_pages) e)) in
    let still : put m.ref_count new 1 old ≡ m.ref_count old =
      put-other m.ref_count new 1 old apart in
    let commit =
      cow_commit_lem (copied m old new) object page new cow
        (omega (arith, still, counted old present, listed)) in
    (
      record {
        ref_count = put (put m.ref_count new 1) old (put m.ref_count new 1 old - 1);
        bytes = put m.bytes new (m.bytes old);
      },
      replaced object page new,
      ap
            (λ (r : Result ℕ).
              r >>= λ o. cow_copy take m o >>= λ got. cow_commit got.1 object page got.0)
            (cow_check_lem object page shared)
          ∙ ap (λ (r : Result (ℕ × Phys)). r >>= λ got. cow_commit got.1 object page got.0)
              (cow_copy_lem take m old new took)
          ∙ commit,
      replaced-IsCounted m object others page new old counted lt refl present new_some unused
          (put m.bytes new (m.bytes old)),
      replaced-clear object page new shared,
      get_or-set_self object.physical_pages page new 0 lt,
      omega (arith, nowhere),
      λ i. elim (ℕ_discrete page i) [
        | yes e ↦
            ap (put m.bytes new (m.bytes old)) (
              ap (λ j. get_or (set object.physical_pages page new) j 0) (sym e)
              ∙ get_or-set_self object.physical_pages page new 0 lt)
            ∙ put-same m.bytes new (m.bytes old)
            ∙ ap (λ j. m.bytes (get_or object.physical_pages j 0)) e
        | no ne ↦
            ap (put m.bytes new (m.bytes old)) (get_or-set_ne object.physical_pages page i new 0 ne)
            ∙ put-other m.bytes new (m.bytes old) (get_or object.physical_pages i 0)
                (get-listed object.physical_pages i new new_some (omega (arith, nowhere)))
      ],
      λ p used.
          put-other m.bytes new (m.bytes old) p
            (λ e. absurd (omega (arith, used, nowhere, ap (uses others) e))),
    )
