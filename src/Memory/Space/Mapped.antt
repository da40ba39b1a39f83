-- ===== src/Memory/Space/Mapped.antt =====
-- What the mapping operations of kernel/memory/VMSpace.cpp leave behind.
use nusa_os.Common.{
  none, ◌++◌, Option-cases, add_word, ◌*◌, ◌%◌, word_mod, ◌>>=◌, ℕ, if◌then◌else◌, sub_word, ◌+◌,
  ◌<◌, ◌≡◌, refl, ◌∙◌, sym, ap, subst, Bool, true, false, some, List, [], ◌∷◌, arith, ok, panic,
  rev_append, Bool-cases, inl, inr, All, ◌==◌, ==_refl, >>=-eq-ok,
}
use nusa_os.Memory.Space.{
  page_size, VmProt, VmRegion, Region, Space, Cursor, Placed, close, commit, seek, is_free_for,
  alloc_space, alloc_space_at,
}
use nusa_os.Memory.Space.Cursors.{seek-close, seek_from-none}
use nusa_os.Memory.Space.Inv.{Layout, IsValid, Layout-here, Layout-replace, total_used-rev_append}
use nusa_os.Memory.Space.Alloc.{alloc_space-IsValid, alloc_space-first_fit}
use nusa_os.Memory.Space.Fixed.{alloc_space_at-IsValid, alloc_space_at-region}
use nusa_os.Memory.Space.Mapping.{
  total_pages, calculate_regular_anonymous_total, VmObject, attach, is_bad_range, range_size, place,
  new_vm_region, map_object, map_stack, get_region_at,
}

-- A placement of a positive size: a valid space, and a region in use of that size.
place-IsValid :
    (s : Space) (start size : ℕ) (p : Placed)
    → IsValid s
    → 0 < size
    → place s start size ≡ ok p
    → IsValid (commit s p) × (p.at.region.used ≡ true) × (p.at.region.size ≡ size)
unfolding place
place-IsValid s start size p v pos e = elim (Bool-cases (start == 0)) [
  | inl any ↦
      let e' : alloc_space s size ≡ ok p = rw any at e in
      let (sized, used, _, _, _) = alloc_space-first_fit s size p e' in
      (alloc_space-IsValid s size p v pos e', used, sized)
  | inr fixed ↦
      let e' : alloc_space_at s size start ≡ ok p = rw fixed at e in
      let (sized, used, _) = alloc_space_at-region s size start p e' in
      (alloc_space_at-IsValid s size start p v pos e', used, sized)
]

contradiction {ℓ} : {A : Type ℓ} {b : Bool} → b ≡ true → b ≡ false → A
contradiction h k = cc

-- Putting the new `VMRegion` into a region in use keeps the space valid.
attach-IsValid :
    (s : Space) (p : Placed) (vm : VmRegion)
    → IsValid (commit s p)
    → p.at.region.used ≡ true
    → IsValid (commit s (attach vm p))
attach-IsValid s p vm v used =
    let c = p.at in
    let r' : Region = record (c.region) { vm_region = some vm } in
    record {
      layout =
          Layout-replace (s.start + s.size) s.start true c.before (c.region ∷ c.after)
            (r' ∷ c.after) (λ a u t. (t.0, t.1, t.2, t.3, λ e. contradiction used e, t.5)) v.layout;
      counted =
          v.counted
          ∙ total_used-rev_append c.before (c.region ∷ c.after)
          ∙ sym (total_used-rev_append c.before (r' ∷ c.after));
      fits = v.fits;
    }

All-weaken :
    (m n : ℕ) (xs : List Region) → m < n → All (λ y. y.start < m) xs → All (λ y. y.start < n) xs
All-weaken m n [] lt h = tt
All-weaken m n (y ∷ ys) lt h = (omega arith, All-weaken m n ys lt h.1)

-- The regions before the cursor begin before it.
starts_before :
    (stop from : ℕ) (s : Bool) (before : List Region) (r : Region) (rest : List Region)
    → Layout stop from s (rev_append before (r ∷ rest))
    → All (λ x. x.start < r.start) before
starts_before stop from s [] r rest h = tt
starts_before stop from s (x ∷ xs) r rest h =
    let lt : x.start < r.start =
      Layout-here stop from s xs (x ∷ r ∷ rest) _ (λ a u below t. omega arith) h in
    (lt, All-weaken x.start r.start xs lt (starts_before stop from s xs x (r ∷ rest) h))

All-ne :
    (n : ℕ) (xs : List Region) → All (λ y. y.start < n) xs → All (λ y. (y.start == n) ≡ false) xs
All-ne n [] h = tt
All-ne n (y ∷ ys) h = (ground arith, All-ne n ys h.1)

-- A lookup by address finds the region at the cursor.
seek_start :
    (s : Space) (c : Cursor)
    → IsValid s
    → s.regions ≡ close c
    → seek (λ r. r.start == c.region.start) s ≡ some c
seek_start s c v e =
    seek-close (λ r. r.start == c.region.start) s c e
      (All-ne c.region.start c.before (
        starts_before (s.start + s.size) s.start true c.before c.region c.after (rw e at v.layout)))
      (==_refl c.region.start)

-- What a successful `map_object` went through.
record MappedAs (id : ℕ) (s : Space) (o : VmObject) (prot : VmProt) (start size object_start : ℕ)
    (r : VmRegion × Space) : Type 0 where
  fine : is_bad_range o start (range_size o size object_start) object_start ≡ false
  placed : Placed
  placing : place s start (range_size o size object_start) ≡ ok placed
  region : r.0 ≡ new_vm_region id o prot (range_size o size object_start) object_start placed
  space : r.1 ≡ commit s (attach r.0 placed)

map_object-MappedAs :
    (id : ℕ) (s : Space) (o : VmObject) (prot : VmProt) (start size object_start : ℕ)
    (r : VmRegion × Space)
    → map_object id s o prot start size object_start ≡ ok r
    → MappedAs id s o prot start size object_start r
unfolding map_object
map_object-MappedAs id s o prot start size object_start r e =
    let size' = range_size o size object_start in
    elim (Bool-cases (is_bad_range o start size' object_start)) [
      | inl bad ↦ cc (rw bad at e)
      | inr fine ↦
          let vm : Placed → VmRegion = new_vm_region id o prot size' object_start in
          let (p, placing, done) =
            >>=-eq-ok (place s start size') (λ p. ok (vm p, commit s (attach (vm p) p)))
              (rw fine at e) in
          record {
            fine = fine;
            placed = p;
            placing = placing;
            region = ground arith;
            space = ground arith;
          }
    ]

get-attached :
    (s : Space) (p : Placed) (vm : VmRegion)
    → IsValid (commit s (attach vm p))
    → get_region_at (commit s (attach vm p)) p.at.region.start ≡ ok vm
unfolding get_region_at
get-attached s p vm v = rw (seek_start (commit s (attach vm p)) (attach vm p).at v refl)

range_size-eq :
    (o : VmObject) (size object_start : ℕ)
    → range_size o size object_start ≡ (if size == 0 then sub_word o.size object_start else size)
unfolding range_size
range_size-eq o size object_start = refl

-- A successful `map_object` of a size that is not 0 leaves a valid space. The new region has the
-- size asked for, or the rest of the object where that was 0, and is found by its start.
pub get-map_object :
    (id : ℕ) (s t : Space) (o : VmObject) (prot : VmProt) (start size object_start : ℕ)
    (vm : VmRegion)
    → IsValid s
    → 0 < range_size o size object_start
    → map_object id s o prot start size object_start ≡ ok (vm, t)
    → IsValid t
      × (vm.id ≡ id)
      × (vm.size ≡ (if size == 0 then sub_word o.size object_start else size))
      × (get_region_at t vm.start ≡ ok vm)
unfolding new_vm_region
get-map_object id s t o prot start size object_start vm v pos e =
    let m = map_object-MappedAs id s o prot start size object_start (vm, t) e in
    let p = m.placed in
    let (valid, used, sized) =
      place-IsValid s start (range_size o size object_start) p v pos m.placing in
    let after = attach-IsValid s p vm valid used in
    let at : vm.start ≡ p.at.region.start = ap (λ (x : VmRegion). x.start) m.region in
    (
      rw m.space after,
      ap (λ (x : VmRegion). x.id) m.region,
      ap (λ (x : VmRegion). x.size) m.region ∙ range_size-eq o size object_start,
      subst (λ x. get_region_at x vm.start ≡ ok vm) (sym m.space)
          (subst (λ x. get_region_at (commit s (attach vm p)) x ≡ ok vm) (sym at)
            (get-attached s p vm after)),
    )

All-rev_append :
    (test : Region → Bool) (xs ys : List Region)
    → All (λ r. test r ≡ false) xs
    → All (λ r. test r ≡ false) ys
    → All (λ r. test r ≡ false) (rev_append xs ys)
All-rev_append test [] ys h k = k
All-rev_append test (x ∷ xs) ys h k = All-rev_append test xs (x ∷ ys) h.1 (h.0, k)

-- `map_stack` never reports ENOMEM when no free region is large enough: it walks off the front of
-- the list and reads through a null pointer.
pub map_stack_faults :
    (id : ℕ) (s : Space) (o : VmObject) (prot : VmProt)
    → All (λ r. is_free_for o.size r ≡ false) s.regions
    → map_stack id s o prot ≡ panic
unfolding map_stack
map_stack_faults id s o prot full =
    let missed = All-rev_append (is_free_for o.size) s.regions [] full tt in
    rw (seek_from-none (is_free_for o.size) [] (rev_append s.regions []) missed, map_stack)

total_pages-faults :
    (num_committed_pages : ℕ → ℕ) (before after : List Region) (r : Region) (total : ℕ)
    → r.used ≡ true
    → r.vm_region ≡ none
    → total_pages num_committed_pages (before ++ (r ∷ after)) total ≡ panic
total_pages-faults pages [] after r total used bare = rw (used, bare) refl
total_pages-faults pages (b ∷ before) after r total used bare = elim (Bool-cases b.used) [
  | inr idle ↦ rw idle (total_pages-faults pages before after r total used bare)
  | inl busy ↦ elim (Option-cases b.vm_region) [
    | inl none' ↦ rw (busy, none') refl
    | inr (vm, there) ↦
        rw (busy, there)
          (total_pages-faults pages before after r (add_word total (pages vm.object)) used bare)
  ]
]

-- In a space with a used region that has no `VMRegion`, which is what `reserve_region` leaves, the
-- count of anonymous memory reads through a null pointer.
pub calculate_regular_anonymous_total-faults :
    (num_committed_pages : ℕ → ℕ) (s : Space) (before after : List Region) (r : Region)
    → s.regions ≡ before ++ (r ∷ after)
    → r.used ≡ true
    → r.vm_region ≡ none
    → calculate_regular_anonymous_total num_committed_pages s ≡ panic
unfolding calculate_regular_anonymous_total
calculate_regular_anonymous_total-faults pages s before after r e used bare =
    ap (λ m. m >>= λ total. ok (total * page_size % word_mod))
      (ap (λ xs. total_pages pages xs 0) e ∙ total_pages-faults pages before after r 0 used bare)
