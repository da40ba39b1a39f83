-- ===== src/Memory/Space/Fixed.antt =====
-- What `VMSpace::alloc_space_at` (kernel/memory/VMSpace.cpp) does to a space, and where its region
-- lies.
use nusa_os.Common.{
  subst, ℕ, ◌+◌, ◌%◌, ◌≤◌, ◌<◌, ◌≡◌, ◌≢◌, ◌⊎◌, refl, Bool, true, false, some, ◌∷◌, word_mod,
  sub_word, add_word-exact, sub_word-exact, arith, ok, inl, inr, dec_lt,
}
use nusa_os.Memory.Space.{
  page_size, Space, Cursor, Placed, close, commit, contains, end, seek, split_after, carve_at,
  alloc_space_at, free_part,
}
use nusa_os.Memory.Space.Cursors.{seek-Stops}
use nusa_os.Memory.Space.Inv.{
  Layout, IsValid, total_used, Layout-replace, total_used-rev_append, Layout-here,
}
use nusa_os.Memory.Space.Alloc.{whole_Layout, whole-total_used, stopped_Layout, room_at_cursor}
use nusa_os.Memory.Space.AllocAt.{
  alloc_space_at-AllocatedAt, carve_at_cases, placed_at, placed_whole, split_before-some,
  split_before-none, contains-bounds, new_region, new_Layout, before_Layout,
}

split_after-total_used :
    (size address : ℕ) (c : Cursor) → total_used (split_after size address c) ≡ total_used c.after
unfolding split_after free_part
split_after-total_used size address c = ground arith

module _ (stop from size address : ℕ) (solid : Bool) (c : Cursor) (fits : stop < word_mod)
    (h : contains c.region address ≡ true) (layout : Layout stop from solid (close c))
    (room : size ≤ sub_word c.region.size (sub_word address c.region.start)) (pos : 0 < size)
    (al : address % page_size ≡ 0) (al' : size % page_size ≡ 0) (free : c.region.used ≡ false) where
  placed_at-Layout : (used : ℕ) → Layout stop from solid (close (placed_at size address used c).at)
  placed_at-Layout used = elim (dec_lt c.region.start address) [
    | yes lt ↦ rw (split_before-some address c lt) (
        Layout-replace stop from solid c.before (c.region ∷ c.after) _
          (λ a s t.
            before_Layout stop a size address s c fits h t room pos al al' free (omega arith))
          layout)
    | no ge ↦ rw (split_before-none address c (omega arith)) (
        Layout-replace stop from solid c.before (c.region ∷ c.after) _
          (λ a s t.
            let (e, lo, hi, le) = contains-bounds stop a address s c.region c.after fits h t in
            let same : address ≡ a = omega arith in
            subst (λ x. Layout stop x s (new_region size address c ∷ split_after size address c))
              same (new_Layout stop a size address s c fits h t room pos al al' free s))
          layout)
  ]

  -- The room is inside the region that contains the address.
  room_inside :
      (stop < word_mod)
      × (c.region.start ≤ address)
      × (address + size ≤ c.region.start + c.region.size)
      × (from ≤ c.region.start)
      × (c.region.start + c.region.size ≤ stop)
  room_inside =
      Layout-here stop from solid c.before (c.region ∷ c.after) _
        (λ a s below t.
          let (e, lo, hi, le) = contains-bounds stop a address s c.region c.after fits h t in
          let off = sub_word-exact address c.region.start (omega arith) (omega arith) in
          let left =
            sub_word-exact c.region.size (sub_word address c.region.start) (omega arith)
              (omega arith) in
          omega arith)
        layout

  placed_at-total_used :
      (used : ℕ)
      → used ≡ total_used (close c)
      → let p = placed_at size address used c in p.used ≡ total_used (close p.at)
  unfolding free_part
  placed_at-total_used used counted =
      let space = room_at_cursor stop from solid c free layout in
      let inside = room_inside in
      let sum = add_word-exact used size (omega arith) in
      let old = total_used-rev_append c.before (c.region ∷ c.after) in
      let rest = new_region size address c ∷ split_after size address c in
      let behind = split_after-total_used size address c in
      elim (dec_lt c.region.start address) [
        | yes lt ↦ rw (split_before-some address c lt) (
            ground (
              arith,
              total_used-rev_append c.before
                  (free_part c.region.start (sub_word address c.region.start) ∷ rest),
            ))
        | no ge ↦
            rw (split_before-none address c (omega arith))
              (ground (arith, total_used-rev_append c.before rest))
      ]

-- A successful `alloc_space_at` of a positive size leaves a valid space.
pub alloc_space_at-IsValid :
    (s : Space) (size address : ℕ) (p : Placed)
    → IsValid s
    → 0 < size
    → alloc_space_at s size address ≡ ok p
    → IsValid (commit s p)
alloc_space_at-IsValid s size address p v pos e =
    let a = alloc_space_at-AllocatedAt s size address p e in
    let c = a.cursor in
    let here = (seek-Stops (λ r. contains r address) s c a.found).hit in
    let at = stopped_Layout (λ r. contains r address) s c v a.found in
    let stop = s.start + s.size in
    let (free, ways) = carve_at_cases size address s.used c p a.result in
    elim ways [
      | inl (fit, q) ↦ rw q (record {
        layout =
            Layout-replace stop s.start true c.before (c.region ∷ c.after) _
              (λ a' s' t. whole_Layout stop a' s' c.region c.after t) at.0;
        counted =
            whole-total_used s.used c free at.1
              (omega (arith, v.fits, room_at_cursor stop s.start true c free at.0));
        fits = v.fits;
      })
      | inr (room, q) ↦ rw q (record {
        layout =
            placed_at-Layout stop s.start size address true c v.fits here at.0 room pos
              a.address_aligned a.size_aligned free s.used;
        counted =
            placed_at-total_used stop s.start size address true c v.fits here at.0 room pos
              a.address_aligned a.size_aligned free s.used at.1;
        fits = v.fits;
      })
    ]

-- The region that `alloc_space_at` hands back is used and has the size asked for. It begins at the
-- address asked for, or it is a free region of just that size that contains the address.
pub alloc_space_at-region :
    (s : Space) (size address : ℕ) (p : Placed)
    → alloc_space_at s size address ≡ ok p
    → (p.at.region.size ≡ size)
      × (p.at.region.used ≡ true)
      × ((p.at.region.start ≡ address) ⊎ (contains p.at.region address ≡ true))
unfolding contains end
alloc_space_at-region s size address p e =
    let a = alloc_space_at-AllocatedAt s size address p e in
    let c = a.cursor in
    let here = (seek-Stops (λ r. contains r address) s c a.found).hit in
    let (free, ways) = carve_at_cases size address s.used c p a.result in
    elim ways [
      | inl (fit, q) ↦ rw q (fit, refl, inr here)
      | inr (room, q) ↦ rw q (refl, refl, inl refl)
    ]

-- A request for `size` bytes at an aligned `address` inside a free region of just `size` bytes is
-- granted with that region, wherever it begins: the caller gets another address than it asked for,
-- although the last bytes that it asked for lie outside the region.
pub alloc_space_at-misplaces :
    (s : Space) (size address : ℕ) (c : Cursor)
    → address % page_size ≡ 0
    → size % page_size ≡ 0
    → seek (λ r. contains r address) s ≡ some c
    → c.region.used ≡ false
    → c.region.size ≡ size
    → c.region.start < address
    → (p : Placed) × (alloc_space_at s size address ≡ ok p)
      × (p.at.region.start ≢ address)
      × (p.at.region.start + p.at.region.size < address + size)
unfolding alloc_space_at carve_at
alloc_space_at-misplaces s size address c al al' found free fit before =
    (placed_whole s.used c, rw found (ground arith), (λ e. omega arith), omega arith)
