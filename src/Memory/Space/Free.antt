-- ===== src/Memory/Space/Free.antt =====
-- `VMSpace::free_region` and the unmapping operations (kernel/memory/VMSpace.cpp).
use nusa_os.Common.{
  ℕ, ◌+◌, ◌<◌, ◌≡◌, refl, Bool, true, false, none, List, [], ◌∷◌, subst, sym, word_mod, add_word,
  sub_word, add_word-exact, sub_word-exact, arith, inl, inr, rev_append, Bool-cases,
}
use nusa_os.Memory.Space.{Region, Space, Cursor, close, commit, merge_prev, merge_next, free_region}
use nusa_os.Memory.Space.Inv.{
  Layout, IsValid, total_used, Layout-le, Layout-replace, Layout-at, Layout-solid, total_used-le,
  total_used-rev_append, or_true,
}

abbrev pub freed : Region → Region
freed r = record r { used = false; vm_region = none }

module _ (before : List Region) (r n : Region) (after : List Region) where
  pub merge_next-busy :
      n.used ≡ true
      → let c : Cursor = record { before = before; region = r; after = n ∷ after } in
        merge_next c ≡ c
  unfolding merge_next
  merge_next-busy e = ground arith

  pub merge_next-idle :
      n.used ≡ false
      → merge_next (record { before = before; region = r; after = n ∷ after }) ≡ record {
        before = before;
        region = record r { size = add_word r.size n.size };
        after = after;
      }
  unfolding merge_next
  merge_next-idle e = ground arith

  pub merge_prev-busy :
      n.used ≡ true
      → let c : Cursor = record { before = n ∷ before; region = r; after = after } in
        merge_prev c ≡ c
  unfolding merge_prev
  merge_prev-busy e = ground arith

  pub merge_prev-idle :
      n.used ≡ false
      → merge_prev (record { before = n ∷ before; region = r; after = after }) ≡ record {
        before = before;
        region = record r { start = sub_word r.start n.size; size = add_word r.size n.size };
        after = after;
      }
  unfolding merge_prev
  merge_prev-idle e = ground arith

-- The merge with the next region, behind a region that is not free. The chain before it stays.
right_Layout :
    (stop a : ℕ) (s : Bool) (before : List Region) (r : Region) (after : List Region)
    → stop < word_mod
    → Layout stop a s (r ∷ after)
    → let c = merge_next (record { before = before; region = freed r; after = after }) in
      Layout stop a true (c.region ∷ c.after)
unfolding merge_next
right_Layout stop a s before r [] fits t = (t.0, t.1, t.2, refl, λ _. refl, t.5)
right_Layout stop a s before r (n ∷ after) fits t = elim (Bool-cases n.used) [
  | inl busy ↦
      rw (merge_next-busy before (freed r) n after busy)
        (t.0, t.1, t.2, refl, λ _. refl, (t.5.0, t.5.1, t.5.2, busy, t.5.4, t.5.5))
  | inr idle ↦
      let le = Layout-le stop (a + r.size + n.size) n.used after t.5.5 in
      let sum = add_word-exact r.size n.size (omega arith) in
      rw (merge_next-idle before (freed r) n after idle) (
        t.0,
        omega arith,
        (t.2.0, omega arith),
        refl,
        λ _. refl,
        Layout-at stop _ (a + add_word r.size n.size) false after (omega arith)
            (subst (λ u. Layout stop (a + r.size + n.size) u after) idle t.5.5),
      )
]

merge_next-before :
    (before : List Region) (r : Region) (after : List Region)
    → (merge_next (record { before = before; region = r; after = after })).before ≡ before
unfolding merge_next
merge_next-before before r [] = refl
merge_next-before before r (n ∷ after) = ground arith

-- A free region and the one after it as a single region in use.
joined_Layout :
    (stop a : ℕ) (s : Bool) (p r : Region) (after : List Region)
    → stop < word_mod
    → Layout stop a s (p ∷ r ∷ after)
    → Layout stop a s (
        record r { start = sub_word r.start p.size; size = add_word r.size p.size; used = true }
        ∷ after)
joined_Layout stop a s p r after fits t =
    let le = Layout-le stop (a + p.size + r.size) r.used after t.5.5 in
    let sum = add_word-exact r.size p.size (omega arith) in
    let back = sub_word-exact r.start p.size (omega arith) (omega arith) in
    (
      omega arith,
      omega arith,
      (omega arith, omega arith),
      or_true s,
      λ e. cc,
      Layout-at stop _ (a + add_word r.size p.size) true after (omega arith)
          (Layout-solid stop _ r.used after t.5.5),
    )

free_Layout :
    (stop from used : ℕ) (before : List Region) (r : Region) (after : List Region)
    → stop < word_mod
    → Layout stop from true (rev_append before (r ∷ after))
    → Layout stop from true
        (close (free_region used (record { before = before; region = r; after = after })).at)
unfolding free_region
free_Layout stop from used [] r after fits t =
    rw (merge_next-before [] (freed r) after) (right_Layout stop from true [] r after fits t)
free_Layout stop from used (p ∷ before) r after fits t = elim (Bool-cases p.used) [
  | inl busy ↦
      rw
        (
          merge_prev-busy before (freed r) p after busy,
          merge_next-before (p ∷ before) (freed r) after,
        )
        (Layout-replace stop from true before (p ∷ r ∷ after) _
          (λ a u t. (
            t.0,
            t.1,
            t.2,
            t.3,
            t.4,
            let right = right_Layout stop (a + p.size) p.used (p ∷ before) r after fits t.5 in
                let m =
                  merge_next (record { before = p ∷ before; region = freed r; after = after }) in
                subst (λ v. Layout stop (a + p.size) v (m.region ∷ m.after)) (sym busy) right,
          ))
          t)
  | inr idle ↦
      let joined : Region = record r {
        start = sub_word r.start p.size;
        size = add_word r.size p.size;
        used = true;
      } in
      rw
        (
          merge_prev-idle before (freed r) p after idle,
          merge_next-before before (freed joined) after,
        )
        (Layout-replace stop from true before (p ∷ r ∷ after) _
          (λ a u t.
            let solid : u ≡ true = ground arith in
            let right =
              right_Layout stop a u before joined after fits
                (joined_Layout stop a u p r after fits t) in
            let m = merge_next (record { before = before; region = freed joined; after = after }) in
            subst (λ v. Layout stop a v (m.region ∷ m.after)) (sym solid) right)
          t)
]

-- What is in use after a merge.
merge_next-total_used :
    (before : List Region) (r : Region) (after : List Region)
    → r.used ≡ false
    → let c = merge_next (record { before = before; region = r; after = after }) in
      total_used (close c) ≡ total_used before + total_used after
unfolding merge_next
merge_next-total_used before r [] e = ground (arith, total_used-rev_append before (r ∷ []))
merge_next-total_used before r (n ∷ after) e = elim (Bool-cases n.used) [
  | inl busy ↦
      rw (merge_next-busy before r n after busy)
        (ground (arith, total_used-rev_append before (r ∷ n ∷ after)))
  | inr idle ↦ rw (merge_next-idle before r n after idle) (
      ground
        (arith, total_used-rev_append before (record r { size = add_word r.size n.size } ∷ after)))
]

free-total_used :
    (used : ℕ) (before : List Region) (r : Region) (after : List Region)
    → let c = free_region used (record { before = before; region = r; after = after }) in
      total_used (close c.at) ≡ total_used before + total_used after
unfolding free_region
free-total_used used [] r after = merge_next-total_used [] (freed r) after refl
free-total_used used (p ∷ before) r after = elim (Bool-cases p.used) [
  | inl busy ↦
      rw (merge_prev-busy before (freed r) p after busy)
        (merge_next-total_used (p ∷ before) (freed r) after refl)
  | inr idle ↦
      let joined : Region = record (freed r) {
        start = sub_word r.start p.size;
        size = add_word r.size p.size;
      } in
      rw (merge_prev-idle before (freed r) p after idle)
        (ground (arith, merge_next-total_used before joined after))
]

-- `free_region` of a used region leaves a valid space.
pub free_region-IsValid :
    (s : Space) (c : Cursor)
    → IsValid s
    → s.regions ≡ close c
    → c.region.used ≡ true
    → IsValid (commit s (free_region s.used c))
unfolding free_region
free_region-IsValid s c v e used =
    let at : Layout (s.start + s.size) s.start true (close c) = rw e at v.layout in
    let counted : s.used ≡ total_used (close c) = rw e at v.counted in
    let within = total_used-le (s.start + s.size) s.start true (close c) at in
    let exact = sub_word-exact s.used c.region.size in
    record {
      layout = free_Layout (s.start + s.size) s.start s.used c.before c.region c.after v.fits at;
      counted = ground (
        arith,
        v.fits,
        free-total_used s.used c.before c.region c.after,
        total_used-rev_append c.before (c.region ∷ c.after),
      );
      fits = v.fits;
    }
