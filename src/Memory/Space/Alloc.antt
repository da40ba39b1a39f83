-- ===== src/Memory/Space/Alloc.antt =====
-- `VMSpace::alloc_space` (kernel/memory/VMSpace.cpp): first fit, and what it does to the layout.
use nusa_os.Common.{
  ℕ, ◌+◌, ◌%◌, ◌≤◌, ◌<◌, ◌≡◌, ◌≢◌, refl, Bool, true, false, none, List, [], ◌∷◌, ◌⊎◌, subst, ap,
  sym, ◌∙◌, rev_append, word_mod, add_word, sub_word, add_word-exact, sub_word-exact, arith,
  ℕ_discrete, All, enomem, ok, err, ◌==◌, Option-cases, some, Bool-cases, inl, inr,
}
use nusa_os.Memory.Space.{
  page_size, Region, Space, Cursor, Placed, close, commit, is_free_for, carve, seek, alloc_space,
}
use mathlib.Core.List.{append-nil}
use mathlib.Core.Logic.{◌↔◌}
use mathlib.Core.Path.{fun_ext}
use nusa_os.Memory.Space.Mapping.{find_free_space, has_room}
use nusa_os.Memory.Space.Cursors.{seek-Stops, seek-misses, seek-none}
use nusa_os.Memory.Space.Inv.{
  Layout, IsValid, total_used, Layout-le, Layout-replace, Layout-at, Layout-solid, or_true,
  total_used-le, total_used-rev_append,
}

pub carve-whole :
    (size used : ℕ) (c : Cursor)
    → c.region.size ≡ size
    → carve size used c ≡ record {
      at = record c { region = record (c.region) { used = true } };
      used = add_word used c.region.size;
    }
unfolding carve
carve-whole size used c e = ground arith

pub carve-part :
    (size used : ℕ) (c : Cursor)
    → c.region.size ≢ size
    → carve size used c ≡ record {
      at = record {
        before = c.before;
        region = record { start = c.region.start; size = size; used = true; vm_region = none };
        after =
            record (c.region) {
              start = add_word c.region.start size;
              size = sub_word c.region.size size;
            }
            ∷ c.after;
      };
      used = add_word used size;
    }
unfolding carve
carve-part size used c e = ground arith

pub is_free_for-holds :
    (size : ℕ) (r : Region) → is_free_for size r ≡ true → (r.used ≡ false) × (size ≤ r.size)
unfolding is_free_for
is_free_for-holds size r h = ground arith

-- The two ways in which `carve` changes the list, from the cursor on.
pub whole_Layout :
    (stop a : ℕ) (s : Bool) (r : Region) (rest : List Region)
    → Layout stop a s (r ∷ rest)
    → Layout stop a s (record r { used = true } ∷ rest)
whole_Layout stop a s r rest t =
    (t.0, t.1, t.2, or_true s, λ e. cc, Layout-solid stop _ r.used rest t.5)

part_Layout :
    (size stop a : ℕ) (s : Bool) (r : Region) (rest : List Region)
    → 0 < size
    → size % page_size ≡ 0
    → stop < word_mod
    → size < r.size
    → Layout stop a s (r ∷ rest)
    → Layout stop a s (
        record { start = r.start; size = size; used = true; vm_region = none }
        ∷ record r { start = add_word r.start size; size = sub_word r.size size }
        ∷ rest)
part_Layout size stop a s r rest pos al fits lt t =
    let le = Layout-le stop (a + r.size) r.used rest t.5 in
    let sum = add_word-exact r.start size (omega arith) in
    let diff = sub_word-exact r.size size (omega arith) (omega arith) in
    (
      t.0,
      pos,
      (t.2.0, al),
      or_true s,
      λ e. refl,
      (
        omega arith,
        omega arith,
        omega arith,
        refl,
        t.4,
        Layout-at stop (a + r.size) (a + size + sub_word r.size size) r.used rest (omega arith) t.5,
      ),
    )

carve-Layout :
    (size stop from used : ℕ) (solid : Bool) (c : Cursor)
    → 0 < size
    → size % page_size ≡ 0
    → stop < word_mod
    → is_free_for size c.region ≡ true
    → Layout stop from solid (close c)
    → Layout stop from solid (close (carve size used c).at)
carve-Layout size stop from used solid c pos al fits free h =
    let (unused, room) = is_free_for-holds size c.region free in
    elim (ℕ_discrete c.region.size size) [
      | yes e ↦ rw (carve-whole size used c e) (
          Layout-replace stop from solid c.before (c.region ∷ c.after) _
            (λ a s t. whole_Layout stop a s c.region c.after t) h)
      | no ne ↦ rw (carve-part size used c ne) (
          Layout-replace stop from solid c.before (c.region ∷ c.after) _
            (λ a s t. part_Layout size stop a s c.region c.after pos al fits (omega arith) t) h)
    ]

-- `m_used` after a free region at the cursor is used whole.
pub whole-total_used :
    (used : ℕ) (c : Cursor)
    → c.region.used ≡ false
    → used ≡ total_used (close c)
    → total_used (close c) + c.region.size < word_mod
    → add_word used c.region.size
      ≡ total_used (rev_append c.before (record (c.region) { used = true } ∷ c.after))
whole-total_used used c unused e lt = ground (
  arith,
  add_word-exact used c.region.size,
  total_used-rev_append c.before (c.region ∷ c.after),
  total_used-rev_append c.before (record (c.region) { used = true } ∷ c.after),
)

-- `m_used` after an allocation of a free region at the cursor.
carve-total_used :
    (size used : ℕ) (c : Cursor)
    → is_free_for size c.region ≡ true
    → used ≡ total_used (close c)
    → total_used (close c) + size < word_mod
    → (carve size used c).used ≡ total_used (close (carve size used c).at)
carve-total_used size used c free e lt =
    let (unused, room) = is_free_for-holds size c.region free in
    elim (ℕ_discrete c.region.size size) [
      | yes fit ↦ rw (carve-whole size used c fit) (whole-total_used used c unused e (omega arith))
      | no loose ↦
          let r' : Region = record {
            start = c.region.start;
            size = size;
            used = true;
            vm_region = none;
          } in
          let rest : Region = record (c.region) {
            start = add_word c.region.start size;
            size = sub_word c.region.size size;
          } in
          rw (carve-part size used c loose) (
            ground (
              arith,
              add_word-exact used size,
              total_used-rev_append c.before (c.region ∷ c.after),
              total_used-rev_append c.before (r' ∷ rest ∷ c.after),
            ))
    ]

-- Where a successful `alloc_space` stopped, and what it handed back.
pub record Allocated (s : Space) (size : ℕ) (p : Placed) : Type 0 where
  pub aligned : size % page_size ≡ 0
  pub cursor : Cursor
  pub found : seek (is_free_for size) s ≡ some cursor
  pub result : p ≡ carve size s.used cursor

pub alloc_space-Allocated :
    (s : Space) (size : ℕ) (p : Placed) → alloc_space s size ≡ ok p → Allocated s size p
unfolding alloc_space
alloc_space-Allocated s size p e = elim (Bool-cases (size % page_size == 0)) [
  | inl al ↦ elim (Option-cases (seek (is_free_for size) s)) [
    | inl missed ↦ cc (rw (al, missed) at e)
    | inr (c, hit) ↦ record {
      aligned = ground arith;
      cursor = c;
      found = hit;
      result = ground arith;
    }
  ]
  | inr bad ↦ cc (rw bad at e)
]

-- The layout and the accounting, at the cursor that a scan found.
pub stopped_Layout :
    (test : Region → Bool) (s : Space) (c : Cursor)
    → IsValid s
    → seek test s ≡ some c
    → Layout (s.start + s.size) s.start true (close c) × (s.used ≡ total_used (close c))
stopped_Layout test s c v e = let stop = seek-Stops test s c e in rw stop.same (v.layout, v.counted)

-- The sizes of the used regions and of the free one at the cursor fit in the space together.
pub room_at_cursor :
    (stop from : ℕ) (solid : Bool) (c : Cursor)
    → c.region.used ≡ false
    → Layout stop from solid (close c)
    → total_used (close c) + c.region.size + from ≤ stop
room_at_cursor stop from solid c free h =
    let r' : Region = record (c.region) { used = true } in
    let h' =
      Layout-replace stop from solid c.before (c.region ∷ c.after) (r' ∷ c.after)
        (λ a s t. whole_Layout stop a s c.region c.after t) h in
    ground (
      arith,
      total_used-le stop from solid (rev_append c.before (r' ∷ c.after)) h',
      total_used-rev_append c.before (c.region ∷ c.after),
      total_used-rev_append c.before (r' ∷ c.after),
    )

-- A successful allocation of a positive size leaves a valid space: its regions still tile it, free
-- ones stay apart, `m_used` is exact, and nothing wraps.
pub alloc_space-IsValid :
    (s : Space) (size : ℕ) (p : Placed)
    → IsValid s
    → 0 < size
    → alloc_space s size ≡ ok p
    → IsValid (commit s p)
alloc_space-IsValid s size p v pos e =
    let a = alloc_space-Allocated s size p e in
    let c = a.cursor in
    let free = (seek-Stops (is_free_for size) s c a.found).hit in
    let at = stopped_Layout (is_free_for size) s c v a.found in
    let fits = is_free_for-holds size c.region free in
    let room = room_at_cursor (s.start + s.size) s.start true c fits.0 at.0 in
    rw a.result (record {
      layout =
          carve-Layout size (s.start + s.size) s.start s.used true c pos a.aligned v.fits free at.0;
      counted = carve-total_used size s.used c free at.1 (omega (arith, v.fits, fits.1));
      fits = v.fits;
    })

carve_region :
    (size used : ℕ) (c : Cursor)
    → let p = carve size used c in
      (p.at.before ≡ c.before)
      × (p.at.region.start ≡ c.region.start)
      × (p.at.region.size ≡ size)
      × (p.at.region.used ≡ true)
unfolding carve
carve_region size used c = ground arith

has_room-is_free_for : (size : ℕ) (r : Region) → has_room size r ≡ is_free_for size r
unfolding has_room is_free_for
has_room-is_free_for size r = ground arith

passed_over :
    (size : ℕ) (rs : List Region)
    → All (λ r. is_free_for size r ≡ false) rs
    → All (λ r. (r.used ≡ true) ⊎ (r.size < size)) rs
unfolding is_free_for
passed_over size [] missed = tt
passed_over size (r ∷ rs) (here, missed) = (ground arith, passed_over size rs missed)

-- The region that `alloc_space` hands back is used, has the size asked for, and begins where a region
-- of the space did that was not used and was large enough. All those before that one were used or
-- too small. `find_free_space`, whose test is written differently, finds the same place.
pub alloc_space-first_fit :
    (s : Space) (size : ℕ) (p : Placed)
    → alloc_space s size ≡ ok p
    → (p.at.region.size ≡ size)
      × (p.at.region.used ≡ true)
      × (find_free_space s size ≡ ok p.at.region.start)
      × ((old : Region) × (after : List Region) × (s.regions ≡ rev_append p.at.before (old ∷ after))
          × (old.used ≡ false)
          × (size ≤ old.size)
          × (p.at.region.start ≡ old.start))
      × All (λ r. (r.used ≡ true) ⊎ (r.size < size)) p.at.before
unfolding find_free_space
alloc_space-first_fit s size p e =
    let a = alloc_space-Allocated s size p e in
    let c = a.cursor in
    let stop = seek-Stops (is_free_for size) s c a.found in
    let (before, start, sized, used) = carve_region size s.used c in
    let (idle, fits) = is_free_for-holds size c.region stop.hit in
    let passed = stop.passed ∙ append-nil stop.skipped in
    rw (a.result, fun_ext (has_room-is_free_for size), a.found)
      (
        sized,
        used,
        ap ok (sym start),
        (
          c.region,
          c.after,
          sym stop.same ∙ ap (λ b. rev_append b (c.region ∷ c.after)) (sym before),
          idle,
          fits,
          start,
        ),
        subst (All (λ r. (r.used ≡ true) ⊎ (r.size < size))) (sym (before ∙ passed))
            (passed_over size stop.skipped stop.missed),
      )

-- `alloc_space` of a page-aligned size fails with ENOMEM exactly when no region is free and large
-- enough.
pub alloc_space_fails :
    (s : Space) (size : ℕ)
    → size % page_size ≡ 0
    → (alloc_space s size ≡ err enomem) ↔ All (λ r. is_free_for size r ≡ false) s.regions
unfolding alloc_space
alloc_space_fails s size al =
    let pass : (size % page_size == 0) ≡ true = ground arith in
    (
      λ e. elim (Option-cases (seek (is_free_for size) s)) [
        | inl missed ↦ seek-misses (is_free_for size) s missed
        | inr (c, hit) ↦ cc (rw (pass, hit) at e)
      ],
      λ h. rw (pass, seek-none (is_free_for size) s h) refl,
    )
