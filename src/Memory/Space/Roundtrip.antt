-- ===== src/Memory/Space/Roundtrip.antt =====
-- `free_region` undoes `alloc_space` (kernel/memory/VMSpace.cpp): the list is the old one again, so
-- no free space is lost to fragmentation.
use nusa_os.Common.{
  ℕ, ◌+◌, ◌≤◌, ◌<◌, ◌≡◌, refl, ap, true, false, none, List, [], ◌∷◌, word_mod, add_word, sub_word,
  add_word-exact, sub_word-exact, arith, ok, rev_append, ℕ_discrete,
}
use nusa_os.Memory.Space.{
  Region, Space, Cursor, Placed, close, commit, free_region, carve, merge_prev, merge_next,
  is_free_for, alloc_space,
}
use nusa_os.Memory.Space.Cursors.{seek-Stops}
use nusa_os.Memory.Space.Inv.{Layout, IsValid, Layout-here, Layout-le}
use nusa_os.Memory.Space.Alloc.{
  stopped_Layout, alloc_space-Allocated, carve-whole, carve-part, is_free_for-holds, room_at_cursor,
}
use nusa_os.Memory.Space.Free.{freed, merge_next-busy, merge_next-idle, merge_prev-busy}

-- The nearest region, if there is one, is in use.
abbrev Solid : List Region → Type 0
Solid [] = Unit
Solid (x ∷ xs) = x.used ≡ true

Solid-before :
    (stop from : ℕ) (before : List Region) (r : Region) (after : List Region)
    → Layout stop from true (rev_append before (r ∷ after))
    → r.used ≡ false
    → Solid before
Solid-before stop from [] r after h idle = tt
Solid-before stop from (x ∷ xs) r after h idle =
    Layout-here stop from true xs (x ∷ r ∷ after) _ (λ a s below t. ground arith) h

Solid-after :
    (stop from : ℕ) (r : Region) (after : List Region)
    → r.used ≡ false
    → Layout stop from r.used after
    → Solid after
Solid-after stop from r [] idle h = tt
Solid-after stop from r (n ∷ after) idle h = ground arith

merge_prev-Solid :
    (before : List Region) (r : Region) (after : List Region)
    → Solid before
    → let c : Cursor = record { before = before; region = r; after = after } in merge_prev c ≡ c
unfolding merge_prev
merge_prev-Solid [] r after h = refl
merge_prev-Solid (x ∷ xs) r after h = merge_prev-busy xs r x after h

merge_next-Solid :
    (before : List Region) (r : Region) (after : List Region)
    → Solid after
    → let c : Cursor = record { before = before; region = r; after = after } in merge_next c ≡ c
unfolding merge_next
merge_next-Solid before r [] h = refl
merge_next-Solid before r (n ∷ after) h = merge_next-busy before r n after h

module _ (stop from size used : ℕ) (c : Cursor) (layout : Layout stop from true (close c))
    (free : is_free_for size c.region ≡ true) (room : used + c.region.size < word_mod) where
  here :
      (c.region.vm_region ≡ none)
      × Solid c.after
      × (c.region.start + c.region.size ≤ stop)
      × (c.region.used ≡ false)
      × (size ≤ c.region.size)
  here =
      let (idle, fits) = is_free_for-holds size c.region free in
      Layout-here stop from true c.before (c.region ∷ c.after) _
        (λ a s below t. (
          t.4 idle,
          Solid-after stop (a + c.region.size) c.region c.after idle t.5,
          omega (arith, Layout-le stop (a + c.region.size) c.region.used c.after t.5),
          idle,
          fits,
        ))
        layout

  free-carve :
      let p = carve size used c in let q = free_region p.used p.at in (q.at ≡ c) × (q.used ≡ used)
  unfolding free_region
  free-carve =
      let (bare, solid, end, idle, fits) = here in
      let behind = Solid-before stop from c.before c.region c.after layout idle in
      let same : freed c.region ≡ c.region = ground arith in
      elim (ℕ_discrete c.region.size size) [
        | yes fit ↦
            let sum = add_word-exact used c.region.size room in
            let diff =
              sub_word-exact (add_word used c.region.size) c.region.size (omega arith)
                (omega arith) in
            rw
              (
                carve-whole size used c fit,
                merge_prev-Solid c.before (freed c.region) c.after behind,
                merge_next-Solid c.before (freed c.region) c.after solid,
              )
              (ap (λ r. record c { region = r }) same, omega arith)
        | no loose ↦
            let r' : Region = record {
              start = c.region.start;
              size = size;
              used = false;
              vm_region = none;
            } in
            let rest : Region = record (c.region) {
              start = add_word c.region.start size;
              size = sub_word c.region.size size;
            } in
            let sum = add_word-exact used size (omega arith) in
            let diff = sub_word-exact (add_word used size) size (omega arith) (omega arith) in
            let left = sub_word-exact c.region.size size (omega arith) (omega arith) in
            let whole = add_word-exact size (sub_word c.region.size size) (omega arith) in
            rw
              (
                carve-part size used c loose,
                merge_prev-Solid c.before r' (rest ∷ c.after) behind,
                merge_next-idle c.before r' rest c.after idle,
              )
              (ground arith, omega arith)
      ]

-- Freeing the region that `alloc_space` handed back restores the regions and `m_used`.
pub free-alloc_space :
    (s : Space) (size : ℕ) (p : Placed)
    → IsValid s
    → alloc_space s size ≡ ok p
    → commit s (free_region p.used p.at) ≡ s
free-alloc_space s size p v e =
    let a = alloc_space-Allocated s size p e in
    let c = a.cursor in
    let stop = seek-Stops (is_free_for size) s c a.found in
    let at = stopped_Layout (is_free_for size) s c v a.found in
    let room =
      room_at_cursor (s.start + s.size) s.start true c (is_free_for-holds size c.region stop.hit).0
        at.0 in
    let (list, count) =
      free-carve (s.start + s.size) s.start size s.used c at.0 stop.hit (omega (arith, v.fits)) in
    rw a.result (ground (arith, ap close list, stop.same))
