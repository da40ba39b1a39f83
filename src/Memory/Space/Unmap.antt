-- ===== src/Memory/Space/Unmap.antt =====
-- The unmapping operations of kernel/memory/VMSpace.cpp, and `free_region` after `alloc_space`.
use nusa_os.Common.{
  ℕ, ◌+◌, ◌≡◌, ◌≢◌, ◌⊎◌, sym, Bool, true, Option, none, some, ◌∷◌, arith, enoent, ok, ◌>>=◌, inl,
  inr, Option-cases, Bool-cases, ◌==◌, >>=-eq-ok,
}
use nusa_os.Memory.Space.{Region, Space, Cursor, close, commit, seek, free_region, or_fail}
use nusa_os.Memory.Space.Cursors.{seek-Stops}
use nusa_os.Memory.Space.Mapping.{unmap_at, unmap_region, unmap_region_at, maps}
use nusa_os.Memory.Space.Inv.{Layout, IsValid, Layout-here}
use nusa_os.Memory.Space.Alloc.{stopped_Layout}
use nusa_os.Memory.Space.Free.{free_region-IsValid}

-- Where a successful unmapping stopped: at a region in use, that it freed.
unmap_at-ok :
    (s t : Space) (c : Cursor)
    → unmap_at s c ≡ ok t
    → (c.region.vm_region ≢ none) × (t ≡ commit s (free_region s.used c))
unfolding unmap_at
unmap_at-ok s t c e = elim (Option-cases c.region.vm_region) [
  | inl bare ↦ cc (rw (bare, unmap_at) at e)
  | inr (vm, mapped) ↦ (λ bare. ground arith, ground arith)
]

mapped-used :
    (stop from : ℕ) (c : Cursor)
    → c.region.vm_region ≢ none
    → Layout stop from true (close c)
    → c.region.used ≡ true
mapped-used stop from c mapped h =
    Layout-here stop from true c.before (c.region ∷ c.after) _
      (λ a s below t. elim (Bool-cases c.region.used) [
        | inl busy ↦ busy
        | inr idle ↦ absurd (mapped (t.4 idle))
      ])
      h

unmap_found-IsValid :
    (test : Region → Bool) (s t : Space)
    → IsValid s
    → (or_fail (seek test s) enoent >>= unmap_at s) ≡ ok t
    → IsValid t
unmap_found-IsValid test s t v e =
    let (c, found, done) = >>=-eq-ok (or_fail (seek test s) enoent) (unmap_at s) e in
    let hit : seek test s ≡ some c = or_fail-ok (seek test s) c found in
    let stop = seek-Stops test s c hit in
    let (mapped, result) = unmap_at-ok s t c done in
    rw result (
      free_region-IsValid s c v (sym stop.same)
        (mapped-used (s.start + s.size) s.start c mapped (stopped_Layout test s c v hit).0))
  where
    or_fail-ok : (o : Option Cursor) (c : Cursor) → or_fail o enoent ≡ ok c → o ≡ some c
    or_fail-ok none c e = cc
    or_fail-ok (some x) c e = cc

-- `unmap_region`, by region or by address, leaves a valid space when it succeeds.
pub unmap_region-IsValid :
    (s t : Space) (id address : ℕ)
    → IsValid s
    → (unmap_region s id ≡ ok t) ⊎ (unmap_region_at s address ≡ ok t)
    → IsValid t
unfolding unmap_region unmap_region_at
unmap_region-IsValid s t id address v (inl e) = unmap_found-IsValid (maps id) s t v e
unmap_region-IsValid s t id address v (inr e) =
    unmap_found-IsValid (λ r. r.start == address) s t v e
