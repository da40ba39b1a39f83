-- ===== src/Memory/Space/Occupancy.antt =====
-- The address space as a set of occupied addresses, and what `alloc_space`, `alloc_space_at` and
-- `free_region` (kernel/memory/VMSpace.cpp) do to that set.
use nusa_os.Common.{
  ℕ, ◌+◌, ◌≤◌, ◌<◌, ◌≡◌, refl, Bool, true, false, ◌&&◌, ◌||◌, none, List, [], ◌∷◌, add_word,
  sub_word, arith, ok, rev_append, ℕ_discrete, ltb, leb,
}
use nusa_os.Memory.Space.{Region, Space, Cursor, Placed, close, is_free_for, alloc_space}
use nusa_os.Memory.Space.Cursors.{seek-Stops}
use nusa_os.Memory.Space.Inv.{Layout, IsValid, Layout-here}
use nusa_os.Memory.Space.Alloc.{
  stopped_Layout, alloc_space-Allocated, carve-whole, carve-part, is_free_for-holds,
}

abbrev pub in_range : ℕ → ℕ → ℕ → Bool
in_range start size a = leb start a && ltb a (start + size)

-- Whether some region in use covers the address.
abbrev pub occupied : List Region → ℕ → Bool
occupied [] a = false
occupied (r ∷ rest) a = (r.used && in_range r.start r.size a) || occupied rest a

pub occupied-rev_append :
    (before rest : List Region) (a : ℕ)
    → occupied (rev_append before rest) a ≡ (occupied before a || occupied rest a)
occupied-rev_append [] rest a = refl
occupied-rev_append (x ∷ xs) rest a = ground (arith, occupied-rev_append xs (x ∷ rest) a)

-- Regions that begin past an address do not cover it.
occupied_above :
    (stop from : ℕ) (s : Bool) (rs : List Region) (a : ℕ)
    → Layout stop from s rs
    → a < from
    → occupied rs a ≡ false
occupied_above stop from s [] a h lt = refl
occupied_above stop from s (r ∷ rest) a h lt =
    ground (arith, occupied_above stop (from + r.size) r.used rest a h.5)

-- Nor do those that end before it.
occupied_below :
    (stop from : ℕ) (s : Bool) (before rest : List Region) (a : ℕ)
    → Layout stop from s (rev_append before rest)
    → ((b : ℕ) (u : Bool) → from ≤ b → Layout stop b u rest → b ≤ a)
    → occupied before a ≡ false
occupied_below stop from s [] rest a h at = refl
occupied_below stop from s (x ∷ xs) rest a h at =
    let le : x.start + x.size ≤ a =
      Layout-here stop from s xs (x ∷ rest) _
        (λ b u below t. omega (arith, at (b + x.size) x.used (omega arith) t.5)) h in
    let ih = occupied_below stop from s xs (x ∷ rest) a h (λ b u below t. omega arith) in
    ground arith

-- Only the region at the cursor covers the addresses in its range.
alone :
    (stop from : ℕ) (s : Bool) (c : Cursor) (a : ℕ)
    → Layout stop from s (close c)
    → c.region.start ≤ a
    → a < c.region.start + c.region.size
    → (occupied c.before a ≡ false) × (occupied c.after a ≡ false)
alone stop from s c a h lo hi = (
  occupied_below stop from s c.before (c.region ∷ c.after) a h (λ b u below t. omega arith),
  Layout-here stop from s c.before (c.region ∷ c.after) _
      (λ b u below t.
        occupied_above stop (b + c.region.size) c.region.used c.after a t.5 (omega arith))
      h,
)

-- `alloc_space` hands out addresses that were not occupied, and it is just those that it adds to
-- the occupied ones.
pub alloc_space-occupied :
    (s : Space) (size : ℕ) (p : Placed) (a : ℕ)
    → IsValid s
    → alloc_space s size ≡ ok p
    → let r = p.at.region in
      (occupied (close p.at) a ≡ (occupied s.regions a || in_range r.start r.size a))
      × (in_range r.start r.size a ≡ true → occupied s.regions a ≡ false)
alloc_space-occupied s size p a v e =
    let got = alloc_space-Allocated s size p e in
    let c = got.cursor in
    let stop = seek-Stops (is_free_for size) s c got.found in
    let at = stopped_Layout (is_free_for size) s c v got.found in
    let (idle, fits) = is_free_for-holds size c.region stop.hit in
    let old = occupied-rev_append c.before (c.region ∷ c.after) a in
    let only = alone (s.start + s.size) s.start true c a at.0 in
    rw (got.result, ← stop.same)
      (elim (ℕ_discrete c.region.size size) [
        | yes fit ↦ rw (carve-whole size s.used c fit) (
            ground
              (arith, occupied-rev_append c.before (record (c.region) { used = true } ∷ c.after) a))
        | no loose ↦
            let r' : Region = record {
              start = c.region.start;
              size = size;
              used = true;
              vm_region = none;
            } in
            let rest : Region = record (c.region) {
              start = add_word c.region.start size;
              size = sub_word c.region.size size;
            } in
            rw (carve-part size s.used c loose)
              (ground (arith, occupied-rev_append c.before (r' ∷ rest ∷ c.after) a))
      ])
