-- ===== src/Memory/Region/Fill.antt =====
-- The constructor of kernel/memory/PhysicalRegion.cpp: its loop ends, and its zones are the region.
use nusa_os.Common.{
  subst, ==_ne, ℕ, zero, suc, ◌+◌, ◌-◌, ◌*◌, ◌^◌, ◌<◌, ◌≤◌, ◌≡◌, ◌≢◌, refl, sym, ap, ◌∙◌, Bool,
  true, false, List, [], ◌∷◌, if◌then◌else◌, arith, All, ℕ_discrete, ok, add_word, sub_word,
  add_word-exact, sub_word-exact, word_mod, min,
}
use native.Mathlib.Nat.{pow-le-pow_right, one-le-pow}
use nusa_os.Memory.Buddy.{Zone, max_order, highest_bit, order_for, make_orders, alloc_block}
use nusa_os.Memory.Buddy.Rank.{highest_bit_lem, order_for-pow}
use nusa_os.Memory.Buddy.Blocks.{in_block}
use nusa_os.Memory.Buddy.Alloc.{has_free, Answers}
use nusa_os.Memory.Buddy.Totals.{
  free_at_page, IsSound, Taken, make_zone-IsSound, make_zone-shape, alloc_block-Taken,
  alloc_block-answer,
}
use nusa_os.Memory.Buddy.Count.{alloc_block-shape}
use nusa_os.Memory.Region.{zone_size, expect, new_zone, fill}

-- The zones follow one another from the page on, and have this many pages together.
unfoldable pub Tiles : ℕ → ℕ → List Zone → Type 0
Tiles start_page num_pages [] = num_pages ≡ 0
Tiles start_page num_pages (zone ∷ zones) =
    (zone.first_page ≡ start_page)
    × (zone.num_pages ≤ num_pages)
    × Tiles (start_page + zone.num_pages) (num_pages - zone.num_pages) zones

-- A sound zone whose pages are all used, or all free.
unfoldable pub IsNew : Bool → Zone → Type 0
IsNew used zone =
    IsSound zone
    × ((p : ℕ) → free_at_page zone p ≡ (if used then 0 else in_block zone.num_pages 0 p))
    × (zone.free_pages ≡ (if used then 0 else zone.num_pages))

zone_size-bounds :
    (n : ℕ)
    → 0 < n
    → n < 2 ^ 32
    → (k : ℕ) × (k ≤ max_order) × (zone_size n ≡ 2 ^ k) × (0 < 2 ^ k) × (2 ^ k ≤ n)
unfolding zone_size
zone_size-bounds n pos lt =
    let k = min (highest_bit 32 n) max_order in
    let below : 2 ^ k ≤ 2 ^ highest_bit 32 n =
      pow-le-pow_right {n = 2} (omega arith) (omega arith) in
    (
      k,
      omega arith,
      refl,
      one-le-pow k 2 (omega arith),
      omega (arith, below, (highest_bit_lem 32 n pos lt).0),
    )

has_free-make : (higher size n : ℕ) → has_free higher (make_orders higher size n) ≡ true
unfolding has_free make_orders
has_free-make zero size n = refl
has_free-make (suc higher) size n = has_free-make higher (size + size) n

-- A block as large as the zone is the zone.
only_block : (j size n : ℕ) → n ≡ size → suc j * size ≤ n → j * size ≡ 0
only_block zero size n e room = omega arith
only_block (suc j) size n e room = elim (ℕ_discrete size 0) [
  | yes z ↦ rw (z) (omega arith)
  | no nz ↦ absurd (omega (arith, e, room))
]

-- A zone that was allocated whole has no free page left.
new_zone-IsNew :
    (start k : ℕ) (used : Bool)
    → k ≤ max_order
    → start + 2 ^ k < word_mod
    → (zone : Zone) × (new_zone start (2 ^ k) used ≡ ok zone)
      × (zone.first_page ≡ start)
      × (zone.num_pages ≡ 2 ^ k)
      × IsNew used zone
unfolding new_zone IsNew expect Answers Taken IsSound
new_zone-IsNew start k false le fits =
    let (zone, made, sound, all) = make_zone-IsSound start k le fits in
    let (first, pages, count, orders) = make_zone-shape start (2 ^ k) zone made in
    (
      zone,
      rw (made) refl,
      first,
      pages,
      (sound, λ p. all p ∙ ap (λ n. in_block n 0 p) (sym pages), count ∙ sym pages),
    )
new_zone-IsNew start k true le fits =
    let (zone, made, sound, all) = make_zone-IsSound start k le fits in
    let (first, pages, count, orders) = make_zone-shape start (2 ^ k) zone made in
    let order = order_for-pow k (omega arith) in
    let filled : has_free (order_for (2 ^ k)) zone.orders ≡ true =
      ap (has_free (order_for (2 ^ k))) orders ∙ has_free-make (order_for (2 ^ k)) 1 (2 ^ k) in
    let (got, ran) =
      subst (λ b. Answers b (alloc_block zone (2 ^ k))) filled
        ((alloc_block-answer zone (2 ^ k) sound).1 (omega (arith, count))) in
    let (enough, first', pages', left) = alloc_block-shape zone got.1 (2 ^ k) got.0 ran in
    let exact = sub_word-exact zone.free_pages (2 ^ k) (omega (arith, count, fits)) enough in
    let (sound', taken) = alloc_block-Taken zone got.1 (2 ^ k) got.0 sound ran in
    let (j, at, room, gone) = subst (λ o. Taken zone o got.0 got.1) order taken in
    (
      got.1,
      rw (made, ran) refl,
      first' ∙ first,
      pages' ∙ pages,
      (
        sound',
        λ p. omega (
          arith,
          gone p,
          all p,
          ap (λ b. in_block (2 ^ k) b p) (only_block j (2 ^ k) zone.num_pages pages room),
        ),
        omega (arith, left, count, exact),
      ),
    )

fill_round :
    (fuel start n size start' left : ℕ) (used : Bool) (zone : Zone) (zones : List Zone)
    → n ≢ 0
    → zone_size n ≡ size
    → new_zone start size used ≡ ok zone
    → add_word start size ≡ start'
    → sub_word n size ≡ left
    → fill fuel start' left used ≡ ok zones
    → fill (suc fuel) start n used ≡ ok (zone ∷ zones)
unfolding fill
fill_round fuel start n size start' left used zone zones ne sized made next rest ran =
    rw (==_ne n 0 ne, sized, made, next, rest, ran) refl

-- The constructor's loop ends within as many rounds as there are pages, its ASSERTs hold, and it
-- leaves sound zones that make up the region and are free, or used, throughout.
pub fill-Tiles :
    (fuel start n : ℕ) (used : Bool)
    → n ≤ fuel
    → start + n < word_mod
    → (zones : List Zone) × (fill fuel start n used ≡ ok zones)
      × Tiles start n zones
      × All (IsNew used) zones
unfolding fill Tiles
fill-Tiles zero start n used enough fits = ([], rw (zero_left) refl, omega (arith, enough), tt)
  where
    zero_left : n ≡ 0
    zero_left = omega (arith, enough)
fill-Tiles (suc fuel) start n used enough fits = elim (ℕ_discrete n 0) [
  | yes e ↦ ([], rw (e) refl, e, tt)
  | no ne ↦
      let (k, top, size, room, le) = zone_size-bounds n (omega arith) (omega (arith, fits)) in
      let (zone, made, first, pages, fresh) =
        new_zone-IsNew start k used top (omega (arith, fits, le)) in
      let next : add_word start (2 ^ k) ≡ start + 2 ^ k =
        add_word-exact start (2 ^ k) (omega (arith, fits, le)) in
      let left : sub_word n (2 ^ k) ≡ n - 2 ^ k =
        sub_word-exact n (2 ^ k) (omega (arith, fits)) le in
      let (zones, ran, tiles, fresh') =
        fill-Tiles fuel (start + 2 ^ k) (n - 2 ^ k) used (omega (arith, enough, le, room))
          (omega (arith, fits, le)) in
      (
        zone ∷ zones,
        fill_round fuel start n (2 ^ k) (start + 2 ^ k) (n - 2 ^ k) used zone zones ne size made
            next left ran,
        (
          first,
          omega (arith, pages, le),
          subst (λ s. Tiles (start + s) (n - s) zones) (sym pages) tiles,
        ),
        (fresh, fresh'),
      )
]
