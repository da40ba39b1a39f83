-- ===== src/Memory/Region/Made.antt =====
-- A new region (the constructor in kernel/memory/PhysicalRegion.cpp) is ready for use.
use nusa_os.Common.{
  ap, >>=-eq-ok, eq_of_ok, ◌≡◌, ℕ, zero, suc, ◌+◌, ◌-◌, ◌<◌, refl, sym, ◌∙◌, Bool, true, false,
  List, [], ◌∷◌, if◌then◌else◌, arith, All, ok, word_mod,
}
use nusa_os.Memory.Buddy.{Zone}
use nusa_os.Memory.Buddy.Blocks.{in_block}
use nusa_os.Memory.Buddy.Totals.{free_at_page}
use nusa_os.Memory.Buddy.Count.{sum_below, free_total, sum_below-whole}
use nusa_os.Memory.Region.{Region, fill, make_region}
use nusa_os.Memory.Region.Fill.{Tiles, IsNew, fill-Tiles}
use nusa_os.Memory.Region.Counted.{IsCounted, zones_free, IsReady}

sum_below-eq : (n : ℕ) (f g : ℕ → ℕ) → ((p : ℕ) → f p ≡ g p) → sum_below n f ≡ sum_below n g
unfolding sum_below
sum_below-eq zero f g same = refl
sum_below-eq (suc n) f g same = omega (arith, same n, sum_below-eq n f g same)

sum_below-zero : (n : ℕ) → sum_below n (λ p. 0) ≡ 0
unfolding sum_below
sum_below-zero zero = refl
sum_below-zero (suc n) = omega (arith, sum_below-zero n)

IsNew-IsCounted : (used : Bool) (zone : Zone) → IsNew used zone → IsCounted zone
unfolding IsNew IsCounted free_total
IsNew-IsCounted true zone (sound, all, count) = (
  sound,
  count
      ∙ sym (
          sum_below-eq zone.num_pages (free_at_page zone) (λ p. 0) all
          ∙ sum_below-zero zone.num_pages),
)
IsNew-IsCounted false zone (sound, all, count) = (
  sound,
  count
      ∙ sym (
          sum_below-eq zone.num_pages (free_at_page zone) (in_block zone.num_pages 0) all
          ∙ sum_below-whole zone.num_pages zone.num_pages 0 (omega arith)),
)

new_zones :
    (used : Bool) (start n : ℕ) (zones : List Zone)
    → Tiles start n zones
    → All (IsNew used) zones
    → All IsCounted zones × (zones_free zones ≡ (if used then 0 else n))
unfolding Tiles zones_free IsNew
new_zones true start n [] tiles fresh = (tt, refl)
new_zones false start n [] tiles fresh = (tt, sym tiles)
new_zones true start n (zone ∷ zones) (first, le, tiles) (here, fresh) =
    let (counted, total) =
      new_zones true (start + zone.num_pages) (n - zone.num_pages) zones tiles fresh in
    ((IsNew-IsCounted true zone here, counted), omega (arith, total, here.2))
new_zones false start n (zone ∷ zones) (first, le, tiles) (here, fresh) =
    let (counted, total) =
      new_zones false (start + zone.num_pages) (n - zone.num_pages) zones tiles fresh in
    ((IsNew-IsCounted false zone here, counted), omega (arith, total, here.2, le))

-- The zones that the constructor makes.
pub make_region-filled :
    (start n : ℕ) (used : Bool)
    → start + n < word_mod
    → (region : Region) × (make_region start n false used ≡ ok region)
      × IsReady region
      × (region.free_pages ≡ (if used then 0 else n))
unfolding make_region IsReady
make_region-filled start n used fits =
    let (zones, ran, tiles, fresh) = fill-Tiles n start n used (omega arith) fits in
    let (counted, total) = new_zones used start n zones tiles fresh in
    let free : ℕ = if used then 0 else n in
    let small : free < word_mod = ground arith in
    (
      record {
        start_page = start;
        num_pages = n;
        free_pages = free;
        reserved = false;
        zones = zones;
      },
      rw (ran) refl,
      (refl, sym total, small, fits, tiles, counted),
      refl,
    )

-- The constructor of a region that is neither reserved nor used returns, for any number of pages
-- that fit the word. With the free lists as `init` completes them, its zones lie end to end over
-- these pages, their counters are right, and all of the pages count as free.
pub make_region-IsReady :
    (start n : ℕ)
    → start + n < word_mod
    → (region : Region) × (make_region start n false false ≡ ok region)
      × IsReady region
      × (region.start_page ≡ start)
      × (region.num_pages ≡ n)
      × (region.free_pages ≡ n)
unfolding make_region
make_region-IsReady start n fits =
    let (region, ran, ready, free) = make_region-filled start n false fits in
    let (zones, filled, same) = >>=-eq-ok (fill n start n false) _ ran in
    (
      region,
      ran,
      ready,
      sym (ap (λ (r : Region). r.start_page) (eq_of_ok same)),
      sym (ap (λ (r : Region). r.num_pages) (eq_of_ok same)),
      free,
    )
