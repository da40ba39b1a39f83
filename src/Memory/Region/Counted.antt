-- ===== src/Memory/Region/Counted.antt =====
-- The pages that the zones of a region (kernel/memory/PhysicalRegion.cpp) have free, and the counters.
use nusa_os.Common.{
  ℕ, zero, suc, ◌+◌, ◌-◌, ◌<◌, ◌≡◌, refl, Bool, true, false, List, [], ◌∷◌, if◌then◌else◌, arith,
  All, word_mod, leb, inl, inr, Bool-cases, ◌||◌,
}
use nusa_os.Memory.Buddy.{Zone, Order}
use nusa_os.Memory.Buddy.Blocks.{covers}
use nusa_os.Memory.Buddy.Sound.{frees}
use nusa_os.Memory.Buddy.Alloc.{has_free, is_filled}
use nusa_os.Memory.Buddy.Totals.{free_at_page, IsSound}
use nusa_os.Memory.Buddy.Count.{sum_below, free_total}
use nusa_os.Memory.Region.Fill.{Tiles}
use nusa_os.Memory.Region.{Region}

-- A sound zone whose counter is right.
unfoldable pub IsCounted : Zone → Type 0
IsCounted zone = IsSound zone × (zone.free_pages ≡ free_total zone)

unfoldable pub zones_free : List Zone → ℕ
zones_free [] = 0
zones_free (zone ∷ zones) = zone.free_pages + zones_free zones

-- Whether the zone has the page free, by the page's index in memory.
unfoldable pub zone_has : Zone → ℕ → ℕ
zone_has zone page =
    if leb zone.first_page page then free_at_page zone (page - zone.first_page) else 0

unfoldable pub has_page : List Zone → ℕ → ℕ
has_page [] page = 0
has_page (zone ∷ zones) page = zone_has zone page + has_page zones page

-- A region in use: not reserved, its zones sound, and the counters right.
unfoldable pub IsReady : Region → Type 0
IsReady region =
    (region.reserved ≡ false)
    × (region.free_pages ≡ zones_free region.zones)
    × (region.free_pages < word_mod)
    × (region.start_page + region.num_pages < word_mod)
    × Tiles region.start_page region.num_pages region.zones
    × All IsCounted region.zones

both_false : (a b : Bool) → (a || b) ≡ false → (a ≡ false) × (b ≡ false)
both_false true b e = cc
both_false false b e = (refl, e)

covers-none :
    (size : ℕ) (list : List ℕ) (page : ℕ) → is_filled list ≡ false → covers size list page ≡ 0
unfolding covers
covers-none size [] page e = refl
covers-none size (b ∷ bs) page e = cc

frees-none :
    (size : ℕ) (orders : List Order) (page : ℕ)
    → has_free zero orders ≡ false
    → frees size orders page ≡ 0
unfolding has_free frees
frees-none size [] page none = refl
frees-none size (bucket ∷ above) page none =
    let (here, rest) = both_false (is_filled bucket.freelist) (has_free zero above) none in
    omega
      (arith, covers-none size bucket.freelist page here, frees-none (size + size) above page rest)

sum_below-none : (n : ℕ) (f : ℕ → ℕ) → ((p : ℕ) → f p ≡ 0) → sum_below n f ≡ 0
unfolding sum_below
sum_below-none zero f none = refl
sum_below-none (suc n) f none = omega (arith, none n, sum_below-none n f none)

-- A zone with a free page has a free block.
pub counted_has_free : (zone : Zone) → 0 < free_total zone → has_free zero zone.orders ≡ true
unfolding free_total free_at_page
counted_has_free zone pos = elim (Bool-cases (has_free zero zone.orders)) [
  | inl e ↦ e
  | inr e ↦
      let none =
        sum_below-none zone.num_pages (free_at_page zone) (λ p. frees-none 1 zone.orders p e) in
      absurd (omega (arith, pos, none))
]
