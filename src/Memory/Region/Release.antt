-- ===== src/Memory/Region/Release.antt =====
-- `free_page` of kernel/memory/PhysicalRegion.cpp: a page of the region that is in use is taken back.
use nusa_os.Common.{
  ltb_of_lt, ltb_of_ge, leb_of_le, dec_lt, subst, ℕ, suc, ◌+◌, ◌-◌, ◌*◌, ◌^◌, ◌<◌, ◌≤◌, ◌≡◌, refl,
  sym, ap, ◌∙◌, true, false, List, [], ◌∷◌, ◌==◌, if◌then◌else◌, arith, All, ℕ_discrete, ok,
  add_word, add_word-exact, word_mod,
}
use nusa_os.Memory.Buddy.{Zone, free_block, contains_page}
use nusa_os.Memory.Buddy.Blocks.{in_block}
use nusa_os.Memory.Buddy.Totals.{free_at_page, IsSound, Taken, free_block-frees}
use nusa_os.Memory.Buddy.Count.{
  sum_below, free_total, free_block-shape, sum_below-add, sum_below-whole,
}
use nusa_os.Memory.Region.Fill.{Tiles}
use nusa_os.Memory.Region.Counted.{IsCounted, zones_free, zone_has, has_page, IsReady}
use nusa_os.Memory.Region.Pages.{zone_has-Taken}
use nusa_os.Memory.Region.{free_in, free_page, region_contains, Region}

has_here :
    (zone : Zone) (page : ℕ)
    → zone.first_page ≤ page
    → free_at_page zone (page - zone.first_page) ≡ zone_has zone page
unfolding zone_has
has_here zone page low = rw (leb_of_le zone.first_page page low) refl

unfree_page :
    (zone : Zone) (k p : ℕ)
    → free_at_page zone k ≡ 0
    → free_at_page zone p ≤ 1
    → free_at_page zone p + in_block (2 ^ 0) (k * 2 ^ 0) p ≤ 1
unfolding in_block
unfree_page zone k p used once = elim (ℕ_discrete p k) [
  | yes e ↦ ground (arith, ap (free_at_page zone) e, used)
  | no ne ↦ ground (arith, once)
]

-- A page in use is given back to its zone.
zone_release :
    (zone : Zone) (page : ℕ)
    → IsCounted zone
    → zone.free_pages + 1 < word_mod
    → zone.first_page ≤ page
    → page < zone.first_page + zone.num_pages
    → zone_has zone page ≡ 0
    → (zone' : Zone) × (free_block zone page 1 ≡ ok zone')
      × IsCounted zone'
      × (zone'.free_pages ≡ suc zone.free_pages)
      × (zone'.first_page ≡ zone.first_page)
      × (zone'.num_pages ≡ zone.num_pages)
      × ((p : ℕ) → zone_has zone' p ≡ zone_has zone p + (if p == page then 1 else 0))
unfolding IsCounted IsSound free_total Taken
zone_release zone page (sound, count) small low high used =
    let k = page - zone.first_page in
    let one : k * 2 ^ 0 ≡ k = omega arith in
    let at : zone.first_page + k * 2 ^ 0 ≡ page = omega (arith, one, low) in
    let within : suc k * 2 ^ 0 ≤ zone.num_pages = omega (arith, low, high) in
    let (h, top, pages, fits, orders, once) = sound in
    let unfree : (p : ℕ) → free_at_page zone p + in_block (2 ^ 0) (k * 2 ^ 0) p ≤ 1 =
      λ p. unfree_page zone k p (has_here zone page low ∙ used) (once p) in
    let (zone', ran, sound', counter, freed) = free_block-frees zone 0 k sound within unfree in
    let ran' : free_block zone page 1 ≡ ok zone' = ap (λ b. free_block zone b 1) (sym at) ∙ ran in
    let (first', pages') = free_block-shape zone zone' page 1 ran' in
    let grown : zone'.free_pages ≡ suc zone.free_pages =
      counter ∙ add_word-exact zone.free_pages 1 small ∙ omega arith in
    let parts =
      sum_below-add zone.num_pages (free_at_page zone') (free_at_page zone)
        (in_block (2 ^ 0) (k * 2 ^ 0)) freed in
    let whole = sum_below-whole zone.num_pages (2 ^ 0) (k * 2 ^ 0) (omega (arith, within)) in
    let same = ap (λ n. sum_below n (free_at_page zone')) pages' in
    (
      zone',
      ran',
      (sound', omega (arith, grown, count, parts, whole, same)),
      grown,
      first',
      pages',
      λ p.
          zone_has-Taken zone' zone page p (sym first') (
            k,
            sym at ∙ ap (λ f. f + k * 2 ^ 0) (sym first'),
            omega (arith, within, pages'),
            freed,
          ),
    )

contains_true :
    (zone : Zone) (page : ℕ)
    → zone.first_page + zone.num_pages < word_mod
    → zone.first_page ≤ page
    → page < zone.first_page + zone.num_pages
    → contains_page zone page ≡ true
unfolding contains_page
contains_true zone page fits low high =
    let exact = add_word-exact zone.first_page zone.num_pages fits in
    rw
      (
        exact,
        leb_of_le zone.first_page page low,
        ltb_of_lt page (zone.first_page + zone.num_pages) high,
      )
      refl

contains_false :
    (zone : Zone) (page : ℕ)
    → zone.first_page + zone.num_pages < word_mod
    → zone.first_page + zone.num_pages ≤ page
    → contains_page zone page ≡ false
unfolding contains_page
contains_false zone page fits high =
    let exact = add_word-exact zone.first_page zone.num_pages fits in
    rw
      (
        exact,
        leb_of_le zone.first_page page (omega arith),
        ltb_of_ge page (zone.first_page + zone.num_pages) high,
      )
      refl

in_zone :
    (zone : Zone) (zones : List Zone) (page : ℕ) (zone' : Zone)
    → contains_page zone page ≡ true
    → free_block zone page 1 ≡ ok zone'
    → free_in (zone ∷ zones) page ≡ ok (zone' ∷ zones)
unfolding free_in
in_zone zone zones page zone' e ran = rw (e, ran) refl

past_zone :
    (zone : Zone) (zones : List Zone) (page : ℕ) (zones' : List Zone)
    → contains_page zone page ≡ false
    → free_in zones page ≡ ok zones'
    → free_in (zone ∷ zones) page ≡ ok (zone ∷ zones')
unfolding free_in
past_zone zone zones page zones' e ran = rw (e, ran) refl

-- The page is found in the zone that has it.
free_in-answer :
    (zones : List Zone) (start n page : ℕ)
    → All IsCounted zones
    → start + n < word_mod
    → zones_free zones + 1 < word_mod
    → Tiles start n zones
    → start ≤ page
    → page < start + n
    → has_page zones page ≡ 0
    → (zones' : List Zone) × (free_in zones page ≡ ok zones')
      × All IsCounted zones'
      × Tiles start n zones'
      × (zones_free zones' ≡ suc (zones_free zones))
      × ((p : ℕ) → has_page zones' p ≡ has_page zones p + (if p == page then 1 else 0))
unfolding free_in zones_free has_page Tiles contains_page
free_in-answer [] start n page counted fits small tiles low high used =
    absurd (omega (arith, tiles, low, high))
free_in-answer (zone ∷ zones) start n page (here, counted) fits small (first, le, tiles) low high
      used =
    elim (dec_lt page (start + zone.num_pages)) [
      | yes lt ↦
          let (zone', ran, counted', more, first', pages', moved) =
            zone_release zone page here (omega arith) (omega arith) (omega arith)
              (omega (arith, used)) in
          (
            zone' ∷ zones,
            in_zone zone zones page zone'
                (contains_true zone page (omega arith) (omega arith) (omega arith)) ran,
            (counted', counted),
            (
              first' ∙ first,
              omega (arith, pages', le),
              subst (λ m. Tiles (start + m) (n - m) zones) (sym pages') tiles,
            ),
            omega (arith, more),
            λ p. omega (arith, moved p),
          )
      | no nlt ↦
          let (zones', ran, counted', tiles', more, moved) =
            free_in-answer zones (start + zone.num_pages) (n - zone.num_pages) page counted
              (omega arith) (omega arith) tiles (omega arith) (omega arith) (omega (arith, used)) in
          (
            zone ∷ zones',
            past_zone zone zones page zones' (contains_false zone page (omega arith) (omega arith))
                ran,
            (here, counted'),
            (first, le, tiles'),
            omega (arith, more),
            λ p. omega (arith, moved p),
          )
    ]

contains_range :
    (region : Region) (page : ℕ)
    → region.start_page + region.num_pages < word_mod
    → region.start_page ≤ page
    → page < region.start_page + region.num_pages
    → region_contains region page ≡ true
unfolding region_contains
contains_range region page fits low high =
    let exact = add_word-exact region.start_page region.num_pages fits in
    rw
      (
        exact,
        leb_of_le region.start_page page low,
        ltb_of_lt page (region.start_page + region.num_pages) high,
      )
      refl

-- A page of a region in use that is not free is always taken back, and is then free.
pub free_page-answer :
    (region : Region) (page : ℕ)
    → IsReady region
    → region.free_pages + 1 < word_mod
    → region.start_page ≤ page
    → page < region.start_page + region.num_pages
    → has_page region.zones page ≡ 0
    → (region' : Region) × (free_page region page ≡ ok region')
      × IsReady region'
      × (region'.free_pages ≡ suc region.free_pages)
      × ((p : ℕ)
          → has_page region'.zones p ≡ has_page region.zones p + (if p == page then 1 else 0))
unfolding free_page IsReady
free_page-answer region page (open', total, small, fits, tiles, counted) room low high used =
    let (zones', ran, counted', tiles', more, moved) =
      free_in-answer region.zones region.start_page region.num_pages page counted fits
        (omega (arith, total)) tiles low high used in
    let up : add_word region.free_pages 1 ≡ suc region.free_pages =
      add_word-exact region.free_pages 1 room ∙ omega arith in
    let within : region_contains region page ≡ true = contains_range region page fits low high in
    (
      record region { free_pages = add_word region.free_pages 1; zones = zones' },
      rw (within, ran, open') refl,
      (open', omega (arith, up, total, more), omega (arith, up, room), fits, tiles', counted'),
      up,
      moved,
    )
