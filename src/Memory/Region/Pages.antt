-- ===== src/Memory/Region/Pages.antt =====
-- `alloc_page` of kernel/memory/PhysicalRegion.cpp: a single page is there as long as one is free.
use nusa_os.Common.{
  ◌≢◌, fail_if, ◌>>◌, >>=-eq-ok, eq_of_ok, ==_refl, leb_of_le, leb_of_gt, dec_lt, subst, ==_ne, ℕ,
  suc, ◌+◌, ◌-◌, ◌*◌, ◌^◌, ◌<◌, ◌≤◌, ◌≡◌, refl, sym, ap, ◌∙◌, true, false, List, [], ◌∷◌, ◌==◌,
  if◌then◌else◌, arith, All, ℕ_discrete, ok, err, enomem, sub_word, sub_word-exact, word_mod,
}
use nusa_os.Memory.Buddy.{Zone, order_for, alloc_block}
use nusa_os.Memory.Buddy.Rank.{order_for-pow}
use nusa_os.Memory.Buddy.Blocks.{in_block}
use nusa_os.Memory.Buddy.Alloc.{has_free, Answers}
use nusa_os.Memory.Buddy.Totals.{free_at_page, Taken, alloc_block-Taken, alloc_block-answer}
use nusa_os.Memory.Buddy.Count.{alloc_block-shape, alloc_block-count}
use nusa_os.Memory.Region.Fill.{Tiles}
use nusa_os.Memory.Region.Counted.{
  IsCounted, zones_free, zone_has, has_page, IsReady, counted_has_free,
}
use nusa_os.Memory.Region.{Region, pick_zone, first_zone, alloc_page}

-- One page of one zone has been taken.
unfoldable pub PageTaken : List Zone → ℕ × List Zone → Type 0
PageTaken zones (page, zones') =
    All IsCounted zones'
    × ((start n : ℕ) → Tiles start n zones → Tiles start n zones')
    × (zones_free zones ≡ suc (zones_free zones'))
    × ((p : ℕ) → has_page zones p ≡ has_page zones' p + (if p == page then 1 else 0))

pub one_page :
    (k first p : ℕ) → first ≤ p → in_block 1 k (p - first) ≡ (if p == first + k then 1 else 0)
unfolding in_block
one_page k first p le = ground arith

pub zone_has-Taken :
    (zone zone' : Zone) (page p : ℕ)
    → zone'.first_page ≡ zone.first_page
    → Taken zone 0 page zone'
    → zone_has zone p ≡ zone_has zone' p + (if p == page then 1 else 0)
unfolding zone_has Taken free_at_page
zone_has-Taken zone zone' page p first (k, at, room, taken) =
    let first_at : (k : ℕ) → k * 2 ^ 0 ≡ k = λ k. omega arith in
    let at' : page ≡ zone.first_page + k = at ∙ ap (λ j. zone.first_page + j) (first_at k) in
    elim (dec_lt p zone.first_page) [
      | yes lt ↦
          rw
            (
              first,
              ==_ne p page (λ e. absurd (omega (arith, e, at', lt))),
              leb_of_gt zone.first_page p lt,
            )
            (omega arith)
      | no nlt ↦
          let one : in_block (2 ^ 0) (k * 2 ^ 0) (p - zone.first_page)
              ≡ (if p == page then 1 else 0) =
            ap (λ b. in_block 1 b (p - zone.first_page)) (first_at k)
            ∙ one_page k zone.first_page p (omega arith)
            ∙ ap (λ x. if p == x then 1 else 0) (sym at') in
          rw (first, leb_of_le zone.first_page p (omega arith))
            (taken (p - zone.first_page)
              ∙ ap (λ x. free_at_page zone' (p - zone.first_page) + x) one)
    ]

first_zone-PageTaken :
    (zones : List Zone)
    → All IsCounted zones
    → zones_free zones < word_mod
    → 0 < zones_free zones
    → (got : ℕ × List Zone) × (first_zone zones 1 ≡ ok got) × PageTaken zones got
unfolding Tiles first_zone pick_zone zones_free PageTaken has_page IsCounted Answers
first_zone-PageTaken [] counted small pos = absurd (omega arith)
first_zone-PageTaken (zone ∷ zones) ((sound, count), counted) small pos =
    elim (ℕ_discrete zone.free_pages 0) [
      | yes e ↦
          let none = (alloc_block-answer zone 1 sound).0 (omega (arith, e)) in
          let (got, ran, (counted', tiled, less, moved)) =
            first_zone-PageTaken zones counted (omega arith) (omega arith) in
          (
            (got.0, zone ∷ got.1),
            rw (none, ran) refl,
            (
              ((sound, count), counted'),
              λ s n t. (t.0, t.1, tiled _ _ t.2),
              omega (arith, less),
              λ p. omega (arith, moved p),
            ),
          )
      | no ne ↦
          let order : order_for 1 ≡ 0 = order_for-pow 0 (omega arith) in
          let filled : has_free (order_for 1) zone.orders ≡ true =
            ap (λ o. has_free o zone.orders) order ∙ counted_has_free zone (omega arith) in
          let (got, ran) =
            subst (λ b. Answers b (alloc_block zone 1)) filled
              ((alloc_block-answer zone 1 sound).1 (omega arith)) in
          let (sound', taken) = alloc_block-Taken zone got.1 1 got.0 sound ran in
          let (enough, first, pages, left) = alloc_block-shape zone got.1 1 got.0 ran in
          let (total, counter) = alloc_block-count zone got.1 1 got.0 sound (omega arith) ran in
          let one : 2 ^ order_for 1 ≡ 1 = ap (λ o. 2 ^ o) order in
          let moved = subst (λ o. Taken zone o got.0 got.1) order taken in
          (
            (got.0, got.1 ∷ zones),
            rw (ran) refl,
            (
              ((sound', omega (arith, total, counter, one, count)), counted),
              λ s n t. (
                first ∙ t.0,
                omega (arith, pages, t.1),
                subst (λ m. Tiles (s + m) (n - m) zones) (sym pages) t.2,
              ),
              omega (arith, counter),
              λ p. omega (arith, zone_has-Taken zone got.1 got.0 p first moved),
            ),
          )
    ]

-- The same with what it says of the lists afterwards.
pub alloc_page-IsReady :
    (region : Region)
    → IsReady region
    → (region.free_pages ≡ 0 → alloc_page region ≡ err enomem)
      × (0 < region.free_pages
          → (page : ℕ) × (region' : Region) × (alloc_page region ≡ ok (page, region'))
            × IsReady region'
            × ((p : ℕ)
                → has_page region.zones p
                  ≡ has_page region'.zones p + (if p == page then 1 else 0)))
unfolding alloc_page IsReady PageTaken
alloc_page-IsReady region (open', total, small, fits, tiles, counted) = (
  λ e. rw (open', e) refl,
  λ pos.
      let (got, ran, (counted', tiled, less, moved)) =
        first_zone-PageTaken region.zones counted (omega arith) (omega arith) in
      let left : sub_word region.free_pages 1 ≡ region.free_pages - 1 =
        sub_word-exact region.free_pages 1 small pos in
      let some_free : (region.free_pages == 0) ≡ false =
        ==_ne region.free_pages 0 (λ e. absurd (omega (arith, e, pos))) in
      (
        got.0,
        record region { free_pages = sub_word region.free_pages 1; zones = got.1 },
        rw (open', some_free, ran) refl,
        (
          open',
          omega (arith, left, total, less, pos),
          omega (arith, left, small),
          fits,
          tiled _ _ tiles,
          counted',
        ),
        moved,
      ),
)

alloc_page-counts :
    (region region' : Region) (page : ℕ)
    → region.free_pages < word_mod
    → 0 < region.free_pages
    → alloc_page region ≡ ok (page, region')
    → suc region'.free_pages ≡ region.free_pages
unfolding alloc_page
alloc_page-counts region region' page small pos done =
    let (u, guards, later) =
      >>=-eq-ok (fail_if region.reserved enomem >> fail_if (region.free_pages == 0) enomem) _
        done in
    let (got, taken, same) = >>=-eq-ok (first_zone region.zones 1) _ later in
    subst (λ (r : ℕ × Region). suc r.1.free_pages ≡ region.free_pages) (eq_of_ok same)
      (omega (arith, sub_word-exact region.free_pages 1 small pos))

-- In a region whose counters are right, `alloc_page` fails exactly without free pages, with ENOMEM.
-- Otherwise it gives a page that was free, which is then the only one that is no longer on the free
-- lists, and the count of free pages falls by 1.
pub alloc_page-answer :
    (region : Region)
    → IsReady region
    → (region.free_pages ≡ 0 → alloc_page region ≡ err enomem)
      × (0 < region.free_pages
          → (page : ℕ) × (region' : Region) × (alloc_page region ≡ ok (page, region'))
            × (suc region'.free_pages ≡ region.free_pages)
            × (has_page region.zones page ≡ suc (has_page region'.zones page))
            × ((p : ℕ) → p ≢ page → has_page region.zones p ≡ has_page region'.zones p))
unfolding IsReady
alloc_page-answer region ready =
    let small : region.free_pages < word_mod = ready.2 in
    (
      (alloc_page-IsReady region ready).0,
      λ pos.
          let (page, region', ran, ready', moved) = (alloc_page-IsReady region ready).1 pos in
          (
            page,
            region',
            ran,
            alloc_page-counts region region' page small pos ran,
            moved page ∙ rw (==_refl page) (omega arith),
            λ p ne. moved p ∙ rw (==_ne p page ne) (omega arith),
          ),
    )
