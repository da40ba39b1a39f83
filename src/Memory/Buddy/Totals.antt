-- ===== src/Memory/Buddy/Totals.antt =====
-- Zones of kernel/memory/BuddyZone.cpp as the rest of the kernel sees them: which pages are free
-- after the constructor, `alloc_block` and `free_block`, and when these fail.
use nusa_os.Common.{
  ltb_of_lt, ltb_of_ge, leb_of_le, eq_of_ok, subst, ==_refl, ℕ, suc, ◌+◌, ◌*◌, ◌^◌, ◌<◌, ◌≤◌, ◌≡◌,
  refl, sym, ap, ◌∙◌, true, ltb, leb, ◌==◌, arith, ok, err, enomem, ◌>>=◌, ◌>>◌, assert, fail_if,
  >>=-eq-ok, add_word, sub_word, add_word-exact, sub_word-exact, word_mod,
}
use native.Mathlib.Nat.{pow-le-pow_right, one-le-pow}
use nusa_os.Memory.Buddy.{
  Zone, max_order, order_for, make_orders, make_zone, alloc_block, free_block, alloc_at, free_at,
}
use nusa_os.Memory.Buddy.Rank.{order_for-pow, exponent_le}
use nusa_os.Memory.Buddy.Blocks.{in_block}
use nusa_os.Memory.Buddy.Sound.{Sound, frees, raised}
use nusa_os.Memory.Buddy.Alloc.{
  alloc_at-frees, alloc_at-Sound, alloc_at-answer, has_free, Answers, Answers-map,
}
use nusa_os.Memory.Buddy.Free.{Unfree, Freed, free_at-Freed}
use nusa_os.Memory.Buddy.Fresh.{make_orders-Sound, lowered-room, lowered-fits, raised-pow}

-- The page is free in the zone, counted relative to its first page.
unfoldable pub free_at_page : Zone → ℕ → ℕ
free_at_page zone page = frees 1 zone.orders page

-- Sound orders, no page free twice, and page numbers that fit the word.
unfoldable pub IsSound : Zone → Type 0
IsSound zone =
    (h : ℕ) × (h ≤ max_order)
    × (zone.num_pages ≡ 2 ^ h)
    × (zone.first_page + zone.num_pages < word_mod)
    × Sound 1 (2 ^ h) zone.orders
    × ((page : ℕ) → free_at_page zone page ≤ 1)

pub in_block-le : (size block page : ℕ) → in_block size block page ≤ 1
unfolding in_block
in_block-le size block page = ground arith

pow_below : (h : ℕ) → h ≤ max_order → 2 ^ h ≤ 1024
pow_below h le = pow-le-pow_right {n = 2} (omega arith) le

-- The constructor, for a power of two up to the largest zone, gives a sound zone in which exactly
-- its own pages are free.
pub make_zone-IsSound :
    (first h : ℕ)
    → h ≤ max_order
    → first + 2 ^ h < word_mod
    → (zone : Zone) × (make_zone first (2 ^ h) ≡ ok zone)
      × IsSound zone
      × ((page : ℕ) → free_at_page zone page ≡ in_block (2 ^ h) 0 page)
unfolding make_zone IsSound free_at_page
make_zone-IsSound first h le fits =
    let order = order_for-pow h (omega arith) in
    let one : 2 ^ h * 1 ≡ 2 ^ h = omega arith in
    let (sound, all) =
      subst
        (λ (n : ℕ).
          Sound 1 (2 ^ h) (make_orders h 1 n)
          × ((page : ℕ) → frees 1 (make_orders h 1 n) page ≡ in_block n 0 page))
        one (make_orders-Sound h 1 (omega arith)) in
    let zone : Zone = record {
      first_page = first;
      num_pages = 2 ^ h;
      free_pages = 2 ^ h;
      orders = make_orders h 1 (2 ^ h);
    } in
    (
      zone,
      rw (order, ==_refl (2 ^ h), leb_of_le h max_order le) refl,
      (h, le, refl, fits, sound, λ page. omega (arith, all page, in_block-le (2 ^ h) 0 page)),
      all,
    )

pub make_zone-shape :
    (first n : ℕ) (zone : Zone)
    → make_zone first n ≡ ok zone
    → (zone.first_page ≡ first)
      × (zone.num_pages ≡ n)
      × (zone.free_pages ≡ n)
      × (zone.orders ≡ make_orders (order_for n) 1 n)
unfolding make_zone
make_zone-shape first n zone done =
    let (u, guards, same) =
      >>=-eq-ok (assert (2 ^ order_for n == n) >> assert (leb (order_for n) max_order)) _ done in
    subst
      (λ (z : Zone).
        (z.first_page ≡ first)
        × (z.num_pages ≡ n)
        × (z.free_pages ≡ n)
        × (z.orders ≡ make_orders (order_for n) 1 n))
      (eq_of_ok same) (refl, refl, refl, refl)

-- A block that was allocated: aligned to its size, within the zone, and its pages were free and no
-- others changed.
unfoldable pub Taken : Zone → ℕ → ℕ → Zone → Type 0
Taken zone order page zone' =
    (k : ℕ) × (page ≡ zone.first_page + k * 2 ^ order)
    × (suc k * 2 ^ order ≤ zone.num_pages)
    × ((p : ℕ)
        → free_at_page zone p ≡ free_at_page zone' p + in_block (2 ^ order) (k * 2 ^ order) p)

-- An allocation keeps the zone sound, and takes one whole block of the order of the request.
pub alloc_block-Taken :
    (zone zone' : Zone) (num_pages page : ℕ)
    → IsSound zone
    → alloc_block zone num_pages ≡ ok (page, zone')
    → IsSound zone' × Taken zone (order_for num_pages) page zone'
unfolding alloc_block IsSound Taken free_at_page
alloc_block-Taken zone zone' num_pages page (h, le, pages, fits, sound, once) done =
    let (u, guard, run) = >>=-eq-ok (fail_if (ltb zone.free_pages num_pages) enomem) _ done in
    let (got, ran, same) = >>=-eq-ok (alloc_at (order_for num_pages) 1 zone.orders) _ run in
    let (sound', (k, lt, at)) =
      alloc_at-Sound (order_for num_pages) 1 (2 ^ h) zone.orders got (omega arith) sound ran in
    let width : raised (order_for num_pages) 1 ≡ 2 ^ order_for num_pages =
      raised-pow (order_for num_pages) 1 ∙ omega arith in
    let at' = at ∙ ap (λ s. k * s) width in
    let room = lowered-fits (order_for num_pages) k (2 ^ h) lt in
    let inside : got.0 < zone.num_pages =
      omega (arith, at', room, pages, one-le-pow (order_for num_pages) 2 (omega arith)) in
    let changed : (p : ℕ)
        → frees 1 zone.orders p
          ≡ frees 1 got.1 p + in_block (2 ^ order_for num_pages) (k * 2 ^ order_for num_pages) p =
      λ p.
        alloc_at-frees (order_for num_pages) 1 zone.orders got.0 got.1 p ran
        ∙ rw (width, at') refl in
    subst (λ (r : ℕ × Zone). IsSound r.1 × Taken zone (order_for num_pages) r.0 r.1) (eq_of_ok same)
      (
        (h, le, pages, fits, sound', λ p. omega (arith, once p, changed p)),
        (
          k,
          add_word-exact zone.first_page got.0 (omega arith) ∙ ap (λ b. zone.first_page + b) at',
          omega (arith, room, pages),
          changed,
        ),
      )

-- A request beyond the free pages is refused; any other is served exactly when an order from its
-- own on has a free block, and stops the kernel when none has.
pub alloc_block-answer :
    (zone : Zone) (num_pages : ℕ)
    → IsSound zone
    → (zone.free_pages < num_pages → alloc_block zone num_pages ≡ err enomem)
      × (num_pages ≤ zone.free_pages
          → Answers (has_free (order_for num_pages) zone.orders) (alloc_block zone num_pages))
unfolding alloc_block IsSound
alloc_block-answer zone num_pages (h, le, pages, fits, sound, once) = (
  λ short. rw (ltb_of_lt zone.free_pages num_pages short) refl,
  λ enough. rw (ltb_of_ge zone.free_pages num_pages enough) (
      Answers-map (has_free (order_for num_pages) zone.orders)
        (alloc_at (order_for num_pages) 1 zone.orders) _
        (alloc_at-answer (order_for num_pages) 1 (2 ^ h) zone.orders (omega arith) sound)),
)

-- A block of the zone passes the three ASSERTs.
free_block_lem :
    (zone : Zone) (order block : ℕ)
    → order ≤ max_order
    → zone.first_page + zone.num_pages < word_mod
    → block + 2 ^ order ≤ zone.num_pages
    → free_block zone (zone.first_page + block) (2 ^ order) ≡ (
        free_at order 1 zone.orders block >>= λ orders'.
        ok (record zone { free_pages = add_word zone.free_pages (2 ^ order); orders = orders' }))
unfolding free_block
free_block_lem zone order block le fits room =
    let start = zone.first_page + block in
    let below : leb zone.first_page start ≡ true = ground arith in
    let end : add_word start (2 ^ order) ≡ start + 2 ^ order =
      add_word-exact start (2 ^ order) (omega arith) in
    let last : add_word zone.first_page zone.num_pages ≡ zone.first_page + zone.num_pages =
      add_word-exact zone.first_page zone.num_pages fits in
    let within : leb (start + 2 ^ order) (zone.first_page + zone.num_pages) ≡ true = ground arith in
    let relative : sub_word start zone.first_page ≡ block =
      sub_word-exact start zone.first_page (omega arith) (omega arith) ∙ omega arith in
    rw (below, end, last, within, order_for-pow order (omega arith), ==_refl (2 ^ order), relative)
      refl

-- A block of the zone none of whose pages is free is always taken back: the zone stays sound, and
-- exactly its pages become free.
pub free_block-frees :
    (zone : Zone) (order k : ℕ)
    → IsSound zone
    → suc k * 2 ^ order ≤ zone.num_pages
    → ((p : ℕ) → free_at_page zone p + in_block (2 ^ order) (k * 2 ^ order) p ≤ 1)
    → (zone' : Zone) × (free_block zone (zone.first_page + k * 2 ^ order) (2 ^ order) ≡ ok zone')
      × IsSound zone'
      × (zone'.free_pages ≡ add_word zone.free_pages (2 ^ order))
      × ((p : ℕ)
          → free_at_page zone' p ≡ free_at_page zone p + in_block (2 ^ order) (k * 2 ^ order) p)
unfolding IsSound free_at_page Freed Unfree
free_block-frees zone order k (h, le, pages, fits, sound, once) room unfree =
    let width : raised order 1 ≡ 2 ^ order = raised-pow order 1 ∙ omega arith in
    let lt = lowered-room order k (2 ^ h) (omega (arith, room, pages)) in
    let at : k * 2 ^ order ≡ k * raised order 1 = ap (λ s. k * s) (sym width) in
    let le' : order ≤ h = exponent_le order h (omega (arith, room, pages)) in
    let (orders', ran, sound', changed) =
      free_at-Freed order 1 (2 ^ h) zone.orders (k * 2 ^ order) k (omega arith) lt at sound
        (λ p. rw (width) (unfree p)) in
    let changed' : (p : ℕ)
        → frees 1 orders' p ≡ frees 1 zone.orders p + in_block (2 ^ order) (k * 2 ^ order) p =
      λ p. changed p ∙ rw (width) refl in
    (
      record zone { free_pages = add_word zone.free_pages (2 ^ order); orders = orders' },
      free_block_lem zone order (k * 2 ^ order) (omega arith) fits (omega (arith, room))
          ∙ rw (ran) refl,
      (h, le, pages, fits, sound', λ p. omega (arith, changed' p, unfree p)),
      refl,
      changed',
    )
