-- ===== src/Memory/Buddy/Count.antt =====
-- `m_free_pages` of kernel/memory/BuddyZone.cpp against the number of the pages that are free, and
-- an allocation followed by its release.
use nusa_os.Common.{
  assert, ◌==◌, eq_of_ok, ltb→ge, fail_if-ok, subst, ℕ, zero, suc, ◌+◌, ◌-◌, ◌*◌, ◌^◌, ◌<◌, ◌≤◌,
  ◌≡◌, refl, ap, ltb, leb, arith, ok, enomem, ◌>>◌, fail_if, >>=-eq-ok, add_word, sub_word,
  sub_word-exact, word_mod, if◌then◌else◌,
}
use nusa_os.Memory.Buddy.{Zone, order_for, alloc_block, free_block, alloc_at, free_at}
use nusa_os.Memory.Buddy.Blocks.{in_block}
use nusa_os.Memory.Buddy.Totals.{free_at_page, IsSound, Taken, alloc_block-Taken}

-- The sum of a function below a bound.
unfoldable pub sum_below : ℕ → (ℕ → ℕ) → ℕ
sum_below zero f = 0
sum_below (suc n) f = f n + sum_below n f

-- The number of the free pages of the zone.
unfoldable pub free_total : Zone → ℕ
free_total zone = sum_below zone.num_pages (free_at_page zone)

pub sum_below-add :
    (n : ℕ) (f g h : ℕ → ℕ)
    → ((p : ℕ) → f p ≡ g p + h p)
    → sum_below n f ≡ sum_below n g + sum_below n h
unfolding sum_below
sum_below-add zero f g h same = omega arith
sum_below-add (suc n) f g h same = omega (arith, same n, sum_below-add n f g h same)

-- The pages of a block below the bound.
pub sum_below-in_block :
    (n size block : ℕ)
    → sum_below n (in_block size block)
      ≡ (if leb n block then 0 else (if leb n (block + size) then n - block else size))
unfolding sum_below in_block
sum_below-in_block zero size block = ground arith
sum_below-in_block (suc n) size block = ground (arith, sum_below-in_block n size block)

pub sum_below-whole :
    (n size block : ℕ) → block + size ≤ n → sum_below n (in_block size block) ≡ size
sum_below-whole n size block le = ground (arith, sum_below-in_block n size block)

-- What a successful call has done to the rest of the zone.
pub alloc_block-shape :
    (zone zone' : Zone) (num_pages page : ℕ)
    → alloc_block zone num_pages ≡ ok (page, zone')
    → (num_pages ≤ zone.free_pages)
      × (zone'.first_page ≡ zone.first_page)
      × (zone'.num_pages ≡ zone.num_pages)
      × (zone'.free_pages ≡ sub_word zone.free_pages num_pages)
unfolding alloc_block
alloc_block-shape zone zone' num_pages page done =
    let (u, guard, run) = >>=-eq-ok (fail_if (ltb zone.free_pages num_pages) enomem) _ done in
    let (got, ran, same) = >>=-eq-ok (alloc_at (order_for num_pages) 1 zone.orders) _ run in
    let enough : num_pages ≤ zone.free_pages =
      ltb→ge zone.free_pages num_pages (fail_if-ok (ltb zone.free_pages num_pages) enomem guard) in
    subst
      (λ (r : ℕ × Zone).
        (num_pages ≤ zone.free_pages)
        × (r.1.first_page ≡ zone.first_page)
        × (r.1.num_pages ≡ zone.num_pages)
        × (r.1.free_pages ≡ sub_word zone.free_pages num_pages))
      (eq_of_ok same) (enough, refl, refl, refl)

-- An allocation takes 2^order pages, where order is that of the request, and counts as many pages
-- as were requested.
pub alloc_block-count :
    (zone zone' : Zone) (num_pages page : ℕ)
    → IsSound zone
    → zone.free_pages < word_mod
    → alloc_block zone num_pages ≡ ok (page, zone')
    → (free_total zone ≡ free_total zone' + 2 ^ order_for num_pages)
      × (zone.free_pages ≡ zone'.free_pages + num_pages)
unfolding free_total Taken
alloc_block-count zone zone' num_pages page sound small done =
    let (enough, first, pages, left) = alloc_block-shape zone zone' num_pages page done in
    let (sound', (k, at, room, taken)) = alloc_block-Taken zone zone' num_pages page sound done in
    let order = order_for num_pages in
    let parts =
      sum_below-add zone.num_pages (free_at_page zone) (free_at_page zone')
        (in_block (2 ^ order) (k * 2 ^ order)) taken in
    let whole = sum_below-whole zone.num_pages (2 ^ order) (k * 2 ^ order) (omega (arith, room)) in
    let same = ap (λ n. sum_below n (free_at_page zone')) pages in
    let exact = sub_word-exact zone.free_pages num_pages small enough in
    (omega (arith, parts, whole, same), omega (arith, exact, left, enough))

-- What `free_block` does to the rest of the zone.
pub free_block-shape :
    (zone zone' : Zone) (start num_pages : ℕ)
    → free_block zone start num_pages ≡ ok zone'
    → (zone'.first_page ≡ zone.first_page) × (zone'.num_pages ≡ zone.num_pages)
unfolding free_block
free_block-shape zone zone' start num_pages done =
    let (u, guards, run) =
      >>=-eq-ok
        (assert (leb zone.first_page start)
          >> assert (leb (add_word start num_pages) (add_word zone.first_page zone.num_pages))
          >> assert (2 ^ order_for num_pages == num_pages))
        _ done in
    let (orders', ran, same) =
      >>=-eq-ok (free_at (order_for num_pages) 1 zone.orders (sub_word start zone.first_page)) _
        run in
    subst (λ (z : Zone). (z.first_page ≡ zone.first_page) × (z.num_pages ≡ zone.num_pages))
      (eq_of_ok same) (refl, refl)
