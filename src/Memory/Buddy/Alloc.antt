-- ===== src/Memory/Buddy/Alloc.antt =====
-- `alloc_block_internal` of kernel/memory/BuddyZone.cpp keeps the buddy bits in step with the free
-- lists, and takes exactly the pages of the block it returns.
use nusa_os.Common.{
  panic, ◌||◌, eq_of_ok, assert-ok, assert-passes, assert, subst, ℕ, zero, suc, ◌+◌, ◌*◌, ◌/◌, ◌<◌,
  ◌≡◌, refl, sym, ap, ◌∙◌, Bool, true, false, List, [], ◌∷◌, if◌then◌else◌, arith, All, ok, ◌>>=◌,
  >>=-eq-ok, Result,
}
use nusa_os.Kstd.Bitmap.{Bitmap, get_bit, set_bit}
use nusa_os.Kstd.Bitmap.Laws.{Fits}
use nusa_os.Memory.Buddy.{Order, bit_index, split, take_first, give_block, alloc_from, alloc_at}
use nusa_os.Memory.Buddy.Blocks.{
  in_block, covers, blocks, in_block-halves, bit_index-at, count-head,
}
use nusa_os.Memory.Buddy.Sound.{
  pair_count, pair_count-nil, pair_count-same, pair_count-other, Paired, Bucket, Sound, frees,
  Given, raised, lowered, changed-Bucket, listed-bit,
}

give_block-frees :
    (size : ℕ) (bucket : Order) (above : List Order) (higher : Result (ℕ × List Order))
    (freelist : List ℕ) (given : ℕ × List Order) (page : ℕ)
    → ((got : ℕ × List Order)
        → higher ≡ ok got
        → frees (size + size) above page
          ≡ frees (size + size) got.1 page + in_block (size + size) got.0 page)
    → give_block size bucket above higher freelist ≡ ok given
    → covers size freelist page + frees (size + size) above page
      ≡ frees size given.1 page + in_block size given.0 page
unfolding give_block take_first split frees covers
give_block-frees size bucket above higher [] given page from done =
    let (got, ran, same) = >>=-eq-ok higher (λ got. ok (split size bucket got)) done in
    subst
      (λ (r : ℕ × List Order).
        0 + frees (size + size) above page ≡ frees size r.1 page + in_block size r.0 page)
      (eq_of_ok same) (omega (arith, from got ran, in_block-halves size got.0 page))
give_block-frees size bucket above higher (b ∷ bs) given page from done =
    let (checked, ran, same) =
      >>=-eq-ok (assert (get_bit bucket.block_map (bit_index size b))) _ done in
    subst
      (λ (r : ℕ × List Order).
        in_block size b page + covers size bs page + frees (size + size) above page
        ≡ frees size r.1 page + in_block size r.0 page)
      (eq_of_ok same) (omega arith)

pub alloc_from-frees :
    (size : ℕ) (orders : List Order) (block : ℕ) (orders' : List Order) (page : ℕ)
    → alloc_from size orders ≡ ok (block, orders')
    → frees size orders page ≡ frees size orders' page + in_block size block page
unfolding frees alloc_from
alloc_from-frees size [] block orders' page done = cc
alloc_from-frees size (bucket ∷ above) block orders' page done =
    give_block-frees size bucket above (alloc_from (size + size) above) bucket.freelist
      (block, orders') page (λ got ran. alloc_from-frees (size + size) above got.0 got.1 page ran)
      done

pub alloc_at-frees :
    (order size : ℕ) (orders : List Order) (block : ℕ) (orders' : List Order) (page : ℕ)
    → alloc_at order size orders ≡ ok (block, orders')
    → frees size orders page ≡ frees size orders' page + in_block (raised order size) block page
unfolding frees alloc_at raised
alloc_at-frees zero size orders block orders' page done =
    alloc_from-frees size orders block orders' page done
alloc_at-frees (suc order) size [] block orders' page done = cc
alloc_at-frees (suc order) size (bucket ∷ above) block orders' page done =
    let (got, ran, same) = >>=-eq-ok (alloc_at order (size + size) above) _ done in
    let rest = alloc_at-frees order (size + size) above got.0 got.1 page ran in
    subst
      (λ (r : ℕ × List Order).
        covers size bucket.freelist page + frees (size + size) above page
        ≡ frees size r.1 page + in_block (raised order (size + size)) r.0 page)
      (eq_of_ok same) (omega (arith, rest))

-- The half that a split leaves free.
split-Bucket :
    (size n : ℕ) (bits : Bitmap) (j block : ℕ)
    → 0 < size
    → j < n / 2
    → block ≡ j * (size + size)
    → Fits bits ((n + 1) / 2)
    → Paired bits n []
    → Bucket size n (record {
      block_map = set_bit bits (bit_index size block) true;
      freelist = (block + size) ∷ [];
    })
split-Bucket size n bits j block pos lt at fits paired =
    let even : block ≡ (j + j) * size = omega arith in
    changed-Bucket size n bits (bit_index size block) (suc (j + j)) true ((block + size) ∷ []) []
      (suc (j + j) ∷ []) (bit_index-at size block (j + j) pos even ∙ omega arith) (omega arith)
      (ap (λ b. b ∷ []) (omega arith)) (omega arith, tt) fits paired
      (pair_count-same (suc (j + j)) [] ∙ ap suc (pair_count-nil (suc (j + j) / 2)))
      (pair_count-other (suc (j + j)) [])

-- The order from whose list the first block is taken.
rest-Bucket :
    (size n : ℕ) (bits : Bitmap) (block k : ℕ) (freelist numbers : List ℕ)
    → 0 < size
    → block ≡ k * size
    → freelist ≡ blocks size numbers
    → All (λ k. k < n) (k ∷ numbers)
    → Fits bits ((n + 1) / 2)
    → Paired bits n (k ∷ numbers)
    → get_bit bits (bit_index size block) ≡ true
    → Bucket size n
        (record { block_map = set_bit bits (bit_index size block) false; freelist = freelist })
unfolding Paired
rest-Bucket size n bits block k freelist numbers pos at list below fits paired set =
    let index = bit_index-at size block k pos at in
    let one : pair_count (k ∷ numbers) (k / 2) ≡ 1 =
      paired (k / 2) (omega (arith, below.0))
      ∙ ap (λ b. if b then 1 else 0) (ap (get_bit bits) (sym index) ∙ set) in
    changed-Bucket size n bits (bit_index size block) k false freelist (k ∷ numbers) numbers
      (bit_index-at size block k pos at) below.0 list below.1 fits paired
      (omega (arith, pair_count-same k numbers, one))
      (λ i ne. sym (pair_count-other k numbers i ne))

give_block-Sound :
    (size n : ℕ) (bucket : Order) (above : List Order) (higher : Result (ℕ × List Order))
    (freelist : List ℕ) (given : ℕ × List Order) (numbers : List ℕ)
    → 0 < size
    → freelist ≡ blocks size numbers
    → All (λ k. k < n) numbers
    → Paired bucket.block_map n numbers
    → Fits bucket.block_map ((n + 1) / 2)
    → Sound (size + size) (n / 2) above
    → ((got : ℕ × List Order) → higher ≡ ok got → Given (size + size) (n / 2) got)
    → give_block size bucket above higher freelist ≡ ok given
    → Given size n given
unfolding give_block take_first split Sound Given Bucket
give_block-Sound size n bucket above higher [] given [] pos list below paired fits rest from done =
    let (got, ran, same) = >>=-eq-ok higher (λ got. ok (split size bucket got)) done in
    let (sound, (k, lt, at)) = from got ran in
    subst (Given size n) (eq_of_ok same) (
      (split-Bucket size n bucket.block_map k got.0 pos lt at fits paired, sound),
      (k + k, omega arith, omega arith),
    )
give_block-Sound size n bucket above higher [] given (k ∷ ks) pos list below paired fits rest from
      done =
    cc
give_block-Sound size n bucket above higher (b ∷ bs) given [] pos list below paired fits rest from
      done =
    cc
give_block-Sound size n bucket above higher (b ∷ bs) given (k ∷ ks) pos list below paired fits rest
      from done =
    let (checked, ran, same) =
      >>=-eq-ok (assert (get_bit bucket.block_map (bit_index size b))) _ done in
    let at : b ≡ k * size = cc in
    let list' : bs ≡ blocks size ks = cc in
    subst (Given size n) (eq_of_ok same) (
      (
        rest-Bucket size n bucket.block_map b k bs ks pos at list' below fits paired
            (assert-ok _ ran),
        rest,
      ),
      (k, below.0, at),
    )

-- A block that is returned is one of the n of its size.
pub alloc_from-Sound :
    (size n : ℕ) (orders : List Order) (given : ℕ × List Order)
    → 0 < size
    → Sound size n orders
    → alloc_from size orders ≡ ok given
    → Given size n given
unfolding Sound alloc_from Bucket
alloc_from-Sound size n [] given pos sound done = cc
alloc_from-Sound size n (bucket ∷ above) given pos ((numbers, list, below, paired, fits), rest)
      done =
    give_block-Sound size n bucket above (alloc_from (size + size) above) bucket.freelist given
      numbers pos list below paired fits rest
      (λ got ran. alloc_from-Sound (size + size) (n / 2) above got (omega arith) rest ran) done

pub alloc_at-Sound :
    (order size n : ℕ) (orders : List Order) (given : ℕ × List Order)
    → 0 < size
    → Sound size n orders
    → alloc_at order size orders ≡ ok given
    → Sound size n given.1 × ((k : ℕ) × (k < lowered order n) × (given.0 ≡ k * raised order size))
unfolding alloc_at raised lowered Sound Given
alloc_at-Sound zero size n orders given pos sound done =
    alloc_from-Sound size n orders given pos sound done
alloc_at-Sound (suc order) size n [] given pos sound done = cc
alloc_at-Sound (suc order) size n (bucket ∷ above) given pos (here, sound) done =
    let (got, ran, same) = >>=-eq-ok (alloc_at order (size + size) above) _ done in
    let (sound', place) =
      alloc_at-Sound order (size + size) (n / 2) above got (omega arith) sound ran in
    subst
      (λ (r : ℕ × List Order).
        Sound size n r.1
        × ((k : ℕ) × (k < lowered order (n / 2)) × (r.0 ≡ k * raised order (size + size))))
      (eq_of_ok same) ((here, sound'), place)

abbrev pub is_filled : List ℕ → Bool
is_filled [] = false
is_filled (x ∷ xs) = true

-- Whether some order, from one on, has a free block.
unfoldable pub has_free : ℕ → List Order → Bool
has_free order [] = false
has_free zero (bucket ∷ above) = is_filled bucket.freelist || has_free zero above
has_free (suc order) (bucket ∷ above) = has_free order above

-- A result is there, or the kernel has stopped at a failed ASSERT.
unfoldable pub Answers {ℓ} : {A : Type ℓ} → Bool → Result A → Type ℓ
Answers {A = A} true r = (a : A) × (r ≡ ok a)
Answers false r = r ≡ panic

pub Answers-map {ℓ κ} :
    {A : Type ℓ} {B : Type κ} (free : Bool) (r : Result A) (f : A → B)
    → Answers free r
    → Answers free (r >>= λ a. ok (f a))
unfolding Answers
Answers-map true r f (a, e) = (f a, rw (e) refl)
Answers-map false r f e = rw (e) refl

give_block-answer :
    (size n : ℕ) (bucket : Order) (above : List Order) (higher : Result (ℕ × List Order))
    (freelist numbers : List ℕ) (free : Bool)
    → 0 < size
    → freelist ≡ blocks size numbers
    → All (λ k. k < n) numbers
    → Paired bucket.block_map n numbers
    → Answers free higher
    → Answers (is_filled freelist || free) (give_block size bucket above higher freelist)
unfolding give_block take_first Answers
give_block-answer size n bucket above higher [] numbers true pos list below paired (got, e) =
    (split size bucket got, rw (e) refl)
give_block-answer size n bucket above higher [] numbers false pos list below paired e = rw (e) refl
give_block-answer size n bucket above higher (b ∷ bs) [] free pos list below paired e = cc
give_block-answer size n bucket above higher (b ∷ bs) (k ∷ ks) free pos list below paired e =
    let at : b ≡ k * size = cc in
    let set =
      ap (get_bit bucket.block_map) (bit_index-at size b k pos at)
      ∙ listed-bit bucket.block_map n k (k ∷ ks) paired below.0 (count-head k ks) in
    (_, assert-passes _ _ set)

pub alloc_from-answer :
    (size n : ℕ) (orders : List Order)
    → 0 < size
    → Sound size n orders
    → Answers (has_free zero orders) (alloc_from size orders)
unfolding Sound alloc_from Bucket has_free Answers
alloc_from-answer size n [] pos sound = refl
alloc_from-answer size n (bucket ∷ above) pos ((numbers, list, below, paired, fits), sound) =
    give_block-answer size n bucket above (alloc_from (size + size) above) bucket.freelist numbers
      (has_free zero above) pos list below paired
      (alloc_from-answer (size + size) (n / 2) above (omega arith) sound)

pub alloc_at-answer :
    (order size n : ℕ) (orders : List Order)
    → 0 < size
    → Sound size n orders
    → Answers (has_free order orders) (alloc_at order size orders)
unfolding Sound alloc_at has_free Answers
alloc_at-answer zero size n orders pos sound = alloc_from-answer size n orders pos sound
alloc_at-answer (suc order) size n [] pos sound = refl
alloc_at-answer (suc order) size n (bucket ∷ above) pos (here, sound) =
    Answers-map _ _ _ (alloc_at-answer order (size + size) (n / 2) above (omega arith) sound)
