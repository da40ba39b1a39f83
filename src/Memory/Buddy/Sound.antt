-- ===== src/Memory/Buddy/Sound.antt =====
-- The invariant of the orders of kernel/memory/BuddyZone.cpp: the free lists and the buddy bits.
use nusa_os.Common.{
  ◌⊎◌, subst, ==_refl, ==_ne, Bool-cases, ℕ, zero, suc, ◌+◌, ◌*◌, ◌/◌, ◌<◌, ◌≤◌, ◌≡◌, ◌≢◌, ap, ◌∙◌,
  Bool, true, List, [], ◌∷◌, ◌==◌, if◌then◌else◌, arith, All, ℕ_discrete, inl, inr,
}
use nusa_os.Kstd.Bitmap.{Bitmap, get_bit, set_bit}
use nusa_os.Kstd.Bitmap.Laws.{Fits, set_bit-Fits, get-set}
use nusa_os.Memory.Buddy.{Order}
use nusa_os.Memory.Buddy.Blocks.{covers, count, blocks}

-- The free buddies of a pair.
unfoldable pub pair_count : List ℕ → ℕ → ℕ
pair_count numbers i = count (i + i) numbers + count (suc (i + i)) numbers

pub pair_count-cons :
    (k : ℕ) (numbers : List ℕ) (i : ℕ)
    → pair_count (k ∷ numbers) i ≡ (if k / 2 == i then 1 else 0) + pair_count numbers i
unfolding pair_count count
pair_count-cons k numbers i = ground arith

pub pair_count-nil : (i : ℕ) → pair_count [] i ≡ 0
unfolding pair_count count
pair_count-nil i = omega arith

pub pair_count-same :
    (k : ℕ) (numbers : List ℕ) → pair_count (k ∷ numbers) (k / 2) ≡ suc (pair_count numbers (k / 2))
pair_count-same k numbers = rw (pair_count-cons k numbers (k / 2), ==_refl (k / 2)) (omega arith)

pub pair_count-other :
    (k : ℕ) (numbers : List ℕ) (i : ℕ)
    → k / 2 ≢ i
    → pair_count (k ∷ numbers) i ≡ pair_count numbers i
pair_count-other k numbers i ne = rw (pair_count-cons k numbers i, ==_ne (k / 2) i ne) (omega arith)

-- The bit of a pair of buddies is set when one of the two is free.
unfoldable pub Paired : Bitmap → ℕ → List ℕ → Type 0
Paired bits n numbers =
    (i : ℕ) → i + i < n → pair_count numbers i ≡ (if get_bit bits i then 1 else 0)

-- An order of n blocks: the free blocks are among them, and the bits are right.
unfoldable pub Bucket : ℕ → ℕ → Order → Type 0
Bucket size n bucket =
    (numbers : List ℕ) × (bucket.freelist ≡ blocks size numbers)
    × All (λ k. k < n) numbers
    × Paired bucket.block_map n numbers
    × Fits bucket.block_map ((n + 1) / 2)

-- The orders from one with n blocks on, each with half of the blocks of the one before.
unfoldable pub Sound : ℕ → ℕ → List Order → Type 0
Sound size n [] = n ≡ 0
Sound size n (bucket ∷ above) = Bucket size n bucket × Sound (size + size) (n / 2) above

-- How many free blocks have the page.
unfoldable pub frees : ℕ → List Order → ℕ → ℕ
frees size [] page = 0
frees size (bucket ∷ above) page = covers size bucket.freelist page + frees (size + size) above page

-- The orders after an allocation are sound, and the block is one of the n of its size.
unfoldable pub Given : ℕ → ℕ → ℕ × List Order → Type 0
Given size n (block, orders) = Sound size n orders × ((k : ℕ) × (k < n) × (block ≡ k * size))

-- The size and the number of the blocks some orders above.
unfoldable pub raised : ℕ → ℕ → ℕ
raised zero size = size
raised (suc order) size = raised order (size + size)

unfoldable pub lowered : ℕ → ℕ → ℕ
lowered zero n = n
lowered (suc order) n = lowered order (n / 2)

pub lowered-zero : (order n : ℕ) → n ≡ 0 → lowered order (n / 2) ≡ 0
unfolding lowered
lowered-zero zero n e = omega (arith, e)
lowered-zero (suc order) n e = lowered-zero order (n / 2) (omega (arith, e))

pub set_bit-Paired :
    (bits : Bitmap) (n k : ℕ) (value : Bool) (numbers numbers' : List ℕ)
    → Fits bits ((n + 1) / 2)
    → k < n
    → Paired bits n numbers
    → pair_count numbers' (k / 2) ≡ (if value then 1 else 0)
    → ((i : ℕ) → k / 2 ≢ i → pair_count numbers' i ≡ pair_count numbers i)
    → Paired (set_bit bits (k / 2) value) n numbers'
unfolding Paired
set_bit-Paired bits n k value numbers numbers' fits lt paired here others i h =
    let written = get-set bits ((n + 1) / 2) (k / 2) i value fits (omega arith) in
    elim (ℕ_discrete (k / 2) i) [
      | yes e ↦
          rw (written, e, ==_refl i)
            (subst (λ j. pair_count numbers' j ≡ (if value then 1 else 0)) e here)
      | no ne ↦ rw (written, ==_ne (k / 2) i ne) (others i ne ∙ paired i h)
    ]

-- An order is right again after one bit and its list have changed together.
pub changed-Bucket :
    (size n : ℕ) (bits : Bitmap) (index k : ℕ) (value : Bool) (freelist numbers numbers' : List ℕ)
    → index ≡ k / 2
    → k < n
    → freelist ≡ blocks size numbers'
    → All (λ k. k < n) numbers'
    → Fits bits ((n + 1) / 2)
    → Paired bits n numbers
    → pair_count numbers' (k / 2) ≡ (if value then 1 else 0)
    → ((i : ℕ) → k / 2 ≢ i → pair_count numbers' i ≡ pair_count numbers i)
    → Bucket size n (record { block_map = set_bit bits index value; freelist = freelist })
unfolding Bucket
changed-Bucket size n bits index k value freelist numbers numbers' at lt list below fits paired here
      others =
    rw (at) (
      numbers',
      list,
      below,
      set_bit-Paired bits n k value numbers numbers' fits lt paired here others,
      set_bit-Fits bits ((n + 1) / 2) (k / 2) value fits,
    )

halves : (k : ℕ) → (k ≡ k / 2 + k / 2) ⊎ (k ≡ suc (k / 2 + k / 2))
halves k = ground arith

pub count-le-pair : (k : ℕ) (numbers : List ℕ) → count k numbers ≤ pair_count numbers (k / 2)
unfolding pair_count
count-le-pair k numbers = elim (halves k) [
  | inl e ↦ omega (arith, ap (λ j. count j numbers) e)
  | inr e ↦ omega (arith, ap (λ j. count j numbers) e)
]

-- The bit of a free block is not that of a pair with none free.
pub listed-bit :
    (bits : Bitmap) (n k : ℕ) (numbers : List ℕ)
    → Paired bits n numbers
    → k < n
    → 0 < count k numbers
    → get_bit bits (k / 2) ≡ true
unfolding Paired
listed-bit bits n k numbers paired lt pos = elim (Bool-cases (get_bit bits (k / 2))) [
  | inl e ↦ e
  | inr e ↦
      let none = paired (k / 2) (omega arith) ∙ ap (λ b. if b then 1 else 0) e in
      absurd (omega (arith, none, count-le-pair k numbers))
]
