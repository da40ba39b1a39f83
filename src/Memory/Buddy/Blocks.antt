-- ===== src/Memory/Buddy/Blocks.antt =====
-- Free lists of kernel/memory/BuddyZone.cpp: blocks as multiples of their size, the pages that they
-- cover, and the removal of one.
use nusa_os.Common.{
  ◌⊎◌, subst, ==_refl, ==_ne, Bool-cases, ℕ, suc, ◌+◌, ◌*◌, ◌/◌, ◌<◌, ◌≤◌, ◌≡◌, ◌≢◌, refl, sym, ap,
  ◌∙◌, List, [], ◌∷◌, map, ltb, leb, ◌==◌, ◌&&◌, if◌then◌else◌, arith, All, ℕ_discrete, inl, inr,
}
use native.Mathlib.Nat.{mul-div_cancel, eq_of_mul-eq-mul_right}
use nusa_os.Memory.Buddy.{bit_index, buddy_of, remove}

-- 1 for the pages of the block, and 0 for the others.
unfoldable pub in_block : ℕ → ℕ → ℕ → ℕ
in_block size block page = if leb block page && ltb page (block + size) then 1 else 0

-- How many blocks of the list have the page.
unfoldable pub covers : ℕ → List ℕ → ℕ → ℕ
covers size [] page = 0
covers size (b ∷ bs) page = in_block size b page + covers size bs page

-- How often the number occurs.
unfoldable pub count : ℕ → List ℕ → ℕ
count k [] = 0
count k (j ∷ js) = (if j == k then 1 else 0) + count k js

pub count-head : (k : ℕ) (numbers : List ℕ) → 0 < count k (k ∷ numbers)
unfolding count
count-head k numbers = ground arith

-- The blocks with these numbers.
abbrev pub blocks : ℕ → List ℕ → List ℕ
blocks size numbers = map (λ k. k * size) numbers

pub in_block-halves :
    (size block page : ℕ)
    → in_block (size + size) block page
      ≡ in_block size block page + in_block size (block + size) page
unfolding in_block
in_block-halves size block page = ground arith

pub in_block-first : (size block : ℕ) → 0 < size → in_block size block block ≡ 1
unfolding in_block
in_block-first size block pos = ground arith

pub bit_index-block : (size k : ℕ) → 0 < size → bit_index size (k * size) ≡ k / 2
unfolding bit_index
bit_index-block size k pos = ap (λ x. x / 2) (mul-div_cancel k pos)

pub bit_index-at : (size block k : ℕ) → 0 < size → block ≡ k * size → bit_index size block ≡ k / 2
bit_index-at size block k pos at = ap (bit_index size) at ∙ bit_index-block size k pos

pub same_block : (size j k : ℕ) → 0 < size → (j * size == k * size) ≡ (j == k)
same_block size j k pos = elim (ℕ_discrete j k) [
  | yes e ↦ rw (e, ==_refl (k * size), ==_refl k) refl
  | no ne ↦
      let apart : (j * size) ≢ (k * size) = λ e. ne (eq_of_mul-eq-mul_right size pos j k e) in
      ==_ne (j * size) (k * size) apart ∙ sym (==_ne j k ne)
]

-- The number of the buddy.
abbrev pub buddy : ℕ → ℕ
buddy k = if k == k / 2 + k / 2 then suc k else k / 2 + k / 2

pub buddy-cases :
    (k : ℕ)
    → ((k ≡ k / 2 + k / 2) × (buddy k ≡ suc (k / 2 + k / 2)))
      ⊎ ((k ≡ suc (k / 2 + k / 2)) × (buddy k ≡ k / 2 + k / 2))
buddy-cases k = ground arith

halves_of :
    (size h a b page : ℕ)
    → a ≡ h + h
    → b ≡ suc (h + h)
    → in_block (size + size) (h * (size + size)) page
      ≡ in_block size (a * size) page + in_block size (b * size) page
halves_of size h a b page ea eb =
    let first : h * (size + size) ≡ (h + h) * size = omega arith in
    let second : suc (h + h) * size ≡ (h + h) * size + size = omega arith in
    in_block-halves size (h * (size + size)) page ∙ rw (ea, eb, first, second) refl

-- The pages of a merged block are those of the two buddies.
pub in_block-merged :
    (size k page : ℕ)
    → in_block (size + size) (k / 2 * (size + size)) page
      ≡ in_block size (k * size) page + in_block size (buddy k * size) page
in_block-merged size k page = elim (buddy-cases k) [
  | inl (even, odd) ↦ halves_of size (k / 2) k (buddy k) page even odd
  | inr (odd, even) ↦ omega (arith, halves_of size (k / 2) (buddy k) k page even odd)
]

pub first_block : (size k : ℕ) → k / 2 * 2 * size ≡ k / 2 * (size + size)
first_block size k = omega arith

first_block' : (size k : ℕ) → k / 2 * 2 * size ≡ (k / 2 + k / 2) * size
first_block' size k = omega arith

times_choice :
    (size k d : ℕ)
    → (if k == d then d * size + size else d * size) ≡ (if k == d then suc k else d) * size
times_choice size k d = elim (ℕ_discrete k d) [
  | yes e ↦ rw (e, ==_refl d) (omega arith)
  | no ne ↦ rw (==_ne k d ne) refl
]

pub buddy_of-block : (size k : ℕ) → 0 < size → buddy_of size (k * size) ≡ buddy k * size
unfolding buddy_of
buddy_of-block size k pos =
    rw (bit_index-block size k pos, first_block' size k, same_block size k (k / 2 + k / 2) pos)
      (times_choice size k (k / 2 + k / 2))

pub remove-blocks :
    (size k : ℕ) (numbers : List ℕ)
    → 0 < size
    → remove (k * size) (blocks size numbers) ≡ blocks size (remove k numbers)
unfolding remove
remove-blocks size k [] pos = refl
remove-blocks size k (j ∷ numbers) pos =
    rw (same_block size j k pos, remove-blocks size k numbers pos)
      (elim (Bool-cases (j == k)) [ inl e ↦ rw (e) refl | inr e ↦ rw (e) refl ])

pub count-remove :
    (k j : ℕ) (numbers : List ℕ)
    → 0 < count j numbers
    → count k numbers ≡ count k (remove j numbers) + (if j == k then 1 else 0)
unfolding remove count
count-remove k j [] h = absurd (omega arith)
count-remove k j (i ∷ numbers) h = ground (arith, count-remove k j numbers)

pub remove-All {ℓ} :
    (P : ℕ → Type ℓ) (j : ℕ) (numbers : List ℕ) → All P numbers → All P (remove j numbers)
unfolding remove
remove-All P j [] h = tt
remove-All P j (i ∷ numbers) h = elim (Bool-cases (i == j)) [
  | inl e ↦ rw (e) h.1
  | inr e ↦ rw (e) (h.0, remove-All P j numbers h.1)
]

pub covers-remove :
    (size j : ℕ) (numbers : List ℕ) (page : ℕ)
    → 0 < count j numbers
    → covers size (blocks size numbers) page
      ≡ covers size (blocks size (remove j numbers)) page + in_block size (j * size) page
unfolding remove count covers
covers-remove size j [] page h = absurd (omega arith)
covers-remove size j (i ∷ numbers) page h = elim (ℕ_discrete i j) [
  | yes e ↦ rw (e, ==_refl j) (omega arith)
  | no ne ↦
      let rest = covers-remove size j numbers page (ground arith) in
      rw (==_ne i j ne) (omega (arith, rest))
]

-- A number that occurs has its first page covered.
pub covers-count :
    (size k : ℕ) (numbers : List ℕ)
    → 0 < size
    → count k numbers ≤ covers size (blocks size numbers) (k * size)
unfolding covers count
covers-count size k [] pos = omega arith
covers-count size k (j ∷ numbers) pos = elim (ℕ_discrete j k) [
  | yes e ↦
      let first = in_block-first size (k * size) pos in
      let rest = covers-count size k numbers pos in rw (e, ==_refl k) (omega (arith, first, rest))
  | no ne ↦ let rest = covers-count size k numbers pos in rw (==_ne j k ne) (omega (arith, rest))
]

pub count-All {ℓ} :
    (P : ℕ → Type ℓ) (k : ℕ) (numbers : List ℕ) → All P numbers → 0 < count k numbers → P k
unfolding count
count-All P k [] h pos = absurd (omega arith)
count-All P k (j ∷ numbers) h pos = elim (ℕ_discrete j k) [
  | yes e ↦ subst P e h.0
  | no ne ↦ count-All P k numbers h.1 (ground arith)
]
