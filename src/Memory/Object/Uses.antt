-- ===== src/Memory/Object/Uses.antt =====
-- The references of the objects of kernel/memory/VMObject.cpp to physical pages.
use nusa_os.Common.{
  ℕ, zero, suc, ◌+◌, ◌-◌, ◌<◌, ◌≡◌, ◌≢◌, refl, sym, ap, ◌∙◌, true, false, List, [], ◌∷◌, ◌==◌,
  if◌then◌else◌, get_or, set, length, Result, ok, arith, ℕ_discrete, ==_refl, ==_ne,
}
use nusa_os.Memory.Buddy.Blocks.{count}
use nusa_os.Memory.Object.{Phys, VmObject, put, unref, free_physical_page}

-- How often the objects have the page.
unfoldable pub uses : List VmObject → ℕ → ℕ
uses [] p = 0
uses (object ∷ objects) p = count p object.physical_pages + uses objects p

-- The count of each page is the number of its uses.
unfoldable pub IsCounted : Phys → List VmObject → Type 0
IsCounted m objects = (p : ℕ) → p ≢ 0 → m.ref_count p ≡ uses objects p

-- What a program reads at a page of the object.
unfoldable pub view : Phys → VmObject → ℕ → List ℕ
view m object i = m.bytes (get_or object.physical_pages i 0)

-- A page that is handed out is in no use.
unfoldable pub IsFresh : (Phys → Result ℕ) → Type 0
IsFresh take = (m : Phys) (p : ℕ) → take m ≡ ok p → (p ≢ 0) × (m.ref_count p ≡ 0)

pub put-same {ℓ} : {A : Type ℓ} (f : ℕ → A) (p : ℕ) (value : A) → put f p value p ≡ value
unfolding put
put-same f p value = rw (==_refl p) refl

pub put-other {ℓ} :
    {A : Type ℓ} (f : ℕ → A) (p : ℕ) (value : A) (q : ℕ) → q ≢ p → put f p value q ≡ f q
unfolding put
put-other f p value q ne = rw (==_ne q p ne) refl

pub count-set :
    (p : ℕ) (xs : List ℕ) (i v : ℕ)
    → i < length xs
    → count p (set xs i v) + (if get_or xs i 0 == p then 1 else 0)
      ≡ count p xs + (if v == p then 1 else 0)
unfolding count
count-set p [] i v lt = absurd (omega arith)
count-set p (x ∷ xs) zero v lt = omega arith
count-set p (x ∷ xs) (suc i) v lt = omega (arith, count-set p xs i v (omega arith))

pub count-get : (xs : List ℕ) (i : ℕ) → i < length xs → 0 < count (get_or xs i 0) xs
unfolding count
count-get [] i lt = absurd (omega arith)
count-get (x ∷ xs) zero lt = ground arith
count-get (x ∷ xs) (suc i) lt = omega (arith, count-get xs i (omega arith))

-- A page that an object has is the page 0 or in use.
pub get-listed : (xs : List ℕ) (i p : ℕ) → p ≢ 0 → count p xs ≡ 0 → get_or xs i 0 ≢ p
unfolding count
get-listed [] i p ne none e = ne (sym e)
get-listed (x ∷ xs) zero p ne none e = absurd (ground (arith, e, none))
get-listed (x ∷ xs) (suc i) p ne none e = get-listed xs i p ne (omega (arith, none)) e

pub unref-referenced :
    (m : Phys) (p : ℕ)
    → 0 < m.ref_count p
    → unref m p ≡ ok (record m { ref_count = put m.ref_count p (m.ref_count p - 1) })
unfolding unref free_physical_page
unref-referenced m p pos = elim (ℕ_discrete (m.ref_count p) 1) [
  | yes one ↦
      let some_left : (m.ref_count p == 0) ≡ false =
        ==_ne (m.ref_count p) 0 (λ e. absurd (omega arith)) in
      let last : (m.ref_count p == 1) ≡ true = ground arith in
      let gone : (put m.ref_count p (m.ref_count p - 1) p == 0) ≡ true =
        ap (λ n. n == 0) (put-same m.ref_count p (m.ref_count p - 1)) ∙ ground arith in
      rw (some_left, last, gone) refl
  | no more ↦
      rw (==_ne (m.ref_count p) 0 (λ e. absurd (omega arith)), ==_ne (m.ref_count p) 1 more) refl
]
