-- ===== src/Memory/Fork/Alike.antt =====
-- What `VMSpace::fork` makes of the regions of a space, and of what each maps.
use nusa_os.Common.{arith, ℕ, ◌<◌, ◌≤◌, All, ◌≡◌, refl, ◌∙◌, Option, none, some, List, [], ◌∷◌}
use nusa_os.Memory.Space.{VmRegion, Region}
use nusa_os.Memory.Fork.{ForkAction, become_cow, share, ignore, World}

-- What a part of a fork leaves: more addresses are in use, and the objects that were there have the
-- pages that they had.
unfoldable pub Grown : World → World → Type 0
Grown w w' =
    (w.next ≤ w'.next)
    × ((k : ℕ) → k < w.next → (w'.objects k).physical_pages ≡ (w.objects k).physical_pages)

-- A region of memory and its copy, for the worlds before and after. Place and protection are the
-- same. A shared object is the same one too, in a new region. One that becomes copy-on-write is
-- replaced by a new object with the same pages, in a new region. With an object that is ignored, the
-- region of the old space itself stays.
unfoldable pub AlikeMapped :
    (ℕ → ForkAction) → World → World → Option VmRegion → Option VmRegion → Type 0
AlikeMapped action w w' none none = Unit
AlikeMapped action w w' none (some copy) = ⊥
AlikeMapped action w w' (some mapped) none = ⊥
AlikeMapped action w w' (some mapped) (some copy) =
    (copy.start ≡ mapped.start)
    × (copy.size ≡ mapped.size)
    × (copy.object_start ≡ mapped.object_start)
    × (copy.prot ≡ mapped.prot)
    × (action mapped.object ≡ share → (copy.object ≡ mapped.object) × (w.next ≤ copy.id))
    × (action mapped.object ≡ become_cow
        → (w.next ≤ copy.id)
          × (w.next ≤ copy.object)
          × (copy.object < w'.next)
          × ((w'.objects copy.object).physical_pages ≡ (w.objects mapped.object).physical_pages))
    × (action mapped.object ≡ ignore → copy ≡ mapped)

unfoldable pub AlikeRegion : (ℕ → ForkAction) → World → World → Region → Region → Type 0
AlikeRegion action w w' region copy =
    (copy.start ≡ region.start)
    × (copy.size ≡ region.size)
    × (copy.used ≡ region.used)
    × AlikeMapped action w w' region.vm_region copy.vm_region

unfoldable pub Alike : (ℕ → ForkAction) → World → World → List Region → List Region → Type 0
Alike action w w' [] [] = Unit
Alike action w w' [] (copy ∷ copies) = ⊥
Alike action w w' (region ∷ regions) [] = ⊥
Alike action w w' (region ∷ regions) (copy ∷ copies) =
    AlikeRegion action w w' region copy × Alike action w w' regions copies

-- The mapped object has an address in use.
abbrev pub Below : ℕ → Option VmRegion → Type 0
Below n none = Unit
Below n (some mapped) = mapped.object < n

pub Grown-refl : (w : World) → Grown w w
unfolding Grown
Grown-refl w = (omega arith, λ k lt. refl)

pub Grown-trans : (w w' w'' : World) → Grown w w' → Grown w' w'' → Grown w w''
unfolding Grown
Grown-trans w w' w'' (le, same) (le', same') =
    (omega arith, λ k lt. same' k (omega arith) ∙ same k lt)

pub Grown-next : (w w' : World) → Grown w w' → w.next ≤ w'.next
unfolding Grown
Grown-next w w' grown = grown.0

pub AlikeMapped-later :
    (action : ℕ → ForkAction) (w w' w'' : World) (mapped copy : Option VmRegion)
    → Grown w' w''
    → AlikeMapped action w w' mapped copy
    → AlikeMapped action w w'' mapped copy
unfolding AlikeMapped Grown
AlikeMapped-later action w w' w'' none none grown alike = tt
AlikeMapped-later action w w' w'' none (some copy) grown alike = absurd alike
AlikeMapped-later action w w' w'' (some mapped) none grown alike = absurd alike
AlikeMapped-later action w w' w'' (some mapped) (some copy) (le, same)
      (start, size, offset, prot, shared, cow, ignored) =
    (
      start,
      size,
      offset,
      prot,
      shared,
      (λ e.
          let (id, new, lt, pages) = cow e in
          (id, new, omega (arith, lt, le), same copy.object lt ∙ pages)),
      ignored,
    )

AlikeMapped-earlier :
    (action : ℕ → ForkAction) (w w' w'' : World) (mapped copy : Option VmRegion)
    → Grown w w'
    → Below w.next mapped
    → AlikeMapped action w' w'' mapped copy
    → AlikeMapped action w w'' mapped copy
unfolding AlikeMapped Grown
AlikeMapped-earlier action w w' w'' none none grown below alike = tt
AlikeMapped-earlier action w w' w'' none (some copy) grown below alike = absurd alike
AlikeMapped-earlier action w w' w'' (some mapped) none grown below alike = absurd alike
AlikeMapped-earlier action w w' w'' (some mapped) (some copy) (le, same) below
      (start, size, offset, prot, shared, cow, ignored) =
    (
      start,
      size,
      offset,
      prot,
      (λ e. let (object, id) = shared e in (object, omega (arith, le, id))),
      (λ e.
          let (id, new, lt, pages) = cow e in
          (omega (arith, le, id), omega (arith, le, new), lt, pages ∙ same mapped.object below)),
      ignored,
    )

pub Alike-earlier :
    (action : ℕ → ForkAction) (w w' w'' : World) (regions copies : List Region)
    → Grown w w'
    → All (λ r. Below w.next r.vm_region) regions
    → Alike action w' w'' regions copies
    → Alike action w w'' regions copies
unfolding Alike AlikeRegion
Alike-earlier action w w' w'' [] [] grown below alike = tt
Alike-earlier action w w' w'' [] (copy ∷ copies) grown below alike = absurd alike
Alike-earlier action w w' w'' (region ∷ regions) [] grown below alike = absurd alike
Alike-earlier action w w' w'' (region ∷ regions) (copy ∷ copies) grown (here, below)
      ((start, size, used, mapped), alike) =
    (
      (
        start,
        size,
        used,
        AlikeMapped-earlier action w w' w'' region.vm_region copy.vm_region grown here mapped,
      ),
      Alike-earlier action w w' w'' regions copies grown below alike,
    )

pub AlikeMapped-none :
    (action : ℕ → ForkAction) (w w' : World) (mapped copy : Option VmRegion)
    → AlikeMapped action w w' mapped copy
    → mapped ≡ none
    → copy ≡ none
unfolding AlikeMapped
AlikeMapped-none action w w' none none alike e = refl
AlikeMapped-none action w w' none (some copy) alike e = absurd alike
AlikeMapped-none action w w' (some mapped) none alike e = refl
AlikeMapped-none action w w' (some mapped) (some copy) alike e = cc
