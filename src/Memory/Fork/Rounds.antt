-- ===== src/Memory/Fork/Rounds.antt =====
-- The rounds of the loop of `VMSpace::fork` (kernel/memory/VMSpace.cpp), one for each region.
use nusa_os.Common.{
  arith, ℕ, suc, ◌<◌, ◌≤◌, All, ℕ_discrete, ◌≡◌, refl, sym, ap, ◌∙◌, subst, Bool, Option, none,
  some, List, [], ◌∷◌, Result, ok, err, panic, eq_of_ok, >>=-eq-ok,
}
use nusa_os.Memory.Space.{VmRegion, Region}
use nusa_os.Memory.Object.Uses.{put-same, put-other}
use nusa_os.Memory.Fork.Cloned.{clone-err, clone-pages}
use nusa_os.Memory.Object.{put, clone, Phys, VmObject}
use nusa_os.Memory.Fork.{
  ForkAction, become_cow, share, ignore, World, share_object, with_clone, fork_mapped, fork_region,
  fork_regions,
}
use nusa_os.Memory.Fork.Alike.{
  Grown, AlikeMapped, AlikeRegion, Alike, Below, Grown-refl, Grown-trans, Grown-next,
  AlikeMapped-later, Alike-earlier,
}

-- What one round leaves: a grown world, and an alike region.
abbrev Round : (ℕ → ForkAction) → World → Region → World × Region → Type 0
Round action w region r = Grown w r.0 × AlikeRegion action w r.0 region r.1

kept :
    (action : ℕ → ForkAction) (w : World) (region : Region) (mapped : VmRegion)
    → region.vm_region ≡ some mapped
    → action mapped.object ≡ ignore
    → Round action w region (w, region)
unfolding AlikeRegion AlikeMapped
kept action w region mapped at act = (
  Grown-refl w,
  (
    refl,
    refl,
    refl,
    rw (at) (
      refl,
      refl,
      refl,
      refl,
      (λ e. let bad = sym act ∙ e in cc),
      (λ e. let bad = sym act ∙ e in cc),
      λ e. refl,
    ),
  ),
)

shared :
    (action : ℕ → ForkAction) (w : World) (region : Region) (mapped : VmRegion)
    → region.vm_region ≡ some mapped
    → action mapped.object ≡ share
    → Round action w region (share_object w region mapped mapped.object)
unfolding AlikeRegion AlikeMapped share_object Grown
shared action w region mapped at act = (
  (omega arith, λ k lt. refl),
  (
    refl,
    refl,
    refl,
    rw (at) (
      refl,
      refl,
      refl,
      refl,
      (λ e. (refl, omega arith)),
      (λ e. let bad = sym act ∙ e in cc),
      λ e. let bad = sym act ∙ e in cc,
    ),
  ),
)

-- The world once an object has been cloned.
abbrev cloned_world : World → VmRegion → Phys × VmObject × VmObject → World
cloned_world w mapped r = record w {
  memory = r.0;
  objects = put (put w.objects mapped.object r.1) w.next r.2;
  next = suc w.next;
}

old_pages :
    (w : World) (mapped : VmRegion) (r : Phys × VmObject × VmObject) (k : ℕ)
    → r.1.physical_pages ≡ (w.objects mapped.object).physical_pages
    → k < w.next
    → ((cloned_world w mapped r).objects k).physical_pages ≡ (w.objects k).physical_pages
old_pages w mapped r k same lt =
    let outer =
      put-other (put w.objects mapped.object r.1) w.next r.2 k (λ e. absurd (omega arith)) in
    ap (λ (o : VmObject). o.physical_pages) outer ∙ elim (ℕ_discrete k mapped.object) [
      | yes e ↦
          ap (λ (o : VmObject). o.physical_pages)
            (ap (put w.objects mapped.object r.1) e ∙ put-same w.objects mapped.object r.1)
          ∙ same
          ∙ ap (λ j. (w.objects j).physical_pages) (sym e)
      | no ne ↦ ap (λ (o : VmObject). o.physical_pages) (put-other w.objects mapped.object r.1 k ne)
    ]

cloned :
    (action : ℕ → ForkAction) (w : World) (region : Region) (mapped : VmRegion)
    (r : Phys × VmObject × VmObject)
    → region.vm_region ≡ some mapped
    → action mapped.object ≡ become_cow
    → r.1.physical_pages ≡ (w.objects mapped.object).physical_pages
    → r.2.physical_pages ≡ (w.objects mapped.object).physical_pages
    → Round action w region (share_object (cloned_world w mapped r) region mapped w.next)
unfolding AlikeRegion AlikeMapped share_object Grown
cloned action w region mapped r at act same copied = (
  (omega arith, λ k lt. old_pages w mapped r k same lt),
  (
    refl,
    refl,
    refl,
    rw (at) (
      refl,
      refl,
      refl,
      refl,
      (λ e. let bad = sym act ∙ e in cc),
      (λ e. (
        omega arith,
        omega arith,
        omega arith,
        ap (λ (o : VmObject). o.physical_pages)
              (put-same (put w.objects mapped.object r.1) w.next r.2)
            ∙ copied,
      )),
      λ e. let bad = sym act ∙ e in cc,
    ),
  ),
)

with_clone-Round :
    (action : ℕ → ForkAction) (is_shared : Bool) (result : Result (Phys × VmObject × VmObject))
    (w : World) (region : Region) (mapped : VmRegion) (done : World × Region)
    → region.vm_region ≡ some mapped
    → action mapped.object ≡ become_cow
    → clone w.memory (w.objects mapped.object) is_shared ≡ result
    → with_clone result w region mapped ≡ ok done
    → Round action w region done
unfolding with_clone
with_clone-Round action is_shared (ok r) w region mapped done at cow ran e =
    let (same, copied) = clone-pages w.memory (w.objects mapped.object) is_shared r ran in
    subst (Round action w region) (eq_of_ok e) (cloned action w region mapped r at cow same copied)
with_clone-Round action is_shared (err code) w region mapped done at cow ran e =
    absurd (clone-err w.memory (w.objects mapped.object) is_shared code ran)
with_clone-Round action is_shared panic w region mapped done at cow ran e = cc

fork_mapped-Round :
    (action : ℕ → ForkAction) (act : ForkAction) (is_shared : Bool) (w : World) (region : Region)
    (mapped : VmRegion) (done : World × Region)
    → region.vm_region ≡ some mapped
    → action mapped.object ≡ act
    → fork_mapped act is_shared w region mapped ≡ ok done
    → Round action w region done
unfolding fork_mapped
fork_mapped-Round action become_cow is_shared w region mapped done at act e =
    with_clone-Round action is_shared _ w region mapped done at act refl e
fork_mapped-Round action share is_shared w region mapped done at act e =
    subst (Round action w region) (eq_of_ok e) (shared action w region mapped at act)
fork_mapped-Round action ignore is_shared w region mapped done at act e =
    subst (Round action w region) (eq_of_ok e) (kept action w region mapped at act)

fork_region-Round :
    (action : ℕ → ForkAction) (is_shared : ℕ → Bool) (w : World) (region : Region)
    (mapped : Option VmRegion) (done : World × Region)
    → region.vm_region ≡ mapped
    → fork_region action is_shared w region mapped ≡ ok done
    → Round action w region done
unfolding fork_region AlikeRegion AlikeMapped
fork_region-Round action is_shared w region none done at e =
    subst (Round action w region) (eq_of_ok e) (Grown-refl w, (refl, refl, refl, rw (at) tt))
fork_region-Round action is_shared w region (some mapped) done at e =
    fork_mapped-Round action _ _ w region mapped done at refl e

All-Below :
    (n n' : ℕ) (regions : List Region)
    → n ≤ n'
    → All (λ r. Below n r.vm_region) regions
    → All (λ r. Below n' r.vm_region) regions
All-Below n n' [] le below = tt
All-Below n n' (region ∷ regions) le (here, below) =
    (higher region.vm_region here, All-Below n n' regions le below)
  where
    higher : (mapped : Option VmRegion) → Below n mapped → Below n' mapped
    higher none h = tt
    higher (some mapped) h = omega arith

pub fork_regions-Alike :
    (action : ℕ → ForkAction) (is_shared : ℕ → Bool) (w : World) (regions : List Region)
    (done : World × List Region)
    → All (λ r. Below w.next r.vm_region) regions
    → fork_regions action is_shared w regions ≡ ok done
    → Grown w done.0 × Alike action w done.0 regions done.1
unfolding fork_regions Alike AlikeRegion
fork_regions-Alike action is_shared w [] done below e =
    subst (λ (d : World × List Region). Grown w d.0 × Alike action w d.0 [] d.1) (eq_of_ok e)
      (Grown-refl w, tt)
fork_regions-Alike action is_shared w (region ∷ regions) done (here, below) e =
    let (r, ran, later) = >>=-eq-ok _ _ e in
    let (rest, ran', same) = >>=-eq-ok _ _ later in
    let (grown, (start, size, used, mapped)) =
      fork_region-Round action is_shared w region region.vm_region r refl ran in
    let (grown', alike) =
      fork_regions-Alike action is_shared r.0 regions rest
        (All-Below w.next r.0.next regions (Grown-next w r.0 grown) below) ran' in
    subst (λ (d : World × List Region). Grown w d.0 × Alike action w d.0 (region ∷ regions) d.1)
      (eq_of_ok same)
      (
        Grown-trans w r.0 rest.0 grown grown',
        (
          (
            start,
            size,
            used,
            AlikeMapped-later action w r.0 rest.0 region.vm_region r.1.vm_region grown' mapped,
          ),
          Alike-earlier action w r.0 rest.0 regions rest.1 grown below alike,
        ),
      )
