-- ===== src/Memory/Fork/Valid.antt =====
-- `VMSpace::fork` (kernel/memory/VMSpace.cpp) makes a valid space.
use nusa_os.Common.{
  ℕ, All, ◌+◌, ◌≡◌, refl, sym, ◌∙◌, subst, Bool, true, List, [], ◌∷◌, ok, eq_of_ok, >>=-eq-ok,
}
use nusa_os.Memory.Space.{Region, Space}
use nusa_os.Memory.Space.Inv.{Layout, total_used, IsValid}
use nusa_os.Memory.Fork.{ForkAction, World, fork}
use nusa_os.Memory.Fork.Alike.{Grown, AlikeRegion, Alike, Below, AlikeMapped-none}
use nusa_os.Memory.Fork.Rounds.{fork_regions-Alike}

-- Alike regions lie alike.
Alike-Layout :
    (action : ℕ → ForkAction) (w w' : World) (stop from : ℕ) (solid : Bool)
    (regions copies : List Region)
    → Alike action w w' regions copies
    → Layout stop from solid regions
    → Layout stop from solid copies
unfolding Alike AlikeRegion
Alike-Layout action w w' stop from solid [] [] alike layout = layout
Alike-Layout action w w' stop from solid [] (copy ∷ copies) alike layout = absurd alike
Alike-Layout action w w' stop from solid (region ∷ regions) [] alike layout = absurd alike
Alike-Layout action w w' stop from solid (region ∷ regions) (copy ∷ copies) ((e, f, g, m), alike)
      (at, pos, aligned, apart, unmapped, layout) =
    (
      e ∙ at,
      rw (f) pos,
      rw (e, f) aligned,
      rw (g) apart,
      (λ unused.
          AlikeMapped-none action w w' region.vm_region copy.vm_region m
            (unmapped (sym g ∙ unused))),
      rw (f, g)
          (Alike-Layout action w w' stop (from + region.size) region.used regions copies alike
            layout),
    )

Alike-total :
    (action : ℕ → ForkAction) (w w' : World) (regions copies : List Region)
    → Alike action w w' regions copies
    → total_used copies ≡ total_used regions
unfolding Alike AlikeRegion
Alike-total action w w' [] [] alike = refl
Alike-total action w w' [] (copy ∷ copies) alike = absurd alike
Alike-total action w w' (region ∷ regions) [] alike = absurd alike
Alike-total action w w' (region ∷ regions) (copy ∷ copies) ((e, f, g, m), alike) =
    rw (f, g, Alike-total action w w' regions copies alike) refl

-- A fork that returns makes a valid space out of a valid one all of whose objects have addresses in
-- use, with the same bounds. Its regions lie where those of the old space do, and each one that is
-- mapped is mapped to as much memory, from the same offset and with the same protection: to the same
-- object where that is shared, and to a new object with the same pages where the old one becomes
-- copy-on-write, both by new regions of memory. Where the object is to be ignored, the node keeps
-- the region of memory of the old space itself. The old objects keep their pages.
pub fork-IsValid :
    (action : ℕ → ForkAction) (is_shared : ℕ → Bool) (w w' : World) (space space' : Space)
    → IsValid space
    → All (λ r. Below w.next r.vm_region) space.regions
    → fork action is_shared w space ≡ ok (w', space')
    → IsValid space'
      × (space'.start ≡ space.start)
      × (space'.size ≡ space.size)
      × Grown w w'
      × Alike action w w' space.regions space'.regions
unfolding fork
fork-IsValid action is_shared w w' space space' valid below done =
    let (r, ran, later) = >>=-eq-ok _ _ done in
    let (grown, alike) = fork_regions-Alike action is_shared w space.regions r below ran in
    let both : (World × Space) = (r.0, record space { regions = r.1 }) in
    subst
      (λ (p : World × Space).
        IsValid p.1
        × (p.1.start ≡ space.start)
        × (p.1.size ≡ space.size)
        × Grown w p.0
        × Alike action w p.0 space.regions p.1.regions)
      {x = both} (eq_of_ok later)
      (
        record {
          layout =
              Alike-Layout action w r.0 (space.start + space.size) space.start true space.regions
                r.1 alike valid.layout;
          counted = valid.counted ∙ sym (Alike-total action w r.0 space.regions r.1 alike);
          fits = valid.fits;
        },
        refl,
        refl,
        grown,
        alike,
      )
