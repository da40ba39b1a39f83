-- ===== src/Memory/Fork.antt =====
-- `VMSpace::fork` (kernel/memory/VMSpace.cpp): the address space of a new process, with the objects
-- of anonymous memory that are cloned for it. Objects are found by their addresses; `next` is where
-- `new` puts what is made next. Page tables are left out.
pub mod Cloned
pub mod Alike
pub mod Rounds
pub mod Valid
mod Examples
use nusa_os.Common.{
  ℕ, suc, Bool, Option, none, some, List, [], ◌∷◌, ◌++◌, Result, ok, err, panic, ◌>>=◌,
}
use nusa_os.Memory.Space.{VmRegion, Region, Space}
use nusa_os.Memory.Object.{Phys, VmObject, put, clone}

-- `VMObject::ForkAction`
pub data ForkAction : Type 0 where
  become_cow share ignore : ForkAction

-- What a fork changes, and `regions_vec`.
pub record World : Type 0 where
  pub memory : Phys
  pub objects : ℕ → VmObject
  pub next : ℕ
  pub regions_vec : List VmRegion

-- The case `Share`: a region of the new space, on the given object.
unfoldable pub share_object : World → Region → VmRegion → ℕ → World × Region
share_object w region mapped object =
    let new_region : VmRegion = record mapped { id = w.next; object = object } in
    (
      record w { next = suc w.next; regions_vec = w.regions_vec ++ (new_region ∷ []) },
      record region { vm_region = some new_region },
    )

-- The case `BecomeCoW`, by what `clone` returned. After an error the copy of the node keeps the
-- region it was copied with.
unfoldable pub with_clone :
    Result (Phys × VmObject × VmObject) → World → Region → VmRegion → Result (World × Region)
with_clone (ok r) w region mapped = ok (
    share_object
      (record w {
        memory = r.0;
        objects = put (put w.objects mapped.object r.1) w.next r.2;
        next = suc w.next;
      })
      region mapped w.next)
with_clone (err e) w region mapped = ok (w, region)
with_clone panic w region mapped = panic

-- The switch, with the action of the object and whether it `is_shared`.
unfoldable pub fork_mapped : ForkAction → Bool → World → Region → VmRegion → Result (World × Region)
fork_mapped become_cow is_shared w region mapped =
    with_clone (clone w.memory (w.objects mapped.object) is_shared) w region mapped
fork_mapped share is_shared w region mapped = ok (share_object w region mapped mapped.object)
fork_mapped ignore is_shared w region mapped = ok (w, region)

-- One round of the loop: the copy of the node.
unfoldable pub fork_region :
    (ℕ → ForkAction) → (ℕ → Bool) → World → Region → Option VmRegion → Result (World × Region)
fork_region action is_shared w region none = ok (w, region)
fork_region action is_shared w region (some mapped) =
    fork_mapped (action mapped.object) (is_shared mapped.object) w region mapped

unfoldable pub fork_regions :
    (ℕ → ForkAction) → (ℕ → Bool) → World → List Region → Result (World × List Region)
fork_regions action is_shared w [] = ok (w, [])
fork_regions action is_shared w (region ∷ regions) =
    fork_region action is_shared w region region.vm_region >>= λ r.
    fork_regions action is_shared r.0 regions >>= λ rest. ok (rest.0, r.1 ∷ rest.1)

unfoldable pub fork : (ℕ → ForkAction) → (ℕ → Bool) → World → Space → Result (World × Space)
fork action is_shared w space =
    fork_regions action is_shared w space.regions >>= λ r. ok (r.0, record space { regions = r.1 })
