-- ===== src/Memory/Fork/Examples.antt =====
-- A fork of a space with private memory, shared memory and a free part.
use nusa_os.Common.{ℕ, ◌≡◌, refl, true, false, some, none, [], ◌∷◌, ◌==◌, if◌then◌else◌, ok, arith}
use nusa_os.Kstd.Bitmap.{make, get_bit, set_bit}
use nusa_os.Memory.Space.{VmProt, VmRegion, Space, Region}
use nusa_os.Memory.Space.Inv.{IsValid}
use nusa_os.Memory.Object.{
  VmObject, put, ref, mark_cow, make_object, ref_pages, become_cow_and_ref_pages, clone,
}
use nusa_os.Memory.Object.Samples.{memory, parent, child}
use nusa_os.Memory.Fork.{
  ForkAction, become_cow, ignore, World, share_object, with_clone, fork_mapped, fork_region,
  fork_regions, fork,
}
use nusa_os.Memory.Fork.Alike.{Grown, Alike}
use nusa_os.Memory.Fork.Valid.{fork-IsValid}

abbrev writable : VmProt
writable = record { read = true; write = true; execute = false }

abbrev private_part : VmRegion
private_part = record {
  id = 7;
  object = 3;
  start = 4096;
  size = 12288;
  object_start = 0;
  prot = writable;
}

abbrev shared_part : VmRegion
shared_part = record {
  id = 8;
  object = 4;
  start = 16384;
  size = 4096;
  object_start = 0;
  prot = writable;
}

abbrev rest : Region
rest = record { start = 20480; size = 8192; used = false; vm_region = none }

abbrev over : VmRegion → Region
over mapped = record {
  start = mapped.start;
  size = mapped.size;
  used = true;
  vm_region = some mapped;
}

abbrev old_space : Space
old_space = record {
  start = 4096;
  size = 24576;
  regions = over private_part ∷ over shared_part ∷ rest ∷ [];
  used = 16384;
}

abbrev actions : ℕ → ForkAction
actions object = if object == 4 then ignore else become_cow

abbrev old_objects : ℕ → VmObject
old_objects object = if object == 4 then child else parent

abbrev before : World
before = record { memory = memory; objects = old_objects; next = 10; regions_vec = [] }

abbrev private_copy : VmRegion
private_copy = record private_part { id = 11; object = 10 }

abbrev marked : ℕ → VmObject
marked committed = record {
  physical_pages = 5 ∷ 0 ∷ 6 ∷ [];
  cow_pages = record { bytes = 5 ∷ [] };
  num_committed_pages = committed;
}

abbrev after : World
after = record {
  memory = record memory { ref_count = put (put memory.ref_count 5 3) 6 2 };
  objects = put (put old_objects 3 (marked 2)) 10 (marked 3);
  next = 12;
  regions_vec = private_copy ∷ [];
}

abbrev new_space : Space
new_space = record old_space { regions = over private_copy ∷ over shared_part ∷ rest ∷ [] }

old_space-IsValid : IsValid old_space
old_space-IsValid = record {
  layout = (
    refl,
    omega arith,
    (refl, refl),
    refl,
    (λ e. cc),
    (
      refl,
      omega arith,
      (refl, refl),
      refl,
      (λ e. cc),
      (refl, omega arith, (refl, refl), refl, (λ _. refl), refl),
    ),
  );
  counted = refl;
  fits = omega arith;
}

forks : fork actions (λ object. object == 4) before old_space ≡ ok (after, new_space)
unfolding fork fork_regions fork_region fork_mapped with_clone share_object clone
    become_cow_and_ref_pages ref_pages ref put make_object mark_cow make get_bit set_bit
forks = refl

fork-IsValid_example :
    IsValid new_space
    × (new_space.start ≡ old_space.start)
    × (new_space.size ≡ old_space.size)
    × Grown before after
    × Alike actions before after old_space.regions new_space.regions
fork-IsValid_example =
    fork-IsValid actions (λ object. object == 4) before after old_space new_space old_space-IsValid
      (omega arith, (omega arith, (tt, tt))) forks
