-- ===== src/Memory/Fork/Cloned.antt =====
-- What `clone` (kernel/memory/AnonymousVMObject.cpp) leaves of the pages of an object, and that it
-- never returns an error.
use nusa_os.Common.{
  Errno, ℕ, suc, ◌≡◌, ◌≢◌, sym, ap, subst, Bool, true, false, not, List, [], ◌∷◌, ◌==◌, Result, ok,
  err, panic, ◌>>=◌, assert, Bool-cases, ◌⊎◌, inl, inr, eq_of_ok, >>=-eq-ok,
}
use nusa_os.Kstd.Bitmap.{Bitmap}
use nusa_os.Memory.Object.{
  Phys, VmObject, ref, ref_pages, become_cow_and_ref_pages, make_object, clone,
}

ref_pages-err :
    (i : ℕ) (pages : List ℕ) (m : Phys) (bits : Bitmap) (code : Errno)
    → ref_pages i pages m bits ≢ err code
unfolding ref_pages ref
ref_pages-err i [] m bits code e = cc
ref_pages-err i (page ∷ pages) m bits code e = elim (Bool-cases (page == 0)) [
  | inl none ↦ ref_pages-err (suc i) pages m bits code (rw (none) at e)
  | inr there ↦ elim (Bool-cases (m.ref_count page == 65535)) [
    | inl full ↦ cc (rw (there, full) at e)
    | inr room ↦ ref_pages-err (suc i) pages _ _ code (rw (there, room) at e)
  ]
]

-- An error comes from the first step or from the next one.
>>=-eq-err {ℓ κ} :
    {A : Type ℓ} {B : Type κ} (step : Result A) (next : A → Result B) (code : Errno)
    → (step >>= next) ≡ err code
    → (step ≡ err code) ⊎ ((a : A) × (next a ≡ err code))
>>=-eq-err panic next code e = cc
>>=-eq-err (err other) next code e = inl cc
>>=-eq-err (ok a) next code e = inr (a, e)

pub clone-err :
    (m : Phys) (object : VmObject) (is_shared : Bool) (code : Errno)
    → clone m object is_shared ≢ err code
unfolding clone become_cow_and_ref_pages
clone-err m object true code e = cc
clone-err m object false code e = elim (>>=-eq-err (become_cow_and_ref_pages m object) _ code e) [
  | inl failed ↦
      elim (>>=-eq-err (ref_pages 0 object.physical_pages m object.cow_pages) _ code failed) [
        | inl counting ↦ ref_pages-err 0 object.physical_pages m object.cow_pages code counting
        | inr (got, done) ↦ cc
      ]
  | inr (got, done) ↦ cc
]

pub clone-pages :
    (m : Phys) (object : VmObject) (is_shared : Bool) (r : Phys × VmObject × VmObject)
    → clone m object is_shared ≡ ok r
    → (r.1.physical_pages ≡ object.physical_pages) × (r.2.physical_pages ≡ object.physical_pages)
unfolding clone become_cow_and_ref_pages make_object
clone-pages m object is_shared r done =
    let (u, unshared, later) = >>=-eq-ok (assert (not is_shared)) _ done in
    let (marked, ran, same) = >>=-eq-ok (become_cow_and_ref_pages m object) _ later in
    let (got, ran', same') =
      >>=-eq-ok (ref_pages 0 object.physical_pages m object.cow_pages) _ ran in
    let kept : marked.1.physical_pages ≡ object.physical_pages =
      sym (ap (λ (x : Phys × VmObject). x.1.physical_pages) (eq_of_ok same')) in
    subst
      (λ (x : Phys × VmObject × VmObject).
        (x.1.physical_pages ≡ object.physical_pages) × (x.2.physical_pages ≡ object.physical_pages))
      (eq_of_ok same) (kept, kept)
