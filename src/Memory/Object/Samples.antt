-- ===== src/Memory/Object/Samples.antt =====
-- Two objects that share a page, for the tests of kernel/memory/VMObject.cpp and of page faults.
use nusa_os.Common.{
  eq_of_ok, subst, ℕ_discrete, ==_ne, ℕ, ◌<◌, ◌≡◌, ◌≢◌, [], ◌∷◌, ◌==◌, if◌then◌else◌, arith, ok,
  err, einval, Result,
}
use nusa_os.Memory.Buddy.Blocks.{count}
use nusa_os.Memory.Object.{Phys, VmObject}
use nusa_os.Memory.Object.Uses.{uses, IsCounted, IsFresh}

-- Page 5 is used twice; page 9 and those from 12 on are in no use.
abbrev pub memory : Phys
memory = record {
  ref_count = λ p. if p == 5 then 2 else (if p == 6 then 1 else 0);
  bytes = λ p. p ∷ [];
}

-- Hands out page 9, or else page 12, when it is in no use.
abbrev pub next_page : Phys → Result ℕ
next_page m =
    if m.ref_count 9 == 0 then ok 9 else (if m.ref_count 12 == 0 then ok 12 else err einval)

abbrev pub parent : VmObject
parent = record {
  physical_pages = 5 ∷ 0 ∷ 6 ∷ [];
  cow_pages = record { bytes = 1 ∷ [] };
  num_committed_pages = 2;
}

abbrev pub child : VmObject
child = record {
  physical_pages = 5 ∷ [];
  cow_pages = record { bytes = 1 ∷ [] };
  num_committed_pages = 1;
}

handed :
    (m : Phys) (q p : ℕ) → 0 < q → m.ref_count q ≡ 0 → ok q ≡ ok p → (p ≢ 0) × (m.ref_count p ≡ 0)
handed m q p pos unused e =
    subst (λ r. (r ≢ 0) × (m.ref_count r ≡ 0)) (eq_of_ok e)
      ((λ z. absurd (omega (arith, z, pos))), unused)

pub next_page-IsFresh : IsFresh next_page
unfolding IsFresh
next_page-IsFresh m p took = elim (ℕ_discrete (m.ref_count 9) 0) [
  | yes e ↦
      let nine : ok 9 ≡ ok p =
        subst
          (λ n.
            (if n == 0 then ok 9 else (if m.ref_count 12 == 0 then ok 12 else err einval)) ≡ ok p)
          e took in
      handed m 9 p (omega arith) e nine
  | no ne ↦
      let later : (if m.ref_count 12 == 0 then ok 12 else err einval) ≡ ok p =
        subst
          (λ b. (if b then ok 9 else (if m.ref_count 12 == 0 then ok 12 else err einval)) ≡ ok p)
          (==_ne (m.ref_count 9) 0 ne) took in
      elim (ℕ_discrete (m.ref_count 12) 0) [
        | yes e ↦
            handed m 12 p (omega arith) e
              (subst (λ n. (if n == 0 then ok 12 else err einval) ≡ ok p) e later)
        | no nn ↦
            let failed : err einval ≡ ok p =
              subst (λ b. (if b then ok 12 else err einval) ≡ ok p) (==_ne (m.ref_count 12) 0 nn)
                later in
            cc
      ]
]

pub memory-IsCounted : IsCounted memory (parent ∷ child ∷ [])
unfolding IsCounted uses count
memory-IsCounted p some_page = ground arith
