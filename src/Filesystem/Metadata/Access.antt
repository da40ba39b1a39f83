-- ===== src/Filesystem/Metadata/Access.antt =====
-- Who may do what with an inode (kernel/filesystem/InodeMetadata.cpp).
use mathlib.Core.Logic.{◌↔◌}
use nusa_os.Common.{
  ℕ, ◌%◌, ◌/◌, Bool, ◌&&◌, ◌||◌, ◌∙◌, ◌≡◌, refl, subst, sym, true, List, [], ◌∷◌, ◌==◌, has,
  Bool-cases, inl, inr, ◌⊎◌, arith, ==→eq, ==_refl,
}
use nusa_os.Filesystem.Metadata.{
  Metadata, User, in_group, is_among, can_read, can_write, can_execute,
}

-- Membership in a list of groups.
pub data In (g : ℕ) : List ℕ → Type 0 where
  here : {groups : List ℕ} → In g (g ∷ groups)
  there : {h : ℕ} {groups : List ℕ} → In g groups → In g (h ∷ groups)

is_among-In : (g : ℕ) (groups : List ℕ) → is_among g groups ≡ true → In g groups
is_among-In g [] e = cc
is_among-In g (h ∷ groups) e = elim (Bool-cases (h == g)) [
  | inl same ↦ subst (λ x. In g (x ∷ groups)) (sym (==→eq h g same)) here
  | inr other ↦ there (is_among-In g groups (rw other at e))
]

In-is_among : (g : ℕ) (groups : List ℕ) → In g groups → is_among g groups ≡ true
In-is_among g [] i = elim i [ ]
In-is_among g (h ∷ groups) here = let same = ==_refl g in rw same refl
In-is_among g (h ∷ groups) (there i) = elim (Bool-cases (h == g)) [
  | inl same ↦ rw same refl
  | inr other ↦ rw other (In-is_among g groups i)
]

-- A user's groups are the effective one and those of the list.
pub in_group-In :
    (user : User) (g : ℕ) → (in_group user g ≡ true) ↔ ((g ≡ user.egid) ⊎ In g user.groups)
unfolding in_group
in_group-In user g = elim (Bool-cases (g == user.egid)) [
  | inl effective ↦ rw (effective, in_group) (λ _. inl (==→eq g user.egid effective), λ _. refl)
  | inr other ↦
      rw (other, in_group)
        (
          λ e. inr (is_among-In g user.groups e),
          λ i. elim i [
            | inl same ↦ let hit : (g == user.egid) ≡ true = ground arith in cc
            | inr i' ↦ In-is_among g user.groups i'
          ],
        )
]

-- What the octal digits of the mode grant, where 4 stands for reading, 2 for writing and 1 for
-- executing: everything to root, and else by the lowest digit to anybody, by the third one to the
-- owner and by the second one to the group.
abbrev pub Granted : ℕ → Metadata → User → Type 0
Granted bit m user =
    (user.euid ≡ 0)
    ⊎ ((m.mode % 8 / bit % 2 ≡ 1)
        ⊎ (((m.mode / 64 % 8 / bit % 2 ≡ 1) × (user.euid ≡ m.uid))
            ⊎ ((m.mode / 8 % 8 / bit % 2 ≡ 1) × ((m.gid ≡ user.egid) ⊎ In m.gid user.groups))))

-- The four tests in their order.
any_of_four :
    (a b c d e f : Bool)
    → ((a || b || (c && d) || (e && f)) ≡ true)
      ↔ ((a ≡ true) ⊎ ((b ≡ true) ⊎ (((c ≡ true) × (d ≡ true)) ⊎ ((e ≡ true) × (f ≡ true)))))
any_of_four a b c d e f = (λ h. ground arith, λ h. ground arith)

test-eq : (a b : ℕ) → ((a == b) ≡ true) ↔ (a ≡ b)
test-eq a b = (λ h. ==→eq a b h, λ h. ground arith)

tests-Granted :
    (m : Metadata) (user : User) (bit others owner group : ℕ)
    → m.mode / others % 2 ≡ m.mode % 8 / bit % 2
    → m.mode / owner % 2 ≡ m.mode / 64 % 8 / bit % 2
    → m.mode / group % 2 ≡ m.mode / 8 % 8 / bit % 2
    → (((user.euid == 0)
          || has m.mode others
          || (has m.mode owner && (user.euid == m.uid))
          || (has m.mode group && in_group user m.gid))
        ≡ true)
      ↔ Granted bit m user
unfolding has
tests-Granted m user bit others owner group o w g =
    let four =
      any_of_four (user.euid == 0) (has m.mode others) (has m.mode owner) (user.euid == m.uid)
        (has m.mode group) (in_group user m.gid) in
    let groups = in_group-In user m.gid in
    (
      λ h. elim (four.0 h) [
        | inl root ↦ inl (==→eq user.euid 0 root)
        | inr (inl any) ↦ inr (inl (sym o ∙ ==→eq (m.mode / others % 2) 1 any))
        | inr (inr (inl (bits, same))) ↦
            inr (inr (inl (sym w ∙ ==→eq (m.mode / owner % 2) 1 bits, ==→eq user.euid m.uid same)))
        | inr (inr (inr (bits, member))) ↦
            inr (inr (inr (sym g ∙ ==→eq (m.mode / group % 2) 1 bits, groups.0 member)))
      ],
      λ h. four.1 (elim h [
        | inl root ↦ inl ((test-eq user.euid 0).1 root)
        | inr (inl any) ↦ inr (inl ((test-eq (m.mode / others % 2) 1).1 (o ∙ any)))
        | inr (inr (inl (bits, same))) ↦ inr (
            inr (
              inl
                ((test-eq (m.mode / owner % 2) 1).1 (w ∙ bits), (test-eq user.euid m.uid).1 same)))
        | inr (inr (inr (bits, member))) ↦
            inr (inr (inr ((test-eq (m.mode / group % 2) 1).1 (g ∙ bits), groups.1 member)))
      ]),
    )

-- The three permission tests hold exactly when the octal digits of the mode grant the access: to
-- root, by the digit of the others, by the digit of the owner to a user that is the owner, or by the
-- digit of the group to a user one of whose groups is that of the inode.
pub permissions-Granted :
    (m : Metadata) (user : User)
    → ((can_read m user ≡ true) ↔ Granted 4 m user)
      × ((can_write m user ≡ true) ↔ Granted 2 m user)
      × ((can_execute m user ≡ true) ↔ Granted 1 m user)
unfolding can_read can_write can_execute nusa_os.Filesystem.Metadata.can_override_permissions
permissions-Granted m user = (
  tests-Granted m user 4 4 256 32 (omega arith) (omega arith) (omega arith),
  tests-Granted m user 2 2 128 16 (omega arith) (omega arith) (omega arith),
  tests-Granted m user 1 1 64 8 (omega arith) (omega arith) (omega arith),
)
