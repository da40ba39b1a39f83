-- ===== src/Kstd/Map/Balance.antt =====
-- Rebalancing in `kstd::map` (kernel/kstd/map.hpp): it keeps the entries in order, and it restores
-- the balance that one insertion or removal in a subtree disturbs.
use mathlib.Core.List.{append_assoc}
use nusa_os.Common.{
  ℕ, ◌+◌, ◌≤◌, max, ◌≡◌, refl, ◌∙◌, sym, ap, List, [], ◌∷◌, ◌++◌, ltb, ltb→lt, if◌then◌else◌, arith,
  Bool-cases, inl, inr,
}
use nusa_os.Kstd.Map.{
  Tree, leaf, node, height, update_own_height, is_left_heavy, is_right_heavy, rotate_left,
  rotate_right, balance, rebalance,
}

module _ {ℓ κ} {K : Type ℓ} {V : Type κ} where
  -- The entries in order.
  abbrev pub to_list : Tree K V → List (K × V)
  to_list leaf = []
  to_list (node h l k v r) = to_list l ++ ((k, v) ∷ to_list r)

  -- Heights are right, and those of two siblings differ by 1 at most.
  abbrev pub Avl : Tree K V → Type 0
  Avl leaf = Unit
  Avl (node h l k v r) =
      (h ≡ max (height r) (height l) + 1)
      × (height l ≤ height r + 1)
      × (height r ≤ height l + 1)
      × Avl l
      × Avl r

  to_list-rotate_left : (t : Tree K V) → to_list (rotate_left t) ≡ to_list t
  unfolding rotate_left
  to_list-rotate_left leaf = refl
  to_list-rotate_left (node h l k v leaf) = refl
  to_list-rotate_left (node h l k v (node h' l' k' v' r')) =
      append_assoc (to_list l) ((k, v) ∷ to_list l') ((k', v') ∷ to_list r')

  to_list-rotate_right : (t : Tree K V) → to_list (rotate_right t) ≡ to_list t
  unfolding rotate_right
  to_list-rotate_right leaf = refl
  to_list-rotate_right (node h leaf k v r) = refl
  to_list-rotate_right (node h (node h' l' k' v' r') k v r) =
      sym (append_assoc (to_list l') ((k', v') ∷ to_list r') ((k, v) ∷ to_list r))

  pub to_list-balance : (t : Tree K V) → to_list (balance t) ≡ to_list t
  unfolding balance
  to_list-balance leaf = refl
  to_list-balance (node h l k v r) = elim (Bool-cases (ltb (height r + 1) (height l))) [
    | inl left ↦ rw left (
        to_list-rotate_right (node h (if is_right_heavy l then rotate_left l else l) k v r)
        ∙ ap (λ x. x ++ ((k, v) ∷ to_list r)) (left_child l))
    | inr not_left ↦ elim (Bool-cases (ltb (height l + 1) (height r))) [
      | inl right ↦
          rw (not_left, right)
            (to_list-rotate_left (node h l k v (if is_left_heavy r then rotate_right r else r))
              ∙ ap (λ x. to_list l ++ ((k, v) ∷ x)) (right_child r))
      | inr not_right ↦ rw (not_left, not_right)
    ]
  ]
    where
      left_child :
          (l : Tree K V) → to_list (if is_right_heavy l then rotate_left l else l) ≡ to_list l
      left_child l = elim (Bool-cases (is_right_heavy l)) [
        | inl heavy ↦ rw heavy (to_list-rotate_left l)
        | inr light ↦ rw light
      ]

      right_child :
          (r : Tree K V) → to_list (if is_left_heavy r then rotate_right r else r) ≡ to_list r
      right_child r = elim (Bool-cases (is_left_heavy r)) [
        | inl heavy ↦ rw heavy (to_list-rotate_right r)
        | inr light ↦ rw light
      ]

  -- The two rotations of a node whose left subtree is too high, and their mirror image.
  left_fixed :
      (h : ℕ) (l : Tree K V) (k : K) (v : V) (r : Tree K V)
      → Avl l
      → Avl r
      → height l ≡ height r + 2
      → let t = rotate_right (node h (if is_right_heavy l then rotate_left l else l) k v r) in
        Avl t × (height t ≤ height l + 1) × (height l ≤ height t)
  unfolding rotate_right rotate_left is_right_heavy
  left_fixed h leaf k v r a b e = absurd (omega arith)
  left_fixed h (node hl ll lk lv leaf) k v r a b e = ground arith
  left_fixed h (node hl ll lk lv (node hm ml mk mv mr)) k v r a b e =
      elim (Bool-cases (ltb (height ll) hm)) [
        | inl heavy ↦
            let lt = ltb→lt (height ll) hm heavy in
            rw heavy (
              (
                refl,
                omega arith,
                omega arith,
                (refl, omega arith, omega arith, a.3, a.4.3),
                (refl, omega arith, omega arith, a.4.4, b),
              ),
              omega arith,
              omega arith,
            )
        | inr light ↦
            let ge : hm ≤ height ll = ground arith in
            rw light (
              (refl, omega arith, omega arith, a.3, (refl, omega arith, omega arith, a.4, b)),
              omega arith,
              omega arith,
            )
      ]

  right_fixed :
      (h : ℕ) (l : Tree K V) (k : K) (v : V) (r : Tree K V)
      → Avl l
      → Avl r
      → height r ≡ height l + 2
      → let t = rotate_left (node h l k v (if is_left_heavy r then rotate_right r else r)) in
        Avl t × (height t ≤ height r + 1) × (height r ≤ height t)
  unfolding rotate_right rotate_left is_left_heavy
  right_fixed h l k v leaf a b e = absurd (omega arith)
  right_fixed h l k v (node hr leaf rk rv rr) a b e = ground arith
  right_fixed h l k v (node hr (node hm ml mk mv mr) rk rv rr) a b e =
      elim (Bool-cases (ltb (height rr) hm)) [
        | inl heavy ↦
            let lt = ltb→lt (height rr) hm heavy in
            rw heavy (
              (
                refl,
                omega arith,
                omega arith,
                (refl, omega arith, omega arith, a, b.3.3),
                (refl, omega arith, omega arith, b.3.4, b.4),
              ),
              omega arith,
              omega arith,
            )
        | inr light ↦
            let ge : hm ≤ height rr = ground arith in
            rw light (
              (refl, omega arith, omega arith, (refl, omega arith, omega arith, a, b.3), b.4),
              omega arith,
              omega arith,
            )
      ]

  -- Rebalancing a node whose subtrees are balanced and differ in height by 2 at most.
  pub rebalance-Avl :
      (h : ℕ) (l : Tree K V) (k : K) (v : V) (r : Tree K V)
      → Avl l
      → Avl r
      → height l ≤ height r + 2
      → height r ≤ height l + 2
      → let t = rebalance (node h l k v r) in
        Avl t
        × (height t ≤ max (height r) (height l) + 1)
        × (max (height r) (height l) ≤ height t)
        × (height l ≤ height r + 1
            → height r ≤ height l + 1
            → height t ≡ max (height r) (height l) + 1)
  unfolding rebalance balance update_own_height
  rebalance-Avl h l k v r a b p q =
      let h' = max (height r) (height l) + 1 in
      elim (Bool-cases (ltb (height r + 1) (height l))) [
        | inl left ↦
            let lt = ltb→lt (height r + 1) (height l) left in
            let (fixed, up, down) = left_fixed h' l k v r a b (omega arith) in
            rw left (fixed, omega arith, omega arith, λ x y. absurd (omega arith))
        | inr not_left ↦ elim (Bool-cases (ltb (height l + 1) (height r))) [
          | inl right ↦
              let lt = ltb→lt (height l + 1) (height r) right in
              let (fixed, up, down) = right_fixed h' l k v r a b (omega arith) in
              rw (not_left, right) (fixed, omega arith, omega arith, λ x y. absurd (omega arith))
          | inr not_right ↦
              let le : height l ≤ height r + 1 = ground arith in
              let ge : height r ≤ height l + 1 = ground arith in
              rw (not_left, not_right) ((refl, le, ge, a, b), omega arith, omega arith, λ x y. refl)
        ]
      ]

  pub to_list-rebalance : (t : Tree K V) → to_list (rebalance t) ≡ to_list t
  unfolding rebalance
  to_list-rebalance leaf = to_list-balance leaf
  to_list-rebalance (node h l k v r) =
      to_list-balance (node (max (height r) (height l) + 1) l k v r)
