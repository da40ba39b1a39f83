-- ===== src/Kstd/Map/Bounds.antt =====
-- How deep a search in `kstd::map` (kernel/kstd/map.hpp) goes.
use native.Mathlib.Nat.{pow-suc, pow-le-pow_right}
use nusa_os.Common.{
  ℕ, zero, suc, ◌+◌, ◌*◌, ◌^◌, ◌≤◌, ◌<◌, ◌≡◌, refl, some, Bool-cases, ◌∷◌, arith, length,
  length-append, ◌⊎◌, inl, inr,
}
use nusa_os.Kstd.Map.Key.{KeyOrder}
use nusa_os.Kstd.Map.Balance.{Avl, to_list}
use nusa_os.Kstd.Map.Refine.{IsValid}
use nusa_os.Kstd.Map.{Tree, leaf, node, height, Map, find_node, find_within}

total : (a b : ℕ) → (a ≤ b) ⊎ (b ≤ a)
total a b = omega arith

-- Both numbers reach a root of x, so their sum reaches a root of 4 x.
square_sum : (a b x : ℕ) → x ≤ a * a → x ≤ b * b → 2 * (2 * x) ≤ (a + b) * (a + b)
square_sum a b x p q = elim (total a b) [
  | inl le ↦ let prod : a * a ≤ a * b = grind arith in omega arith
  | inr ge ↦ let prod : b * b ≤ a * b = grind arith in omega arith
]

module _ {ℓ κ} {K : Type ℓ} {V : Type κ} where
  square_bound :
      (n : ℕ) (t : Tree K V)
      → Avl t
      → n ≤ height t
      → 2 ^ n ≤ (length (to_list t) + 1) * (length (to_list t) + 1)
  square_bound zero t a h = omega arith
  square_bound (suc n) leaf a h = absurd (omega arith)
  square_bound (suc zero) (node h l k v r) a le =
      let count = length-append (to_list l) ((k, v) ∷ to_list r) in rw count (omega arith)
  square_bound (suc (suc n)) (node h l k v r) a le =
      let count = length-append (to_list l) ((k, v) ∷ to_list r) in
      let left = square_bound n l a.3 (omega arith) in
      let right = square_bound n r a.4 (omega arith) in
      let sum = square_sum (length (to_list l) + 1) (length (to_list r) + 1) (2 ^ n) left right in
      rw (count, pow-suc, pow-suc) (omega arith)

module _ {ℓ} {K V : Type ℓ} ⦃o : KeyOrder K⦄ where
  find_within-eq :
      (rounds : ℕ) (key : K) (t : Tree K V)
      → Avl t
      → height t ≤ rounds
      → find_within rounds key t ≡ some (find_node key t)
  unfolding find_within find_node
  find_within-eq rounds key leaf a le = refl
  find_within-eq zero key (node h l k v r) a le = absurd (omega (arith, a.0, le))
  find_within-eq (suc rounds) key (node h l k v r) a le =
      let left = find_within-eq rounds key l a.3 (omega (arith, a.0, le)) in
      let right = find_within-eq rounds key r a.4 (omega (arith, a.0, le)) in
      elim (Bool-cases (o.eq k key)) [
        | inl e ↦ rw (e) refl
        | inr e ↦ elim (Bool-cases (o.lt key k)) [
          | inl lt ↦ rw (e, lt) left
          | inr ge ↦ rw (e, ge) right
        ]
      ]

  -- In a valid map the search loop is done within any number of rounds n for which 2^n is more than
  -- the square of the size plus 1, twice the binary logarithm of the size plus 1, and has then found
  -- what `find_node` stands for.
  pub find_within-rounds :
      (m : Map K V) (key : K) (rounds : ℕ)
      → IsValid m
      → (m.size + 1) * (m.size + 1) < 2 ^ rounds
      → find_within rounds key m.root ≡ some (find_node key m.root)
  find_within-rounds m key rounds i enough =
      let bound : 2 ^ height m.root ≤ (m.size + 1) * (m.size + 1) =
        rw i.counted (square_bound (height m.root) m.root i.balanced (omega arith)) in
      find_within-eq rounds key m.root i.balanced (elim (total (height m.root) rounds) [
        | inl le ↦ le
        | inr ge ↦
            let up : 2 ^ rounds ≤ 2 ^ height m.root = pow-le-pow_right {n = 2} (omega arith) ge in
            absurd (omega arith)
      ])
