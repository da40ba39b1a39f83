-- ===== src/Kstd/Map/Erase.antt =====
-- `kstd::map::erase` (kernel/kstd/map.hpp): the loop keeps the tree balanced and does to its
-- entries what the reference removal does.
use mathlib.Core.List.{append_assoc, append-nil}
use nusa_os.Common.{
  ℕ, ◌+◌, ◌≤◌, ◌≡◌, ◌≢◌, refl, ◌∙◌, sym, ap, Bool, true, false, Option, none, some, [], ◌∷◌, ◌++◌,
  dec_lt, arith, Bool-cases, inl, inr,
}
use nusa_os.Kstd.Map.Key.{KeyOrder}
use nusa_os.Kstd.Map.Spec.{
  Sorted, lookup, remove, Sorted-split, lookup-left, lookup-right, lookup-here,
}
use nusa_os.Kstd.Map.Updates.{remove-left, remove-right, remove-here}
use nusa_os.Kstd.Map.Balance.{Avl, to_list, rebalance-Avl, to_list-rebalance}
use nusa_os.Kstd.Map.{
  Tree, leaf, node, height, rebalance, split_min, split_max, replace, erase_from,
}

module _ {ℓ κ} {K : Type ℓ} {V : Type κ} where
  -- A balanced tree that took the place of one of height `n` and shrank by 1 at most.
  abbrev pub Shrunk : ℕ → Tree K V → Type 0
  Shrunk n t = Avl t × (height t ≤ n) × (n ≤ height t + 1)

  shrink_left :
      (h : ℕ) (l l' : Tree K V) (k k' : K) (v v' : V) (r : Tree K V)
      → Avl (node h l k v r)
      → Shrunk (height l) l'
      → Shrunk h (rebalance (node h l' k' v' r))
  shrink_left h l l' k k' v v' r a s =
      let (fixed, up, down, same) =
        rebalance-Avl h l' k' v' r s.0 a.4 (omega arith) (omega arith) in
      (
        fixed,
        omega arith,
        elim (dec_lt (height l' + 1) (height r)) [
          | yes low ↦ omega arith
          | no fine ↦ let exact = same (omega arith) (omega arith) in omega arith
        ],
      )

  shrink_right :
      (h : ℕ) (l : Tree K V) (k k' : K) (v v' : V) (r r' : Tree K V)
      → Avl (node h l k v r)
      → Shrunk (height r) r'
      → Shrunk h (rebalance (node h l k' v' r'))
  shrink_right h l k k' v v' r r' a s =
      let (fixed, up, down, same) =
        rebalance-Avl h l k' v' r' a.3 s.0 (omega arith) (omega arith) in
      (
        fixed,
        omega arith,
        elim (dec_lt (height r' + 1) (height l)) [
          | yes low ↦ omega arith
          | no fine ↦ let exact = same (omega arith) (omega arith) in omega arith
        ],
      )

  -- The entries of a subtree are the one cut out and those that remain.
  to_list-split_min :
      (h : ℕ) (l : Tree K V) (k : K) (v : V) (r : Tree K V)
      → let (p, t) = split_min h l k v r in p ∷ to_list t ≡ to_list (node h l k v r)
  unfolding split_min
  to_list-split_min h leaf k v r = refl
  to_list-split_min h (node h' l' k' v' r') k v r =
      let (p, t) = split_min h' l' k' v' r' in
      ap (◌∷◌ p) (to_list-rebalance (node h t k v r))
      ∙ ap (λ x. x ++ ((k, v) ∷ to_list r)) (to_list-split_min h' l' k' v' r')

  split_min-Shrunk :
      (h : ℕ) (l : Tree K V) (k : K) (v : V) (r : Tree K V)
      → Avl (node h l k v r)
      → Shrunk h (split_min h l k v r).1
  unfolding split_min
  split_min-Shrunk h leaf k v r a = (a.4, omega arith, omega arith)
  split_min-Shrunk h (node h' l' k' v' r') k v r a =
      shrink_left h (node h' l' k' v' r') _ k k v v r a (split_min-Shrunk h' l' k' v' r' a.3)

  to_list-split_max :
      (h : ℕ) (l : Tree K V) (k : K) (v : V) (r : Tree K V)
      → let (p, t) = split_max h l k v r in to_list t ++ (p ∷ []) ≡ to_list (node h l k v r)
  unfolding split_max
  to_list-split_max h l k v leaf = refl
  to_list-split_max h l k v (node h' l' k' v' r') =
      let (p, t) = split_max h' l' k' v' r' in
      ap (λ x. x ++ (p ∷ [])) (to_list-rebalance (node h l k v t))
      ∙ append_assoc (to_list l) ((k, v) ∷ to_list t) (p ∷ [])
      ∙ ap (λ x. to_list l ++ ((k, v) ∷ x)) (to_list-split_max h' l' k' v' r')

  split_max-Shrunk :
      (h : ℕ) (l : Tree K V) (k : K) (v : V) (r : Tree K V)
      → Avl (node h l k v r)
      → Shrunk h (split_max h l k v r).1
  unfolding split_max
  split_max-Shrunk h l k v leaf a = (a.3, omega arith, omega arith)
  split_max-Shrunk h l k v (node h' l' k' v' r') a =
      shrink_right h l k k v v (node h' l' k' v' r') _ a (split_max-Shrunk h' l' k' v' r' a.4)

  -- `replace` drops the entry of the node and keeps the others in order.
  to_list-replace :
      (is_right : Bool) (h : ℕ) (l r : Tree K V)
      → to_list (replace is_right h l r) ≡ to_list l ++ to_list r
  unfolding replace
  to_list-replace true h leaf leaf = refl
  to_list-replace false h leaf leaf = refl
  to_list-replace true h leaf (node h' l' k' v' r') =
      let (p, t) = split_min h' l' k' v' r' in
      to_list-rebalance (node h leaf p.0 p.1 t) ∙ to_list-split_min h' l' k' v' r'
  to_list-replace true h (node hl ll lk lv lr) (node h' l' k' v' r') =
      let (p, t) = split_min h' l' k' v' r' in
      to_list-rebalance (node h (node hl ll lk lv lr) p.0 p.1 t)
      ∙ ap (λ x. to_list (node hl ll lk lv lr) ++ x) (to_list-split_min h' l' k' v' r')
  to_list-replace true h (node h' l' k' v' r') leaf =
      to_list-rebalance (node h l' k' v' r') ∙ sym (append-nil (to_list (node h' l' k' v' r')))
  to_list-replace false h leaf (node h' l' k' v' r') = to_list-rebalance (node h l' k' v' r')
  to_list-replace false h (node h' l' k' v' r') r =
      let (p, t) = split_max h' l' k' v' r' in
      to_list-rebalance (node h t p.0 p.1 r)
      ∙ sym (append_assoc (to_list t) (p ∷ []) (to_list r))
      ∙ ap (λ x. x ++ to_list r) (to_list-split_max h' l' k' v' r')

  replace-Shrunk :
      (is_right : Bool) (h : ℕ) (l : Tree K V) (k : K) (v : V) (r : Tree K V)
      → Avl (node h l k v r)
      → Shrunk h (replace is_right h l r)
  unfolding replace
  replace-Shrunk true h leaf k v leaf a = (tt, omega arith, omega arith)
  replace-Shrunk false h leaf k v leaf a = (tt, omega arith, omega arith)
  replace-Shrunk true h leaf k v (node h' l' k' v' r') a =
      let (p, t) = split_min h' l' k' v' r' in
      shrink_right h leaf k p.0 v p.1 (node h' l' k' v' r') t a
        (split_min-Shrunk h' l' k' v' r' a.4)
  replace-Shrunk true h (node hl ll lk lv lr) k v (node h' l' k' v' r') a =
      let (p, t) = split_min h' l' k' v' r' in
      shrink_right h (node hl ll lk lv lr) k p.0 v p.1 (node h' l' k' v' r') t a
        (split_min-Shrunk h' l' k' v' r' a.4)
  replace-Shrunk true h (node h' l' k' v' r') k v leaf a =
      let (fixed, up, down, same) =
        rebalance-Avl h l' k' v' r' a.3.3 a.3.4 (omega arith) (omega arith) in
      let exact = same (omega arith) (omega arith) in (fixed, omega arith, omega arith)
  replace-Shrunk false h leaf k v (node h' l' k' v' r') a =
      let (fixed, up, down, same) =
        rebalance-Avl h l' k' v' r' a.4.3 a.4.4 (omega arith) (omega arith) in
      let exact = same (omega arith) (omega arith) in (fixed, omega arith, omega arith)
  replace-Shrunk false h (node h' l' k' v' r') k v r a =
      let (p, t) = split_max h' l' k' v' r' in
      shrink_left h (node h' l' k' v' r') t k p.0 v p.1 r a (split_max-Shrunk h' l' k' v' r' a.3)

  abbrev pub Erasing : Tree K V → Option (Tree K V) → Type 0
  Erasing t none = Unit
  Erasing t (some t') = Shrunk (height t) t'

  left-Erasing :
      (h : ℕ) (l : Tree K V) (k : K) (v : V) (r : Tree K V) (from : Option (Tree K V))
      → Avl (node h l k v r)
      → Erasing l from
      → Erasing
          (node h l k v r)
          (elim from [ none ↦ none | some l' ↦ some (rebalance (node h l' k v r)) ])
  left-Erasing h l k v r none a e = tt
  left-Erasing h l k v r (some l') a e = shrink_left h l l' k k v v r a e

  right-Erasing :
      (h : ℕ) (l : Tree K V) (k : K) (v : V) (r : Tree K V) (from : Option (Tree K V))
      → Avl (node h l k v r)
      → Erasing r from
      → Erasing
          (node h l k v r)
          (elim from [ none ↦ none | some r' ↦ some (rebalance (node h l k v r')) ])
  right-Erasing h l k v r none a e = tt
  right-Erasing h l k v r (some r') a e = shrink_right h l k k v v r r' a e

module _ {ℓ} {K V : Type ℓ} ⦃o : KeyOrder K⦄ where
  pub erase_from-Erasing :
      (key : K) (is_right : Bool) (t : Tree K V) → Avl t → Erasing t (erase_from key is_right t)
  unfolding erase_from
  erase_from-Erasing key is_right leaf a = tt
  erase_from-Erasing key is_right (node h l k v r) a = elim (Bool-cases (o.eq k key)) [
    | inl here ↦ rw here (replace-Shrunk is_right h l k v r a)
    | inr other ↦ elim (Bool-cases (o.lt key k)) [
      | inl left ↦
          rw (other, left)
            (left-Erasing h l k v r (erase_from key false l) a (erase_from-Erasing key false l a.3))
      | inr right ↦
          rw (other, right)
            (right-Erasing h l k v r (erase_from key true r) a (erase_from-Erasing key true r a.4))
    ]
  ]

  -- What `erase` does to the entries: nothing if the key is missing, else the reference removal.
  abbrev pub Erased : K → Tree K V → Option (Tree K V) → Type ℓ
  Erased key t none = lookup key (to_list t) ≡ none
  Erased key t (some t') = (lookup key (to_list t) ≢ none) × (to_list t' ≡ remove key (to_list t))

  module _ (key : K) (h : ℕ) (l : Tree K V) (k : K) (v : V) (r : Tree K V)
      (s : Sorted (to_list (node h l k v r))) where
    left-Erased :
        (from : Option (Tree K V))
        → o.lt key k ≡ true
        → Erased key l from
        → Erased key
            (node h l k v r)
            (elim from [ none ↦ none | some l' ↦ some (rebalance (node h l' k v r)) ])
    left-Erased none lt e =
        let (a, b, c, d) = Sorted-split (to_list l) (k, v) (to_list r) s in
        lookup-left key (to_list l) (k, v) (to_list r) lt c ∙ e
    left-Erased (some l') lt e =
        let (a, b, c, d) = Sorted-split (to_list l) (k, v) (to_list r) s in
        (
          λ gone. e.0 (sym (lookup-left key (to_list l) (k, v) (to_list r) lt c) ∙ gone),
          to_list-rebalance (node h l' k v r)
              ∙ ap (λ x. x ++ ((k, v) ∷ to_list r)) e.1
              ∙ sym (remove-left key (to_list l) (k, v) (to_list r) lt c),
        )

    right-Erased :
        (from : Option (Tree K V))
        → o.lt k key ≡ true
        → Erased key r from
        → Erased key
            (node h l k v r)
            (elim from [ none ↦ none | some r' ↦ some (rebalance (node h l k v r')) ])
    right-Erased none lt e =
        let (a, b, c, d) = Sorted-split (to_list l) (k, v) (to_list r) s in
        lookup-right key (to_list l) (k, v) (to_list r) lt b ∙ e
    right-Erased (some r') lt e =
        let (a, b, c, d) = Sorted-split (to_list l) (k, v) (to_list r) s in
        (
          λ gone. e.0 (sym (lookup-right key (to_list l) (k, v) (to_list r) lt b) ∙ gone),
          to_list-rebalance (node h l k v r')
              ∙ ap (λ x. to_list l ++ ((k, v) ∷ x)) e.1
              ∙ sym (remove-right key (to_list l) (k, v) (to_list r) lt b),
        )

  pub erase_from-Erased :
      (key : K) (is_right : Bool) (t : Tree K V)
      → Sorted (to_list t)
      → Erased key t (erase_from key is_right t)
  unfolding erase_from lookup
  erase_from-Erased key is_right leaf s = refl
  erase_from-Erased key is_right (node h l k v r) s =
      let (a, b, c, d) = Sorted-split (to_list l) (k, v) (to_list r) s in
      elim (Bool-cases (o.eq k key)) [
        | inl here ↦ rw here (
          λ gone. cc (lookup-here key (to_list l) (k, v) (to_list r) here b),
          to_list-replace is_right h l r
              ∙ sym (remove-here key (to_list l) (k, v) (to_list r) here b),
        )
        | inr other ↦ elim (Bool-cases (o.lt key k)) [
          | inl left ↦
              rw (other, left)
                (left-Erased key h l k v r s (erase_from key false l) left
                  (erase_from-Erased key false l a))
          | inr right ↦
              rw (other, right)
                (right-Erased key h l k v r s (erase_from key true r) (o.lt_total key k right other)
                  (erase_from-Erased key true r d))
        ]
      ]
