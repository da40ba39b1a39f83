-- ===== src/Kstd/Map/Insert.antt =====
-- `kstd::map::insert` (kernel/kstd/map.hpp): the loop keeps the tree balanced and does to its
-- entries what the reference insertion does.
use nusa_os.Common.{
  ℕ, ◌+◌, ◌≤◌, max, ◌≡◌, ◌≢◌, refl, ◌∙◌, sym, ap, Bool, true, false, Option, none, some, ◌∷◌, ◌++◌,
  ◌==◌, dec_lt, arith, Bool-cases, inl, inr,
}
use nusa_os.Kstd.Map.Key.{KeyOrder}
use nusa_os.Kstd.Map.Spec.{
  Sorted, lookup, insert_sorted, Sorted-split, lookup-left, lookup-right, lookup-here,
}
use nusa_os.Kstd.Map.Updates.{insert_sorted-left, insert_sorted-right}
use nusa_os.Kstd.Map.Balance.{Avl, to_list, rebalance-Avl, to_list-rebalance}
use nusa_os.Kstd.Map.{Tree, leaf, node, height, is_node, climbs, settle, insert_from}

module _ {ℓ κ} {K : Type ℓ} {V : Type κ} where
  -- A node after one of its subtrees changed, where it is settled only if that is needed.
  settle-Avl :
      (c : Bool) (h : ℕ) (l : Tree K V) (k : K) (v : V) (r : Tree K V)
      → Avl l
      → Avl r
      → height l ≤ height r + 2
      → height r ≤ height l + 2
      → (c ≡ false
          → (h ≡ max (height r) (height l) + 1)
            × (height l ≤ height r + 1)
            × (height r ≤ height l + 1))
      → let t = settle c (node h l k v r) in
        Avl t
        × (height t ≤ max (height r) (height l) + 1)
        × (max (height r) (height l) ≤ height t)
        × (height l ≤ height r + 1
            → height r ≤ height l + 1
            → height t ≡ max (height r) (height l) + 1)
  settle-Avl true h l k v r a b p q f = rebalance-Avl h l k v r a b p q
  settle-Avl false h l k v r a b p q f =
      let (e, x, y) = f refl in ((e, x, y, a, b), omega arith, omega arith, λ _ _. e)

  -- What one round of `insert` leaves of a balanced subtree: it is balanced, it grew by 1 at most,
  -- and it did not grow if the climb stopped.
  abbrev pub Grown : Tree K V → Option (Tree K V × Bool) → Type 0
  Grown t none = Unit
  Grown t (some (t', c)) =
      Avl t'
      × (height t ≤ height t')
      × (height t' ≤ height t + 1)
      × (is_node t ≡ true → c ≡ false → height t' ≡ height t)

  left-Grown :
      (h : ℕ) (l : Tree K V) (k : K) (v : V) (r : Tree K V) (into : Option (Tree K V × Bool))
      → Avl (node h l k v r)
      → Grown l into
      → Grown (node h l k v r) (elim into [
        | none ↦ none
        | some (l', climbing) ↦ let c = climbs h l climbing in some (settle c (node h l' k v r), c)
      ])
  left-Grown h l k v r none a g = tt
  left-Grown h leaf k v r (some (l', climbing)) a g =
      let (fixed, up, down, same) =
        settle-Avl (h == 1) h l' k v r g.0 a.4 (omega arith) (omega arith)
          (λ stop. let ne : h ≢ 1 = ground arith in omega arith) in
      (fixed, omega arith, omega arith, λ _ stop. let ne : h ≢ 1 = ground arith in omega arith)
  left-Grown h (node hl ll lk lv lr) k v r (some (l', climbing)) a g =
      let (fixed, up, down, same) =
        settle-Avl climbing h l' k v r g.0 a.4 (omega arith) (omega arith)
          (λ stop. let kept = g.3 refl stop in omega arith) in
      (
        fixed,
        elim (dec_lt (height r + 1) (height l')) [
          | yes high ↦ omega arith
          | no low ↦ let exact = same (omega arith) (omega arith) in omega arith
        ],
        omega arith,
        λ _ stop.
            let kept = g.3 refl stop in let exact = same (omega arith) (omega arith) in omega arith,
      )

  right-Grown :
      (h : ℕ) (l : Tree K V) (k : K) (v : V) (r : Tree K V) (into : Option (Tree K V × Bool))
      → Avl (node h l k v r)
      → Grown r into
      → Grown (node h l k v r) (elim into [
        | none ↦ none
        | some (r', climbing) ↦ let c = climbs h r climbing in some (settle c (node h l k v r'), c)
      ])
  right-Grown h l k v r none a g = tt
  right-Grown h l k v leaf (some (r', climbing)) a g =
      let (fixed, up, down, same) =
        settle-Avl (h == 1) h l k v r' a.3 g.0 (omega arith) (omega arith)
          (λ stop. let ne : h ≢ 1 = ground arith in omega arith) in
      (fixed, omega arith, omega arith, λ _ stop. let ne : h ≢ 1 = ground arith in omega arith)
  right-Grown h l k v (node hr rl rk rv rr) (some (r', climbing)) a g =
      let (fixed, up, down, same) =
        settle-Avl climbing h l k v r' a.3 g.0 (omega arith) (omega arith)
          (λ stop. let kept = g.3 refl stop in omega arith) in
      (
        fixed,
        elim (dec_lt (height l + 1) (height r')) [
          | yes high ↦ omega arith
          | no low ↦ let exact = same (omega arith) (omega arith) in omega arith
        ],
        omega arith,
        λ _ stop.
            let kept = g.3 refl stop in let exact = same (omega arith) (omega arith) in omega arith,
      )

  to_list-settle : (c : Bool) (t : Tree K V) → to_list (settle c t) ≡ to_list t
  to_list-settle true t = to_list-rebalance t
  to_list-settle false t = refl

module _ {ℓ} {K V : Type ℓ} ⦃o : KeyOrder K⦄ where
  pub insert_from-Grown :
      (key : K) (val : V) (t : Tree K V) → Avl t → Grown t (insert_from key val t)
  unfolding insert_from
  insert_from-Grown key val leaf a =
      ((refl, omega arith, omega arith, tt, tt), omega arith, omega arith, λ e. cc)
  insert_from-Grown key val (node h l k v r) a = elim (Bool-cases (o.eq k key)) [
    | inl there ↦ rw there tt
    | inr new ↦ elim (Bool-cases (o.lt key k)) [
      | inl left ↦
          rw (new, left)
            (left-Grown h l k v r (insert_from key val l) a (insert_from-Grown key val l a.3))
      | inr right ↦
          rw (new, right)
            (right-Grown h l k v r (insert_from key val r) a (insert_from-Grown key val r a.4))
    ]
  ]

  -- What `insert` does to the entries: nothing if the key is there, else the reference insertion.
  abbrev pub Inserted : K → V → Tree K V → Option (Tree K V × Bool) → Type ℓ
  Inserted key val t none = lookup key (to_list t) ≢ none
  Inserted key val t (some (t', c)) =
      (lookup key (to_list t) ≡ none) × (to_list t' ≡ insert_sorted key val (to_list t))

  left-Inserted :
      (key : K) (val : V) (h : ℕ) (l : Tree K V) (k : K) (v : V) (r : Tree K V)
      (into : Option (Tree K V × Bool))
      → Sorted (to_list (node h l k v r))
      → o.lt key k ≡ true
      → Inserted key val l into
      → Inserted key val (node h l k v r) (elim into [
        | none ↦ none
        | some (l', climbing) ↦ let c = climbs h l climbing in some (settle c (node h l' k v r), c)
      ])
  left-Inserted key val h l k v r none s lt i =
      let (a, b, c, d) = Sorted-split (to_list l) (k, v) (to_list r) s in
      rw (lookup-left key (to_list l) (k, v) (to_list r) lt c) i
  left-Inserted key val h l k v r (some (l', climbing)) s lt i =
      let (a, b, c, d) = Sorted-split (to_list l) (k, v) (to_list r) s in
      (
        lookup-left key (to_list l) (k, v) (to_list r) lt c ∙ i.0,
        to_list-settle (climbs h l climbing) (node h l' k v r)
            ∙ ap (λ x. x ++ ((k, v) ∷ to_list r)) i.1
            ∙ sym (insert_sorted-left key val (to_list l) (k, v) (to_list r) lt),
      )

  right-Inserted :
      (key : K) (val : V) (h : ℕ) (l : Tree K V) (k : K) (v : V) (r : Tree K V)
      (into : Option (Tree K V × Bool))
      → Sorted (to_list (node h l k v r))
      → o.lt k key ≡ true
      → Inserted key val r into
      → Inserted key val (node h l k v r) (elim into [
        | none ↦ none
        | some (r', climbing) ↦ let c = climbs h r climbing in some (settle c (node h l k v r'), c)
      ])
  right-Inserted key val h l k v r none s lt i =
      let (a, b, c, d) = Sorted-split (to_list l) (k, v) (to_list r) s in
      rw (lookup-right key (to_list l) (k, v) (to_list r) lt b) i
  right-Inserted key val h l k v r (some (r', climbing)) s lt i =
      let (a, b, c, d) = Sorted-split (to_list l) (k, v) (to_list r) s in
      (
        lookup-right key (to_list l) (k, v) (to_list r) lt b ∙ i.0,
        to_list-settle (climbs h r climbing) (node h l k v r')
            ∙ ap (λ x. to_list l ++ ((k, v) ∷ x)) i.1
            ∙ sym (insert_sorted-right key val (to_list l) (k, v) (to_list r) lt b),
      )

  pub insert_from-Inserted :
      (key : K) (val : V) (t : Tree K V)
      → Sorted (to_list t)
      → Inserted key val t (insert_from key val t)
  unfolding insert_from lookup insert_sorted
  insert_from-Inserted key val leaf s = (refl, refl)
  insert_from-Inserted key val (node h l k v r) s =
      let (a, b, c, d) = Sorted-split (to_list l) (k, v) (to_list r) s in
      elim (Bool-cases (o.eq k key)) [
        | inl there ↦ rw there (λ e. cc (lookup-here key (to_list l) (k, v) (to_list r) there b))
        | inr new ↦ elim (Bool-cases (o.lt key k)) [
          | inl left ↦
              rw (new, left)
                (left-Inserted key val h l k v r (insert_from key val l) s left
                  (insert_from-Inserted key val l a))
          | inr right ↦
              rw (new, right)
                (right-Inserted key val h l k v r (insert_from key val r) s
                  (o.lt_total key k right new) (insert_from-Inserted key val r d))
        ]
      ]
