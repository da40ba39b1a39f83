-- ===== src/Kstd/Map/Refine.antt =====
-- `kstd::map` (kernel/kstd/map.hpp) as a finite map: what a lookup finds after each operation, and
-- that the tree stays balanced, ordered and counted.
use nusa_os.Common.{
  ◌+◌, ◌-◌, ◌≡◌, ◌≢◌, refl, ◌∙◌, subst, Bool, true, false, Option, none, some, List, [], ◌∷◌,
  if◌then◌else◌, arith, Bool-cases, Option-cases, eq_of_some, inl, inr, length,
}
use mathlib.Core.Logic.{◌↔◌}
use mathlib.Core.Option.{get_or}
use nusa_os.Kstd.Map.Key.{KeyOrder}
use nusa_os.Kstd.Map.Spec.{
  Sorted, lookup, insert_sorted, remove, Sorted-split, lookup-left, lookup-right, lookup-here,
}
use nusa_os.Kstd.Map.Updates.{
  insert_sorted-Sorted, remove-Sorted, lookup-insert_sorted, lookup-remove,
}
use nusa_os.Kstd.Map.Balance.{Avl, to_list}
use nusa_os.Kstd.Map.Insert.{insert_from-Grown, insert_from-Inserted, Grown, Inserted}
use nusa_os.Kstd.Map.Erase.{erase_from-Erasing, erase_from-Erased, Erasing, Erased}
use nusa_os.Kstd.Map.{
  Tree, leaf, node, Map, find_node, insert_from, erase_from, get, contains, insert, erase,
  subscript,
}

module _ {ℓ} {K V : Type ℓ} ⦃o : KeyOrder K⦄ where
  pub find_node-lookup :
      (key : K) (t : Tree K V) → Sorted (to_list t) → find_node key t ≡ lookup key (to_list t)
  unfolding find_node lookup
  find_node-lookup key leaf s = refl
  find_node-lookup key (node h l k v r) s =
      let (a, b, c, d) = Sorted-split (to_list l) (k, v) (to_list r) s in
      elim (Bool-cases (o.eq k key)) [
        | inl here ↦ rw (here, lookup-here key (to_list l) (k, v) (to_list r) here b)
        | inr other ↦ elim (Bool-cases (o.lt key k)) [
          | inl left ↦
              rw (other, left, lookup-left key (to_list l) (k, v) (to_list r) left c)
                (find_node-lookup key l a)
          | inr right ↦
              rw
                (
                  other,
                  right,
                  lookup-right key (to_list l) (k, v) (to_list r) (o.lt_total key k right other) b,
                )
                (find_node-lookup key r d)
        ]
      ]

  length-insert_sorted :
      (key : K) (val : V) (xs : List (K × V)) → length (insert_sorted key val xs) ≡ length xs + 1
  unfolding insert_sorted
  length-insert_sorted key val [] = omega arith
  length-insert_sorted key val (p ∷ xs) = ground (arith, length-insert_sorted key val xs)

  length-remove :
      (key : K) (xs : List (K × V)) → lookup key xs ≢ none → length (remove key xs) + 1 ≡ length xs
  unfolding remove lookup
  length-remove key [] h = absurd (h refl)
  length-remove key (p ∷ xs) h = elim (Bool-cases (o.eq p.0 key)) [
    | inl hit ↦ rw hit (omega arith)
    | inr miss ↦ rw miss (omega (arith, length-remove key xs (rw miss at h)))
  ]

  -- Balanced, in key order, and of the size that is counted.
  pub record IsValid (m : Map K V) : Type ℓ where
    pub balanced : Avl m.root
    pub sorted : Sorted (to_list m.root)
    pub counted : m.size ≡ length (to_list m.root)

  insert-inv :
      (key : K) (val : V) (m m' : Map K V)
      → IsValid m
      → insert key val m ≡ some m'
      → IsValid m'
        × (lookup key (to_list m.root) ≡ none)
        × (to_list m'.root ≡ insert_sorted key val (to_list m.root))
  unfolding insert
  insert-inv key val m m' i e =
      go (insert_from key val m.root) (insert_from-Grown key val m.root i.balanced)
        (insert_from-Inserted key val m.root i.sorted) e
    where
      go :
          (r : Option (Tree K V × Bool))
          → Grown m.root r
          → Inserted key val m.root r
          → (elim r [
            | none ↦ none
            | some (t, climbing) ↦ some (record { root = t; size = m.size + 1 })
          ])
            ≡ some m'
          → IsValid m'
            × (lookup key (to_list m.root) ≡ none)
            × (to_list m'.root ≡ insert_sorted key val (to_list m.root))
      go none g j e = cc
      go (some (t, climbing)) g j e =
          let same : record { root = t; size = m.size + 1 } ≡ m' = eq_of_some e in
          subst
            (λ x.
              IsValid x
              × (lookup key (to_list m.root) ≡ none)
              × (to_list x.root ≡ insert_sorted key val (to_list m.root)))
            same
            (
              record {
                balanced = g.0;
                sorted = rw j.1 (insert_sorted-Sorted key val (to_list m.root) j.0 i.sorted);
                counted =
                    rw j.1
                      (omega (arith, length-insert_sorted key val (to_list m.root), i.counted));
              },
              j.0,
              j.1,
            )

  -- A successful `insert` keeps the map valid, and the key was not there. A lookup then finds the new
  -- value at the key, and at any other key what it found before.
  pub get-insert :
      (key j : K) (val : V) (m m' : Map K V)
      → IsValid m
      → insert key val m ≡ some m'
      → IsValid m' × (get key m ≡ none) × (get j m' ≡ (if o.eq key j then some val else get j m))
  unfolding get
  get-insert key j val m m' i e =
      let (i', fresh, list) = insert-inv key val m m' i e in
      (
        i',
        find_node-lookup key m.root i.sorted ∙ fresh,
        rw (find_node-lookup j m'.root i'.sorted, find_node-lookup j m.root i.sorted, list)
            (lookup-insert_sorted key j val (to_list m.root) fresh),
      )

  -- `insert` gives a null pointer exactly when the key is there.
  pub insert_fails :
      (key : K) (val : V) (m : Map K V)
      → IsValid m
      → (insert key val m ≡ none) ↔ (contains key m ≡ true)
  unfolding insert contains
  insert_fails key val m i =
      rw (find_node-lookup key m.root i.sorted, contains)
        (go (insert_from key val m.root) (insert_from-Inserted key val m.root i.sorted))
    where
      go :
          (r : Option (Tree K V × Bool))
          → Inserted key val m.root r
          → (elim r as (λ _. Option (Map K V)) [
            | none ↦ none
            | some (t, climbing) ↦ some (record { root = t; size = m.size + 1 })
          ]
              ≡ none)
            ↔ (elim (lookup key (to_list m.root)) as (λ _. Bool) [ none ↦ false | some v ↦ true ]
                ≡ true)
      go none j = elim (Option-cases (lookup key (to_list m.root))) [
        | inl gone ↦ absurd (j gone)
        | inr (v, there) ↦ rw there (λ _. refl, λ _. refl)
      ]
      go (some (t, climbing)) j = rw j.0 (λ e. cc, λ e. cc)

  -- `erase` keeps the map valid. A lookup then finds nothing at the key, and at any other key what it
  -- found before; the size falls by 1 if the key was there, and stays otherwise.
  pub get-erase :
      (key j : K) (m : Map K V)
      → IsValid m
      → IsValid (erase key m)
        × (get j (erase key m) ≡ (if o.eq key j then none else get j m))
        × ((erase key m).size + (if contains key m then 1 else 0) ≡ m.size)
  unfolding erase get contains
  get-erase key j m i =
      go (erase_from key true m.root) (erase_from-Erasing key true m.root i.balanced)
        (erase_from-Erased key true m.root i.sorted)
    where
      go :
          (r : Option (Tree K V))
          → Erasing m.root r
          → Erased key m.root r
          → let m' : Map K V = elim r [
            | none ↦ m
            | some t ↦ record { root = t; size = m.size - 1 }
          ] in
            IsValid m'
            × (find_node j m'.root ≡ (if o.eq key j then none else find_node j m.root))
            × (m'.size + (if contains key m then 1 else 0) ≡ m.size)
      go none g gone =
          let miss = find_node-lookup key m.root i.sorted ∙ gone in
          (
            i,
            elim (Bool-cases (o.eq key j)) [
              | inl same ↦
                  rw same (subst (λ x. find_node x m.root ≡ none) ((o.eq_iff key j).0 same) miss)
              | inr other ↦ rw other
            ],
            rw (miss, contains) (omega arith),
          )
      go (some t) g (there, list) =
          let shorter = length-remove key (to_list m.root) there in
          let sorted : Sorted (to_list t) = rw list (remove-Sorted key (to_list m.root) i.sorted) in
          (
            record {
              balanced = g.0;
              sorted = sorted;
              counted = rw list (omega (arith, i.counted));
            },
            rw (find_node-lookup j t sorted, find_node-lookup j m.root i.sorted, list)
                (lookup-remove key j (to_list m.root) i.sorted),
            elim (Option-cases (lookup key (to_list m.root))) [
              | inl gone ↦ absurd (there gone)
              | inr (v, hit) ↦
                  rw (find_node-lookup key m.root i.sorted, hit, contains)
                    (omega (arith, i.counted))
            ],
          )

  contains_missing : (key : K) (m : Map K V) → get key m ≡ none → contains key m ≡ false
  unfolding contains get
  contains_missing key m gone = rw (gone, contains)

  subscript-there :
      (key : K) (fresh v : V) (m : Map K V) → get key m ≡ some v → subscript key fresh m ≡ (v, m)
  unfolding subscript
  subscript-there key fresh v m e = rw (e, subscript)

  subscript-new :
      (key : K) (fresh : V) (m m' : Map K V)
      → get key m ≡ none
      → insert key fresh m ≡ some m'
      → subscript key fresh m ≡ (fresh, m')
  unfolding subscript
  subscript-new key fresh m m' e f = rw (e, f, subscript)

  -- `operator[]` gives the value at the key, or inserts the fresh one there; every other key keeps
  -- its value.
  pub get-subscript :
      (key j : K) (fresh : V) (m : Map K V)
      → IsValid m
      → let (v, m') = subscript key fresh m in
        IsValid m'
        × (v ≡ get_or (get key m) fresh)
        × (get j m' ≡ (if o.eq key j then some v else get j m))
  get-subscript key j fresh m i = elim (Option-cases (get key m)) [
    | inl gone ↦ elim (Option-cases (insert key fresh m)) [
      | inl full ↦ cc (contains_missing key m gone, (insert_fails key fresh m i).0 full)
      | inr (m', done) ↦
          let (i', _, found) = get-insert key j fresh m m' i done in
          rw (subscript-new key fresh m m' gone done, gone) (i', refl, found)
    ]
    | inr (v, there) ↦ rw (subscript-there key fresh v m there, there) (i, refl, at_key v there)
  ]
    where
      at_key : (v : V) → get key m ≡ some v → get j m ≡ (if o.eq key j then some v else get j m)
      at_key v there = elim (Bool-cases (o.eq key j)) [
        | inl same ↦ rw same (subst (λ x. get x m ≡ some v) ((o.eq_iff key j).0 same) there)
        | inr other ↦ rw other
      ]
