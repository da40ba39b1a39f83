-- ===== src/Kstd/Map/Updates.antt =====
-- The reference insertion and removal on sorted lists: where they act in a list that is split round
-- an entry, and what a lookup finds afterwards.
use nusa_os.Common.{
  ◌≡◌, refl, ◌∙◌, sym, ap, subst, true, false, none, some, List, [], ◌∷◌, ◌++◌, if◌then◌else◌,
  arith, Bool-cases, inl, inr,
}
use nusa_os.Kstd.Map.Key.{KeyOrder, lt-ne, lt-ne', lt-asymm, eq-apart}
use nusa_os.Kstd.Map.Spec.{
  Below, Above, Sorted, lookup, lookup-Above, insert_sorted, remove, Above-trans,
}

module _ {ℓ κ} {K : Type ℓ} {V : Type κ} ⦃o : KeyOrder K⦄ where
  pub insert_sorted-left :
      (key : K) (val : V) (xs : List (K × V)) (p : K × V) (ys : List (K × V))
      → o.lt key p.0 ≡ true
      → insert_sorted key val (xs ++ (p ∷ ys)) ≡ insert_sorted key val xs ++ (p ∷ ys)
  unfolding insert_sorted
  insert_sorted-left key val [] p ys h = rw h
  insert_sorted-left key val (x ∷ xs) p ys h = elim (Bool-cases (o.lt key x.0)) [
    | inl lt ↦ rw lt
    | inr ge ↦ rw ge (ap (◌∷◌ x) (insert_sorted-left key val xs p ys h))
  ]

  pub insert_sorted-right :
      (key : K) (val : V) (xs : List (K × V)) (p : K × V) (ys : List (K × V))
      → o.lt p.0 key ≡ true
      → Below p.0 xs
      → insert_sorted key val (xs ++ (p ∷ ys)) ≡ xs ++ (p ∷ insert_sorted key val ys)
  unfolding insert_sorted
  insert_sorted-right key val [] p ys h below = rw (lt-asymm p.0 key h)
  insert_sorted-right key val (x ∷ xs) p ys h below =
      rw (lt-asymm x.0 key (o.lt_trans x.0 p.0 key below.0 h))
        (ap (◌∷◌ x) (insert_sorted-right key val xs p ys h below.1))

  pub remove-left :
      (key : K) (xs : List (K × V)) (p : K × V) (ys : List (K × V))
      → o.lt key p.0 ≡ true
      → Above p.0 ys
      → remove key (xs ++ (p ∷ ys)) ≡ remove key xs ++ (p ∷ ys)
  unfolding remove
  remove-left key [] p ys h above =
      rw (lt-ne' key p.0 h) (ap (◌∷◌ p) (remove-above ys (Above-trans key p.0 ys h above)))
    where
      remove-above : (ys : List (K × V)) → Above key ys → remove key ys ≡ ys
      remove-above [] a = refl
      remove-above (y ∷ ys) a = rw (lt-ne' key y.0 a.0) (ap (◌∷◌ y) (remove-above ys a.1))
  remove-left key (x ∷ xs) p ys h above = elim (Bool-cases (o.eq x.0 key)) [
    | inl hit ↦ rw hit
    | inr miss ↦ rw miss (ap (◌∷◌ x) (remove-left key xs p ys h above))
  ]

  pub remove-right :
      (key : K) (xs : List (K × V)) (p : K × V) (ys : List (K × V))
      → o.lt p.0 key ≡ true
      → Below p.0 xs
      → remove key (xs ++ (p ∷ ys)) ≡ xs ++ (p ∷ remove key ys)
  unfolding remove
  remove-right key [] p ys h below = rw (lt-ne p.0 key h)
  remove-right key (x ∷ xs) p ys h below =
      rw (lt-ne x.0 key (o.lt_trans x.0 p.0 key below.0 h))
        (ap (◌∷◌ x) (remove-right key xs p ys h below.1))

  pub remove-here :
      (key : K) (xs : List (K × V)) (p : K × V) (ys : List (K × V))
      → o.eq p.0 key ≡ true
      → Below p.0 xs
      → remove key (xs ++ (p ∷ ys)) ≡ xs ++ ys
  unfolding remove
  remove-here key [] p ys h below = rw h
  remove-here key (x ∷ xs) p ys h below =
      let same = (o.eq_iff p.0 key).0 h in
      let apart : o.eq x.0 key ≡ false =
        subst (λ z. o.eq x.0 z ≡ false) same (lt-ne x.0 p.0 below.0) in
      rw apart (ap (◌∷◌ x) (remove-here key xs p ys h below.1))

  -- The lists stay sorted.
  insert_sorted-Above :
      (k key : K) (val : V) (xs : List (K × V))
      → o.lt k key ≡ true
      → Above k xs
      → Above k (insert_sorted key val xs)
  unfolding insert_sorted
  insert_sorted-Above k key val [] h above = (h, tt)
  insert_sorted-Above k key val (p ∷ xs) h above = elim (Bool-cases (o.lt key p.0)) [
    | inl lt ↦ rw lt (h, above)
    | inr ge ↦ rw ge (above.0, insert_sorted-Above k key val xs h above.1)
  ]

  pub insert_sorted-Sorted :
      (key : K) (val : V) (xs : List (K × V))
      → lookup key xs ≡ none
      → Sorted xs
      → Sorted (insert_sorted key val xs)
  unfolding insert_sorted lookup
  insert_sorted-Sorted key val [] fresh s = (tt, tt)
  insert_sorted-Sorted key val (p ∷ xs) fresh s = elim (Bool-cases (o.eq p.0 key)) [
    | inl hit ↦ cc (rw hit at fresh)
    | inr miss ↦ elim (Bool-cases (o.lt key p.0)) [
      | inl lt ↦ rw lt ((lt, Above-trans key p.0 xs lt s.0), s)
      | inr ge ↦ rw ge (
        insert_sorted-Above p.0 key val xs (o.lt_total key p.0 ge miss) s.0,
        insert_sorted-Sorted key val xs (rw miss at fresh) s.1,
      )
    ]
  ]

  remove-Above : (k key : K) (xs : List (K × V)) → Above k xs → Above k (remove key xs)
  unfolding remove
  remove-Above k key [] above = tt
  remove-Above k key (p ∷ xs) above = elim (Bool-cases (o.eq p.0 key)) [
    | inl hit ↦ rw hit above.1
    | inr miss ↦ rw miss (above.0, remove-Above k key xs above.1)
  ]

  pub remove-Sorted : (key : K) (xs : List (K × V)) → Sorted xs → Sorted (remove key xs)
  unfolding remove
  remove-Sorted key [] s = tt
  remove-Sorted key (p ∷ xs) s = elim (Bool-cases (o.eq p.0 key)) [
    | inl hit ↦ rw hit s.1
    | inr miss ↦ rw miss (remove-Above p.0 key xs s.0, remove-Sorted key xs s.1)
  ]

  -- What a lookup finds after an update.
  pub lookup-insert_sorted :
      (key j : K) (val : V) (xs : List (K × V))
      → lookup key xs ≡ none
      → lookup j (insert_sorted key val xs) ≡ (if o.eq key j then some val else lookup j xs)
  unfolding insert_sorted lookup
  lookup-insert_sorted key j val [] fresh = refl
  lookup-insert_sorted key j val (p ∷ xs) fresh = elim (Bool-cases (o.lt key p.0)) [
    | inl lt ↦ rw lt
    | inr ge ↦ rw ge (elim (Bool-cases (o.eq p.0 key)) [
      | inl hit ↦ cc (rw hit at fresh)
      | inr miss ↦ elim (Bool-cases (o.eq p.0 j)) [
        | inl here ↦ rw (here, eq-apart p.0 key j here miss)
        | inr there ↦ rw there (lookup-insert_sorted key j val xs (rw miss at fresh))
      ]
    ])
  ]

  pub lookup-remove :
      (key j : K) (xs : List (K × V))
      → Sorted xs
      → lookup j (remove key xs) ≡ (if o.eq key j then none else lookup j xs)
  unfolding remove lookup
  lookup-remove key j [] s = ground arith
  lookup-remove key j (p ∷ xs) s = elim (Bool-cases (o.eq p.0 key)) [
    | inl hit ↦
        let same = (o.eq_iff p.0 key).0 hit in
        rw hit (elim (Bool-cases (o.eq key j)) [
          | inl here ↦
              let gone =
                lookup-Above j xs (subst (λ z. Above z xs) (same ∙ (o.eq_iff key j).0 here) s.0) in
              rw (here, gone)
          | inr there ↦ rw (there, subst (λ z. o.eq z j ≡ false) (sym same) there)
        ])
    | inr miss ↦ rw miss (elim (Bool-cases (o.eq p.0 j)) [
      | inl here ↦ rw (here, eq-apart p.0 key j here miss)
      | inr there ↦ rw there (lookup-remove key j xs s.1)
    ])
  ]
