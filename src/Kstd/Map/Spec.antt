-- ===== src/Kstd/Map/Spec.antt =====
-- The abstract view of `kstd::map`: the list of its entries in key order, with the reference
-- definitions of lookup, insertion and removal on such lists.
use nusa_os.Common.{
  ◌≡◌, refl, subst, true, false, Option, none, some, List, [], ◌∷◌, ◌++◌, if◌then◌else◌, All,
}
use nusa_os.Kstd.Map.Key.{KeyOrder, lt-ne, lt-ne'}

module _ {ℓ κ} {K : Type ℓ} {V : Type κ} ⦃o : KeyOrder K⦄ where
  abbrev pub Below : K → List (K × V) → Type 0
  Below k = All λ p. o.lt p.0 k ≡ true

  abbrev pub Above : K → List (K × V) → Type 0
  Above k = All λ p. o.lt k p.0 ≡ true

  abbrev pub Sorted : List (K × V) → Type 0
  Sorted [] = Unit
  Sorted (p ∷ xs) = Above p.0 xs × Sorted xs

  unfoldable pub lookup : K → List (K × V) → Option V
  lookup key [] = none
  lookup key (p ∷ xs) = if o.eq p.0 key then some p.1 else lookup key xs

  unfoldable pub insert_sorted : K → V → List (K × V) → List (K × V)
  insert_sorted key val [] = (key, val) ∷ []
  insert_sorted key val (p ∷ xs) =
      if o.lt key p.0 then (key, val) ∷ p ∷ xs else p ∷ insert_sorted key val xs

  unfoldable pub remove : K → List (K × V) → List (K × V)
  remove key [] = []
  remove key (p ∷ xs) = if o.eq p.0 key then xs else p ∷ remove key xs

  pub Above-trans : (a b : K) (xs : List (K × V)) → o.lt a b ≡ true → Above b xs → Above a xs
  Above-trans a b [] h all = tt
  Above-trans a b (p ∷ xs) h all = (o.lt_trans a b p.0 h all.0, Above-trans a b xs h all.1)

  pub Below-trans : (a b : K) (xs : List (K × V)) → o.lt a b ≡ true → Below a xs → Below b xs
  Below-trans a b [] h all = tt
  Below-trans a b (p ∷ xs) h all = (o.lt_trans p.0 a b all.0 h, Below-trans a b xs h all.1)

  -- A sorted list round an entry.
  pub Sorted-split :
      (xs : List (K × V)) (p : K × V) (ys : List (K × V))
      → Sorted (xs ++ (p ∷ ys))
      → Sorted xs × Below p.0 xs × Above p.0 ys × Sorted ys
  Sorted-split [] p ys s = (tt, tt, s.0, s.1)
  Sorted-split (x ∷ xs) p ys s =
      let (a, b, c, d) = Sorted-split xs p ys s.1 in
      let (e, f) = Above-split x.0 xs p ys s.0 in ((e, a), (f, b), c, d)
    where
      Above-split :
          (k : K) (xs : List (K × V)) (p : K × V) (ys : List (K × V))
          → Above k (xs ++ (p ∷ ys))
          → Above k xs × (o.lt k p.0 ≡ true)
      Above-split k [] p ys s = (tt, s.0)
      Above-split k (x ∷ xs) p ys s = let r = Above-split k xs p ys s.1 in ((s.0, r.0), r.1)

  pub Sorted-join :
      (xs : List (K × V)) (p : K × V) (ys : List (K × V))
      → Sorted xs
      → Below p.0 xs
      → Above p.0 ys
      → Sorted ys
      → Sorted (xs ++ (p ∷ ys))
  Sorted-join [] p ys a b c d = (c, d)
  Sorted-join (x ∷ xs) p ys a b c d = (
    Above-join x.0 xs p ys a.0 b.0 (Above-trans x.0 p.0 ys b.0 c),
    Sorted-join xs p ys a.1 b.1 c d,
  )
    where
      Above-join :
          (k : K) (xs : List (K × V)) (p : K × V) (ys : List (K × V))
          → Above k xs
          → o.lt k p.0 ≡ true
          → Above k ys
          → Above k (xs ++ (p ∷ ys))
      Above-join k [] p ys a b c = (b, c)
      Above-join k (x ∷ xs) p ys a b c = (a.0, Above-join k xs p ys a.1 b c)

  pub lookup-Above : (key : K) (ys : List (K × V)) → Above key ys → lookup key ys ≡ none
  unfolding lookup
  lookup-Above key [] a = refl
  lookup-Above key (y ∷ ys) a = rw (lt-ne' key y.0 a.0) (lookup-Above key ys a.1)

  pub lookup-left :
      (key : K) (xs : List (K × V)) (p : K × V) (ys : List (K × V))
      → o.lt key p.0 ≡ true
      → Above p.0 ys
      → lookup key (xs ++ (p ∷ ys)) ≡ lookup key xs
  unfolding lookup
  lookup-left key [] p ys h above =
      rw (lt-ne' key p.0 h) (lookup-Above key ys (Above-trans key p.0 ys h above))
  lookup-left key (x ∷ xs) p ys h above = rw (lookup-left key xs p ys h above)

  pub lookup-right :
      (key : K) (xs : List (K × V)) (p : K × V) (ys : List (K × V))
      → o.lt p.0 key ≡ true
      → Below p.0 xs
      → lookup key (xs ++ (p ∷ ys)) ≡ lookup key ys
  unfolding lookup
  lookup-right key [] p ys h below = rw (lt-ne p.0 key h)
  lookup-right key (x ∷ xs) p ys h below =
      rw (lt-ne x.0 key (o.lt_trans x.0 p.0 key below.0 h)) (lookup-right key xs p ys h below.1)

  pub lookup-here :
      (key : K) (xs : List (K × V)) (p : K × V) (ys : List (K × V))
      → o.eq p.0 key ≡ true
      → Below p.0 xs
      → lookup key (xs ++ (p ∷ ys)) ≡ some p.1
  unfolding lookup
  lookup-here key [] p ys h below = rw h
  lookup-here key (x ∷ xs) p ys h below =
      let same = (o.eq_iff p.0 key).0 h in
      let apart : o.eq x.0 key ≡ false =
        subst (λ z. o.eq x.0 z ≡ false) same (lt-ne x.0 p.0 below.0) in
      rw apart (lookup-here key xs p ys h below.1)
