-- ===== src/Kstd/Map/Assign.antt =====
-- Assignments through the subscript of `kstd::map` (kernel/kstd/map.hpp).
use nusa_os.Common.{◌≡◌, refl, true, false, none, some, if◌then◌else◌, Option-cases, inl, inr}
use nusa_os.Kstd.Map.Key.{KeyOrder}
use nusa_os.Kstd.Map.{Map, find_node, get, contains, insert, assign}
use nusa_os.Kstd.Map.Refine.{IsValid, get-insert, insert_fails}

module _ {ℓ} {K V : Type ℓ} ⦃o : KeyOrder K⦄ where
  assign-eq :
      (key : K) (val : V) (m m' : Map K V) → insert key val m ≡ some m' → assign key val m ≡ m'
  unfolding assign
  assign-eq key val m m' e = rw (e, assign) refl

  -- An assignment to a key that is not there keeps the map valid and adds the value at the key.
  pub get-assign :
      (key j : K) (val : V) (m : Map K V)
      → IsValid m
      → contains key m ≡ false
      → IsValid (assign key val m)
        × (get j (assign key val m) ≡ (if o.eq key j then some val else get j m))
  get-assign key j val m v absent = elim (Option-cases (insert key val m)) [
    | inl gone ↦ let there = (insert_fails key val m v).0 gone in cc
    | inr (m', e) ↦
        let (v', old, now) = get-insert key j val m m' v e in
        rw (assign-eq key val m m' e) (v', now)
  ]

  pub contains-none : (key : K) (m : Map K V) → contains key m ≡ false → get key m ≡ none
  unfolding contains get
  contains-none key m h = elim (Option-cases (find_node key m.root)) [
    | inl gone ↦ gone
    | inr (v, there) ↦ let hit : contains key m ≡ true = rw (there, contains) refl in cc
  ]
