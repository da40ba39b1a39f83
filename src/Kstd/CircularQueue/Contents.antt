-- ===== src/Kstd/CircularQueue/Contents.antt =====
-- What a circular queue (kernel/kstd/circular_queue.hpp) holds, read off its array.
use native.Mathlib.Nat.{mod-eq_of_lt, mod-eq-sub-mod, mod-add-mod}
use native.Mathlib.Decide.{dec_lt}
use nusa_os.Common.{
  ◌⊎◌, inl, inr, ℕ, zero, suc, ◌+◌, ◌-◌, ◌%◌, ◌≤◌, ◌<◌, ◌≡◌, ◌≢◌, refl, ◌∙◌, ap, List, [], ◌∷◌,
  ◌++◌, length, get_or, set, get_or-set_ne, arith,
}

-- An index below twice the capacity goes round at most once.
pub wrap_once :
    (x cap : ℕ) → x < cap + cap → ((x < cap) × (x % cap ≡ x)) ⊎ ((cap ≤ x) × (x % cap ≡ x - cap))
wrap_once x cap h = elim (dec_lt x cap) [
  | yes lt ↦ inl (lt, mod-eq_of_lt lt)
  | no ge ↦
      let le : cap ≤ x = omega arith in
      inr (
        le,
        mod-eq-sub-mod {n = x} {m = cap} le ∙ mod-eq_of_lt {n = x - cap} {m = cap} (omega arith),
      )
]

-- Different places of the queue are different slots of the array.
pub slots_apart :
    (front cap i n : ℕ) → front < cap → i < n → n < cap → (front + n) % cap ≢ (front + i) % cap
slots_apart front cap i n f lt le =
    let a = wrap_once (front + i) cap (omega arith) in
    let b = wrap_once (front + n) cap (omega arith) in omega arith

module _ {ℓ} {A : Type ℓ} (nil : A) where
  -- `n` elements from the i-th place on.
  abbrev pub places : List A → ℕ → ℕ → ℕ → ℕ → List A
  places storage cap front i zero = []
  places storage cap front i (suc n) =
      get_or storage ((front + i) % cap) nil ∷ places storage cap front (suc i) n

  pub length-places :
      (storage : List A) (cap front i n : ℕ) → length (places storage cap front i n) ≡ n
  length-places storage cap front i zero = refl
  length-places storage cap front i (suc n) = ap suc (length-places storage cap front (suc i) n)

  pub places-snoc :
      (storage : List A) (cap front i n : ℕ)
      → places storage cap front i (suc n)
        ≡ places storage cap front i n ++ (get_or storage ((front + (i + n)) % cap) nil ∷ [])
  places-snoc storage cap front i zero =
      ap (λ j. get_or storage ((front + j) % cap) nil ∷ []) (omega arith)
  places-snoc storage cap front i (suc n) = ap (◌∷◌ (get_or storage ((front + i) % cap) nil)) (
      places-snoc storage cap front (suc i) n
      ∙ ap
          (λ j. places storage cap front (suc i) n ++ (get_or storage ((front + j) % cap) nil ∷ []))
          (omega arith))

  -- A write past the last element changes none of them.
  pub places-set :
      (storage : List A) (cap front i n m : ℕ) (x : A)
      → front < cap
      → m < cap
      → i + n ≤ m
      → places (set storage ((front + m) % cap) x) cap front i n ≡ places storage cap front i n
  places-set storage cap front i zero m x f c h = refl
  places-set storage cap front i (suc n) m x f c h = rw (
    get_or-set_ne storage ((front + m) % cap) ((front + i) % cap) x nil
        (slots_apart front cap i m f (omega arith) c),
    places-set storage cap front (suc i) n m x f c (omega arith),
  )

  -- Seen from the next slot, each place has an index that is 1 less.
  pub places-next :
      (storage : List A) (cap front i n : ℕ)
      → places storage cap ((front + 1) % cap) i n ≡ places storage cap front (suc i) n
  places-next storage cap front i zero = refl
  places-next storage cap front i (suc n) =
      let index : ((front + 1) % cap + i) % cap ≡ (front + suc i) % cap =
        mod-add-mod (front + 1) cap i ∙ ap (λ j. j % cap) (omega arith) in
      rw (index, places-next storage cap front (suc i) n)
