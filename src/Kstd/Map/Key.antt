-- ===== src/Kstd/Map/Key.antt =====
-- What `kstd::map` (kernel/kstd/map.hpp) uses of its key type, `==` and `<`, with the laws of a
-- strict total order.
use nusa_os.Common.{ℕ, ◌≡◌, ◌∙◌, sym, Bool, true, false, ltb, ◌==◌, arith, Bool-cases, inl, inr}
use mathlib.Core.Logic.{◌↔◌}

pub record KeyOrder {ℓ} (K : Type ℓ) : Type ℓ where
  pub eq : K → K → Bool
  pub lt : K → K → Bool
  pub eq_iff : (a b : K) → (eq a b ≡ true) ↔ (a ≡ b)
  pub lt_irrefl : (a : K) → lt a a ≡ false
  pub lt_trans : (a b c : K) → lt a b ≡ true → lt b c ≡ true → lt a c ≡ true
  pub lt_total : (a b : K) → lt a b ≡ false → eq b a ≡ false → lt b a ≡ true

module _ {ℓ} {K : Type ℓ} ⦃o : KeyOrder K⦄ where
  -- Facts of the order.
  pub lt-asymm : (a b : K) → o.lt a b ≡ true → o.lt b a ≡ false
  lt-asymm a b h = elim (Bool-cases (o.lt b a)) [
    | inl back ↦ cc (o.lt_trans a b a h back, o.lt_irrefl a)
    | inr fine ↦ fine
  ]

  pub lt-ne : (a b : K) → o.lt a b ≡ true → o.eq a b ≡ false
  lt-ne a b h = elim (Bool-cases (o.eq a b)) [
    | inl same ↦ cc ((o.eq_iff a b).0 same, o.lt_irrefl b)
    | inr fine ↦ fine
  ]

  pub lt-ne' : (a b : K) → o.lt a b ≡ true → o.eq b a ≡ false
  lt-ne' a b h = elim (Bool-cases (o.eq b a)) [
    | inl same ↦ cc ((o.eq_iff b a).0 same, o.lt_irrefl b)
    | inr fine ↦ fine
  ]

  pub eq-apart : (a b c : K) → o.eq a c ≡ true → o.eq a b ≡ false → o.eq b c ≡ false
  eq-apart a b c same apart = elim (Bool-cases (o.eq b c)) [
    | inl hit ↦
        let back = (o.eq_iff a b).1 ((o.eq_iff a c).0 same ∙ sym ((o.eq_iff b c).0 hit)) in cc
    | inr miss ↦ miss
  ]

pub eq_iff_nat : (a b : ℕ) → ((a == b) ≡ true) ↔ (a ≡ b)
eq_iff_nat a b = ground arith

pub lt_irrefl_nat : (a : ℕ) → ltb a a ≡ false
lt_irrefl_nat a = ground arith

pub lt_trans_nat : (a b c : ℕ) → ltb a b ≡ true → ltb b c ≡ true → ltb a c ≡ true
lt_trans_nat a b c h k = ground arith

pub lt_total_nat : (a b : ℕ) → ltb a b ≡ false → (b == a) ≡ false → ltb b a ≡ true
lt_total_nat a b h k = ground arith

-- Integer keys: process ids, file descriptors, addresses.
instance abbrev pub nat_order : KeyOrder ℕ
nat_order = record {
  eq = ◌==◌;
  lt = ltb;
  eq_iff = eq_iff_nat;
  lt_irrefl = lt_irrefl_nat;
  lt_trans = lt_trans_nat;
  lt_total = lt_total_nat;
}
