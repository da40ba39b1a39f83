-- ===== src/Memory/Buddy/Rank.antt =====
-- `order_for` of kernel/memory/BuddyZone.h: the least order whose blocks are large enough.
use nusa_os.Common.{
  dec_lt, ℕ, zero, suc, ◌-◌, ◌/◌, ◌^◌, ◌<◌, ◌≤◌, ◌≡◌, ap, arith, ℕ_discrete, ==_ne,
}
use native.Mathlib.Nat.{pow-le-pow_right, two-pow-succ, one-le-pow}
use nusa_os.Memory.Buddy.{highest_bit, order_for}

-- The two powers of two around a number of at most `bits` bits.
pub highest_bit_lem :
    (bits n : ℕ)
    → 0 < n
    → n < 2 ^ bits
    → (2 ^ highest_bit bits n ≤ n) × (n < 2 ^ suc (highest_bit bits n))
unfolding highest_bit
highest_bit_lem zero n pos lt = absurd (omega arith)
highest_bit_lem (suc bits) n pos lt = elim (ℕ_discrete (n / 2) 0) [
  | yes e ↦ rw (e) (omega arith)
  | no ne ↦
      let above =
        highest_bit_lem bits (n / 2) (omega arith) (omega (arith, lt, two-pow-succ bits)) in
      let h = highest_bit bits (n / 2) in
      rw (==_ne (n / 2) 0 ne)
        (omega (arith, above.0, above.1, two-pow-succ h, two-pow-succ (suc h)))
]

pub exponent_le : (h k : ℕ) → 2 ^ h ≤ 2 ^ k → h ≤ k
exponent_le h k le = elim (dec_lt k h) [
  | yes lt ↦
      let up : 2 ^ suc k ≤ 2 ^ h = pow-le-pow_right (omega arith) lt in
      let one : 1 ≤ 2 ^ k = one-le-pow k 2 (omega arith) in
      absurd (omega (arith, le, up, one, two-pow-succ k))
  | no nlt ↦ omega arith
]

exponent_lt : (h k : ℕ) → 2 ^ h < 2 ^ k → h < k
exponent_lt h k lt = elim (ℕ_discrete h k) [
  | yes e ↦ absurd (omega (arith, lt, ap (λ j. 2 ^ j) e))
  | no ne ↦ omega (arith, exponent_le h k (omega arith))
]

-- A request of 32 bits gets the least order whose blocks have room for it.
pub order_for-least :
    (n : ℕ) → 0 < n → n < 2 ^ 32 → (n ≤ 2 ^ order_for n) × ((k : ℕ) → n ≤ 2 ^ k → order_for n ≤ k)
unfolding order_for
order_for-least n pos lt =
    let h = highest_bit 32 n in
    let around = highest_bit_lem 32 n pos lt in
    elim (ℕ_discrete (n - 2 ^ h) 0) [
      | yes e ↦ rw (e) (omega arith, λ k le. exponent_le h k (omega arith))
      | no ne ↦ rw (==_ne (n - 2 ^ h) 0 ne) (omega arith, λ k le. exponent_lt h k (omega arith))
    ]

-- A power of two has its own order.
pub order_for-pow : (k : ℕ) → k < 32 → order_for (2 ^ k) ≡ k
order_for-pow k lt =
    let small : 2 ^ suc k ≤ 2 ^ 32 = pow-le-pow_right (omega arith) lt in
    let one : 1 ≤ 2 ^ k = one-le-pow k 2 (omega arith) in
    let (room, least) = order_for-least (2 ^ k) one (omega (arith, small, one, two-pow-succ k)) in
    omega (arith, exponent_le k (order_for (2 ^ k)) room, least k (omega arith))
