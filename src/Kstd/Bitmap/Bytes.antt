-- ===== src/Kstd/Bitmap/Bytes.antt =====
-- The bits of one byte (kernel/kstd/Bitmap.h), checked over all bytes.
use nusa_os.Common.{
  ◌+◌, ◌≤◌, ℕ_discrete, subst, ℕ, zero, suc, ◌<◌, ◌≡◌, refl, Bool, true, false, ◌&&◌, ◌==◌, ltb,
  if◌then◌else◌, arith, ltb→lt,
}
use nusa_os.Kstd.Bitmap.{test_bit, change_bit}

and_parts : (a b : Bool) → (a && b) ≡ true → (a ≡ true) × (b ≡ true)
and_parts true b h = (refl, h)
and_parts false b h = cc

-- The test holds at every number from `start` on, for `count` numbers.
holds_from : (start count : ℕ) (test : ℕ → Bool) → Bool
holds_from start zero test = true
holds_from start (suc count) test = test start && holds_from (suc start) count test

holds_from-at :
    (test : ℕ → Bool) (start count i : ℕ)
    → start ≤ i
    → i < start + count
    → holds_from start count test ≡ true
    → test i ≡ true
unfolding holds_from
holds_from-at test start zero i low high all = absurd (omega arith)
holds_from-at test start (suc count) i low high all = elim (ℕ_discrete start i) [
  | yes e ↦ subst (λ k. test k ≡ true) e (and_parts (test start) _ all).0
  | no ne ↦
      holds_from-at test (suc start) count i (omega arith) (omega arith)
        (and_parts (test start) _ all).1
]

-- Equality of Booleans.
abbrev same : Bool → Bool → Bool
same true b = b
same false true = false
same false false = true

same-eq : (a b : Bool) → same a b ≡ true → a ≡ b
same-eq true true h = refl
same-eq true false h = cc
same-eq false true h = cc
same-eq false false h = refl

-- The law of a write, and that a byte stays one, for all bits of one byte.
abbrev byte_law : Bool → ℕ → ℕ → ℕ → Bool
byte_law value byte k l =
    same (test_bit (change_bit byte k value) l) (if k == l then value else test_bit byte l)
    && ltb (change_bit byte k value) 256

-- The law for one byte, for one bit that is changed, and for the bit read after it.
abbrev law_of_byte : Bool → ℕ → Bool
law_of_byte value byte = holds_from 0 8 (λ k. holds_from 0 8 (λ l. byte_law value byte k l))

checked : (value : Bool) → holds_from 0 256 (law_of_byte value) ≡ true
unfolding holds_from
checked true = refl
checked false = refl

law_at : (value : Bool) (byte k l : ℕ) → byte < 256 → k < 8 → l < 8 → byte_law value byte k l ≡ true
law_at value byte k l b hk hl =
    let whole = holds_from-at (law_of_byte value) 0 256 byte (omega arith) b (checked value) in
    let change =
      holds_from-at (λ k. holds_from 0 8 (λ l. byte_law value byte k l)) 0 8 k (omega arith) hk
        whole in
    holds_from-at (λ l. byte_law value byte k l) 0 8 l (omega arith) hl change

-- A changed bit of a byte, its other bits, and its range.
pub test-change :
    (value : Bool) (byte k l : ℕ)
    → byte < 256
    → k < 8
    → l < 8
    → (test_bit (change_bit byte k value) l ≡ (if k == l then value else test_bit byte l))
      × (change_bit byte k value < 256)
test-change value byte k l b hk hl =
    let (bit, small) = and_parts _ _ (law_at value byte k l b hk hl) in
    (same-eq _ _ bit, ltb→lt _ _ small)

-- The bytes that `set_all` writes.
pub test-filled : (value : Bool) (k : ℕ) → k < 8 → test_bit (if value then 255 else 0) k ≡ value
unfolding holds_from
test-filled value k h = same-eq _ _ (
    holds_from-at (λ k. same (test_bit (if value then 255 else 0) k) value) 0 8 k (omega arith) h
      (filled value))
  where
    filled :
        (value : Bool)
        → holds_from 0 8 (λ k. same (test_bit (if value then 255 else 0) k) value) ≡ true
    filled true = refl
    filled false = refl
