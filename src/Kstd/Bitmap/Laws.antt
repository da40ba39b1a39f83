-- ===== src/Kstd/Bitmap/Laws.antt =====
-- Reads after writes on kernel/kstd/Bitmap.h, for the bits that the map has room for.
use nusa_os.Common.{
  subst, ℕ, zero, suc, ◌+◌, ◌*◌, ◌/◌, ◌%◌, ◌<◌, ◌≤◌, ◌≡◌, ◌≢◌, refl, ap, ◌∙◌, Bool, false, List, [],
  ◌∷◌, ◌==◌, if◌then◌else◌, arith, get_or, set, replicate, length, All, length-set,
  length-replicate, get_or-set_self, get_or-set_ne, ℕ_discrete,
}
use nusa_os.Kstd.Bitmap.{Bitmap, make, get_bit, set_bit, test_bit, change_bit}
use nusa_os.Kstd.Bitmap.Bytes.{test-change, test-filled}

-- The array has room for so many bits, and its elements are bytes.
unfoldable pub Fits : Bitmap → ℕ → Type 0
Fits m bits = (bits ≤ 8 * length m.bytes) × All (λ byte. byte < 256) m.bytes

get_or-Byte : (xs : List ℕ) (i : ℕ) → All (λ byte. byte < 256) xs → get_or xs i 0 < 256
get_or-Byte [] i h = omega arith
get_or-Byte (x ∷ xs) zero h = h.0
get_or-Byte (x ∷ xs) (suc i) h = get_or-Byte xs i h.1

set-Bytes :
    (xs : List ℕ) (i v : ℕ)
    → v < 256
    → All (λ byte. byte < 256) xs
    → All (λ byte. byte < 256) (set xs i v)
set-Bytes [] i v small h = tt
set-Bytes (x ∷ xs) zero v small h = (small, h.1)
set-Bytes (x ∷ xs) (suc i) v small h = (h.0, set-Bytes xs i v small h.1)

replicate-Bytes : (n v : ℕ) → v < 256 → All (λ byte. byte < 256) (replicate n v)
replicate-Bytes zero v small = tt
replicate-Bytes (suc n) v small = (small, replicate-Bytes n v small)

get_or-replicate : (n i v : ℕ) → i < n → get_or (replicate n v) i 0 ≡ v
get_or-replicate zero i v h = absurd (omega arith)
get_or-replicate (suc n) zero v h = refl
get_or-replicate (suc n) (suc i) v h = get_or-replicate n i v (omega arith)

pub make-Fits : (bits : ℕ) (value : Bool) → Fits (make bits value) bits
unfolding Fits make
make-Fits bits value =
    let filler : ℕ = if value then 255 else 0 in
    let small : filler < 256 = ground arith in
    let len = length-replicate ((bits + 7) / 8) filler in
    (omega (arith, len), replicate-Bytes ((bits + 7) / 8) filler small)

pub get-make : (bits : ℕ) (value : Bool) (i : ℕ) → i < bits → get_bit (make bits value) i ≡ value
unfolding get_bit make
get-make bits value i h =
    rw (get_or-replicate ((bits + 7) / 8) (i / 8) (if value then 255 else 0) (omega arith))
      (test-filled value (i % 8) (omega arith))

pub set_bit-Fits :
    (m : Bitmap) (bits i : ℕ) (value : Bool) → Fits m bits → Fits (set_bit m i value) bits
unfolding Fits set_bit
set_bit-Fits m bits i value h =
    let old = get_or m.bytes (i / 8) 0 in
    let len = length-set m.bytes (i / 8) (change_bit old (i % 8) value) in
    let small =
      (test-change value old (i % 8) 0 (get_or-Byte m.bytes (i / 8) h.1) (omega arith)
        (omega arith)).1 in
    (omega (arith, len), set-Bytes m.bytes (i / 8) (change_bit old (i % 8) value) small h.1)

same_bit : (i j : ℕ) → i / 8 ≡ j / 8 → (i % 8 == j % 8) ≡ (i == j)
same_bit i j e = ground arith

other_bit : (i j : ℕ) → i / 8 ≢ j / 8 → (i == j) ≡ false
other_bit i j ne = ground arith

-- A written bit is read back, and the other bits are as they were.
pub get-set :
    (m : Bitmap) (bits i j : ℕ) (value : Bool)
    → Fits m bits
    → i < bits
    → get_bit (set_bit m i value) j ≡ (if i == j then value else get_bit m j)
unfolding Fits get_bit set_bit
get-set m bits i j value h lt =
    let old = get_or m.bytes (i / 8) 0 in
    let bit = change_bit old (i % 8) value in
    elim (ℕ_discrete (i / 8) (j / 8)) [
      | yes e ↦
          let here : get_or (set m.bytes (i / 8) bit) (j / 8) 0 ≡ bit =
            subst (λ k. get_or (set m.bytes (i / 8) bit) k 0 ≡ bit) e
              (get_or-set_self m.bytes (i / 8) bit 0 (omega (arith, h.0))) in
          let law =
            (test-change value old (i % 8) (j % 8) (get_or-Byte m.bytes (i / 8) h.1) (omega arith)
              (omega arith)).0 in
          ap (λ byte. test_bit byte (j % 8)) here
          ∙ law
          ∙ rw (same_bit i j e, ap (λ k. get_or m.bytes k 0) e) refl
      | no ne ↦
          ap (λ byte. test_bit byte (j % 8)) (get_or-set_ne m.bytes (i / 8) (j / 8) bit 0 ne)
          ∙ rw (other_bit i j ne) refl
    ]
