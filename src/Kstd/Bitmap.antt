-- ===== src/Kstd/Bitmap.antt =====
-- kernel/kstd/Bitmap.h: a map of bits in an array of bytes.
pub mod Bytes
pub mod Laws
mod Examples
use Prim.Native.Nat.{bit_and, bit_or}
use nusa_os.Common.{
  ℕ, ◌+◌, ◌-◌, ◌/◌, ◌%◌, ◌^◌, Bool, true, false, not, List, ◌==◌, if◌then◌else◌, get_or, set,
  replicate,
}

-- `m_bits[index / 8] & (1 << (index % 8))` on the byte
abbrev pub test_bit : ℕ → ℕ → Bool
test_bit byte k = not (bit_and byte (2 ^ k) == 0)

-- `|= (1 << k)`, or `&= ~(1 << k)` on a byte
abbrev pub change_bit : ℕ → ℕ → Bool → ℕ
change_bit byte k value = if value then bit_or byte (2 ^ k) else bit_and byte (255 - 2 ^ k)

pub record Bitmap : Type 0 where
  pub bytes : List ℕ

unfoldable pub make : ℕ → Bool → Bitmap
make num_bits value = record { bytes = replicate ((num_bits + 7) / 8) (if value then 255 else 0) }

unfoldable pub get_bit : Bitmap → ℕ → Bool
get_bit m index = test_bit (get_or m.bytes (index / 8) 0) (index % 8)

unfoldable pub set_bit : Bitmap → ℕ → Bool → Bitmap
set_bit m index value = record {
  bytes = set m.bytes (index / 8) (change_bit (get_or m.bytes (index / 8) 0) (index % 8) value);
}
