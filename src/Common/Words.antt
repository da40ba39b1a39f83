-- ===== src/Common/Words.antt =====
-- `size_t` and the other 32-bit words of the i386 target (kernel/api/types.h): arithmetic mod 2^32.
use Prim.Native.Nat.{ℕ, ◌+◌, ◌-◌, ◌%◌, ◌/◌, ◌^◌, ◌≤◌, ◌<◌}
use mathlib.Core.Path.{◌≡◌}
use mathlib.Core.Bool.{Bool}
use nusa_os.Common.Tests.{◌==◌}
use native.Mathlib.Omega.{arith}

abbrev pub word_mod : ℕ
word_mod = 2 ^ 32

-- a + b on `size_t`
unfoldable pub add_word : ℕ → ℕ → ℕ
add_word a b = (a + b) % word_mod

-- a - b on `size_t`
unfoldable pub sub_word : ℕ → ℕ → ℕ
sub_word a b = (a + word_mod - b) % word_mod

-- `flags & flag`, for a flag of one bit
unfoldable pub has : ℕ → ℕ → Bool
has flags flag = flags / flag % 2 == 1

pub add_word-exact : (a b : ℕ) → a + b < word_mod → add_word a b ≡ a + b
unfolding add_word
add_word-exact a b h = omega arith

pub sub_word-exact : (a b : ℕ) → a < word_mod → b ≤ a → sub_word a b ≡ a - b
unfolding sub_word
sub_word-exact a b h k = omega arith
