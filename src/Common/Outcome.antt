-- ===== src/Common/Outcome.antt =====
-- kernel/Result.hpp: `Result` and `ResultRet<T>`, with the error codes of kernel/api/errno.h that
-- the modelled code returns. `panic` is a failed `ASSERT`, which halts the kernel.
use mathlib.Core.Path.{◌≡◌, refl}
use mathlib.Core.Bool.{Bool, true, false}

pub data Errno : Type 0 where
  enoent enomem einval eintr epipe ebadf espipe eio eoverflow enospc : Errno
  eaddrinuse ehostunreach econnrefused einprogress : Errno

pub data Result {ℓ} (A : Type ℓ) : Type ℓ where
  panic : Result A
  err : Errno → Result A
  ok : A → Result A

-- The macro `TRY` of Result.hpp.
infixl 5 ◌>>=◌
abbrev pub ◌>>=◌ {ℓ κ} : {A : Type ℓ} {B : Type κ} → Result A → (A → Result B) → Result B
panic >>= next = panic
err code >>= next = err code
ok value >>= next = next value

-- `ASSERT(test)`
abbrev pub assert : Bool → Result (Unit {0})
assert true = ok tt
assert false = panic

infixl 5 ◌>>◌
abbrev pub ◌>>◌ {ℓ} : {B : Type ℓ} → Result (Unit {0}) → Result B → Result B
step >> next = step >>= λ _. next

-- `if(test) return Result(e);`
abbrev pub fail_if : Bool → Errno → Result (Unit {0})
fail_if true e = err e
fail_if false e = ok tt

pub eq_of_ok {ℓ} : {A : Type ℓ} {a b : A} → ok a ≡ ok b → a ≡ b
eq_of_ok e = cc

-- What a successful chain went through.
pub >>=-eq-ok {ℓ κ} :
    {A : Type ℓ} {B : Type κ} {b : B} (step : Result A) (next : A → Result B)
    → (step >>= next) ≡ ok b
    → (a : A) × (step ≡ ok a) × (next a ≡ ok b)
>>=-eq-ok panic next done = cc
>>=-eq-ok (err code) next done = cc
>>=-eq-ok (ok a) next done = (a, refl, done)

-- Only a true test passes.
pub assert-ok : (test : Bool) {u : Unit {0}} → assert test ≡ ok u → test ≡ true
assert-ok true e = refl
assert-ok false e = cc

pub assert-passes {ℓ} :
    {A : Type ℓ} (test : Bool) (a : A) → test ≡ true → (assert test >> ok a) ≡ ok a
assert-passes true a e = refl
assert-passes false a e = cc

pub fail_if-ok : (test : Bool) (e : Errno) {u : Unit {0}} → fail_if test e ≡ ok u → test ≡ false
fail_if-ok true e done = cc
fail_if-ok false e done = refl
