-- ===== src/Filesystem/Descriptor.antt =====
-- kernel/filesystem/FileDescriptor.cpp: options, position, reads and writes of an open file.
-- `off_t`, `int` and `ssize_t` are 32-bit words: the negative ones are those from 2^31 on. What the
-- file does is an argument: its metadata, and the word that its own `read` or `write` returns, given
-- the offset.
pub mod Position
mod Examples
use Prim.Native.Nat.{bit_and}
use nusa_os.Common.{
  ℕ, ◌+◌, ◌-◌, ◌%◌, ◌^◌, Bool, true, false, not, ◌&&◌, ◌||◌, Option, none, some, Errno, espipe,
  einval, eio, ebadf, eoverflow, Result, ok, err, panic, ◌>>=◌, ◌>>◌, fail_if, ◌==◌, ltb, leb,
  if◌then◌else◌, has, add_word, word_mod,
}
use nusa_os.Filesystem.Metadata.{Metadata, exists, is_device}

pub record Descriptor : Type 0 where
  pub readable : Bool
  pub writable : Bool
  pub can_seek : Bool
  pub append : Bool
  pub options : ℕ
  pub seek : ℕ

unfoldable pub is_negative : ℕ → Bool
is_negative w = leb (2 ^ 31) w

-- O_WRONLY is 1, O_RDWR 2 and O_APPEND 8.
unfoldable pub set_options : Descriptor → ℕ → Descriptor
unfolding has
set_options fd options = record fd {
  readable = not (has options 1) || has options 2;
  writable = has options 1 || has options 2;
  append = has options 8;
  options = options;
}

unfoldable pub unset_options : Descriptor → ℕ → Descriptor
unfolding set_options
unset_options fd options = set_options fd (fd.options - bit_and fd.options options)

unfoldable pub nonblock : Descriptor → Bool
unfolding has
nonblock fd = has fd.options 16384

unfoldable pub cloexec : Descriptor → Bool
unfolding has
cloexec fd = has fd.options 262144

-- `whence`: SEEK_SET is 0, SEEK_CUR 1 and SEEK_END 2.
unfoldable pub new_seek : Descriptor → Metadata → ℕ → ℕ → Result ℕ
unfolding exists
new_seek fd m offset whence =
    if whence == 0
    then ok offset
    else if whence == 1
    then ok (add_word fd.seek offset)
    else if whence == 2
    then if exists m then ok (add_word m.size offset) else err eio
    else err einval

unfoldable pub seek : Descriptor → Metadata → ℕ → ℕ → Result (Descriptor × ℕ)
unfolding new_seek is_negative
seek fd m offset whence = do
  fail_if (not fd.can_seek) espipe
  position ← new_seek fd m offset whence
  fail_if (is_negative position) einval
  fail_if (exists m && is_device m && ltb m.size position) einval
  ok (record fd { seek = position }, position)

-- `if(_can_seek && ret > 0) _seek += ret;`
unfoldable pub advance : Descriptor → ℕ → Descriptor
unfolding is_negative
advance fd ret =
    if fd.can_seek && ltb 0 ret && not (is_negative ret)
    then record fd { seek = add_word fd.seek ret }
    else fd

-- `_seek + count` is an unsigned sum, so that its test for a negative result never holds.
unfoldable pub read : Descriptor → (ℕ → ℕ) → Result (ℕ × Descriptor)
unfolding advance
read fd file_read = do
  fail_if (not fd.readable) ebadf
  let ret = file_read fd.seek
  ok (ret, advance fd ret)

-- Where a write starts: at the end in append mode.
unfoldable pub at_end : Descriptor → Metadata → Descriptor
unfolding exists
at_end fd m = if fd.append && fd.can_seek && exists m then record fd { seek = m.size } else fd

unfoldable pub write : Descriptor → Metadata → (ℕ → ℕ) → Result (ℕ × Descriptor)
unfolding advance at_end
write fd m file_write = do
  fail_if (not fd.writable) ebadf
  let fd' = at_end fd m
  let ret = file_write fd'.seek
  ok (ret, advance fd' ret)
