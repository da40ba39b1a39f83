-- ===== src/Filesystem/Descriptor/Position.antt =====
-- The access mode and the position of a file descriptor (kernel/filesystem/FileDescriptor.cpp).
use nusa_os.Common.{
  ℕ, ◌+◌, ◌%◌, ◌^◌, ◌<◌, ◌≡◌, refl, ◌∙◌, sym, ap, Bool, true, false, not, ◌&&◌, Errno, ok, ◌>>◌,
  fail_if, >>=-eq-ok, ◌==◌, ltb, leb, if◌then◌else◌, has, add_word, add_word-exact, word_mod, arith,
}
use nusa_os.Filesystem.Metadata.{Metadata, exists, is_device}
use nusa_os.Filesystem.Descriptor.{
  Descriptor, set_options, is_negative, new_seek, seek, advance, at_end, write,
}

-- The two lowest bits of the options give the access: 0 reads, 1 writes, 2 and 3 do both.
pub set_options-access :
    (fd : Descriptor) (options : ℕ)
    → let fd' = set_options fd options in
      (fd'.readable ≡ not (options % 4 == 1)) × (fd'.writable ≡ not (options % 4 == 0))
unfolding set_options has
set_options-access fd options = (ground arith, ground arith)

fail_if-false : (b : Bool) (e : Errno) (u : Unit {0}) → fail_if b e ≡ ok u → b ≡ false
fail_if-false true e u h = cc
fail_if-false false e u h = refl

can_seek : (b : Bool) (u : Unit {0}) → fail_if (not b) Errno.espipe ≡ ok u → b ≡ true
can_seek true u h = refl
can_seek false u h = cc

eq_of_ok {ℓ} : {A : Type ℓ} {a b : A} → ok a ≡ ok b → a ≡ b
eq_of_ok e = cc

not_negative : (p : ℕ) → is_negative p ≡ false → p < 2 ^ 31
unfolding is_negative
not_negative p h = ground arith

-- A successful `seek` returns the new position, which is not negative, and changes nothing else of
-- the descriptor, which can seek.
pub seek-position :
    (fd fd' : Descriptor) (m : Metadata) (offset whence position : ℕ)
    → seek fd m offset whence ≡ ok (fd', position)
    → (fd' ≡ record fd { seek = position })
      × (position < 2 ^ 31)
      × (fd.can_seek ≡ true)
      × (new_seek fd m offset whence ≡ ok position)
unfolding seek
seek-position fd fd' m offset whence position e =
    let (u1, can, e1) = >>=-eq-ok (fail_if (not fd.can_seek) Errno.espipe) _ e in
    let (p, at', e2) = >>=-eq-ok (new_seek fd m offset whence) _ e1 in
    let (u2, fine, e3) = >>=-eq-ok (fail_if (is_negative p) Errno.einval) _ e2 in
    let (u3, device, e4) =
      >>=-eq-ok (fail_if (exists m && is_device m && ltb m.size p) Errno.einval) _ e3 in
    let e5 : (record fd { seek = p }, p) ≡ (fd', position) = eq_of_ok e4 in
    let same : p ≡ position = ap (λ x. x.1) e5 in
    let small = not_negative p (fail_if-false (is_negative p) Errno.einval u2 fine) in
    (
      sym (ap (λ x. x.0) e5) ∙ ap (λ q. record fd { seek = q }) same,
      omega arith,
      can_seek fd.can_seek u1 can,
      at' ∙ ap ok same,
    )

advance-eq :
    (fd : Descriptor) (ret : ℕ)
    → fd.can_seek ≡ true
    → 0 < ret
    → ret < 2 ^ 31
    → advance fd ret ≡ record fd { seek = add_word fd.seek ret }
unfolding advance is_negative
advance-eq fd ret can pos small =
    let positive : ltb 0 ret ≡ true = ground arith in
    let small' : leb (2 ^ 31) ret ≡ false = ground arith in rw (can, positive, small', advance) refl

write-open :
    (fd : Descriptor) (m : Metadata) (file_write : ℕ → ℕ)
    → fd.writable ≡ true
    → let d = at_end fd m in
      write fd m file_write ≡ ok (file_write d.seek, advance d (file_write d.seek))
unfolding write
write-open fd m file_write w =
    let d = at_end fd m in
    ap (λ b. fail_if (not b) Errno.ebadf >> ok (file_write d.seek, advance d (file_write d.seek))) w

at_end-eq :
    (fd : Descriptor) (m : Metadata)
    → fd.append ≡ true
    → fd.can_seek ≡ true
    → exists m ≡ true
    → at_end fd m ≡ record fd { seek = m.size }
unfolding at_end
at_end-eq fd m a can there =
    let all : (fd.append && fd.can_seek && exists m) ≡ true = ground arith in
    ap (λ b. if b then record fd { seek = m.size } else fd) all

-- A write in append mode to a file that exists goes to its end: the file is asked to write at its
-- size, and the position is then behind what it wrote.
pub write-appends_at_end :
    (fd : Descriptor) (m : Metadata) (file_write : ℕ → ℕ)
    → fd.writable ≡ true
    → fd.append ≡ true
    → fd.can_seek ≡ true
    → exists m ≡ true
    → 0 < file_write m.size
    → file_write m.size < 2 ^ 31
    → m.size + file_write m.size < word_mod
    → (fd' : Descriptor) × (write fd m file_write ≡ ok (file_write m.size, fd'))
      × (fd'.seek ≡ m.size + file_write m.size)
write-appends_at_end fd m file_write w a can there pos small fits = (
  record fd { seek = add_word m.size (file_write m.size) },
  write-open fd m file_write w
      ∙ ap (λ d. ok (file_write d.seek, advance d (file_write d.seek))) (at_end-eq fd m a can there)
      ∙ ap (λ d. ok (file_write m.size, d))
          (advance-eq (record fd { seek = m.size }) (file_write m.size) can pos small),
  add_word-exact m.size (file_write m.size) fits,
)
