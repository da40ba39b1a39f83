-- ===== src/Filesystem/Pipe/Wakeup.antt =====
-- The flag on which readers of the pipe (kernel/filesystem/Pipe.cpp) wait, over all interleavings of
-- the calls of the pipe's users.
use nusa_os.Common.{
  ℕ_discrete, length-append, subst, ℕ, zero, suc, ◌+◌, ◌-◌, ◌≤◌, ◌<◌, ◌≡◌, refl, ◌∙◌, sym, ap, min,
  Bool, true, false, List, [], ◌∷◌, length, take, Errno, ok, err, ◌==◌, not, ◌&&◌, if◌then◌else◌,
  arith, inl, inr, Bool-cases,
}
use nusa_os.Memory.Space.{page_size}
use nusa_os.Kstd.CircularQueue.{CircularQueue, make, is_empty}
use nusa_os.Kstd.CircularQueue.Refine.{IsValid, to_list, length-to_list, make-IsValid}
use nusa_os.Filesystem.Pipe.{
  Pipe, init, add_reader, add_writer, remove_reader, remove_writer, go, read_start, read_finish,
  pop_bytes, push_bytes, write,
}
use nusa_os.Filesystem.Pipe.Stored.{pop_bytes_lem, push_bytes_lem}
use nusa_os.Filesystem.Pipe.Transfer.{write-eq, read_finish-eq}

-- The states that calls of the pipe's users lead to from a new pipe, in any order.
pub data Reachable : Pipe → Type 0 where
  new : Reachable init
  reader_added : {p : Pipe} → Reachable p → Reachable (add_reader p)
  writer_added : {p : Pipe} → Reachable p → Reachable (add_writer p)
  reader_removed : {p : Pipe} → Reachable p → Reachable (remove_reader p)
  writer_removed : {p : Pipe} → Reachable p → Reachable (remove_writer p)
  written :
      {p p' : Pipe} (buffer : List ℕ) (n : ℕ)
      → Reachable p
      → write p buffer ≡ ok (n, p')
      → Reachable p'
  read :
      {p p' : Pipe} (interrupted : Bool) (count : ℕ) (bytes : List ℕ)
      → Reachable p
      → read_finish p interrupted count ≡ ok (bytes, p')
      → Reachable p'

-- The queue is valid, and a pipe with bytes in it wakes its readers.
record Sound (p : Pipe) : Type 0 where
  valid : IsValid p.queue
  awake : 0 < p.queue.size → p.ready ≡ true

eq_of_ok {ℓ} : {A : Type ℓ} {a b : A} → ok a ≡ ok b → a ≡ b
eq_of_ok e = cc

no_reader : (p : Pipe) (buffer : List ℕ) → p.readers ≡ 0 → write p buffer ≡ err Errno.epipe
unfolding write
no_reader p buffer e = let gone : (p.readers == 0) ≡ true = ground arith in rw gone refl

was_interrupted : (p : Pipe) (count : ℕ) → read_finish p true count ≡ err Errno.eintr
unfolding read_finish
was_interrupted p count = refl

length-take_le : (n : ℕ) (xs : List ℕ) → length (take n xs) ≤ length xs
length-take_le zero xs = omega arith
length-take_le (suc n) [] = omega arith
length-take_le (suc n) (x ∷ xs) = omega (arith, length-take_le n xs)

write-Sound :
    (p p' : Pipe) (buffer : List ℕ) (n : ℕ) → Sound p → write p buffer ≡ ok (n, p') → Sound p'
write-Sound p p' buffer n s e = elim (ℕ_discrete p.readers 0) [
  | yes none' ↦ let bad = no_reader p buffer none' in cc
  | no open' ↦
      let (k, q) = push_bytes buffer p.queue in
      let (v, cap, tried, list) = push_bytes_lem buffer p.queue s.valid in
      let state : (k, record p { queue = q; ready = if k == 0 then p.ready else true }) ≡ (n, p') =
        eq_of_ok (sym (write-eq p buffer (omega arith)) ∙ e) in
      subst Sound (ap (λ x. x.1) state) (record {
        valid = v;
        awake = λ pos. elim (Bool-cases (k == 0)) [
          | inl nothing ↦
              let held : q.size
                  ≡ p.queue.size + length (take (p.queue.capacity - p.queue.size) buffer) =
                sym (length-to_list 0 q)
                ∙ ap length list
                ∙ length-append (to_list 0 p.queue) (take (p.queue.capacity - p.queue.size) buffer)
                ∙ ap (λ m. m + length (take (p.queue.capacity - p.queue.size) buffer))
                    (length-to_list 0 p.queue) in
              let none' : k ≡ 0 = ground arith in
              let small = length-take_le (p.queue.capacity - p.queue.size) buffer in
              rw nothing (s.awake (omega arith))
          | inr some' ↦ rw some' refl
        ];
      })
]

not_empty : (n : ℕ) → 0 < n → (n == 0) ≡ false
not_empty n h = ground arith

read_finish-Sound :
    (p p' : Pipe) (interrupted : Bool) (count : ℕ) (bytes : List ℕ)
    → Sound p
    → read_finish p interrupted count ≡ ok (bytes, p')
    → Sound p'
read_finish-Sound p p' true count bytes s e = let bad = was_interrupted p count in cc
read_finish-Sound p p' false count bytes s e =
    let n = min count p.queue.size in
    let (taken, q) = pop_bytes n p.queue in
    let (v, cap, size, len, list) = pop_bytes_lem n p.queue s.valid (omega arith) in
    let ready = if (q.size == 0) && not (p.writers == 0) then false else p.ready in
    let state : (taken, record p { queue = q; ready = ready }) ≡ (bytes, p') =
      eq_of_ok (sym (read_finish-eq p count) ∙ e) in
    subst Sound (ap (λ x. x.1) state) (record {
      valid = v;
      awake = λ (pos : 0 < q.size).
          let some' = not_empty q.size pos in rw some' (s.awake (omega arith));
    })

Reachable-Sound : (p : Pipe) → Reachable p → Sound p
unfolding init add_reader add_writer remove_reader remove_writer make
Reachable-Sound p new = record {
  valid = make-IsValid 0 page_size (omega arith);
  awake = λ h. absurd (omega arith);
}
Reachable-Sound p (reader_added r) =
    let s = Reachable-Sound _ r in record { valid = s.valid; awake = s.awake }
Reachable-Sound p (writer_added r) =
    let s = Reachable-Sound _ r in record { valid = s.valid; awake = s.awake }
Reachable-Sound p (reader_removed r) =
    let s = Reachable-Sound _ r in record { valid = s.valid; awake = s.awake }
Reachable-Sound p (writer_removed r) =
    let s = Reachable-Sound _ r in
    record { valid = s.valid; awake = λ h. let awake = s.awake h in ground arith }
Reachable-Sound p (written buffer n r e) = write-Sound _ p buffer n (Reachable-Sound _ r) e
Reachable-Sound p (read interrupted count bytes r e) =
    read_finish-Sound _ p interrupted count bytes (Reachable-Sound _ r) e

-- No wakeup is lost: whatever calls led to this state, while the pipe holds a byte a read neither
-- blocks nor reports the end of the file.
pub read_start-go : (p : Pipe) → Reachable p → 0 < p.queue.size → read_start p ≡ go
unfolding read_start nusa_os.Kstd.CircularQueue.is_empty
read_start-go p r h = let awake = (Reachable-Sound p r).awake h in ground arith
