-- ===== src/Filesystem/Pipe/Transfer.antt =====
-- Reads and writes of the pipe (kernel/filesystem/Pipe.cpp) as operations on the bytes it holds.
use nusa_os.Common.{
  ℕ, zero, suc, ◌+◌, ◌-◌, ◌≤◌, ◌<◌, ◌≡◌, refl, ◌∙◌, sym, ap, min, true, false, List, [], ◌∷◌, ◌++◌,
  length, length-append, take, ok, ◌>>=◌, ◌==◌, ltb, not, ◌&&◌, if◌then◌else◌, arith,
}
use mathlib.Core.List.{append-nil}
use nusa_os.Kstd.CircularQueue.Contents.{places}
use nusa_os.Kstd.CircularQueue.Refine.{IsValid, to_list, length-to_list}
use nusa_os.Filesystem.Pipe.{Pipe, read_finish, pop_bytes, push_bytes, write}
use nusa_os.Filesystem.Pipe.Stored.{pop_bytes_lem, push_bytes_lem}

-- The bytes in the pipe, oldest first.
abbrev pub bytes_of : Pipe → List ℕ
bytes_of p = to_list 0 p.queue

pub write-eq :
    (p : Pipe) (buffer : List ℕ)
    → 0 < p.readers
    → let (n, q) = push_bytes buffer p.queue in
      write p buffer ≡ ok (n, record p { queue = q; ready = if n == 0 then p.ready else true })
unfolding write
write-eq p buffer h = let open' : (p.readers == 0) ≡ false = ground arith in rw open' refl

-- If the pipe has a reader, `write` never fails or blocks: it stores as much of the buffer as there
-- is room for behind the bytes that are there. What it returns counts one byte more when the
-- buffer does not fit, the first one that the full queue refused.
pub write-appends :
    (p : Pipe) (buffer : List ℕ)
    → IsValid p.queue
    → 0 < p.readers
    → (p' : Pipe) × (write p buffer
        ≡ ok (min (length buffer) (suc (p.queue.capacity - p.queue.size)), p'))
      × IsValid p'.queue
      × (p'.queue.capacity ≡ p.queue.capacity)
      × (p'.readers ≡ p.readers)
      × (bytes_of p' ≡ bytes_of p ++ take (p.queue.capacity - p.queue.size) buffer)
write-appends p buffer v h =
    let (v', cap, n, list) = push_bytes_lem buffer p.queue v in
    let (k, q) = push_bytes buffer p.queue in
    (
      record p { queue = q; ready = if k == 0 then p.ready else true },
      write-eq p buffer h
          ∙ ap (λ m. ok (m, record p { queue = q; ready = if k == 0 then p.ready else true })) n,
      v',
      cap,
      refl,
      list,
    )

pub read_finish-eq :
    (p : Pipe) (count : ℕ)
    → let (bytes, q) = pop_bytes (min count p.queue.size) p.queue in
      read_finish p false count
      ≡ ok (
        bytes,
        record p {
          queue = q;
          ready = if (q.size == 0) && not (p.writers == 0) then false else p.ready;
        },
      )
unfolding read_finish nusa_os.Kstd.CircularQueue.is_empty
read_finish-eq p count =
    let n : (if ltb p.queue.size count then p.queue.size else count) ≡ min count p.queue.size =
      ground arith in
    rw n refl

-- A read that is not interrupted returns the oldest bytes, as many as were asked for or, if there
-- are fewer, all of them, and leaves the others.
pub read_finish-takes :
    (p : Pipe) (count : ℕ)
    → IsValid p.queue
    → (bytes : List ℕ) × (p' : Pipe) × (read_finish p false count ≡ ok (bytes, p'))
      × IsValid p'.queue
      × (length bytes ≡ min count (length (bytes_of p)))
      × (bytes_of p ≡ bytes ++ bytes_of p')
read_finish-takes p count v =
    let (v', cap, size, len, list) =
      pop_bytes_lem (min count p.queue.size) p.queue v (omega arith) in
    let (bytes, q) = pop_bytes (min count p.queue.size) p.queue in
    (
      bytes,
      record p {
        queue = q;
        ready = if (q.size == 0) && not (p.writers == 0) then false else p.ready;
      },
      read_finish-eq p count,
      v',
      len ∙ ap (min count) (sym (length-to_list 0 p.queue)),
      list,
    )

take-all : (xs : List ℕ) (n : ℕ) → length xs ≤ n → take n xs ≡ xs
take-all [] zero h = refl
take-all [] (suc n) h = refl
take-all (x ∷ xs) zero h = absurd (omega arith)
take-all (x ∷ xs) (suc n) h = ap (◌∷◌ x) (take-all xs n (omega arith))

take-append : (xs ys zs ws : List ℕ) → xs ++ ys ≡ zs ++ ws → length xs ≡ length zs → xs ≡ zs
take-append [] ys [] ws e h = refl
take-append [] ys (z ∷ zs) ws e h = absurd (omega arith)
take-append (x ∷ xs) ys [] ws e h = absurd (omega arith)
take-append (x ∷ xs) ys (z ∷ zs) ws e h =
    let head : x ≡ z = cc in
    let tail : xs ++ ys ≡ zs ++ ws = cc in
    ap (λ y. y ∷ xs) head ∙ ap (◌∷◌ z) (take-append xs ys zs ws tail (omega arith))

-- Two writes that fit into an empty pipe, then a read of their length: the read returns the bytes of
-- the first write followed by those of the second.
pub write-write-read :
    (p : Pipe) (first second : List ℕ)
    → IsValid p.queue
    → 0 < p.readers
    → p.queue.size ≡ 0
    → length first + length second ≤ p.queue.capacity
    → ((p3 : Pipe) × ((write p first >>= λ (n, p1).
            write p1 second >>= λ (m, p2). read_finish p2 false (n + m))
          ≡ ok (first ++ second, p3)))
write-write-read p first second v h e fits =
    let (p1, w1, v1, cap1, readers1, list1) = write-appends p first v h in
    let empty : bytes_of p ≡ [] =
      ap (places 0 p.queue.storage p.queue.capacity p.queue.front 0) e in
    let all1 : bytes_of p1 ≡ first =
      list1
      ∙ ap (λ xs. xs ++ take (p.queue.capacity - p.queue.size) first) empty
      ∙ take-all first (p.queue.capacity - p.queue.size) (omega arith) in
    let size1 : p1.queue.size ≡ length first = sym (length-to_list 0 p1.queue) ∙ ap length all1 in
    let (p2, w2, v2, cap2, readers2, list2) = write-appends p1 second v1 (omega arith) in
    let all2 : bytes_of p2 ≡ first ++ second =
      list2
      ∙ ap (λ xs. xs ++ take (p1.queue.capacity - p1.queue.size) second) all1
      ∙ ap (◌++◌ first) (take-all second (p1.queue.capacity - p1.queue.size) (omega arith)) in
    let n = min (length first) (suc (p.queue.capacity - p.queue.size)) in
    let m = min (length second) (suc (p1.queue.capacity - p1.queue.size)) in
    let (bytes, p3, r, v3, len, list3) = read_finish-takes p2 (n + m) v2 in
    let total : length bytes ≡ length (first ++ second) =
      omega (arith, len, ap length all2, length-append first second) in
    let same : bytes ≡ first ++ second =
      take-append bytes (bytes_of p3) (first ++ second) []
        (sym list3 ∙ all2 ∙ sym (append-nil (first ++ second))) total in
    (p3, rw (w1, w2) (r ∙ ap (λ bs. ok (bs, p3)) same))
