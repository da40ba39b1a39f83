-- ===== src/Filesystem/Pipe/Examples.antt =====
-- The pipe of kernel/filesystem/Pipe.cpp on concrete data.
use native.Mathlib.Omega.{arith}
use nusa_os.Common.{
  ℕ, ◌+◌, ◌-◌, ◌<◌, ◌≡◌, refl, true, false, [], ◌∷◌, ◌++◌, List, length, replicate, take, min, ok,
  ◌>>=◌,
}
use nusa_os.Kstd.CircularQueue.{make, push_back}
use nusa_os.Kstd.CircularQueue.Refine.{IsValid, make-IsValid}
use nusa_os.Filesystem.Pipe.{Pipe, init, add_reader, go, read_start, read_finish, write}
use nusa_os.Filesystem.Pipe.Transfer.{bytes_of, write-appends, read_finish-takes, write-write-read}
use nusa_os.Filesystem.Pipe.Wakeup.{Reachable, read_start-go}

-- Pipes of three bytes: an empty one, and one in which a byte is left after wrapping round.
abbrev empty : Pipe
empty = record { queue = make 0 3; readers = 1; writers = 1; ready = false }

abbrev wrapped : Pipe
wrapped = record {
  queue = record { storage = 8 ∷ 0 ∷ 7 ∷ []; capacity = 3; size = 2; front = 2; back = 0 };
  readers = 1;
  writers = 1;
  ready = true;
}

wrapped-IsValid : IsValid wrapped.queue
wrapped-IsValid = record {
  allocated = refl;
  small = omega arith;
  fits = omega arith;
  front_in = λ _. omega arith;
  last = λ _. refl;
}

-- Three bytes for one free slot.
write-appends_example :
    (p' : Pipe) × (write wrapped (1 ∷ 2 ∷ 3 ∷ []) ≡ ok (2, p'))
    × IsValid p'.queue
    × (p'.queue.capacity ≡ 3)
    × (p'.readers ≡ 1)
    × (bytes_of p' ≡ 7 ∷ 8 ∷ 1 ∷ [])
write-appends_example = write-appends wrapped (1 ∷ 2 ∷ 3 ∷ []) wrapped-IsValid (omega arith)

read_finish-takes_example :
    (bytes : List ℕ) × (p' : Pipe) × (read_finish wrapped false 1 ≡ ok (bytes, p'))
    × IsValid p'.queue
    × (length bytes ≡ 1)
    × (7 ∷ 8 ∷ [] ≡ bytes ++ bytes_of p')
read_finish-takes_example = read_finish-takes wrapped 1 wrapped-IsValid

write-write-read_example :
    (p3 : Pipe) × ((write empty (4 ∷ []) >>= λ (n, p1).
    write p1 (5 ∷ 6 ∷ []) >>= λ (m, p2). read_finish p2 false (n + m))
      ≡ ok (4 ∷ 5 ∷ 6 ∷ [], p3))
unfolding make
write-write-read_example =
    write-write-read empty (4 ∷ []) (5 ∷ 6 ∷ []) (make-IsValid 0 3 (omega arith)) (omega arith) refl
      (omega arith)

-- A new pipe with a reader, after a write of one byte.
abbrev one_byte : Pipe
one_byte = record {
  queue = record { storage = 7 ∷ replicate 4095 0; capacity = 4096; size = 1; front = 0; back = 0 };
  readers = 1;
  writers = 0;
  ready = true;
}

one_byte-Reachable : Reachable one_byte
unfolding write init add_reader make push_back nusa_os.Common.add_word
one_byte-Reachable = Reachable.written (7 ∷ []) 1 (Reachable.reader_added Reachable.new) refl

read_start-go_example : read_start one_byte ≡ go
read_start-go_example = read_start-go one_byte one_byte-Reachable (omega arith)
