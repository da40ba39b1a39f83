-- ===== src/Filesystem/Pipe.antt =====
-- kernel/filesystem/Pipe.cpp: an anonymous pipe or FIFO, a circular queue of bytes with the counts
-- of its ends and the flag of its blocker. A call holds the pipe's mutex, so it is one step. `read`
-- is split where it blocks: other threads run between `read_start` and `read_finish`, which is told
-- whether the blocker was interrupted. The signal SIGPIPE of a failed `write` is left out, and
-- buffers are lists of bytes.
mod Stored
pub mod Transfer
pub mod Wakeup
mod Examples
use nusa_os.Common.{
  ℕ, zero, suc, ◌+◌, Bool, true, false, List, [], ◌∷◌, Option, none, some, Errno, Result, ok, err,
  ◌>>=◌, fail_if, ◌==◌, ltb, not, ◌&&◌, if◌then◌else◌, add_word, sub_word,
}
use nusa_os.Memory.Space.{page_size}
use nusa_os.Kstd.CircularQueue.{CircularQueue, make, push_back, pop_front, is_empty}

pub record Pipe : Type 0 where
  pub queue : CircularQueue ℕ
  pub readers : ℕ
  pub writers : ℕ
  pub ready : Bool

unfoldable pub init : Pipe
init = record { queue = make 0 page_size; readers = 0; writers = 0; ready = false }

unfoldable pub add_reader : Pipe → Pipe
add_reader p = record p { readers = add_word p.readers 1 }

unfoldable pub add_writer : Pipe → Pipe
add_writer p = record p { writers = add_word p.writers 1 }

unfoldable pub remove_reader : Pipe → Pipe
remove_reader p = record p { readers = sub_word p.readers 1 }

unfoldable pub remove_writer : Pipe → Pipe
remove_writer p =
    let writers = sub_word p.writers 1 in
    record p { writers = writers; ready = if writers == 0 then true else p.ready }

-- What `read` does before its critical section.
pub data Start : Type 0 where
  at_end blocked go : Start

unfoldable pub read_start : Pipe → Start
read_start p =
    if (p.writers == 0) && is_empty p.queue then at_end else if p.ready then go else blocked

-- The reading loop.
abbrev pub pop_bytes : ℕ → CircularQueue ℕ → List ℕ × CircularQueue ℕ
pop_bytes zero q = ([], q)
pop_bytes (suc n) q =
    let (byte, q') = pop_front 0 q in let (bytes, q'') = pop_bytes n q' in (byte ∷ bytes, q'')

unfoldable pub read_finish : Pipe → Bool → ℕ → Result (List ℕ × Pipe)
read_finish p interrupted count = fail_if interrupted Errno.eintr >>= λ _.
    let n = if ltb p.queue.size count then p.queue.size else count in
    let (bytes, q) = pop_bytes n p.queue in
    ok (
      bytes,
      record p { queue = q; ready = if is_empty q && not (p.writers == 0) then false else p.ready },
    )

-- The writing loop: the number of bytes that were tried, and the queue after them. It stops after
-- the first byte that the queue refuses.
abbrev pub push_bytes : List ℕ → CircularQueue ℕ → ℕ × CircularQueue ℕ
push_bytes [] q = (0, q)
push_bytes (byte ∷ bytes) q =
    let (flag, q') = push_back 0 q byte in
    let (n, q'') = push_bytes bytes q' in if flag then (suc n, q'') else (1, q')

unfoldable pub write : Pipe → List ℕ → Result (ℕ × Pipe)
write p buffer = fail_if (p.readers == 0) Errno.epipe >>= λ _.
    let (nwrote, q) = push_bytes buffer p.queue in
    ok (nwrote, record p { queue = q; ready = if nwrote == 0 then p.ready else true })

unfoldable pub can_read : Pipe → Bool → Bool
can_read p is_fifo_writer = not (is_empty p.queue) && not is_fifo_writer
